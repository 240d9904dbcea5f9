-- ===== src/Events/Delivery.antt =====
-- The stream as a whole: every event after the client's number, once, in order.
use mathlib.Core.List.{append-nil}
use free_weight.Base.{
  ℕ, zero, suc, ◌+◌, ◌*◌, ◌≡◌, ◌≤◌, refl, sym, ap, ◌∙◌, Bool, true, false, ◌&&◌, String, List, [],
  ◌∷◌, ◌++◌, length, take, drop, All, drop-nil, drop-drop, drop-length-take, take-append-drop,
  length-drop, length-take, arith, if◌then◌else◌, Bool-cases, inl, inr,
}
use free_weight.Store.Rows.{RunEvent, Db}
use free_weight.Events.Publish.{events_of}
use free_weight.Events.GapFree.{IsRangeFrom, IsGapFree, sequences}
use free_weight.Events.Stream.{Poll, event_stream, max_event_batch, is_empty}
use free_weight.Events.Replay.{
  list_since_lem, events_in, events_in-append, up_to_terminal, up_to_terminal-append,
  up_to_terminal-none, has_terminal, range-up_to_terminal, heartbeat_frame-events,
  send_batch-events, send_batch-ended, send_batch-sequence, range-drop, range-take,
}

-- The events that one turn of the loop reads.
abbrev batch_at : String → ℕ → Db → List RunEvent
batch_at run_id s db = take max_event_batch (drop s (events_of run_id db.events))

range-batch :
    (run_id : String) (s : ℕ) (db : Db)
    → IsGapFree run_id db
    → IsRangeFrom (suc s) (sequences (batch_at run_id s db))
range-batch run_id s db h =
    let e : suc s ≡ 1 + s = omega arith in
    rw e (range-take (1 + s) max_event_batch _ (range-drop 1 s (events_of run_id db.events) h))

module _ (run_id : String) (drained close : Bool) where
  abbrev sent_events : ℕ → List Poll → List RunEvent
  sent_events s ps = events_in (event_stream run_id drained close s ps)

  turn_ends :
      (s : ℕ) (p : Poll) (ps : List Poll)
      → IsGapFree run_id p.db
      → has_terminal (batch_at run_id s p.db) ≡ true
      → sent_events s (p ∷ ps) ≡ up_to_terminal (batch_at run_id s p.db)
  unfolding event_stream
  turn_ends s p ps h t =
      let batch = batch_at run_id s p.db in
      rw (list_since_lem run_id s max_event_batch p.db h)
        (rw (send_batch-ended close s batch ∙ t) (send_batch-events close s batch))

  turn_goes_on :
      (s : ℕ) (p : Poll) (ps : List Poll)
      → IsGapFree run_id p.db
      → has_terminal (batch_at run_id s p.db) ≡ false
      → sent_events s (p ∷ ps)
        ≡ batch_at run_id s p.db
          ++ events_in (
              if is_empty (batch_at run_id s p.db) && drained
              then []
              else event_stream run_id drained close (s + length (batch_at run_id s p.db)) ps)
  unfolding event_stream
  turn_goes_on s p ps h t =
      let batch = batch_at run_id s p.db in
      rw (list_since_lem run_id s max_event_batch p.db h) (
        rw (send_batch-ended close s batch ∙ t) (
          rw (send_batch-sequence close s batch (range-batch run_id s p.db h) t) (
            rw events_in-append (
              rw events_in-append (
                rw heartbeat_frame-events (
                  rw (send_batch-events close s batch ∙ up_to_terminal-none batch t)
                    (rw append-nil)))))))

IsRangeFrom-append :
    (n : ℕ) (xs ys : List RunEvent)
    → IsRangeFrom n (sequences xs)
    → IsRangeFrom (n + length xs) (sequences ys)
    → IsRangeFrom n (sequences (xs ++ ys))
IsRangeFrom-append n [] ys hx hy = let e : n + 0 ≡ n = omega arith in rw e at hy
IsRangeFrom-append n (x ∷ xs) ys hx hy =
    let e : n + suc (length xs) ≡ suc n + length xs = omega arith in
    (hx.0, IsRangeFrom-append (suc n) xs ys hx.1 (rw e at hy))

-- Whatever is stored while a client is connected, as long as the run's stored sequences are gap-free
-- at each read, the events that the client is sent have the sequences after the one that it asked
-- to resume from, one by one: none is repeated, left out or out of order.
pub event_stream_in_order :
    (run_id : String) (drained close : Bool) (after : ℕ) (polls : List Poll)
    → All (λ (p : Poll). IsGapFree run_id p.db) polls
    → IsRangeFrom
        (suc after)
        (sequences (events_in (event_stream run_id drained close after polls)))
event_stream_in_order run_id drained close after [] h = unfold event_stream in tt
event_stream_in_order run_id drained close after (p ∷ ps) h =
    let batch = batch_at run_id after p.db in
    let r = range-batch run_id after p.db h.0 in
    elim (Bool-cases (has_terminal batch)) [
      | inl t ↦
          rw (turn_ends run_id drained close after p ps h.0 t)
            (range-up_to_terminal (suc after) batch r)
      | inr t ↦ rw (turn_goes_on run_id drained close after p ps h.0 t) (
          IsRangeFrom-append (suc after) batch _ r (elim (Bool-cases (is_empty batch && drained)) [
            | inl stop ↦ rw stop tt
            | inr go ↦
                let q : suc after + length batch ≡ suc (after + length batch) = omega arith in
                rw (go, q)
                  (event_stream_in_order run_id drained close (after + length batch) ps h.1)
          ]))
    ]

drop-all : (n : ℕ) (es : List RunEvent) → length es ≤ n → drop n es ≡ []
drop-all n [] h = drop-nil n
drop-all zero (e ∷ es) h = absurd (omega arith)
drop-all (suc n) (e ∷ es) h = drop-all n es (omega arith)

batch_split :
    (s : ℕ) (own : List RunEvent)
    → drop s own
      ≡ take max_event_batch (drop s own)
        ++ drop (s + length (take max_event_batch (drop s own))) own
batch_split s own =
    let batch = take max_event_batch (drop s own) in
    sym (
      ap (λ l. batch ++ l)
        (sym (drop-drop s (length batch) own) ∙ drop-length-take max_event_batch (drop s own))
      ∙ take-append-drop max_event_batch (drop s own))

-- What is left to send once a batch without a terminal event has been sent.
after_batch :
    (s : ℕ) (own : List RunEvent)
    → has_terminal (take max_event_batch (drop s own)) ≡ false
    → up_to_terminal (drop s own)
      ≡ take max_event_batch (drop s own)
        ++ up_to_terminal (drop (s + length (take max_event_batch (drop s own))) own)
after_batch s own t =
    ap up_to_terminal (batch_split s own)
    ∙ up_to_terminal-append (take max_event_batch (drop s own))
        (drop (s + length (take max_event_batch (drop s own))) own)
    ∙ rw t

last_batch :
    (s : ℕ) (own : List RunEvent)
    → has_terminal (take max_event_batch (drop s own)) ≡ true
    → up_to_terminal (drop s own) ≡ up_to_terminal (take max_event_batch (drop s own))
last_batch s own t =
    ap up_to_terminal (batch_split s own)
    ∙ up_to_terminal-append (take max_event_batch (drop s own))
        (drop (s + length (take max_event_batch (drop s own))) own)
    ∙ rw t

empty_batch :
    (s : ℕ) (own : List RunEvent)
    → is_empty (take max_event_batch (drop s own)) ≡ true
    → length own ≤ s
empty_batch s own h = omega (arith, length-drop s own, nothing_taken (drop s own) h)
  where
    nothing_taken : (es : List RunEvent) → is_empty (take max_event_batch es) ≡ true → length es ≡ 0
    nothing_taken [] h = refl
    nothing_taken (e ∷ es) h = cc

batch_bound :
    (s n : ℕ) (own : List RunEvent)
    → length own ≤ s + 200 * suc n
    → length own ≤ s + length (take max_event_batch (drop s own)) + 200 * n
batch_bound s n own h = omega (arith, length-take max_event_batch (drop s own), length-drop s own)

-- At each poll the table is gap-free and the run has these events.
abbrev pub Shows : String → List RunEvent → List Poll → Type 0
Shows run_id own = All (λ p. IsGapFree run_id p.db × (events_of run_id p.db.events ≡ own))

-- On a table that does not change and is gap-free, polls enough for its size send a client every
-- event after the one that it asked to resume from, up to the first terminal one and no further.
pub event_stream_complete :
    (run_id : String) (drained close : Bool) (after : ℕ) (own : List RunEvent) (polls : List Poll)
    → Shows run_id own polls
    → length own ≤ after + 200 * length polls
    → events_in (event_stream run_id drained close after polls) ≡ up_to_terminal (drop after own)
event_stream_complete run_id drained close after own [] h enough =
    unfold event_stream in rw (drop-all after own (omega arith))
event_stream_complete run_id drained close after own (p ∷ ps) h enough =
    let batch = take max_event_batch (drop after own) in
    let same = h.0.1 in
    elim (Bool-cases (has_terminal batch)) [
      | inl t ↦
          turn_ends run_id drained close after p ps h.0.0 (rw same t)
          ∙ rw same (sym (last_batch after own t))
      | inr t ↦
          turn_goes_on run_id drained close after p ps h.0.0 (rw same t)
          ∙ rw same (
              ap (λ l. batch ++ l)
                (elim (Bool-cases (is_empty batch && drained)) [
                  | inl stop ↦ rw stop (
                      rw (
                        drop-all (after + length batch) own
                          (ground (arith, empty_batch after own))))
                  | inr go ↦ rw go (
                      event_stream_complete run_id drained close (after + length batch) own ps h.1
                        (batch_bound after (length ps) own enough))
                ])
              ∙ sym (after_batch after own t))
    ]
