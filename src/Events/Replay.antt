-- ===== src/Events/Replay.antt =====
-- What a subscriber of a gap-free table is sent.
use free_weight.Base.{
  ℕ, zero, suc, ◌+◌, ◌-◌, ◌≡◌, refl, sym, ap, ◌∙◌, ltb, Bool, true, false, String, List, [], ◌∷◌,
  ◌++◌, length, take, drop, keep_if, keep_if-keep_if, any_of, sort_by, insert_by, drop-nil, arith,
  str_eq, if◌then◌else◌, Bool-cases, inl, inr,
}
use free_weight.Store.Rows.{RunEvent, Db}
use free_weight.Events.Publish.{events_of, is_terminal}
use free_weight.Events.GapFree.{IsRangeFrom, IsGapFree, sequences}
use free_weight.Events.Stream.{
  Frame, event, heartbeat, closing, list_since, send_batch, closing_frame, heartbeat_frame,
}

keep_after :
    (m after : ℕ) (es : List RunEvent)
    → IsRangeFrom (suc m) (sequences es)
    → keep_if (λ e. ltb after e.sequence) es ≡ drop (after - m) es
keep_after m after [] h = sym (drop-nil (after - m))
keep_after m after (e ∷ es) h = elim (Bool-cases (ltb after e.sequence)) [
  | inl later ↦
      let z : after - m ≡ 0 = ground arith in
      let z' : after - suc m ≡ 0 = ground arith in
      rw (later, z) (ap (λ l. e ∷ l) (keep_after (suc m) after es h.1 ∙ ap (λ k. drop k es) z'))
  | inr seen ↦
      let z : after - m ≡ suc (after - suc m) = ground arith in
      rw (seen, z) (keep_after (suc m) after es h.1)
]

insert-range :
    (n : ℕ) (e : RunEvent) (es : List RunEvent)
    → IsRangeFrom n (sequences (e ∷ es))
    → insert_by (λ x. x.sequence) e es ≡ e ∷ es
insert-range n e [] h = refl
insert-range n e (x ∷ es) h = ground arith

sort-range :
    (n : ℕ) (es : List RunEvent) → IsRangeFrom n (sequences es) → sort_by (λ e. e.sequence) es ≡ es
sort-range n [] h = refl
sort-range n (e ∷ es) h = rw (sort-range (suc n) es h.1) (insert-range n e es h)

pub range-drop :
    (n k : ℕ) (es : List RunEvent)
    → IsRangeFrom n (sequences es)
    → IsRangeFrom (n + k) (sequences (drop k es))
range-drop n zero es h = let e : n + 0 ≡ n = omega arith in rw e h
range-drop n (suc k) [] h = tt
range-drop n (suc k) (e ∷ es) h =
    let eq : n + suc k ≡ suc n + k = omega arith in rw eq (range-drop (suc n) k es h.1)

pub range-take :
    (n k : ℕ) (es : List RunEvent)
    → IsRangeFrom n (sequences es)
    → IsRangeFrom n (sequences (take k es))
range-take n zero es h = tt
range-take n (suc k) [] h = tt
range-take n (suc k) (e ∷ es) h = (h.0, range-take (suc n) k es h.1)

-- Over a gap-free table a read returns the events after the given number of them, at most `limit`,
-- in the order of insertion.
pub list_since_lem :
    (run_id : String) (after limit : ℕ) (db : Db)
    → IsGapFree run_id db
    → list_since run_id after limit db ≡ take limit (drop after (events_of run_id db.events))
unfolding list_since
list_since_lem run_id after limit db h =
    let own = events_of run_id db.events in
    let z : after - 0 ≡ after = omega arith in
    rw (keep_if-keep_if (λ e. str_eq e.run_id run_id) (λ e. ltb after e.sequence) db.events) (
      rw (keep_after 0 after own h, z)
        (ap (take limit) (sort-range (1 + after) (drop after own) (range-drop 1 after own h))))

-- The events among the frames.
abbrev pub events_in : List Frame → List RunEvent
events_in [] = []
events_in (event e ∷ fs) = e ∷ events_in fs
events_in (heartbeat ∷ fs) = events_in fs
events_in (closing ∷ fs) = events_in fs

-- Events up to the first terminal one, that one included.
abbrev pub up_to_terminal : List RunEvent → List RunEvent
up_to_terminal [] = []
up_to_terminal (e ∷ es) = if is_terminal e then e ∷ [] else e ∷ up_to_terminal es

abbrev pub has_terminal : List RunEvent → Bool
has_terminal = any_of is_terminal

pub events_in-append : (xs ys : List Frame) → events_in (xs ++ ys) ≡ events_in xs ++ events_in ys
events_in-append [] ys = refl
events_in-append (event e ∷ xs) ys = ap (λ l. e ∷ l) (events_in-append xs ys)
events_in-append (heartbeat ∷ xs) ys = events_in-append xs ys
events_in-append (closing ∷ xs) ys = events_in-append xs ys

pub up_to_terminal-append :
    (xs ys : List RunEvent)
    → up_to_terminal (xs ++ ys)
      ≡ (if has_terminal xs then up_to_terminal xs else xs ++ up_to_terminal ys)
up_to_terminal-append [] ys = refl
up_to_terminal-append (e ∷ xs) ys = ground (arith, up_to_terminal-append xs ys)

pub up_to_terminal-none : (xs : List RunEvent) → has_terminal xs ≡ false → up_to_terminal xs ≡ xs
up_to_terminal-none [] h = refl
up_to_terminal-none (e ∷ xs) h = ground (arith, up_to_terminal-none xs)

pub range-up_to_terminal :
    (n : ℕ) (es : List RunEvent)
    → IsRangeFrom n (sequences es)
    → IsRangeFrom n (sequences (up_to_terminal es))
range-up_to_terminal n [] h = tt
range-up_to_terminal n (e ∷ es) h = elim (Bool-cases (is_terminal e)) [
  | inl last ↦ rw last (h.0, tt)
  | inr more ↦ rw more (h.0, range-up_to_terminal (suc n) es h.1)
]

pub closing_frame-events : (close : Bool) → events_in (closing_frame close) ≡ []
closing_frame-events true = refl
closing_frame-events false = refl

pub heartbeat_frame-events : (due : Bool) → events_in (heartbeat_frame due) ≡ []
heartbeat_frame-events true = refl
heartbeat_frame-events false = refl

-- What the inner loop writes, whether it ends the stream, and the sequence that it reaches.
pub send_batch-events :
    (close : Bool) (s : ℕ) (es : List RunEvent)
    → events_in (send_batch close s es).frames ≡ up_to_terminal es
unfolding send_batch
send_batch-events close s [] = refl
send_batch-events close s (e ∷ es) =
    ground (arith, send_batch-events close e.sequence es, closing_frame-events close)

pub send_batch-ended :
    (close : Bool) (s : ℕ) (es : List RunEvent) → (send_batch close s es).ended ≡ has_terminal es
unfolding send_batch
send_batch-ended close s [] = refl
send_batch-ended close s (e ∷ es) = ground (arith, send_batch-ended close e.sequence es)

pub send_batch-sequence :
    (close : Bool) (s : ℕ) (es : List RunEvent)
    → IsRangeFrom (suc s) (sequences es)
    → has_terminal es ≡ false
    → (send_batch close s es).sequence ≡ s + length es
unfolding send_batch
send_batch-sequence close s [] h n = omega arith
send_batch-sequence close s (e ∷ es) h n =
    let e' = h.0 in rw e' (ground (arith, send_batch-sequence close (suc s) es h.1))
