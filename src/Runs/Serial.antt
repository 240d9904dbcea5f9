-- ===== src/Runs/Serial.antt =====
-- One run at a time: every statement on the table keeps the invariant.
use native.Mathlib.Nat.{le_trans}
use free_weight.Base.{
  ◌≡◌, Bool, false, String, none, List, [], ◌∷◌, ◌++◌, count_if, All-append, arith, str_eq, eq_iff,
  Bool-cases, inl, inr,
}
use free_weight.RunState.{RunStatus, is_terminal_run}
use free_weight.Store.Rows.{Run, find_run}
use free_weight.Store.Queries.{in_flight, with_status, to_preparing, interrupt_ids, orphan_ids}
use free_weight.Store.Keyed.{IsAbsent, IsKeyed, update_run-IsKeyed, count-update_run, count-claim}
use free_weight.Store.Orphans.{recovered_idle, interrupt_ids-IsKeyed}
use free_weight.Runs.Steps.{
  RunsStep, insert, set, claim, interrupt_all, Chain, none_yet, then_step, HasEnd, IsSerial,
  with_status-id, to_preparing-id, set-in_flight, set-HasEnd, claim-HasEnd, recover-HasEnd,
}

IsAbsent-of_none : (id : String) (rs : List Run) → find_run id rs ≡ none → IsAbsent id rs
unfolding find_run
IsAbsent-of_none id [] h = tt
IsAbsent-of_none id (r ∷ rs) h = elim (Bool-cases (str_eq r.id id)) [
  | inl e ↦ absurd (let q = h in ground arith)
  | inr e ↦ (e, IsAbsent-of_none id rs (rw e at h))
]

IsAbsent-snoc :
    (id : String) (rs : List Run) (r : Run)
    → IsAbsent id rs
    → str_eq r.id id ≡ false
    → IsAbsent id (rs ++ r ∷ [])
IsAbsent-snoc id [] r h n = (n, tt)
IsAbsent-snoc id (x ∷ rs) r h n = (h.0, IsAbsent-snoc id rs r h.1 n)

IsKeyed-snoc : (rs : List Run) (r : Run) → IsKeyed rs → IsAbsent r.id rs → IsKeyed (rs ++ r ∷ [])
IsKeyed-snoc [] r key new = (tt, tt)
IsKeyed-snoc (x ∷ rs) r key new = (
  IsAbsent-snoc x.id rs r key.0 (ground (arith, eq_iff x.id r.id, eq_iff r.id x.id)),
  IsKeyed-snoc rs r key.1 new.1,
)

count-snoc :
    (p : Run → Bool) (rs : List Run) (r : Run)
    → p r ≡ false
    → count_if p (rs ++ r ∷ []) ≡ count_if p rs
count-snoc p [] r h = ground arith
count-snoc p (x ∷ rs) r h = ground (arith, count-snoc p rs r h)

queued_on_ground : (r : Run) → r.status ≡ RunStatus.queued → in_flight r ≡ false
queued_on_ground r h = rw h

queued-HasEnd : (r : Run) → r.status ≡ RunStatus.queued → HasEnd r
unfolding is_terminal_run
queued-HasEnd r h = rw h (λ x. cc)

pub RunsStep-IsSerial : {rs rs' : List Run} → RunsStep rs rs' → IsSerial rs → IsSerial rs'
RunsStep-IsSerial {rs} (insert r new q e) h = rw e (record {
  keyed = IsKeyed-snoc rs r h.keyed (IsAbsent-of_none r.id rs new);
  at_most_one = rw (count-snoc in_flight rs r (queued_on_ground r q)) h.at_most_one;
  ended = All-append HasEnd rs (r ∷ []) h.ended (queued-HasEnd r q, tt);
})
RunsStep-IsSerial {rs} (set id r t s c ec et found legal ne stamp e) h =
    let fewer =
      count-update_run in_flight id (with_status t s c ec et) rs r h.keyed found
        (set-in_flight r t s c ec et legal ne) in
    rw e (record {
      keyed =
          update_run-IsKeyed id (with_status t s c ec et) rs (with_status-id t s c ec et) h.keyed;
      at_most_one = le_trans fewer h.at_most_one;
      ended = set-HasEnd id t s c ec et rs stamp h.ended;
    })
RunsStep-IsSerial {rs} (claim now id idle e) h = rw e (record {
  keyed = update_run-IsKeyed id (to_preparing now) rs (to_preparing-id now) h.keyed;
  at_most_one = count-claim now id rs h.keyed idle;
  ended = claim-HasEnd now id rs h.ended;
})
RunsStep-IsSerial {rs} (interrupt_all now db same e) h =
    let idle : count_if in_flight (interrupt_ids now (orphan_ids db) rs) ≡ 0 =
      rw (← same) (recovered_idle now db) in
    rw e (record {
      keyed = interrupt_ids-IsKeyed now (orphan_ids db) rs h.keyed;
      at_most_one = rw idle (omega arith);
      ended = recover-HasEnd now (orphan_ids db) rs h.ended;
    })

-- So does any number of them.
pub Chain-IsSerial : {rs rs' : List Run} → Chain rs rs' → IsSerial rs → IsSerial rs'
Chain-IsSerial none_yet h = h
Chain-IsSerial (then_step c s) h = RunsStep-IsSerial s (Chain-IsSerial c h)
