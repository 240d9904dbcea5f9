-- ===== src/Runs/Claiming.antt =====
-- Which run a claim takes: the scheduler's admission of one run at a time, oldest first.
use mathlib.Core.Path.{subst}
use free_weight.Base.{
  ℕ, ◌≤◌, ◌≡◌, ◌≢◌, refl, ap, ◌∙◌, ◌⊎◌, Bool, true, ◌&&◌, String, Option, none, some, List, [], ◌∷◌,
  arith, Bool-cases, Option-cases, inl, inr, keep_if, All, All-keep_if, count_if, length,
  sort_by-All, sort_by-All_inv, sort_by-IsSortedBy, IsSortedBy, eq_iff, eq_refl, str_eq,
}
use free_weight.RunState.{RunStatus}
use free_weight.RunState.Table.{run_eq→eq}
use free_weight.Store.Rows.{Run, Db, find_run, update_run, find_run-update_run}
use free_weight.Store.Actions.{Outcome, ok, err}
use free_weight.Store.Queries.{
  in_flight, is_queued, by_age, first_id, active_run_id, queue_depth, to_preparing, claim_candidate,
  claim_oldest, claim_unless, claim_next_queued,
}
use free_weight.Store.Keyed.{IsAbsent, IsKeyed}
use free_weight.Runs.Steps.{to_preparing-id}
use free_weight.Runs.Calls.{found-All}
use free_weight.Runs.Admission.{idle_table, first-none, count-keep_if}

keep_if-holds : (p : Run → Bool) (rs : List Run) → All (λ (r : Run). p r ≡ true) (keep_if p rs)
keep_if-holds p [] = tt
keep_if-holds p (r ∷ rs) = elim (Bool-cases (p r)) [
  | inl e ↦ rw e (e, keep_if-holds p rs)
  | inr e ↦ rw e (keep_if-holds p rs)
]

from_kept :
    (P : Run → Type 0) (p : Run → Bool) (rs : List Run)
    → All P (keep_if p rs)
    → All (λ (r : Run). p r ≡ true → P r) rs
from_kept P p [] h = tt
from_kept P p (r ∷ rs) h = elim (Bool-cases (p r)) [
  | inl e ↦ let h' = rw e at h in (λ _. h'.0, from_kept P p rs h'.1)
  | inr e ↦ let h' = rw e at h in (λ yes. cc, from_kept P p rs h')
]

none_of_absent :
    (id : String) (rs : List Run)
    → IsAbsent id rs
    → count_if (λ r. str_eq r.id id && is_queued r) rs ≡ 0
none_of_absent id [] h = refl
none_of_absent id (r ∷ rs) h = ground (arith, h.0, none_of_absent id rs h.1)

-- A keyed table has one row of a queued run's id.
one_row :
    (id : String) (rs : List Run) (r : Run)
    → IsKeyed rs
    → find_run id rs ≡ some r
    → is_queued r ≡ true
    → count_if (λ r. str_eq r.id id && is_queued r) rs ≡ 1
unfolding find_run
one_row id [] r key found q = cc
one_row id (x ∷ rs) r key found q = elim (Bool-cases (str_eq x.id id)) [
  | inl e ↦
      let same : x ≡ r = ground arith in
      let x_id : x.id ≡ id = (eq_iff x.id id).0 e in
      let queued : is_queued x ≡ true = rw same q in
      let rest = none_of_absent id rs (rw x_id at key.0) in rw (e, queued, rest) refl
  | inr e ↦ rw e (one_row id rs r key.1 (rw e at found) q)
]

-- What a claim answers: nothing, with the table as it was, because a run is in flight or none is
-- queued; or a run that was queued, no younger than any queued one, while none was in flight, and
-- which the table now has as preparing from this instant.
abbrev pub Claimed : ℕ → Db → Outcome (Option Run) × Db → Type 0
Claimed now db (err e, after) = ⊥
Claimed now db (ok none, after) = (after ≡ db) × ((active_run_id db ≢ none) ⊎ (queue_depth db ≡ 0))
Claimed now db (ok (some c), after) =
    (r : Run) × (find_run r.id db.runs ≡ some r)
    × (r.status ≡ RunStatus.queued)
    × All (λ (q : Run). is_queued q ≡ true → r.created_at ≤ q.created_at) db.runs
    × (count_if in_flight db.runs ≡ 0)
    × (c ≡ record r { status = RunStatus.preparing; started_at = some now })
    × (find_run r.id after.runs ≡ some c)
    × (after ≡ record db { runs = update_run r.id (to_preparing now) db.runs })

claimed_row :
    (now : ℕ) (db : Db) (r : Run)
    → find_run r.id db.runs ≡ some r
    → is_queued r ≡ true
    → find_run r.id (update_run r.id (to_preparing now) db.runs)
      ≡ some (record r { status = RunStatus.preparing; started_at = some now })
unfolding to_preparing
claimed_row now db r found queued =
    find_run-update_run r.id r.id (to_preparing now) db.runs (to_preparing-id now)
    ∙ rw found (rw (eq_refl r.id) (rw queued refl))

claim_candidate_lem :
    (now : ℕ) (db : Db) (r : Run)
    → IsKeyed db.runs
    → find_run r.id db.runs ≡ some r
    → is_queued r ≡ true
    → claim_candidate now r.id db ≡ (
      ok (some (record r { status = RunStatus.preparing; started_at = some now })),
      record db { runs = update_run r.id (to_preparing now) db.runs },
    )
unfolding claim_candidate
claim_candidate_lem now db r key found queued =
    let after = record db { runs = update_run r.id (to_preparing now) db.runs } in
    rw (one_row r.id db.runs r key found queued)
      (ap (λ o. (ok o, after)) (claimed_row now db r found queued))

in_queue :
    {queue : List Run} (kept : List Run) (P : Run → Type 0)
    → by_age kept ≡ queue
    → All P kept
    → All P queue
in_queue kept P e h = subst (λ l. All P l) e (sort_by-All (λ (x : Run). x.created_at) P kept h)

claim_from_queue :
    (now : ℕ) (db : Db) (queue : List Run)
    → by_age (keep_if is_queued db.runs) ≡ queue
    → IsKeyed db.runs
    → active_run_id db ≡ none
    → Claimed now db (claim_oldest now (first_id queue) db)
unfolding claim_oldest queue_depth
claim_from_queue now db [] e key idle = (
  refl,
  inr (
      count-keep_if is_queued db.runs
      ∙ ap (λ l. length l) (first-none (keep_if is_queued db.runs) (ap first_id e))),
)
claim_from_queue now db (r ∷ rest) e key idle =
    let kept = keep_if is_queued db.runs in
    let found =
      (in_queue kept (λ x. find_run x.id db.runs ≡ some x) e
        (All-keep_if _ is_queued db.runs (found-All db.runs key))).0 in
    let queued = (in_queue kept (λ x. is_queued x ≡ true) e (keep_if-holds is_queued db.runs)).0 in
    let sorted =
      subst (λ l. IsSortedBy (λ (x : Run). x.created_at) l) e
        (sort_by-IsSortedBy (λ (x : Run). x.created_at) kept) in
    let oldest =
      sort_by-All_inv (λ (x : Run). x.created_at) (λ (q : Run). r.created_at ≤ q.created_at) kept
        (rw e (omega arith, sorted.0)) in
    rw (claim_candidate_lem now db r key found queued) (
      r,
      found,
      run_eq→eq r.status RunStatus.queued queued,
      from_kept (λ (q : Run). r.created_at ≤ q.created_at) is_queued db.runs oldest,
      idle_table db idle,
      refl,
      claimed_row now db r found queued,
      refl,
    )

-- In a table in which run ids are unique a claim never raises, and it answers nothing, with the
-- table as it was, because a run is in flight or none is queued; or it answers a run that was queued
-- and no younger than any queued one, while no run was in flight, and sets that run alone to
-- preparing from this instant.
pub claim_next_queued-Claimed :
    (now : ℕ) (db : Db) → IsKeyed db.runs → Claimed now db (claim_next_queued now db)
unfolding claim_next_queued claim_unless
claim_next_queued-Claimed now db key = elim (Option-cases (active_run_id db)) [
  | inl idle ↦
      rw (idle, claim_unless)
        (claim_from_queue now db (by_age (keep_if is_queued db.runs)) refl key idle)
  | inr (id, busy) ↦ rw (busy, claim_unless) (refl, inl (λ none_active. cc))
]
