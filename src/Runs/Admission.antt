-- ===== src/Runs/Admission.antt =====
-- claim_next_queued, a statement of `Steps` made only while no run is in flight.
use free_weight.Base.{
  ℕ, length, str_eq, ◌≡◌, ◌≢◌, refl, ap, ◌∙◌, Bool, String, Option, none, some, List, [], ◌∷◌,
  arith, Bool-cases, Option-cases, inl, inr, keep_if, count_if, insert_by, ◌==◌, ◌&&◌,
}
use free_weight.Store.Rows.{Run, Db}
use free_weight.Store.Queries.{
  in_flight, is_queued, active_run_id, by_age, first_id, claim_candidate, claim_oldest,
  claim_next_queued, claim_unless,
}
use free_weight.Runs.Steps.{claim, Chain, none_yet, then_step}
use free_weight.Runs.Chains.{Moves}

-- The claim puts a run in flight only where the query for one in flight found none.
pub count-keep_if : (p : Run → Bool) (rs : List Run) → count_if p rs ≡ length (keep_if p rs)
count-keep_if p [] = refl
count-keep_if p (r ∷ rs) = ground (arith, count-keep_if p rs)

first-insert_by : (key : Run → ℕ) (r : Run) (rs : List Run) → first_id (insert_by key r rs) ≢ none
first-insert_by key r [] = λ x. cc
first-insert_by key r (y ∷ rs) = ground arith

pub first-none : (rs : List Run) → first_id (by_age rs) ≡ none → rs ≡ []
first-none [] h = refl
first-none (r ∷ rs) h = absurd (first-insert_by (λ r. r.created_at) r (by_age rs) h)

pub idle_table : (db : Db) → active_run_id db ≡ none → count_if in_flight db.runs ≡ 0
unfolding active_run_id
idle_table db h =
    count-keep_if in_flight db.runs ∙ ap (λ l. length l) (first-none (keep_if in_flight db.runs) h)

claim_candidate-Chain :
    (now : ℕ) (id : String) (db : Db)
    → count_if in_flight db.runs ≡ 0
    → Chain db.runs (claim_candidate now id db).1.runs
unfolding claim_candidate
claim_candidate-Chain now id db idle =
    let c = then_step none_yet (claim now id idle refl) in
    elim (Bool-cases (count_if (λ r. str_eq r.id id && is_queued r) db.runs == 1)) [
      | inl e ↦ rw e c
      | inr e ↦ rw e c
    ]

claim_oldest-Chain :
    (now : ℕ) (o : Option String) (db : Db)
    → count_if in_flight db.runs ≡ 0
    → Chain db.runs (claim_oldest now o db).1.runs
unfolding claim_oldest
claim_oldest-Chain now none db idle = none_yet
claim_oldest-Chain now (some id) db idle = claim_candidate-Chain now id db idle

pub Moves-claim_next_queued : (now : ℕ) → Moves (claim_next_queued now)
unfolding claim_next_queued claim_unless
Moves-claim_next_queued now = record {
  at = λ db _. elim (Option-cases (active_run_id db)) [
    | inl none_active ↦
        rw (none_active, claim_unless) (claim_oldest-Chain now _ db (idle_table db none_active))
    | inr (id, busy) ↦ rw (busy, claim_unless) none_yet
  ];
}
