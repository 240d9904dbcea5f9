-- ===== src/Runs/Stuck.antt =====
-- A cancel request that comes after the engine's last check: _finish and execute_run on a run in
-- `cancelling`.
use free_weight.Base.{
  ℕ, ◌≤◌, ◌≡◌, ◌≢◌, refl, Bool, true, String, none, some, List, [], ◌∷◌, arith, Bool-cases,
  Option-cases, inl, inr, str_eq, count_if,
}
use free_weight.RunState.{
  RunStatus, run_in, is_legal_run_transition, require_run_transition, illegal_run_transition,
}
use free_weight.Store.Rows.{Run, Db, find_run}
use free_weight.Store.Actions.{
  Error, ok, err, state_error, run_cancelled, keyboard_interrupt, and_then,
}
use free_weight.Store.Queries.{in_flight, active_run_id, claim_next_queued, claim_unless}
use free_weight.Runs.Execution.{Cause, finish, finish_body, finish_row, finish_from, step_through}
use free_weight.Runs.Engine.{Naming, code_of, handle}
use free_weight.Runs.Admission.{idle_table}

-- The statuses in which `_finish` is asked to leave a run that was not cancelled.
abbrev pub is_verdict : RunStatus → Bool
is_verdict t = run_in t (RunStatus.completed ∷ RunStatus.failed ∷ [])

refused_row :
    (now : ℕ) (id : String) (t : RunStatus) (cause : Cause) (r : Run) (db : Db)
    → r.status ≡ RunStatus.cancelling
    → is_verdict t ≡ true
    → finish_row now id t cause (some r) db
      ≡ (err (state_error (illegal_run_transition RunStatus.cancelling t)), db)
unfolding finish_row finish_from step_through require_run_transition is_legal_run_transition
refused_row now id RunStatus.completed cause r db s v = rw s refl
refused_row now id RunStatus.failed cause r db s v = rw s refl
refused_row now id _ cause r db s v = cc

-- A run in `cancelling` cannot be finished as completed or failed: `_finish` raises
-- IllegalTransition and writes nothing.
pub finish-cancelling :
    (now : ℕ) (id : String) (t : RunStatus) (cause : Cause) (r : Run) (db : Db)
    → find_run id db.runs ≡ some r
    → r.status ≡ RunStatus.cancelling
    → is_verdict t ≡ true
    → finish now id t cause db
      ≡ (err (state_error (illegal_run_transition RunStatus.cancelling t)), db)
unfolding finish finish_body
finish-cancelling now id t cause r db found s v =
    rw found (rw (refused_row now id t cause r db s v) refl)

found-count :
    (p : Run → Bool) (id : String) (rs : List Run) (r : Run)
    → find_run id rs ≡ some r
    → p r ≡ true
    → 1 ≤ count_if p rs
unfolding find_run
found-count p id [] r found h = cc
found-count p id (x ∷ rs) r found h = elim (Bool-cases (str_eq x.id id)) [
  | inl e ↦ let same : x ≡ r = ground arith in rw same (rw h (omega arith))
  | inr e ↦ let rest = found-count p id rs r (rw e at found) h in ground arith
]

claim_blocked :
    (now : ℕ) (id : String) (r : Run) (db : Db)
    → find_run id db.runs ≡ some r
    → in_flight r ≡ true
    → claim_next_queued now db ≡ (ok none, db)
unfolding claim_next_queued claim_unless
claim_blocked now id r db found flying = elim (Option-cases (active_run_id db)) [
  | inl idle ↦
      absurd (omega (arith, found-count in_flight id db.runs r found flying, idle_table db idle))
  | inr (other, busy) ↦ rw (busy, claim_unless) refl
]

handle_other :
    (n : Naming) (now : ℕ) (id : String) (e : Error) (db : Db)
    → e ≢ run_cancelled
    → e ≢ keyboard_interrupt
    → handle n now id (err e) db
      ≡ and_then
          (finish now id RunStatus.failed
            (record { error_code = some (code_of n e); error_text = some (n.text_of e) })
            db)
          (λ _ after. (ok RunStatus.failed, after))
unfolding handle
handle_other n now id run_cancelled db a b = absurd (a refl)
handle_other n now id keyboard_interrupt db a b = absurd (b refl)
handle_other n now id _ db a b = refl

-- If what a run executes raises, with anything but RunCancelled or a keyboard interrupt, while the
-- run is in `cancelling`, the handler of `execute_run` raises IllegalTransition itself and writes
-- nothing, and from then on a claim answers nothing for as long as nothing else changes the tables,
-- however many runs are queued.
pub stuck_in_cancelling :
    (n : Naming) (now later : ℕ) (id : String) (e : Error) (r : Run) (db : Db)
    → find_run id db.runs ≡ some r
    → r.status ≡ RunStatus.cancelling
    → e ≢ run_cancelled
    → e ≢ keyboard_interrupt
    → (handle n now id (err e) db
        ≡ (err (state_error (illegal_run_transition RunStatus.cancelling RunStatus.failed)), db))
      × (claim_next_queued later db ≡ (ok none, db))
stuck_in_cancelling n now later id e r db found s a b = (
  rw (handle_other n now id e db a b)
      (rw (finish-cancelling now id RunStatus.failed _ r db found s refl) refl),
  claim_blocked later id r db found (rw s refl),
)
