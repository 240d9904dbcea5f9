-- ===== src/Runs/Cancelling.antt =====
-- What one `cancel_run` call does, status by status.
use free_weight.Base.{
  ℕ, ◌≡◌, refl, ◌∙◌, true, false, none, some, arith, Bool-cases, inl, inr, if◌then◌else◌, eq_iff,
}
use free_weight.RunState.{
  RunStatus, return, raise, StateError, run_not_cancellable, run_eq, is_legal_run_transition,
  require_run_transition, cancellation_target,
}
use free_weight.Store.Rows.{Run, Db, find_run, update_run, find_run-update_run}
use free_weight.Store.Actions.{Outcome, ok, err, state_error}
use free_weight.Store.Queries.{set_status, with_status}
use free_weight.Events.Publish.{Draft, has_run}
use free_weight.Events.GapFree.{IsGapFree, push}
use free_weight.Events.Appending.{publish-push, found-has_run}
use free_weight.Runs.Services.{
  announce, with_message, cancel_to, cancel_body, announce_cancel, cancel_run,
}
use free_weight.Runs.Steps.{with_status-id}
use free_weight.Runs.Calls.{resolve_some}
use free_weight.Runs.Pending.{IsKeyedTests, cancelled_rows, cancel_pending_tests-exact}

-- The row of a run that a cancel request has moved to `t`, and the tables without their events.
abbrev pub stopped : ℕ → RunStatus → Run → Run
stopped now t =
    with_status t none (if run_eq t RunStatus.cancelled then some now else none) none none

abbrev pub written : ℕ → RunStatus → Run → Db → Db
written now t r db = record db {
  runs = update_run r.id (stopped now t) db.runs;
  tests = if run_eq t RunStatus.cancelled then cancelled_rows r.id db.tests else db.tests;
}

cancel_to_lem :
    (now : ℕ) (r : Run) (t : RunStatus) (db : Db)
    → IsKeyedTests db.tests
    → cancel_to now r t db ≡ (ok tt, written now t r db)
unfolding cancel_to set_status
cancel_to_lem now r t db key = elim (Bool-cases (run_eq t RunStatus.cancelled)) [
  | inl e ↦ rw e (cancel_pending_tests-exact r.id _ key)
  | inr e ↦ rw e refl
]

found_stopped :
    (now : ℕ) (t : RunStatus) (r : Run) (db : Db)
    → find_run r.id db.runs ≡ some r
    → find_run r.id (written now t r db).runs ≡ some (stopped now t r)
found_stopped now t r db found =
    find_run-update_run r.id r.id (stopped now t) db.runs
      (with_status-id t none (if run_eq t RunStatus.cancelled then some now else none) none none)
    ∙ rw found (ground (arith, eq_iff r.id r.id))

cancel_body_moves :
    (now : ℕ) (r : Run) (t : RunStatus) (db : Db)
    → IsKeyedTests db.tests
    → find_run r.id db.runs ≡ some r
    → run_eq r.status RunStatus.cancelling ≡ false
    → cancellation_target r.status ≡ return t
    → is_legal_run_transition r.status t ≡ true
    → cancel_body now r.id db ≡ (ok (stopped now t r, some t), written now t r db)
unfolding cancel_body require_run_transition
cancel_body_moves now r t db key found live target legal = rw (resolve_some r.id db r found) (
    rw live (
      rw target
        (rw legal (rw (cancel_to_lem now r t db key) (rw (found_stopped now t r db found) refl)))))

-- The event of a cancel request.
abbrev pub cancel_draft : ℕ → RunStatus → Draft
cancel_draft now t =
    if run_eq t RunStatus.cancelled
    then with_message "run.cancelled" "Run cancelled before it started executing." now
    else with_message "run.progress" "Cancellation requested; stopping at the next boundary." now

announce_cancel_lem :
    (now : ℕ) (r : Run) (t : RunStatus) (db : Db)
    → has_run r.id db.runs ≡ true
    → IsGapFree r.id db
    → announce_cancel now (r, some t) db ≡ (ok tt, push r.id (cancel_draft now t) db)
unfolding announce_cancel announce
announce_cancel_lem now r t db stored h = elim (Bool-cases (run_eq t RunStatus.cancelled)) [
  | inl e ↦ rw e (
      rw
        (publish-push r.id
          (with_message "run.cancelled" "Run cancelled before it started executing." now) db stored
          h refl)
        refl)
  | inr e ↦ rw e (
      rw
        (publish-push r.id
          (with_message "run.progress" "Cancellation requested; stopping at the next boundary." now)
          db stored h refl)
        refl)
]

cancelling_has_no_target :
    (s t : RunStatus) → cancellation_target s ≡ return t → run_eq s RunStatus.cancelling ≡ false
unfolding cancellation_target
cancelling_has_no_target s t h = ground arith

return_legal :
    (s t : RunStatus) → cancellation_target s ≡ return t → is_legal_run_transition s t ≡ true
unfolding cancellation_target is_legal_run_transition
return_legal RunStatus.queued t h = ground arith
return_legal _ t h = ground arith

cancel_body_refused :
    (now : ℕ) (r : Run) (e : StateError) (db : Db)
    → find_run r.id db.runs ≡ some r
    → run_eq r.status RunStatus.cancelling ≡ false
    → cancellation_target r.status ≡ raise e
    → cancel_body now r.id db ≡ (err (state_error e), db)
unfolding cancel_body
cancel_body_refused now r e db found live refused =
    rw (resolve_some r.id db r found) (rw live (rw refused refl))

cancel_body_again :
    (now : ℕ) (r : Run) (db : Db)
    → find_run r.id db.runs ≡ some r
    → run_eq r.status RunStatus.cancelling ≡ true
    → cancel_body now r.id db ≡ (ok (r, none), db)
unfolding cancel_body
cancel_body_again now r db found again = rw (resolve_some r.id db r found) (rw again refl)

module _ (now : ℕ) (r : Run) (db : Db) (key : IsKeyedTests db.tests) (gaps : IsGapFree r.id db)
    (found : find_run r.id db.runs ≡ some r) where
  cancel_run_moves :
      (t : RunStatus)
      → cancellation_target r.status ≡ return t
      → cancel_run now r.id db
        ≡ (ok (stopped now t r), push r.id (cancel_draft now t) (written now t r db))
  unfolding cancel_run with_status
  cancel_run_moves t e =
      let body =
        cancel_body_moves now r t db key found (cancelling_has_no_target r.status t e) e
          (return_legal r.status t e) in
      let stored =
        found-has_run r.id (stopped now t r) (written now t r db).runs
          (found_stopped now t r db found) in
      rw body
        (rw (announce_cancel_lem now (stopped now t r) t (written now t r db) stored gaps) refl)

  cancel_run_refused :
      (e : StateError)
      → run_eq r.status RunStatus.cancelling ≡ false
      → cancellation_target r.status ≡ raise e
      → cancel_run now r.id db ≡ (err (state_error e), db)
  unfolding cancel_run
  cancel_run_refused e live refused = rw (cancel_body_refused now r e db found live refused) refl

  cancel_run_again :
      run_eq r.status RunStatus.cancelling ≡ true → cancel_run now r.id db ≡ (ok r, db)
  unfolding cancel_run announce_cancel
  cancel_run_again again = rw (cancel_body_again now r db found again) refl

-- The run's row once it is cancelled, and once it is asked to stop.
abbrev pub at_cancelled : ℕ → Run → Run
at_cancelled now r = record r { status = RunStatus.cancelled; completed_at = some now }

abbrev pub at_cancelling : Run → Run
at_cancelling r = record r { status = RunStatus.cancelling }

-- A run cancelled outright: its row, its open tests, and the event.
abbrev pub cancelled_outright : ℕ → Run → Db → Outcome Run × Db
cancelled_outright now r db = (
  ok (at_cancelled now r),
  push r.id (with_message "run.cancelled" "Run cancelled before it started executing." now)
      (record db {
        runs = update_run r.id (at_cancelled now) db.runs;
        tests = cancelled_rows r.id db.tests;
      }),
)

-- A run that is executed, asked to stop.
abbrev pub asked_to_stop : ℕ → Run → Db → Outcome Run × Db
asked_to_stop now r db = (
  ok (at_cancelling r),
  push r.id
      (with_message "run.progress" "Cancellation requested; stopping at the next boundary." now)
      (record db { runs = update_run r.id at_cancelling db.runs }),
)

-- What `cancel_run` comes to, by the run's status.
abbrev pub cancelled_from : ℕ → Run → Db → RunStatus → Outcome Run × Db
cancelled_from now r db RunStatus.queued = cancelled_outright now r db
cancelled_from now r db RunStatus.preparing = cancelled_outright now r db
cancelled_from now r db RunStatus.warming = cancelled_outright now r db
cancelled_from now r db RunStatus.running = asked_to_stop now r db
cancelled_from now r db RunStatus.cancelling = (ok r, db)
cancelled_from now r db s = (err (state_error (run_not_cancellable s)), db)

-- Where test ids are unique, a cancel request by a stored run's id, whose stored sequences are
-- gap-free, does the following. A run that is queued, preparing or warming becomes cancelled with
-- its end stamped, its pending and running tests and no other become cancelled, and `run.cancelled`
-- is appended. A running run becomes cancelling, and `run.progress` is appended. Every other column
-- keeps its value. A run that is cancelling is returned as it is, and for any other
-- RunNotCancellable is raised; in both cases nothing is written.
pub cancel_run-CancelledTo :
    (now : ℕ) (r : Run) (db : Db)
    → IsKeyedTests db.tests
    → IsGapFree r.id db
    → find_run r.id db.runs ≡ some r
    → cancel_run now r.id db ≡ cancelled_from now r db r.status
unfolding cancellation_target with_status
cancel_run-CancelledTo now r db key gaps found = by_status r.status refl
  where
    by_status : (s : RunStatus) → r.status ≡ s → cancel_run now r.id db ≡ cancelled_from now r db s
    by_status RunStatus.queued e =
        cancel_run_moves now r db key gaps found RunStatus.cancelled (rw e refl)
    by_status RunStatus.preparing e =
        cancel_run_moves now r db key gaps found RunStatus.cancelled (rw e refl)
    by_status RunStatus.warming e =
        cancel_run_moves now r db key gaps found RunStatus.cancelled (rw e refl)
    by_status RunStatus.running e =
        cancel_run_moves now r db key gaps found RunStatus.cancelling (rw e refl)
    by_status RunStatus.cancelling e = cancel_run_again now r db key gaps found (rw e refl)
    by_status s e =
        cancel_run_refused now r db key gaps found (run_not_cancellable s) (rw e refl) (rw e refl)
