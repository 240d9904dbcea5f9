-- ===== src/Runs/Resuming.antt =====
-- What one `resume_run` call does.
use free_weight.Base.{
  ℕ, ◌≡◌, refl, ap, ◌∙◌, true, false, some, arith, Bool-cases, inl, inr, if◌then◌else◌, eq_iff,
}
use free_weight.RunState.{
  RunStatus, run_eq, is_legal_run_transition, require_run_transition, illegal_run_transition,
}
use free_weight.Store.Rows.{Run, Db, find_run, update_run, find_run-update_run}
use free_weight.Store.Actions.{ok, err, state_error, other_error, or_throw}
use free_weight.Store.Queries.{set_status, with_status}
use free_weight.Events.Publish.{Draft}
use free_weight.Events.GapFree.{IsGapFree, push}
use free_weight.Events.Appending.{publish-push, found-has_run}
use free_weight.Runs.Services.{announce, with_message, resume_body, resume_run}
use free_weight.Runs.Calls.{resolve_some}

-- The run's row, the event and the tables after a resume.
abbrev pub requeued : Run → Run
requeued r = record r { status = RunStatus.queued }

abbrev pub resume_draft : ℕ → Draft
resume_draft now = with_message "run.progress" "Run re-queued for resume." now

abbrev pub requeue : Run → Db → Db
requeue r db = record db { runs = update_run r.id requeued db.runs }

found_requeued :
    (r : Run) (db : Db)
    → find_run r.id db.runs ≡ some r
    → find_run r.id (requeue r db).runs ≡ some (requeued r)
found_requeued r db found =
    find_run-update_run r.id r.id requeued db.runs (λ x. refl)
    ∙ rw found (ground (arith, eq_iff r.id r.id))

resume_body_moves :
    (r : Run) (db : Db)
    → find_run r.id db.runs ≡ some r
    → is_legal_run_transition r.status RunStatus.queued ≡ true
    → resume_body r.id db ≡ (ok (requeued r), requeue r db)
unfolding resume_body require_run_transition set_status with_status
resume_body_moves r db found legal =
    rw (resolve_some r.id db r found)
      (rw legal (ap (λ o. or_throw o other_error (requeue r db)) (found_requeued r db found)))

resume_body_refused :
    (r : Run) (db : Db)
    → find_run r.id db.runs ≡ some r
    → is_legal_run_transition r.status RunStatus.queued ≡ false
    → resume_body r.id db
      ≡ (err (state_error (illegal_run_transition r.status RunStatus.queued)), db)
unfolding resume_body require_run_transition
resume_body_refused r db found illegal = rw (resolve_some r.id db r found) (rw illegal refl)

only_interrupted :
    (s : RunStatus) → is_legal_run_transition s RunStatus.queued ≡ run_eq s RunStatus.interrupted
unfolding is_legal_run_transition
only_interrupted RunStatus.queued = ground arith
only_interrupted _ = ground arith

-- A resume by a stored run's id, whose stored sequences are gap-free, does the following. If the run
-- is interrupted, its status becomes queued, every other column keeps its value, its end included,
-- and one event is appended. In any other status it raises IllegalTransition and writes nothing.
pub resume_run-outcome :
    (now : ℕ) (r : Run) (db : Db)
    → IsGapFree r.id db
    → find_run r.id db.runs ≡ some r
    → resume_run now r.id db ≡ (
        if run_eq r.status RunStatus.interrupted
        then (ok (requeued r), push r.id (resume_draft now) (requeue r db))
        else (err (state_error (illegal_run_transition r.status RunStatus.queued)), db))
unfolding resume_run announce
resume_run-outcome now r db gaps found = elim (Bool-cases (run_eq r.status RunStatus.interrupted)) [
  | inl e ↦ rw e (
      rw (resume_body_moves r db found (only_interrupted r.status ∙ e)) (
        rw
          (publish-push r.id (resume_draft now) (requeue r db)
            (found-has_run r.id (requeued r) (requeue r db).runs (found_requeued r db found)) gaps
            refl)
          refl))
  | inr e ↦ rw e (rw (resume_body_refused r db found (only_interrupted r.status ∙ e)) refl)
]
