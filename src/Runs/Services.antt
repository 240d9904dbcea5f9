-- ===== src/Runs/Services.antt =====
-- cancel_run, resume_run, _check_cancelled, _transition and _finish of services/runs.py, and
-- RunScheduler.recover.
use text.Mathlib.Text.{starts_with}
use free_weight.Base.{ℕ, Bool, String, Option, none, some, List, [], ◌∷◌, keep_if, if◌then◌else◌}
use free_weight.RunState.{
  RunStatus, TestStatus, run_eq, run_in, test_in, cancellation_target, require_run_transition,
  require_test_transition,
}
use free_weight.Store.Rows.{Run, RunTest, find_run}
use free_weight.Store.Actions.{
  run_not_found, ambiguous_reference, run_cancelled, other_error, ok, Action, pure, throw, gets,
  lift, or_throw, transaction, modify, skip, ◌>>=◌, ◌>>◌,
}
use free_weight.Store.Queries.{set_status, tests_of, set_test_status}
use free_weight.Events.Publish.{Draft, publish}

-- A `publish` call whose result is not used.
unfoldable pub announce : String → Draft → Action (Unit {0})
unfolding publish
announce run_id d = do publish run_id d []; skip

abbrev pub plain : String → ℕ → Draft
plain event_type now = record {
  event_type = event_type;
  message = none;
  progress = none;
  payload = [];
  now = now;
}

abbrev pub with_message : String → String → ℕ → Draft
with_message event_type message now = record (plain event_type now) { message = some message }

unfoldable pub pick_match : List Run → Action Run
pick_match [] = throw run_not_found
pick_match (r ∷ []) = pure r
pick_match (r ∷ _ ∷ _) = throw ambiguous_reference

-- _resolve_run, with RunRepository.get_by_id and get_by_id_prefix
unfoldable pub resolve_from : String → Option Run → Action Run
unfolding pick_match
resolve_from run_ref (some r) db = (ok r, db)
resolve_from run_ref none db = pick_match (keep_if (λ r. starts_with r.id run_ref) db.runs) db

unfoldable pub resolve_run : String → Action Run
unfolding resolve_from
resolve_run run_ref db = resolve_from run_ref (find_run run_ref db.runs) db

-- _cancel_pending_tests, from the rows that `list_for_run` read
abbrev pub open_test_statuses : List TestStatus
open_test_statuses = TestStatus.pending ∷ TestStatus.running ∷ []

unfoldable pub cancel_test : RunTest → Action (Unit {0})
unfolding set_test_status require_test_transition
cancel_test t =
    if test_in t.status open_test_statuses
    then (do
      lift (require_test_transition t.status TestStatus.cancelled)
      modify (set_test_status t.id TestStatus.cancelled))
    else skip

unfoldable pub cancel_tests : List RunTest → Action (Unit {0})
unfolding cancel_test
cancel_tests [] = skip
cancel_tests (t ∷ ts) = cancel_test t >> cancel_tests ts

unfoldable pub cancel_pending_tests : String → Action (Unit {0})
unfolding cancel_tests
cancel_pending_tests run_id = do rows ← gets (λ db. tests_of run_id db.tests); cancel_tests rows

abbrev pub when : Bool → Action (Unit {0}) → Action (Unit {0})
when test body = if test then body else skip

-- The writes of `cancel_run` to a run that is not yet in `cancelling`.
unfoldable pub cancel_to : ℕ → Run → RunStatus → Action (Unit {0})
unfolding set_status cancel_pending_tests
cancel_to now run target = do
  modify (
      set_status run.id target none (if run_eq target RunStatus.cancelled then some now else none)
        none none)
  when (run_eq target RunStatus.cancelled) (cancel_pending_tests run.id)

-- The transaction of `cancel_run`: the run and the status that it was moved to, if it was.
unfoldable pub cancel_body : ℕ → String → Action (Run × Option RunStatus)
unfolding resolve_run cancel_to cancellation_target require_run_transition
cancel_body now run_ref = do
  run ← resolve_run run_ref
  if run_eq run.status RunStatus.cancelling then pure (run, none) else do
    target ← lift (cancellation_target run.status)
    lift (require_run_transition run.status target)
    cancel_to now run target
    found ← gets (λ db. find_run run.id db.runs)
    summary ← or_throw found other_error
    pure (summary, some target)

unfoldable pub announce_cancel : ℕ → Run × Option RunStatus → Action (Unit {0})
unfolding announce
announce_cancel now (summary, none) = skip
announce_cancel now (summary, some target) =
    if run_eq target RunStatus.cancelled
    then announce summary.id
        (with_message "run.cancelled" "Run cancelled before it started executing." now)
    else announce summary.id
        (with_message "run.progress" "Cancellation requested; stopping at the next boundary." now)

unfoldable pub cancel_run : ℕ → String → Action Run
unfolding cancel_body announce_cancel
cancel_run now run_ref = do
  result ← transaction (cancel_body now run_ref)
  announce_cancel now result
  pure result.0

unfoldable pub resume_body : String → Action Run
unfolding resolve_run set_status require_run_transition
resume_body run_ref = do
  run ← resolve_run run_ref
  lift (require_run_transition run.status RunStatus.queued)
  modify (set_status run.id RunStatus.queued none none none none)
  found ← gets (λ db. find_run run.id db.runs)
  or_throw found other_error

unfoldable pub resume_run : ℕ → String → Action Run
unfolding resume_body announce
resume_run now run_ref = do
  summary ← transaction (resume_body run_ref)
  announce summary.id (with_message "run.progress" "Run re-queued for resume." now)
  pure summary

-- _check_cancelled, with _current_status
unfoldable pub check_cancelled : String → Action (Unit {0})
unfolding find_run
check_cancelled run_id = do
  found ← gets (λ db. find_run run_id db.runs)
  run ← or_throw found run_not_found
  when (run_in run.status (RunStatus.cancelling ∷ RunStatus.cancelled ∷ [])) (throw run_cancelled)

-- _transition
unfoldable pub transition : String → RunStatus → Action (Unit {0})
unfolding find_run set_status require_run_transition
transition run_id target = transaction do
  found ← gets (λ db. find_run run_id db.runs)
  run ← or_throw found run_not_found
  lift (require_run_transition run.status target)
  modify (set_status run_id target none none none none)
