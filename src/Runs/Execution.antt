-- ===== src/Runs/Execution.antt =====
-- _finish of services/runs.py: leaving a run in the status that its execution came to.
use free_weight.Base.{
  ℕ, Bool, true, false, ◌||◌, String, Option, none, some, List, [], ◌∷◌, str_eq, if◌then◌else◌,
}
use free_weight.RunState.{RunStatus, run_eq, run_in, require_run_transition}
use free_weight.Store.Rows.{Run, find_run}
use free_weight.Store.Actions.{
  other_error, Action, pure, throw, gets, lift, transaction, modify, ◌>>=◌, ◌>>◌,
}
use free_weight.Store.Queries.{set_status}
use free_weight.Runs.Services.{announce, with_message, when, cancel_pending_tests}

-- RunStatus.value
abbrev pub value : RunStatus → String
value RunStatus.queued = "queued"
value RunStatus.preparing = "preparing"
value RunStatus.warming = "warming"
value RunStatus.running = "running"
value RunStatus.cancelling = "cancelling"
value RunStatus.completed = "completed"
value RunStatus.failed = "failed"
value RunStatus.cancelled = "cancelled"
value RunStatus.interrupted = "interrupted"

-- The event type of a finished run and the message `Run {value}.`; any other target is a KeyError.
abbrev pub finish_event : RunStatus → Option (String × String)
finish_event RunStatus.completed = some ("run.completed", "Run completed.")
finish_event RunStatus.failed = some ("run.failed", "Run failed.")
finish_event RunStatus.cancelled = some ("run.cancelled", "Run cancelled.")
finish_event RunStatus.interrupted = some ("run.interrupted", "Run interrupted.")
finish_event _ = none

-- `text or default`
abbrev pub or_default : Option String → String → String
or_default none default = default
or_default (some text) default = if str_eq text "" then default else text

-- The error columns that `_finish` is passed.
pub record Cause : Type 0 where
  pub error_code : Option String
  pub error_text : Option String

abbrev pub no_cause : Cause
no_cause = record { error_code = none; error_text = none }

abbrev pub finished_statuses : List RunStatus
finished_statuses = RunStatus.completed ∷ RunStatus.failed ∷ RunStatus.cancelled ∷ []

-- A running run is cancelled through `cancelling`: the status to go on from.
unfoldable pub step_through : String → RunStatus → RunStatus → Action RunStatus
unfolding set_status require_run_transition
step_through run_id target current =
    if run_eq target RunStatus.cancelled
    then if run_eq current RunStatus.running
      then (do
        lift (require_run_transition current RunStatus.cancelling)
        modify (set_status run_id RunStatus.cancelling none none none none)
        pure RunStatus.cancelling)
      else pure current
    else pure current

-- The writes of `_finish` to a run in `current`.
unfoldable pub finish_from : ℕ → String → RunStatus → Cause → RunStatus → Action (Unit {0})
unfolding step_through cancel_pending_tests
finish_from now run_id target cause current = do
  reached ← step_through run_id target current
  lift (require_run_transition reached target)
  modify (set_status run_id target none (some now) cause.error_code cause.error_text)
  when (run_eq target RunStatus.cancelled) (cancel_pending_tests run_id)

-- The transaction of `_finish`: whether the run was moved.
unfoldable pub finish_row : ℕ → String → RunStatus → Cause → Option Run → Action Bool
unfolding finish_from
finish_row now run_id target cause none = pure false
finish_row now run_id target cause (some run) =
    if run_eq run.status target || run_in run.status finished_statuses
    then pure false
    else do finish_from now run_id target cause run.status; pure true

unfoldable pub finish_body : ℕ → String → RunStatus → Cause → Action Bool
unfolding finish_row find_run
finish_body now run_id target cause = do
  found ← gets (λ db. find_run run_id db.runs)
  finish_row now run_id target cause found

unfoldable pub announce_finish :
    ℕ → String → RunStatus → Cause → Option (String × String) → Action (Unit {0})
unfolding announce
announce_finish now run_id target cause none = throw other_error
announce_finish now run_id target cause (some (event_type, message)) =
    announce run_id (record (with_message event_type (or_default cause.error_text message) now) {
      payload = ("status", some (value target)) ∷ ("error_code", cause.error_code) ∷ [];
    })

-- _finish
unfoldable pub finish : ℕ → String → RunStatus → Cause → Action (Unit {0})
unfolding finish_body announce_finish
finish now run_id target cause = do
  moved ← transaction (finish_body now run_id target cause)
  when moved (announce_finish now run_id target cause (finish_event target))
