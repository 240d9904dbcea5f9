-- ===== src/Runs/Engine.antt =====
-- execute_run of services/runs.py: the phases of a run and what is done when one raises.
use Prim.Native.String.{◌++◌ as concat}
use free_weight.Base.{ℕ, String, some, List, [], ◌∷◌}
use free_weight.RunState.{RunStatus, run_not_cancellable}
use free_weight.Store.Actions.{
  Error, run_not_found, run_cancelled, keyboard_interrupt, suite_error, state_error, Outcome, ok,
  err, Action, pure, throw, skip, ◌>>◌, ambiguous_reference,
}
use free_weight.Events.Publish.{Draft}
use free_weight.Runs.Services.{announce, with_message, check_cancelled, transition}
use free_weight.Runs.Execution.{no_cause, finish}

-- What a run does between the statements that this module models, each part as an action: reading
-- the context and assembling the jury, calibrating, settling, preparing, starting the recorder,
-- warming, executing one test, stopping the recorder, observing, judging, aggregating and
-- refreshing the evidence.
pub record Work : Type 0 where
  pub suite_key : String
  pub model_canonical_id : String
  pub read_context : Action (Unit {0})
  pub calibrate : Action (Unit {0})
  pub settle : Action (Unit {0})
  pub prepare : Action (Unit {0})
  pub start_recorder : Action (Unit {0})
  pub warm : Action (Unit {0})
  pub tests : List (Action (Unit {0}))
  pub stop_recorder : Action (Unit {0})
  pub observe : Action (Unit {0})
  pub judge : Action (Unit {0})
  pub aggregate : Action (Unit {0})
  pub refresh_evidence : Action (Unit {0})

-- The loop over the benchmark's tests.
unfoldable pub run_tests : String → List (Action (Unit {0})) → Action (Unit {0})
unfolding check_cancelled
run_tests run_id [] = skip
run_tests run_id (test ∷ tests) = do check_cancelled run_id; test; run_tests run_id tests

-- `try: body` / `finally: cleanup`
abbrev pub after_body : Outcome (Unit {0}) → Action (Unit {0}) → Action (Unit {0})
after_body (ok _) cleanup = cleanup
after_body (err e) cleanup = cleanup >> throw e

abbrev pub try_finally : Action (Unit {0}) → Action (Unit {0}) → Action (Unit {0})
try_finally body cleanup db = let (result, after) = body db in after_body result cleanup after

-- The `try` block of `_execute_run_inner`.
unfoldable pub recorded_part : String → Work → Action (Unit {0})
unfolding check_cancelled transition run_tests
recorded_part run_id w = do
  w.start_recorder
  check_cancelled run_id
  transition run_id RunStatus.warming
  w.warm
  check_cancelled run_id
  transition run_id RunStatus.running
  run_tests run_id w.tests

-- The event of a run that starts.
abbrev pub started_draft : ℕ → Work → Draft
started_draft now w =
    record (with_message "run.started"
      (concat
        (concat (concat (concat "Run started: " w.suite_key) " against ") w.model_canonical_id) ".")
      now) { payload = ("suite", some w.suite_key) ∷ ("model", some w.model_canonical_id) ∷ [] }

-- What comes before it, and what comes after.
unfoldable pub opening : ℕ → String → Work → Action (Unit {0})
unfolding announce check_cancelled
opening now run_id w = do
  w.read_context
  announce run_id (started_draft now w)
  check_cancelled run_id
  w.calibrate
  check_cancelled run_id
  w.settle
  check_cancelled run_id
  w.prepare

unfoldable pub closing : ℕ → String → Work → Action (Unit {0})
unfolding check_cancelled finish
closing now run_id w = do
  check_cancelled run_id
  w.observe
  w.judge
  w.aggregate
  finish now run_id RunStatus.completed no_cause
  w.refresh_evidence

-- _execute_run_inner
unfoldable pub execute_run_inner : ℕ → String → Work → Action RunStatus
unfolding opening recorded_part closing
execute_run_inner now run_id w = do
  opening now run_id w
  try_finally (recorded_part run_id w) w.stop_recorder
  closing now run_id w
  pure RunStatus.completed

-- Of an exception: the codes that baseaicore gives to its conflict and validation errors, and the
-- text of each.
pub record Naming : Type 0 where
  pub conflict_code : String
  pub validation_code : String
  pub text_of : Error → String

-- `exc.code if isinstance(exc, SuiteError) else "INTERNAL_ERROR"`
unfoldable pub code_of : Naming → Error → String
code_of n (state_error (run_not_cancellable s)) = "RUN_NOT_CANCELLABLE"
code_of n (state_error _) = n.conflict_code
code_of n run_not_found = "RUN_NOT_FOUND"
code_of n ambiguous_reference = n.validation_code
code_of n (suite_error code) = code
code_of n _ = "INTERNAL_ERROR"

-- The `except` clauses of `execute_run`.
unfoldable pub handle : Naming → ℕ → String → Outcome RunStatus → Action RunStatus
unfolding finish code_of
handle n now run_id (ok s) = pure s
handle n now run_id (err run_cancelled) = do
  finish now run_id RunStatus.cancelled no_cause
  pure RunStatus.cancelled
handle n now run_id (err keyboard_interrupt) = do
  finish now run_id RunStatus.cancelled
      (record { error_code = some "CANCELLED"; error_text = some "Cancelled by signal." })
  throw keyboard_interrupt
handle n now run_id (err e) = do
  finish now run_id RunStatus.failed
      (record { error_code = some (code_of n e); error_text = some (n.text_of e) })
  pure RunStatus.failed

-- execute_run
unfoldable pub execute_run : Naming → ℕ → String → Work → Action RunStatus
unfolding execute_run_inner handle
execute_run n now run_id w db =
    let (result, after) = execute_run_inner now run_id w db in handle n now run_id result after
