-- ===== src/Runs/Examples.antt =====
-- The theorems on runs, applied to small tables.
use free_weight.Base.{ℕ, ◌+◌, inr, ◌≡◌, refl, String, none, some, List, [], ◌∷◌, arith, count_if}
use free_weight.RunState.{RunStatus, TestStatus, illegal_run_transition, is_terminal_run}
use free_weight.Store.Rows.{Run, RunTest, Db, find_run, find_test}
use free_weight.Store.Actions.{ok, err, pure, state_error, other_error, skip, throw}
use free_weight.Store.Queries.{in_flight, claim_next_queued}
use free_weight.Runs.Services.{cancel_run, cancel_pending_tests, plain, resume_run}
use free_weight.Runs.Execution.{no_cause, finish}
use free_weight.Runs.Engine.{Naming, handle, Work, execute_run}
use free_weight.Runs.Scheduler.{recover}
use free_weight.Runs.Scheduler.{Turn, loop}
use free_weight.Runs.Chains.{Moves-pure, Moves-throw}
use free_weight.Runs.Executing.{KeepsToSteps}
use free_weight.Runs.Completing.{IsAt, IsQuiet}
use free_weight.Runs.Completed.{IsQuietWork, execute_run-Completes}
use free_weight.Runs.Resuming.{requeued, resume_draft, requeue, resume_run-outcome}
use free_weight.Events.GapFree.{push}
use free_weight.Runs.Looping.{IsTame, loop-IsSerial}
use free_weight.Runs.Steps.{IsSerial}
use free_weight.Runs.Trails.{WentOn}
use free_weight.Runs.Program.{
  Call, new_run, perform_all, perform_all-IsSerial, perform_all-WentOn, terminal_forever,
}
use free_weight.Runs.Claiming.{Claimed, claim_next_queued-Claimed}
use free_weight.Runs.Pending.{cancelled_rows, cancel_pending_tests-exact}
use free_weight.Runs.Cancelling.{cancelled_from, cancel_run-CancelledTo}
use free_weight.Runs.Recovering.{recovered, recover-exact}
use free_weight.Runs.Stuck.{finish-cancelling, stuck_in_cancelling}
use free_weight.Runs.Testing.{TestWork, execute_test}
use free_weight.Runs.Tested.{EndsAs, execute_test-EndsAs}

abbrev run_in_status : String → ℕ → RunStatus → Run
run_in_status id now s = record (new_run id now) { status = s; completed_at = some 9 }

abbrev a_test : String → String → TestStatus → RunTest
a_test id run_id s = record {
  id = id;
  run_id = run_id;
  status = s;
  total_cases = 4;
  repetitions = 1;
  skip_reason = none;
  started_at = none;
  completed_at = none;
  error_code = none;
  error_text = none;
}

abbrev table : List Run → List RunTest → Db
table runs tests = record { runs = runs; tests = tests; events = [] }

abbrev two_queued : Db
two_queued = table (new_run "b" 5 ∷ new_run "a" 3 ∷ []) []

-- A run is created, executed and cancelled while it runs; meanwhile another is created and claimed
-- in vain, and then the server restarts.
abbrev day : List Call
day =
    Call.create "a" 1
    ∷ Call.claim 2
    ∷ Call.warm "a"
    ∷ Call.create "b" 3
    ∷ Call.claim 4
    ∷ Call.start "a"
    ∷ Call.cancel 5 "a"
    ∷ Call.complete 6 "a" no_cause
    ∷ Call.report "a" (plain "test.started" 6) []
    ∷ Call.recovery 7
    ∷ Call.resume 8 "a"
    ∷ []

two_queued-IsSerial : IsSerial two_queued.runs
unfolding is_terminal_run
two_queued-IsSerial = record {
  keyed = ((refl, tt), (tt, tt));
  at_most_one = omega arith;
  ended = (λ x. cc, (λ x. cc, tt));
}

perform_all-IsSerial_example : IsSerial (perform_all day two_queued).runs
perform_all-IsSerial_example = perform_all-IsSerial day two_queued two_queued-IsSerial

perform_all-WentOn_example : WentOn "a" RunStatus.queued (perform_all day two_queued).runs
unfolding find_run
perform_all-WentOn_example =
    perform_all-WentOn day two_queued "a" (new_run "a" 3) two_queued-IsSerial refl

abbrev finished : Db
finished = table (run_in_status "a" 3 RunStatus.failed ∷ []) []

finished-IsSerial : IsSerial finished.runs
finished-IsSerial = record { keyed = (tt, tt); at_most_one = omega arith; ended = (λ x y. cc, tt) }

terminal_forever_example :
    (r : Run) × ((find_run "a" (perform_all day finished).runs ≡ some r)
      × (r.status ≡ RunStatus.failed))
unfolding find_run is_terminal_run
terminal_forever_example =
    terminal_forever day finished "a" (run_in_status "a" 3 RunStatus.failed) finished-IsSerial refl
      refl

claim_next_queued-Claimed_example : Claimed 7 two_queued (claim_next_queued 7 two_queued)
claim_next_queued-Claimed_example = claim_next_queued-Claimed 7 two_queued ((refl, tt), (tt, tt))

abbrev mid_run : Db
mid_run = table (run_in_status "a" 3 RunStatus.running ∷ new_run "b" 5 ∷ []) (
    a_test "t" "a" TestStatus.completed
    ∷ a_test "u" "a" TestStatus.running
    ∷ a_test "v" "b" TestStatus.pending
    ∷ [])

recover-exact_example :
    (count_if in_flight (recover 8 mid_run).1.runs ≡ 0)
    × ((id : String) (r : Run)
        → find_run id mid_run.runs ≡ some r
        → find_run id (recover 8 mid_run).1.runs ≡ some (recovered 8 r))
recover-exact_example = recover-exact 8 mid_run ((refl, tt), (tt, tt))

cancel_pending_tests-exact_example :
    cancel_pending_tests "a" mid_run
    ≡ (ok tt, record mid_run { tests = cancelled_rows "a" mid_run.tests })
cancel_pending_tests-exact_example =
    cancel_pending_tests-exact "a" mid_run ((refl, (refl, tt)), ((refl, tt), (tt, tt)))

cancel_run-CancelledTo_example :
    cancel_run 8 "a" mid_run
    ≡ cancelled_from 8 (run_in_status "a" 3 RunStatus.running) mid_run RunStatus.running
unfolding find_run
cancel_run-CancelledTo_example =
    cancel_run-CancelledTo 8 (run_in_status "a" 3 RunStatus.running) mid_run
      ((refl, (refl, tt)), ((refl, tt), (tt, tt))) tt refl

abbrev stopping : Db
stopping = table (run_in_status "a" 3 RunStatus.cancelling ∷ new_run "b" 5 ∷ []) []

finish-cancelling_example : finish 8 "a" RunStatus.completed no_cause stopping ≡ (
  err (state_error (illegal_run_transition RunStatus.cancelling RunStatus.completed)),
  stopping,
)
unfolding find_run
finish-cancelling_example =
    finish-cancelling 8 "a" RunStatus.completed no_cause (run_in_status "a" 3 RunStatus.cancelling)
      stopping refl refl refl

abbrev naming : Naming
naming = record { conflict_code = "CONFLICT"; validation_code = "VALIDATION"; text_of = λ e. "" }

stuck_in_cancelling_example :
    (handle naming 8 "a" (err other_error) stopping ≡ (
      err (state_error (illegal_run_transition RunStatus.cancelling RunStatus.failed)),
      stopping,
    ))
    × (claim_next_queued 9 stopping ≡ (ok none, stopping))
unfolding find_run
stuck_in_cancelling_example =
    stuck_in_cancelling naming 8 9 "a" other_error (run_in_status "a" 3 RunStatus.cancelling)
      stopping refl refl (λ x. cc) (λ x. cc)

-- Work whose judging fails.
abbrev no_work : Work
no_work = record {
  suite_key = "native.exact";
  model_canonical_id = "m";
  read_context = skip;
  calibrate = skip;
  settle = skip;
  prepare = skip;
  start_recorder = skip;
  warm = skip;
  tests = skip ∷ [];
  stop_recorder = skip;
  observe = skip;
  judge = throw other_error;
  aggregate = skip;
  refresh_evidence = skip;
}

no_work-KeepsToSteps : KeepsToSteps no_work
no_work-KeepsToSteps = record {
  read_context = Moves-pure tt;
  calibrate = Moves-pure tt;
  settle = Moves-pure tt;
  prepare = Moves-pure tt;
  start_recorder = Moves-pure tt;
  warm = Moves-pure tt;
  tests = (Moves-pure tt, tt);
  stop_recorder = Moves-pure tt;
  observe = Moves-pure tt;
  judge = Moves-throw other_error;
  aggregate = Moves-pure tt;
  refresh_evidence = Moves-pure tt;
}

abbrev a_turn : Turn
a_turn = record { now = 9; work = λ id. no_work; others = λ db. db }

a_turn-IsTame : IsTame a_turn
a_turn-IsTame = record { work = λ id. no_work-KeepsToSteps; others = λ db h. h }

loop-IsSerial_example : IsSerial (loop naming (a_turn ∷ a_turn ∷ []) two_queued).runs
loop-IsSerial_example =
    loop-IsSerial naming (a_turn ∷ a_turn ∷ []) two_queued (a_turn-IsTame, (a_turn-IsTame, tt))
      two_queued-IsSerial

abbrev quiet_work : Work
quiet_work = record no_work { judge = skip }

skip-IsQuiet : IsQuiet skip
skip-IsQuiet db = (refl, refl)

quiet_work-IsQuietWork : IsQuietWork quiet_work
quiet_work-IsQuietWork = record {
  read_context = skip-IsQuiet;
  calibrate = skip-IsQuiet;
  settle = skip-IsQuiet;
  prepare = skip-IsQuiet;
  start_recorder = skip-IsQuiet;
  warm = skip-IsQuiet;
  tests = (skip-IsQuiet, tt);
  stop_recorder = skip-IsQuiet;
  observe = skip-IsQuiet;
  judge = skip-IsQuiet;
  aggregate = skip-IsQuiet;
  refresh_evidence = skip-IsQuiet;
}

abbrev claimed : Db
claimed =
    table (record (new_run "a" 3) { status = RunStatus.preparing; started_at = some 4 } ∷ []) []

execute_run-Completes_example :
    ((execute_run naming 9 "a" quiet_work claimed).0 ≡ ok RunStatus.completed)
    × IsAt "a" RunStatus.completed (execute_run naming 9 "a" quiet_work claimed).1
unfolding find_run
execute_run-Completes_example =
    execute_run-Completes "a" quiet_work quiet_work-IsQuietWork naming 9 claimed (_, (refl, refl))

abbrev restarted : Db
restarted = table (run_in_status "a" 3 RunStatus.interrupted ∷ []) []

resume_run-outcome_example : resume_run 12 "a" restarted ≡ (
  ok (requeued (run_in_status "a" 3 RunStatus.interrupted)),
  push "a" (resume_draft 12) (requeue (run_in_status "a" 3 RunStatus.interrupted) restarted),
)
unfolding find_run
resume_run-outcome_example =
    resume_run-outcome 12 (run_in_status "a" 3 RunStatus.interrupted) restarted tt refl

-- A test whose second generation of four raises an exception.
abbrev failing_test : TestWork
failing_test = record {
  key = "arithmetic";
  unmet = [];
  unmet_names = "[]";
  unavailable = other_error;
  measure = λ completed total. pure (record {
    raised = some other_error;
    completed_samples = completed + 1;
    total_samples = total;
  });
}

execute_test-EndsAs_example :
    EndsAs naming "v" (some other_error) (execute_test naming 9 "b" "v" failing_test 4 8 mid_run)
unfolding find_test find_run
execute_test-EndsAs_example =
    execute_test-EndsAs 9 "b" "v" failing_test naming (some other_error) TestStatus.pending 4 8
      mid_run (inr (refl, refl)) refl (a_test "v" "b" TestStatus.pending, (refl, refl))
      (λ c t db stored at. (_, (refl, (refl, (stored, at)))))
