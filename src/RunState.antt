-- ===== src/RunState.antt =====
-- domain/run_state.py: the run and test state machines as transition tables, and the functions
-- that consult them. The tables are association lists in the order of the source's dictionaries;
-- a frozenset is the list of its members.
pub mod Table
pub mod Paths
mod Examples
use free_weight.Base.{
  Bool, true, false, not, Option, none, some, List, [], ◌∷◌, map, any_of, if◌then◌else◌,
}

pub data RunStatus : Type 0 where
  queued preparing warming running cancelling completed failed cancelled interrupted : RunStatus

pub data TestStatus : Type 0 where
  pending running completed failed skipped cancelled : TestStatus

-- Equality of enum members, by their place in the enum.
abbrev pub run_eq : RunStatus → RunStatus → Bool
run_eq RunStatus.queued RunStatus.queued = true
run_eq RunStatus.preparing RunStatus.preparing = true
run_eq RunStatus.warming RunStatus.warming = true
run_eq RunStatus.running RunStatus.running = true
run_eq RunStatus.cancelling RunStatus.cancelling = true
run_eq RunStatus.completed RunStatus.completed = true
run_eq RunStatus.failed RunStatus.failed = true
run_eq RunStatus.cancelled RunStatus.cancelled = true
run_eq RunStatus.interrupted RunStatus.interrupted = true
run_eq _ _ = false

abbrev pub test_eq : TestStatus → TestStatus → Bool
test_eq TestStatus.pending TestStatus.pending = true
test_eq TestStatus.running TestStatus.running = true
test_eq TestStatus.completed TestStatus.completed = true
test_eq TestStatus.failed TestStatus.failed = true
test_eq TestStatus.skipped TestStatus.skipped = true
test_eq TestStatus.cancelled TestStatus.cancelled = true
test_eq _ _ = false

-- `status in {…}`
abbrev pub run_in : RunStatus → List RunStatus → Bool
run_in s set = any_of (run_eq s) set

abbrev pub test_in : TestStatus → List TestStatus → Bool
test_in s set = any_of (test_eq s) set

-- RUN_TRANSITIONS[status]
unfoldable pub run_transitions : RunStatus → List RunStatus
run_transitions RunStatus.queued =
    RunStatus.preparing ∷ RunStatus.cancelled ∷ RunStatus.interrupted ∷ []
run_transitions RunStatus.preparing =
    RunStatus.warming ∷ RunStatus.failed ∷ RunStatus.cancelled ∷ RunStatus.interrupted ∷ []
run_transitions RunStatus.warming =
    RunStatus.running ∷ RunStatus.failed ∷ RunStatus.cancelled ∷ RunStatus.interrupted ∷ []
run_transitions RunStatus.running =
    RunStatus.completed ∷ RunStatus.failed ∷ RunStatus.cancelling ∷ RunStatus.interrupted ∷ []
run_transitions RunStatus.cancelling = RunStatus.cancelled ∷ RunStatus.interrupted ∷ []
run_transitions RunStatus.interrupted = RunStatus.queued ∷ []
run_transitions RunStatus.completed = []
run_transitions RunStatus.failed = []
run_transitions RunStatus.cancelled = []

-- TEST_TRANSITIONS[status]
unfoldable pub test_transitions : TestStatus → List TestStatus
test_transitions TestStatus.pending =
    TestStatus.running ∷ TestStatus.skipped ∷ TestStatus.cancelled ∷ []
test_transitions TestStatus.running =
    TestStatus.completed ∷ TestStatus.failed ∷ TestStatus.cancelled ∷ []
test_transitions TestStatus.completed = []
test_transitions TestStatus.failed = []
test_transitions TestStatus.skipped = []
test_transitions TestStatus.cancelled = []

abbrev no_successor {ℓ} : {A : Type ℓ} → List A → Bool
no_successor [] = true
no_successor (_ ∷ _) = false

-- `status in TERMINAL_RUN_STATUSES` and `status in TERMINAL_TEST_STATUSES`
unfoldable pub is_terminal_run : RunStatus → Bool
unfolding run_transitions
is_terminal_run s = no_successor (run_transitions s)

unfoldable pub is_terminal_test : TestStatus → Bool
unfolding test_transitions
is_terminal_test s = no_successor (test_transitions s)

-- CANCELLABLE_RUN_STATUSES
abbrev pub cancellable_run_statuses : List RunStatus
cancellable_run_statuses =
    RunStatus.queued ∷ RunStatus.preparing ∷ RunStatus.warming ∷ RunStatus.running ∷ []

-- The two errors of the module, with the statuses that their `details` carry.
pub data StateError : Type 0 where
  illegal_run_transition : (from target : RunStatus) → StateError
  illegal_test_transition : (from target : TestStatus) → StateError
  run_not_cancellable : (status : RunStatus) → StateError

-- A function that may raise one of them: `inl` is the raise.
pub data Checked (A : Type 0) : Type 0 where
  return : A → Checked A
  raise : StateError → Checked A

unfoldable pub is_legal_run_transition : RunStatus → RunStatus → Bool
unfolding run_transitions
is_legal_run_transition current target = run_in target (run_transitions current)

unfoldable pub is_legal_test_transition : TestStatus → TestStatus → Bool
unfolding test_transitions
is_legal_test_transition current target = test_in target (test_transitions current)

unfoldable pub require_run_transition : RunStatus → RunStatus → Checked (Unit {0})
unfolding is_legal_run_transition
require_run_transition current target =
    if is_legal_run_transition current target
    then return tt
    else raise (illegal_run_transition current target)

unfoldable pub require_test_transition : TestStatus → TestStatus → Checked (Unit {0})
unfolding is_legal_test_transition
require_test_transition current target =
    if is_legal_test_transition current target
    then return tt
    else raise (illegal_test_transition current target)

unfoldable pub cancellation_target : RunStatus → Checked RunStatus
cancellation_target current =
    if not (run_in current cancellable_run_statuses)
    then raise (run_not_cancellable current)
    else return
        (if run_eq current RunStatus.running then RunStatus.cancelling else RunStatus.cancelled)
