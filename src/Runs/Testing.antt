-- ===== src/Runs/Testing.antt =====
-- _execute_test of services/runs.py: what becomes of a test before and after its cases are executed.
-- The cases themselves, whose loop is `Sampling`, are the action `measure` of the test: it gives back
-- the exception that left the `try` block, if one did, with the counts of samples by then. A test's
-- row keeps no measurement class here.
use Prim.Native.String.{◌++◌ as concat}
use free_weight.Base.{
  ℕ, ◌+◌, ◌*◌, Bool, true, false, String, Option, none, some, List, [], ◌∷◌, if◌then◌else◌,
}
use free_weight.RunState.{TestStatus, test_in, require_test_transition}
use free_weight.Store.Rows.{RunTest, Db, find_test, update_test, or_keep}
use free_weight.Store.Actions.{
  Error, run_cancelled, keyboard_interrupt, Action, pure, throw, gets, lift, transaction, modify,
  skip, ◌>>=◌, ◌>>◌,
}
use free_weight.Events.Publish.{Draft}
use free_weight.Runs.Services.{announce, with_message}
use free_weight.Runs.Engine.{Naming, code_of}

-- The columns that RunTestRepository.set_status writes beside the status, where given.
pub record TestColumns : Type 0 where
  pub skip_reason : Option String
  pub started_at : Option ℕ
  pub completed_at : Option ℕ
  pub error_code : Option String
  pub error_text : Option String

abbrev pub with_columns : TestStatus → TestColumns → RunTest → RunTest
with_columns status c t = record t {
  status = status;
  skip_reason = or_keep c.skip_reason t.skip_reason;
  started_at = or_keep c.started_at t.started_at;
  completed_at = or_keep c.completed_at t.completed_at;
  error_code = or_keep c.error_code t.error_code;
  error_text = or_keep c.error_text t.error_text;
}

-- RunTestRepository.set_status
unfoldable pub write_test : String → TestStatus → TestColumns → Db → Db
write_test id status c db = record db { tests = update_test id (with_columns status c) db.tests }

-- What came of the cases: the exception, and the samples completed and planned.
pub record Measured : Type 0 where
  pub raised : Option Error
  pub completed_samples : ℕ
  pub total_samples : ℕ

pub record TestWork : Type 0 where
  pub key : String
  -- The capabilities that the provider lacks, in order, and Python's text for that list.
  pub unmet : List String
  pub unmet_names : String
  -- weightsdb's DatabaseUnavailable.
  pub unavailable : Error
  pub measure : (completed_samples total_samples : ℕ) → Action Measured

-- What the first transaction finds.
pub data Opening : Type 0 where
  ended skipped : ℕ → Opening
  started : Opening

abbrev pub ended_statuses : List TestStatus
ended_statuses =
    TestStatus.completed ∷ TestStatus.failed ∷ TestStatus.skipped ∷ TestStatus.cancelled ∷ []

abbrev pub planned_of : RunTest → ℕ
planned_of t = t.total_cases * t.repetitions

abbrev pub at_start : ℕ → TestColumns
at_start now = record {
  skip_reason = none;
  started_at = some now;
  completed_at = none;
  error_code = none;
  error_text = none;
}

abbrev pub at_skip : ℕ → TestWork → TestColumns
at_skip now w = record {
  skip_reason = some "unsupported_capability";
  started_at = none;
  completed_at = some now;
  error_code = some "CAPABILITY_UNSUPPORTED";
  error_text = some (
      concat
        (concat (concat (concat "This provider does not declare " w.unmet_names) ", which ") w.key)
        " requires. The test was not run, and contributes no score.");
}

unfoldable pub skip_test : ℕ → TestWork → RunTest → Action Opening
unfolding write_test
skip_test now w t = do
  lift (require_test_transition t.status TestStatus.skipped)
  modify (write_test t.id TestStatus.skipped (at_skip now w))
  pure (skipped (planned_of t))

unfoldable pub start_test : ℕ → RunTest → Action Opening
unfolding write_test
start_test now t = do
  lift (require_test_transition t.status TestStatus.running)
  modify (write_test t.id TestStatus.running (at_start now))
  pure started

abbrev pub is_nil : List String → Bool
is_nil [] = true
is_nil (_ ∷ _) = false

unfoldable pub open_row : ℕ → TestWork → RunTest → Action Opening
unfolding skip_test start_test
open_row now w t =
    if test_in t.status ended_statuses
    then pure (ended (planned_of t))
    else if test_in t.status (TestStatus.pending ∷ [])
    then if is_nil w.unmet then start_test now t else skip_test now w t
    else pure started

unfoldable pub open_test : ℕ → String → TestWork → Action Opening
unfolding open_row
open_test now run_test_id w = transaction (
    gets (λ db. find_test run_test_id db.tests) >>= λ row. elim row [
      | none ↦ throw w.unavailable
      | some t ↦ open_row now w t
    ])

abbrev pub test_event : ℕ → TestWork → String → String → Draft
test_event now w event_type rest = with_message event_type (concat (concat "Test " w.key) rest) now

-- The events; of their payload the measurement class and the list of capabilities are left out.
abbrev pub skipped_draft : ℕ → TestWork → String → (completed total : ℕ) → Draft
skipped_draft now w run_test_id completed total =
    record (test_event now w "test.completed"
      (concat (concat " skipped: the provider does not declare " w.unmet_names) ".")) {
        progress = some (completed, total);
        payload =
            ("test", some w.key)
            ∷ ("run_test_id", some run_test_id)
            ∷ ("status", some "skipped")
            ∷ ("skip_reason", some "unsupported_capability")
            ∷ [];
      }

abbrev pub started_test_draft : ℕ → TestWork → String → Draft
started_test_draft now w run_test_id = record (test_event now w "test.started" " started.") {
  payload = ("test", some w.key) ∷ ("run_test_id", some run_test_id) ∷ [];
}

abbrev pub ended_draft : ℕ → TestWork → String → String → Measured → Draft
ended_draft now w run_test_id status m =
    record (test_event now w "test.completed" (concat (concat " " status) ".")) {
      progress = some (m.completed_samples, m.total_samples);
      payload =
          ("test", some w.key) ∷ ("run_test_id", some run_test_id) ∷ ("status", some status) ∷ [];
    }

abbrev pub at_end : ℕ → Option String → Option String → TestColumns
at_end now error_code error_text = record {
  skip_reason = none;
  started_at = none;
  completed_at = some now;
  error_code = error_code;
  error_text = error_text;
}

-- The last transaction; a row that is gone is passed over.
unfoldable pub settle_row :
    ℕ → TestStatus → Option String → Option String → Option RunTest → Action (Unit {0})
unfolding write_test
settle_row now target error_code error_text none = skip
settle_row now target error_code error_text (some t) = do
  lift (require_test_transition t.status target)
  modify (write_test t.id target (at_end now error_code error_text))

unfoldable pub settle_test :
    ℕ
    → String
    → String
    → TestWork
    → TestStatus
    → String
    → Option String
    → Option String
    → Measured
    → Action ℕ
unfolding settle_row
settle_test now run_id run_test_id w target name error_code error_text m = do
  transaction
      (gets (λ db. find_test run_test_id db.tests) >>= settle_row now target error_code error_text)
  announce run_id (ended_draft now w run_test_id name m)
  pure m.completed_samples

-- `except _Cancelled: raise`, and the `except Exception` clause; a KeyboardInterrupt passes both.
unfoldable pub conclude :
    Naming → ℕ → String → String → TestWork → Measured → Option Error → Action ℕ
unfolding settle_test
conclude n now run_id run_test_id w m none =
    settle_test now run_id run_test_id w TestStatus.completed "completed" none none m
conclude n now run_id run_test_id w m (some run_cancelled) = throw run_cancelled
conclude n now run_id run_test_id w m (some keyboard_interrupt) = throw keyboard_interrupt
conclude n now run_id run_test_id w m (some e) =
    settle_test now run_id run_test_id w TestStatus.failed "failed" (some (code_of n e))
      (some (n.text_of e)) m

-- What follows the first transaction.
unfoldable pub go_on :
    Naming
    → ℕ
    → String
    → String
    → TestWork
    → (completed_samples total_samples : ℕ) → Opening
    → Action ℕ
unfolding conclude
go_on n now run_id run_test_id w completed total (ended planned) = pure (completed + planned)
go_on n now run_id run_test_id w completed total (skipped planned) = do
  announce run_id (skipped_draft now w run_test_id (completed + planned) total)
  pure (completed + planned)
go_on n now run_id run_test_id w completed total started =
    announce run_id (started_test_draft now w run_test_id)
    >> (w.measure completed total >>= λ m. conclude n now run_id run_test_id w m m.raised)

-- _execute_test
unfoldable pub execute_test :
    Naming → ℕ → String → String → TestWork → (completed_samples total_samples : ℕ) → Action ℕ
unfolding open_test go_on
execute_test n now run_id run_test_id w completed total =
    open_test now run_test_id w >>= go_on n now run_id run_test_id w completed total
