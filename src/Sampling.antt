-- ===== src/Sampling.antt =====
-- The cases and repetitions of one test in _execute_test of services/runs.py: the loop of `run_case`
-- over what SampleRepository.existing_keys found, up to the rounds of follow-up cases. A sample is
-- its natural key; whether a cancellation has been requested, a generation raises or the publish of a
-- stored sample raises is asked at each such moment, with the number of samples stored by then. The
-- unique key of `samples` refuses a second row of one key. What an exception that leaves the loop does
-- to the test is in Runs/Testing. The writes of completed_cases are taken to succeed.
pub mod Plan
mod Parts
pub mod Resume
pub mod Interruptions
mod Examples
use free_weight.Base.{
  ℕ, zero, suc, ◌+◌, ◌==◌, Bool, true, false, ◌&&◌, String, List, [], ◌∷◌, ◌++◌, length, any_of,
  str_eq, if◌then◌else◌,
}

pub record Case : Type 0 where
  pub case_id : String
  pub ordinal : ℕ

-- `(case_id, ordinal, repetition)`
pub record Key : Type 0 where
  pub case_id : String
  pub ordinal : ℕ
  pub repetition : ℕ

abbrev pub key_of : Case → ℕ → Key
key_of c repetition = record { case_id = c.case_id; ordinal = c.ordinal; repetition = repetition }

abbrev pub key_eq : Key → Key → Bool
key_eq a b = str_eq a.case_id b.case_id && (a.ordinal == b.ordinal && a.repetition == b.repetition)

-- The test's rows of `samples`, and the counters of `_execute_test`.
pub record Progress : Type 0 where
  pub stored : List Key
  pub completed_samples : ℕ
  pub finished_cases : ℕ

-- `_Cancelled` raised, another exception raised, or neither.
pub data Execution : Type 0 where
  cancelled failed done : Progress → Execution

-- What happens from outside, by the number of samples stored.
pub record Moments : Type 0 where
  pub is_cancelled : ℕ → Bool
  pub sampling_raises : ℕ → Bool
  pub publishing_raises : ℕ → Bool

pub record Conditions : Type 0 where
  pub already : List Key
  pub moments : Moments

-- `range(first, first + count)`
abbrev pub range_from : ℕ → ℕ → List ℕ
range_from first zero = []
range_from first (suc count) = first ∷ range_from (suc first) count

-- The `for repetition` loop.
unfoldable pub run_repetitions : Conditions → Case → List ℕ → Progress → Execution
run_repetitions k c [] p = done p
run_repetitions k c (repetition ∷ rest) p =
    let skipped =
      run_repetitions k c rest (record p { completed_samples = p.completed_samples + 1 }) in
    let after : Progress = record p {
      stored = p.stored ++ key_of c repetition ∷ [];
      completed_samples = p.completed_samples + 1;
    } in
    let sampled = run_repetitions k c rest after in
    if any_of (key_eq (key_of c repetition)) k.already
    then skipped
    else if k.moments.is_cancelled (length p.stored)
    then cancelled p
    else if k.moments.sampling_raises (length p.stored)
    then failed p
    else if any_of (key_eq (key_of c repetition)) p.stored
    then failed p
    else if k.moments.publishing_raises (length after.stored)
    then failed after
    else sampled

abbrev pub then_count : Execution → Execution
then_count (cancelled p) = cancelled p
then_count (failed p) = failed p
then_count (done p) = done (record p { finished_cases = p.finished_cases + 1 })

-- run_case
unfoldable pub run_case : Conditions → ℕ → Case → Progress → Execution
unfolding run_repetitions
run_case k measured_repetitions c p =
    if k.moments.is_cancelled (length p.stored)
    then cancelled p
    else then_count (run_repetitions k c (range_from 1 measured_repetitions) p)

abbrev pub and_go_on : Execution → (Progress → Execution) → Execution
and_go_on (cancelled p) rest = cancelled p
and_go_on (failed p) rest = failed p
and_go_on (done p) rest = rest p

-- `for case in cases`
unfoldable pub run_cases : Conditions → ℕ → List Case → Progress → Execution
unfolding run_case
run_cases k measured_repetitions [] p = done p
run_cases k measured_repetitions (c ∷ cs) p =
    and_go_on (run_case k measured_repetitions c p) (run_cases k measured_repetitions cs)

-- One execution of the test, over the samples that earlier ones left.
unfoldable pub execute_cases :
    Moments → ℕ → List Case → (completed_samples : ℕ) → List Key → Execution
unfolding run_cases
execute_cases moments measured_repetitions cases completed_samples already =
    run_cases (record { already = already; moments = moments }) measured_repetitions cases
      (record { stored = already; completed_samples = completed_samples; finished_cases = 0 })
