-- ===== src/Sampling/Resume.antt =====
-- What an execution of a test adds to the samples that are stored.
use free_weight.Base.{
  ℕ, ◌+◌, ◌≡◌, sym, inl, inr, true, List, [], ◌∷◌, ◌++◌, map, length, take, drop, arith, Bool-cases,
}
use free_weight.Sampling.{
  Case, Key, key_of, Progress, Execution, cancelled, failed, done, Moments, Conditions, range_from,
  run_repetitions, then_count, run_case, run_cases, execute_cases,
}
use free_weight.Sampling.Parts.{and_go_on-Ran}
use free_weight.Sampling.Plan.{
  planned, missing, FailsAt, Ran, append_nothing, Ran-cancelled, run_repetitions-Ran,
}

then_count-Ran :
    (k : Conditions) (ks : List Key) (p : Progress) (x : Execution)
    → Ran k ks p x
    → Ran k ks p (then_count x)
then_count-Ran k ks p (done q) h = h
then_count-Ran k ks p (cancelled q) h = h
then_count-Ran k ks p (failed q) h = h

run_case-Ran :
    (k : Conditions) (n : ℕ) (c : Case) (p : Progress)
    → Ran k (map (key_of c) (range_from 1 n)) p (run_case k n c p)
unfolding run_case
run_case-Ran k n c p = elim (Bool-cases (k.moments.is_cancelled (length p.stored))) [
  | inl stop ↦ rw stop (Ran-cancelled k (map (key_of c) (range_from 1 n)) p stop)
  | inr go ↦ rw go (
      then_count-Ran k (map (key_of c) (range_from 1 n)) p (run_repetitions k c (range_from 1 n) p)
        (run_repetitions-Ran k c (range_from 1 n) p))
]

run_cases-Ran :
    (k : Conditions) (n : ℕ) (cs : List Case) (p : Progress)
    → Ran k (planned n cs) p (run_cases k n cs p)
unfolding run_cases
run_cases-Ran k n [] p = (sym (append_nothing p.stored), omega arith)
run_cases-Ran k n (c ∷ cs) p =
    and_go_on-Ran k (map (key_of c) (range_from 1 n)) (planned n cs) p (run_case k n c p)
      (run_cases k n cs) (run_case-Ran k n c p) (run_cases-Ran k n cs)

-- What one execution comes to, over what was stored.
abbrev pub Executed : Moments → List Key → List Key → ℕ → Execution → Type 0
Executed o keys already before (done q) =
    (q.stored ≡ already ++ missing already keys) × (q.completed_samples ≡ before + length keys)
Executed o keys already before (cancelled q) =
    (n : ℕ) × ((q.stored ≡ already ++ take n (missing already keys))
      × (o.is_cancelled (length q.stored) ≡ true))
Executed o keys already before (failed q) =
    (n : ℕ) × ((q.stored ≡ already ++ take n (missing already keys))
      × FailsAt o (drop n (missing already keys)) q.stored)

-- An execution of a test leaves the samples that were stored, and adds those planned that were
-- missing, in the order of the plan. If it is neither cancelled nor fails, it adds all of them, and
-- every planned sample is counted as completed once. Else it adds some first part: a cancellation
-- has been requested by then; or a generation or the publish of the last sample raises, or the next
-- planned sample has the key of a stored one, which the table refuses.
pub execute_cases-Executed :
    (o : Moments) (n : ℕ) (cs : List Case) (before : ℕ) (already : List Key)
    → Executed o (planned n cs) already before (execute_cases o n cs before already)
unfolding execute_cases
execute_cases-Executed o n cs before already =
    let k : Conditions = record { already = already; moments = o } in
    let start : Progress = record {
      stored = already;
      completed_samples = before;
      finished_cases = 0;
    } in
    as_executed (run_cases k n cs start) (run_cases-Ran k n cs start)
  where
    as_executed :
        (x : Execution)
        → Ran
            (record { already = already; moments = o })
            (planned n cs)
            (record { stored = already; completed_samples = before; finished_cases = 0 })
            x
        → Executed o (planned n cs) already before x
    as_executed (done q) h = h
    as_executed (cancelled q) h = h
    as_executed (failed q) h = h
