-- ===== src/Comparison/Examples.antt =====
-- The theorems on comparison, applied with a matrix that separates machines.
use free_weight.Json.{string, field, no_fields}
use free_weight.Base.{ℕ, ◌==◌, true, false, String, none, List, [], ◌∷◌, str_eq, if◌then◌else◌}
use free_weight.Comparison.Verdicts.{
  MetricKind, Comparability, ComparisonSubject, Core, verdict_for_pair,
}
use free_weight.Comparison.Studies.{GoesWith, verdict_for_pair-GoesWith}
use free_weight.Comparison.Groups.{group_subjects}
use free_weight.Comparison.Partition.{IsPartition, ids_of_groups, group_subjects-IsPartition}

abbrev by_machine : Core ℕ
by_machine = record {
  is_comparable_with = λ a b kind v v' h h'. record {
    comparability =
        if str_eq a.machine_fingerprint b.machine_fingerprint
        then Comparability.comparable
        else Comparability.separate;
    reason = "machine";
  };
  numbers = record { equal = ◌==◌; of_bool = λ b. elim b [ true ↦ 1 | false ↦ 0 ] };
}

abbrev subject_on : String → String → ComparisonSubject ℕ
subject_on id machine = record {
  run_id = id;
  subject = record { identity = "m"; runtime_profile_hash = "p"; machine_fingerprint = machine };
  benchmark_key = "native.exact";
  benchmark_version = "1";
  dataset_hashes = [];
  fingerprint_document = field "machine" (string machine) no_fields;
  family = none;
  quantization = none;
}

abbrev three : List (ComparisonSubject ℕ)
three = subject_on "a" "x" ∷ subject_on "b" "y" ∷ subject_on "c" "x" ∷ []

group_subjects-IsPartition_example :
    IsPartition
      (group_subjects by_machine MetricKind.memory three).1
      ("a" ∷ "b" ∷ "c" ∷ [])
      (ids_of_groups (group_subjects by_machine MetricKind.memory three).0)
group_subjects-IsPartition_example = group_subjects-IsPartition by_machine MetricKind.memory three

verdict_for_pair-GoesWith_example :
    GoesWith
      (subject_on "a" "x")
      (subject_on "b" "y")
      (verdict_for_pair by_machine
        (subject_on "a" "x")
        (subject_on "b" "y")
        MetricKind.memory).comparability
      (verdict_for_pair by_machine
        (subject_on "a" "x")
        (subject_on "b" "y")
        MetricKind.memory).study
verdict_for_pair-GoesWith_example =
    verdict_for_pair-GoesWith by_machine (subject_on "a" "x") (subject_on "b" "y") MetricKind.memory
