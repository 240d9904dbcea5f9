-- ===== src/Aggregation/Examples.antt =====
-- The theorems on aggregation, applied to a cold and a warm test of two and one samples.
use free_weight.Base.{
  arith, ℕ, ltb, ◌==◌, ◌+◌, ◌≡◌, refl, true, String, Option, none, some, List, [], ◌∷◌,
}
use free_weight.Json.{no_fields}
use free_weight.Aggregation.{
  MeasurementClass, cold, warm, measured, unavailable, SampleFacts, MetricDefinition, SampleGroup,
  AggregatedMetric, Formulas,
}
use free_weight.Aggregation.Rows.{aggregate_test, definition_of, contributors, run_row}
use free_weight.Aggregation.Accounting.{Rows, aggregate_test-Rows}
use free_weight.Aggregation.Declared.{IsRunRow, run_row-IsRunRow}

abbrev added : List ℕ → ℕ
added [] = 0
added (n ∷ ns) = n + added ns

abbrev formulas : Formulas ℕ
formulas = record {
  derive = λ key. none;
  mean = added;
  median = added;
  p95 = added;
  p99 = added;
  least = added;
  most = added;
  sum = added;
  of_count = λ n. n;
  stddev = added;
  divided = λ a b. a;
  is_positive = ltb 0;
  is_int = λ n. true;
  equal = ◌==◌;
  output_tokens_per_success = λ tokens successes. unavailable "no_successful_samples";
  total_tokens_per_success = λ input output successes. unavailable "no_successful_samples";
  quality_per_1k_output_tokens = λ score tokens. unavailable "no_output_tokens";
  successes_per_million_output_tokens = λ successes tokens. measured successes;
  default_threshold = 1;
  effective_context_tokens = λ scores threshold. unavailable "no_context_observations";
}

abbrev sample : String → Option ℕ → SampleFacts ℕ
sample status score = record {
  status = status;
  input_tokens = none;
  output_tokens = none;
  score = score;
  detail = no_fields;
}

abbrev accuracy : MetricDefinition
accuracy = record {
  metric_key = "accuracy";
  unit = "ratio";
  higher_is_better = true;
  aggregation = "mean";
  source = "auto";
}

abbrev group : MeasurementClass → List (SampleFacts ℕ) → SampleGroup ℕ
group class samples = record {
  test_key = "t";
  run_test_id = some "rt";
  measurement_class = class;
  metrics = accuracy ∷ [];
  samples = samples;
}

abbrev cold_group : SampleGroup ℕ
cold_group = group cold (sample "completed" (some 1) ∷ sample "failed" none ∷ [])

abbrev warm_group : SampleGroup ℕ
warm_group = group warm (sample "completed" (some 3) ∷ [])

aggregate_test-Rows_example :
    (rs : List (AggregatedMetric ℕ)) × ((aggregate_test formulas cold_group ≡ some rs)
      × Rows cold_group (accuracy ∷ []) rs)
aggregate_test-Rows_example = aggregate_test-Rows formulas cold_group (refl, tt)

abbrev two_groups : List (SampleGroup ℕ)
two_groups = cold_group ∷ warm_group ∷ []

run_row-IsRunRow_example :
    (r : AggregatedMetric ℕ) × ((run_row formulas
          (definition_of "accuracy" two_groups)
          (contributors "accuracy" two_groups)
        ≡ some (r ∷ []))
      × IsRunRow "accuracy" two_groups r)
run_row-IsRunRow_example =
    run_row-IsRunRow formulas "accuracy" two_groups (refl, (refl, tt)) (λ e. omega (arith, e))
