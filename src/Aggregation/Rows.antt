-- ===== src/Aggregation/Rows.antt =====
-- aggregate_test and aggregate_run: a row for each metric of a test, and for each of a run.
use free_weight.Base.{
  ℕ, ◌-◌, Bool, true, false, not, String, str_eq, sorted_strings, Option, none, some, List, [], ◌∷◌,
  ◌++◌, map, length, keep_if, count_if, any_of, all_of, flat_map, find_first, if◌then◌else◌,
}
use free_weight.Aggregation.{
  MeasurementClass, cold, warm, cache_reused, not_applicable, MetricResult, unavailable,
  SampleFacts, MetricDefinition, SampleGroup, AggregatedMetric, Formulas, value_of, reason_of,
}
use free_weight.Aggregation.Counts.{is_completed, combine, dispersion, values_for}
use free_weight.Aggregation.Totals.{aggregate_only}

abbrev pub aggregate_metric_keys : List String
aggregate_metric_keys =
    "output_tokens_per_success" ∷ "total_tokens_per_success" ∷ "quality_per_1k_output_tokens"
    ∷ "successes_per_million_output_tokens" ∷ "effective_context_tokens" ∷ []

abbrev pub class_eq : MeasurementClass → MeasurementClass → Bool
class_eq cold cold = true
class_eq warm warm = true
class_eq cache_reused cache_reused = true
class_eq not_applicable not_applicable = true
class_eq _ _ = false

abbrev pub distinct : List String → List String
distinct [] = []
distinct (a ∷ as_) = a ∷ keep_if (λ b. not (str_eq b a)) (distinct as_)

module _ {N : Type 0} where
  -- _row
  unfoldable pub row_of :
      Formulas N
      → MetricDefinition
      → MetricResult N
      → Option String
      → MeasurementClass
      → ℕ
      → ℕ
      → List N
      → AggregatedMetric N
  unfolding dispersion
  row_of m metric result run_test_id measurement_class sample_count excluded_count values = record {
    metric_key = metric.metric_key;
    run_test_id = run_test_id;
    numeric_value = value_of result;
    unavailable_reason = reason_of result;
    unit = metric.unit;
    aggregation = metric.aggregation;
    higher_is_better = metric.higher_is_better;
    sample_count = sample_count;
    excluded_count = excluded_count;
    stddev = (dispersion m values).0;
    coefficient_of_variation = (dispersion m values).1;
    measurement_class = measurement_class;
  }

  abbrev pub combined : Formulas N → MetricDefinition → List N → Option (MetricResult N)
  combined m metric [] = some (unavailable "no_usable_samples")
  combined m metric (n ∷ ns) = combine m (n ∷ ns) metric.aggregation

  abbrev pub value_row :
      Formulas N
      → MetricDefinition
      → SampleGroup N
      → List N × ℕ
      → Option (MetricResult N)
      → Option (AggregatedMetric N)
  value_row m metric g taken none = none
  value_row m metric g taken (some result) =
      some
        (row_of m metric result g.run_test_id g.measurement_class (length taken.0) taken.1 taken.0)

  -- One turn of the loop over the metrics.
  unfoldable pub metric_row :
      Formulas N → SampleGroup N → MetricDefinition → Option (AggregatedMetric N)
  unfolding row_of values_for aggregate_only
  metric_row m g metric =
      let all = aggregate_only m metric g.samples in
      let taken = values_for m metric g.samples in
      if any_of (str_eq metric.metric_key) aggregate_metric_keys
      then some (
          row_of m metric all.result g.run_test_id g.measurement_class all.sample_count
            all.excluded_count [])
      else value_row m metric g taken (combined m metric taken.0)

  abbrev pub and_rows :
      Option (AggregatedMetric N)
      → Option (List (AggregatedMetric N))
      → Option (List (AggregatedMetric N))
  and_rows (some row) (some rows) = some (row ∷ rows)
  and_rows _ _ = none

  abbrev pub append_rows :
      Option (List (AggregatedMetric N))
      → Option (List (AggregatedMetric N))
      → Option (List (AggregatedMetric N))
  append_rows (some first) (some second) = some (first ++ second)
  append_rows _ _ = none

  abbrev pub metric_rows :
      Formulas N → SampleGroup N → List MetricDefinition → Option (List (AggregatedMetric N))
  metric_rows m g [] = some []
  metric_rows m g (metric ∷ rest) = and_rows (metric_row m g metric) (metric_rows m g rest)

  -- aggregate_test; nothing for the ValueError of an unknown aggregation.
  unfoldable pub aggregate_test : Formulas N → SampleGroup N → Option (List (AggregatedMetric N))
  unfolding metric_row
  aggregate_test m g = metric_rows m g g.metrics

  abbrev pub test_rows : Formulas N → List (SampleGroup N) → Option (List (AggregatedMetric N))
  test_rows m [] = some []
  test_rows m (g ∷ gs) = append_rows (aggregate_test m g) (test_rows m gs)

  -- `by_key[key]`: a group stands in it as often as it declares the key.
  abbrev pub contributors : String → List (SampleGroup N) → List (SampleGroup N)
  contributors key = flat_map (λ (g : SampleGroup N).
      flat_map (λ (d : MetricDefinition). if str_eq d.metric_key key then g ∷ [] else []) g.metrics)

  -- `definitions[key]`: the first definition of the key.
  abbrev pub definition_of : String → List (SampleGroup N) → Option MetricDefinition
  definition_of key gs =
      find_first (λ (d : MetricDefinition). str_eq d.metric_key key)
        (flat_map (λ (g : SampleGroup N). g.metrics) gs)

  -- `sorted(by_key)`
  abbrev pub run_keys : List (SampleGroup N) → List String
  run_keys gs = sorted_strings (
      distinct (
        flat_map (λ (g : SampleGroup N). map (λ (d : MetricDefinition). d.metric_key) g.metrics)
          gs))

  abbrev pub all_samples : List (SampleGroup N) → List (SampleFacts N)
  all_samples = flat_map (λ (g : SampleGroup N). g.samples)

  -- The row of one key, with its definition and the groups that declare it; there is no key without.
  unfoldable pub run_row :
      Formulas N
      → Option MetricDefinition
      → List (SampleGroup N)
      → Option (List (AggregatedMetric N))
  unfolding aggregate_test row_of
  run_row m (some metric) (g ∷ gs) =
      let samples = all_samples (g ∷ gs) in
      let excluded = count_if (λ f. not (is_completed f)) samples in
      let merged : SampleGroup N = record {
        test_key = "";
        run_test_id = none;
        measurement_class = g.measurement_class;
        metrics = metric ∷ [];
        samples = samples;
      } in
      if all_of (λ (h : SampleGroup N). class_eq h.measurement_class g.measurement_class) gs
      then aggregate_test m merged
      else some (
          row_of m metric (unavailable "cold_and_warm_not_comparable") none not_applicable
            (length samples - excluded) excluded []
          ∷ [])
  run_row m _ _ = some []

  abbrev pub run_rows :
      Formulas N → List (SampleGroup N) → List String → Option (List (AggregatedMetric N))
  run_rows m gs [] = some []
  run_rows m gs (key ∷ keys) =
      append_rows (run_row m (definition_of key gs) (contributors key gs)) (run_rows m gs keys)

  unfoldable pub aggregate_run :
      Formulas N → List (SampleGroup N) → Option (List (AggregatedMetric N))
  unfolding aggregate_test run_row
  aggregate_run m groups = append_rows (test_rows m groups) (run_rows m groups (run_keys groups))
