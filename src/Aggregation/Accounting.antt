-- ===== src/Aggregation/Accounting.antt =====
-- Every sample is accounted for in every row.
use free_weight.Base.{
  ℕ, ◌+◌, ◌-◌, ◌≤◌, ◌≡◌, ◌≢◌, refl, ◌⊎◌, inl, inr, Bool, true, false, not, String, str_eq, Option,
  none, some, List, [], ◌∷◌, length, count_if, count_if-le, any_of, all_of, All, arith, Bool-cases,
  Option-cases,
}
use free_weight.Aggregation.{
  MeasurementClass, not_applicable, MetricResult, measured, unavailable, SampleFacts,
  MetricDefinition, SampleGroup, AggregatedMetric, Formulas,
}
use free_weight.Aggregation.Counts.{is_completed, combiners, combine, values_for}
use free_weight.Aggregation.Totals.{aggregate_only}
use free_weight.Aggregation.Rows.{
  aggregate_metric_keys, class_eq, row_of, combined, metric_row, metric_rows, aggregate_test,
  all_samples, run_row,
}
use free_weight.Aggregation.Sums.{values_for-counts, aggregate_only-counts}

-- Its aggregation is one that the code knows.
abbrev pub IsKnown : MetricDefinition → Type 0
IsKnown d = any_of (str_eq d.aggregation) combiners ≡ true

module _ {N : Type 0} where
  -- A row has a value or a reason, and not both.
  abbrev pub IsStated : AggregatedMetric N → Type 0
  IsStated r =
      ((n : N) × ((r.numeric_value ≡ some n) × (r.unavailable_reason ≡ none)))
      ⊎ ((reason : String) × ((r.numeric_value ≡ none) × (r.unavailable_reason ≡ some reason)))

  -- A row for this metric, over these samples of this test in this class.
  pub record IsRow (metric : MetricDefinition) (run_test_id : Option String)
      (samples : List (SampleFacts N)) (r : AggregatedMetric N) : Type 0 where
    pub of_metric : r.metric_key ≡ metric.metric_key
    pub of_test : r.run_test_id ≡ run_test_id
    pub accounted : r.sample_count + r.excluded_count ≡ length samples
    pub stated : IsStated r

  -- A row for each metric, in order.
  pub data Rows (g : SampleGroup N)
      : List MetricDefinition → List (AggregatedMetric N) → Type 0 where
    no_rows : Rows g [] []
    row :
        {d : MetricDefinition} {ds : List MetricDefinition} {r : AggregatedMetric N}
        {rs : List (AggregatedMetric N)}
        → IsRow d g.run_test_id g.samples r
        → r.measurement_class ≡ g.measurement_class
        → Rows g ds rs
        → Rows g (d ∷ ds) (r ∷ rs)

  row_of-IsRow :
      (m : Formulas N) (d : MetricDefinition) (result : MetricResult N) (test : Option String)
      (class : MeasurementClass) (count excluded : ℕ) (values : List N)
      (samples : List (SampleFacts N))
      → count + excluded ≡ length samples
      → IsRow d test samples (row_of m d result test class count excluded values)
  unfolding row_of
  row_of-IsRow m d result test class count excluded values samples h = record {
    of_metric = refl;
    of_test = refl;
    accounted = h;
    stated = stated_by result;
  }
    where
      stated_by : (r : MetricResult N) → IsStated (row_of m d r test class count excluded values)
      stated_by (measured n) = unfold row_of in inl (n, (refl, refl))
      stated_by (unavailable reason) = unfold row_of in inr (reason, (refl, refl))

  row_of-class :
      (m : Formulas N) (d : MetricDefinition) (result : MetricResult N) (test : Option String)
      (class : MeasurementClass) (count excluded : ℕ) (values : List N)
      → (row_of m d result test class count excluded values).measurement_class ≡ class
  unfolding row_of
  row_of-class m d result test class count excluded values = refl

  combine_known :
      (m : Formulas N) (values : List N) (d : MetricDefinition)
      → IsKnown d
      → combine m values d.aggregation ≢ none
  unfolding combine
  combine_known m values d known e = let h = rw known at e in ground arith

  combined-some :
      (m : Formulas N) (d : MetricDefinition) (values : List N)
      → IsKnown d
      → (r : MetricResult N) × (combined m d values ≡ some r)
  combined-some m d [] known = (unavailable "no_usable_samples", refl)
  combined-some m d (n ∷ ns) known = elim (Option-cases (combine m (n ∷ ns) d.aggregation)) [
    | inl e ↦ absurd (combine_known m (n ∷ ns) d known e)
    | inr found ↦ found
  ]

  abbrev IsMade : SampleGroup N → MetricDefinition → Option (AggregatedMetric N) → Type 0
  IsMade g d made =
      (r : AggregatedMetric N) × ((made ≡ some r)
        × (IsRow d g.run_test_id g.samples r × (r.measurement_class ≡ g.measurement_class)))

  metric_row-IsMade :
      (m : Formulas N) (g : SampleGroup N) (d : MetricDefinition)
      → IsKnown d
      → IsMade g d (metric_row m g d)
  unfolding metric_row
  metric_row-IsMade m g d known =
      elim (Bool-cases (any_of (str_eq d.metric_key) aggregate_metric_keys)) [
        | inl e ↦
            let all = aggregate_only m d g.samples in
            rw e (
              _,
              (
                refl,
                (
                  row_of-IsRow m d all.result g.run_test_id g.measurement_class all.sample_count
                      all.excluded_count [] g.samples (aggregate_only-counts m d g.samples),
                  row_of-class m d all.result g.run_test_id g.measurement_class all.sample_count
                      all.excluded_count [],
                ),
              ),
            )
        | inr e ↦
            let taken = values_for m d g.samples in
            let (result, c) = combined-some m d taken.0 known in
            rw (e, c)
              (
                _,
                (
                  refl,
                  (
                    row_of-IsRow m d result g.run_test_id g.measurement_class (length taken.0)
                        taken.1 taken.0 g.samples (values_for-counts m d g.samples),
                    row_of-class m d result g.run_test_id g.measurement_class (length taken.0)
                        taken.1 taken.0,
                  ),
                ),
              )
      ]

  metric_rows-Rows :
      (m : Formulas N) (g : SampleGroup N) (ds : List MetricDefinition)
      → All IsKnown ds
      → (rs : List (AggregatedMetric N)) × ((metric_rows m g ds ≡ some rs) × Rows g ds rs)
  metric_rows-Rows m g [] known = ([], (refl, no_rows))
  metric_rows-Rows m g (d ∷ ds) known =
      let (r, (made, (is, class))) = metric_row-IsMade m g d known.0 in
      let (rs, (rest, all)) = metric_rows-Rows m g ds known.1 in
      rw (made, rest) (r ∷ rs, (refl, row is class all))

  -- A test whose metrics have known aggregations is aggregated into one row per metric, in order and
  -- of the test's class; each row has a value or a reason, never both, and its counts of samples used
  -- and left out add up to the samples of the test.
  pub aggregate_test-Rows :
      (m : Formulas N) (g : SampleGroup N)
      → All IsKnown g.metrics
      → (rs : List (AggregatedMetric N)) × ((aggregate_test m g ≡ some rs) × Rows g g.metrics rs)
  unfolding aggregate_test
  aggregate_test-Rows m g known = metric_rows-Rows m g g.metrics known

  abbrev pub one_class : SampleGroup N → List (SampleGroup N) → Bool
  one_class g gs =
      all_of (λ (h : SampleGroup N). class_eq h.measurement_class g.measurement_class) gs

  -- A run-level row over these groups: in their class, or without a value if they have several.
  pub record IsOver (metric : MetricDefinition) (g : SampleGroup N) (gs : List (SampleGroup N))
      (r : AggregatedMetric N) : Type 0 where
    pub is_row : IsRow metric none (all_samples (g ∷ gs)) r
    pub same_class : one_class g gs ≡ true → r.measurement_class ≡ g.measurement_class
    pub mixed : one_class g gs ≡ false → r.numeric_value ≡ none

  count-le :
      (samples : List (SampleFacts N))
      → count_if (λ f. not (is_completed f)) samples ≤ length samples
  count-le samples = count_if-le (λ f. not (is_completed f)) samples

  -- The row over some groups, with their samples.
  pub run_row-IsOver :
      (m : Formulas N) (metric : MetricDefinition) (g : SampleGroup N) (gs : List (SampleGroup N))
      → IsKnown metric
      → (r : AggregatedMetric N) × ((run_row m (some metric) (g ∷ gs) ≡ some (r ∷ []))
          × IsOver metric g gs r)
  unfolding run_row aggregate_test
  run_row-IsOver m metric g gs known =
      let samples = all_samples (g ∷ gs) in
      let excluded = count_if (λ f. not (is_completed f)) samples in
      let merged : SampleGroup N = record {
        test_key = "";
        run_test_id = none;
        measurement_class = g.measurement_class;
        metrics = metric ∷ [];
        samples = samples;
      } in
      elim (Bool-cases (one_class g gs)) [
        | inl e ↦
            let (r, (made, (is, class))) = metric_row-IsMade m merged metric known in
            rw (e, made)
              (r, (refl, record { is_row = is; same_class = λ _. class; mixed = λ h. cc }))
        | inr e ↦ rw e (
          _,
          (
            refl,
            record {
              is_row =
                  row_of-IsRow m metric (unavailable "cold_and_warm_not_comparable") none
                    not_applicable (length samples - excluded) excluded [] samples
                    (omega (arith, count-le samples));
              same_class = λ h. cc;
              mixed = λ h. unfold row_of in refl;
            },
          ),
        )
      ]
