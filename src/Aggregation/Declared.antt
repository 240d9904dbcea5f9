-- ===== src/Aggregation/Declared.antt =====
-- The run-level row of a metric.
use mathlib.Core.Path.{subst}
use free_weight.Base.{
  ◌+◌, ◌≡◌, ◌≢◌, refl, ap, sym, ◌∙◌, inl, inr, true, String, str_eq, eq_iff, none, some, List, [],
  ◌∷◌, length, find_first, All, Bool-cases,
}
use free_weight.Aggregation.{
  MeasurementClass, cold, warm, cache_reused, not_applicable, MetricDefinition, SampleGroup,
  AggregatedMetric, Formulas,
}
use free_weight.Aggregation.Rows.{class_eq, contributors, definition_of, all_samples, run_row}
use free_weight.Aggregation.Accounting.{IsKnown, IsStated, IsOver, one_class, run_row-IsOver}
use free_weight.Aggregation.Contributors.{
  times_declared, Declares, samples_declared, all_metrics, samples-contributors, contributors-All,
  All-contributors, some_contributor,
}

first_declared :
    (key : String) (ds : List MetricDefinition)
    → times_declared key ds ≢ 0
    → All IsKnown ds
    → (d : MetricDefinition) × ((find_first (λ (x : MetricDefinition). str_eq x.metric_key key) ds
          ≡ some d)
        × ((d.metric_key ≡ key) × IsKnown d))
first_declared key [] declared known = absurd (declared refl)
first_declared key (d ∷ ds) declared known = elim (Bool-cases (str_eq d.metric_key key)) [
  | inl e ↦ rw e (d, (refl, ((eq_iff d.metric_key key).0 e, known.0)))
  | inr e ↦ rw e (first_declared key ds (rw e at declared) known.1)
]

class_eq-same : (a b : MeasurementClass) → class_eq a b ≡ true → a ≡ b
class_eq-same cold cold h = refl
class_eq-same warm warm h = refl
class_eq-same cache_reused cache_reused h = refl
class_eq-same not_applicable not_applicable h = refl
class_eq-same _ _ h = cc

class_eq_refl : (a : MeasurementClass) → class_eq a a ≡ true
class_eq_refl cold = refl
class_eq_refl warm = refl
class_eq_refl cache_reused = refl
class_eq_refl not_applicable = refl

module _ {N : Type 0} where
  -- The run-level row of a key.
  pub record IsRunRow (key : String) (gs : List (SampleGroup N)) (r : AggregatedMetric N)
      : Type 0 where
    pub of_key : r.metric_key ≡ key
    pub of_run : r.run_test_id ≡ none
    pub accounted : r.sample_count + r.excluded_count ≡ samples_declared key gs
    pub stated : IsStated r
    pub same_class :
        (c : MeasurementClass)
        → All (λ g. Declares key g → g.measurement_class ≡ c) gs
        → r.measurement_class ≡ c
    pub valued :
        (n : N)
        → r.numeric_value ≡ some n
        → All (λ g. Declares key g → g.measurement_class ≡ r.measurement_class) gs

  abbrev InClass : MeasurementClass → SampleGroup N → Type 0
  InClass c g = g.measurement_class ≡ c

  one_class-All :
      (g : SampleGroup N) (gs : List (SampleGroup N))
      → one_class g gs ≡ true
      → All (InClass g.measurement_class) gs
  one_class-All g [] h = tt
  one_class-All g (x ∷ gs) h =
      elim (Bool-cases (class_eq x.measurement_class g.measurement_class)) [
        | inl e ↦ (
          class_eq-same x.measurement_class g.measurement_class e,
          one_class-All g gs (rw e at h),
        )
        | inr e ↦ absurd (let q = rw e at h in cc)
      ]

  All-one_class :
      (g : SampleGroup N) (gs : List (SampleGroup N)) (c : MeasurementClass)
      → g.measurement_class ≡ c
      → All (InClass c) gs
      → one_class g gs ≡ true
  All-one_class g [] c e h = refl
  All-one_class g (x ∷ gs) c e h =
      let same : class_eq x.measurement_class g.measurement_class ≡ true =
        rw (h.0, e) (class_eq_refl c) in
      rw same (All-one_class g gs c e h.1)

  over-IsRunRow :
      (key : String) (gs cs : List (SampleGroup N)) (c : SampleGroup N) (d : MetricDefinition)
      (r : AggregatedMetric N)
      → contributors key gs ≡ c ∷ cs
      → d.metric_key ≡ key
      → IsOver d c cs r
      → IsRunRow key gs r
  over-IsRunRow key gs cs c d r e same over = record {
    of_key = over.is_row.of_metric ∙ same;
    of_run = over.is_row.of_test;
    accounted =
        over.is_row.accounted
        ∙ ap (λ l. length (all_samples l)) (sym e)
        ∙ samples-contributors key gs;
    stated = over.is_row.stated;
    same_class = λ k h.
        let all = contributors-All (InClass k) key gs h in
        let (first, rest) : All (InClass k) (c ∷ cs) = rw e at all in
        over.same_class (All-one_class c cs k first rest) ∙ first;
    valued = λ n h. elim (Bool-cases (one_class c cs)) [
      | inl one ↦
          let class = over.same_class one in
          let every : All (InClass r.measurement_class) (c ∷ cs) =
            subst (λ k. All (InClass k) (c ∷ cs)) (sym class) (refl, one_class-All c cs one) in
          All-contributors (InClass r.measurement_class) key gs (rw e every)
      | inr mixed ↦ absurd (let q = over.mixed mixed in cc)
    ];
  }

  -- If the aggregations of all metrics of the groups are known, a key that some group declares has
  -- one run-level row. It is of that key and of no single test; its counts of samples used and left
  -- out add up to the samples of the groups that declare the key, each group counted as often as it
  -- declares it; it has a value or a reason, never both; if those groups are of one measurement
  -- class, the row is of that class, and it has a value only if they are.
  pub run_row-IsRunRow :
      (m : Formulas N) (key : String) (gs : List (SampleGroup N))
      → All IsKnown (all_metrics gs)
      → times_declared key (all_metrics gs) ≢ 0
      → (r : AggregatedMetric N) × ((run_row m (definition_of key gs) (contributors key gs)
            ≡ some (r ∷ []))
          × IsRunRow key gs r)
  run_row-IsRunRow m key gs known declared =
      let (d, (found, (same, is_known))) = first_declared key (all_metrics gs) declared known in
      let (c, (cs, e)) = some_contributor key gs declared in
      let (r, (made, over)) = run_row-IsOver m d c cs is_known in
      (
        r,
        (
          ap (λ o. run_row m o (contributors key gs)) found ∙ ap (run_row m (some d)) e ∙ made,
          over-IsRunRow key gs cs c d r e same over,
        ),
      )
