-- ===== src/Aggregation/Counts.antt =====
-- What one metric takes from the samples: its values, and how many samples gave none.
use free_weight.Base.{
  ℕ, ◌+◌, ltb, Bool, true, false, not, ◌&&◌, ◌||◌, String, str_eq, Option, none, some, List, [],
  ◌∷◌, ◌++◌, length, keep_if, any_of, if◌then◌else◌,
}
use free_weight.Json.{Json, number, get}
use free_weight.Aggregation.{
  MetricResult, measured, unavailable, SampleFacts, MetricDefinition, Formulas, value_of,
}

-- _COMBINERS
abbrev pub combiners : List String
combiners =
    "mean" ∷ "median" ∷ "p50" ∷ "p95" ∷ "p99" ∷ "min" ∷ "max" ∷ "sum" ∷ "count" ∷ "ratio" ∷ "raw"
    ∷ []

module _ {N : Type 0} where
  abbrev pub is_completed : SampleFacts N → Bool
  is_completed f = str_eq f.status "completed"

  abbrev pub is_positive_score : Formulas N → Option N → Bool
  is_positive_score m none = false
  is_positive_score m (some score) = m.is_positive score

  unfoldable pub is_success : Formulas N → SampleFacts N → Bool
  is_success m f = is_completed f && is_positive_score m f.score

  -- _combine; nothing for the ValueError.
  unfoldable pub combine : Formulas N → List N → String → Option (MetricResult N)
  combine m values aggregation =
      if not (any_of (str_eq aggregation) combiners)
      then none
      else if str_eq aggregation "raw"
      then some (unavailable "raw_metric_not_aggregated")
      else if str_eq aggregation "mean" || str_eq aggregation "ratio"
      then some (measured (m.mean values))
      else if str_eq aggregation "median" || str_eq aggregation "p50"
      then some (measured (m.median values))
      else if str_eq aggregation "p95"
      then some (measured (m.p95 values))
      else if str_eq aggregation "p99"
      then some (measured (m.p99 values))
      else if str_eq aggregation "min"
      then some (measured (m.least values))
      else if str_eq aggregation "max"
      then some (measured (m.most values))
      else if str_eq aggregation "sum"
      then some (measured (m.sum values))
      else some (measured (m.of_count (length values)))

  -- _dispersion
  unfoldable pub dispersion : Formulas N → List N → Option N × Option N
  dispersion m values =
      let mean = m.mean values in
      let stddev = m.stddev values in
      if ltb (length values) 2
      then (none, none)
      else (some stddev, if m.is_positive mean then some (m.divided stddev mean) else none)

  -- A bool is no number here.
  abbrev pub as_number : Json N → Option N
  as_number (number n) = some n
  as_number _ = none

  -- _detail_number
  unfoldable pub detail_number : SampleFacts N → String → Option N
  detail_number f key = as_number (get key f.detail)

  abbrev pub is_some : Option N → Bool
  is_some none = false
  is_some (some n) = true

  abbrev pub derived_by : Formulas N → MetricDefinition → Option (SampleFacts N → MetricResult N)
  derived_by m metric = if str_eq metric.source "auto" then m.derive metric.metric_key else none

  abbrev pub is_underived : Option (SampleFacts N → MetricResult N) → Bool
  is_underived none = true
  is_underived (some derive) = false

  abbrev pub from_detail : Formulas N → MetricDefinition → List (SampleFacts N) → Bool
  from_detail m metric samples =
      str_eq metric.source "detail"
      || (str_eq metric.source "auto"
          && (is_underived (derived_by m metric)
              && any_of (λ f. is_some (detail_number f metric.metric_key))
                  (keep_if is_completed samples)))

  abbrev pub or_unavailable : Option N → String → MetricResult N
  or_unavailable none reason = unavailable reason
  or_unavailable (some n) reason = measured n

  -- What a completed sample gives.
  abbrev pub result_for :
      Option (SampleFacts N → MetricResult N)
      → Bool
      → MetricDefinition
      → SampleFacts N
      → MetricResult N
  result_for (some derive) detailed metric f = derive f
  result_for none detailed metric f =
      if detailed
      then or_unavailable (detail_number f metric.metric_key) "not_measured_for_this_case"
      else or_unavailable f.score "not_scored"

  abbrev pub counted : Option N → List N × ℕ → List N × ℕ
  counted none (values, excluded) = (values, excluded + 1)
  counted (some n) (values, excluded) = (values ++ n ∷ [], excluded)

  -- The loop of _values_for.
  unfoldable pub values_loop :
      (SampleFacts N → MetricResult N) → List (SampleFacts N) → List N × ℕ → List N × ℕ
  values_loop result [] so_far = so_far
  values_loop result (f ∷ rest) so_far =
      values_loop result rest
        (counted (if is_completed f then value_of (result f) else none) so_far)

  -- _values_for
  unfoldable pub values_for : Formulas N → MetricDefinition → List (SampleFacts N) → List N × ℕ
  unfolding values_loop detail_number
  values_for m metric samples =
      values_loop (result_for (derived_by m metric) (from_detail m metric samples) metric) samples
        ([], 0)

  -- `[x for x in xs if x is supported]`
  abbrev pub supported : List (Option N) → List N
  supported [] = []
  supported (none ∷ rest) = supported rest
  supported (some n ∷ rest) = n ∷ supported rest

  abbrev pub sum_or_none : Formulas N → List N → Option N
  sum_or_none m [] = none
  sum_or_none m (n ∷ ns) = some (m.sum (n ∷ ns))

  abbrev pub mean_or_none : Formulas N → List N → Option N
  mean_or_none m [] = none
  mean_or_none m (n ∷ ns) = some (m.mean (n ∷ ns))
