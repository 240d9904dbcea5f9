-- ===== src/Aggregation/Totals.antt =====
-- The metrics over a set of samples: _aggregate_only, _effective_context and _total.
use free_weight.Base.{
  ℕ, ◌+◌, ◌-◌, String, str_eq, Option, none, some, List, [], ◌∷◌, ◌++◌, map, length, keep_if,
  count_if, if◌then◌else◌,
}
use free_weight.Json.{get}
use free_weight.Aggregation.{MetricResult, SampleFacts, MetricDefinition, Formulas}
use free_weight.Aggregation.Counts.{
  is_completed, is_success, as_number, supported, sum_or_none, mean_or_none,
}

-- The locals of `_effective_context`.
pub record ContextScores (N : Type 0) : Type 0 where
  pub accuracies : List (N × List N)
  pub threshold : N
  pub used : ℕ
  pub skipped : ℕ

-- `(result, sample_count, excluded_count)`
pub record Aggregate (N : Type 0) : Type 0 where
  pub result : MetricResult N
  pub sample_count : ℕ
  pub excluded_count : ℕ

module _ {N : Type 0} where
  -- `accuracies.setdefault(length, []).append(score)`
  abbrev pub add_score : Formulas N → N → N → List (N × List N) → List (N × List N)
  add_score m length score [] = (length, score ∷ []) ∷ []
  add_score m length score ((l, scores) ∷ rest) =
      if m.equal length l
      then (l, scores ++ score ∷ []) ∷ rest
      else (l, scores) ∷ add_score m length score rest

  abbrev pub or_threshold : N → Option N → N
  or_threshold threshold none = threshold
  or_threshold threshold (some declared) = declared

  -- One sample, with the length and the score it recorded.
  abbrev pub with_context :
      Formulas N → SampleFacts N → Option N → Option N → ContextScores N → ContextScores N
  with_context m f (some length) (some score) c =
      if m.is_int length
      then record {
        accuracies = add_score m length score c.accuracies;
        threshold =
            or_threshold c.threshold (as_number (get "effective_context_threshold" f.detail));
        used = c.used + 1;
        skipped = c.skipped;
      }
      else record c { skipped = c.skipped + 1 }
  with_context m f _ _ c = record c { skipped = c.skipped + 1 }

  -- The loop of `_effective_context`.
  unfoldable pub context_loop :
      Formulas N → List (SampleFacts N) → ContextScores N → ContextScores N
  context_loop m [] c = c
  context_loop m (f ∷ rest) c =
      context_loop m rest (with_context m f (as_number (get "context_tokens" f.detail)) f.score c)

  abbrev pub mean_by_length : Formulas N → List (N × List N) → List (N × N)
  mean_by_length m = map (λ (e : N × List N). (e.0, m.mean e.1))

  unfoldable pub effective_context : Formulas N → List (SampleFacts N) → ℕ → Aggregate N
  unfolding context_loop
  effective_context m completed excluded =
      let c = context_loop m completed (record {
        accuracies = [];
        threshold = m.default_threshold;
        used = 0;
        skipped = excluded;
      }) in
      record {
        result = m.effective_context_tokens (mean_by_length m c.accuracies) c.threshold;
        sample_count = c.used;
        excluded_count = c.skipped;
      }

  -- _total
  abbrev pub total_of : Formulas N → (SampleFacts N → Option N) → List (SampleFacts N) → Option N
  total_of m quantity samples = sum_or_none m (supported (map quantity samples))

  -- The `match` over the metric's key.
  abbrev pub set_metric : Formulas N → String → List (SampleFacts N) → MetricResult N
  set_metric m key completed =
      let successes = count_if (is_success m) completed in
      let output_total = total_of m (λ f. f.output_tokens) completed in
      let input_total = total_of m (λ f. f.input_tokens) completed in
      let mean_score =
        mean_or_none m (supported (map (λ (f : SampleFacts N). f.score) completed)) in
      if str_eq key "output_tokens_per_success"
      then m.output_tokens_per_success output_total successes
      else if str_eq key "total_tokens_per_success"
      then m.total_tokens_per_success input_total output_total successes
      else if str_eq key "quality_per_1k_output_tokens"
      then m.quality_per_1k_output_tokens mean_score output_total
      else m.successes_per_million_output_tokens successes output_total

  unfoldable pub aggregate_only : Formulas N → MetricDefinition → List (SampleFacts N) → Aggregate N
  unfolding effective_context
  aggregate_only m metric samples =
      let completed = keep_if is_completed samples in
      let excluded = length samples - length completed in
      if str_eq metric.metric_key "effective_context_tokens"
      then effective_context m completed excluded
      else record {
        result = set_metric m metric.metric_key completed;
        sample_count = length completed;
        excluded_count = excluded;
      }
