-- ===== src/Aggregation/Sums.antt =====
-- The counts of samples used and left out add up.
use free_weight.Base.{
  ℕ, suc, ◌+◌, ◌-◌, ◌≤◌, ◌≡◌, inl, inr, Bool, str_eq, Option, none, some, List, [], ◌∷◌, length,
  length-append, keep_if, if◌then◌else◌, arith, Bool-cases,
}
use free_weight.Json.{get}
use free_weight.Aggregation.{MetricResult, SampleFacts, MetricDefinition, Formulas, value_of}
use free_weight.Aggregation.Counts.{is_completed, as_number, counted, values_loop, values_for}
use free_weight.Aggregation.Totals.{
  ContextScores, context_loop, with_context, effective_context, aggregate_only,
}

module _ {N : Type 0} where
  counted_one :
      (o : Option N) (taken : List N × ℕ)
      → length (counted o taken).0 + (counted o taken).1 ≡ suc (length taken.0 + taken.1)
  counted_one none (values, excluded) = omega arith
  counted_one (some n) (values, excluded) = omega (arith, length-append values (n ∷ []))

  values_loop-counts :
      (result : SampleFacts N → MetricResult N) (samples : List (SampleFacts N))
      (taken : List N × ℕ)
      → let out = values_loop result samples taken in
        length out.0 + out.1 ≡ length taken.0 + taken.1 + length samples
  unfolding values_loop
  values_loop-counts result [] taken = omega arith
  values_loop-counts result (f ∷ rest) taken =
      let now = if is_completed f then value_of (result f) else none in
      omega (arith, values_loop-counts result rest (counted now taken), counted_one now taken)

  pub values_for-counts :
      (m : Formulas N) (d : MetricDefinition) (samples : List (SampleFacts N))
      → length (values_for m d samples).0 + (values_for m d samples).1 ≡ length samples
  unfolding values_for
  values_for-counts m d samples = omega (arith, values_loop-counts _ samples ([], 0))

  with_context-counts :
      (m : Formulas N) (f : SampleFacts N) (a b : Option N) (c : ContextScores N)
      → (with_context m f a b c).used + (with_context m f a b c).skipped ≡ suc (c.used + c.skipped)
  with_context-counts m f (some a) (some b) c = ground arith
  with_context-counts m f none b c = omega arith
  with_context-counts m f (some a) none c = omega arith

  context_loop-counts :
      (m : Formulas N) (samples : List (SampleFacts N)) (c : ContextScores N)
      → (context_loop m samples c).used + (context_loop m samples c).skipped
        ≡ c.used + c.skipped + length samples
  unfolding context_loop
  context_loop-counts m [] c = omega arith
  context_loop-counts m (f ∷ rest) c =
      let next = with_context m f (as_number (get "context_tokens" f.detail)) f.score c in
      omega (
        arith,
        context_loop-counts m rest next,
        with_context-counts m f (as_number (get "context_tokens" f.detail)) f.score c,
      )

  length-keep_if :
      (p : SampleFacts N → Bool) (xs : List (SampleFacts N)) → length (keep_if p xs) ≤ length xs
  length-keep_if p [] = omega arith
  length-keep_if p (x ∷ xs) = ground (arith, length-keep_if p xs)

  pub aggregate_only-counts :
      (m : Formulas N) (d : MetricDefinition) (samples : List (SampleFacts N))
      → (aggregate_only m d samples).sample_count + (aggregate_only m d samples).excluded_count
        ≡ length samples
  unfolding aggregate_only effective_context
  aggregate_only-counts m d samples =
      let fewer = length-keep_if is_completed samples in
      elim (Bool-cases (str_eq d.metric_key "effective_context_tokens")) [
        | inl e ↦ rw e (
            omega (
              arith,
              fewer,
              context_loop-counts m (keep_if is_completed samples) (record {
                accuracies = [];
                threshold = m.default_threshold;
                used = 0;
                skipped = length samples - length (keep_if is_completed samples);
              }),
            ))
        | inr e ↦ rw e (omega (arith, fewer))
      ]
