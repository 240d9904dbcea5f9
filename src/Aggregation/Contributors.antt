-- ===== src/Aggregation/Contributors.antt =====
-- The groups that a run-level row of aggregate_run is over: those that declare its key.
use free_weight.Base.{
  ℕ, suc, ◌+◌, ◌*◌, ◌≡◌, ◌≢◌, refl, ap, ◌∙◌, inl, inr, String, str_eq, List, [], ◌∷◌, ◌++◌, length,
  length-append, flat_map, All, All-append, append-empty, arith, Bool-cases, if◌then◌else◌,
}
use free_weight.Aggregation.{MetricDefinition, SampleGroup}
use free_weight.Aggregation.Rows.{contributors, all_samples}

-- How often a list of metrics declares the key.
abbrev pub times_declared : String → List MetricDefinition → ℕ
times_declared key [] = 0
times_declared key (d ∷ ds) =
    if str_eq d.metric_key key then suc (times_declared key ds) else times_declared key ds

times_declared-append :
    (key : String) (ds es : List MetricDefinition)
    → times_declared key (ds ++ es) ≡ times_declared key ds + times_declared key es
times_declared-append key [] es = omega arith
times_declared-append key (d ∷ ds) es = elim (Bool-cases (str_eq d.metric_key key)) [
  | inl e ↦ rw e (omega (arith, times_declared-append key ds es))
  | inr e ↦ rw e (times_declared-append key ds es)
]

module _ {N : Type 0} where
  -- A group declares the key.
  abbrev pub Declares : String → SampleGroup N → Type 0
  Declares key g = times_declared key g.metrics ≢ 0

  -- The samples of the groups, each as often as its group declares the key.
  abbrev pub samples_declared : String → List (SampleGroup N) → ℕ
  samples_declared key [] = 0
  samples_declared key (g ∷ gs) =
      times_declared key g.metrics * length g.samples + samples_declared key gs

  abbrev copies : String → SampleGroup N → List MetricDefinition → List (SampleGroup N)
  copies key g = flat_map (λ (d : MetricDefinition). if str_eq d.metric_key key then g ∷ [] else [])

  all_samples-append :
      (gs hs : List (SampleGroup N))
      → length (all_samples (gs ++ hs)) ≡ length (all_samples gs) + length (all_samples hs)
  all_samples-append [] hs = omega arith
  all_samples-append (g ∷ gs) hs = omega (
    arith,
    all_samples-append gs hs,
    length-append g.samples (all_samples (gs ++ hs)),
    length-append g.samples (all_samples gs),
  )

  length-copies :
      (key : String) (g : SampleGroup N) (ds : List MetricDefinition)
      → length (all_samples (copies key g ds)) ≡ times_declared key ds * length g.samples
  length-copies key g [] = omega arith
  length-copies key g (d ∷ ds) = elim (Bool-cases (str_eq d.metric_key key)) [
    | inl e ↦ rw e (
        length-append g.samples (all_samples (copies key g ds))
        ∙ ap (λ k. length g.samples + k) (length-copies key g ds)
        ∙ suc_times (times_declared key ds) (length g.samples))
    | inr e ↦ rw e (length-copies key g ds)
  ]
    where
      suc_times : (a b : ℕ) → b + a * b ≡ suc a * b
      suc_times a b = grind arith

  pub samples-contributors :
      (key : String) (gs : List (SampleGroup N))
      → length (all_samples (contributors key gs)) ≡ samples_declared key gs
  samples-contributors key [] = refl
  samples-contributors key (g ∷ gs) =
      all_samples-append (copies key g g.metrics) (contributors key gs)
      ∙ ap (λ k. k + length (all_samples (contributors key gs))) (length-copies key g g.metrics)
      ∙ ap (λ k. times_declared key g.metrics * length g.samples + k) (samples-contributors key gs)

  -- What holds of the groups that declare the key holds of the contributors, and conversely.
  copies-All :
      (P : SampleGroup N → Type 0) (key : String) (g : SampleGroup N) (ds : List MetricDefinition)
      → (times_declared key ds ≢ 0 → P g)
      → All P (copies key g ds)
  copies-All P key g [] h = tt
  copies-All P key g (d ∷ ds) h = elim (Bool-cases (str_eq d.metric_key key)) [
    | inl e ↦
        let here : P g = h (rw e (λ q. omega (arith, q))) in
        rw e (here, copies-All P key g ds (λ _. here))
    | inr e ↦ rw e (copies-All P key g ds (rw e at h))
  ]

  All-copies :
      (P : SampleGroup N → Type 0) (key : String) (g : SampleGroup N) (ds : List MetricDefinition)
      → All P (copies key g ds)
      → times_declared key ds ≢ 0
      → P g
  All-copies P key g [] h some_ = absurd (some_ refl)
  All-copies P key g (d ∷ ds) h some_ = elim (Bool-cases (str_eq d.metric_key key)) [
    | inl e ↦ (rw e at h).0
    | inr e ↦ All-copies P key g ds (rw e at h) (rw e at some_)
  ]

  append-All :
      (P : SampleGroup N → Type 0) (gs hs : List (SampleGroup N))
      → All P (gs ++ hs)
      → All P gs × All P hs
  append-All P [] hs h = (tt, h)
  append-All P (g ∷ gs) hs h = let rest = append-All P gs hs h.1 in ((h.0, rest.0), rest.1)

  pub contributors-All :
      (P : SampleGroup N → Type 0) (key : String) (gs : List (SampleGroup N))
      → All (λ g. Declares key g → P g) gs
      → All P (contributors key gs)
  contributors-All P key [] h = tt
  contributors-All P key (g ∷ gs) h =
      All-append P (copies key g g.metrics) (contributors key gs) (copies-All P key g g.metrics h.0)
        (contributors-All P key gs h.1)

  pub All-contributors :
      (P : SampleGroup N → Type 0) (key : String) (gs : List (SampleGroup N))
      → All P (contributors key gs)
      → All (λ g. Declares key g → P g) gs
  All-contributors P key [] h = tt
  All-contributors P key (g ∷ gs) h =
      let parts = append-All P (copies key g g.metrics) (contributors key gs) h in
      (All-copies P key g g.metrics parts.0, All-contributors P key gs parts.1)

  copies_none :
      (key : String) (g : SampleGroup N) (ds : List MetricDefinition)
      → copies key g ds ≡ []
      → times_declared key ds ≡ 0
  copies_none key g [] h = refl
  copies_none key g (d ∷ ds) h = elim (Bool-cases (str_eq d.metric_key key)) [
    | inl e ↦ absurd (let q = rw e at h in cc)
    | inr e ↦ rw e (copies_none key g ds (rw e at h))
  ]

  abbrev pub all_metrics : List (SampleGroup N) → List MetricDefinition
  all_metrics = flat_map (λ (g : SampleGroup N). g.metrics)

  contributors_none :
      (key : String) (gs : List (SampleGroup N))
      → contributors key gs ≡ []
      → times_declared key (all_metrics gs) ≡ 0
  contributors_none key [] h = refl
  contributors_none key (g ∷ gs) h =
      let parts = append-empty (copies key g g.metrics) (contributors key gs) h in
      omega (
        arith,
        times_declared-append key g.metrics (all_metrics gs),
        copies_none key g g.metrics parts.0,
        contributors_none key gs parts.1,
      )

  pub some_contributor :
      (key : String) (gs : List (SampleGroup N))
      → times_declared key (all_metrics gs) ≢ 0
      → (c : SampleGroup N) × ((cs : List (SampleGroup N)) × (contributors key gs ≡ c ∷ cs))
  some_contributor key gs declared =
      by_list (contributors key gs) (λ e. declared (contributors_none key gs e))
    where
      by_list :
          (cs : List (SampleGroup N))
          → cs ≢ []
          → (d : SampleGroup N) × ((ds : List (SampleGroup N)) × (cs ≡ d ∷ ds))
      by_list [] h = absurd (h refl)
      by_list (c ∷ cs) h = (c, (cs, refl))
