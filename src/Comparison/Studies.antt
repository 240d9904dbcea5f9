-- ===== src/Comparison/Studies.antt =====
-- Which studies a verdict may name, and which of them may merge.
use free_weight.Base.{
  ◌≡◌, refl, ◌⊎◌, inl, inr, true, false, String, Option, none, some, str_eq, eq_iff, Bool-cases,
}
use free_weight.Comparison.Verdicts.{
  MetricKind, Comparability, StudyKind, ComparisonSubject, ComparabilityVerdict, Core, is_mergeable,
  may_merge, option_eq, shared_family, study_in_family, study_for_different_identity,
  study_for_separate, study_for, verdict_by_matrix, verdict_for_pair,
}

-- How a verdict's study goes with its permission to merge.
abbrev pub GoesWith :
    {N : Type 0} → ComparisonSubject N → ComparisonSubject N → Comparability → StudyKind → Type 0
GoesWith left right c StudyKind.direct = is_mergeable c ≡ true
GoesWith left right c StudyKind.machine_study =
    (str_eq left.subject.machine_fingerprint right.subject.machine_fingerprint ≡ false)
    × ((c ≡ Comparability.warn) ⊎ (c ≡ Comparability.separate))
GoesWith left right c _ = is_mergeable c ≡ false

in_family-GoesWith :
    {N : Type 0} (left right : ComparisonSubject N) (family : Option String)
    → GoesWith left right Comparability.indeterminate (study_in_family left right family).0
in_family-GoesWith left right none = refl
in_family-GoesWith left right (some family) =
    elim (Bool-cases (option_eq left.quantization right.quantization)) [
      | inl e ↦ rw e refl
      | inr e ↦ rw e refl
    ]

study_for-GoesWith :
    {N : Type 0} (left right : ComparisonSubject N) (v : ComparabilityVerdict) (c : Comparability)
    → GoesWith left right c (study_for left right v c).0
unfolding study_for study_for_separate study_for_different_identity
study_for-GoesWith left right v Comparability.comparable = refl
study_for-GoesWith left right v Comparability.warn =
    elim (Bool-cases (str_eq left.subject.machine_fingerprint right.subject.machine_fingerprint)) [
      | inl e ↦ rw e refl
      | inr e ↦ rw e (e, inl refl)
    ]
study_for-GoesWith left right v Comparability.separate =
    elim (Bool-cases
      (str_eq left.subject.runtime_profile_hash right.subject.runtime_profile_hash)) [
        | inr e ↦ rw e refl
        | inl e ↦
            elim (Bool-cases
              (str_eq left.subject.machine_fingerprint right.subject.machine_fingerprint)) [
                | inr f ↦ rw (e, f) (f, inr refl)
                | inl f ↦
                    elim (Bool-cases (str_eq left.benchmark_version right.benchmark_version)) [
                      | inl g ↦ rw (e, f, g) refl
                      | inr g ↦ rw (e, f, g) refl
                    ]
              ]
      ]
study_for-GoesWith left right v Comparability.indeterminate =
    in_family-GoesWith left right (shared_family left.family right.family)

module _ {N : Type 0} (core : Core N) where
  -- Whatever the comparability matrix answers, a verdict whose study is direct may merge, and one
  -- whose study is neither direct nor a machine study may not; a machine study's subjects are on
  -- different machines, and it may merge exactly if the matrix said `warn`. In particular only a
  -- direct or a machine study merges.
  pub verdict_for_pair-GoesWith :
      (left right : ComparisonSubject N) (kind : MetricKind)
      → GoesWith left right
          (verdict_for_pair core left right kind).comparability
          (verdict_for_pair core left right kind).study
  unfolding verdict_for_pair verdict_by_matrix
  verdict_for_pair-GoesWith left right kind =
      elim (Bool-cases (str_eq left.benchmark_key right.benchmark_key)) [
        | inr e ↦ rw e refl
        | inl e ↦
            let v =
              core.is_comparable_with left.subject right.subject kind left.benchmark_version
                right.benchmark_version left.dataset_hashes right.dataset_hashes in
            rw e (study_for-GoesWith left right v v.comparability)
      ]

  -- Subjects of different suites never merge.
  pub verdict_for_pair-suites :
      (left right : ComparisonSubject N) (kind : MetricKind)
      → may_merge (verdict_for_pair core left right kind) ≡ true
      → left.benchmark_key ≡ right.benchmark_key
  unfolding verdict_for_pair
  verdict_for_pair-suites left right kind h =
      elim (Bool-cases (str_eq left.benchmark_key right.benchmark_key)) [
        | inl e ↦ (eq_iff left.benchmark_key right.benchmark_key).0 e
        | inr e ↦ absurd (let q = rw e at h in cc)
      ]
