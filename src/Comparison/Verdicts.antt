-- ===== src/Comparison/Verdicts.antt =====
-- ComparisonSubject, PairVerdict and verdict_for_pair. The comparability matrix is baseaicore's, and a
-- field of `Core`.
use free_weight.Json.{Fields, no_fields, field, Numbers}
use free_weight.Provenance.{FieldDiff, diff_documents}
use free_weight.Base.{
  Bool, true, false, not, ◌&&◌, ◌||◌, String, Option, none, some, List, [], str_eq, if◌then◌else◌,
}

-- The members of baseaicore's enums that the code names; `indeterminate` is any other outcome.
pub data MetricKind : Type 0 where
  quality performance memory energy : MetricKind

pub data Comparability : Type 0 where
  comparable warn separate indeterminate : Comparability

pub data StudyKind : Type 0 where
  direct runtime_study quantization_study machine_study incomparable unrelated : StudyKind

-- What the code reads of a MeasurementSubject, and the identity that the matrix reads.
pub record MeasurementSubject : Type 0 where
  pub identity : String
  pub runtime_profile_hash : String
  pub machine_fingerprint : String

abbrev pub Document : Type 0
Document = List (String × String)

pub record ComparisonSubject (N : Type 0) : Type 0 where
  pub run_id : String
  pub subject : MeasurementSubject
  pub benchmark_key : String
  pub benchmark_version : String
  pub dataset_hashes : Document
  pub fingerprint_document : Fields N
  pub family : Option String
  pub quantization : Option String

-- The sentence of a verdict: the matrix's own, or the one that the code writes.
pub data Reason : Type 0 where
  by_matrix : String → Reason
  different_suites different_versions : String → String → Reason
  different_quantizations : String → Option String → Option String → Reason
  same_quantization : String → Option String → Reason
  no_shared_family : Reason

pub record ComparabilityVerdict : Type 0 where
  pub comparability : Comparability
  pub reason : String

pub record Core (N : Type 0) : Type 0 where
  pub is_comparable_with :
      MeasurementSubject
      → MeasurementSubject
      → MetricKind
      → (version other_version : String) → (hashes other_hashes : Document) → ComparabilityVerdict
  -- How Python compares the numbers of a fingerprint document.
  pub numbers : Numbers N

pub record PairVerdict (N : Type 0) : Type 0 where
  pub left : String
  pub right : String
  pub comparability : Comparability
  pub study : StudyKind
  pub reason : Reason
  pub metric_kind : MetricKind
  pub diff : List (FieldDiff N)

-- `comparability in {COMPARABLE, WARN}`
abbrev pub is_mergeable : Comparability → Bool
is_mergeable Comparability.comparable = true
is_mergeable Comparability.warn = true
is_mergeable _ = false

-- PairVerdict.may_merge
abbrev pub may_merge : {N : Type 0} → PairVerdict N → Bool
may_merge v = is_mergeable v.comparability

abbrev pub option_eq : Option String → Option String → Bool
option_eq none none = true
option_eq (some a) (some b) = str_eq a b
option_eq _ _ = false

-- `left.family and right.family and left.family == right.family`: the shared family
abbrev pub shared_family : Option String → Option String → Option String
shared_family (some a) (some b) =
    if not (str_eq a "") && (not (str_eq b "") && str_eq a b) then some a else none
shared_family _ _ = none

abbrev pub study_in_family :
    {N : Type 0} → ComparisonSubject N → ComparisonSubject N → Option String → StudyKind × Reason
study_in_family left right none = (StudyKind.unrelated, no_shared_family)
study_in_family left right (some family) =
    if option_eq left.quantization right.quantization
    then (StudyKind.unrelated, same_quantization family left.quantization)
    else (
      StudyKind.quantization_study,
      different_quantizations family left.quantization right.quantization,
    )

-- _study_for_different_identity
unfoldable pub study_for_different_identity :
    {N : Type 0} → ComparisonSubject N → ComparisonSubject N → StudyKind × Reason
study_for_different_identity left right =
    study_in_family left right (shared_family left.family right.family)

-- _study_for_separate
unfoldable pub study_for_separate :
    {N : Type 0}
    → ComparisonSubject N
    → ComparisonSubject N
    → ComparabilityVerdict
    → StudyKind × Reason
study_for_separate left right verdict =
    if not (str_eq left.subject.runtime_profile_hash right.subject.runtime_profile_hash)
    then (StudyKind.runtime_study, by_matrix verdict.reason)
    else if not (str_eq left.subject.machine_fingerprint right.subject.machine_fingerprint)
    then (StudyKind.machine_study, by_matrix verdict.reason)
    else if not (str_eq left.benchmark_version right.benchmark_version)
    then (StudyKind.incomparable, different_versions left.benchmark_version right.benchmark_version)
    else (StudyKind.incomparable, by_matrix verdict.reason)

-- The `if verdict.comparability is …` chain.
unfoldable pub study_for :
    {N : Type 0}
    → ComparisonSubject N
    → ComparisonSubject N
    → ComparabilityVerdict
    → Comparability
    → StudyKind × Reason
unfolding study_for_separate study_for_different_identity
study_for left right verdict Comparability.comparable = (StudyKind.direct, by_matrix verdict.reason)
study_for left right verdict Comparability.warn =
    if not (str_eq left.subject.machine_fingerprint right.subject.machine_fingerprint)
    then (StudyKind.machine_study, by_matrix verdict.reason)
    else (StudyKind.direct, by_matrix verdict.reason)
study_for left right verdict Comparability.separate = study_for_separate left right verdict
study_for left right verdict Comparability.indeterminate = study_for_different_identity left right

abbrev pub is_direct : StudyKind → Bool
is_direct StudyKind.direct = true
is_direct _ = false

abbrev pub is_blank : {N : Type 0} → Fields N → Bool
is_blank no_fields = true
is_blank (field _ _ _) = false

module _ {N : Type 0} (core : Core N) where
  unfoldable pub separation_diff : ComparisonSubject N → ComparisonSubject N → List (FieldDiff N)
  unfolding diff_documents
  separation_diff left right =
      if is_blank left.fingerprint_document || is_blank right.fingerprint_document
      then []
      else diff_documents core.numbers left.fingerprint_document right.fingerprint_document

  unfoldable pub verdict_by_matrix :
      ComparisonSubject N → ComparisonSubject N → MetricKind → ComparabilityVerdict → PairVerdict N
  unfolding study_for separation_diff
  verdict_by_matrix left right metric_kind verdict =
      let (study, reason) = study_for left right verdict verdict.comparability in
      record {
        left = left.run_id;
        right = right.run_id;
        comparability = verdict.comparability;
        study = study;
        reason = reason;
        metric_kind = metric_kind;
        diff = if is_direct study then [] else separation_diff left right;
      }

  unfoldable pub verdict_for_pair :
      ComparisonSubject N → ComparisonSubject N → MetricKind → PairVerdict N
  unfolding separation_diff verdict_by_matrix
  verdict_for_pair left right metric_kind =
      if not (str_eq left.benchmark_key right.benchmark_key)
      then record {
        left = left.run_id;
        right = right.run_id;
        comparability = Comparability.separate;
        study = StudyKind.incomparable;
        reason = different_suites left.benchmark_key right.benchmark_key;
        metric_kind = metric_kind;
        diff = separation_diff left right;
      }
      else verdict_by_matrix left right metric_kind (
          core.is_comparable_with left.subject right.subject metric_kind left.benchmark_version
            right.benchmark_version left.dataset_hashes right.dataset_hashes)
