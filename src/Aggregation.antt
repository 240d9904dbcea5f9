-- ===== src/Aggregation.antt =====
-- domain/aggregation.py and MetricResult of domain/metrics.py: the metrics of a test and of a run over
-- their samples. `N` is a number, and `Formulas` is the arithmetic on floats with the formulas of
-- domain/metrics.py. Of a sample the columns that this module reads are kept. A measurement that is
-- UNSUPPORTED is `none`.
pub mod Counts
pub mod Totals
pub mod Rows
mod Sums
pub mod Accounting
pub mod Contributors
pub mod Declared
mod Examples
use free_weight.Base.{ℕ, Bool, String, Option, none, some, List}
use free_weight.Json.{Fields}

pub data MeasurementClass : Type 0 where
  cold warm cache_reused not_applicable : MeasurementClass

-- A value, or the reason why there is none: __post_init__ refuses anything else.
pub data MetricResult (N : Type 0) : Type 0 where
  measured : N → MetricResult N
  unavailable : String → MetricResult N

pub record SampleFacts (N : Type 0) : Type 0 where
  pub status : String
  pub input_tokens : Option N
  pub output_tokens : Option N
  pub score : Option N
  pub detail : Fields N

pub record MetricDefinition : Type 0 where
  pub metric_key : String
  pub unit : String
  pub higher_is_better : Bool
  pub aggregation : String
  pub source : String

pub record SampleGroup (N : Type 0) : Type 0 where
  pub test_key : String
  pub run_test_id : Option String
  pub measurement_class : MeasurementClass
  pub metrics : List MetricDefinition
  pub samples : List (SampleFacts N)

pub record AggregatedMetric (N : Type 0) : Type 0 where
  pub metric_key : String
  pub run_test_id : Option String
  pub numeric_value : Option N
  pub unavailable_reason : Option String
  pub unit : String
  pub aggregation : String
  pub higher_is_better : Bool
  pub sample_count : ℕ
  pub excluded_count : ℕ
  pub stddev : Option N
  pub coefficient_of_variation : Option N
  pub measurement_class : MeasurementClass

pub record Formulas (N : Type 0) : Type 0 where
  -- SAMPLE_METRICS
  pub derive : String → Option (SampleFacts N → MetricResult N)
  pub mean : List N → N
  pub median : List N → N
  pub p95 : List N → N
  pub p99 : List N → N
  pub least : List N → N
  pub most : List N → N
  pub sum : List N → N
  pub of_count : ℕ → N
  pub stddev : List N → N
  pub divided : N → N → N
  pub is_positive : N → Bool
  pub is_int : N → Bool
  pub equal : N → N → Bool
  pub output_tokens_per_success : Option N → ℕ → MetricResult N
  pub total_tokens_per_success : Option N → Option N → ℕ → MetricResult N
  pub quality_per_1k_output_tokens : Option N → Option N → MetricResult N
  pub successes_per_million_output_tokens : ℕ → Option N → MetricResult N
  pub default_threshold : N
  pub effective_context_tokens : List (N × N) → N → MetricResult N

abbrev pub value_of : {N : Type 0} → MetricResult N → Option N
value_of (measured n) = some n
value_of (unavailable reason) = none

abbrev pub reason_of : {N : Type 0} → MetricResult N → Option String
reason_of (measured n) = none
reason_of (unavailable reason) = some reason
