-- ===== src/Lib.antt =====
-- FreeWeight: the run queue, the run engine's control flow, the event log, and the scoring, aggregation
-- and comparison of what runs have measured.
--
-- FreeWeight executes benchmark runs on language models, one run at a time. A run is a row with a
-- status; services move it (create, cancel, resume), a scheduler thread claims the oldest queued run
-- and executes it, and everything that happens to it is appended to an event log that browsers follow.
-- The rows of `runs`, `run_tests` and `run_events` are the state that the threads share.
--
-- Parts, files and sources (paths below src/freeweight/):
--   * RunState: domain/run_state.py, the transition tables and the functions over them.
--   * Store: infrastructure/db/models_runs.py and infrastructure/db/repositories/runs.py. Rows is the
--     tables as lists of rows; Actions is code that reads and writes them and may raise, where
--     `transaction` is `database.write()`; Queries is RunRepository and RunTestRepository: set_status,
--     claim_next_queued, mark_orphans_interrupted, active_run_id, queue_depth, insert, list_for_run;
--     Listing is list_runs.
--   * Events: services/events.py, RunEventRepository and `_event_stream` of web/routes/runs.py.
--     Publish is RunEventPublisher.publish with its retries, where an argument lists what other
--     writers commit between an attempt's read and its insert; Stream is the polling loop, over a list
--     of what each poll finds.
--   * Runs: services/runs.py and services/scheduler.py. Services is cancel_run, resume_run,
--     _check_cancelled, _transition and _cancel_pending_tests; Execution is _finish; Engine is
--     _execute_run_inner and execute_run; Testing is _execute_test around its cases; Scheduler is
--     recover, run_once and _loop. Steps and Chains are the statements on the `runs` table that these
--     calls are made of; Calls, Requests, Finishing and Admission take the calls apart into them, and
--     Program is a sequence of calls by any threads.
--   * Sampling: the loop of _execute_test in services/runs.py over cases and repetitions, with the keys
--     that SampleRepository.existing_keys finds and the unique key of `samples`. Plan is the planned
--     samples; Resume is one execution, Interruptions several.
--   * Comparison: domain/comparison.py. Verdicts is verdict_for_pair, Groups is group_subjects.
--   * Jury: domain/jury.py and eligible_jurors of domain/judging.py.
--   * Judging: the trials of domain/judging.py. Its file is JudgeTrial and JudgeRecord with as_json,
--     from_json, as_text and from_text; Verdicts is majority_choice and
--     agreement_rate; Blinding is blind_labels, presentation_orders and present.
--   * Calibration: partition_samples of domain/calibration.py.
--   * Trajectory: domain/scorers/tools.py. Its file is the calls, _match_required, _arguments_agree and
--     _is_subsequence; Metrics is tool_metrics.
--   * Schema: domain/scorers/schema.py. Its file is the schema and its violations, Validate is validate
--     with _object, _array, _nested and _bounds, and Conformance says what validation decides.
--   * Aggregation: domain/aggregation.py with MetricResult of domain/metrics.py. Counts is _values_for and
--     _combine, Totals is _aggregate_only, Rows is aggregate_test and aggregate_run.
--   * Provenance: diff_documents and check_repeatable of domain/provenance.py; Comparison uses the diff.
--   * Json: the documents that these parts read, and Python's comparison of them.
--   * Base: what the parts share.
--
-- How the state corresponds: a table is the list of its rows in the order of insertion, with the
-- columns that the modelled code reads or writes; an instant is a number; a status column holds the
-- member of the enum that its text names. SQLite runs one write transaction at a time, so a call is a
-- function from tables to tables, and an interleaving is a sequence of calls. A call is taken whole:
-- other calls may in fact run between its transaction and the publish that follows, which writes no
-- run, and Events says what they do to that publish. A call that raises
-- returns the error beside the tables, since what it committed before stays. A run's id comes from the
-- caller that inserts it; an id that the table has is an integrity error.
--
-- A JSON document is a tree; its numbers are a parameter, since they are Python's ints and floats. A
-- float that a division gives is kept as a fraction where its bounds matter (Trajectory, Judging), and
-- is a parameter with its arithmetic elsewhere (Aggregation).
--
-- Bounds: the eight attempts of `publish` are MAX_SEQUENCE_RETRIES, and the 200 events of a poll are
-- _MAX_EVENT_BATCH. The walk of diff_documents is given the depth of the first document as fuel, below
-- which it does not go. There is no other fuel. The scheduler's loop and an event stream run for as many
-- turns or polls as their list has, which stands for the stop request or the client that goes away.
--
-- Not modelled: what a run does between the statements that move it (calibration, preparation,
-- warming, measuring, judging), which are actions that the engine's model is given; of
-- _execute_test, follow-up cases and what one generation does; the formulas of metrics and the
-- statistics, which are floating point; scorers that read text; the other tables and services, of
-- which delete_results of services/database_admin.py removes runs; HTTP, templates and the command
-- line. The comparability matrix, canonical JSON and hashes are baseaicore's and parameters; so are
-- Python's random, re and json, and its texts for values.
pub mod Base
pub mod RunState
pub mod Store
pub mod Events
pub mod Runs
pub mod Aggregation
pub mod Calibration
pub mod Comparison
pub mod Json
pub mod Judging
pub mod Jury
pub mod Provenance
pub mod Sampling
pub mod Schema
pub mod Trajectory
