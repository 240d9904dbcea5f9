-- ===== src/Store/Queries.antt =====
-- RunRepository and RunTestRepository: the statements that read and write statuses. A SELECT
-- without a tie-breaking order takes rows of one `created_at` as the table lists them.
use free_weight.Base.{
  ℕ, ◌==◌, Bool, ◌&&◌, String, Option, none, some, List, [], ◌∷◌, ◌++◌, map, keep_if, count_if,
  any_of, sort_by, str_eq, if◌then◌else◌,
}
use free_weight.RunState.{RunStatus, TestStatus, run_eq, run_in}
use free_weight.Store.Rows.{Run, RunTest, Db, find_run, update_run, update_test, or_keep}
use free_weight.Store.Actions.{Outcome, Action, pure, integrity_error}

-- _ORPHAN_STATUSES
abbrev pub orphan_statuses : List RunStatus
orphan_statuses =
    RunStatus.preparing ∷ RunStatus.warming ∷ RunStatus.running ∷ RunStatus.cancelling ∷ []

abbrev pub in_flight : Run → Bool
in_flight r = run_in r.status orphan_statuses

abbrev pub is_queued : Run → Bool
is_queued r = run_eq r.status RunStatus.queued

abbrev pub by_age : List Run → List Run
by_age = sort_by (λ r. r.created_at)

-- `….limit(1)).one_or_none()` over the ids
abbrev pub first_id : List Run → Option String
first_id [] = none
first_id (r ∷ rs) = some r.id

-- RunRepository.active_run_id
unfoldable pub active_run_id : Db → Option String
active_run_id db = first_id (by_age (keep_if in_flight db.runs))

-- RunRepository.queue_depth
unfoldable pub queue_depth : Db → ℕ
queue_depth db = count_if is_queued db.runs

-- RunRepository.get_by_id
abbrev pub get_by_id : String → Db → Option Run
get_by_id id db = find_run id db.runs

-- RunRepository.insert, with the row's primary key chosen by the caller
unfoldable pub insert_unless : Option Run → Run → Action Run
insert_unless (some _) r db = (Outcome.err integrity_error, db)
insert_unless none r db = (Outcome.ok r, record db { runs = db.runs ++ r ∷ [] })

unfoldable pub insert_run : Run → Action Run
unfolding insert_unless
insert_run r db = insert_unless (find_run r.id db.runs) r db

-- RunRepository.set_status: the row's new values, and the statement on the table.
unfoldable pub with_status :
    RunStatus
    → (started_at completed_at : Option ℕ) → (error_code error_text : Option String) → Run
    → Run
with_status status started_at completed_at error_code error_text r = record r {
  status = status;
  started_at = or_keep started_at r.started_at;
  completed_at = or_keep completed_at r.completed_at;
  error_code = or_keep error_code r.error_code;
  error_text = or_keep error_text r.error_text;
}

unfoldable pub set_status :
    String
    → RunStatus
    → (started_at completed_at : Option ℕ) → (error_code error_text : Option String) → Db
    → Db
set_status id status started_at completed_at error_code error_text db = record db {
  runs = update_run id (with_status status started_at completed_at error_code error_text) db.runs;
}

-- `.values(status="preparing", started_at=now)` on a row that is still queued
unfoldable pub to_preparing : ℕ → Run → Run
to_preparing now r =
    if is_queued r then record r { status = RunStatus.preparing; started_at = some now } else r

-- The guarded UPDATE and what follows it.
unfoldable pub claim_candidate : ℕ → String → Action (Option Run)
unfolding to_preparing
claim_candidate now id db =
    let rowcount = count_if (λ r. str_eq r.id id && is_queued r) db.runs in
    let updated = update_run id (to_preparing now) db.runs in
    if rowcount == 1
    then (Outcome.ok (find_run id updated), record db { runs = updated })
    else (Outcome.ok none, record db { runs = updated })

unfoldable pub claim_oldest : ℕ → Option String → Action (Option Run)
unfolding claim_candidate
claim_oldest now none = pure none
claim_oldest now (some id) = claim_candidate now id

-- `if self.active_run_id(session) is not None: return None`, and what follows
unfoldable pub claim_unless : ℕ → Option String → Action (Option Run)
unfolding claim_oldest
claim_unless now (some _) db = (Outcome.ok none, db)
claim_unless now none db = claim_oldest now (first_id (by_age (keep_if is_queued db.runs))) db

-- RunRepository.claim_next_queued
unfoldable pub claim_next_queued : ℕ → Action (Option Run)
unfolding active_run_id claim_unless
claim_next_queued now db = claim_unless now (active_run_id db) db

abbrev pub id_in : List String → Run → Bool
id_in ids r = any_of (str_eq r.id) ids

unfoldable pub interrupt_ids : ℕ → List String → List Run → List Run
interrupt_ids now ids rows =
    map
      (λ r.
        if id_in ids r
        then record r { status = RunStatus.interrupted; completed_at = some now }
        else r)
      rows

abbrev pub orphan_ids : Db → List String
orphan_ids db = map (λ (r : Run). r.id) (by_age (keep_if in_flight db.runs))

-- `if orphan_ids:` and the UPDATE under it
unfoldable pub interrupt_orphans : ℕ → List String → Action (List String)
unfolding interrupt_ids
interrupt_orphans now [] db = (Outcome.ok [], db)
interrupt_orphans now (id ∷ ids) db =
    (Outcome.ok (id ∷ ids), record db { runs = interrupt_ids now (id ∷ ids) db.runs })

-- RunRepository.mark_orphans_interrupted
unfoldable pub mark_orphans_interrupted : ℕ → Action (List String)
unfolding interrupt_orphans
mark_orphans_interrupted now db = interrupt_orphans now (orphan_ids db) db

-- RunTestRepository.list_for_run: the order of ids is that of insertion, since an id is a ULID
abbrev pub tests_of : String → List RunTest → List RunTest
tests_of run_id = keep_if (λ t. str_eq t.run_id run_id)

-- RunTestRepository.set_status, with only the status given
unfoldable pub set_test_status : String → TestStatus → Db → Db
set_test_status id status db = record db {
  tests = update_test id (λ t. record t { status = status }) db.tests;
}
