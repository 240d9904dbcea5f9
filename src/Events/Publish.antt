-- ===== src/Events/Publish.antt =====
-- RunEventRepository and RunEventPublisher.
use free_weight.Base.{
  ℕ, zero, suc, ◌+◌, ◌==◌, ltb, Bool, true, false, not, ◌&&◌, ◌||◌, String, Option, none, some,
  List, [], ◌∷◌, ◌++◌, keep_if, any_of, str_eq, if◌then◌else◌,
}
use free_weight.Store.Rows.{Run, RunEvent, Db, find_run}
use free_weight.Store.Actions.{
  Outcome, ok, err, Action, throw, transaction, unknown_event_type, sequence_collisions,
  integrity_error,
}

-- RUN_EVENT_TYPES
abbrev pub run_event_types : List String
run_event_types =
    "run.started" ∷ "run.progress" ∷ "run.completed" ∷ "run.failed" ∷ "run.cancelled"
    ∷ "run.interrupted" ∷ "run.degraded" ∷ "test.started" ∷ "test.progress" ∷ "test.completed"
    ∷ "test.skipped" ∷ "sample.started" ∷ "sample.completed" ∷ "sample.failed" ∷ []

-- _TERMINAL_EVENT_TYPES and StoredEvent.is_terminal
abbrev pub terminal_event_types : List String
terminal_event_types = "run.completed" ∷ "run.failed" ∷ "run.cancelled" ∷ "run.interrupted" ∷ []

abbrev pub is_terminal : RunEvent → Bool
is_terminal e = any_of (str_eq e.event_type) terminal_event_types

-- MAX_SEQUENCE_RETRIES
abbrev pub max_sequence_retries : ℕ
max_sequence_retries = 8

-- The arguments of one `publish` call, with the instant that its clock gives.
pub record Draft : Type 0 where
  pub event_type : String
  pub message : Option String
  pub progress : Option (ℕ × ℕ)
  pub payload : List (String × Option String)
  pub now : ℕ

abbrev pub events_of : String → List RunEvent → List RunEvent
events_of run_id = keep_if (λ e. str_eq e.run_id run_id)

-- `max(a, b)`
abbrev pub larger : ℕ → ℕ → ℕ
larger a b = if ltb a b then b else a

-- `SELECT max(sequence)`, 0 for no rows
abbrev pub highest_sequence : List RunEvent → ℕ
highest_sequence [] = 0
highest_sequence (e ∷ es) = larger e.sequence (highest_sequence es)

-- RunEventRepository.next_sequence
unfoldable pub next_sequence : String → Db → ℕ
next_sequence run_id db = highest_sequence (events_of run_id db.events) + 1

abbrev pub first_part : Option (ℕ × ℕ) → Option ℕ
first_part none = none
first_part (some (completed, total)) = some completed

abbrev pub second_part : Option (ℕ × ℕ) → Option ℕ
second_part none = none
second_part (some (completed, total)) = some total

abbrev pub as_row : String → ℕ → Draft → RunEvent
as_row run_id sequence d = record {
  run_id = run_id;
  sequence = sequence;
  timestamp = d.now;
  event_type = d.event_type;
  message = d.message;
  progress_completed = first_part d.progress;
  progress_total = second_part d.progress;
  data_json = d.payload;
}

-- uq_run_events_run_id_sequence
abbrev pub is_taken : String → ℕ → List RunEvent → Bool
is_taken run_id sequence = any_of (λ e. str_eq e.run_id run_id && e.sequence == sequence)

-- The foreign key of run_events.run_id has a row to refer to.
abbrev pub has_run : String → List Run → Bool
has_run run_id rows = elim (find_run run_id rows) [ none ↦ false | some r ↦ true ]

-- RunEventRepository.append, refused by either constraint of the table.
unfoldable pub append : String → ℕ → Draft → Action RunEvent
append run_id sequence d db =
    if is_taken run_id sequence db.events || not (has_run run_id db.runs)
    then (err integrity_error, db)
    else (
      ok (as_row run_id sequence d),
      record db { events = db.events ++ as_row run_id sequence d ∷ [] },
    )

-- What other writers of the same run commit between an attempt's read of the highest sequence and
-- its insert: nothing, if the run has no row.
unfoldable pub commit_rivals : String → List Draft → Db → Db
commit_rivals run_id [] db = db
commit_rivals run_id (d ∷ ds) db = commit_rivals run_id ds (
    if has_run run_id db.runs
    then record db { events = db.events ++ as_row run_id (next_sequence run_id db) d ∷ [] }
    else db)

abbrev pub first_rivals : List (List Draft) → List Draft
first_rivals [] = []
first_rivals (ds ∷ rest) = ds

abbrev pub later_rivals : List (List Draft) → List (List Draft)
later_rivals [] = []
later_rivals (ds ∷ rest) = rest

-- The body of the `for _attempt` loop: read the sequence, then insert in the table as it is by then.
unfoldable pub attempt : String → Draft → List Draft → Action RunEvent
unfolding append next_sequence
attempt run_id d rivals db =
    transaction (append run_id (next_sequence run_id db) d) (commit_rivals run_id rivals db)

-- `except IntegrityError: continue`; anything else leaves the loop.
abbrev pub after_attempt : Outcome RunEvent × Db → Action RunEvent → Outcome RunEvent × Db
after_attempt (err integrity_error, after) again = again after
after_attempt (other, after) again = (other, after)

-- The loop, on the attempts left.
unfoldable pub attempts : ℕ → String → Draft → List (List Draft) → Action RunEvent
attempts zero run_id d rivals = throw sequence_collisions
attempts (suc left) run_id d rivals = λ db.
    after_attempt (attempt run_id d (first_rivals rivals) db)
      (attempts left run_id d (later_rivals rivals))

-- RunEventPublisher.publish
unfoldable pub publish : String → Draft → List (List Draft) → Action RunEvent
unfolding attempts
publish run_id d rivals =
    if any_of (str_eq d.event_type) run_event_types
    then attempts max_sequence_retries run_id d rivals
    else throw unknown_event_type
