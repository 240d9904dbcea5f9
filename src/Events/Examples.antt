-- ===== src/Events/Examples.antt =====
-- The theorems on events, applied to a run with three of them.
use free_weight.Base.{◌≡◌, refl, true, false, String, none, some, List, [], ◌∷◌, drop, take, arith}
use free_weight.RunState.{RunStatus}
use free_weight.Store.Rows.{RunEvent, Db, find_run}
use free_weight.Runs.Program.{new_run}
use free_weight.Events.Publish.{Draft, as_row, events_of, publish}
use free_weight.Events.GapFree.{IsGapFree, IsRangeFrom, sequences}
use free_weight.Events.Appending.{Appended, publish-Appended, publish-IsGapFree}
use free_weight.Events.Stream.{Poll, event_stream, list_since}
use free_weight.Events.Replay.{events_in, up_to_terminal, list_since_lem}
use free_weight.Events.Delivery.{event_stream_in_order, event_stream_complete}

abbrev draft : String → Draft
draft event_type = record {
  event_type = event_type;
  message = none;
  progress = none;
  payload = [];
  now = 4;
}

abbrev stored : List RunEvent
stored =
    as_row "a" 1 (draft "run.started")
    ∷ as_row "a" 2 (draft "run.progress")
    ∷ as_row "a" 3 (draft "run.completed")
    ∷ []

abbrev three_events : Db
three_events = record {
  runs = record (new_run "a" 3) { status = RunStatus.running; started_at = some 3 } ∷ [];
  tests = [];
  events = stored;
}

empty : Db
empty = record { runs = []; tests = []; events = [] }

-- The run has a row; the first attempt meets a rival, the second does not.
publish-Appended_example :
    Appended false "a"
      (draft "run.progress")
      (publish "a" (draft "run.progress") ((draft "run.degraded" ∷ []) ∷ []) three_events)
unfolding find_run
publish-Appended_example =
    publish-Appended "a" (draft "run.progress") ((draft "run.degraded" ∷ []) ∷ []) three_events
      (refl, (refl, (refl, tt))) refl

publish-IsGapFree_example :
    IsGapFree "a" (publish "a" (draft "run.progress") ((draft "run.degraded" ∷ []) ∷ []) empty).1
unfolding empty
publish-IsGapFree_example =
    publish-IsGapFree "a" (draft "run.progress") ((draft "run.degraded" ∷ []) ∷ []) empty (λ k. tt)
      "a"

abbrev polls : List Poll
polls =
    record { db = three_events; heartbeat_due = false }
    ∷ record { db = three_events; heartbeat_due = true }
    ∷ []

event_stream_in_order_example :
    IsRangeFrom 2 (sequences (events_in (event_stream "a" false true 1 polls)))
event_stream_in_order_example =
    event_stream_in_order "a" false true 1 polls
      ((refl, (refl, (refl, tt))), ((refl, (refl, (refl, tt))), tt))

event_stream_complete_example :
    events_in (event_stream "a" false true 1 polls) ≡ up_to_terminal (drop 1 stored)
event_stream_complete_example =
    event_stream_complete "a" false true 1 stored polls
      (((refl, (refl, (refl, tt))), refl), (((refl, (refl, (refl, tt))), refl), tt)) (omega arith)

list_since_lem_example : list_since "a" 1 1 three_events ≡ take 1 (drop 1 (events_of "a" stored))
list_since_lem_example = list_since_lem "a" 1 1 three_events (refl, (refl, (refl, tt)))
