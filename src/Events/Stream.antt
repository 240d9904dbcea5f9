-- ===== src/Events/Stream.antt =====
-- `read_events` and the server-sent stream over it (web/routes/runs.py, `_event_stream`).
use free_weight.Base.{
  ℕ, ltb, Bool, true, false, ◌&&◌, String, List, [], ◌∷◌, ◌++◌, keep_if, take, sort_by, str_eq,
  if◌then◌else◌,
}
use free_weight.Store.Rows.{RunEvent, Db}
use free_weight.Events.Publish.{is_terminal}

-- RunEventRepository.list_since, and `read_events` over it
unfoldable pub list_since : String → (after_sequence limit : ℕ) → Db → List RunEvent
list_since run_id after_sequence limit db = take limit (
    sort_by (λ e. e.sequence)
      (keep_if (λ e. str_eq e.run_id run_id && ltb after_sequence e.sequence) db.events))

-- _MAX_EVENT_BATCH
abbrev pub max_event_batch : ℕ
max_event_batch = 200

-- What a stream writes: an event's frame, a heartbeat comment or the closing frame.
pub data Frame : Type 0 where
  event : RunEvent → Frame
  heartbeat closing : Frame

-- One turn of the loop: the tables as its read finds them, and whether a heartbeat is due.
pub record Poll : Type 0 where
  pub db : Db
  pub heartbeat_due : Bool

-- What is left of a batch, whether a terminal event ended the stream, and the sequence reached.
pub record Sent : Type 0 where
  pub frames : List Frame
  pub ended : Bool
  pub sequence : ℕ

abbrev pub closing_frame : Bool → List Frame
closing_frame true = closing ∷ []
closing_frame false = []

-- The `for event in batch` loop.
unfoldable pub send_batch : Bool → ℕ → List RunEvent → Sent
send_batch close sequence [] = record { frames = []; ended = false; sequence = sequence }
send_batch close sequence (e ∷ es) =
    let rest = send_batch close e.sequence es in
    if is_terminal e
    then record { frames = event e ∷ closing_frame close; ended = true; sequence = e.sequence }
    else record rest { frames = event e ∷ rest.frames }

abbrev pub heartbeat_frame : Bool → List Frame
heartbeat_frame true = heartbeat ∷ []
heartbeat_frame false = []

abbrev pub is_empty : List RunEvent → Bool
is_empty [] = true
is_empty (_ ∷ _) = false

-- `_event_stream`: the client disconnects when the polls are used up.
unfoldable pub event_stream :
    String → (close_when_drained close : Bool) → ℕ → List Poll → List Frame
unfolding list_since send_batch
event_stream run_id drained close sequence [] = []
event_stream run_id drained close sequence (p ∷ ps) =
    let batch = list_since run_id sequence max_event_batch p.db in
    let sent = send_batch close sequence batch in
    let rest = event_stream run_id drained close sent.sequence ps in
    if sent.ended
    then sent.frames
    else sent.frames
      ++ heartbeat_frame p.heartbeat_due
      ++ (if is_empty batch && drained then [] else rest)
