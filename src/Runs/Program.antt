-- ===== src/Runs/Program.antt =====
-- The program as the sequence of calls that its threads make on the shared tables: the calls of `Call`.
-- A person may also delete results (delete_results of services/database_admin.py), which is no such
-- call.
use free_weight.Base.{ℕ, ◌≡◌, refl, true, String, none, some, List, [], ◌∷◌, Option-cases, inl, inr}
use free_weight.RunState.{RunStatus, is_terminal_run}
use free_weight.RunState.Paths.{terminal_immutable}
use free_weight.Store.Rows.{Run, Db, find_run}
use free_weight.Store.Actions.{transaction}
use free_weight.Store.Queries.{insert_run, insert_unless, claim_next_queued}
use free_weight.Events.Publish.{Draft, publish}
use free_weight.Runs.Services.{cancel_run, resume_run, transition}
use free_weight.Runs.Execution.{Cause, finish}
use free_weight.Runs.Scheduler.{recover}
use free_weight.Runs.Steps.{Chain, none_yet, then_step, insert, IsSerial}
use free_weight.Runs.Serial.{Chain-IsSerial}
use free_weight.Runs.Trails.{WentOn, Chain-WentOn}
use free_weight.Runs.Chains.{Moves, Chain-append, Moves-still, Moves-transaction, publish-Still}
use free_weight.Runs.Calls.{Moves-transition}
use free_weight.Runs.Requests.{Moves-cancel_run, Moves-resume_run}
use free_weight.Runs.Finishing.{Moves-finish, Moves-recover}
use free_weight.Runs.Admission.{Moves-claim_next_queued}

-- The values of `RunRepository().insert` in `create_run` that the model has.
abbrev pub new_run : String → ℕ → Run
new_run id now = record {
  id = id;
  status = RunStatus.queued;
  created_at = now;
  started_at = none;
  completed_at = none;
  error_code = none;
  error_text = none;
}

-- What a thread may do to the tables in one go: the services that a request calls, the scheduler's
-- claim and recovery, and the engine's steps for any run, at any time.
pub data Call : Type 0 where
  create : String → ℕ → Call
  cancel resume : ℕ → String → Call
  claim recovery : ℕ → Call
  warm start : String → Call
  complete stop : ℕ → String → Cause → Call
  fail interrupt : ℕ → String → Cause → Call
  report : String → Draft → List (List Draft) → Call

unfoldable pub perform : Call → Db → Db
unfolding insert_run cancel_run resume_run claim_next_queued recover transition finish publish
perform (Call.create id now) db = (transaction (insert_run (new_run id now)) db).1
perform (Call.cancel now ref) db = (cancel_run now ref db).1
perform (Call.resume now ref) db = (resume_run now ref db).1
perform (Call.claim now) db = (transaction (claim_next_queued now) db).1
perform (Call.recovery now) db = (recover now db).1
perform (Call.warm id) db = (transition id RunStatus.warming db).1
perform (Call.start id) db = (transition id RunStatus.running db).1
perform (Call.complete now id cause) db = (finish now id RunStatus.completed cause db).1
perform (Call.stop now id cause) db = (finish now id RunStatus.cancelled cause db).1
perform (Call.fail now id cause) db = (finish now id RunStatus.failed cause db).1
perform (Call.interrupt now id cause) db = (finish now id RunStatus.interrupted cause db).1
perform (Call.report id d rivals) db = (publish id d rivals db).1

unfoldable pub perform_all : List Call → Db → Db
unfolding perform
perform_all [] db = db
perform_all (c ∷ cs) db = perform_all cs (perform c db)

Moves-insert_run : (id : String) (now : ℕ) → Moves (insert_run (new_run id now))
unfolding insert_run insert_unless
Moves-insert_run id now = record {
  at = λ db _. elim (Option-cases (find_run id db.runs)) [
    | inl e ↦ rw (e, insert_unless) (then_step none_yet (insert (new_run id now) e refl refl))
    | inr (r, e) ↦ rw (e, insert_unless) none_yet
  ];
}

perform-Chain : (c : Call) (db : Db) → IsSerial db.runs → Chain db.runs (perform c db).runs
unfolding perform is_terminal_run
perform-Chain (Call.create id now) db h =
    (Moves-transaction (insert_run (new_run id now)) (Moves-insert_run id now)).at db h
perform-Chain (Call.cancel now ref) db h = (Moves-cancel_run now ref).at db h
perform-Chain (Call.resume now ref) db h = (Moves-resume_run now ref).at db h
perform-Chain (Call.claim now) db h =
    (Moves-transaction (claim_next_queued now) (Moves-claim_next_queued now)).at db h
perform-Chain (Call.recovery now) db h = (Moves-recover now).at db h
perform-Chain (Call.warm id) db h = (Moves-transition id RunStatus.warming (λ x. cc) refl).at db h
perform-Chain (Call.start id) db h = (Moves-transition id RunStatus.running (λ x. cc) refl).at db h
perform-Chain (Call.complete now id cause) db h =
    (Moves-finish now id RunStatus.completed cause (λ x. cc)).at db h
perform-Chain (Call.stop now id cause) db h =
    (Moves-finish now id RunStatus.cancelled cause (λ x. cc)).at db h
perform-Chain (Call.fail now id cause) db h =
    (Moves-finish now id RunStatus.failed cause (λ x. cc)).at db h
perform-Chain (Call.interrupt now id cause) db h =
    (Moves-finish now id RunStatus.interrupted cause (λ x. cc)).at db h
perform-Chain (Call.report id d rivals) db h =
    (Moves-still (publish id d rivals) (publish-Still id d rivals)).at db h

perform_all-Chain :
    (cs : List Call) (db : Db) → IsSerial db.runs → Chain db.runs (perform_all cs db).runs
unfolding perform_all
perform_all-Chain [] db h = none_yet
perform_all-Chain (c ∷ cs) db h =
    let first = perform-Chain c db h in
    Chain-append first (perform_all-Chain cs (perform c db) (Chain-IsSerial first h))

-- Whatever of these calls the threads make on tables in which run ids are unique, at most one run is in
-- flight and every run in a terminal status has its end stamped, in whatever order, for whatever
-- runs, and whether they return or raise, the tables are so afterwards.
pub perform_all-IsSerial :
    (cs : List Call) (db : Db) → IsSerial db.runs → IsSerial (perform_all cs db).runs
perform_all-IsSerial cs db h = Chain-IsSerial (perform_all-Chain cs db h) h

-- From such tables, any sequence of calls of `Call` keeps the row of a stored run and moves its status
-- along a trail of legal transitions.
pub perform_all-WentOn :
    (cs : List Call) (db : Db) (id : String) (r : Run)
    → IsSerial db.runs
    → find_run id db.runs ≡ some r
    → WentOn id r.status (perform_all cs db).runs
perform_all-WentOn cs db id r h found = Chain-WentOn id r h (perform_all-Chain cs db h) found

-- From such tables, a run in a terminal status has that status after any sequence of these
-- calls.
pub terminal_forever :
    (cs : List Call) (db : Db) (id : String) (r : Run)
    → IsSerial db.runs
    → find_run id db.runs ≡ some r
    → is_terminal_run r.status ≡ true
    → (r' : Run) × ((find_run id (perform_all cs db).runs ≡ some r') × (r'.status ≡ r.status))
terminal_forever cs db id r h found last =
    let w = perform_all-WentOn cs db id r h found in
    (w.row, (w.found, terminal_immutable last w.trail))
