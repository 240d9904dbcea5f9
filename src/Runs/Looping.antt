-- ===== src/Runs/Looping.antt =====
-- The scheduler's loop keeps one run at a time, whatever the runs do.
use free_weight.Base.{ℕ, String, Option, none, some, List, [], ◌∷◌, All}
use free_weight.Store.Rows.{Run, Db}
use free_weight.Store.Actions.{keyboard_interrupt, Outcome, ok, err, transaction, pure}
use free_weight.Store.Queries.{claim_next_queued}
use free_weight.Runs.Engine.{Work, Naming, execute_run_inner, execute_run}
use free_weight.Runs.Scheduler.{execute_claimed, run_once, Turn, after_turn, loop}
use free_weight.Runs.Steps.{IsSerial}
use free_weight.Runs.Serial.{Chain-IsSerial}
use free_weight.Runs.Chains.{Moves, Moves-pure, Moves-bind, Moves-transaction, Chain-append}
use free_weight.Runs.Admission.{Moves-claim_next_queued}
use free_weight.Runs.Executing.{KeepsToSteps, Moves-execute_run_inner, Moves-handle, Moves-then}

Moves-execute_run :
    (n : Naming) (now : ℕ) (id : String) (w : Work)
    → KeepsToSteps w
    → Moves (execute_run n now id w)
unfolding execute_run
Moves-execute_run n now id w k = record {
  at = λ db serial.
      let inner = (Moves-execute_run_inner id w k now).at db serial in
      let x = execute_run_inner now id w db in
      Chain-append inner ((Moves-handle n now id x.0).at x.1 (Chain-IsSerial inner serial));
}

Moves-execute_claimed :
    (n : Naming) (now : ℕ) (work : String → Work) (o : Option Run)
    → ((id : String) → KeepsToSteps (work id))
    → Moves (execute_claimed n now work o)
unfolding execute_claimed
Moves-execute_claimed n now work none k = Moves-pure none
Moves-execute_claimed n now work (some run) k =
    Moves-then (execute_run n now run.id (work run.id)) (pure (some run.id))
      (Moves-execute_run n now run.id (work run.id) (k run.id)) (Moves-pure (some run.id))

Moves-run_once :
    (n : Naming) (now : ℕ) (work : String → Work)
    → ((id : String) → KeepsToSteps (work id))
    → Moves (run_once n now work)
unfolding run_once
Moves-run_once n now work k =
    Moves-bind (transaction (claim_next_queued now)) (execute_claimed n now work)
      (Moves-transaction (claim_next_queued now) (Moves-claim_next_queued now))
      (λ o. Moves-execute_claimed n now work o k)

-- A turn whose work keeps to the statements of `Steps`, and in which what other threads write keeps
-- the table serial.
pub record IsTame (t : Turn) : Type 0 where
  pub work : (id : String) → KeepsToSteps (t.work id)
  pub others : (db : Db) → IsSerial db.runs → IsSerial (t.others db).runs

after_turn-IsSerial :
    (x : Outcome (Option String) × Db) (rest : Db → Db)
    → IsSerial x.1.runs
    → ((db : Db) → IsSerial db.runs → IsSerial (rest db).runs)
    → IsSerial (after_turn x rest).runs
after_turn-IsSerial (ok o, after) rest s k = k after s
after_turn-IsSerial (err keyboard_interrupt, after) rest s k = s
after_turn-IsSerial (err _, after) rest s k = k after s

-- If the work of every turn changes runs by the statements of `Steps` only, and what other threads
-- write before a turn keeps run ids unique, at most one run in flight and ended runs stamped, then
-- the scheduler's loop keeps them so over any number of turns, whatever its runs raise.
pub loop-IsSerial :
    (n : Naming) (turns : List Turn) (db : Db)
    → All IsTame turns
    → IsSerial db.runs
    → IsSerial (loop n turns db).runs
unfolding loop
loop-IsSerial n [] db h serial = serial
loop-IsSerial n (t ∷ ts) db h serial =
    let before = h.0.others db serial in
    after_turn-IsSerial (run_once n t.now t.work (t.others db)) (loop n ts)
      (Chain-IsSerial ((Moves-run_once n t.now t.work h.0.work).at (t.others db) before) before)
      (λ after s. loop-IsSerial n ts after h.1 s)
