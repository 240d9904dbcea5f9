-- ===== src/Runs/Scheduler.antt =====
-- services/scheduler.py: recovery at startup, and the loop that claims and executes runs.
use free_weight.Base.{ℕ, String, Option, none, some, List, [], ◌∷◌}
use free_weight.RunState.{RunStatus}
use free_weight.Store.Rows.{Run, Db}
use free_weight.Store.Actions.{
  Outcome, ok, err, keyboard_interrupt, Action, pure, gets, transaction, skip, ◌>>=◌, ◌>>◌,
}
use free_weight.Store.Queries.{claim_next_queued, mark_orphans_interrupted, queue_depth}
use free_weight.Runs.Services.{announce, with_message}
use free_weight.Runs.Execution.{value}
use free_weight.Runs.Engine.{Naming, Work, execute_run}

unfoldable pub announce_interrupted : ℕ → List String → Action (Unit {0})
unfolding announce
announce_interrupted now [] = skip
announce_interrupted now (id ∷ ids) = do
  announce id
      (record (with_message "run.interrupted"
        "The server stopped while this run was in flight; it can be resumed." now) {
          payload = ("status", some (value RunStatus.interrupted)) ∷ [];
        })
  announce_interrupted now ids

-- RecoveryOutcome
pub record RecoveryOutcome : Type 0 where
  pub interrupted_run_ids : List String
  pub queued_depth : ℕ

-- RunScheduler.recover
unfoldable pub recover : ℕ → Action RecoveryOutcome
unfolding mark_orphans_interrupted announce_interrupted queue_depth
recover now = do
  interrupted ← transaction (mark_orphans_interrupted now)
  depth ← gets queue_depth
  announce_interrupted now interrupted
  pure (record { interrupted_run_ids = interrupted; queued_depth = depth })

unfoldable pub execute_claimed : Naming → ℕ → (String → Work) → Option Run → Action (Option String)
unfolding execute_run
execute_claimed n now work none = pure none
execute_claimed n now work (some run) = do
  execute_run n now run.id (work run.id)
  pure (some run.id)

-- RunScheduler.run_once
unfoldable pub run_once : Naming → ℕ → (String → Work) → Action (Option String)
unfolding claim_next_queued execute_claimed
run_once n now work = do
  claimed ← transaction (claim_next_queued now)
  execute_claimed n now work claimed

-- One turn of RunScheduler._loop: its instant and the work that a run is found to be, and what other
-- threads write before the turn.
pub record Turn : Type 0 where
  pub now : ℕ
  pub work : String → Work
  pub others : Db → Db

-- The body's outcome: an exception is logged and the loop goes on, except for a keyboard interrupt,
-- which ends the thread.
abbrev pub after_turn : Outcome (Option String) × Db → (Db → Db) → Db
after_turn (ok claimed, after) rest = rest after
after_turn (err keyboard_interrupt, after) rest = after
after_turn (err _, after) rest = rest after

-- RunScheduler._loop, until the turns are used up (`stop`).
unfoldable pub loop : Naming → List Turn → Db → Db
unfolding run_once
loop n [] db = db
loop n (t ∷ ts) db = after_turn (run_once n t.now t.work (t.others db)) (loop n ts)
