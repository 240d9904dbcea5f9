-- ===== src/Runs/Recovering.antt =====
-- What RunScheduler.recover leaves, and a run that only it brings on.
use free_weight.Base.{
  ℕ, ◌≡◌, refl, sym, ap, ◌∙◌, String, some, List, [], ◌∷◌, if◌then◌else◌, count_if,
}
use free_weight.RunState.{RunStatus}
use free_weight.Store.Rows.{Run, Db, find_run}
use free_weight.Store.Actions.{Outcome, ok, err, Action, and_then, pure, ◌>>=◌}
use free_weight.Store.Queries.{
  in_flight, orphan_ids, interrupt_ids, interrupt_orphans, mark_orphans_interrupted,
}
use free_weight.Store.Keyed.{IsKeyed}
use free_weight.Store.Orphans.{recovered_idle, orphan_exact, find_run-interrupt_ids}
use free_weight.Events.Publish.{publish}
use free_weight.Runs.Services.{announce, with_message}
use free_weight.Runs.Execution.{value}
use free_weight.Runs.Scheduler.{announce_interrupted, recover}
use free_weight.Runs.Chains.{Still, publish-Still}

module _ {A B : Type 0} where
  Still-bind :
      (m : Action A) (f : A → Action B) → Still m → ((a : A) → Still (f a)) → Still (m >>= f)
  Still-bind m f hm hf db = by_outcome (m db) (hm db)
    where
      by_outcome : (x : Outcome A × Db) → x.1.runs ≡ db.runs → (and_then x f).1.runs ≡ db.runs
      by_outcome (ok a, after) h = hf a after ∙ h
      by_outcome (err e, after) h = h

announce_interrupted-Still : (now : ℕ) (ids : List String) → Still (announce_interrupted now ids)
unfolding announce_interrupted announce
announce_interrupted-Still now [] db = refl
announce_interrupted-Still now (id ∷ ids) db =
    let d =
      record (with_message "run.interrupted"
        "The server stopped while this run was in flight; it can be resumed." now) {
          payload = ("status", some (value RunStatus.interrupted)) ∷ [];
        } in
    Still-bind (announce id d) (λ _. announce_interrupted now ids)
      (Still-bind (publish id d []) (λ _ after. (ok tt, after)) (publish-Still id d [])
        (λ _ after. refl))
      (λ _. announce_interrupted-Still now ids) db

interrupt_none : (now : ℕ) (rs : List Run) → interrupt_ids now [] rs ≡ rs
unfolding interrupt_ids
interrupt_none now [] = refl
interrupt_none now (r ∷ rs) = ap (λ l. r ∷ l) (interrupt_none now rs)

interrupt_orphans_lem :
    (now : ℕ) (ids : List String) (db : Db)
    → interrupt_orphans now ids db ≡ (ok ids, record db { runs = interrupt_ids now ids db.runs })
unfolding interrupt_orphans
interrupt_orphans_lem now [] db =
    ap (λ rs. (ok [], record db { runs = rs })) (sym (interrupt_none now db.runs))
interrupt_orphans_lem now (id ∷ ids) db = refl

recover_runs :
    (now : ℕ) (db : Db) → (recover now db).1.runs ≡ interrupt_ids now (orphan_ids db) db.runs
unfolding recover mark_orphans_interrupted
recover_runs now db =
    let after = record db { runs = interrupt_ids now (orphan_ids db) db.runs } in
    rw (interrupt_orphans_lem now (orphan_ids db) db) (
      Still-bind (announce_interrupted now (orphan_ids db)) (λ _. pure _)
        (announce_interrupted-Still now (orphan_ids db)) (λ _ x. refl) after)

-- The row that recovery leaves of a run.
abbrev pub recovered : ℕ → Run → Run
recovered now r =
    if in_flight r then record r { status = RunStatus.interrupted; completed_at = some now } else r

-- In a table in which run ids are unique, recovery leaves no run in flight: it interrupts exactly
-- the runs that were preparing, warming, running or cancelling, stamping their end, and leaves the
-- row of every other run as it was, whether or not it can publish its events.
pub recover-exact :
    (now : ℕ) (db : Db)
    → IsKeyed db.runs
    → (count_if in_flight (recover now db).1.runs ≡ 0)
      × ((id : String) (r : Run)
          → find_run id db.runs ≡ some r
          → find_run id (recover now db).1.runs ≡ some (recovered now r))
recover-exact now db key = (
  rw recover_runs (recovered_idle now db),
  λ id r found. rw recover_runs (
      find_run-interrupt_ids now (orphan_ids db) id db.runs r found
      ∙ rw (orphan_exact id db r key found)),
)
