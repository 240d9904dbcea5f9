-- ===== src/Runs/Finishing.antt =====
-- _finish and recovery, each a chain of the statements of `Steps`.
use free_weight.Base.{
  ℕ, ◌≡◌, ◌≢◌, refl, sym, ap, ◌∙◌, true, String, Option, none, some, List, [], ◌∷◌, ◌||◌, arith,
  Bool-cases, inl, inr, eq_iff,
}
use free_weight.RunState.{
  RunStatus, run_eq, run_in, is_legal_run_transition, is_terminal_run, require_run_transition,
}
use free_weight.Store.Rows.{Run, Db, find_run, find_run-update_run}
use free_weight.Store.Actions.{
  Outcome, ok, err, other_error, and_then, transaction, ◌>>◌, lift, modify, pure, gets,
}
use free_weight.Store.Queries.{
  set_status, with_status, orphan_ids, interrupt_ids, mark_orphans_interrupted, interrupt_orphans,
  queue_depth,
}
use free_weight.Store.Keyed.{find_run-id}
use free_weight.Runs.Services.{announce, cancel_pending_tests, when, with_message}
use free_weight.Runs.Execution.{
  Cause, step_through, finish_from, finish_row, finish_body, finish_event, announce_finish, finish,
  finished_statuses, or_default, value,
}
use free_weight.Runs.Scheduler.{announce_interrupted, recover}
use free_weight.Runs.Serial.{Chain-IsSerial}
use free_weight.Runs.Steps.{interrupt_all, Chain, none_yet, then_step, IsSerial}
use free_weight.Runs.Chains.{
  Moves, Moves-pure, Moves-throw, Moves-bind, Moves-transaction, Moves-announce,
  Moves-cancel_pending_tests, Moves-when, and_then-Chain, Chain-append,
}
use free_weight.Runs.Calls.{set_status-Chain, require-Chain}

finish_tail :
    (now : ℕ) (id : String) (t : RunStatus) (cause : Cause) (r : Run) (db : Db)
    → find_run id db.runs ≡ some r
    → t ≢ RunStatus.preparing
    → IsSerial db.runs
    → Chain db.runs
        ((lift (require_run_transition r.status t)
            >> (modify (set_status id t none (some now) cause.error_code cause.error_text)
                >> when (run_eq t RunStatus.cancelled) (cancel_pending_tests id)))
          db).1.runs
finish_tail now id t cause r db found ne serial = require-Chain r.status t _ db (λ legal.
    let c =
      set_status-Chain id r t none (some now) cause.error_code cause.error_text db found legal ne
        (λ last x. cc) in
    Chain-append c (
      (Moves-when (run_eq t RunStatus.cancelled) (cancel_pending_tests id)
          (Moves-cancel_pending_tests id)).at
        (set_status id t none (some now) cause.error_code cause.error_text db)
        (Chain-IsSerial c serial)))

found_stepped :
    (id : String) (r : Run) (db : Db)
    → find_run id db.runs ≡ some r
    → find_run id (set_status id RunStatus.cancelling none none none none db).runs
      ≡ some (with_status RunStatus.cancelling none none none none r)
unfolding set_status with_status
found_stepped id r db found =
    find_run-update_run id id (with_status RunStatus.cancelling none none none none) db.runs
      (λ x. refl)
    ∙ rw found (ground (arith, find_run-id id db.runs r found, eq_iff r.id id))

running_may_stop :
    (s : RunStatus)
    → run_eq s RunStatus.running ≡ true
    → is_legal_run_transition s RunStatus.cancelling ≡ true
unfolding is_legal_run_transition
running_may_stop s h = ground arith

-- The run that the rest of `_finish` goes on with, and how it came to be in its status.
abbrev SteppedTo : String → List Run → Outcome RunStatus × Db → Type 0
SteppedTo id rs (ok s, after) =
    ((r : Run) × ((find_run id after.runs ≡ some r) × (r.status ≡ s))) × Chain rs after.runs
SteppedTo id rs (err e, after) = Chain rs after.runs

step_through-SteppedTo :
    (id : String) (t : RunStatus) (r : Run) (db : Db)
    → find_run id db.runs ≡ some r
    → SteppedTo id db.runs (step_through id t r.status db)
unfolding step_through require_run_transition with_status
step_through-SteppedTo id t r db found = elim (Bool-cases (run_eq t RunStatus.cancelled)) [
  | inr e ↦ rw e ((r, (found, refl)), none_yet)
  | inl e ↦ elim (Bool-cases (run_eq r.status RunStatus.running)) [
    | inr f ↦ rw (e, f) ((r, (found, refl)), none_yet)
    | inl f ↦
        let legal = running_may_stop r.status f in
        rw (e, f, legal)
          (
            (
              with_status RunStatus.cancelling none none none none r,
              (found_stepped id r db found, refl),
            ),
            set_status-Chain id r RunStatus.cancelling none none none none db found legal (λ x. cc)
                (unfold is_terminal_run in λ x. cc),
          )
  ]
]

finish_from-Chain :
    (now : ℕ) (id : String) (t : RunStatus) (cause : Cause) (r : Run) (db : Db)
    → find_run id db.runs ≡ some r
    → t ≢ RunStatus.preparing
    → IsSerial db.runs
    → Chain db.runs (finish_from now id t cause r.status db).1.runs
unfolding finish_from
finish_from-Chain now id t cause r db found ne serial =
    by_outcome (step_through id t r.status db) (step_through-SteppedTo id t r db found)
  where
    by_outcome :
        (x : Outcome RunStatus × Db)
        → SteppedTo id db.runs x
        → Chain db.runs
            (and_then x (λ reached.
              lift (require_run_transition reached t)
              >> (modify (set_status id t none (some now) cause.error_code cause.error_text)
                  >> when (run_eq t RunStatus.cancelled) (cancel_pending_tests id)))).1.runs
    by_outcome (err e, after) q = q
    by_outcome (ok s, after) ((row, (here, same)), c) =
        rw (← same)
          (Chain-append c (finish_tail now id t cause row after here ne (Chain-IsSerial c serial)))

finish_row-Chain :
    (now : ℕ) (id : String) (t : RunStatus) (cause : Cause) (o : Option Run) (db : Db)
    → find_run id db.runs ≡ o
    → t ≢ RunStatus.preparing
    → IsSerial db.runs
    → Chain db.runs (finish_row now id t cause o db).1.runs
unfolding finish_row
finish_row-Chain now id t cause none db found ne serial = none_yet
finish_row-Chain now id t cause (some r) db found ne serial =
    elim (Bool-cases (run_eq r.status t || run_in r.status finished_statuses)) [
      | inl e ↦ rw e none_yet
      | inr e ↦ rw e (
          and_then-Chain db.runs (finish_from now id t cause r.status db) (λ _. pure true)
            (finish_from-Chain now id t cause r db found ne serial) (λ _ _. none_yet))
    ]

Moves-announce_finish :
    (now : ℕ) (id : String) (t : RunStatus) (cause : Cause) (o : Option (String × String))
    → Moves (announce_finish now id t cause o)
unfolding announce_finish
Moves-announce_finish now id t cause none = Moves-throw other_error
Moves-announce_finish now id t cause (some (ty, m)) =
    Moves-announce id (record (with_message ty (or_default cause.error_text m) now) {
      payload = ("status", some (value t)) ∷ ("error_code", cause.error_code) ∷ [];
    })

pub Moves-finish :
    (now : ℕ) (id : String) (t : RunStatus) (cause : Cause)
    → t ≢ RunStatus.preparing
    → Moves (finish now id t cause)
unfolding finish finish_body
Moves-finish now id t cause ne =
    Moves-bind (transaction (finish_body now id t cause)) _
      (Moves-transaction (finish_body now id t cause) (record {
        at = λ db serial. finish_row-Chain now id t cause (find_run id db.runs) db refl ne serial;
      }))
      (λ moved. Moves-when moved _ (Moves-announce_finish now id t cause (finish_event t)))

Moves-announce_interrupted : (now : ℕ) (ids : List String) → Moves (announce_interrupted now ids)
unfolding announce_interrupted
Moves-announce_interrupted now [] = Moves-pure tt
Moves-announce_interrupted now (id ∷ ids) =
    let d =
      record (with_message "run.interrupted"
        "The server stopped while this run was in flight; it can be resumed." now) {
          payload = ("status", some (value RunStatus.interrupted)) ∷ [];
        } in
    Moves-bind (announce id d) (λ _. announce_interrupted now ids) (Moves-announce id d)
      (λ _. Moves-announce_interrupted now ids)

interrupt_orphans-Chain :
    (now : ℕ) (ids : List String) (db : Db)
    → orphan_ids db ≡ ids
    → Chain db.runs (interrupt_orphans now ids db).1.runs
unfolding interrupt_orphans
interrupt_orphans-Chain now [] db e = none_yet
interrupt_orphans-Chain now (id ∷ rest) db e =
    then_step none_yet (interrupt_all now db refl (ap (λ l. interrupt_ids now l db.runs) (sym e)))

Moves-mark : (now : ℕ) → Moves (mark_orphans_interrupted now)
unfolding mark_orphans_interrupted
Moves-mark now = record { at = λ db _. interrupt_orphans-Chain now (orphan_ids db) db refl }

pub Moves-recover : (now : ℕ) → Moves (recover now)
unfolding recover
Moves-recover now =
    Moves-bind (transaction (mark_orphans_interrupted now)) _ (Moves-transaction _ (Moves-mark now))
      (λ ids.
        Moves-bind (gets queue_depth) _ (record { at = λ db _. none_yet })
          (λ depth.
            Moves-bind (announce_interrupted now ids) _ (Moves-announce_interrupted now ids)
              (λ _. Moves-pure (record { interrupted_run_ids = ids; queued_depth = depth }))))
