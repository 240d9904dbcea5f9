-- ===== src/Runs/Requests.antt =====
-- cancel_run and resume_run, each a chain of the statements of `Steps`.
use free_weight.Base.{
  ℕ, ◌≡◌, ◌≢◌, refl, ◌⊎◌, true, String, Option, none, some, arith, Bool-cases, inl, inr,
  if◌then◌else◌,
}
use free_weight.RunState.{
  RunStatus, Checked, return, raise, run_eq, is_legal_run_transition, is_terminal_run,
  cancellation_target, StateError,
}
use free_weight.Store.Rows.{Run, Db, find_run}
use free_weight.Store.Actions.{other_error, transaction, pure}
use free_weight.Store.Queries.{set_status}
use free_weight.Runs.Services.{
  announce, cancel_pending_tests, cancel_to, cancel_body, announce_cancel, cancel_run, resume_body,
  resume_run, with_message,
}
use free_weight.Runs.Serial.{Chain-IsSerial}
use free_weight.Runs.Steps.{Chain, none_yet, IsSerial}
use free_weight.Runs.Chains.{
  Moves, Moves-pure, Moves-bind, Moves-transaction, Moves-announce, Moves-cancel_pending_tests,
  Moves-when, and_then-Chain, Chain-append,
}
use free_weight.Runs.Calls.{
  set_status-Chain, Moves-resolve, Moves-reread, Moves-reading, require-Chain,
}

Checked-cases :
    (x : Checked RunStatus)
    → ((t : RunStatus) × (x ≡ return t)) ⊎ ((e : StateError) × (x ≡ raise e))
Checked-cases (return t) = inl (t, refl)
Checked-cases (raise e) = inr (e, refl)

target_facts :
    (s t : RunStatus)
    → cancellation_target s ≡ return t
    → (t ≢ RunStatus.preparing) × (is_terminal_run t ≡ true → run_eq t RunStatus.cancelled ≡ true)
unfolding cancellation_target is_terminal_run
target_facts s t h = ground arith

cancel_to-Chain :
    (now : ℕ) (r : Run) (t : RunStatus) (db : Db)
    → find_run r.id db.runs ≡ some r
    → is_legal_run_transition r.status t ≡ true
    → t ≢ RunStatus.preparing
    → (is_terminal_run t ≡ true → run_eq t RunStatus.cancelled ≡ true)
    → IsSerial db.runs
    → Chain db.runs (cancel_to now r t db).1.runs
unfolding cancel_to
cancel_to-Chain now r t db found legal ne stamp serial =
    let at_end = if run_eq t RunStatus.cancelled then some now else none in
    let c =
      set_status-Chain r.id r t none at_end none none db found legal ne
        (λ last. rw (stamp last) (λ x. cc)) in
    Chain-append c (
      (Moves-when (run_eq t RunStatus.cancelled) (cancel_pending_tests r.id)
          (Moves-cancel_pending_tests r.id)).at
        _ (Chain-IsSerial c serial))

Moves-cancel_body : (now : ℕ) (ref : String) → Moves (cancel_body now ref)
unfolding cancel_body
Moves-cancel_body now ref = Moves-resolve ref _ (λ r db found serial.
    elim (Bool-cases (run_eq r.status RunStatus.cancelling)) [
      | inl e ↦ rw e none_yet
      | inr e ↦ rw e (elim (Checked-cases (cancellation_target r.status)) [
        | inr (x, raised) ↦ rw raised none_yet
        | inl (t, returned) ↦ rw returned (
            let facts = target_facts r.status t returned in
            require-Chain r.status t _ db (λ legal.
              let c = cancel_to-Chain now r t db found legal facts.0 facts.1 serial in
              and_then-Chain db.runs (cancel_to now r t db) _ c (λ a _.
                (Moves-reading (λ db. find_run r.id db.runs) other_error _
                    (λ x. Moves-pure (x, some t))).at
                  _ (Chain-IsSerial c serial))))
      ])
    ])

announce_cancel-Moves : (now : ℕ) (x : Run × Option RunStatus) → Moves (announce_cancel now x)
unfolding announce_cancel
announce_cancel-Moves now (r, none) = Moves-pure tt
announce_cancel-Moves now (r, some t) = record {
  at = λ db serial. elim (Bool-cases (run_eq t RunStatus.cancelled)) [
    | inl e ↦ rw e (
        (Moves-announce r.id
            (with_message "run.cancelled" "Run cancelled before it started executing." now)).at
          db serial)
    | inr e ↦ rw e (
        (Moves-announce r.id (
            with_message "run.progress" "Cancellation requested; stopping at the next boundary."
              now)).at
          db serial)
  ];
}

pub Moves-cancel_run : (now : ℕ) (ref : String) → Moves (cancel_run now ref)
unfolding cancel_run
Moves-cancel_run now ref =
    Moves-bind (transaction (cancel_body now ref)) _
      (Moves-transaction _ (Moves-cancel_body now ref))
      (λ x.
        Moves-bind (announce_cancel now x) _ (announce_cancel-Moves now x) (λ _. Moves-pure x.0))

Moves-resume_body : (ref : String) → Moves (resume_body ref)
unfolding resume_body
Moves-resume_body ref = Moves-resolve ref _ (λ r db found serial.
    require-Chain r.status RunStatus.queued _ db (λ legal.
      let c =
        set_status-Chain r.id r RunStatus.queued none none none none db found legal (λ x. cc)
          (unfold is_terminal_run in λ x. cc) in
      Chain-append c (
        (Moves-reread (λ db. find_run r.id db.runs) other_error).at
          (set_status r.id RunStatus.queued none none none none db) (Chain-IsSerial c serial))))

pub Moves-resume_run : (now : ℕ) (ref : String) → Moves (resume_run now ref)
unfolding resume_run
Moves-resume_run now ref =
    Moves-bind (transaction (resume_body ref)) _ (Moves-transaction _ (Moves-resume_body ref)) (λ x.
      let d = with_message "run.progress" "Run re-queued for resume." now in
      Moves-bind (announce x.id d) (λ _. pure x) (Moves-announce x.id d) (λ _. Moves-pure x))
