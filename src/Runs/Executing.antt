-- ===== src/Runs/Executing.antt =====
-- The engine and the scheduler's loop, over any work that keeps to the statements of `Steps`.
use free_weight.Base.{ℕ, refl, String, List, [], ◌∷◌, All, Option-cases, inl, inr, Bool-cases}
use free_weight.RunState.{RunStatus, run_in, is_terminal_run}
use free_weight.Store.Rows.{Db, find_run}
use free_weight.Store.Actions.{
  run_cancelled, keyboard_interrupt, Outcome, ok, err, Action, throw, ◌>>◌,
}
use free_weight.Runs.Services.{announce, check_cancelled}
use free_weight.Runs.Execution.{no_cause}
use free_weight.Runs.Engine.{
  started_draft, Work, Naming, run_tests, after_body, try_finally, recorded_part, opening, closing,
  execute_run_inner, handle,
}
use free_weight.Runs.Steps.{Chain, none_yet, IsSerial}
use free_weight.Runs.Serial.{Chain-IsSerial}
use free_weight.Runs.Chains.{
  Moves, Moves-pure, Moves-throw, Moves-bind, Moves-announce, Chain-append,
}
use free_weight.Runs.Calls.{Moves-transition}
use free_weight.Runs.Finishing.{Moves-finish}

-- Work whose parts change the `runs` table by the statements of `Steps` only.
pub record KeepsToSteps (w : Work) : Type 0 where
  pub read_context : Moves w.read_context
  pub calibrate : Moves w.calibrate
  pub settle : Moves w.settle
  pub prepare : Moves w.prepare
  pub start_recorder : Moves w.start_recorder
  pub warm : Moves w.warm
  pub tests : All Moves w.tests
  pub stop_recorder : Moves w.stop_recorder
  pub observe : Moves w.observe
  pub judge : Moves w.judge
  pub aggregate : Moves w.aggregate
  pub refresh_evidence : Moves w.refresh_evidence

pub Moves-then : {A B : Type 0} (m : Action A) (n : Action B) → Moves m → Moves n → Moves (m >> n)
Moves-then m n hm hn = Moves-bind m (λ _. n) hm (λ _. hn)

Moves-check_cancelled : (id : String) → Moves (check_cancelled id)
unfolding check_cancelled
Moves-check_cancelled id = record {
  at = λ db _. elim (Option-cases (find_run id db.runs)) [
    | inl e ↦ rw e none_yet
    | inr (r, e) ↦
        rw e
          (elim (Bool-cases (run_in r.status (RunStatus.cancelling ∷ RunStatus.cancelled ∷ []))) [
            | inl c ↦ rw c none_yet
            | inr c ↦ rw c none_yet
          ])
  ];
}

Moves-run_tests :
    (id : String) (ts : List (Action (Unit {0}))) → All Moves ts → Moves (run_tests id ts)
unfolding run_tests
Moves-run_tests id [] h = Moves-pure tt
Moves-run_tests id (t ∷ ts) h =
    Moves-then (check_cancelled id) (t >> run_tests id ts) (Moves-check_cancelled id)
      (Moves-then t (run_tests id ts) h.0 (Moves-run_tests id ts h.1))

Moves-try_finally :
    (body cleanup : Action (Unit {0}))
    → Moves body
    → Moves cleanup
    → Moves (try_finally body cleanup)
Moves-try_finally body cleanup hb hc = record {
  at = λ db serial. by_outcome db serial (body db) (hb.at db serial);
}
  where
    by_outcome :
        (db : Db)
        → IsSerial db.runs
        → (x : Outcome (Unit {0}) × Db) → Chain db.runs x.1.runs
        → Chain db.runs (after_body x.0 cleanup x.1).1.runs
    by_outcome db serial (ok _, after) c = Chain-append c (hc.at after (Chain-IsSerial c serial))
    by_outcome db serial (err e, after) c =
        Chain-append c
          ((Moves-then cleanup (throw e) hc (Moves-throw e)).at after (Chain-IsSerial c serial))

module _ (id : String) (w : Work) (k : KeepsToSteps w) where
  Moves-recorded_part : Moves (recorded_part id w)
  unfolding recorded_part is_terminal_run
  Moves-recorded_part = Moves-then _ _ k.start_recorder (
      Moves-then _ _ (Moves-check_cancelled id) (
        Moves-then _ _ (Moves-transition id RunStatus.warming (λ x. cc) refl) (
          Moves-then _ _ k.warm (
            Moves-then _ _ (Moves-check_cancelled id) (
              Moves-then _ _ (Moves-transition id RunStatus.running (λ x. cc) refl)
                (Moves-run_tests id w.tests k.tests))))))

  Moves-opening : (now : ℕ) → Moves (opening now id w)
  unfolding opening
  Moves-opening now =
      let check = Moves-check_cancelled id in
      Moves-then _ _ k.read_context (
        Moves-then (announce id (started_draft now w)) _ (Moves-announce id (started_draft now w)) (
          Moves-then _ _ check (
            Moves-then _ _ k.calibrate
              (Moves-then _ _ check (Moves-then _ _ k.settle (Moves-then _ _ check k.prepare))))))

  Moves-closing : (now : ℕ) → Moves (closing now id w)
  unfolding closing
  Moves-closing now = Moves-then _ _ (Moves-check_cancelled id) (
      Moves-then _ _ k.observe (
        Moves-then _ _ k.judge (
          Moves-then _ _ k.aggregate (
            Moves-then _ _ (Moves-finish now id RunStatus.completed no_cause (λ x. cc))
              k.refresh_evidence))))

  pub Moves-execute_run_inner : (now : ℕ) → Moves (execute_run_inner now id w)
  unfolding execute_run_inner
  Moves-execute_run_inner now = Moves-then _ _ (Moves-opening now) (
      Moves-then (try_finally (recorded_part id w) w.stop_recorder) _
        (Moves-try_finally (recorded_part id w) w.stop_recorder Moves-recorded_part k.stop_recorder)
        (Moves-then _ _ (Moves-closing now) (Moves-pure RunStatus.completed)))

pub Moves-handle :
    (n : Naming) (now : ℕ) (id : String) (x : Outcome RunStatus) → Moves (handle n now id x)
unfolding handle
Moves-handle n now id (ok s) = Moves-pure s
Moves-handle n now id (err run_cancelled) =
    Moves-then _ _ (Moves-finish now id RunStatus.cancelled no_cause (λ x. cc))
      (Moves-pure RunStatus.cancelled)
Moves-handle n now id (err keyboard_interrupt) =
    Moves-then _ _ (Moves-finish now id RunStatus.cancelled _ (λ x. cc))
      (Moves-throw keyboard_interrupt)
Moves-handle n now id (err e) =
    Moves-then _ _ (Moves-finish now id RunStatus.failed _ (λ x. cc)) (Moves-pure RunStatus.failed)
