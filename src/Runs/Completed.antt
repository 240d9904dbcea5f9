-- ===== src/Runs/Completed.antt =====
-- A claimed run whose work raises nothing, and that nobody cancels, is completed.
use free_weight.Base.{ℕ, ◌≡◌, refl, String, List, [], ◌∷◌, All}
use free_weight.RunState.{RunStatus, is_legal_run_transition}
use free_weight.Store.Rows.{Db}
use free_weight.Store.Actions.{Outcome, ok, err, Action, pure, and_then, ◌>>◌}
use free_weight.Runs.Services.{announce, check_cancelled, transition}
use free_weight.Runs.Execution.{no_cause, finish}
use free_weight.Runs.Engine.{
  started_draft, Work, Naming, run_tests, after_body, try_finally, recorded_part, opening, closing,
  execute_run_inner, handle, execute_run,
}
use free_weight.Runs.Completing.{
  IsAt, Reaches, IsQuiet, quiet-Reaches, Reaches-then, announce-Reaches, check-Reaches,
  transition-Reaches, finish-Reaches,
}

-- Work of which every part returns and touches no run.
pub record IsQuietWork (w : Work) : Type 0 where
  pub read_context : IsQuiet w.read_context
  pub calibrate : IsQuiet w.calibrate
  pub settle : IsQuiet w.settle
  pub prepare : IsQuiet w.prepare
  pub start_recorder : IsQuiet w.start_recorder
  pub warm : IsQuiet w.warm
  pub tests : All IsQuiet w.tests
  pub stop_recorder : IsQuiet w.stop_recorder
  pub observe : IsQuiet w.observe
  pub judge : IsQuiet w.judge
  pub aggregate : IsQuiet w.aggregate
  pub refresh_evidence : IsQuiet w.refresh_evidence

run_tests-Reaches :
    (id : String) (ts : List (Action (Unit {0}))) (db : Db)
    → All IsQuiet ts
    → IsAt id RunStatus.running db
    → Reaches id RunStatus.running (run_tests id ts db)
unfolding run_tests
run_tests-Reaches id [] db q h = (refl, h)
run_tests-Reaches id (t ∷ ts) db q h =
    Reaches-then id RunStatus.running RunStatus.running (check_cancelled id) (t >> run_tests id ts)
      db (check-Reaches id RunStatus.running db refl h)
      (λ a ha.
        Reaches-then id RunStatus.running RunStatus.running t (run_tests id ts) a
          (quiet-Reaches id RunStatus.running t a q.0 ha)
          (λ b hb. run_tests-Reaches id ts b q.1 hb))

module _ (id : String) (w : Work) (q : IsQuietWork w) where
  opening-Reaches :
      (now : ℕ) (db : Db)
      → IsAt id RunStatus.preparing db
      → Reaches id RunStatus.preparing (opening now id w db)
  unfolding opening
  opening-Reaches now db h =
      let d = started_draft now w in
      let s = RunStatus.preparing in
      let check : (x : Db) → IsAt id s x → Reaches id s (check_cancelled id x) =
        λ x. check-Reaches id s x refl in
      Reaches-then id s s w.read_context _ db
        (quiet-Reaches id s w.read_context db q.read_context h)
        (λ a ha.
          Reaches-then id s s (announce id d) _ a (announce-Reaches id s d a refl ha) (λ b hb.
            Reaches-then id s s (check_cancelled id) _ b (check b hb) (λ c hc.
              Reaches-then id s s w.calibrate _ c (quiet-Reaches id s w.calibrate c q.calibrate hc)
                (λ e he. Reaches-then id s s (check_cancelled id) _ e (check e he) (λ f hf.
                  Reaches-then id s s w.settle _ f (quiet-Reaches id s w.settle f q.settle hf)
                    (λ g hg.
                      Reaches-then id s s (check_cancelled id) w.prepare g (check g hg)
                        (λ i hi. quiet-Reaches id s w.prepare i q.prepare hi)))))))

  recorded_part-Reaches :
      (db : Db)
      → IsAt id RunStatus.preparing db
      → Reaches id RunStatus.running (recorded_part id w db)
  unfolding recorded_part is_legal_run_transition
  recorded_part-Reaches db h =
      let s = RunStatus.preparing in
      let t = RunStatus.warming in
      let u = RunStatus.running in
      Reaches-then id s u w.start_recorder _ db
        (quiet-Reaches id s w.start_recorder db q.start_recorder h)
        (λ a ha.
          Reaches-then id s u (check_cancelled id) _ a (check-Reaches id s a refl ha) (λ b hb.
            Reaches-then id t u (transition id t) _ b (transition-Reaches id s t b refl hb) (λ c hc.
              Reaches-then id t u w.warm _ c (quiet-Reaches id t w.warm c q.warm hc) (λ e he.
                Reaches-then id t u (check_cancelled id) _ e (check-Reaches id t e refl he) (λ f hf.
                  Reaches-then id u u (transition id u) _ f (transition-Reaches id t u f refl hf)
                    (λ g hg. run_tests-Reaches id w.tests g q.tests hg))))))

  try_finally-Reaches :
      (db : Db)
      → IsAt id RunStatus.preparing db
      → Reaches id RunStatus.running (try_finally (recorded_part id w) w.stop_recorder db)
  try_finally-Reaches db h = by_outcome (recorded_part id w db) (recorded_part-Reaches db h)
    where
      by_outcome :
          (x : Outcome (Unit {0}) × Db)
          → Reaches id RunStatus.running x
          → Reaches id RunStatus.running (after_body x.0 w.stop_recorder x.1)
      by_outcome (ok _, after) r =
          quiet-Reaches id RunStatus.running w.stop_recorder after q.stop_recorder r.1
      by_outcome (err e, after) r = absurd (let z = r.0 in cc)

  closing-Reaches :
      (now : ℕ) (db : Db)
      → IsAt id RunStatus.running db
      → Reaches id RunStatus.completed (closing now id w db)
  unfolding closing
  closing-Reaches now db h =
      let s = RunStatus.running in
      let t = RunStatus.completed in
      Reaches-then id s t (check_cancelled id) _ db (check-Reaches id s db refl h) (λ a ha.
        Reaches-then id s t w.observe _ a (quiet-Reaches id s w.observe a q.observe ha) (λ b hb.
          Reaches-then id s t w.judge _ b (quiet-Reaches id s w.judge b q.judge hb) (λ c hc.
            Reaches-then id s t w.aggregate _ c (quiet-Reaches id s w.aggregate c q.aggregate hc)
              (λ e he.
                Reaches-then id t t (finish now id t no_cause) w.refresh_evidence e
                  (finish-Reaches now id e he)
                  (λ f hf. quiet-Reaches id t w.refresh_evidence f q.refresh_evidence hf)))))

  -- Through the whole of it.
  inner-Completes :
      (now : ℕ) (db : Db)
      → IsAt id RunStatus.preparing db
      → ((execute_run_inner now id w db).0 ≡ ok RunStatus.completed)
        × IsAt id RunStatus.completed (execute_run_inner now id w db).1
  unfolding execute_run_inner
  inner-Completes now db h = after_opening (opening now id w db) (opening-Reaches now db h)
    where
      after_closing :
          (x : Outcome (Unit {0}) × Db)
          → Reaches id RunStatus.completed x
          → ((and_then x (λ _. pure RunStatus.completed)).0 ≡ ok RunStatus.completed)
            × IsAt id RunStatus.completed (and_then x (λ _. pure RunStatus.completed)).1
      after_closing (ok _, after) r = (refl, r.1)
      after_closing (err e, after) r = absurd (let z = r.0 in cc)

      after_tests :
          (x : Outcome (Unit {0}) × Db)
          → Reaches id RunStatus.running x
          → ((and_then x (λ _. closing now id w >> pure RunStatus.completed)).0
              ≡ ok RunStatus.completed)
            × IsAt id RunStatus.completed
                (and_then x (λ _. closing now id w >> pure RunStatus.completed)).1
      after_tests (ok _, after) r =
          after_closing (closing now id w after) (closing-Reaches now after r.1)
      after_tests (err e, after) r = absurd (let z = r.0 in cc)

      after_opening :
          (x : Outcome (Unit {0}) × Db)
          → Reaches id RunStatus.preparing x
          → ((and_then x (λ _.
                try_finally (recorded_part id w) w.stop_recorder
                >> (closing now id w >> pure RunStatus.completed))).0
              ≡ ok RunStatus.completed)
            × IsAt id RunStatus.completed
                (and_then x (λ _.
                  try_finally (recorded_part id w) w.stop_recorder
                  >> (closing now id w >> pure RunStatus.completed))).1
      after_opening (ok _, after) r =
          after_tests (try_finally (recorded_part id w) w.stop_recorder after)
            (try_finally-Reaches after r.1)
      after_opening (err e, after) r = absurd (let z = r.0 in cc)

  -- If a run is preparing, as a claim leaves it, and every part of its work returns and touches no
  -- run, then `execute_run` returns completed and leaves the run completed.
  pub execute_run-Completes :
      (n : Naming) (now : ℕ) (db : Db)
      → IsAt id RunStatus.preparing db
      → ((execute_run n now id w db).0 ≡ ok RunStatus.completed)
        × IsAt id RunStatus.completed (execute_run n now id w db).1
  unfolding execute_run
  execute_run-Completes n now db h =
      handled (execute_run_inner now id w db) (inner-Completes now db h)
    where
      handled :
          (x : Outcome RunStatus × Db)
          → (x.0 ≡ ok RunStatus.completed) × IsAt id RunStatus.completed x.1
          → ((handle n now id x.0 x.1).0 ≡ ok RunStatus.completed)
            × IsAt id RunStatus.completed (handle n now id x.0 x.1).1
      handled (ok s, after) r = unfold handle in r
      handled (err e, after) r = absurd (let z = r.0 in cc)
