-- ===== src/Runs/Tested.antt =====
-- What becomes of a test whose cases are executed.
use free_weight.Base.{
  ℕ, ◌≡◌, ◌⊎◌, refl, ap, ◌∙◌, inl, inr, true, String, str_eq, eq_iff, Option, none, some, List, [],
  ◌∷◌, Bool-cases,
}
use free_weight.RunState.{
  TestStatus, test_in, require_test_transition, return, is_legal_test_transition, test_transitions,
}
use free_weight.Store.Rows.{RunTest, Db, find_test, update_test}
use free_weight.Store.Actions.{
  Error, run_cancelled, keyboard_interrupt, Outcome, ok, err, Action, and_then, ◌>>=◌, pure,
}
use free_weight.Events.Publish.{has_run}
use free_weight.Runs.Services.{announce}
use free_weight.Runs.Engine.{Naming, code_of}
use free_weight.Runs.Completing.{announce_returns}
use free_weight.Runs.Testing.{
  TestColumns, with_columns, write_test, Measured, TestWork, started, open_row, start_test,
  open_test, started_test_draft, ended_draft, at_start, at_end, settle_row, settle_test, conclude,
  go_on, execute_test, is_nil,
}

-- The row of the test, with this status and this error code.
abbrev pub TestAt : String → TestStatus → Db → Type 0
TestAt id s db = (t : RunTest) × ((find_test id db.tests ≡ some t) × (t.status ≡ s))

find_test-update :
    (id : String) (f : RunTest → RunTest) (rows : List RunTest) (t : RunTest)
    → ((r : RunTest) → (f r).id ≡ r.id)
    → find_test id rows ≡ some t
    → find_test id (update_test id f rows) ≡ some (f t)
unfolding find_test update_test
find_test-update id f [] t keeps h = cc
find_test-update id f (r ∷ rs) t keeps h = elim (Bool-cases (str_eq r.id id)) [
  | inl e ↦
      let same : r ≡ t = let q = rw e at h in cc in
      let after : str_eq (f r).id id ≡ true = ap (λ x. str_eq x id) (keeps r) ∙ e in
      rw (e, after) (ap (λ x. some (f x)) same)
  | inr e ↦ rw (e, e) (find_test-update id f rs t keeps (rw e at h))
]

find_test-id :
    (id : String) (rows : List RunTest) (t : RunTest) → find_test id rows ≡ some t → t.id ≡ id
unfolding find_test
find_test-id id [] t h = cc
find_test-id id (r ∷ rs) t h = elim (Bool-cases (str_eq r.id id)) [
  | inl e ↦ let same : r ≡ t = let q = rw e at h in cc in (eq_iff t.id id).0 (rw (← same) e)
  | inr e ↦ find_test-id id rs t (rw e at h)
]

write_test-finds :
    (id : String) (s : TestStatus) (c : TestColumns) (db : Db) (t : RunTest)
    → find_test id db.tests ≡ some t
    → find_test id (write_test t.id s c db).tests ≡ some (with_columns s c t)
unfolding write_test
write_test-finds id s c db t found =
    ap (λ x. find_test id (update_test x (with_columns s c) db.tests))
      (find_test-id id db.tests t found)
    ∙ find_test-update id (with_columns s c) db.tests t (λ r. refl) found

and_then_ok :
    {A B : Type 0} (x : Outcome A × Db) (f : A → Action B) (a : A)
    → x.0 ≡ ok a
    → and_then x f ≡ f a x.1
and_then_ok (ok b, db) f a h = let q : b ≡ a = cc in ap (λ c. f c db) q
and_then_ok (err e, db) f a h = cc

-- The run has a row.
abbrev pub HasRun : String → Db → Type 0
HasRun run_id db = has_run run_id db.runs ≡ true

-- What the measurement of a test does: it gives back this exception, and leaves the test running and
-- the run's row in its table.
abbrev pub Measures : String → String → TestWork → Option Error → Type 0
Measures run_id id w r =
    (completed total : ℕ) (db : Db)
    → HasRun run_id db
    → TestAt id TestStatus.running db
    → (m : Measured) × (((w.measure completed total db).0 ≡ ok m)
        × ((m.raised ≡ r)
            × (HasRun run_id (w.measure completed total db).1
                × TestAt id TestStatus.running (w.measure completed total db).1)))

abbrev pub Returns : Outcome ℕ → Type 0
Returns x = (k : ℕ) × (x ≡ ok k)

-- How the execution of a test ends, by what its measurement raised.
abbrev pub EndsAs : Naming → String → Option Error → Outcome ℕ × Db → Type 0
EndsAs n id none x = Returns x.0 × TestAt id TestStatus.completed x.1
EndsAs n id (some run_cancelled) x = (x.0 ≡ err run_cancelled) × TestAt id TestStatus.running x.1
EndsAs n id (some keyboard_interrupt) x =
    (x.0 ≡ err keyboard_interrupt) × TestAt id TestStatus.running x.1
EndsAs n id (some e) x =
    Returns x.0
    × ((t : RunTest) × ((find_test id x.1.tests ≡ some t)
          × ((t.status ≡ TestStatus.failed) × (t.error_code ≡ some (code_of n e)))))

module _ (now : ℕ) (run_id id : String) (w : TestWork) where
  -- The last transaction and its event, for a test that is running.
  settled :
      (target : TestStatus) (name : String) (code text : Option String) (m : Measured) (db : Db)
      (t : RunTest)
      → HasRun run_id db
      → find_test id db.tests ≡ some t
      → require_test_transition t.status target ≡ return tt
      → let x = settle_test now run_id id w target name code text m db in
        Returns x.0 × (find_test id x.1.tests ≡ some (with_columns target (at_end now code text) t))
  unfolding settle_test settle_row
  settled target name code text m db t stored found legal =
      let after = write_test t.id target (at_end now code text) db in
      let told =
        announce_returns (λ (d : Db). find_test id d.tests) (λ d es. refl) run_id
          (ended_draft now w id name m) after stored refl in
      rw (found, legal)
        (rw
          (and_then_ok (announce run_id (ended_draft now w id name m) after)
            (λ _. pure m.completed_samples) tt told.0)
          (
            (m.completed_samples, refl),
            told.1 ∙ write_test-finds id target (at_end now code text) db t found,
          ))

  may_end :
      (t : RunTest) (target : TestStatus)
      → t.status ≡ TestStatus.running
      → test_in target (test_transitions TestStatus.running) ≡ true
      → require_test_transition t.status target ≡ return tt
  unfolding require_test_transition is_legal_test_transition
  may_end t target running legal = rw running (rw legal refl)

  conclude-EndsAs :
      (n : Naming) (m : Measured) (r : Option Error) (db : Db)
      → HasRun run_id db
      → TestAt id TestStatus.running db
      → EndsAs n id r (conclude n now run_id id w m r db)
  unfolding conclude test_transitions
  conclude-EndsAs n m none db stored (t, (found, running)) =
      let end =
        settled TestStatus.completed "completed" none none m db t stored found
          (may_end t TestStatus.completed running refl) in
      (end.0, (_, (end.1, refl)))
  conclude-EndsAs n m (some run_cancelled) db stored at = (refl, at)
  conclude-EndsAs n m (some keyboard_interrupt) db stored at = (refl, at)
  conclude-EndsAs n m (some e) db stored (t, (found, running)) =
      let end =
        settled TestStatus.failed "failed" (some (code_of n e)) (some (n.text_of e)) m db t stored
          found (may_end t TestStatus.failed running refl) in
      (end.0, (_, (end.1, (refl, refl))))

  -- The test is running, or it waits and the provider lacks nothing that it needs.
  abbrev pub CanRun : TestStatus → Type 0
  CanRun s = (s ≡ TestStatus.running) ⊎ ((s ≡ TestStatus.pending) × (is_nil w.unmet ≡ true))

  open_starts :
      (s : TestStatus) (db : Db)
      → CanRun s
      → HasRun run_id db
      → TestAt id s db
      → ((open_test now id w db).0 ≡ ok started)
        × (HasRun run_id (open_test now id w db).1
            × TestAt id TestStatus.running (open_test now id w db).1)
  unfolding open_test open_row start_test require_test_transition is_legal_test_transition
      test_transitions
  open_starts s db (inl running) stored (t, (found, at)) =
      let is : t.status ≡ TestStatus.running = at ∙ running in
      rw (found, is) (refl, (stored, (t, (found, is))))
  open_starts s db (inr (pending, has_all)) stored (t, (found, at)) =
      let is : t.status ≡ TestStatus.pending = at ∙ pending in
      rw (found, is, has_all)
        (
          refl,
          (stored, (_, (write_test-finds id TestStatus.running (at_start now) db t found, refl))),
        )

  measured-EndsAs :
      (n : Naming) (r : Option Error) (x : Outcome Measured × Db)
      → (m : Measured) × ((x.0 ≡ ok m)
          × ((m.raised ≡ r) × (HasRun run_id x.1 × TestAt id TestStatus.running x.1)))
      → EndsAs n id r (and_then x (λ m. conclude n now run_id id w m m.raised))
  unfolding conclude
  measured-EndsAs n r (ok k, after) (m, (e, (raised, (stored, at)))) =
      let q : k ≡ m = cc in
      let same : k.raised ≡ r = ap (λ (x : Measured). x.raised) q ∙ raised in
      rw same (conclude-EndsAs n k r after stored at)
  measured-EndsAs n r (err e, after) (m, (h, _)) = absurd cc

  -- A test that is running, or that waits and lacks no capability, is executed to an end that its
  -- measurement decides: without an exception it is completed and the call returns; a cancellation or
  -- an interrupt from the keyboard leaves it running and is raised again; and any other exception ends
  -- the test as failed, with the exception's code, and the call returns all the same, if its run has
  -- a row and measuring leaves that row and leaves the test running.
  pub execute_test-EndsAs :
      (n : Naming) (r : Option Error) (s : TestStatus) (completed total : ℕ) (db : Db)
      → CanRun s
      → HasRun run_id db
      → TestAt id s db
      → Measures run_id id w r
      → EndsAs n id r (execute_test n now run_id id w completed total db)
  unfolding execute_test go_on
  execute_test-EndsAs n r s completed total db can stored at measures =
      let opened = open_starts s db can stored at in
      let after = (open_test now id w db).1 in
      let (t, (found, running)) = opened.1.1 in
      let draft = started_test_draft now w id in
      let told =
        announce_returns (λ (d : Db). find_test id d.tests) (λ d es. refl) run_id draft after
          opened.1.0 refl in
      let kept =
        announce_returns (λ (d : Db). d.runs) (λ d es. refl) run_id draft after opened.1.0 refl in
      let ready = (announce run_id draft after).1 in
      rw
        (and_then_ok (open_test now id w db) (go_on n now run_id id w completed total) started
          opened.0)
        (rw
          (and_then_ok (announce run_id draft after)
            (λ _. w.measure completed total >>= λ m. conclude n now run_id id w m m.raised) tt
            told.0)
          (measured-EndsAs n r (w.measure completed total ready) (
            measures completed total ready (ap (has_run run_id) kept.1 ∙ opened.1.0)
              (t, (told.1 ∙ found, running)))))
