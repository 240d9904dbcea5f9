-- ===== src/Runs/Chains.antt =====
-- An action that changes a serial table by a chain of the statements of `Steps`, whether it returns
-- or raises; publishing and cancelling tests write no run.
use free_weight.Base.{
  ℕ, zero, suc, any_of, str_eq, ◌≡◌, refl, ◌∙◌, Bool, true, false, String, List, [], ◌∷◌, arith,
  Bool-cases, inl, inr,
}
use free_weight.RunState.{require_test_transition}
use free_weight.Store.Rows.{Run, RunTest, RunEvent, Db}
use free_weight.Store.Actions.{
  Error, Outcome, ok, err, Action, commit_or_undo, and_then, transaction, throw, ◌>>=◌, pure, skip,
  gets, integrity_error,
}
use free_weight.Store.Queries.{tests_of, set_test_status}
use free_weight.Events.Appending.{commit_rivals-runs}
use free_weight.Events.Publish.{
  Draft, publish, attempts, attempt, after_attempt, append, has_run, commit_rivals, first_rivals,
  later_rivals, run_event_types, max_sequence_retries, is_taken, next_sequence,
}
use free_weight.Runs.Services.{announce, cancel_test, cancel_tests, cancel_pending_tests, when}
use free_weight.Runs.Steps.{Chain, none_yet, then_step, IsSerial}
use free_weight.Runs.Serial.{Chain-IsSerial}

pub record Moves {A : Type 0} (m : Action A) : Type 0 where
  pub at : (db : Db) → IsSerial db.runs → Chain db.runs (m db).1.runs

pub Chain-append : {a b c : List Run} → Chain a b → Chain b c → Chain a c
Chain-append x none_yet = x
Chain-append x (then_step y s) = then_step (Chain-append x y) s

module _ {A : Type 0} where
  pub Moves-still : (m : Action A) → ((db : Db) → (m db).1.runs ≡ db.runs) → Moves m
  Moves-still m same = record { at = λ db _. rw (same db) none_yet }

  pub Moves-pure : (a : A) → Moves (pure a)
  Moves-pure a = record { at = λ db _. none_yet }

  pub Moves-throw : (e : Error) → Moves (throw {A = A} e)
  Moves-throw e = record { at = λ db _. none_yet }

  pub Moves-transaction : (m : Action A) → Moves m → Moves (transaction m)
  Moves-transaction m h = record { at = λ db serial. by_outcome db (m db) (h.at db serial) }
    where
      by_outcome :
          (db : Db) (x : Outcome A × Db)
          → Chain db.runs x.1.runs
          → Chain db.runs (commit_or_undo db x).1.runs
      by_outcome db (ok a, after) c = c
      by_outcome db (err e, after) c = none_yet

module _ {A B : Type 0} where
  pub and_then-Chain :
      (rs : List Run) (x : Outcome A × Db) (f : A → Action B)
      → Chain rs x.1.runs
      → ((a : A) → x.0 ≡ ok a → Chain x.1.runs (f a x.1).1.runs)
      → Chain rs (and_then x f).1.runs
  and_then-Chain rs (ok a, db) f c k = Chain-append c (k a refl)
  and_then-Chain rs (err e, db) f c k = c

  pub Moves-bind :
      (m : Action A) (f : A → Action B) → Moves m → ((a : A) → Moves (f a)) → Moves (m >>= f)
  Moves-bind m f hm hf = record {
    at = λ db serial.
        let before = hm.at db serial in
        and_then-Chain db.runs (m db) f before
          (λ a _. (hf a).at (m db).1 (Chain-IsSerial before serial));
  }

-- Publishing writes no run.
abbrev pub Still : {A : Type 0} → Action A → Type 0
Still m = (db : Db) → (m db).1.runs ≡ db.runs

attempt-Still : (id : String) (d : Draft) (ds : List Draft) → Still (attempt id d ds)
unfolding attempt append
attempt-Still id d ds db =
    let before = commit_rivals id ds db in
    elim (Bool-cases (is_taken id (next_sequence id db) before.events)) [
      | inl e ↦ rw e (commit_rivals-runs id ds db)
      | inr e ↦ elim (Bool-cases (has_run id before.runs)) [
        | inl f ↦ rw (e, f) (commit_rivals-runs id ds db)
        | inr f ↦ rw (e, f) (commit_rivals-runs id ds db)
      ]
    ]

after_attempt-runs :
    (rs : List Run) (x : Outcome RunEvent × Db) (again : Action RunEvent)
    → x.1.runs ≡ rs
    → Still again
    → (after_attempt x again).1.runs ≡ rs
after_attempt-runs rs (ok e, after) again h k = h
after_attempt-runs rs (err integrity_error, after) again h k = k after ∙ h
after_attempt-runs rs (err _, after) again h k = h

attempts-Still :
    (left : ℕ) (id : String) (d : Draft) (rivals : List (List Draft))
    → Still (attempts left id d rivals)
unfolding attempts
attempts-Still zero id d rivals db = refl
attempts-Still (suc left) id d rivals db =
    after_attempt-runs db.runs _ _ (attempt-Still id d (first_rivals rivals) db)
      (attempts-Still left id d (later_rivals rivals))

pub publish-Still :
    (id : String) (d : Draft) (rivals : List (List Draft)) → Still (publish id d rivals)
unfolding publish
publish-Still id d rivals db = elim (Bool-cases (any_of (str_eq d.event_type) run_event_types)) [
  | inl e ↦ rw e (attempts-Still max_sequence_retries id d rivals db)
  | inr e ↦ rw e refl
]

pub Moves-announce : (id : String) (d : Draft) → Moves (announce id d)
unfolding announce
Moves-announce id d =
    Moves-bind (publish id d []) (λ _. skip) (Moves-still (publish id d []) (publish-Still id d []))
      (λ _. Moves-pure tt)

cancel_test-Still : (t : RunTest) → Still (cancel_test t)
unfolding cancel_test set_test_status require_test_transition
cancel_test-Still t db = ground arith

pub Moves-cancel_tests : (ts : List RunTest) → Moves (cancel_tests ts)
unfolding cancel_tests
Moves-cancel_tests [] = Moves-pure tt
Moves-cancel_tests (t ∷ ts) =
    Moves-bind (cancel_test t) (λ _. cancel_tests ts)
      (Moves-still (cancel_test t) (cancel_test-Still t)) (λ _. Moves-cancel_tests ts)

pub Moves-cancel_pending_tests : (id : String) → Moves (cancel_pending_tests id)
unfolding cancel_pending_tests
Moves-cancel_pending_tests id =
    Moves-bind (gets (λ db. tests_of id db.tests)) cancel_tests (record { at = λ db _. none_yet })
      Moves-cancel_tests

pub Moves-when : (b : Bool) (m : Action (Unit {0})) → Moves m → Moves (when b m)
Moves-when true m h = h
Moves-when false m h = Moves-pure tt
