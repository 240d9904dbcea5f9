-- ===== src/Runs/Pending.antt =====
-- _cancel_pending_tests: exactly the open tests of the run are cancelled.
use free_weight.Base.{
  ◌≡◌, refl, sym, ap, ◌∙◌, Bool, true, false, ◌&&◌, String, List, [], ◌∷◌, arith, Bool-cases, inl,
  inr, if◌then◌else◌, All, any_of, map, eq_iff, eq_refl, str_eq,
}
use free_weight.RunState.{TestStatus, test_in, is_legal_test_transition, require_test_transition}
use free_weight.Store.Rows.{RunTest, Db, update_test}
use free_weight.Store.Actions.{ok, and_then}
use free_weight.Store.Queries.{tests_of, set_test_status}
use free_weight.Runs.Services.{open_test_statuses, cancel_test, cancel_tests, cancel_pending_tests}

-- No two rows of `run_tests` have one id.
abbrev pub IsNewTest : String → List RunTest → Type 0
IsNewTest id = All (λ (t : RunTest). str_eq t.id id ≡ false)

abbrev pub IsKeyedTests : List RunTest → Type 0
IsKeyedTests [] = Unit
IsKeyedTests (t ∷ ts) = IsNewTest t.id ts × IsKeyedTests ts

abbrev pub is_open : RunTest → Bool
is_open t = test_in t.status (TestStatus.pending ∷ TestStatus.running ∷ [])

abbrev pub to_cancelled : RunTest → RunTest
to_cancelled t = record t { status = TestStatus.cancelled }

abbrev pub cancelled_rows : String → List RunTest → List RunTest
cancelled_rows run_id =
    map (λ (x : RunTest). if str_eq x.run_id run_id && is_open x then to_cancelled x else x)

-- The row after the UPDATEs for the open ones of these tests.
abbrev named_open : List RunTest → RunTest → Bool
named_open ts x = any_of (λ t. str_eq x.id t.id && is_open t) ts

abbrev cancel_named : List RunTest → List RunTest → List RunTest
cancel_named ts = map (λ (x : RunTest). if named_open ts x then to_cancelled x else x)

cancel_named-nil : (rows : List RunTest) → cancel_named [] rows ≡ rows
cancel_named-nil [] = refl
cancel_named-nil (x ∷ rows) = ap (λ l. x ∷ l) (cancel_named-nil rows)

cancel_named-open :
    (t : RunTest) (ts rows : List RunTest)
    → is_open t ≡ true
    → cancel_named ts (update_test t.id (λ x. record x { status = TestStatus.cancelled }) rows)
      ≡ cancel_named (t ∷ ts) rows
unfolding update_test
cancel_named-open t ts [] h = refl
cancel_named-open t ts (x ∷ rows) h = elim (Bool-cases (str_eq x.id t.id)) [
  | inl e ↦ elim (Bool-cases (named_open ts x)) [
    | inl f ↦ rw (e, h, f) (ap (λ l. to_cancelled x ∷ l) (cancel_named-open t ts rows h))
    | inr f ↦ rw (e, h, f) (ap (λ l. to_cancelled x ∷ l) (cancel_named-open t ts rows h))
  ]
  | inr e ↦ rw e (
      ap (λ l. (if named_open ts x then to_cancelled x else x) ∷ l) (cancel_named-open t ts rows h))
]

cancel_named-shut :
    (t : RunTest) (ts rows : List RunTest)
    → is_open t ≡ false
    → cancel_named ts rows ≡ cancel_named (t ∷ ts) rows
cancel_named-shut t ts [] h = refl
cancel_named-shut t ts (x ∷ rows) h =
    let same : named_open (t ∷ ts) x ≡ named_open ts x = ground arith in
    rw same (
      ap (λ l. (if named_open ts x then to_cancelled x else x) ∷ l) (cancel_named-shut t ts rows h))

open_may_stop :
    (s : TestStatus)
    → test_in s open_test_statuses ≡ true
    → is_legal_test_transition s TestStatus.cancelled ≡ true
unfolding is_legal_test_transition
open_may_stop s h = ground arith

cancel_test-open :
    (t : RunTest) (db : Db)
    → is_open t ≡ true
    → cancel_test t db ≡ (ok tt, set_test_status t.id TestStatus.cancelled db)
unfolding cancel_test require_test_transition
cancel_test-open t db h = rw (h, open_may_stop t.status h) refl

cancel_test-shut : (t : RunTest) (db : Db) → is_open t ≡ false → cancel_test t db ≡ (ok tt, db)
unfolding cancel_test
cancel_test-shut t db h = rw h refl

cancel_tests_lem :
    (ts : List RunTest) (db : Db)
    → cancel_tests ts db ≡ (ok tt, record db { tests = cancel_named ts db.tests })
unfolding cancel_tests
cancel_tests_lem [] db =
    ap (λ rows. (ok tt, record db { tests = rows })) (sym (cancel_named-nil db.tests))
cancel_tests_lem (t ∷ ts) db = elim (Bool-cases (is_open t)) [
  | inl e ↦
      ap (λ x. and_then x (λ _. cancel_tests ts)) (cancel_test-open t db e)
      ∙ cancel_tests_lem ts (set_test_status t.id TestStatus.cancelled db)
      ∙ unfold set_test_status in
        ap (λ rows. (ok tt, record db { tests = rows })) (cancel_named-open t ts db.tests e)
  | inr e ↦
      ap (λ x. and_then x (λ _. cancel_tests ts)) (cancel_test-shut t db e)
      ∙ cancel_tests_lem ts db
      ∙ ap (λ rows. (ok tt, record db { tests = rows })) (cancel_named-shut t ts db.tests e)
]

-- In a keyed table the tests named are the run's own.
not_named :
    (run_id : String) (x : RunTest) (rows : List RunTest)
    → IsNewTest x.id rows
    → named_open (tests_of run_id rows) x ≡ false
not_named run_id x [] h = refl
not_named run_id x (y ∷ rows) h =
    ground (arith, not_named run_id x rows h.1, h.0, eq_iff x.id y.id, eq_iff y.id x.id)

abbrev IsOwnOpen : String → List RunTest → RunTest → Type 0
IsOwnOpen run_id table x =
    named_open (tests_of run_id table) x ≡ (str_eq x.run_id run_id && is_open x)

named_weaken :
    (run_id : String) (y : RunTest) (table rows : List RunTest)
    → IsNewTest y.id rows
    → All (IsOwnOpen run_id table) rows
    → All (IsOwnOpen run_id (y ∷ table)) rows
named_weaken run_id y table [] new h = tt
named_weaken run_id y table (x ∷ rows) new h =
    (ground (arith, h.0, new.0), named_weaken run_id y table rows new.1 h.1)

named_exact :
    (run_id : String) (rows : List RunTest) → IsKeyedTests rows → All (IsOwnOpen run_id rows) rows
named_exact run_id [] key = tt
named_exact run_id (y ∷ rows) key = (
  ground (arith, not_named run_id y rows key.0, eq_refl y.id),
  named_weaken run_id y rows rows key.0 (named_exact run_id rows key.1),
)

cancel_named-own :
    (run_id : String) (table rows : List RunTest)
    → All (IsOwnOpen run_id table) rows
    → cancel_named (tests_of run_id table) rows ≡ cancelled_rows run_id rows
cancel_named-own run_id table [] h = refl
cancel_named-own run_id table (x ∷ rows) h = rw h.0 (
    ap (λ l. (if str_eq x.run_id run_id && is_open x then to_cancelled x else x) ∷ l)
      (cancel_named-own run_id table rows h.1))

-- In a table in which test ids are unique, cancelling the pending tests of a run never raises: each
-- pending or running test of that run becomes cancelled, and every other row stays as it was.
pub cancel_pending_tests-exact :
    (run_id : String) (db : Db)
    → IsKeyedTests db.tests
    → cancel_pending_tests run_id db ≡ (ok tt, record db { tests = cancelled_rows run_id db.tests })
unfolding cancel_pending_tests
cancel_pending_tests-exact run_id db key =
    cancel_tests_lem (tests_of run_id db.tests) db
    ∙ ap (λ rows. (ok tt, record db { tests = rows }))
        (cancel_named-own run_id db.tests db.tests (named_exact run_id db.tests key))
