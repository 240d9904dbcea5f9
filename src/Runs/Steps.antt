-- ===== src/Runs/Steps.antt =====
-- The changes that a run's row may undergo, and what every one of them keeps.
use free_weight.Base.{
  ℕ, ◌≤◌, ◌≡◌, ◌≢◌, refl, true, String, Option, none, some, List, [], ◌∷◌, ◌++◌, count_if, All,
  arith, str_eq, Bool-cases, inl, inr, if◌then◌else◌,
}
use free_weight.RunState.{RunStatus, run_eq, is_terminal_run, is_legal_run_transition}
use free_weight.Store.Rows.{Run, Db, find_run, update_run, or_keep}
use free_weight.Store.Queries.{
  in_flight, with_status, to_preparing, interrupt_ids, orphan_ids, id_in,
}
use free_weight.Store.Keyed.{IsKeyed, KeepsId}

-- One statement on the table: a new queued run; a legal move of one run, not to `preparing`, that
-- stamps the end of a run which it ends; a claim while nothing is in flight; recovery.
pub data RunsStep (rs rs' : List Run) : Type 0 where
  insert :
      (r : Run)
      → find_run r.id rs ≡ none
      → r.status ≡ RunStatus.queued
      → rs' ≡ rs ++ r ∷ []
      → RunsStep rs rs'
  set :
      (id : String) (r : Run) (t : RunStatus) (s c : Option ℕ) (ec et : Option String)
      → find_run id rs ≡ some r
      → is_legal_run_transition r.status t ≡ true
      → t ≢ RunStatus.preparing
      → (is_terminal_run t ≡ true → c ≢ none)
      → rs' ≡ update_run id (with_status t s c ec et) rs
      → RunsStep rs rs'
  claim :
      (now : ℕ) (id : String)
      → count_if in_flight rs ≡ 0
      → rs' ≡ update_run id (to_preparing now) rs
      → RunsStep rs rs'
  interrupt_all :
      (now : ℕ) (db : Db)
      → db.runs ≡ rs
      → rs' ≡ interrupt_ids now (orphan_ids db) rs
      → RunsStep rs rs'

-- Any number of them.
pub data Chain (rs : List Run) : List Run → Type 0 where
  none_yet : Chain rs rs
  then_step : {mid last : List Run} → Chain rs mid → RunsStep mid last → Chain rs last

abbrev pub HasEnd : Run → Type 0
HasEnd r = is_terminal_run r.status ≡ true → r.completed_at ≢ none

-- Ids are unique, at most one run is in flight, and each run in a terminal status has its end stamped.
pub record IsSerial (rs : List Run) : Type 0 where
  pub keyed : IsKeyed rs
  pub at_most_one : count_if in_flight rs ≤ 1
  pub ended : All HasEnd rs

pub with_status-id :
    (t : RunStatus) (s c : Option ℕ) (ec et : Option String) → KeepsId (with_status t s c ec et)
unfolding with_status
with_status-id t s c ec et r = refl

pub to_preparing-id : (now : ℕ) → KeepsId (to_preparing now)
unfolding to_preparing
to_preparing-id now r = ground arith

-- Only a claim puts a run in flight.
pub set-in_flight :
    (r : Run) (t : RunStatus) (s c : Option ℕ) (ec et : Option String)
    → is_legal_run_transition r.status t ≡ true
    → t ≢ RunStatus.preparing
    → in_flight (with_status t s c ec et r) ≡ true
    → in_flight r ≡ true
unfolding with_status is_legal_run_transition
set-in_flight r t s c ec et legal ne h = by_status r.status t legal ne h
  where
    by_status :
        (from to : RunStatus)
        → is_legal_run_transition from to ≡ true
        → to ≢ RunStatus.preparing
        → in_flight (record r { status = to }) ≡ true
        → in_flight (record r { status = from }) ≡ true
    by_status RunStatus.queued to legal ne h = ground arith
    by_status _ to legal ne h = ground arith

pub set-HasEnd :
    (id : String) (t : RunStatus) (s c : Option ℕ) (ec et : Option String) (rs : List Run)
    → (is_terminal_run t ≡ true → c ≢ none)
    → All HasEnd rs
    → All HasEnd (update_run id (with_status t s c ec et) rs)
unfolding update_run with_status
set-HasEnd id t s c ec et [] stamp h = tt
set-HasEnd id t s c ec et (r ∷ rs) stamp h = elim (Bool-cases (str_eq r.id id)) [
  | inl e ↦
      rw e (λ last. keeps c r.completed_at (stamp last), set-HasEnd id t s c ec et rs stamp h.1)
  | inr e ↦ rw e (h.0, set-HasEnd id t s c ec et rs stamp h.1)
]
  where
    keeps : (c old : Option ℕ) → c ≢ none → or_keep c old ≢ none
    keeps none old ne = absurd (ne refl)
    keeps (some v) old ne = ne

pub claim-HasEnd :
    (now : ℕ) (id : String) (rs : List Run)
    → All HasEnd rs
    → All HasEnd (update_run id (to_preparing now) rs)
unfolding update_run to_preparing is_terminal_run
claim-HasEnd now id [] h = tt
claim-HasEnd now id (r ∷ rs) h = (one, claim-HasEnd now id rs h.1)
  where
    one : HasEnd (if str_eq r.id id then to_preparing now r else r)
    one = elim (Bool-cases (str_eq r.id id)) [
      | inl e ↦ rw e (elim (Bool-cases (run_eq r.status RunStatus.queued)) [
        | inl q ↦ rw q (λ x. cc)
        | inr q ↦ rw q h.0
      ])
      | inr e ↦ rw e h.0
    ]

pub recover-HasEnd :
    (now : ℕ) (ids : List String) (rs : List Run)
    → All HasEnd rs
    → All HasEnd (interrupt_ids now ids rs)
unfolding interrupt_ids is_terminal_run
recover-HasEnd now ids [] h = tt
recover-HasEnd now ids (r ∷ rs) h = (one, recover-HasEnd now ids rs h.1)
  where
    one : HasEnd (
        if id_in ids r
        then record r { status = RunStatus.interrupted; completed_at = some now }
        else r)
    one = elim (Bool-cases (id_in ids r)) [ inl e ↦ rw e (λ x. cc) | inr e ↦ rw e h.0 ]
