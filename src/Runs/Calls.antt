-- ===== src/Runs/Calls.antt =====
-- Transitions and resolved references, as chains of the statements of `Steps`.
use free_weight.Base.{
  ℕ, ◌≡◌, ◌≢◌, refl, ap, ◌∙◌, true, false, String, Option, none, some, List, [], ◌∷◌, arith,
  Bool-cases, Option-cases, inl, inr, keep_if, All, All-keep_if, eq_iff, eq_refl,
}
use text.Mathlib.Text.{starts_with}
use free_weight.RunState.{
  RunStatus, is_legal_run_transition, is_terminal_run, require_run_transition,
}
use free_weight.Store.Rows.{Run, Db, find_run}
use free_weight.Store.Actions.{
  Error, Outcome, ok, err, Action, and_then, ◌>>=◌, ◌>>◌, lift, gets, or_throw,
}
use free_weight.Store.Queries.{set_status}
use free_weight.Store.Keyed.{IsKeyed, IsAbsent, find_run-id}
use free_weight.Runs.Services.{transition, resolve_run, resolve_from, pick_match}
use free_weight.Runs.Steps.{set, Chain, none_yet, then_step, IsSerial}
use free_weight.Runs.Chains.{Moves, Moves-transaction}

pub set_status-Chain :
    (id : String) (r : Run) (t : RunStatus) (s c : Option ℕ) (ec et : Option String) (db : Db)
    → find_run id db.runs ≡ some r
    → is_legal_run_transition r.status t ≡ true
    → t ≢ RunStatus.preparing
    → (is_terminal_run t ≡ true → c ≢ none)
    → Chain db.runs (set_status id t s c ec et db).runs
unfolding set_status
set_status-Chain id r t s c ec et db found legal ne stamp =
    then_step none_yet (set id r t s c ec et found legal ne stamp refl)

pub Moves-transition :
    (id : String) (t : RunStatus)
    → t ≢ RunStatus.preparing
    → is_terminal_run t ≡ false
    → Moves (transition id t)
unfolding transition require_run_transition
Moves-transition id t ne live = Moves-transaction _ (record {
  at = λ db _. elim (Option-cases (find_run id db.runs)) [
    | inl e ↦ rw e none_yet
    | inr (r, e) ↦ rw e (elim (Bool-cases (is_legal_run_transition r.status t)) [
      | inl legal ↦
          rw legal (set_status-Chain id r t none none none none db e legal ne (λ last. cc))
      | inr illegal ↦ rw illegal none_yet
    ])
  ];
})

-- In a keyed table a reference resolves to a row that its id finds, and changes nothing.
found_weaken :
    (x : Run) (rs ys : List Run)
    → IsAbsent x.id ys
    → All (λ (r : Run). find_run r.id rs ≡ some r) ys
    → All (λ (r : Run). find_run r.id (x ∷ rs) ≡ some r) ys
unfolding find_run
found_weaken x rs [] a h = tt
found_weaken x rs (y ∷ ys) a h =
    (ground (arith, h.0, eq_iff y.id x.id, eq_iff x.id y.id), found_weaken x rs ys a.1 h.1)

pub found-All : (rs : List Run) → IsKeyed rs → All (λ (r : Run). find_run r.id rs ≡ some r) rs
unfolding find_run
found-All [] key = tt
found-All (x ∷ rs) key =
    (ground (arith, eq_refl x.id), found_weaken x rs rs key.0 (found-All rs key.1))

abbrev pub Resolves : Db → Outcome Run × Db → Type 0
Resolves db (ok r, after) = (find_run r.id db.runs ≡ some r) × (after ≡ db)
Resolves db (err e, after) = after ≡ db

pick_match-Resolves :
    (rows : List Run) (db : Db)
    → All (λ (r : Run). find_run r.id db.runs ≡ some r) rows
    → Resolves db (pick_match rows db)
unfolding pick_match
pick_match-Resolves [] db h = refl
pick_match-Resolves (r ∷ []) db h = (h.0, refl)
pick_match-Resolves (r ∷ _ ∷ _) db h = refl

resolve_none :
    (ref : String) (db : Db)
    → find_run ref db.runs ≡ none
    → resolve_run ref db ≡ pick_match (keep_if (λ r. starts_with r.id ref) db.runs) db
unfolding resolve_run resolve_from
resolve_none ref db e = ap (λ o. resolve_from ref o db) e

pub resolve_some :
    (ref : String) (db : Db) (r : Run)
    → find_run ref db.runs ≡ some r
    → resolve_run ref db ≡ (ok r, db)
unfolding resolve_run resolve_from
resolve_some ref db r e = ap (λ o. resolve_from ref o db) e

pub resolve_run-Resolves :
    (ref : String) (db : Db) → IsKeyed db.runs → Resolves db (resolve_run ref db)
resolve_run-Resolves ref db key = elim (Option-cases (find_run ref db.runs)) [
  | inl e ↦
      rw (resolve_none ref db e)
        (pick_match-Resolves _ db (All-keep_if _ _ db.runs (found-All db.runs key)))
  | inr (r, e) ↦
      rw (resolve_some ref db r e)
        (ap (λ k. find_run k db.runs) (find_run-id ref db.runs r e) ∙ e, refl)
]

module _ {A : Type 0} where
  -- A call that goes on with the run that a reference names.
  pub Moves-resolve :
      (ref : String) (f : Run → Action A)
      → ((r : Run) (db : Db)
          → find_run r.id db.runs ≡ some r
          → IsSerial db.runs
          → Chain db.runs (f r db).1.runs)
      → Moves (resolve_run ref >>= f)
  Moves-resolve ref f h = record {
    at = λ db serial.
        by_outcome db serial (resolve_run ref db) (resolve_run-Resolves ref db serial.keyed);
  }
    where
      by_outcome :
          (db : Db)
          → IsSerial db.runs
          → (x : Outcome Run × Db) → Resolves db x
          → Chain db.runs (and_then x f).1.runs
      by_outcome db serial (ok r, after) q = rw q.1 (h r db q.0 serial)
      by_outcome db serial (err e, after) q = rw q none_yet

  -- Reading the row back.
  pub Moves-reread : (f : Db → Option A) (e : Error) → Moves (gets f >>= λ o. or_throw o e)
  Moves-reread f e = record {
    at = λ db serial. elim (Option-cases (f db)) [
      | inl q ↦ rw q none_yet
      | inr (r, q) ↦ rw q none_yet
    ];
  }

  pub Moves-reading :
      (f : Db → Option Run) (e : Error) (g : Run → Action A)
      → ((r : Run) → Moves (g r))
      → Moves (gets f >>= λ o. or_throw o e >>= g)
  Moves-reading f e g h = record {
    at = λ db serial. elim (Option-cases (f db)) [
      | inl q ↦ rw q none_yet
      | inr (r, q) ↦ rw q ((h r).at db serial)
    ];
  }

module _ {A : Type 0} where
  -- A transition that must be legal, before what follows it.
  pub require-Chain :
      (s t : RunStatus) (m : Action A) (db : Db)
      → (is_legal_run_transition s t ≡ true → Chain db.runs (m db).1.runs)
      → Chain db.runs ((lift (require_run_transition s t) >> m) db).1.runs
  unfolding require_run_transition
  require-Chain s t m db h = elim (Bool-cases (is_legal_run_transition s t)) [
    | inl legal ↦ rw legal (h legal)
    | inr illegal ↦ rw illegal none_yet
  ]
