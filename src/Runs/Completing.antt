-- ===== src/Runs/Completing.antt =====
-- Calls that return, and the status that they leave a run in.
use free_weight.Base.{
  ℕ, ◌+◌, ◌<◌, ◌≡◌, refl, ap, ◌∙◌, true, false, String, Option, none, some, List, [], ◌∷◌, any_of,
  arith, str_eq, eq_iff,
}
use free_weight.RunState.{RunStatus, run_in, is_legal_run_transition, require_run_transition}
use free_weight.Store.Rows.{Run, RunEvent, Db, find_run, find_run-update_run}
use free_weight.Store.Actions.{Outcome, ok, err, Action, skip, and_then, ◌>>◌}
use free_weight.Store.Queries.{set_status, with_status}
use free_weight.Store.Keyed.{find_run-id}
use free_weight.Events.Publish.{
  Draft, events_of, highest_sequence, next_sequence, is_taken, append, commit_rivals, attempt,
  after_attempt, attempts, publish, run_event_types, has_run,
}
use free_weight.Events.Appending.{found-has_run}
use free_weight.Runs.Services.{announce, with_message, check_cancelled, transition}
use free_weight.Runs.Execution.{
  no_cause, finish, finish_body, finish_row, finish_from, step_through,
}

-- The run has this status.
abbrev pub IsAt : String → RunStatus → Db → Type 0
IsAt id s db = (r : Run) × ((find_run id db.runs ≡ some r) × (r.status ≡ s))

-- A call returned, and the run has this status.
abbrev pub Reaches : String → RunStatus → Outcome (Unit {0}) × Db → Type 0
Reaches id s x = (x.0 ≡ ok tt) × IsAt id s x.1

-- Work that returns and does not touch the `runs` table.
abbrev pub IsQuiet : Action (Unit {0}) → Type 0
IsQuiet m = (db : Db) → ((m db).0 ≡ ok tt) × ((m db).1.runs ≡ db.runs)

pub quiet-Reaches :
    (id : String) (s : RunStatus) (m : Action (Unit {0})) (db : Db)
    → IsQuiet m
    → IsAt id s db
    → Reaches id s (m db)
quiet-Reaches id s m db q (r, (found, same)) =
    ((q db).0, (r, (ap (find_run id) (q db).1 ∙ found, same)))

pub Reaches-then :
    (id : String) (s t : RunStatus) (m n : Action (Unit {0})) (db : Db)
    → Reaches id s (m db)
    → ((after : Db) → IsAt id s after → Reaches id t (n after))
    → Reaches id t ((m >> n) db)
Reaches-then id s t m n db h k = by_outcome (m db) h
  where
    by_outcome : (x : Outcome (Unit {0}) × Db) → Reaches id s x → Reaches id t (and_then x (λ _. n))
    by_outcome (ok _, after) h = k after h.1
    by_outcome (err e, after) h = absurd (let q = h.0 in cc)

-- With no rival a publish of a declared type always succeeds.
free_above :
    (id : String) (s : ℕ) (es : List RunEvent)
    → highest_sequence (events_of id es) < s
    → is_taken id s es ≡ false
free_above id s [] h = refl
free_above id s (e ∷ es) h = ground (arith, free_above id s es)

-- What of the tables an appended event leaves alone.
abbrev pub IsBlind {ℓ} : {X : Type ℓ} → (Db → X) → Type ℓ
IsBlind part = (db : Db) (es : List RunEvent) → part (record db { events = es }) ≡ part db

module _ {ℓ} {X : Type ℓ} (part : Db → X) (blind : IsBlind part) where
  attempt_stores :
      (id : String) (d : Draft) (db : Db)
      → has_run id db.runs ≡ true
      → ((e : RunEvent) × ((attempt id d [] db).0 ≡ ok e)) × (part (attempt id d [] db).1 ≡ part db)
  unfolding attempt append commit_rivals next_sequence
  attempt_stores id d db stored =
      let free =
        free_above id (highest_sequence (events_of id db.events) + 1) db.events (omega arith) in
      rw (free, stored) ((_, refl), blind db _)

  after_attempt_ok :
      (x : Outcome RunEvent × Db) (again : Action RunEvent) (before : X)
      → ((e : RunEvent) × (x.0 ≡ ok e)) × (part x.1 ≡ before)
      → ((e : RunEvent) × ((after_attempt x again).0 ≡ ok e))
        × (part (after_attempt x again).1 ≡ before)
  after_attempt_ok (ok e, after) again before h = h
  after_attempt_ok (err e, after) again before h = absurd (let q = h.0.1 in cc)

  publish_stores :
      (id : String) (d : Draft) (db : Db)
      → has_run id db.runs ≡ true
      → any_of (str_eq d.event_type) run_event_types ≡ true
      → ((e : RunEvent) × ((publish id d [] db).0 ≡ ok e)) × (part (publish id d [] db).1 ≡ part db)
  unfolding publish attempts
  publish_stores id d db stored declared = rw declared (
      after_attempt_ok (attempt id d [] db) (attempts 7 id d []) (part db)
        (attempt_stores id d db stored))

  -- Announcing an event of a declared type for a run that has a row returns, and leaves that part alone.
  pub announce_returns :
      (id : String) (d : Draft) (db : Db)
      → has_run id db.runs ≡ true
      → any_of (str_eq d.event_type) run_event_types ≡ true
      → ((announce id d db).0 ≡ ok tt) × (part (announce id d db).1 ≡ part db)
  unfolding announce
  announce_returns id d db stored declared =
      by_outcome (publish id d [] db) (publish_stores id d db stored declared)
    where
      by_outcome :
          (x : Outcome RunEvent × Db)
          → ((e : RunEvent) × (x.0 ≡ ok e)) × (part x.1 ≡ part db)
          → ((and_then x (λ _. skip)).0 ≡ ok tt) × (part (and_then x (λ _. skip)).1 ≡ part db)
      by_outcome (ok e, after) h = (refl, h.1)
      by_outcome (err e, after) h = absurd (let q = h.0.1 in cc)

pub announce-Reaches :
    (id : String) (s : RunStatus) (d : Draft) (db : Db)
    → any_of (str_eq d.event_type) run_event_types ≡ true
    → IsAt id s db
    → Reaches id s (announce id d db)
announce-Reaches id s d db declared (r, (found, same)) =
    let told =
      announce_returns (λ (t : Db). t.runs) (λ t es. refl) id d db
        (found-has_run id r db.runs found) declared in
    (told.0, (r, (ap (find_run id) told.1 ∙ found, same)))

pub check-Reaches :
    (id : String) (s : RunStatus) (db : Db)
    → run_in s (RunStatus.cancelling ∷ RunStatus.cancelled ∷ []) ≡ false
    → IsAt id s db
    → Reaches id s (check_cancelled id db)
unfolding check_cancelled
check-Reaches id s db goes_on (r, (found, same)) =
    let live : run_in r.status (RunStatus.cancelling ∷ RunStatus.cancelled ∷ []) ≡ false =
      rw same goes_on in
    rw (found, live) (refl, (r, (found, same)))

set_status-IsAt :
    (id : String) (t : RunStatus) (c : Option ℕ) (ec et : Option String) (db : Db) (r : Run)
    → find_run id db.runs ≡ some r
    → IsAt id t (set_status id t none c ec et db)
unfolding set_status with_status
set_status-IsAt id t c ec et db r found = (
  with_status t none c ec et r,
  (
    find_run-update_run id id (with_status t none c ec et) db.runs (λ x. refl)
        ∙ rw found (ground (arith, find_run-id id db.runs r found, eq_iff r.id id)),
    refl,
  ),
)

pub transition-Reaches :
    (id : String) (s t : RunStatus) (db : Db)
    → is_legal_run_transition s t ≡ true
    → IsAt id s db
    → Reaches id t (transition id t db)
unfolding transition require_run_transition
transition-Reaches id s t db legal (r, (found, same)) =
    let may : is_legal_run_transition r.status t ≡ true = rw same legal in
    rw (found, may) (refl, set_status-IsAt id t none none none db r found)

pub finish-Reaches :
    (now : ℕ) (id : String) (db : Db)
    → IsAt id RunStatus.running db
    → Reaches id RunStatus.completed (finish now id RunStatus.completed no_cause db)
unfolding finish finish_body finish_row finish_from step_through require_run_transition
    is_legal_run_transition
finish-Reaches now id db (r, (found, same)) =
    let at_end = set_status-IsAt id RunStatus.completed (some now) none none db r found in
    let d = record (with_message "run.completed" "Run completed." now) {
      payload = ("status", some "completed") ∷ ("error_code", none) ∷ [];
    } in
    rw found (
      rw same (
        announce-Reaches id RunStatus.completed d
          (set_status id RunStatus.completed none (some now) none none db) refl at_end))
