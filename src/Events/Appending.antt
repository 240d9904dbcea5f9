-- ===== src/Events/Appending.antt =====
-- What one `publish` call does to the event table, whatever other writers commit meanwhile.
use free_weight.Base.{
  ℕ, zero, suc, ◌+◌, ◌≡◌, refl, ap, inl, inr, Bool, true, false, not, ◌||◌, ◌∙◌, String, none, some,
  List, [], ◌∷◌, ◌++◌, length, any_of, arith, str_eq, Bool-cases,
}
use free_weight.Store.Rows.{Run, RunEvent, Db, find_run}
use free_weight.Store.Actions.{Outcome, ok, err, sequence_collisions, integrity_error, transaction}
use free_weight.Events.Publish.{
  Draft, run_event_types, max_sequence_retries, events_of, as_row, is_taken, append, next_sequence,
  has_run, commit_rivals, first_rivals, later_rivals, attempt, after_attempt, attempts, publish,
}
use free_weight.Events.GapFree.{
  IsGapFree, next_sequence_lem, push, push-IsGapFree, events_of-push, commit_rivals-IsGapFree,
  length-commit_rivals, is_taken_lem,
}

pub found-has_run :
    (id : String) (r : Run) (rows : List Run) → find_run id rows ≡ some r → has_run id rows ≡ true
found-has_run id r rows found = ap (λ o. elim o [ none ↦ false | some x ↦ true ]) found

-- With no rival an attempt stores the event at the next sequence, if the run has a row.
attempt_quiet :
    (run_id : String) (d : Draft) (db : Db)
    → has_run run_id db.runs ≡ true
    → IsGapFree run_id db
    → attempt run_id d [] db ≡ (ok (as_row run_id (next_sequence run_id db) d), push run_id d db)
unfolding attempt commit_rivals
attempt_quiet run_id d db stored h =
    ground
      (arith, is_taken_lem run_id (next_sequence run_id db) db h, next_sequence_lem run_id db h)

-- With one it collides, and only the rivals' events are stored.
attempt_raced :
    (run_id : String) (d r : Draft) (rs : List Draft) (db : Db)
    → has_run run_id db.runs ≡ true
    → IsGapFree run_id db
    → attempt run_id d (r ∷ rs) db ≡ (err integrity_error, commit_rivals run_id (r ∷ rs) db)
unfolding attempt
attempt_raced run_id d r rs db stored h =
    let raced = commit_rivals run_id (r ∷ rs) db in
    let h' : IsGapFree run_id raced = commit_rivals-IsGapFree run_id run_id (r ∷ rs) db h h in
    let t = is_taken_lem run_id (next_sequence run_id db) raced h' in
    ground (arith, t, next_sequence_lem run_id db h, length-commit_rivals run_id (r ∷ rs) db stored)

-- No rival commits to a run without a row, and no attempt succeeds.
commit_rivals-unstored :
    (run_id : String) (ds : List Draft) (db : Db)
    → has_run run_id db.runs ≡ false
    → commit_rivals run_id ds db ≡ db
unfolding commit_rivals
commit_rivals-unstored run_id [] db absent = refl
commit_rivals-unstored run_id (d ∷ ds) db absent =
    rw absent (commit_rivals-unstored run_id ds db absent)

attempt_unstored :
    (run_id : String) (d : Draft) (rivals : List Draft) (db : Db)
    → has_run run_id db.runs ≡ false
    → attempt run_id d rivals db ≡ (err integrity_error, db)
unfolding attempt append
attempt_unstored run_id d rivals db absent =
    ap (λ t. transaction (append run_id (next_sequence run_id db) d) t)
      (commit_rivals-unstored run_id rivals db absent)
    ∙ (elim (Bool-cases (is_taken run_id (next_sequence run_id db) db.events)) [
      | inl e ↦ rw e refl
      | inr e ↦ rw (e, absent) refl
    ])

attempts_unstored :
    (left : ℕ) (run_id : String) (d : Draft) (rivals : List (List Draft)) (db : Db)
    → has_run run_id db.runs ≡ false
    → attempts left run_id d rivals db ≡ (err sequence_collisions, db)
unfolding attempts
attempts_unstored zero run_id d rivals db absent = refl
attempts_unstored (suc left) run_id d rivals db absent =
    ap (λ x. after_attempt x (attempts left run_id d (later_rivals rivals)))
      (attempt_unstored run_id d (first_rivals rivals) db absent)
    ∙ attempts_unstored left run_id d (later_rivals rivals) db absent

pub commit_rivals-runs :
    (run_id : String) (ds : List Draft) (db : Db) → (commit_rivals run_id ds db).runs ≡ db.runs
unfolding commit_rivals
commit_rivals-runs run_id [] db = refl
commit_rivals-runs run_id (d ∷ ds) db = elim (Bool-cases (has_run run_id db.runs)) [
  | inl e ↦ rw (e, commit_rivals) (commit_rivals-runs run_id ds (push run_id d db))
  | inr e ↦ rw (e, commit_rivals) (commit_rivals-runs run_id ds db)
]

commit_rivals-has_run :
    (run_id : String) (ds : List Draft) (db : Db)
    → has_run run_id (commit_rivals run_id ds db).runs ≡ has_run run_id db.runs
commit_rivals-has_run run_id ds db = ap (has_run run_id) (commit_rivals-runs run_id ds db)

-- The first `left` attempts each meet a rival.
abbrev pub all_raced : ℕ → List (List Draft) → Bool
all_raced zero rivals = true
all_raced (suc left) [] = false
all_raced (suc left) ([] ∷ rest) = false
all_raced (suc left) ((d ∷ ds) ∷ rest) = all_raced left rest

-- `e` is the last event of its run, and its sequence is its place.
pub record IsStored (run_id : String) (d : Draft) (e : RunEvent) (after : Db) : Type 0 where
  pub earlier : List RunEvent
  pub row : e ≡ as_row run_id (length earlier + 1) d
  pub last : events_of run_id after.events ≡ earlier ++ e ∷ []

-- `refused` says whether the call is to raise.
abbrev pub Appended : Bool → String → Draft → Outcome RunEvent × Db → Type 0
Appended refused run_id d (ok e, after) = (refused ≡ false) × IsStored run_id d e after
Appended refused run_id d (err x, after) = (refused ≡ true) × (x ≡ sequence_collisions)

push-IsStored :
    (run_id : String) (d : Draft) (db : Db)
    → IsGapFree run_id db
    → IsStored run_id d (as_row run_id (next_sequence run_id db) d) (push run_id d db)
push-IsStored run_id d db h = record {
  earlier = events_of run_id db.events;
  row = rw next_sequence_lem;
  last = events_of-push run_id d db;
}

attempts_none :
    (run_id : String) (d : Draft) (rivals : List (List Draft)) (db : Db)
    → attempts zero run_id d rivals db ≡ (err sequence_collisions, db)
unfolding attempts
attempts_none run_id d rivals db = refl

attempts_quiet :
    (left : ℕ) (run_id : String) (d : Draft) (rivals : List (List Draft)) (db : Db)
    → has_run run_id db.runs ≡ true
    → IsGapFree run_id db
    → first_rivals rivals ≡ []
    → attempts (suc left) run_id d rivals db
      ≡ (ok (as_row run_id (next_sequence run_id db) d), push run_id d db)
unfolding attempts
attempts_quiet left run_id d rivals db stored h q = rw q (
    ap (λ r. after_attempt r (attempts left run_id d (later_rivals rivals)))
      (attempt_quiet run_id d db stored h))

attempts_raced :
    (left : ℕ) (run_id : String) (d r : Draft) (rs : List Draft) (rest : List (List Draft))
    (db : Db)
    → has_run run_id db.runs ≡ true
    → IsGapFree run_id db
    → attempts (suc left) run_id d ((r ∷ rs) ∷ rest) db
      ≡ attempts left run_id d rest (commit_rivals run_id (r ∷ rs) db)
unfolding attempts
attempts_raced left run_id d r rs rest db stored h =
    ap (λ x. after_attempt x (attempts left run_id d rest))
      (attempt_raced run_id d r rs db stored h)

attempts-Appended :
    (left : ℕ) (run_id : String) (d : Draft) (rivals : List (List Draft)) (db : Db)
    → has_run run_id db.runs ≡ true
    → IsGapFree run_id db
    → Appended (all_raced left rivals) run_id d (attempts left run_id d rivals db)
attempts-Appended zero run_id d rivals db stored h = rw attempts_none (refl, refl)
attempts-Appended (suc left) run_id d [] db stored h =
    rw (attempts_quiet left run_id d [] db stored h refl) (refl, push-IsStored run_id d db h)
attempts-Appended (suc left) run_id d ([] ∷ rest) db stored h =
    rw (attempts_quiet left run_id d ([] ∷ rest) db stored h refl)
      (refl, push-IsStored run_id d db h)
attempts-Appended (suc left) run_id d ((r ∷ rs) ∷ rest) db stored h =
    rw (attempts_raced left run_id d r rs rest db stored h) (
      attempts-Appended left run_id d rest (commit_rivals run_id (r ∷ rs) db)
        (commit_rivals-has_run run_id (r ∷ rs) db ∙ stored)
        (commit_rivals-IsGapFree run_id run_id (r ∷ rs) db h h))

attempts-IsGapFree :
    (left : ℕ) (run_id k : String) (d : Draft) (rivals : List (List Draft)) (db : Db)
    → has_run run_id db.runs ≡ true
    → IsGapFree run_id db
    → IsGapFree k db
    → IsGapFree k (attempts left run_id d rivals db).1
attempts-IsGapFree zero run_id k d rivals db stored h hk = rw attempts_none hk
attempts-IsGapFree (suc left) run_id k d [] db stored h hk =
    rw (attempts_quiet left run_id d [] db stored h refl) (push-IsGapFree run_id k d db h hk)
attempts-IsGapFree (suc left) run_id k d ([] ∷ rest) db stored h hk =
    rw (attempts_quiet left run_id d ([] ∷ rest) db stored h refl)
      (push-IsGapFree run_id k d db h hk)
attempts-IsGapFree (suc left) run_id k d ((r ∷ rs) ∷ rest) db stored h hk =
    rw (attempts_raced left run_id d r rs rest db stored h) (
      attempts-IsGapFree left run_id k d rest (commit_rivals run_id (r ∷ rs) db)
        (commit_rivals-has_run run_id (r ∷ rs) db ∙ stored)
        (commit_rivals-IsGapFree run_id run_id (r ∷ rs) db h h)
        (commit_rivals-IsGapFree run_id k (r ∷ rs) db h hk))

-- Publishing an event of a declared type to a run whose stored sequences are gap-free either raises
-- the collision error, exactly if the run has no row or all of the eight attempts meet another
-- writer, or returns the event as stored: with the fields that were passed, last of its run, at the
-- sequence after those stored before it.
pub publish-Appended :
    (run_id : String) (d : Draft) (rivals : List (List Draft)) (db : Db)
    → IsGapFree run_id db
    → any_of (str_eq d.event_type) run_event_types ≡ true
    → Appended
        (not (has_run run_id db.runs) || all_raced max_sequence_retries rivals)
        run_id
        d
        (publish run_id d rivals db)
unfolding publish
publish-Appended run_id d rivals db h declared = elim (Bool-cases (has_run run_id db.runs)) [
  | inl stored ↦
      rw (declared, stored) (attempts-Appended max_sequence_retries run_id d rivals db stored h)
  | inr absent ↦
      rw (declared, absent)
        (rw (attempts_unstored max_sequence_retries run_id d rivals db absent) (refl, refl))
]

-- If every run's stored sequences are gap-free, they are so after any `publish` call, whether it
-- returns or raises and whatever other writers of the run commit between its attempts.
pub publish-IsGapFree :
    (run_id : String) (d : Draft) (rivals : List (List Draft)) (db : Db)
    → ((k : String) → IsGapFree k db)
    → (k : String) → IsGapFree k (publish run_id d rivals db).1
unfolding publish
publish-IsGapFree run_id d rivals db h k =
    elim (Bool-cases (any_of (str_eq d.event_type) run_event_types)) [
      | inl declared ↦ rw declared (elim (Bool-cases (has_run run_id db.runs)) [
        | inl stored ↦
            attempts-IsGapFree max_sequence_retries run_id k d rivals db stored (h run_id) (h k)
        | inr absent ↦ rw (attempts_unstored max_sequence_retries run_id d rivals db absent) (h k)
      ])
      | inr unknown ↦ rw unknown (h k)
    ]

-- Without rivals `publish` stores the event of a run that has a row.
pub publish-push :
    (run_id : String) (d : Draft) (db : Db)
    → has_run run_id db.runs ≡ true
    → IsGapFree run_id db
    → any_of (str_eq d.event_type) run_event_types ≡ true
    → publish run_id d [] db ≡ (ok (as_row run_id (next_sequence run_id db) d), push run_id d db)
unfolding publish
publish-push run_id d db stored h declared =
    rw declared (attempts_quiet 7 run_id d [] db stored h refl)
