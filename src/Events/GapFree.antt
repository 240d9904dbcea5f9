-- ===== src/Events/GapFree.antt =====
-- The invariant of `run_events`: each run's sequences are 1, 2, 3, … in the order of insertion.
use mathlib.Core.Path.{subst}
use mathlib.Core.List.{append-nil}
use free_weight.Base.{
  ℕ, suc, ◌+◌, ◌≡◌, refl, ap, ◌∙◌, leb, ltb, ◌==◌, true, false, ◌&&◌, String, List, [], ◌∷◌, ◌++◌,
  map, length, length-append, keep_if-append, any_of, arith, str_eq, eq_iff, Bool-cases, inl, inr,
}
use free_weight.Store.Rows.{RunEvent, Db}
use free_weight.Events.Publish.{
  Draft, events_of, larger, highest_sequence, next_sequence, as_row, is_taken, has_run,
  commit_rivals,
}

abbrev pub IsRangeFrom : ℕ → List ℕ → Type 0
IsRangeFrom n [] = Unit
IsRangeFrom n (x ∷ xs) = (x ≡ n) × IsRangeFrom (suc n) xs

abbrev pub sequences : List RunEvent → List ℕ
sequences = map (λ e. e.sequence)

abbrev pub IsGapFree : String → Db → Type 0
IsGapFree run_id db = IsRangeFrom 1 (sequences (events_of run_id db.events))

IsRangeFrom-snoc :
    (n : ℕ) (xs : List ℕ) → IsRangeFrom n xs → IsRangeFrom n (xs ++ (n + length xs) ∷ [])
IsRangeFrom-snoc n [] h = (omega arith, tt)
IsRangeFrom-snoc n (x ∷ xs) h =
    let e : n + suc (length xs) ≡ suc n + length xs = omega arith in
    rw e (h.0, IsRangeFrom-snoc (suc n) xs h.1)

length-sequences : (es : List RunEvent) → length (sequences es) ≡ length es
length-sequences [] = refl
length-sequences (e ∷ es) = ground (arith, length-sequences es)

highest-range :
    (n : ℕ) (es : List RunEvent)
    → IsRangeFrom (suc n) (sequences es)
    → larger n (highest_sequence es) ≡ n + length es
highest-range n [] h = ground arith
highest-range n (e ∷ es) h = ground (arith, highest-range (suc n) es h.1)

pub next_sequence_lem :
    (run_id : String) (db : Db)
    → IsGapFree run_id db
    → next_sequence run_id db ≡ length (events_of run_id db.events) + 1
unfolding next_sequence
next_sequence_lem run_id db h = ground (arith, highest-range 0 (events_of run_id db.events) h)

events_of-append_own :
    (run_id : String) (es : List RunEvent) (e : RunEvent)
    → e.run_id ≡ run_id
    → events_of run_id (es ++ e ∷ []) ≡ events_of run_id es ++ e ∷ []
events_of-append_own run_id es e h =
    ground (arith, keep_if-append (λ x. str_eq x.run_id run_id) es (e ∷ []), eq_iff e.run_id run_id)

events_of-append_other :
    (run_id : String) (es : List RunEvent) (e : RunEvent)
    → str_eq e.run_id run_id ≡ false
    → events_of run_id (es ++ e ∷ []) ≡ events_of run_id es ++ []
events_of-append_other run_id es e h =
    ground (arith, keep_if-append (λ x. str_eq x.run_id run_id) es (e ∷ []))

-- One more event at the next sequence.
abbrev pub push : String → Draft → Db → Db
push run_id d db = record db {
  events = db.events ++ as_row run_id (next_sequence run_id db) d ∷ [];
}

pub events_of-push :
    (run_id : String) (d : Draft) (db : Db)
    → events_of run_id (push run_id d db).events
      ≡ events_of run_id db.events ++ as_row run_id (next_sequence run_id db) d ∷ []
events_of-push run_id d db = events_of-append_own run_id db.events _ refl

sequences-snoc :
    (xs : List RunEvent) (e : RunEvent) → sequences (xs ++ e ∷ []) ≡ sequences xs ++ e.sequence ∷ []
sequences-snoc [] e = refl
sequences-snoc (x ∷ xs) e = ap (λ l. x.sequence ∷ l) (sequences-snoc xs e)

push_own-IsGapFree :
    (run_id : String) (d : Draft) (db : Db)
    → IsGapFree run_id db
    → IsGapFree run_id (push run_id d db)
push_own-IsGapFree run_id d db h =
    let own = events_of run_id db.events in
    rw events_of-push (
      rw sequences-snoc (
        rw next_sequence_lem (
          let e : length own + 1 ≡ 1 + length (sequences own) =
            omega (arith, length-sequences own) in
          rw e (IsRangeFrom-snoc 1 (sequences own) h))))

pub push-IsGapFree :
    (run_id k : String) (d : Draft) (db : Db)
    → IsGapFree run_id db
    → IsGapFree k db
    → IsGapFree k (push run_id d db)
push-IsGapFree run_id k d db h hk = elim (Bool-cases (str_eq run_id k)) [
  | inl same ↦
      let e : run_id ≡ k = (eq_iff run_id k).0 same in
      subst (λ j. IsGapFree j (push run_id d db)) e (push_own-IsGapFree run_id d db h)
  | inr other ↦
      rw (events_of-append_other k db.events (as_row run_id (next_sequence run_id db) d) other)
        (rw append-nil hk)
]

-- The events that rivals commit keep the invariant, and each takes the next place.
pub commit_rivals-IsGapFree :
    (run_id k : String) (ds : List Draft) (db : Db)
    → IsGapFree run_id db
    → IsGapFree k db
    → IsGapFree k (commit_rivals run_id ds db)
unfolding commit_rivals
commit_rivals-IsGapFree run_id k [] db h hk = hk
commit_rivals-IsGapFree run_id k (d ∷ ds) db h hk = elim (Bool-cases (has_run run_id db.runs)) [
  | inl e ↦
      rw (e, commit_rivals)
        (commit_rivals-IsGapFree run_id k ds (push run_id d db)
          (push-IsGapFree run_id run_id d db h h) (push-IsGapFree run_id k d db h hk))
  | inr e ↦ rw (e, commit_rivals) (commit_rivals-IsGapFree run_id k ds db h hk)
]

pub length-commit_rivals :
    (run_id : String) (ds : List Draft) (db : Db)
    → has_run run_id db.runs ≡ true
    → length (events_of run_id (commit_rivals run_id ds db).events)
      ≡ length (events_of run_id db.events) + length ds
unfolding commit_rivals
length-commit_rivals run_id [] db stored = omega arith
length-commit_rivals run_id (d ∷ ds) db stored =
    rw (stored, commit_rivals)
      (length-commit_rivals run_id ds (push run_id d db) stored
        ∙ rw events_of-push (
            let own = events_of run_id db.events in
            omega (arith, length-append own (as_row run_id (next_sequence run_id db) d ∷ []))))

any_sequence :
    (n s : ℕ) (es : List RunEvent)
    → IsRangeFrom n (sequences es)
    → any_of (λ e. e.sequence == s) es ≡ (leb n s && ltb s (n + length es))
any_sequence n s [] h = ground arith
any_sequence n s (e ∷ es) h = ground (arith, any_sequence (suc n) s es h.1)

is_taken-own :
    (run_id : String) (s : ℕ) (es : List RunEvent)
    → is_taken run_id s es ≡ any_of (λ e. e.sequence == s) (events_of run_id es)
is_taken-own run_id s [] = refl
is_taken-own run_id s (e ∷ es) = ground (arith, is_taken-own run_id s es)

-- Under the invariant a sequence is taken exactly if it is one of 1, …, n.
pub is_taken_lem :
    (run_id : String) (s : ℕ) (db : Db)
    → IsGapFree run_id db
    → is_taken run_id s db.events ≡ (leb 1 s && ltb s (1 + length (events_of run_id db.events)))
is_taken_lem run_id s db h =
    is_taken-own run_id s db.events ∙ any_sequence 1 s (events_of run_id db.events) h
