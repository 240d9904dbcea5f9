-- ===== src/Store/Orphans.antt =====
-- Recovery's UPDATE reaches exactly the runs in flight.
use mathlib.Core.Path.{subst}
use free_weight.Base.{
  ℕ, ◌≡◌, refl, sym, ap, ◌∙◌, Bool, true, false, ◌||◌, String, some, List, [], ◌∷◌, map, count_if,
  keep_if, any_of, insert_by, sort_by, All, arith, str_eq, eq_iff, if◌then◌else◌, Bool-cases, inl,
  inr,
}
use free_weight.RunState.{RunStatus}
use free_weight.Store.Rows.{Run, Db, find_run}
use free_weight.Store.Queries.{in_flight, orphan_ids, interrupt_ids}
use free_weight.Store.Keyed.{IsAbsent, IsKeyed}

abbrev ids_of : List Run → List String
ids_of = map (λ (r : Run). r.id)

any-insert_by :
    (p : String → Bool) (key : Run → ℕ) (r : Run) (rs : List Run)
    → any_of p (ids_of (insert_by key r rs)) ≡ (p r.id || any_of p (ids_of rs))
any-insert_by p key r [] = refl
any-insert_by p key r (x ∷ rs) = ground (arith, any-insert_by p key r rs)

any-sort_by :
    (p : String → Bool) (key : Run → ℕ) (rs : List Run)
    → any_of p (ids_of (sort_by key rs)) ≡ any_of p (ids_of rs)
any-sort_by p key [] = refl
any-sort_by p key (r ∷ rs) =
    any-insert_by p key r (sort_by key rs) ∙ ap (λ b. p r.id || b) (any-sort_by p key rs)

-- The ids of the runs in flight, in table order.
abbrev flying : List Run → List String
flying rs = ids_of (keep_if in_flight rs)

absent-flying :
    (id : String) (rs : List Run) → IsAbsent id rs → any_of (str_eq id) (flying rs) ≡ false
absent-flying id [] h = refl
absent-flying id (r ∷ rs) h = elim (Bool-cases (in_flight r)) [
  | inl e ↦ rw e (ground (arith, absent-flying id rs h.1, eq_iff r.id id, eq_iff id r.id))
  | inr e ↦ rw e (absent-flying id rs h.1)
]

flying-exact :
    (id : String) (rs : List Run) (r : Run)
    → IsKeyed rs
    → find_run id rs ≡ some r
    → any_of (str_eq id) (flying rs) ≡ in_flight r
unfolding find_run
flying-exact id [] r key found = cc
flying-exact id (x ∷ rs) r key found = elim (Bool-cases (str_eq x.id id)) [
  | inl e ↦
      let q : x.id ≡ id = (eq_iff x.id id).0 e in
      let same : x ≡ r = ground arith in
      let rest : any_of (str_eq id) (flying rs) ≡ false = absent-flying id rs (rw q at key.0) in
      rw (← same) (elim (Bool-cases (in_flight x)) [
        | inl f ↦ rw f (ground (arith, eq_iff id x.id))
        | inr f ↦ rw f rest
      ])
  | inr e ↦
      let found' : find_run id rs ≡ some r = rw e at found in
      let ih = flying-exact id rs r key.1 found' in
      elim (Bool-cases (in_flight x)) [
        | inl f ↦ rw f (ground (arith, ih, eq_iff id x.id, eq_iff x.id id))
        | inr f ↦ rw f ih
      ]
]

-- In a keyed table a run is among the orphans exactly if its status is one of theirs.
pub orphan_exact :
    (id : String) (db : Db) (r : Run)
    → IsKeyed db.runs
    → find_run id db.runs ≡ some r
    → any_of (str_eq id) (orphan_ids db) ≡ in_flight r
orphan_exact id db r key found =
    any-sort_by (str_eq id) (λ r. r.created_at) (keep_if in_flight db.runs)
    ∙ flying-exact id db.runs r key found

abbrev Covers : List String → List Run → Type 0
Covers ids = All (λ (r : Run). in_flight r ≡ true → any_of (str_eq r.id) ids ≡ true)

Covers-cons :
    (id : String) (ids : List String) (rs : List Run) → Covers ids rs → Covers (id ∷ ids) rs
Covers-cons id ids [] h = tt
Covers-cons id ids (r ∷ rs) h = (λ f. let q = h.0 f in ground arith, Covers-cons id ids rs h.1)

flying_in : (r : Run) (rs : List Run) → in_flight r ≡ true → flying (r ∷ rs) ≡ r.id ∷ flying rs
flying_in r rs f = rw f

flying_out : (r : Run) (rs : List Run) → in_flight r ≡ false → flying (r ∷ rs) ≡ flying rs
flying_out r rs f = rw f

any_self : (id : String) (ids : List String) → any_of (str_eq id) (id ∷ ids) ≡ true
any_self id ids = ground (arith, eq_iff id id)

Covers-flying : (rs : List Run) → Covers (flying rs) rs
Covers-flying [] = tt
Covers-flying (r ∷ rs) = elim (Bool-cases (in_flight r)) [
  | inl f ↦
      subst (λ ids. Covers ids (r ∷ rs)) (sym (flying_in r rs f))
        (λ _. any_self r.id (flying rs), Covers-cons r.id (flying rs) rs (Covers-flying rs))
  | inr f ↦ subst (λ ids. Covers ids (r ∷ rs)) (sym (flying_out r rs f)) (λ g. cc, Covers-flying rs)
]

Covers-same :
    (ids ids' : List String) (rs : List Run)
    → ((id : String) → any_of (str_eq id) ids ≡ any_of (str_eq id) ids')
    → Covers ids rs
    → Covers ids' rs
Covers-same ids ids' [] same h = tt
Covers-same ids ids' (r ∷ rs) same h =
    (λ f. rw (← same r.id) (h.0 f), Covers-same ids ids' rs same h.1)

count-interrupt_ids :
    (now : ℕ) (ids : List String) (rs : List Run)
    → Covers ids rs
    → count_if in_flight (interrupt_ids now ids rs) ≡ 0
unfolding interrupt_ids
count-interrupt_ids now ids [] h = refl
count-interrupt_ids now ids (r ∷ rs) h = elim (Bool-cases (any_of (str_eq r.id) ids)) [
  | inl e ↦ rw e (count-interrupt_ids now ids rs h.1)
  | inr e ↦ rw e (elim (Bool-cases (in_flight r)) [
    | inl f ↦ absurd (let q = h.0 f in cc)
    | inr f ↦ rw f (count-interrupt_ids now ids rs h.1)
  ])
]

-- After recovery's UPDATE no run is in flight.
pub recovered_idle :
    (now : ℕ) (db : Db) → count_if in_flight (interrupt_ids now (orphan_ids db) db.runs) ≡ 0
recovered_idle now db = count-interrupt_ids now (orphan_ids db) db.runs (
    Covers-same (flying db.runs) (orphan_ids db) db.runs
      (λ id. sym (any-sort_by (str_eq id) (λ r. r.created_at) (keep_if in_flight db.runs)))
      (Covers-flying db.runs))

interrupt_ids-IsAbsent :
    (now : ℕ) (ids : List String) (id : String) (rs : List Run)
    → IsAbsent id rs
    → IsAbsent id (interrupt_ids now ids rs)
unfolding interrupt_ids
interrupt_ids-IsAbsent now ids id [] h = tt
interrupt_ids-IsAbsent now ids id (r ∷ rs) h =
    ground (arith, interrupt_ids-IsAbsent now ids id rs h.1)

pub interrupt_ids-IsKeyed :
    (now : ℕ) (ids : List String) (rs : List Run) → IsKeyed rs → IsKeyed (interrupt_ids now ids rs)
unfolding interrupt_ids
interrupt_ids-IsKeyed now ids [] h = tt
interrupt_ids-IsKeyed now ids (r ∷ rs) h = elim (Bool-cases (any_of (str_eq r.id) ids)) [
  | inl e ↦ rw e (interrupt_ids-IsAbsent now ids r.id rs h.0, interrupt_ids-IsKeyed now ids rs h.1)
  | inr e ↦ rw e (interrupt_ids-IsAbsent now ids r.id rs h.0, interrupt_ids-IsKeyed now ids rs h.1)
]

-- The row of one id after the UPDATE.
pub find_run-interrupt_ids :
    (now : ℕ) (ids : List String) (id : String) (rs : List Run) (r : Run)
    → find_run id rs ≡ some r
    → find_run id (interrupt_ids now ids rs)
      ≡ some (
          if any_of (str_eq id) ids
          then record r { status = RunStatus.interrupted; completed_at = some now }
          else r)
unfolding find_run interrupt_ids
find_run-interrupt_ids now ids id [] r h = cc
find_run-interrupt_ids now ids id (x ∷ rs) r h = elim (Bool-cases (str_eq x.id id)) [
  | inl e ↦
      let q : x.id ≡ id = (eq_iff x.id id).0 e in
      let same : x ≡ r = ground arith in
      elim (Bool-cases (any_of (str_eq id) ids)) [
        | inl m ↦
            let m' : any_of (str_eq x.id) ids ≡ true = rw q m in
            rw (m, m', e)
              (ap
                (λ (y : Run).
                  some (record y { status = RunStatus.interrupted; completed_at = some now }))
                same)
        | inr m ↦ let m' : any_of (str_eq x.id) ids ≡ false = rw q m in rw (m, m', e) (ap some same)
      ]
  | inr e ↦
      let found : find_run id rs ≡ some r = rw e at h in
      elim (Bool-cases (any_of (str_eq x.id) ids)) [
        | inl m ↦ rw (m, e) (find_run-interrupt_ids now ids id rs r found)
        | inr m ↦ rw (m, e) (find_run-interrupt_ids now ids id rs r found)
      ]
]
