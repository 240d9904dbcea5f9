-- ===== src/Store/Keyed.antt =====
-- The primary key of `runs`, and how the count of runs in flight moves under the updates.
use free_weight.Base.{
  ℕ, ◌≤◌, ◌≡◌, refl, Bool, true, false, String, some, List, [], ◌∷◌, count_if, All, arith, str_eq,
  eq_iff, Bool-cases, inl, inr,
}
use free_weight.Store.Rows.{Run, find_run, update_run}
use free_weight.Store.Queries.{in_flight, to_preparing}

-- No two rows have one id.
abbrev pub IsAbsent : String → List Run → Type 0
IsAbsent id = All (λ r. str_eq r.id id ≡ false)

abbrev pub IsKeyed : List Run → Type 0
IsKeyed [] = Unit
IsKeyed (r ∷ rs) = IsAbsent r.id rs × IsKeyed rs

abbrev pub KeepsId : (Run → Run) → Type 0
KeepsId f = (r : Run) → (f r).id ≡ r.id

pub update_run-absent :
    (id : String) (f : Run → Run) (rs : List Run) → IsAbsent id rs → update_run id f rs ≡ rs
unfolding update_run
update_run-absent id f [] h = refl
update_run-absent id f (r ∷ rs) h = ground (arith, update_run-absent id f rs h.1)

update_run-IsAbsent :
    (k id : String) (f : Run → Run) (rs : List Run)
    → KeepsId f
    → IsAbsent k rs
    → IsAbsent k (update_run id f rs)
unfolding update_run
update_run-IsAbsent k id f [] same h = tt
update_run-IsAbsent k id f (r ∷ rs) same h =
    ground (arith, update_run-IsAbsent k id f rs same h.1, same r)

pub update_run-IsKeyed :
    (id : String) (f : Run → Run) (rs : List Run)
    → KeepsId f
    → IsKeyed rs
    → IsKeyed (update_run id f rs)
unfolding update_run
update_run-IsKeyed id f [] same h = tt
update_run-IsKeyed id f (r ∷ rs) same h = elim (Bool-cases (str_eq r.id id)) [
  | inl e ↦
      rw e
        (rw same (update_run-IsAbsent r.id id f rs same h.0), update_run-IsKeyed id f rs same h.1)
  | inr e ↦ rw e (update_run-IsAbsent r.id id f rs same h.0, update_run-IsKeyed id f rs same h.1)
]

pub find_run-id : (id : String) (rs : List Run) (r : Run) → find_run id rs ≡ some r → r.id ≡ id
unfolding find_run
find_run-id id [] r h = cc
find_run-id id (x ∷ rs) r h = ground (arith, eq_iff x.id id, find_run-id id rs r)

IsAbsent-of_key : (a b : String) (rs : List Run) → str_eq a b ≡ true → IsAbsent a rs → IsAbsent b rs
IsAbsent-of_key a b rs e h = let q : a ≡ b = (eq_iff a b).0 e in rw q at h

-- An update of one run that gives it a property only if it had it gives it to no more runs.
pub count-update_run :
    (p : Run → Bool) (id : String) (f : Run → Run) (rs : List Run) (r : Run)
    → IsKeyed rs
    → find_run id rs ≡ some r
    → (p (f r) ≡ true → p r ≡ true)
    → count_if p (update_run id f rs) ≤ count_if p rs
unfolding update_run find_run
count-update_run p id f [] r key found mono = cc
count-update_run p id f (x ∷ rs) r key found mono = elim (Bool-cases (str_eq x.id id)) [
  | inl e ↦
      let same : x ≡ r = ground arith in
      let rest : update_run id f rs ≡ rs =
        update_run-absent id f rs (IsAbsent-of_key x.id id rs e key.0) in
      rw (e, rest) (rw same (ground (arith, mono)))
  | inr e ↦ rw e (ground (arith, count-update_run p id f rs r key.1))
]

-- The update of a claim puts at most one run in flight.
pub count-claim :
    (now : ℕ) (id : String) (rs : List Run)
    → IsKeyed rs
    → count_if in_flight rs ≡ 0
    → count_if in_flight (update_run id (to_preparing now) rs) ≤ 1
unfolding update_run
count-claim now id [] key idle = omega arith
count-claim now id (x ∷ rs) key idle = ground (
  arith,
  update_run-absent id (to_preparing now) rs,
  IsAbsent-of_key x.id id rs,
  count-claim now id rs key.1,
)
