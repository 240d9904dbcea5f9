-- ===== src/Base/Sorted.antt =====
-- `ORDER BY key`: a stable insertion sort on a numeric key.
use Prim.Native.Nat.{ℕ, ◌≤◌}
use mathlib.Core.List.{List, [], ◌∷◌}
use native.Mathlib.Omega.{arith}
use free_weight.Base.Tests.{leb, leb→le, if◌then◌else◌, Bool-cases}
use mathlib.Core.Logic.{inl, inr}
use free_weight.Base.Lists.{All}

module _ {A : Type 0} (key : A → ℕ) where
  abbrev pub insert_by : A → List A → List A
  insert_by x [] = x ∷ []
  insert_by x (y ∷ ys) = if leb (key x) (key y) then x ∷ y ∷ ys else y ∷ insert_by x ys

  abbrev pub sort_by : List A → List A
  sort_by [] = []
  sort_by (x ∷ xs) = insert_by x (sort_by xs)

  -- Every element stands before those with a larger key.
  abbrev pub IsSortedBy : List A → Type 0
  IsSortedBy [] = Unit
  IsSortedBy (x ∷ xs) = All (λ y. key x ≤ key y) xs × IsSortedBy xs

  pub insert_by-All :
      (P : A → Type 0) (x : A) (ys : List A) → P x → All P ys → All P (insert_by x ys)
  insert_by-All P x [] hx hs = (hx, tt)
  insert_by-All P x (y ∷ ys) hx hs = ground (arith, insert_by-All P x ys hx hs.1)

  pub sort_by-All : (P : A → Type 0) (xs : List A) → All P xs → All P (sort_by xs)
  sort_by-All P [] h = tt
  sort_by-All P (x ∷ xs) h = insert_by-All P x (sort_by xs) h.0 (sort_by-All P xs h.1)

  insert_by-All_inv :
      (P : A → Type 0) (x : A) (ys : List A) → All P (insert_by x ys) → P x × All P ys
  insert_by-All_inv P x [] h = h
  insert_by-All_inv P x (y ∷ ys) h = elim (Bool-cases (leb (key x) (key y))) [
    | inl e ↦ let h' = rw e at h in (h'.0, h'.1)
    | inr e ↦
        let h' = rw e at h in let rest = insert_by-All_inv P x ys h'.1 in (rest.0, (h'.0, rest.1))
  ]

  pub sort_by-All_inv : (P : A → Type 0) (xs : List A) → All P (sort_by xs) → All P xs
  sort_by-All_inv P [] h = tt
  sort_by-All_inv P (x ∷ xs) h =
      let parts = insert_by-All_inv P x (sort_by xs) h in (parts.0, sort_by-All_inv P xs parts.1)

  raise_bound : (a b : ℕ) (ys : List A) → a ≤ b → All (λ y. b ≤ key y) ys → All (λ y. a ≤ key y) ys
  raise_bound a b [] h hs = tt
  raise_bound a b (y ∷ ys) h hs = (omega (arith, h, hs.0), raise_bound a b ys h hs.1)

  insert_by-IsSortedBy : (x : A) (ys : List A) → IsSortedBy ys → IsSortedBy (insert_by x ys)
  insert_by-IsSortedBy x [] h = (tt, tt)
  insert_by-IsSortedBy x (y ∷ ys) h = elim (Bool-cases (leb (key x) (key y))) [
    | inl e ↦
        let le : key x ≤ key y = leb→le (key x) (key y) e in
        rw e ((le, raise_bound (key x) (key y) ys le h.0), h)
    | inr e ↦
        let le : key y ≤ key x = ground arith in
        rw e (insert_by-All (λ z. key y ≤ key z) x ys le h.0, insert_by-IsSortedBy x ys h.1)
  ]

  pub sort_by-IsSortedBy : (xs : List A) → IsSortedBy (sort_by xs)
  sort_by-IsSortedBy [] = tt
  sort_by-IsSortedBy (x ∷ xs) = insert_by-IsSortedBy x (sort_by xs) (sort_by-IsSortedBy xs)
