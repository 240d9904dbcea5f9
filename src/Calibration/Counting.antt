-- ===== src/Calibration/Counting.antt =====
-- Samples are counted through the sorting and the filling of the strata.
use free_weight.Base.{
  ℕ, ◌+◌, ◌==◌, leb, ◌≡◌, refl, ap, inl, inr, Bool, String, str_leb, sorted_strings, insert_string,
  List, [], ◌∷◌, ◌++◌, take, drop, take-append-drop, count_if, insert_by, arith, Bool-cases,
}
use free_weight.Calibration.{Stratum, insert_item, sorted_items, add_sample, fill_strata, by_grade}

pub count_if-append :
    {A : Type 0} (p : A → Bool) (xs ys : List A)
    → count_if p (xs ++ ys) ≡ count_if p xs + count_if p ys
count_if-append p [] ys = omega arith
count_if-append p (x ∷ xs) ys = ground (arith, count_if-append p xs ys)

pub count_if-split :
    {A : Type 0} (p : A → Bool) (n : ℕ) (xs : List A)
    → count_if p (drop n xs) + count_if p (take n xs) ≡ count_if p xs
count_if-split p n xs =
    let e : count_if p (take n xs ++ drop n xs) ≡ count_if p xs =
      ap (count_if p) (take-append-drop n xs) in
    omega (arith, e, count_if-append p (take n xs) (drop n xs))

count_if-insert :
    (p : String → Bool) (x : String) (ys : List String)
    → count_if p (insert_string x ys) ≡ count_if p (x ∷ ys)
count_if-insert p x [] = refl
count_if-insert p x (y ∷ ys) = elim (Bool-cases (str_leb x y)) [
  | inl e ↦ rw e refl
  | inr e ↦ rw e (ground (arith, count_if-insert p x ys))
]

pub count_if-sorted :
    (p : String → Bool) (xs : List String) → count_if p (sorted_strings xs) ≡ count_if p xs
count_if-sorted p [] = refl
count_if-sorted p (x ∷ xs) =
    ground (arith, count_if-insert p x (sorted_strings xs), count_if-sorted p xs)

count_if-insert_item :
    (p : String × ℕ → Bool) (x : String × ℕ) (ys : List (String × ℕ))
    → count_if p (insert_item x ys) ≡ count_if p (x ∷ ys)
count_if-insert_item p x [] = refl
count_if-insert_item p x (y ∷ ys) = elim (Bool-cases (str_leb x.0 y.0)) [
  | inl e ↦ rw e refl
  | inr e ↦ rw e (ground (arith, count_if-insert_item p x ys))
]

pub count_if-sorted_items :
    (p : String × ℕ → Bool) (xs : List (String × ℕ)) → count_if p (sorted_items xs) ≡ count_if p xs
count_if-sorted_items p [] = refl
count_if-sorted_items p (x ∷ xs) =
    ground (arith, count_if-insert_item p x (sorted_items xs), count_if-sorted_items p xs)

-- The samples of all strata that a test holds of.
abbrev pub in_strata : (String → Bool) → List Stratum → ℕ
in_strata p [] = 0
in_strata p (s ∷ rest) = count_if p s.1 + in_strata p rest

in_strata-insert :
    (p : String → Bool) (s : Stratum) (ss : List Stratum)
    → in_strata p (insert_by (λ (t : Stratum). t.0) s ss) ≡ in_strata p (s ∷ ss)
in_strata-insert p s [] = refl
in_strata-insert p s (t ∷ ts) = elim (Bool-cases (leb s.0 t.0)) [
  | inl e ↦ rw e refl
  | inr e ↦ rw e (omega (arith, in_strata-insert p s ts))
]

in_strata-by_grade :
    (p : String → Bool) (ss : List Stratum) → in_strata p (by_grade ss) ≡ in_strata p ss
in_strata-by_grade p [] = refl
in_strata-by_grade p (s ∷ ss) =
    omega (arith, in_strata-insert p s (by_grade ss), in_strata-by_grade p ss)

in_strata-add :
    (p : String → Bool) (g : ℕ) (x : String) (ss : List Stratum)
    → in_strata p (add_sample g x ss) ≡ in_strata p ss + count_if p (x ∷ [])
in_strata-add p g x [] = omega arith
in_strata-add p g x ((h, members) ∷ ss) = elim (Bool-cases (h == g)) [
  | inl e ↦ rw e (omega (arith, count_if-append p members (x ∷ [])))
  | inr e ↦ rw e (omega (arith, in_strata-add p g x ss))
]

in_strata-fill :
    (p : String → Bool) (items : List (String × ℕ)) (ss : List Stratum)
    → in_strata p (fill_strata items ss)
      ≡ in_strata p ss + count_if (λ (e : String × ℕ). p e.0) items
unfolding fill_strata
in_strata-fill p [] ss = omega arith
in_strata-fill p ((x, g) ∷ rest) ss =
    ground (arith, in_strata-fill p rest (add_sample g x ss), in_strata-add p g x ss)

-- The strata hold the samples that were graded, each as often as it was.
pub in_strata-graded :
    (p : String → Bool) (graded : List (String × ℕ))
    → in_strata p (by_grade (fill_strata (sorted_items graded) []))
      ≡ count_if (λ (e : String × ℕ). p e.0) graded
in_strata-graded p graded = omega (
  arith,
  in_strata-by_grade p (fill_strata (sorted_items graded) []),
  in_strata-fill p (sorted_items graded) [],
  count_if-sorted_items (λ (e : String × ℕ). p e.0) graded,
)
