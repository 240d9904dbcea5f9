-- ===== src/Trajectory/Order.antt =====
-- The order of calls: one list of names inside another.
use free_weight.Base.{
  ◌≡◌, refl, ◌↔◌, inl, inr, true, String, str_eq, eq_iff, eq_refl, List, [], ◌∷◌, any_of,
  Bool-cases,
}
use free_weight.Trajectory.{after, is_subsequence}

-- The second list with some of its names left out is the first.
pub data Inside : List String → List String → Type 0 where
  empty : {ys : List String} → Inside [] ys
  keep : {x : String} {xs ys : List String} → Inside xs ys → Inside (x ∷ xs) (x ∷ ys)
  skip : {y : String} {xs ys : List String} → Inside xs ys → Inside xs (y ∷ ys)

Inside-after :
    (x : String) (xs ys : List String)
    → any_of (str_eq x) ys ≡ true
    → Inside xs (after x ys)
    → Inside (x ∷ xs) ys
Inside-after x xs [] h i = cc
Inside-after x xs (y ∷ ys) h i = elim (Bool-cases (str_eq x y)) [
  | inl e ↦ let same : x ≡ y = (eq_iff x y).0 e in let i' = rw e at i in rw same (keep i')
  | inr e ↦ skip (Inside-after x xs ys (rw e at h) (rw e at i))
]

is_subsequence→Inside : (xs ys : List String) → is_subsequence xs ys ≡ true → Inside xs ys
unfolding is_subsequence
is_subsequence→Inside [] ys h = empty
is_subsequence→Inside (x ∷ xs) ys h = elim (Bool-cases (any_of (str_eq x) ys)) [
  | inl e ↦ Inside-after x xs ys e (is_subsequence→Inside xs (after x ys) (rw e at h))
  | inr e ↦ absurd (let q = rw e at h in cc)
]

Inside-tail : {x : String} {xs ys : List String} → Inside (x ∷ xs) ys → Inside xs ys
Inside-tail (keep i) = skip i
Inside-tail (skip i) = skip (Inside-tail i)

Inside→after :
    (x : String) (xs ys : List String)
    → Inside (x ∷ xs) ys
    → (any_of (str_eq x) ys ≡ true) × Inside xs (after x ys)
Inside→after x xs [] i = elim i [ ]
Inside→after x xs (y ∷ ys) (keep i) = rw (eq_refl x) (refl, i)
Inside→after x xs (y ∷ ys) (skip i) = elim (Bool-cases (str_eq x y)) [
  | inl e ↦ rw e (refl, Inside-tail i)
  | inr e ↦ let rest = Inside→after x xs ys i in rw e rest
]

Inside→is_subsequence : (xs ys : List String) → Inside xs ys → is_subsequence xs ys ≡ true
unfolding is_subsequence
Inside→is_subsequence [] ys i = refl
Inside→is_subsequence (x ∷ xs) ys i =
    let found = Inside→after x xs ys i in
    rw (found.0, Inside→is_subsequence xs (after x ys) found.1) refl

-- The test for ordered calls passes exactly if leaving some of the names of the calls out gives the
-- names required.
pub is_subsequence-Inside :
    (required actual : List String)
    → (is_subsequence required actual ≡ true) ↔ Inside required actual
is_subsequence-Inside required actual =
    (is_subsequence→Inside required actual, Inside→is_subsequence required actual)
