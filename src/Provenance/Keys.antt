-- ===== src/Provenance/Keys.antt =====
-- The keys of two dicts, and what a path reads.
use free_weight.Base.{
  ◌≤◌, ◌≡◌, refl, sym, inl, inr, Bool, true, false, ◌&&◌, ◌||◌, String, str_eq, eq_iff, eq_refl,
  sorted_strings, insert_string, List, [], ◌∷◌, ◌++◌, keep_if, any_of, All, All-append, flat_map,
  arith, Bool-cases,
}
use free_weight.Json.{keys, null, Fields, no_fields, field, get}
use free_weight.Provenance.{all_keys, depth, depth_fields, get_path}

any_of-append :
    {A : Type 0} (p : A → Bool) (xs ys : List A)
    → any_of p (xs ++ ys) ≡ (any_of p xs || any_of p ys)
any_of-append p [] ys = refl
any_of-append p (x ∷ xs) ys = ground (arith, any_of-append p xs ys)

any_of-insert :
    (p : String → Bool) (x : String) (ys : List String)
    → any_of p (sorted_strings (x ∷ ys)) ≡ (p x || any_of p (sorted_strings ys))
any_of-insert p x ys = inserted (sorted_strings ys)
  where
    inserted : (zs : List String) → any_of p (insert_string x zs) ≡ (p x || any_of p zs)
    inserted [] = refl
    inserted (z ∷ zs) = ground (arith, inserted zs)

any_of-sorted : (p : String → Bool) (xs : List String) → any_of p (sorted_strings xs) ≡ any_of p xs
any_of-sorted p [] = refl
any_of-sorted p (x ∷ xs) = rw (any_of-insert p x xs, any_of-sorted p xs) refl

any_of-keep_if :
    (k : String) (q : String → Bool) (xs : List String)
    → any_of (str_eq k) (keep_if q xs) ≡ (any_of (str_eq k) xs && q k)
any_of-keep_if k q [] = refl
any_of-keep_if k q (x ∷ xs) = elim (Bool-cases (str_eq k x)) [
  | inl e ↦
      let is : x ≡ k = sym ((eq_iff k x).0 e) in
      rw is (elim (Bool-cases (q k)) [
        | inl f ↦ rw (f, eq_refl k) refl
        | inr f ↦ rw (f, eq_refl k) (ground (arith, any_of-keep_if k q xs))
      ])
  | inr e ↦ elim (Bool-cases (q x)) [
    | inl f ↦ rw (f, e) (any_of-keep_if k q xs)
    | inr f ↦ rw (f, e) (any_of-keep_if k q xs)
  ]
]

pub All-at :
    (P : String → Type 0) (k : String) (xs : List String)
    → All P xs
    → any_of (str_eq k) xs ≡ true
    → P k
All-at P k [] h m = cc
All-at P k (x ∷ xs) h m = elim (Bool-cases (str_eq k x)) [
  | inl e ↦ let is : k ≡ x = (eq_iff k x).0 e in rw is h.0
  | inr e ↦ All-at P k xs h.1 (rw e at m)
]

pub All-every {ℓ} : {A : Type ℓ} (P : A → Type 0) → ((x : A) → P x) → (xs : List A) → All P xs
All-every P h [] = tt
All-every P h (x ∷ xs) = (h x, All-every P h xs)

pub All-flat_map_of :
    {A B : Type 0} (P : B → Type 0) (f : A → List B) (xs : List A)
    → ((x : A) → All P (f x))
    → All P (flat_map f xs)
All-flat_map_of P f [] h = tt
All-flat_map_of P f (x ∷ xs) h = All-append P (f x) (flat_map f xs) (h x) (All-flat_map_of P f xs h)

module _ {N : Type 0} where
  get-null : (k : String) (f : Fields N) → any_of (str_eq k) (keys f) ≡ false → get k f ≡ null
  get-null k no_fields h = refl
  get-null k (field key v rest) h = elim (Bool-cases (str_eq k key)) [
    | inl e ↦ absurd (let q = rw e at h in cc)
    | inr e ↦
        let e' : str_eq key k ≡ false = ground (arith, eq_iff k key, eq_iff key k) in
        rw e' (get-null k rest (rw e at h))
  ]

  pub get-missing :
      (k : String) (f g : Fields N)
      → any_of (str_eq k) (all_keys f g) ≡ false
      → (get k f ≡ null) × (get k g ≡ null)
  get-missing k f g h =
      let h1 = rw (any_of-sorted (str_eq k) _) at h in
      let h2 = rw (any_of-append (str_eq k) (keys f) _) at h1 in
      let h3 = rw (any_of-keep_if k _ (keys g)) at h2 in
      elim (Bool-cases (any_of (str_eq k) (keys f))) [
        | inl e ↦ absurd (let q = rw e at h3 in cc)
        | inr e ↦ let q = rw e at h3 in (get-null k f e, get-null k g (ground arith))
      ]

  pub get_path-null : (path : List String) → get_path {N = N} path null ≡ null
  unfolding get_path
  get_path-null [] = refl
  get_path-null (part ∷ parts) = refl

  pub depth-get : (k : String) (f : Fields N) → depth (get k f) ≤ depth_fields f
  unfolding depth
  depth-get k no_fields = omega arith
  depth-get k (field key v rest) = elim (Bool-cases (str_eq key k)) [
    | inl e ↦ rw e (omega arith)
    | inr e ↦ rw e (omega (arith, depth-get k rest))
  ]
