-- ===== src/Schema/Measuring.antt =====
-- What the validator reads off a value is what conformance asks about.
use free_weight.Base.{
  ℕ, ◌≡◌, refl, ap, inl, inr, true, String, str_eq, eq_iff, some, arith, Bool-cases,
}
use free_weight.Json.{Json, null, boolean, number, string, array, object, Items, no_items, item}
use free_weight.Schema.{Library, is_type, measured_number, measured_text, measured_list, item_count}
use free_weight.Schema.Conformance.{HasType, IsNumber, HasLength, IsCount, HasItems}

module _ {N : Type 0} (l : Library N) where
  pub is_type-HasType : (v : Json N) (name : String) → is_type l v name ≡ true → HasType l v name
  unfolding is_type
  is_type-HasType null name h = ground (arith, eq_iff name "null")
  is_type-HasType (boolean b) name h = ground (arith, eq_iff name "boolean")
  is_type-HasType (number n) name h = elim (Bool-cases (str_eq name "number")) [
    | inl e ↦ inl ((eq_iff name "number").0 e)
    | inr e ↦ elim (Bool-cases (str_eq name "integer")) [
      | inl f ↦ inr ((eq_iff name "integer").0 f, ground arith)
      | inr f ↦ absurd (ground arith)
    ]
  ]
  is_type-HasType (string s) name h = ground (arith, eq_iff name "string")
  is_type-HasType (array xs) name h = ground (arith, eq_iff name "array")
  is_type-HasType (object f) name h = ground (arith, eq_iff name "object")

  pub HasType-is_type : (v : Json N) (name : String) → HasType l v name → is_type l v name ≡ true
  unfolding is_type
  HasType-is_type null name h = rw h refl
  HasType-is_type (boolean b) name h = rw h refl
  HasType-is_type (number n) name (inl h) = rw h refl
  HasType-is_type (number n) name (inr (h, whole)) = rw h whole
  HasType-is_type (string s) name h = rw h refl
  HasType-is_type (array xs) name h = rw h refl
  HasType-is_type (object f) name h = rw h refl

  pub IsNumber-measured : (v : Json N) (n : N) → IsNumber l v n → measured_number l v ≡ some n
  IsNumber-measured (number m) n h = ap some h
  IsNumber-measured (boolean b) n h = ap some h
  IsNumber-measured null n h = absurd h
  IsNumber-measured (string s) n h = absurd h
  IsNumber-measured (array xs) n h = absurd h
  IsNumber-measured (object f) n h = absurd h

  pub measured-IsNumber : (v : Json N) (n : N) → measured_number l v ≡ some n → IsNumber l v n
  measured-IsNumber (number m) n h = cc
  measured-IsNumber (boolean b) n h = cc
  measured-IsNumber null n h = cc
  measured-IsNumber (string s) n h = cc
  measured-IsNumber (array xs) n h = cc
  measured-IsNumber (object f) n h = cc

module _ {N : Type 0} where
  pub HasLength-measured : (v : Json N) (n : ℕ) → HasLength v n → measured_text v ≡ some n
  HasLength-measured (string s) n h = ap some h
  HasLength-measured null n h = absurd h
  HasLength-measured (boolean b) n h = absurd h
  HasLength-measured (number m) n h = absurd h
  HasLength-measured (array xs) n h = absurd h
  HasLength-measured (object f) n h = absurd h

  pub measured-HasLength : (v : Json N) (n : ℕ) → measured_text v ≡ some n → HasLength v n
  measured-HasLength (string s) n h = cc
  measured-HasLength null n h = cc
  measured-HasLength (boolean b) n h = cc
  measured-HasLength (number m) n h = cc
  measured-HasLength (array xs) n h = cc
  measured-HasLength (object f) n h = cc

  IsCount-counted : (xs : Items N) (n : ℕ) → IsCount xs n → item_count xs ≡ n
  IsCount-counted no_items n h = h
  IsCount-counted (item x xs) n (m, (e, h)) =
      let rest = IsCount-counted xs m h in omega (arith, e, rest)

  counted-IsCount : (xs : Items N) → IsCount xs (item_count xs)
  counted-IsCount no_items = refl
  counted-IsCount (item x xs) = (item_count xs, (refl, counted-IsCount xs))

  pub HasItems-measured : (v : Json N) (n : ℕ) → HasItems v n → measured_list v ≡ some n
  HasItems-measured (array xs) n h = ap some (IsCount-counted xs n h)
  HasItems-measured null n h = absurd h
  HasItems-measured (boolean b) n h = absurd h
  HasItems-measured (number m) n h = absurd h
  HasItems-measured (string s) n h = absurd h
  HasItems-measured (object f) n h = absurd h

  pub measured-HasItems : (v : Json N) (n : ℕ) → measured_list v ≡ some n → HasItems v n
  measured-HasItems (array xs) n h = let e : item_count xs ≡ n = cc in rw (← e) (counted-IsCount xs)
  measured-HasItems null n h = cc
  measured-HasItems (boolean b) n h = cc
  measured-HasItems (number m) n h = cc
  measured-HasItems (string s) n h = cc
  measured-HasItems (object f) n h = cc
