-- ===== src/Base/Order.antt =====
-- The order of texts by their characters' numbers.
use Prim.Native.Nat.{ℕ, Ordering, compare as compare_ℕ}
use Prim.Native.Char.{code}
use Prim.Native.String.{String, [], ◌∷◌, then, compare}
use Prim.Native.String.compare
use mathlib.Core.Path.{◌≡◌, refl, sym, ◌∙◌}
use mathlib.Core.Logic.{◌⊎◌, inl, inr}
use mathlib.Core.Bool.{Bool, true, false}
use native.Mathlib.Omega.{arith}
use text.Mathlib.TextEquality.{path_by_compare}
use text.Mathlib.TextPositions.{compare_refl}

abbrev is_lt : Ordering → Bool
is_lt Ordering.lt = true
is_lt _ = false

abbrev pub text_lt : String → String → Bool
text_lt a b = is_lt (compare a b)

then_trans :
    (a b c : ℕ) (x y z : Ordering)
    → (x ≡ Ordering.lt → y ≡ Ordering.lt → z ≡ Ordering.lt)
    → then (compare_ℕ a b) x ≡ Ordering.lt
    → then (compare_ℕ b c) y ≡ Ordering.lt
    → then (compare_ℕ a c) z ≡ Ordering.lt
then_trans a b c x y z rest h k = ground arith

then_flip :
    (a b : ℕ) (x y : Ordering)
    → (x ≡ Ordering.gt → y ≡ Ordering.lt)
    → then (compare_ℕ a b) x ≡ Ordering.gt
    → then (compare_ℕ b a) y ≡ Ordering.lt
then_flip a b x y rest h = ground arith

compare_trans :
    (r s t : String)
    → compare r s ≡ Ordering.lt
    → compare s t ≡ Ordering.lt
    → compare r t ≡ Ordering.lt
compare_trans [] [] t h k = absurd (let q = sym compare.nil-nil ∙ h in cc)
compare_trans [] (d ∷ s) [] h k = absurd (let q = sym (compare.cons-nil d s) ∙ k in cc)
compare_trans [] (d ∷ s) (e ∷ t) h k = compare.nil-cons e t
compare_trans (c ∷ r) [] t h k = absurd (let q = sym (compare.cons-nil c r) ∙ h in cc)
compare_trans (c ∷ r) (d ∷ s) [] h k = absurd (let q = sym (compare.cons-nil d s) ∙ k in cc)
compare_trans (c ∷ r) (d ∷ s) (e ∷ t) h k =
    compare.cons-cons c e r t
    ∙ then_trans (code c) (code d) (code e) (compare r s) (compare s t) (compare r t)
        (compare_trans r s t) (sym (compare.cons-cons c d r s) ∙ h)
        (sym (compare.cons-cons d e s t) ∙ k)

compare_flip : (s t : String) → compare s t ≡ Ordering.gt → compare t s ≡ Ordering.lt
compare_flip [] [] h = absurd (let q = sym compare.nil-nil ∙ h in cc)
compare_flip [] (d ∷ t) h = absurd (let q = sym (compare.nil-cons d t) ∙ h in cc)
compare_flip (c ∷ s) [] h = compare.nil-cons c s
compare_flip (c ∷ s) (d ∷ t) h =
    compare.cons-cons d c t s
    ∙ then_flip (code c) (code d) (compare s t) (compare t s) (compare_flip s t)
        (sym (compare.cons-cons c d s t) ∙ h)

is_lt-lt : (o : Ordering) → is_lt o ≡ true → o ≡ Ordering.lt
is_lt-lt Ordering.lt h = refl
is_lt-lt Ordering.eq h = cc
is_lt-lt Ordering.gt h = cc

pub text_lt_trans : (r s t : String) → text_lt r s ≡ true → text_lt s t ≡ true → text_lt r t ≡ true
text_lt_trans r s t h k =
    rw (compare_trans r s t (is_lt-lt (compare r s) h) (is_lt-lt (compare s t) k)) refl

pub text_lt_irrefl : (s : String) → text_lt s s ≡ false
text_lt_irrefl s = rw (compare_refl s) refl

pub text_lt_total : (s t : String) → (s ≡ t) ⊎ ((text_lt s t ≡ true) ⊎ (text_lt t s ≡ true))
text_lt_total s t = by_order (compare s t) refl
  where
    by_order :
        (o : Ordering) → compare s t ≡ o → (s ≡ t) ⊎ ((text_lt s t ≡ true) ⊎ (text_lt t s ≡ true))
    by_order Ordering.lt e = inr (inl (rw e refl))
    by_order Ordering.eq e = inl (path_by_compare s t e)
    by_order Ordering.gt e = inr (inr (rw (compare_flip s t e) refl))
