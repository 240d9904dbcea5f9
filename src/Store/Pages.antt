-- ===== src/Store/Pages.antt =====
-- The pages of a listing, one after the other, are the listing.
use free_weight.Base.{
  ℕ, zero, suc, ◌+◌, ◌≡◌, refl, ap, sym, ◌∙◌, inl, inr, Bool, true, String, Option, none, some,
  List, [], ◌∷◌, ◌++◌, take, drop, take-append-drop, keep_if, All, All-keep_if, arith, Bool-cases,
}
use mathlib.Core.Path.{subst}
use free_weight.Store.Rows.{Run}
use free_weight.Store.Keyed.{IsKeyed}
use free_weight.Store.Listing.{
  Filters, where_given, passes, comes_after, cursor_of, newest_first, list_runs,
}
use free_weight.Store.Newest.{
  IsListed, newest_first-IsListed, keep_if-IsKeyed, newest_first-keep_if, comes_after_trans,
  comes_after_irrefl, comes_after_asymm,
}

keep_if-implied :
    (p q : Run → Bool) (rs : List Run)
    → ((r : Run) → q r ≡ true → p r ≡ true)
    → keep_if q (keep_if p rs) ≡ keep_if q rs
keep_if-implied p q [] h = refl
keep_if-implied p q (r ∷ rs) h = elim (Bool-cases (p r)) [
  | inl e ↦ elim (Bool-cases (q r)) [
    | inl f ↦ rw (e, f) (ap (λ l. r ∷ l) (keep_if-implied p q rs h))
    | inr f ↦ rw (e, f) (keep_if-implied p q rs h)
  ]
  | inr e ↦ elim (Bool-cases (q r)) [
    | inl f ↦ absurd (let g = h r f in cc)
    | inr f ↦ rw (e, f) (keep_if-implied p q rs h)
  ]
]

kept_pass : (p : Run → Bool) (rs : List Run) → All (λ r. p r ≡ true) (keep_if p rs)
kept_pass p [] = tt
kept_pass p (r ∷ rs) = elim (Bool-cases (p r)) [
  | inl e ↦ rw e (e, kept_pass p rs)
  | inr e ↦ rw e (kept_pass p rs)
]

keep_if-every : (p : Run → Bool) (rs : List Run) → All (λ r. p r ≡ true) rs → keep_if p rs ≡ rs
keep_if-every p [] h = refl
keep_if-every p (r ∷ rs) h = rw h.0 (ap (λ l. r ∷ l) (keep_if-every p rs h.1))

-- Of a listing, what comes after one of its runs is what follows it.
keep_if-rest :
    (front : List Run) (r : Run) (rest : List Run)
    → IsListed (front ++ r ∷ rest)
    → keep_if (comes_after (cursor_of r)) (front ++ r ∷ rest) ≡ rest
keep_if-rest [] r rest h =
    rw (comes_after_irrefl r) (keep_if-every (comes_after (cursor_of r)) rest h.0)
keep_if-rest (x ∷ xs) r rest h =
    let behind = comes_after_asymm x r (here xs h.0) in rw behind (keep_if-rest xs r rest h.1)
  where
    here :
        (ys : List Run)
        → All (λ s. comes_after (cursor_of x) s ≡ true) (ys ++ r ∷ rest)
        → comes_after (cursor_of x) r ≡ true
    here [] k = k.0
    here (y ∷ ys) k = here ys k.1

member_at :
    (P : Run → Type 0) (front : List Run) (r : Run) (rest : List Run)
    → All P (front ++ r ∷ rest)
    → P r
member_at P [] r rest h = h.0
member_at P (x ∷ xs) r rest h = member_at P xs r rest h.1

keep_if-IsListed : (p : Run → Bool) (rs : List Run) → IsListed rs → IsListed (keep_if p rs)
keep_if-IsListed p [] h = tt
keep_if-IsListed p (r ∷ rs) h = elim (Bool-cases (p r)) [
  | inl e ↦ rw e (All-keep_if _ p rs h.0, keep_if-IsListed p rs h.1)
  | inr e ↦ rw e (keep_if-IsListed p rs h.1)
]

append-cons :
    (front : List Run) (r : Run) (rest : List Run) → (front ++ r ∷ []) ++ rest ≡ front ++ r ∷ rest
append-cons [] r rest = refl
append-cons (x ∷ xs) r rest = ap (λ l. x ∷ l) (append-cons xs r rest)

take-nil : (n : ℕ) → take {A = Run} n [] ≡ []
take-nil zero = refl
take-nil (suc n) = refl

take-add : (a b : ℕ) (rs : List Run) → take a rs ++ take b (drop a rs) ≡ take (a + b) rs
take-add zero b rs = ap (λ n. take n rs) (omega arith)
take-add (suc a) b [] = take-nil b ∙ sym (take-nil (suc a + b))
take-add (suc a) b (r ∷ rs) =
    let e : suc a + b ≡ suc (a + b) = omega arith in rw e (ap (λ l. r ∷ l) (take-add a b rs))

still_shown :
    (after : Option (ℕ × String)) (r s : Run)
    → where_given after (λ cursor. comes_after cursor r) ≡ true
    → comes_after (cursor_of r) s ≡ true
    → where_given after (λ cursor. comes_after cursor s) ≡ true
still_shown none r s h k = refl
still_shown (some cursor) r s h k = comes_after_trans cursor r s h k

module _ (f : Filters) (after : Option (ℕ × String)) (runs : List Run) (keyed : IsKeyed runs) where
  abbrev shown : Run → Bool
  shown r = where_given after (λ cursor. comes_after cursor r)

  -- Every run that the filters let pass, newest first.
  abbrev whole : List Run
  whole = newest_first (keep_if (passes f) runs)

  passes-IsKeyed : IsKeyed (keep_if (passes f) runs)
  passes-IsKeyed = keep_if-IsKeyed (passes f) runs keyed

  listed_from :
      (cursor : Option (ℕ × String)) (limit : ℕ)
      → list_runs f cursor limit runs
        ≡ take limit (keep_if (λ r. where_given cursor (λ c. comes_after c r)) whole)
  unfolding list_runs
  listed_from cursor limit =
      ap (take limit) (newest_first-keep_if _ (keep_if (passes f) runs) passes-IsKeyed)

  -- A page that ends in a run, with the page that follows that run, is the page of both sizes
  -- together: no run is left out between them and none is repeated, if run ids are unique.
  pub list_runs-append :
      (limit next : ℕ) (front : List Run) (r : Run)
      → list_runs f after limit runs ≡ front ++ r ∷ []
      → list_runs f after limit runs ++ list_runs f (some (cursor_of r)) next runs
        ≡ list_runs f after (limit + next) runs
  list_runs-append limit next front r page =
      let here = keep_if shown whole in
      let rest = drop limit here in
      let first : take limit here ≡ front ++ r ∷ [] = sym (listed_from after limit) ∙ page in
      let split : here ≡ front ++ r ∷ rest =
        sym (take-append-drop limit here)
        ∙ (ap (λ l. l ++ rest) first ∙ append-cons front r rest) in
      let listed =
        keep_if-IsListed shown whole
          (newest_first-IsListed (keep_if (passes f) runs) passes-IsKeyed) in
      let r_shown =
        member_at (λ s. shown s ≡ true) front r rest
          (subst (All (λ s. shown s ≡ true)) split (kept_pass shown whole)) in
      let behind : keep_if (comes_after (cursor_of r)) here ≡ rest =
        ap (keep_if (comes_after (cursor_of r))) split
        ∙ keep_if-rest front r rest (subst IsListed split listed) in
      let same =
        keep_if-implied shown (comes_after (cursor_of r)) whole
          (λ s. still_shown after r s r_shown) in
      let second : list_runs f (some (cursor_of r)) next runs ≡ take next rest =
        listed_from (some (cursor_of r)) next ∙ ap (take next) (sym same ∙ behind) in
      rw second (
        ap (λ l. l ++ take next rest) (listed_from after limit)
        ∙ (take-add limit next here ∙ sym (listed_from after (limit + next))))
