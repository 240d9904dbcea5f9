-- ===== src/Schema/Checks.antt =====
-- When the checks of one schema find nothing, each on its own.
use free_weight.Base.{
  ℕ, suc, ◌≡◌, ◌≢◌, refl, ap, inl, inr, Bool, true, false, not, String, sorted_strings,
  insert_string, str_leb, Option, none, some, List, [], ◌∷◌, ◌++◌, keep_if, All, append-empty,
  Bool-cases,
}
use free_weight.Json.{Json, Items, no_items, item}
use free_weight.Schema.{
  Segment, index, Violation, ViolationKind, Report, found, raised, chained, violation_if, breaks,
  breaks_in,
}
use free_weight.Schema.Validate.{each_item, reclassified}

pub chained→empty : (a b : Report) → chained a b ≡ found [] → (a ≡ found []) × (b ≡ found [])
chained→empty (found xs) (found ys) h =
    let q : xs ++ ys ≡ [] = cc in
    let parts = append-empty xs ys q in (ap found parts.0, ap found parts.1)
chained→empty (raised e) b h = cc
chained→empty (found xs) (raised e) h = cc

pub empty→chained : (a b : Report) → a ≡ found [] → b ≡ found [] → chained a b ≡ found []
empty→chained a b ha hb = rw (ha, hb) refl

pub found_empty : (xs : List Violation) → found xs ≡ found [] → xs ≡ []
found_empty xs h = cc

pub violation_if→false :
    (test : Bool) (path : List Segment) (kind : ViolationKind)
    → violation_if test path kind ≡ []
    → test ≡ false
violation_if→false true path kind h = cc
violation_if→false false path kind h = refl

pub not-false : (test : Bool) → not test ≡ false → test ≡ true
not-false true h = refl
not-false false h = cc

-- No limit is broken by what is measured.
abbrev pub Within : {A : Type 0} → (A → A → Bool) → Option A → Option A → Type 0
Within {A} outside limit measured =
    (m x : A) → limit ≡ some m → measured ≡ some x → outside x m ≡ false

pub breaks→Within :
    {A : Type 0} (outside : A → A → Bool) (limit measured : Option A)
    → breaks outside limit measured ≡ false
    → Within outside limit measured
breaks→Within outside (some a) (some b) h m x e f =
    let p : a ≡ m = cc in let q : b ≡ x = cc in rw (← p, ← q) h
breaks→Within outside none measured h m x e f = cc
breaks→Within outside (some a) none h m x e f = cc

pub Within→breaks :
    {A : Type 0} (outside : A → A → Bool) (limit measured : Option A)
    → Within outside limit measured
    → breaks outside limit measured ≡ false
Within→breaks outside (some a) (some b) h = h a b refl refl
Within→breaks outside none measured h = refl
Within→breaks outside (some a) none h = refl

pub breaks_in→each :
    {A : Type 0} (keyword : Option A) (test : A → Bool)
    → breaks_in keyword (λ a. not (test a)) ≡ false
    → (a : A) → keyword ≡ some a
    → test a ≡ true
breaks_in→each (some b) test h a e = let q : b ≡ a = cc in rw (← q) (not-false (test b) h)
breaks_in→each none test h a e = cc

pub each→breaks_in :
    {A : Type 0} (keyword : Option A) (test : A → Bool)
    → ((a : A) → keyword ≡ some a → test a ≡ true)
    → breaks_in keyword (λ a. not (test a)) ≡ false
each→breaks_in (some b) test h = rw (h b refl) refl
each→breaks_in none test h = refl

pub reclassified→empty : (test : Bool) (r : Report) → reclassified test r ≡ found [] → r ≡ found []
reclassified→empty false r h = h
reclassified→empty true (raised e) h = cc
reclassified→empty true (found []) h = refl
reclassified→empty true (found (v ∷ vs)) h = cc

insert_string-some : (a : String) (bs : List String) → insert_string a bs ≢ []
insert_string-some a [] h = cc
insert_string-some a (b ∷ bs) h = elim (Bool-cases (str_leb a b)) [
  | inl e ↦ let q = rw e at h in cc
  | inr e ↦ let q = rw e at h in cc
]

pub sorted_strings-empty : (xs : List String) → sorted_strings xs ≡ [] → xs ≡ []
sorted_strings-empty [] h = refl
sorted_strings-empty (x ∷ xs) h = absurd (insert_string-some x (sorted_strings xs) h)

pub keep_if→All :
    (test : String → Bool) (xs : List String)
    → keep_if (λ x. not (test x)) xs ≡ []
    → All (λ x. test x ≡ true) xs
keep_if→All test [] h = tt
keep_if→All test (x ∷ xs) h = elim (Bool-cases (test x)) [
  | inl e ↦ (e, keep_if→All test xs (rw e at h))
  | inr e ↦ absurd (let q = rw e at h in cc)
]

pub All→keep_if :
    (test : String → Bool) (xs : List String)
    → All (λ x. test x ≡ true) xs
    → keep_if (λ x. not (test x)) xs ≡ []
All→keep_if test [] h = refl
All→keep_if test (x ∷ xs) h = rw h.0 (All→keep_if test xs h.1)

pub All-map {ℓ κ} :
    {A : Type ℓ} {P Q : A → Type κ} → ((x : A) → P x → Q x) → (xs : List A) → All P xs → All Q xs
All-map f [] h = tt
All-map f (x ∷ xs) h = (f x h.0, All-map f xs h.1)

module _ {N : Type 0} where
  -- Every item of a list.
  abbrev pub AllItems : (Json N → Type 0) → Items N → Type 0
  AllItems P no_items = Unit
  AllItems P (item x xs) = P x × AllItems P xs

  pub each_item→AllItems :
      (P : Json N → Type 0) (check : Json N → List Segment → Report)
      → ((x : Json N) (path : List Segment) → check x path ≡ found [] → P x)
      → (i : ℕ) (xs : Items N) (path : List Segment) → each_item check i xs path ≡ found []
      → AllItems P xs
  each_item→AllItems P check ok i no_items path h = tt
  each_item→AllItems P check ok i (item x xs) path h =
      let parts = chained→empty (check x (index i ∷ path)) (each_item check (suc i) xs path) h in
      (ok x (index i ∷ path) parts.0, each_item→AllItems P check ok (suc i) xs path parts.1)

  pub AllItems→each_item :
      (P : Json N → Type 0) (check : Json N → List Segment → Report)
      → ((x : Json N) (path : List Segment) → P x → check x path ≡ found [])
      → (i : ℕ) (xs : Items N) (path : List Segment) → AllItems P xs
      → each_item check i xs path ≡ found []
  AllItems→each_item P check ok i no_items path h = refl
  AllItems→each_item P check ok i (item x xs) path h =
      empty→chained _ _ (ok x (index i ∷ path) h.0)
        (AllItems→each_item P check ok (suc i) xs path h.1)
