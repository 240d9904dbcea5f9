-- ===== src/Judging/Blinding.antt =====
-- blind_labels, presentation_orders and present of domain/judging.py: what a judge is shown.
use free_weight.Base.{
  ℕ, zero, suc, ◌≤◌, ◌<◌, ◌==◌, leb, ltb, ◌≡◌, refl, ap, ◌∙◌, true, false, not, String, Option,
  none, some, List, [], ◌∷◌, map, length, take, get_elem?, any_of, All, if◌then◌else◌, arith,
}

abbrev pub blind_alphabet : List String
blind_alphabet = "A" ∷ "B" ∷ "C" ∷ "D" ∷ "E" ∷ "F" ∷ "G" ∷ "H" ∷ []

pub record BlindedPresentation : Type 0 where
  pub labels : List String
  pub texts : List String
  pub subjects : List String

-- Nothing is the ValueError, here and below.
unfoldable pub blind_labels : List String → Option (List String)
blind_labels subjects =
    if ltb (length blind_alphabet) (length subjects)
    then none
    else some (take (length subjects) blind_alphabet)

abbrev pub range : ℕ → List ℕ
range zero = []
range (suc n) = zero ∷ map suc (range n)

unfoldable pub presentation_orders : List String → Option (List (List ℕ))
presentation_orders subjects =
    if ltb 2 (length subjects)
    then none
    else if ltb (length subjects) 2
    then some (range (length subjects) ∷ [])
    else some ((0 ∷ 1 ∷ []) ∷ (1 ∷ 0 ∷ []) ∷ [])

-- `values[position]`, at a position that has been checked.
abbrev pub value_at : List String → ℕ → String
value_at [] i = ""
value_at (x ∷ xs) zero = x
value_at (x ∷ xs) (suc i) = value_at xs i

abbrev pub shown : Option (List String) → List String → List String → Option BlindedPresentation
shown none texts subjects = none
shown (some labels) texts subjects =
    some (record { labels = labels; texts = texts; subjects = subjects })

unfoldable pub present : List String → List String → List ℕ → Option BlindedPresentation
unfolding blind_labels
present subjects texts order =
    if not (length subjects == length texts)
    then none
    else if any_of (λ position. leb (length subjects) position) order
    then none
    else shown (blind_labels (map (value_at subjects) order)) (map (value_at texts) order)
        (map (value_at subjects) order)

-- At each place of the order stand a label of its own, and the text and the identity of one subject.
pub record IsShown (identities answers : List String) (order : List ℕ) (p : BlindedPresentation)
    : Type 0 where
  pub labels : (i : ℕ) → i < length order → get_elem? p.labels i ≡ get_elem? blind_alphabet i
  pub texts : (i j : ℕ) → get_elem? order i ≡ some j → get_elem? p.texts i ≡ get_elem? answers j
  pub subjects :
      (i j : ℕ) → get_elem? order i ≡ some j → get_elem? p.subjects i ≡ get_elem? identities j

length-map : (f : ℕ → String) (is : List ℕ) → length (map f is) ≡ length is
length-map f [] = refl
length-map f (i ∷ is) = ap suc (length-map f is)

get_elem?-take : (n i : ℕ) (xs : List String) → i < n → get_elem? (take n xs) i ≡ get_elem? xs i
get_elem?-take zero i xs h = absurd (omega arith)
get_elem?-take (suc n) i [] h = refl
get_elem?-take (suc n) zero (x ∷ xs) h = refl
get_elem?-take (suc n) (suc i) (x ∷ xs) h = get_elem?-take n i xs (omega arith)

value_at-elem : (xs : List String) (i : ℕ) → i < length xs → some (value_at xs i) ≡ get_elem? xs i
value_at-elem [] i h = absurd (omega arith)
value_at-elem (x ∷ xs) zero h = refl
value_at-elem (x ∷ xs) (suc i) h = value_at-elem xs i (omega arith)

get_elem?-picked :
    (xs : List String) (order : List ℕ)
    → All (λ j. j < length xs) order
    → (i j : ℕ) → get_elem? order i ≡ some j
    → get_elem? (map (value_at xs) order) i ≡ get_elem? xs j
get_elem?-picked xs [] h i j e = cc
get_elem?-picked xs (k ∷ ks) h zero j e =
    let same : k ≡ j = cc in ap (λ n. some (value_at xs n)) same ∙ at_j same
  where
    at_j : k ≡ j → some (value_at xs j) ≡ get_elem? xs j
    at_j same = value_at-elem xs j (omega (arith, h.0, same))
get_elem?-picked xs (k ∷ ks) h (suc i) j e = get_elem?-picked xs ks h.1 i j e

none_outside :
    (n : ℕ) (order : List ℕ)
    → All (λ j. j < n) order
    → any_of (λ position. leb n position) order ≡ false
none_outside n [] h = refl
none_outside n (j ∷ js) h =
    let inside : leb n j ≡ false = let k : j < n = h.0 in ground arith in
    rw inside (none_outside n js h.1)

-- With one text per subject, positions that exist, and no more of them than the alphabet has letters,
-- a presentation is built, and at each of its places stand the letter of that place, the text and
-- the identity of the one subject that the order names there.
pub present-IsShown :
    (subjects texts : List String) (order : List ℕ)
    → length subjects ≡ length texts
    → All (λ j. j < length subjects) order
    → length order ≤ length blind_alphabet
    → (p : BlindedPresentation) × ((present subjects texts order ≡ some p)
        × IsShown subjects texts order p)
unfolding present blind_labels
present-IsShown subjects texts order paired inside few =
    let one_each : (length subjects == length texts) ≡ true = ground arith in
    let ordered = map (value_at subjects) order in
    let size = length-map (value_at subjects) order in
    let fits : ltb (length blind_alphabet) (length ordered) ≡ false = ground (arith, size) in
    let inside_texts : All (λ j. j < length texts) order = rw (← paired) inside in
    rw (one_each, none_outside (length subjects) order inside, fits)
      (
        _,
        (
          refl,
          record {
            labels =
                λ i h. get_elem?-take (length ordered) i blind_alphabet (omega (arith, size, h));
            texts = get_elem?-picked texts order inside_texts;
            subjects = get_elem?-picked subjects order inside;
          },
        ),
      )
