-- ===== src/Judging/Verdicts.antt =====
-- agreement_rate and majority_choice of domain/judging.py, over a Counter that keeps the order in which
-- its keys were first seen. The rate is the fraction (most votes, usable votes).
use free_weight.Base.{
  ℕ, suc, ◌==◌, leb, Bool, true, false, not, Option, none, some, List, [], ◌∷◌, length, keep_if,
  if◌then◌else◌,
}
use free_weight.Judging.{JudgeChoice, first, second, tie, unparseable}

abbrev pub choice_eq : JudgeChoice → JudgeChoice → Bool
choice_eq first first = true
choice_eq second second = true
choice_eq tie tie = true
choice_eq unparseable unparseable = true
choice_eq _ _ = false

abbrev pub is_usable : JudgeChoice → Bool
is_usable c = not (choice_eq c unparseable)

abbrev pub Counts : Type 0
Counts = List (JudgeChoice × ℕ)

-- `counts[choice] += 1`
abbrev pub add_one : JudgeChoice → Counts → Counts
add_one c [] = (c, 1) ∷ []
add_one c ((d, n) ∷ rest) = if choice_eq c d then (d, suc n) ∷ rest else (d, n) ∷ add_one c rest

-- `Counter(usable)`, on top of the counts so far
unfoldable pub counter : Counts → List JudgeChoice → Counts
counter counts [] = counts
counter counts (c ∷ cs) = counter (add_one c counts) cs

abbrev pub insert_count : JudgeChoice × ℕ → Counts → Counts
insert_count e [] = e ∷ []
insert_count e (d ∷ ds) = if leb d.1 e.1 then e ∷ d ∷ ds else d ∷ insert_count e ds

-- `counts.most_common()`: by count, the largest first, and equal counts in the order first seen.
abbrev pub most_common : Counts → Counts
most_common [] = []
most_common (e ∷ es) = insert_count e (most_common es)

-- The last three lines of `majority_choice`; a Counter of something is not empty.
abbrev pub top_choice : Counts → JudgeChoice
top_choice [] = unparseable
top_choice (e ∷ []) = e.0
top_choice (e ∷ d ∷ rest) = if e.1 == d.1 then tie else e.0

abbrev pub usable_of : List JudgeChoice → List JudgeChoice
usable_of = keep_if is_usable

abbrev pub is_nil : List JudgeChoice → Bool
is_nil [] = true
is_nil (_ ∷ _) = false

unfoldable pub majority_choice : List JudgeChoice → JudgeChoice
unfolding counter
majority_choice choices =
    if is_nil (usable_of choices)
    then unparseable
    else top_choice (most_common (counter [] (usable_of choices)))

abbrev pub top_count : Counts → ℕ
top_count [] = 0
top_count (e ∷ _) = e.1

unfoldable pub agreement_rate : List JudgeChoice → Option (ℕ × ℕ)
unfolding counter
agreement_rate choices =
    if is_nil (usable_of choices)
    then none
    else some (top_count (most_common (counter [] (usable_of choices))), length (usable_of choices))
