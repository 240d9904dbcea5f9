-- ===== src/Calibration.antt =====
-- partition_samples of domain/calibration.py: the split of the author's graded samples. A grade is a
-- natural number. `Chance` stands for what the code takes from Python: round() of a share of a
-- number, for the holdout fraction, and the shuffle that random.Random does for a seed and a grade.
pub mod Split
mod Counting
mod Strata
mod Examples
use free_weight.Base.{
  ℕ, ◌-◌, ◌==◌, ltb, Bool, true, false, ◌&&◌, String, str_eq, str_leb, sorted_strings, Option, none,
  some, List, [], ◌∷◌, ◌++◌, map, length, take, drop, any_of, sort_by, if◌then◌else◌,
}

abbrev pub Stratum : Type 0
Stratum = ℕ × List String

pub record Partition : Type 0 where
  pub anchors : List String
  pub holdout : List String
  pub seed : ℕ
  pub strata : List (ℕ × ℕ)

-- `label`; nothing is the KeyError.
unfoldable pub label : Partition → String → Option String
label p sample_id =
    if any_of (str_eq sample_id) p.anchors
    then some "anchor"
    else if any_of (str_eq sample_id) p.holdout
    then some "holdout"
    else none

pub record Chance : Type 0 where
  -- `0.0 < holdout_fraction < 1.0`
  pub is_share : Bool
  -- `round(n * holdout_fraction)`
  pub share_of : ℕ → ℕ
  -- The shuffle seeded with `f"{seed}:{grade}"`.
  pub shuffled : ℕ → ℕ → List String → List String

-- `sorted(graded.items())`, where no two items have one key.
abbrev pub insert_item : String × ℕ → List (String × ℕ) → List (String × ℕ)
insert_item a [] = a ∷ []
insert_item a (b ∷ bs) = if str_leb a.0 b.0 then a ∷ b ∷ bs else b ∷ insert_item a bs

abbrev pub sorted_items : List (String × ℕ) → List (String × ℕ)
sorted_items [] = []
sorted_items (a ∷ as_) = insert_item a (sorted_items as_)

-- `strata.setdefault(grade, []).append(sample_id)`
abbrev pub add_sample : ℕ → String → List Stratum → List Stratum
add_sample grade sample_id [] = (grade, sample_id ∷ []) ∷ []
add_sample grade sample_id ((g, members) ∷ rest) =
    if g == grade
    then (g, members ++ sample_id ∷ []) ∷ rest
    else (g, members) ∷ add_sample grade sample_id rest

-- The loop that fills `strata`.
unfoldable pub fill_strata : List (String × ℕ) → List Stratum → List Stratum
fill_strata [] strata = strata
fill_strata ((sample_id, grade) ∷ rest) strata =
    fill_strata rest (add_sample grade sample_id strata)

abbrev pub at_least_one : ℕ → ℕ → ℕ
at_least_one n wanted = if wanted == 0 && ltb 1 n then 1 else wanted

abbrev pub not_all : ℕ → ℕ → ℕ
not_all n wanted = if wanted == n && ltb 1 n then n - 1 else wanted

-- How many of a stratum of `n` are withheld.
unfoldable pub wanted_of : Chance → ℕ → ℕ
wanted_of c n = not_all n (at_least_one n (c.share_of n))

-- `(anchors, holdout)` of the loop over the strata.
unfoldable pub split_strata : Chance → ℕ → List Stratum → List String × List String
unfolding wanted_of
split_strata c seed [] = ([], [])
split_strata c seed ((grade, members) ∷ rest) =
    let mixed = c.shuffled seed grade members in
    let wanted = wanted_of c (length mixed) in
    let later = split_strata c seed rest in
    (drop wanted mixed ++ later.0, take wanted mixed ++ later.1)

-- `sorted(strata)`
abbrev pub by_grade : List Stratum → List Stratum
by_grade = sort_by (λ (s : Stratum). s.0)

-- partition_samples; nothing is the ValueError.
unfoldable pub partition_samples : Chance → List (String × ℕ) → ℕ → Option Partition
unfolding fill_strata split_strata
partition_samples c graded seed =
    let strata = by_grade (fill_strata (sorted_items graded) []) in
    let (anchors, holdout) = split_strata c seed strata in
    if c.is_share
    then some (record {
      anchors = sorted_strings anchors;
      holdout = sorted_strings holdout;
      seed = seed;
      strata = map (λ (s : Stratum). (s.0, length s.1)) strata;
    })
    else none
