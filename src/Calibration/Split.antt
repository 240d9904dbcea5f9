-- ===== src/Calibration/Split.antt =====
-- The two halves of a partition.
use free_weight.Base.{
  ℕ, suc, ◌+◌, ◌≤◌, ◌<◌, ◌==◌, ==_iff, ◌≡◌, refl, ap, sym, ◌∙◌, inl, inr, Bool, true, String,
  str_eq, some, List, [], ◌∷◌, length, take, drop, length-take-le, length-drop, count_if,
  count_if-le, any_of, All, sort_by-All, arith, Bool-cases,
}
use free_weight.Calibration.{
  Stratum, Partition, Chance, sorted_items, fill_strata, by_grade, split_strata, wanted_of,
  partition_samples,
}
use free_weight.Calibration.Counting.{
  count_if-append, count_if-split, count_if-sorted, count_if-sorted_items, in_strata,
  in_strata-graded,
}
use free_weight.Calibration.Strata.{
  is_graded, size_at, is_large, IsGraded, size_at-fill, size_at-large, any_of-by_grade,
  fill_strata-IsGraded, sorted_items-WasGraded, each-WasGraded,
}

-- The shuffle keeps the samples, and a share of a number is not more than the number.
pub record IsFair (c : Chance) : Type 0 where
  pub keeps :
      (test : String → Bool) (seed grade : ℕ) (xs : List String)
      → count_if test (c.shuffled seed grade xs) ≡ count_if test xs
  pub share-le : (n : ℕ) → c.share_of n ≤ n

-- What a partition of these graded samples promises.
pub record IsPartition (graded : List (String × ℕ)) (p : Partition) : Type 0 where
  -- Each sample stands in one of the halves, as often as it was graded.
  pub whole :
      (id : String)
      → count_if (str_eq id) p.anchors + count_if (str_eq id) p.holdout
        ≡ count_if (λ (e : String × ℕ). str_eq id e.0) graded
  -- A grade that two samples have is in both halves.
  pub spans :
      (grade : ℕ)
      → 2 ≤ count_if (λ (e : String × ℕ). e.1 == grade) graded
      → (0 < count_if (is_graded grade graded) p.anchors)
        × (0 < count_if (is_graded grade graded) p.holdout)

count_if-All :
    (q : String → Bool) (xs : List String) → All (λ x. q x ≡ true) xs → count_if q xs ≡ length xs
count_if-All q [] h = refl
count_if-All q (x ∷ xs) h = rw h.0 (ap suc (count_if-All q xs h.1))

count_if-true : (xs : List String) → count_if (λ x. true) xs ≡ length xs
count_if-true [] = refl
count_if-true (x ∷ xs) = ap suc (count_if-true xs)

wanted_of-between :
    (c : Chance) (n : ℕ) → c.share_of n ≤ n → 2 ≤ n → (0 < wanted_of c n) × (wanted_of c n < n)
unfolding wanted_of
wanted_of-between c n le big = ground arith

module _ (c : Chance) (fair : IsFair c) (seed : ℕ) where
  split_strata-whole :
      (p : String → Bool) (ss : List Stratum)
      → count_if p (split_strata c seed ss).0 + count_if p (split_strata c seed ss).1
        ≡ in_strata p ss
  unfolding split_strata
  split_strata-whole p [] = omega arith
  split_strata-whole p ((g, members) ∷ ss) =
      let mixed = c.shuffled seed g members in
      let w = wanted_of c (length mixed) in
      let later = split_strata c seed ss in
      omega (
        arith,
        count_if-append p (drop w mixed) later.0,
        count_if-append p (take w mixed) later.1,
        count_if-split p w mixed,
        fair.keeps p seed g members,
        split_strata-whole p ss,
      )

  -- A stratum with two members of which a test holds throughout has one in each half.
  stratum_spans :
      (q : String → Bool) (g : ℕ) (members : List String)
      → All (λ x. q x ≡ true) members
      → 2 ≤ length members
      → let mixed = c.shuffled seed g members in
        let w = wanted_of c (length mixed) in
        (0 < count_if q (drop w mixed)) × (0 < count_if q (take w mixed))
  stratum_spans q g members h big =
      let mixed = c.shuffled seed g members in
      let w = wanted_of c (length mixed) in
      let all : count_if q mixed ≡ length mixed =
        fair.keeps q seed g members
        ∙ (count_if-All q members h
            ∙ (sym (count_if-true members)
                ∙ (sym (fair.keeps (λ x. true) seed g members) ∙ count_if-true mixed))) in
      let size : length mixed ≡ length members =
        sym (count_if-true mixed)
        ∙ (fair.keeps (λ x. true) seed g members ∙ count_if-true members) in
      let between =
        wanted_of-between c (length mixed) (fair.share-le (length mixed))
          (omega (arith, size, big)) in
      let split = count_if-split q w mixed in
      let dropped = count_if-le q (drop w mixed) in
      let taken = count_if-le q (take w mixed) in
      let taken_le = length-take-le w mixed in
      let left = length-drop w mixed in
      (
        omega (arith, split, all, taken, taken_le, between.1),
        omega (arith, split, all, dropped, left, between.0, between.1),
      )

  split_strata-spans :
      (grade : ℕ) (graded : List (String × ℕ)) (ss : List Stratum)
      → All (IsGraded graded) ss
      → any_of (is_large grade) ss ≡ true
      → (0 < count_if (is_graded grade graded) (split_strata c seed ss).0)
        × (0 < count_if (is_graded grade graded) (split_strata c seed ss).1)
  unfolding split_strata
  split_strata-spans grade graded [] h large = cc
  split_strata-spans grade graded ((g, members) ∷ ss) h large =
      let q = is_graded grade graded in
      let mixed = c.shuffled seed g members in
      let w = wanted_of c (length mixed) in
      let later = split_strata c seed ss in
      let a = count_if-append q (drop w mixed) later.0 in
      let b = count_if-append q (take w mixed) later.1 in
      elim (Bool-cases (is_large grade (g, members))) [
        | inl e ↦
            let is : g ≡ grade = (==_iff g grade).0 (ground arith) in
            let big : 2 ≤ length members = ground arith in
            let members_graded = rw is at h.0 in
            let here = stratum_spans q g members members_graded big in
            (omega (arith, a, here.0), omega (arith, b, here.1))
        | inr e ↦
            let rest = split_strata-spans grade graded ss h.1 (rw e at large) in
            (omega (arith, a, rest.0), omega (arith, b, rest.1))
      ]

-- Where the holdout fraction is a proper share, the shuffle keeps the samples and a share of a number
-- is not more than it, the graded samples are partitioned: each is in exactly one half, as often as
-- it was graded, and every grade that two samples or more have is among the anchors and in the
-- holdout.
pub partition_samples-IsPartition :
    (c : Chance) (graded : List (String × ℕ)) (seed : ℕ)
    → IsFair c
    → c.is_share ≡ true
    → (p : Partition) × ((partition_samples c graded seed ≡ some p) × IsPartition graded p)
unfolding partition_samples
partition_samples-IsPartition c graded seed fair share =
    let strata = by_grade (fill_strata (sorted_items graded) []) in
    let halves = split_strata c seed strata in
    rw share (
      _,
      (
        refl,
        record {
          whole = λ id. omega (
            arith,
            count_if-sorted (str_eq id) halves.0,
            count_if-sorted (str_eq id) halves.1,
            split_strata-whole c fair seed (str_eq id) strata,
            in_strata-graded (str_eq id) graded,
          );
          spans = λ grade two.
              let q = is_graded grade graded in
              let size : 2 ≤ size_at grade (fill_strata (sorted_items graded) []) = omega (
                arith,
                two,
                size_at-fill grade (sorted_items graded) [],
                count_if-sorted_items (λ (e : String × ℕ). e.1 == grade) graded,
              ) in
              let large =
                any_of-by_grade (is_large grade) (fill_strata (sorted_items graded) [])
                  (size_at-large grade (fill_strata (sorted_items graded) []) size) in
              let all_graded =
                sort_by-All (λ (s : Stratum). s.0) (IsGraded graded)
                  (fill_strata (sorted_items graded) [])
                  (fill_strata-IsGraded graded (sorted_items graded) []
                    (sorted_items-WasGraded graded graded (each-WasGraded graded)) tt) in
              let both = split_strata-spans c fair seed grade graded strata all_graded large in
              (
                omega (arith, count_if-sorted q halves.0, both.0),
                omega (arith, count_if-sorted q halves.1, both.1),
              );
        },
      ),
    )
