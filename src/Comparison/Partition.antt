-- ===== src/Comparison/Partition.antt =====
-- The groups are a partition of the subjects, and each may be merged throughout.
use free_weight.Base.{
  ℕ, suc, ◌+◌, ◌≡◌, refl, ap, ◌∙◌, inl, inr, Bool, true, ◌&&◌, ◌||◌, String, Option, none, some,
  List, [], ◌∷◌, ◌++◌, map, any_of, count_if, All, All-append, arith, str_eq, Bool-cases,
  Option-cases,
}
use free_weight.Comparison.Verdicts.{MetricKind, ComparisonSubject, Core, PairVerdict, may_merge}
use free_weight.Comparison.Groups.{
  pair_verdicts, by_pair, mergeable, is_cleared, fits, with_group, join, Grouping, joined,
  group_all, ungrouped, ComparisonGroup, number_groups, separation_at, group_subjects,
}

abbrev pub members_of : List (List String) → List String
members_of [] = []
members_of (g ∷ gs) = g ++ members_of gs

abbrev pub occurrences : String → List String → ℕ
occurrences k ids = count_if (str_eq k) ids

occurrences-append :
    (k : String) (xs ys : List String)
    → occurrences k (xs ++ ys) ≡ occurrences k xs + occurrences k ys
occurrences-append k [] ys = omega arith
occurrences-append k (x ∷ xs) ys = ground (arith, occurrences-append k xs ys)

members_of-append :
    (k : String) (gs hs : List (List String))
    → occurrences k (members_of (gs ++ hs))
      ≡ occurrences k (members_of gs) + occurrences k (members_of hs)
members_of-append k [] hs = omega arith
members_of-append k (g ∷ gs) hs = omega (
  arith,
  members_of-append k gs hs,
  occurrences-append k g (members_of (gs ++ hs)),
  occurrences-append k g (members_of gs),
)

abbrev pub ids_of_groups : List ComparisonGroup → List (List String)
ids_of_groups = map (λ (g : ComparisonGroup). g.members)

module _ {N : Type 0} where
  -- Some verdict on the two runs, in either order, lets them merge.
  abbrev pub is_on : String → String → PairVerdict N → Bool
  is_on a b v =
      may_merge v
      && ((str_eq v.left a && str_eq v.right b) || (str_eq v.left b && str_eq v.right a))

  abbrev pub MayMerge : List (PairVerdict N) → String → String → Type 0
  MayMerge verdicts a b = any_of (is_on a b) verdicts ≡ true

  -- So for every two members of a group.
  abbrev pub AllMerge : List (PairVerdict N) → List String → Type 0
  AllMerge verdicts [] = Unit
  AllMerge verdicts (id ∷ ids) =
      All (λ later. MayMerge verdicts later id) ids × AllMerge verdicts ids

  by_pair-MayMerge :
      (verdicts : List (PairVerdict N)) (a b : String) (v : PairVerdict N)
      → by_pair verdicts a b ≡ some v
      → may_merge v ≡ true
      → (MayMerge verdicts a b) × (MayMerge verdicts b a)
  unfolding by_pair
  by_pair-MayMerge [] a b v h m = cc
  by_pair-MayMerge (w ∷ vs) a b v h m = elim (Option-cases (by_pair vs a b)) [
    | inr (x, e) ↦
        let same : x ≡ v = some_inj (rw e at h) in
        let rest = by_pair-MayMerge vs a b v (e ∙ ap some same) m in ground arith
    | inl e ↦ elim (Bool-cases (str_eq w.left a && str_eq w.right b)) [
      | inl f ↦
          let same : w ≡ v = some_inj (rw (e, f) at h) in
          let m' : may_merge w ≡ true = rw same m in ground arith
      | inr f ↦ absurd (let q = rw (e, f) at h in cc)
    ]
  ]
    where
      some_inj : {x y : PairVerdict N} → some x ≡ some y → x ≡ y
      some_inj h = cc

  cleared-MayMerge :
      (verdicts : List (PairVerdict N)) (a b : String)
      → is_cleared (mergeable verdicts a b) ≡ true
      → MayMerge verdicts a b
  unfolding mergeable
  cleared-MayMerge verdicts a b h = elim (Option-cases (by_pair verdicts a b)) [
    | inr (v, e) ↦ (by_pair-MayMerge verdicts a b v e (rw e at h)).0
    | inl e ↦ elim (Option-cases (by_pair verdicts b a)) [
      | inr (v, f) ↦ (by_pair-MayMerge verdicts b a v f (rw (e, f) at h)).1
      | inl f ↦ absurd (let q = rw (e, f) at h in cc)
    ]
  ]

  -- A member that fits joins a group throughout which any two may merge.
  AllMerge-snoc :
      (verdicts : List (PairVerdict N)) (id : String) (members : List String)
      → AllMerge verdicts members
      → fits verdicts id members ≡ true
      → AllMerge verdicts (members ++ id ∷ [])
  AllMerge-snoc verdicts id [] h f = (tt, tt)
  AllMerge-snoc verdicts id (m ∷ ms) h f =
      elim (Bool-cases (is_cleared (mergeable verdicts id m))) [
        | inl e ↦ (
          All-append (λ later. MayMerge verdicts later m) ms (id ∷ []) h.0
              (cleared-MayMerge verdicts id m e, tt),
          AllMerge-snoc verdicts id ms h.1 (rw e at f),
        )
        | inr e ↦ absurd (let q = rw e at f in cc)
      ]

  -- What holds of the groups that `id` has joined.
  record HasJoined (verdicts : List (PairVerdict N)) (id : String)
      (before after : List (List String)) : Type 0 where
    merge : All (AllMerge verdicts) after
    counted :
        (k : String)
        → occurrences k (members_of after)
          ≡ occurrences k (members_of before) + occurrences k (id ∷ [])

  abbrev Joined :
      List (PairVerdict N) → String → List (List String) → Option (List (List String)) → Type 0
  Joined verdicts id before none = Unit
  Joined verdicts id before (some after) = HasJoined verdicts id before after

  with_group-Joined :
      (verdicts : List (PairVerdict N)) (id : String) (g : List String) (gs : List (List String))
      (o : Option (List (List String)))
      → AllMerge verdicts g
      → Joined verdicts id gs o
      → Joined verdicts id (g ∷ gs) (with_group g o)
  with_group-Joined verdicts id g gs none hg h = tt
  with_group-Joined verdicts id g gs (some after) hg h = record {
    merge = (hg, h.merge);
    counted = λ k. omega (
      arith,
      h.counted k,
      occurrences-append k g (members_of after),
      occurrences-append k g (members_of gs),
    );
  }

  join-Joined :
      (verdicts : List (PairVerdict N)) (id : String) (gs : List (List String))
      → All (AllMerge verdicts) gs
      → Joined verdicts id gs (join verdicts id gs)
  unfolding join
  join-Joined verdicts id [] h = tt
  join-Joined verdicts id (g ∷ gs) h = elim (Bool-cases (fits verdicts id g)) [
    | inl e ↦ rw e (record {
      merge = (AllMerge-snoc verdicts id g h.0 e, h.1);
      counted = λ k. omega (
        arith,
        occurrences-append k (g ++ id ∷ []) (members_of gs),
        occurrences-append k g (id ∷ []),
        occurrences-append k g (members_of gs),
      );
    })
    | inr e ↦ rw e (
        with_group-Joined verdicts id g gs (join verdicts id gs) h.0
          (join-Joined verdicts id gs h.1))
  ]

  joined-HasJoined :
      (verdicts : List (PairVerdict N)) (id : String) (st : Grouping N)
      (o : Option (List (List String)))
      → All (AllMerge verdicts) st.groups
      → Joined verdicts id st.groups o
      → HasJoined verdicts id st.groups (joined verdicts id st o).groups
  joined-HasJoined verdicts id st (some after) h j = j
  joined-HasJoined verdicts id st none h j = record {
    merge = All-append (AllMerge verdicts) st.groups ((id ∷ []) ∷ []) h ((tt, tt), tt);
    counted = λ k.
        omega (
          arith,
          members_of-append k st.groups ((id ∷ []) ∷ []),
          occurrences-append k (id ∷ []) [],
        );
  }

  -- The groups that the loop ends with.
  pub record IsPartition (verdicts : List (PairVerdict N)) (ids : List String)
      (gs : List (List String)) : Type 0 where
    pub merge : All (AllMerge verdicts) gs
    pub counted : (k : String) → occurrences k (members_of gs) ≡ occurrences k ids

  group_all-counted :
      (verdicts : List (PairVerdict N)) (ids : List String) (st : Grouping N)
      → All (AllMerge verdicts) st.groups
      → All (AllMerge verdicts) (group_all verdicts ids st).groups
        × ((k : String)
            → occurrences k (members_of (group_all verdicts ids st).groups)
              ≡ occurrences k (members_of st.groups) + occurrences k ids)
  unfolding group_all
  group_all-counted verdicts [] st h = (h, λ k. omega arith)
  group_all-counted verdicts (id ∷ ids) st h =
      let o = join verdicts id st.groups in
      let j = joined-HasJoined verdicts id st o h (join-Joined verdicts id st.groups h) in
      let rest = group_all-counted verdicts ids (joined verdicts id st o) j.merge in
      (rest.0, λ k. omega (arith, rest.1 k, j.counted k, occurrences-append k (id ∷ []) ids))

  number_groups-members :
      (kind : MetricKind) (position : ℕ) (st : Grouping N) (gs : List (List String))
      → ids_of_groups (number_groups kind position st gs) ≡ gs
  number_groups-members kind position st [] = refl
  number_groups-members kind position st (g ∷ gs) =
      elim (Option-cases (separation_at position st.separations)) [
        | inl e ↦ rw e (ap (λ l. g ∷ l) (number_groups-members kind (suc position) st gs))
        | inr (v, e) ↦ rw e (ap (λ l. g ∷ l) (number_groups-members kind (suc position) st gs))
      ]

  -- Whatever the comparability matrix answers, `group_subjects` puts every run id in the groups as
  -- often as the subjects have it, and of any two members of a group some verdict among those
  -- that it returns, on the two in one order or the other, lets them merge.
  pub group_subjects-IsPartition :
      (core : Core N) (kind : MetricKind) (subjects : List (ComparisonSubject N))
      → IsPartition
          (group_subjects core kind subjects).1
          (map (λ (s : ComparisonSubject N). s.run_id) subjects)
          (ids_of_groups (group_subjects core kind subjects).0)
  unfolding group_subjects
  group_subjects-IsPartition core kind subjects =
      let verdicts = pair_verdicts core kind subjects in
      let ids = map (λ (s : ComparisonSubject N). s.run_id) subjects in
      let end = group_all verdicts ids ungrouped in
      let h = group_all-counted verdicts ids ungrouped tt in
      rw (number_groups-members kind 0 end end.groups)
        (record { merge = h.0; counted = λ k. omega (arith, h.1 k) })
