-- ===== src/Comparison/Groups.antt =====
-- group_subjects: the partition into groups that may be merged.
use free_weight.Base.{
  ℕ, suc, ◌==◌, Bool, false, ◌&&◌, String, Option, none, some, List, [], ◌∷◌, ◌++◌, map, length,
  all_of, str_eq, if◌then◌else◌,
}
use free_weight.Comparison.Verdicts.{
  MetricKind, StudyKind, ComparisonSubject, Reason, Core, PairVerdict, may_merge, verdict_for_pair,
}

abbrev pub or_else : {A : Type 0} → Option A → Option A → Option A
or_else none b = b
or_else (some a) b = some a

abbrev pub with_group : List String → Option (List (List String)) → Option (List (List String))
with_group g none = none
with_group g (some gs) = some (g ∷ gs)

-- `groups[0][0] if groups else None`
abbrev pub first_member : List (List String) → Option String
first_member [] = none
first_member ([] ∷ gs) = none
first_member ((id ∷ members) ∷ gs) = some id

-- The reason of a group: a verdict's, or the sentence for a group that none separated.
pub data GroupReason : Type 0 where
  of_verdict : Reason → GroupReason
  first_group : GroupReason

pub record ComparisonGroup : Type 0 where
  pub members : List String
  pub study : StudyKind
  pub reason : GroupReason
  pub metric_kind : MetricKind

-- `groups` and `separations`
pub record Grouping (N : Type 0) : Type 0 where
  pub groups : List (List String)
  pub separations : List (ℕ × PairVerdict N)

module _ {N : Type 0} where
  -- `verdict_for_pair` of every pair, in order.
  unfoldable pub pair_verdicts :
      Core N → MetricKind → List (ComparisonSubject N) → List (PairVerdict N)
  unfolding verdict_for_pair
  pair_verdicts core kind [] = []
  pair_verdicts core kind (left ∷ rest) =
      map (λ right. verdict_for_pair core left right kind) rest ++ pair_verdicts core kind rest

  -- `by_pair.get((left, right))`: of equal keys the last one.
  unfoldable pub by_pair : List (PairVerdict N) → String → String → Option (PairVerdict N)
  by_pair [] left right = none
  by_pair (v ∷ vs) left right =
      or_else (by_pair vs left right)
        (if str_eq v.left left && str_eq v.right right then some v else none)

  unfoldable pub mergeable : List (PairVerdict N) → String → String → Option (PairVerdict N)
  unfolding by_pair
  mergeable verdicts left right =
      or_else (by_pair verdicts left right) (by_pair verdicts right left)

  -- `pair is not None and pair.may_merge`
  abbrev pub is_cleared : Option (PairVerdict N) → Bool
  is_cleared none = false
  is_cleared (some v) = may_merge v

  abbrev pub fits : List (PairVerdict N) → String → List String → Bool
  fits verdicts id members = all_of (λ member. is_cleared (mergeable verdicts id member)) members

  -- `for members in groups`: the groups once the subject has joined the first that it fits, or
  -- nothing if it fits none.
  unfoldable pub join :
      List (PairVerdict N) → String → List (List String) → Option (List (List String))
  unfolding mergeable
  join verdicts id [] = none
  join verdicts id (g ∷ gs) =
      let later = join verdicts id gs in
      if fits verdicts id g then some ((g ++ id ∷ []) ∷ gs) else with_group g later

  abbrev pub separated : ℕ → Option (PairVerdict N) → List (ℕ × PairVerdict N)
  separated position none = []
  separated position (some v) = (position, v) ∷ []

  abbrev pub against : List (PairVerdict N) → String → Option String → Option (PairVerdict N)
  against verdicts id none = none
  against verdicts id (some first) = mergeable verdicts id first

  -- The `else` of the loop.
  abbrev pub joined :
      List (PairVerdict N) → String → Grouping N → Option (List (List String)) → Grouping N
  joined verdicts id st (some groups) = record st { groups = groups }
  joined verdicts id st none = record {
    groups = st.groups ++ (id ∷ []) ∷ [];
    separations =
        st.separations
        ++ separated (length st.groups) (against verdicts id (first_member st.groups));
  }

  -- `for subject in subjects`
  unfoldable pub group_all : List (PairVerdict N) → List String → Grouping N → Grouping N
  unfolding join mergeable
  group_all verdicts [] st = st
  group_all verdicts (id ∷ ids) st =
      group_all verdicts ids (joined verdicts id st (join verdicts id st.groups))

  abbrev pub ungrouped : Grouping N
  ungrouped = record { groups = []; separations = [] }

  abbrev pub separation_at : ℕ → List (ℕ × PairVerdict N) → Option (PairVerdict N)
  separation_at position [] = none
  separation_at position ((p, v) ∷ rest) =
      if p == position then some v else separation_at position rest

  abbrev pub as_group : MetricKind → ℕ → List String → Option (PairVerdict N) → ComparisonGroup
  as_group kind position members (some v) = record {
    members = members;
    study = v.study;
    reason = of_verdict v.reason;
    metric_kind = kind;
  }
  as_group kind position members none = record {
    members = members;
    study = if position == 0 then StudyKind.direct else StudyKind.incomparable;
    reason = first_group;
    metric_kind = kind;
  }

  abbrev pub number_groups : MetricKind → ℕ → Grouping N → List (List String) → List ComparisonGroup
  number_groups kind position st [] = []
  number_groups kind position st (g ∷ gs) =
      as_group kind position g (separation_at position st.separations)
      ∷ number_groups kind (suc position) st gs

  unfoldable pub group_subjects :
      Core N → MetricKind → List (ComparisonSubject N) → List ComparisonGroup × List (PairVerdict N)
  unfolding pair_verdicts group_all
  group_subjects core kind subjects =
      let verdicts = pair_verdicts core kind subjects in
      let st =
        group_all verdicts (map (λ (s : ComparisonSubject N). s.run_id) subjects) ungrouped in
      (number_groups kind 0 st st.groups, verdicts)
