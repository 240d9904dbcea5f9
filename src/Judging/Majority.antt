-- ===== src/Judging/Majority.antt =====
-- The majority of verdicts, by the number of each.
use free_weight.Base.{
  ℕ, ◌+◌, ◌≤◌, ◌<◌, ◌==◌, ltb, ◌≡◌, refl, sym, inl, inr, true, false, ◌&&◌, List, [], ◌∷◌, count_if,
  if◌then◌else◌, arith, Bool-cases,
}
use free_weight.Judging.{JudgeChoice, first, second, tie, unparseable}
use free_weight.Judging.Verdicts.{
  choice_eq, is_usable, usable_of, is_nil, Counts, counter, most_common, top_choice,
  majority_choice,
}
use free_weight.Judging.Counting.{
  votes, total, IsCount, IsRanked, total-counter, counter-IsCount, total-most_common,
  most_common-IsCount, most_common-IsRanked, total-absent, total-le, count-usable,
}

-- The choice with more votes than each of the others, or a tie.
abbrev pub verdict : ℕ → ℕ → ℕ → JudgeChoice
verdict f s t =
    if f + s + t == 0
    then unparseable
    else if ltb s f && ltb t f
    then first
    else if ltb f s && ltb t s
    then second
    else tie

abbrev verdict_of : Counts → JudgeChoice
verdict_of es = verdict (total first es) (total second es) (total tie es)

-- The two choices with the most votes, and the third with no more than the second of them.
decided :
    (k j : JudgeChoice) (n m : ℕ) (x : JudgeChoice → ℕ)
    → choice_eq k j ≡ false
    → is_usable k ≡ true
    → is_usable j ≡ true
    → m ≤ n
    → 0 < m
    → x k ≡ 0
    → x j ≡ 0
    → ((c : JudgeChoice) → x c ≤ m)
    → (if n == m then tie else k)
      ≡ verdict
          (votes first (k, n) + (votes first (j, m) + x first))
          (votes second (k, n) + (votes second (j, m) + x second))
          (votes tie (k, n) + (votes tie (j, m) + x tie))
decided first second n m x apart k_usable j_usable le pos zk zj bound =
    ground (arith, zk, zj, bound tie, le, pos)
decided first tie n m x apart k_usable j_usable le pos zk zj bound =
    ground (arith, zk, zj, bound second, le, pos)
decided second first n m x apart k_usable j_usable le pos zk zj bound =
    ground (arith, zk, zj, bound tie, le, pos)
decided second tie n m x apart k_usable j_usable le pos zk zj bound =
    ground (arith, zk, zj, bound first, le, pos)
decided tie first n m x apart k_usable j_usable le pos zk zj bound =
    ground (arith, zk, zj, bound second, le, pos)
decided tie second n m x apart k_usable j_usable le pos zk zj bound =
    ground (arith, zk, zj, bound first, le, pos)
decided k j n m x apart k_usable j_usable le pos zk zj bound = cc

top_choice-verdict : (es : Counts) → IsCount es → IsRanked es → top_choice es ≡ verdict_of es
top_choice-verdict [] h r = refl
top_choice-verdict ((first, n) ∷ []) h r = ground arith
top_choice-verdict ((second, n) ∷ []) h r = ground arith
top_choice-verdict ((tie, n) ∷ []) h r = ground arith
top_choice-verdict ((unparseable, n) ∷ []) h r = cc
top_choice-verdict ((k, n) ∷ (j, m) ∷ es) h r =
    decided k j n m (λ c. total c es) h.0.0 h.1.0 h.1.1.1.1.0 r.0.0 h.1.1.1.1.1.0
      (total-absent k es h.0.1) (total-absent j es h.1.1.1.0)
      (λ c. total-le c m es h.1.1.1.1.1.1 r.1.0)

abbrev ranked : List JudgeChoice → Counts
ranked cs = most_common (counter [] (usable_of cs))

total-ranked :
    (c : JudgeChoice) (cs : List JudgeChoice)
    → is_usable c ≡ true
    → total c (ranked cs) ≡ count_if (choice_eq c) cs
total-ranked c cs u =
    let counted = total-counter c [] (usable_of cs) in
    omega (arith, total-most_common c (counter [] (usable_of cs)), counted, count-usable c cs u)

abbrev pub votes_for : JudgeChoice → List JudgeChoice → ℕ
votes_for c = count_if (choice_eq c)

none_usable :
    (cs : List JudgeChoice)
    → is_nil (usable_of cs) ≡ true
    → verdict (votes_for first cs) (votes_for second cs) (votes_for tie cs) ≡ unparseable
none_usable cs h =
    let none_left = is_nil→nil (usable_of cs) h in
    let a = rw none_left at (count-usable first cs refl) in
    let b = rw none_left at (count-usable second cs refl) in
    let c = rw none_left at (count-usable tie cs refl) in rw (← a, ← b, ← c) refl
  where
    is_nil→nil : (xs : List JudgeChoice) → is_nil xs ≡ true → xs ≡ []
    is_nil→nil [] h = refl
    is_nil→nil (x ∷ xs) h = cc

-- The majority is a matter of the numbers of votes alone, in whatever order they were cast: it is the
-- choice with more votes than each other one, a tie if no choice has, and unparseable if there is no
-- usable vote.
pub majority_choice-verdict :
    (cs : List JudgeChoice)
    → majority_choice cs ≡ verdict (votes_for first cs) (votes_for second cs) (votes_for tie cs)
unfolding majority_choice
majority_choice-verdict cs = elim (Bool-cases (is_nil (usable_of cs))) [
  | inl e ↦ rw e (sym (none_usable cs e))
  | inr e ↦
      let counted = most_common-IsCount (counter [] (usable_of cs)) (counter-IsCount [] cs tt) in
      let top =
        top_choice-verdict (ranked cs) counted (most_common-IsRanked (counter [] (usable_of cs))) in
      rw e (
        rw (← total-ranked first cs refl, ← total-ranked second cs refl, ← total-ranked tie cs refl)
          top)
]
