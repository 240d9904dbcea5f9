-- ===== src/Judging/Counting.antt =====
-- How votes are counted and the counts ranked.
use free_weight.Base.{
  ℕ, ◌+◌, ◌≤◌, ◌<◌, leb, ◌≡◌, refl, ap, ◌∙◌, inl, inr, true, false, List, [], ◌∷◌, count_if, All,
  if◌then◌else◌, arith, Bool-cases,
}
use free_weight.Judging.{JudgeChoice, first, second, tie, unparseable}
use free_weight.Judging.Verdicts.{
  choice_eq, is_usable, usable_of, Counts, add_one, counter, insert_count, most_common,
}

abbrev pub votes : JudgeChoice → JudgeChoice × ℕ → ℕ
votes c e = if choice_eq c e.0 then e.1 else 0

-- The votes counted for a choice.
abbrev pub total : JudgeChoice → Counts → ℕ
total c [] = 0
total c (e ∷ es) = votes c e + total c es

-- Every choice is counted in one place, is usable and has votes.
abbrev pub IsCount : Counts → Type 0
IsCount [] = Unit
IsCount (e ∷ es) =
    All (λ (d : JudgeChoice × ℕ). choice_eq e.0 d.0 ≡ false) es
    × ((is_usable e.0 ≡ true) × ((0 < e.1) × IsCount es))

abbrev pub IsRanked : Counts → Type 0
IsRanked [] = Unit
IsRanked (e ∷ es) = All (λ (d : JudgeChoice × ℕ). d.1 ≤ e.1) es × IsRanked es

pub choice_eq_refl : (c : JudgeChoice) → choice_eq c c ≡ true
choice_eq_refl first = refl
choice_eq_refl second = refl
choice_eq_refl tie = refl
choice_eq_refl unparseable = refl

pub choice_eq-eq : (c d : JudgeChoice) → choice_eq c d ≡ true → c ≡ d
choice_eq-eq first first h = refl
choice_eq-eq second second h = refl
choice_eq-eq tie tie h = refl
choice_eq-eq unparseable unparseable h = refl
choice_eq-eq c d h = cc

choice_eq_comm : (c d : JudgeChoice) → choice_eq c d ≡ choice_eq d c
choice_eq_comm first first = refl
choice_eq_comm first second = refl
choice_eq_comm first tie = refl
choice_eq_comm first unparseable = refl
choice_eq_comm second first = refl
choice_eq_comm second second = refl
choice_eq_comm second tie = refl
choice_eq_comm second unparseable = refl
choice_eq_comm tie first = refl
choice_eq_comm tie second = refl
choice_eq_comm tie tie = refl
choice_eq_comm tie unparseable = refl
choice_eq_comm unparseable first = refl
choice_eq_comm unparseable second = refl
choice_eq_comm unparseable tie = refl
choice_eq_comm unparseable unparseable = refl

total-add_one :
    (c d : JudgeChoice) (es : Counts)
    → total c (add_one d es) ≡ total c es + (if choice_eq c d then 1 else 0)
total-add_one c d [] = ground arith
total-add_one c d ((k, n) ∷ es) = elim (Bool-cases (choice_eq d k)) [
  | inl e ↦ let is : d ≡ k = choice_eq-eq d k e in rw is (rw (choice_eq_refl k) (ground arith))
  | inr e ↦ rw e (ground (arith, total-add_one c d es))
]

pub total-counter :
    (c : JudgeChoice) (es : Counts) (cs : List JudgeChoice)
    → total c (counter es cs) ≡ total c es + count_if (choice_eq c) cs
unfolding counter
total-counter c es [] = omega arith
total-counter c es (d ∷ cs) =
    ground (arith, total-counter c (add_one d es) cs, total-add_one c d es)

add_one-All :
    (k d : JudgeChoice) (es : Counts)
    → choice_eq k d ≡ false
    → All (λ (x : JudgeChoice × ℕ). choice_eq k x.0 ≡ false) es
    → All (λ (x : JudgeChoice × ℕ). choice_eq k x.0 ≡ false) (add_one d es)
add_one-All k d [] h hs = (h, tt)
add_one-All k d ((j, n) ∷ es) h hs = elim (Bool-cases (choice_eq d j)) [
  | inl e ↦ rw e (hs.0, hs.1)
  | inr e ↦ rw e (hs.0, add_one-All k d es h hs.1)
]

add_one-IsCount :
    (d : JudgeChoice) (es : Counts) → is_usable d ≡ true → IsCount es → IsCount (add_one d es)
add_one-IsCount d [] u h = (tt, (u, (omega arith, tt)))
add_one-IsCount d ((j, n) ∷ es) u h = elim (Bool-cases (choice_eq d j)) [
  | inl e ↦ rw e (h.0, (h.1.0, (omega arith, h.1.1.1)))
  | inr e ↦
      let e' : choice_eq j d ≡ false = choice_eq_comm j d ∙ e in
      rw e (add_one-All j d es e' h.0, (h.1.0, (h.1.1.0, add_one-IsCount d es u h.1.1.1)))
]

pub counter-IsCount :
    (es : Counts) (cs : List JudgeChoice) → IsCount es → IsCount (counter es (usable_of cs))
unfolding counter
counter-IsCount es [] h = h
counter-IsCount es (c ∷ cs) h = elim (Bool-cases (is_usable c)) [
  | inl e ↦ rw e (counter-IsCount (add_one c es) cs (add_one-IsCount c es e h))
  | inr e ↦ rw e (counter-IsCount es cs h)
]

total-insert_count :
    (c : JudgeChoice) (e : JudgeChoice × ℕ) (es : Counts)
    → total c (insert_count e es) ≡ total c (e ∷ es)
total-insert_count c e [] = refl
total-insert_count c e (d ∷ ds) = elim (Bool-cases (leb d.1 e.1)) [
  | inl f ↦ rw f refl
  | inr f ↦ rw f (omega (arith, total-insert_count c e ds))
]

pub total-most_common : (c : JudgeChoice) (es : Counts) → total c (most_common es) ≡ total c es
total-most_common c [] = refl
total-most_common c (e ∷ es) =
    omega (arith, total-insert_count c e (most_common es), total-most_common c es)

insert_count-All :
    (P : JudgeChoice × ℕ → Type 0) (e : JudgeChoice × ℕ) (es : Counts)
    → P e
    → All P es
    → All P (insert_count e es)
insert_count-All P e [] h hs = (h, tt)
insert_count-All P e (d ∷ ds) h hs = elim (Bool-cases (leb d.1 e.1)) [
  | inl f ↦ rw f (h, hs)
  | inr f ↦ rw f (hs.0, insert_count-All P e ds h hs.1)
]

most_common-All : (P : JudgeChoice × ℕ → Type 0) (es : Counts) → All P es → All P (most_common es)
most_common-All P [] h = tt
most_common-All P (e ∷ es) h = insert_count-All P e (most_common es) h.0 (most_common-All P es h.1)

insert_count-IsCount :
    (e : JudgeChoice × ℕ) (es : Counts) → IsCount (e ∷ es) → IsCount (insert_count e es)
insert_count-IsCount e [] h = h
insert_count-IsCount e (d ∷ ds) h = elim (Bool-cases (leb d.1 e.1)) [
  | inl f ↦ rw f h
  | inr f ↦
      let rest = h.1.1.1 in
      let apart : choice_eq d.0 e.0 ≡ false = choice_eq_comm d.0 e.0 ∙ h.0.0 in
      rw f (
        insert_count-All (λ x. choice_eq d.0 x.0 ≡ false) e ds apart rest.0,
        (rest.1.0, (rest.1.1.0, insert_count-IsCount e ds (h.0.1, (h.1.0, (h.1.1.0, rest.1.1.1))))),
      )
]

pub most_common-IsCount : (es : Counts) → IsCount es → IsCount (most_common es)
most_common-IsCount [] h = h
most_common-IsCount (e ∷ es) h =
    insert_count-IsCount e (most_common es)
      (most_common-All _ es h.0, (h.1.0, (h.1.1.0, most_common-IsCount es h.1.1.1)))

lower : (a b : ℕ) (es : Counts) → a ≤ b → All (λ d. d.1 ≤ a) es → All (λ d. d.1 ≤ b) es
lower a b [] h hs = tt
lower a b (e ∷ es) h hs = (omega (arith, h, hs.0), lower a b es h hs.1)

insert_count-IsRanked :
    (e : JudgeChoice × ℕ) (es : Counts) → IsRanked es → IsRanked (insert_count e es)
insert_count-IsRanked e [] h = (tt, tt)
insert_count-IsRanked e (d ∷ ds) h = elim (Bool-cases (leb d.1 e.1)) [
  | inl f ↦ let le : d.1 ≤ e.1 = ground arith in rw f ((le, lower d.1 e.1 ds le h.0), h)
  | inr f ↦
      let le : e.1 ≤ d.1 = ground arith in
      rw f (insert_count-All (λ x. x.1 ≤ d.1) e ds le h.0, insert_count-IsRanked e ds h.1)
]

pub most_common-IsRanked : (es : Counts) → IsRanked (most_common es)
most_common-IsRanked [] = tt
most_common-IsRanked (e ∷ es) = insert_count-IsRanked e (most_common es) (most_common-IsRanked es)

-- A choice counted nowhere has no votes; one that is counted has no more than the most.
pub total-absent :
    (c : JudgeChoice) (es : Counts) → All (λ d. choice_eq c d.0 ≡ false) es → total c es ≡ 0
total-absent c [] h = refl
total-absent c (e ∷ es) h = rw h.0 (omega (arith, total-absent c es h.1))

pub total-le :
    (c : JudgeChoice) (m : ℕ) (es : Counts) → IsCount es → All (λ d. d.1 ≤ m) es → total c es ≤ m
total-le c m [] h hm = omega arith
total-le c m (e ∷ es) h hm = elim (Bool-cases (choice_eq c e.0)) [
  | inl f ↦
      let is : c ≡ e.0 = choice_eq-eq c e.0 f in
      let none_left : total c es ≡ 0 = ap (λ x. total x es) is ∙ total-absent e.0 es h.0 in
      rw f (omega (arith, none_left, hm.0))
  | inr f ↦ rw f (omega (arith, total-le c m es h.1.1.1 hm.1))
]

-- Only usable votes are counted.
pub count-usable :
    (c : JudgeChoice) (cs : List JudgeChoice)
    → is_usable c ≡ true
    → count_if (choice_eq c) (usable_of cs) ≡ count_if (choice_eq c) cs
count-usable c [] u = refl
count-usable c (d ∷ ds) u = elim (Bool-cases (is_usable d)) [
  | inl e ↦ rw e (ground (arith, count-usable c ds u))
  | inr e ↦ elim (Bool-cases (choice_eq c d)) [
    | inl f ↦
        absurd
          (let is : c ≡ d = choice_eq-eq c d f in let q : is_usable d ≡ true = rw (← is) u in cc)
    | inr f ↦ rw (e, f) (count-usable c ds u)
  ]
]
