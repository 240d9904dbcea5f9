-- ===== src/Trajectory/Matching.antt =====
-- The pairing of required calls with the calls that were made.
use free_weight.Base.{
  ℕ, ◌+◌, ◌≡◌, refl, ap, inl, inr, Bool, String, str_eq, eq_iff, none, some, List, [], ◌∷◌, map,
  count_if, All, arith, Bool-cases, Option-cases,
}
use Prim.Native.Nat.{min}
use free_weight.Trajectory.{
  ToolInvocation, ExpectedCall, CallPair, first_named, without_first, match_required,
}

module _ {N : Type 0} where
  -- The calls that the pairs took.
  abbrev pub taken : List (CallPair N) → List (ToolInvocation N)
  taken [] = []
  taken (m ∷ ms) = elim m.actual [ none ↦ taken ms | some call ↦ call ∷ taken ms ]

  abbrev pub expected_of : List (CallPair N) → List (ExpectedCall N)
  expected_of = map (λ (m : CallPair N). m.expected)

  abbrev pub AnswersIt : CallPair N → Type 0
  AnswersIt m = (call : ToolInvocation N) → m.actual ≡ some call → call.name ≡ m.expected.name

  abbrev pub calls_named : String → List (ToolInvocation N) → ℕ
  calls_named name = count_if (λ (c : ToolInvocation N). str_eq c.name name)

  abbrev pub required_named : String → List (ExpectedCall N) → ℕ
  required_named name = count_if (λ (c : ExpectedCall N). str_eq c.name name)

  -- What a pairing of these calls promises.
  pub record IsMatching (required : List (ExpectedCall N)) (calls : List (ToolInvocation N))
      (matched : List (CallPair N)) (left : List (ToolInvocation N)) : Type 0 where
    pub in_order : expected_of matched ≡ required
    pub same_name : All AnswersIt matched
    pub once :
        (test : ToolInvocation N → Bool)
        → count_if test (taken matched) + count_if test left ≡ count_if test calls
    pub most :
        (name : String)
        → calls_named name (taken matched)
          ≡ min (required_named name required) (calls_named name calls)

  first_named-name :
      (name : String) (calls : List (ToolInvocation N)) (call : ToolInvocation N)
      → first_named name calls ≡ some call
      → call.name ≡ name
  first_named-name name [] call h = cc
  first_named-name name (c ∷ cs) call h = elim (Bool-cases (str_eq c.name name)) [
    | inl e ↦
        let same : c ≡ call = let q = rw e at h in cc in (eq_iff call.name name).0 (rw (← same) e)
    | inr e ↦ first_named-name name cs call (rw e at h)
  ]

  -- Taking the first call of a name out, in both outcomes of the search.
  take_out :
      (test : ToolInvocation N → Bool) (name : String) (calls : List (ToolInvocation N))
      → count_if test (elim (first_named name calls) [ none ↦ [] | some call ↦ call ∷ [] ])
          + count_if test (without_first name calls)
        ≡ count_if test calls
  take_out test name [] = refl
  take_out test name (c ∷ cs) = elim (Bool-cases (str_eq c.name name)) [
    | inl e ↦ rw e (ground arith)
    | inr e ↦ rw e (ground (arith, take_out test name cs))
  ]

  not_found :
      (name : String) (calls : List (ToolInvocation N))
      → first_named name calls ≡ none
      → calls_named name calls ≡ 0
  not_found name [] h = refl
  not_found name (c ∷ cs) h = elim (Bool-cases (str_eq c.name name)) [
    | inl e ↦ absurd (let q = rw e at h in cc)
    | inr e ↦ rw e (not_found name cs (rw e at h))
  ]

  abbrev IsMatched : List (ExpectedCall N) → List (ToolInvocation N) → Type 0
  IsMatched required calls =
      let matched = match_required required calls in IsMatching required calls matched.0 matched.1

  -- A required call that no call answers.
  unanswered :
      (x : ExpectedCall N) (rest : List (ExpectedCall N)) (calls : List (ToolInvocation N))
      → first_named x.name calls ≡ none
      → IsMatched rest (without_first x.name calls)
      → IsMatched (x ∷ rest) calls
  unfolding match_required
  unanswered x rest calls e ih =
      let same = λ (test : ToolInvocation N → Bool). rw e at (take_out test x.name calls) in
      record {
        in_order = ap (λ es. x ∷ es) ih.in_order;
        same_name = ((λ call h. absurd (let q = rw e at h in cc)), ih.same_name);
        once = λ test. rw e (omega (arith, ih.once test, same test));
        most = λ name. rw e (elim (Bool-cases (str_eq x.name name)) [
          | inl f ↦
              let is : x.name ≡ name = (eq_iff x.name name).0 f in
              let gone = rw is at (not_found x.name calls e) in
              rw f (
                omega
                  (arith, ih.most name, gone, same (λ (c : ToolInvocation N). str_eq c.name name)))
          | inr f ↦
              rw f
                (omega (arith, ih.most name, same (λ (c : ToolInvocation N). str_eq c.name name)))
        ]);
      }

  -- One that the first call of its name answers.
  answered :
      (x : ExpectedCall N) (rest : List (ExpectedCall N)) (calls : List (ToolInvocation N))
      (call : ToolInvocation N)
      → first_named x.name calls ≡ some call
      → IsMatched rest (without_first x.name calls)
      → IsMatched (x ∷ rest) calls
  unfolding match_required
  answered x rest calls call e ih =
      let is : call.name ≡ x.name = first_named-name x.name calls call e in
      let out = λ (test : ToolInvocation N → Bool). rw e at (take_out test x.name calls) in
      record {
        in_order = ap (λ es. x ∷ es) ih.in_order;
        same_name =
            ((λ c h. let q : call ≡ c = let r = rw e at h in cc in rw (← q) is), ih.same_name);
        once = λ test. rw e (ground (arith, ih.once test, out test));
        most = λ name.
            let here = out (λ (c : ToolInvocation N). str_eq c.name name) in
            rw e (elim (Bool-cases (str_eq x.name name)) [
              | inl f ↦ let g = rw (is, f) at here in rw (is, f) (omega (arith, ih.most name, g))
              | inr f ↦ let g = rw (is, f) at here in rw (is, f) (omega (arith, ih.most name, g))
            ]);
      }

  -- The pairing has one pair per required call, in order; a call that answers has the name required;
  -- no call is taken twice, and those left over are the others; and of each name as many calls are
  -- paired as any pairing could: the smaller of the numbers required and made.
  pub match_required-IsMatching :
      (required : List (ExpectedCall N)) (calls : List (ToolInvocation N))
      → IsMatching required calls
          (match_required required calls).0
          (match_required required calls).1
  unfolding match_required
  match_required-IsMatching [] calls = record {
    in_order = refl;
    same_name = tt;
    once = λ test. omega arith;
    most = λ name. omega arith;
  }
  match_required-IsMatching (x ∷ rest) calls =
      let ih = match_required-IsMatching rest (without_first x.name calls) in
      elim (Option-cases (first_named x.name calls)) [
        | inl e ↦ unanswered x rest calls e ih
        | inr (call, e) ↦ answered x rest calls call e ih
      ]
