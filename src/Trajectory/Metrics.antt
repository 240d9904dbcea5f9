-- ===== src/Trajectory/Metrics.antt =====
-- tool_metrics of domain/scorers/tools.py: the figures of one interaction.
use free_weight.Base.{
  ℕ, ◌-◌, ◌≤◌, ◌<◌, ◌==◌, ◌≡◌, ◌⊎◌, inl, inr, ltb, Bool, true, false, not, ◌&&◌, String, str_eq,
  Option, none, some, List, [], ◌∷◌, ◌++◌, map, length, any_of, count_if, count_if-le, All,
  All-append, if◌then◌else◌, arith, Bool-cases, refl,
}
use free_weight.Trajectory.{
  ToolInvocation, ToolTranscript, ExpectedCall, ToolExpectation, Python, CallPair, match_required,
  arguments_agree, is_subsequence, repeated_calls, is_empty, signature, without_first,
}

-- The float `over / under`.
pub record Rate : Type 0 where
  pub over : ℕ
  pub under : ℕ

abbrev pub Metrics : Type 0
Metrics = List (String × Rate)

abbrev pub rate : ℕ → ℕ → Rate
rate over under = record { over = over; under = under }

-- `1.0 if test else 0.0`
abbrev pub one_if : Bool → Rate
one_if true = rate 1 1
one_if false = rate 0 1

module _ {N : Type 0} where
  abbrev pub names_of : List (ToolInvocation N) → List String
  names_of = map (λ (c : ToolInvocation N). c.name)

  abbrev pub required_names : List (ExpectedCall N) → List String
  required_names = map (λ (c : ExpectedCall N). c.name)

  abbrev pub is_found : Option (ToolInvocation N) → Bool
  is_found none = false
  is_found (some call) = true

  abbrev pub is_semantic : Python N → ExpectedCall N → Option (ToolInvocation N) → Bool
  is_semantic p expected none = false
  is_semantic p expected (some call) = arguments_agree p expected.arguments call.arguments

  -- `found`
  abbrev pub found_calls : ToolExpectation N → ToolTranscript N → ℕ
  found_calls e t =
      count_if (λ (m : CallPair N). is_found m.actual) (match_required e.required_calls t.calls).0

  abbrev pub semantic_calls : Python N → ToolExpectation N → ToolTranscript N → ℕ
  semantic_calls p e t =
      count_if (λ (m : CallPair N). is_semantic p m.expected m.actual)
        (match_required e.required_calls t.calls).0

  -- The figures over the required calls.
  unfoldable pub required_metrics : Python N → ToolExpectation N → ToolTranscript N → Metrics
  unfolding match_required arguments_agree is_subsequence
  required_metrics p e t =
      let required = length e.required_calls in
      let found = found_calls e t in
      if not (is_empty e.required_calls)
      then ("tool_selection_accuracy", rate found required)
        ∷ ("missed_tool_rate", rate (required - found) required)
        ∷ ("multi_tool_sequence_accuracy", one_if (found == required))
        ∷ ("argument_semantic_correctness", rate (semantic_calls p e t) required)
        ∷ (if e.ordered && ltb 1 required
            then (
              "ordering_accuracy",
              one_if (is_subsequence (required_names e.required_calls) (names_of t.calls)),
            )
              ∷ []
            else [])
      else if e.no_tool_required
      then ("multi_tool_sequence_accuracy", one_if (is_empty t.calls)) ∷ []
      else []

  -- The figures over the calls that were made.
  unfoldable pub call_metrics : Python N → ToolExpectation N → ToolTranscript N → Metrics
  unfolding repeated_calls
  call_metrics p e t =
      let made = length t.calls in
      let wanted = required_names e.required_calls in
      let share = λ (test : ToolInvocation N → Bool). rate (count_if test t.calls) made in
      if not (is_empty t.calls)
      then ("unnecessary_call_rate", share (λ c. not (any_of (str_eq c.name) wanted)))
        ∷ ("hallucinated_tool_rate", share (λ c. not (any_of (str_eq c.name) t.offered_tools)))
        ∷ ("argument_schema_validity", share (λ c. c.arguments_parsed && c.arguments_valid))
        ∷ ("repeated_identical_call_rate", rate (repeated_calls p [] t.calls) made)
        ∷ ("redundant_call_rate", rate (made - length e.required_calls) made)
        ∷ ("forbidden_call_rate", share (λ c. any_of (str_eq c.name) e.forbidden_tools))
        ∷ []
      else ("unnecessary_call_rate", rate 0 1)
        ∷ ("hallucinated_tool_rate", rate 0 1)
        ∷ ("forbidden_call_rate", rate 0 1)
        ∷ []

  unfoldable pub tool_metrics : Python N → ToolExpectation N → ToolTranscript N → Bool → Metrics
  unfolding required_metrics call_metrics
  tool_metrics p e t succeeded =
      ("task_success", one_if succeeded) ∷ required_metrics p e t
      ++ call_metrics p e t
      ++ (if succeeded then ("calls_per_success", rate (length t.calls) 1) ∷ [] else [])

-- A share of a whole: a figure between 0 and 1.
abbrev pub IsShare : Rate → Type 0
IsShare r = (r.over ≤ r.under) × (0 < r.under)

abbrev pub InRange : String × Rate → Type 0
InRange m = IsShare m.1 ⊎ (m.0 ≡ "calls_per_success")

one_if-InRange : (name : String) (test : Bool) → InRange (name, one_if test)
one_if-InRange name true = inl (omega arith, omega arith)
one_if-InRange name false = inl (omega arith, omega arith)

if-InRange :
    (test : Bool) (m : String × Rate) → InRange m → All InRange (if test then m ∷ [] else [])
if-InRange true m h = (h, tt)
if-InRange false m h = tt

is_empty-pos {ℓ} : {A : Type ℓ} (xs : List A) → is_empty xs ≡ false → 0 < length xs
is_empty-pos [] h = cc
is_empty-pos (x ∷ xs) h = omega arith

module _ {N : Type 0} where
  length-match_required :
      (required : List (ExpectedCall N)) (calls : List (ToolInvocation N))
      → length (match_required required calls).0 ≡ length required
  unfolding match_required
  length-match_required [] calls = omega arith
  length-match_required (e ∷ es) calls =
      omega (arith, length-match_required es (without_first e.name calls))

  repeated_calls-le :
      (p : Python N) (seen : List (String × String)) (calls : List (ToolInvocation N))
      → repeated_calls p seen calls ≤ length calls
  unfolding repeated_calls
  repeated_calls-le p seen [] = omega arith
  repeated_calls-le p seen (c ∷ cs) = ground (arith, repeated_calls-le p (signature p c ∷ seen) cs)

  required_metrics-InRange :
      (p : Python N) (e : ToolExpectation N) (t : ToolTranscript N)
      → All InRange (required_metrics p e t)
  unfolding required_metrics
  required_metrics-InRange p e t = elim (Bool-cases (is_empty e.required_calls)) [
    | inl none_required ↦
        rw none_required
          (if-InRange e.no_tool_required _ (one_if-InRange "multi_tool_sequence_accuracy" _))
    | inr some_required ↦
        let whole = length-match_required e.required_calls t.calls in
        let pos = is_empty-pos e.required_calls some_required in
        let found =
          count_if-le (λ (m : CallPair N). is_found m.actual)
            (match_required e.required_calls t.calls).0 in
        let semantic =
          count_if-le (λ (m : CallPair N). is_semantic p m.expected m.actual)
            (match_required e.required_calls t.calls).0 in
        rw some_required (
          inl (omega (arith, found, whole), pos),
          (
            inl (omega arith, pos),
            (
              one_if-InRange _ _,
              (
                inl (omega (arith, semantic, whole), pos),
                if-InRange (e.ordered && ltb 1 (length e.required_calls)) _ (one_if-InRange _ _),
              ),
            ),
          ),
        )
  ]

  call_metrics-InRange :
      (p : Python N) (e : ToolExpectation N) (t : ToolTranscript N)
      → All InRange (call_metrics p e t)
  unfolding call_metrics
  call_metrics-InRange p e t = elim (Bool-cases (is_empty t.calls)) [
    | inl no_calls ↦ rw no_calls (
      inl (omega arith, omega arith),
      (inl (omega arith, omega arith), (inl (omega arith, omega arith), tt)),
    )
    | inr calls ↦
        let pos = is_empty-pos t.calls calls in
        rw calls (
          inl (count_if-le _ t.calls, pos),
          (
            inl (count_if-le _ t.calls, pos),
            (
              inl (count_if-le _ t.calls, pos),
              (
                inl (repeated_calls-le p [] t.calls, pos),
                (inl (omega arith, pos), (inl (count_if-le _ t.calls, pos), tt)),
              ),
            ),
          ),
        )
  ]

  -- Every figure of an interaction but the number of calls per success is a fraction between 0 and 1
  -- whose denominator is not 0.
  pub tool_metrics-InRange :
      (p : Python N) (e : ToolExpectation N) (t : ToolTranscript N) (succeeded : Bool)
      → All InRange (tool_metrics p e t succeeded)
  unfolding tool_metrics
  tool_metrics-InRange p e t succeeded = (
    one_if-InRange "task_success" succeeded,
    All-append InRange (required_metrics p e t ++ call_metrics p e t) _
        (All-append InRange (required_metrics p e t) _ (required_metrics-InRange p e t)
          (call_metrics-InRange p e t))
        (if-InRange succeeded ("calls_per_success", rate (length t.calls) 1) (inr refl)),
  )
