-- ===== src/Trajectory/Examples.antt =====
-- The theorems on scored interactions, applied to one with three calls.
use free_weight.Base.{ℕ, ◌==◌, true, false, String, List, [], ◌∷◌, All, ◌≡◌, ◌↔◌}
use free_weight.Json.{Numbers, Fields, string, field, no_fields}
use free_weight.Trajectory.{
  ToolInvocation, ToolTranscript, ExpectedCall, ToolExpectation, Python, match_required,
  is_subsequence,
}
use free_weight.Trajectory.Metrics.{InRange, tool_metrics, tool_metrics-InRange}
use free_weight.Trajectory.Order.{Inside, is_subsequence-Inside}
use free_weight.Trajectory.Matching.{IsMatching, match_required-IsMatching}

abbrev numbers : Numbers ℕ
numbers = record { equal = ◌==◌; of_bool = λ b. elim b [ true ↦ 1 | false ↦ 0 ] }

abbrev python : Python ℕ
python = record { numbers = numbers; strip = λ text. text; repr = λ value. "" }

abbrev call : ℕ → String → Fields ℕ → ToolInvocation ℕ
call step name arguments = record {
  step = step;
  call_id = "";
  name = name;
  arguments = arguments;
  known_tool = true;
  arguments_parsed = true;
  arguments_valid = true;
  executed = true;
  ok = true;
}

abbrev at_path : Fields ℕ
at_path = field "path" (string "src/app.py") no_fields

abbrev calls : List (ToolInvocation ℕ)
calls = call 0 "read" at_path ∷ call 1 "list" no_fields ∷ call 2 "read" at_path ∷ []

abbrev required : List (ExpectedCall ℕ)
required =
    record { name = "read"; arguments = at_path }
    ∷ record { name = "write"; arguments = no_fields }
    ∷ []

abbrev expectation : ToolExpectation ℕ
expectation = record {
  required_calls = required;
  ordered = true;
  forbidden_tools = [];
  no_tool_required = false;
}

abbrev transcript : ToolTranscript ℕ
transcript = record { calls = calls; offered_tools = "read" ∷ "write" ∷ [] }

tool_metrics-InRange_example : All InRange (tool_metrics python expectation transcript false)
tool_metrics-InRange_example = tool_metrics-InRange python expectation transcript false

match_required-IsMatching_example :
    IsMatching required calls (match_required required calls).0 (match_required required calls).1
match_required-IsMatching_example = match_required-IsMatching required calls

is_subsequence-Inside_example :
    (is_subsequence ("a" ∷ "c" ∷ []) ("a" ∷ "b" ∷ "c" ∷ []) ≡ true)
    ↔ Inside ("a" ∷ "c" ∷ []) ("a" ∷ "b" ∷ "c" ∷ [])
is_subsequence-Inside_example = is_subsequence-Inside ("a" ∷ "c" ∷ []) ("a" ∷ "b" ∷ "c" ∷ [])
