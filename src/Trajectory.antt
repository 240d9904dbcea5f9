-- ===== src/Trajectory.antt =====
-- domain/scorers/tools.py: how the calls of one interaction are scored. Of a call the fields that
-- scoring reads are kept, with its step and its id. A figure is a fraction, for the float that the
-- division gives. `repr` and `strip` are Python's, on values and texts.
pub mod Metrics
pub mod Matching
pub mod Order
mod Examples
use free_weight.Base.{
  ℕ, zero, suc, ◌-◌, ◌==◌, ltb, Bool, true, false, not, ◌&&◌, String, str_eq, str_leb, Option, none,
  some, List, [], ◌∷◌, ◌++◌, map, length, any_of, count_if, if◌then◌else◌,
}
use Prim.Native.String.{◌++◌ as text_append}
use free_weight.Json.{Json, null, boolean, number, string, array, object, Fields, no_fields, field}
use free_weight.Json.{Numbers, has_key, get, same}

pub record ToolInvocation (N : Type 0) : Type 0 where
  pub step : ℕ
  pub call_id : String
  pub name : String
  pub arguments : Fields N
  pub known_tool : Bool
  pub arguments_parsed : Bool
  pub arguments_valid : Bool
  pub executed : Bool
  pub ok : Bool

pub record ToolTranscript (N : Type 0) : Type 0 where
  pub calls : List (ToolInvocation N)
  pub offered_tools : List String

pub record ExpectedCall (N : Type 0) : Type 0 where
  pub name : String
  pub arguments : Fields N

pub record ToolExpectation (N : Type 0) : Type 0 where
  pub required_calls : List (ExpectedCall N)
  pub ordered : Bool
  pub forbidden_tools : List String
  pub no_tool_required : Bool

pub record Python (N : Type 0) : Type 0 where
  pub numbers : Numbers N
  pub strip : String → String
  pub repr : Json N → String

-- ToolInvocation.status
unfoldable pub call_status : {N : Type 0} → ToolInvocation N → String
call_status call =
    if not call.known_tool
    then "unknown_tool"
    else if not call.executed
    then "invalid_arguments"
    else if call.ok
    then "ok"
    else "error"

-- A required call with the call that answers it.
pub record CallPair (N : Type 0) : Type 0 where
  pub expected : ExpectedCall N
  pub actual : Option (ToolInvocation N)

module _ {N : Type 0} where
  -- `next((call for call in remaining if call.name == name), None)`
  abbrev pub first_named : String → List (ToolInvocation N) → Option (ToolInvocation N)
  first_named name [] = none
  first_named name (call ∷ rest) =
      if str_eq call.name name then some call else first_named name rest

  -- `remaining.remove(found)`, where the call found is the first of its name.
  abbrev pub without_first : String → List (ToolInvocation N) → List (ToolInvocation N)
  without_first name [] = []
  without_first name (call ∷ rest) =
      if str_eq call.name name then rest else call ∷ without_first name rest

  -- The pairs, one per required call, and the calls that no pair took.
  unfoldable pub match_required :
      List (ExpectedCall N) → List (ToolInvocation N) → List (CallPair N) × List (ToolInvocation N)
  match_required [] remaining = ([], remaining)
  match_required (expected ∷ rest) remaining =
      let matched = match_required rest (without_first expected.name remaining) in
      (
        record { expected = expected; actual = first_named expected.name remaining } ∷ matched.0,
        matched.1,
      )

  -- The values of one argument that both calls have.
  unfoldable pub values_agree : Python N → Json N → Json N → Bool
  values_agree p (string a) (string b) = str_eq (p.strip a) (p.strip b)
  values_agree p expected supplied = same p.numbers supplied expected

  unfoldable pub arguments_agree : Python N → Fields N → Fields N → Bool
  unfolding values_agree
  arguments_agree p no_fields actual = true
  arguments_agree p (field key value rest) actual =
      has_key key actual && (values_agree p value (get key actual) && arguments_agree p rest actual)

-- What is left of an iterator once it has yielded the name.
abbrev pub after : String → List String → List String
after name [] = []
after name (candidate ∷ rest) = if str_eq name candidate then rest else after name rest

unfoldable pub is_subsequence : List String → List String → Bool
is_subsequence [] actual = true
is_subsequence (name ∷ required) actual =
    any_of (str_eq name) actual && is_subsequence required (after name actual)

-- `sorted(items)`, where no two items have one key
abbrev pub insert_pair : String × String → List (String × String) → List (String × String)
insert_pair a [] = a ∷ []
insert_pair a (b ∷ bs) = if str_leb a.0 b.0 then a ∷ b ∷ bs else b ∷ insert_pair a bs

abbrev pub joined_items : List (String × String) → String
joined_items [] = ""
joined_items (a ∷ []) = text_append a.0 (text_append "=" a.1)
joined_items (a ∷ b ∷ rest) =
    text_append a.0 (text_append "=" (text_append a.1 (text_append ";" (joined_items (b ∷ rest)))))

abbrev pub is_seen : String × String → List (String × String) → Bool
is_seen a = any_of (λ b. str_eq a.0 b.0 && str_eq a.1 b.1)

abbrev pub is_empty {ℓ} : {A : Type ℓ} → List A → Bool
is_empty [] = true
is_empty (_ ∷ _) = false

module _ {N : Type 0} where
  abbrev pub sorted_items : Python N → Fields N → List (String × String)
  sorted_items p no_fields = []
  sorted_items p (field key value rest) = insert_pair (key, p.repr value) (sorted_items p rest)

  unfoldable pub signature : Python N → ToolInvocation N → String × String
  signature p call = (call.name, joined_items (sorted_items p call.arguments))

  -- The loop over `seen`.
  unfoldable pub repeated_calls : Python N → List (String × String) → List (ToolInvocation N) → ℕ
  unfolding signature
  repeated_calls p seen [] = 0
  repeated_calls p seen (call ∷ rest) =
      let later = repeated_calls p (signature p call ∷ seen) rest in
      if is_seen (signature p call) seen then suc later else later
