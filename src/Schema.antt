-- ===== src/Schema.antt =====
-- domain/scorers/schema.py: the validator of JSON Schema. A schema is its keywords, each with a value
-- of the kind that the standard gives it, and its subschemas; of a keyword that the validator does
-- not know only the name is kept. A path is the list of its steps below the root, the last first. The
-- sentence that a violation carries is left out. `Library` stands for what the code takes from
-- Python: arithmetic and `re.search`.
pub mod Conformance
pub mod Validation
pub mod Reports
pub mod Validate
mod Checks
mod Measuring
mod Keyword
mod Examples
use Prim.Native.String.{count}
use free_weight.Base.{
  ℕ, suc, ltb, Bool, true, false, not, ◌&&◌, ◌||◌, String, str_eq, sorted_strings, Option, none,
  some, List, [], ◌∷◌, ◌++◌, map, keep_if, any_of, flat_map, if◌then◌else◌,
}
use free_weight.Json.{
  Json, null, boolean, number, string, array, object, Items, no_items, item, Fields, Numbers,
  has_key, get, keys, same, is_object,
}

pub data ViolationKind : Type 0 where
  missing_required wrong_type enum nesting additional bound pattern : ViolationKind

pub data Segment : Type 0 where
  key : String → Segment
  index : ℕ → Segment

pub record Violation : Type 0 where
  pub path : List Segment
  pub kind : ViolationKind

-- The keywords of one schema but its subschemas. `unknown` is `set(schema) - SUPPORTED_KEYWORDS`.
pub record Keywords (N : Type 0) : Type 0 where
  pub unknown : List String
  pub type : Option String
  pub const : Option (Json N)
  pub choices : Option (List (Json N))
  pub minimum : Option N
  pub maximum : Option N
  pub min_length : Option ℕ
  pub max_length : Option ℕ
  pub min_items : Option ℕ
  pub max_items : Option ℕ
  pub pattern : Option String
  pub required : List String
  pub no_additional : Bool

-- `no_schema` is a subschema that is missing or is not a dict, which nothing is checked against.
mutual
  pub data Schema (N : Type 0) : Type 0 where
    schema : Keywords N → Properties N → Subschema N → Schema N

  pub data Properties (N : Type 0) : Type 0 where
    no_properties : Properties N
    property : String → Subschema N → Properties N → Properties N

  pub data Subschema (N : Type 0) : Type 0 where
    no_schema : Subschema N
    subschema : Schema N → Subschema N

pub record Library (N : Type 0) : Type 0 where
  pub numbers : Numbers N
  pub less : N → N → Bool
  -- An int, or a finite float without a fraction.
  pub is_whole : N → Bool
  -- Nothing where the pattern does not compile and `re.error` is raised.
  pub search : String → String → Option Bool

-- SchemaUnsupported, and re.error.
pub data SchemaError : Type 0 where
  schema_unsupported pattern_error : SchemaError

-- Every violation, or what was raised.
pub data Report : Type 0 where
  found : List Violation → Report
  raised : SchemaError → Report

abbrev pub chained : Report → Report → Report
chained (found first) (found second) = found (first ++ second)
chained (found first) (raised e) = raised e
chained (raised e) second = raised e

abbrev pub violation_if : Bool → List Segment → ViolationKind → List Violation
violation_if true path kind = record { path = path; kind = kind } ∷ []
violation_if false path kind = []

abbrev pub maximum_pattern_length : ℕ
maximum_pattern_length = 200

module _ {N : Type 0} where
  abbrev pub is_array : Json N → Bool
  is_array (array xs) = true
  is_array _ = false

  abbrev pub is_string : Json N → Bool
  is_string (string s) = true
  is_string _ = false

  abbrev pub is_boolean : Json N → Bool
  is_boolean (boolean b) = true
  is_boolean _ = false

  abbrev pub is_null : Json N → Bool
  is_null null = true
  is_null _ = false

  abbrev pub is_number : Json N → Bool
  is_number (number n) = true
  is_number _ = false

  abbrev pub is_integer : Library N → Json N → Bool
  is_integer l (number n) = l.is_whole n
  is_integer l _ = false

  unfoldable pub is_type : Library N → Json N → String → Bool
  is_type l document name =
      if str_eq name "object"
      then is_object document
      else if str_eq name "array"
      then is_array document
      else if str_eq name "string"
      then is_string document
      else if str_eq name "integer"
      then is_integer l document
      else if str_eq name "number"
      then is_number document
      else if str_eq name "boolean"
      then is_boolean document
      else str_eq name "null" && is_null document

  abbrev pub wrong_type_of : Library N → Keywords N → Json N → Bool
  wrong_type_of l k document = elim k.type [
    | none ↦ false
    | some name ↦ not (is_type l document name)
  ]

  -- `document if isinstance(document, int | float) else None`: a bool is an int.
  abbrev pub measured_number : Library N → Json N → Option N
  measured_number l (number n) = some n
  measured_number l (boolean b) = some (l.numbers.of_bool b)
  measured_number l _ = none

  abbrev pub measured_text : Json N → Option ℕ
  measured_text (string s) = some (count s)
  measured_text _ = none

  abbrev pub item_count : Items N → ℕ
  item_count no_items = 0
  item_count (item x xs) = suc (item_count xs)

  abbrev pub measured_list : Json N → Option ℕ
  measured_list (array xs) = some (item_count xs)
  measured_list _ = none

-- A bound is broken where there is one and there is something to measure.
abbrev pub breaks : {A : Type 0} → (A → A → Bool) → Option A → Option A → Bool
breaks outside (some limit) (some measured) = outside measured limit
breaks outside _ _ = false

abbrev pub breaks_in : {A : Type 0} → Option A → (A → Bool) → Bool
breaks_in none test = false
breaks_in (some a) test = test a

abbrev pub is_empty_list : List String → Bool
is_empty_list [] = true
is_empty_list (_ ∷ _) = false
