-- ===== src/Schema/Examples.antt =====
-- The theorems on validation, applied to a schema of a person and a document that misses its age.
use free_weight.Base.{ℕ, ltb, ◌==◌, ◌≡◌, refl, ◌↔◌, true, false, String, none, some, List, [], ◌∷◌}
use free_weight.Json.{Json, Numbers, string, object, field, no_fields}
use free_weight.Schema.{
  Library, found, Keywords, Schema, schema, property, no_properties, subschema, no_schema,
}
use free_weight.Schema.Validate.{validate}
use free_weight.Schema.Conformance.{Conforms, Supported}
use free_weight.Schema.Validation.{validate-Conforms}
use free_weight.Schema.Reports.{Answers, validate-Answers}

abbrev numbers : Numbers ℕ
numbers = record { equal = ◌==◌; of_bool = λ b. elim b [ true ↦ 1 | false ↦ 0 ] }

abbrev library : Library ℕ
library = record {
  numbers = numbers;
  less = ltb;
  is_whole = λ n. true;
  search = λ pattern text. some true;
}

abbrev of_type : String → List String → Keywords ℕ
of_type name required = record {
  unknown = [];
  type = some name;
  const = none;
  choices = none;
  minimum = none;
  maximum = none;
  min_length = some 1;
  max_length = none;
  min_items = none;
  max_items = none;
  pattern = none;
  required = required;
  no_additional = true;
}

abbrev leaf : String → Schema ℕ
leaf name = schema (of_type name []) no_properties no_schema

abbrev person : Schema ℕ
person =
    schema (of_type "object" ("name" ∷ "age" ∷ []))
      (property "name" (subschema (leaf "string"))
        (property "age" (subschema (leaf "integer")) no_properties))
      no_schema

abbrev nameless : Json ℕ
nameless = object (field "name" (string "") no_fields)

person-Supported : Supported library person
person-Supported = (
  refl,
  ((λ p e. cc), (((refl, ((λ p e. cc), (tt, tt))), ((refl, ((λ p e. cc), (tt, tt))), tt)), tt)),
)

validate-Conforms_example :
    (validate library person nameless [] ≡ found []) ↔ Conforms library person nameless
validate-Conforms_example = validate-Conforms library person nameless [] person-Supported

validate-Answers_example : Answers [] (validate library person nameless [])
validate-Answers_example = validate-Answers library person nameless [] person-Supported
