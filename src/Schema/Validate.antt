-- ===== src/Schema/Validate.antt =====
-- validate, _object, _array, _nested and _bounds of domain/scorers/schema.py.
use Prim.Native.String.{count}
use free_weight.Base.{
  ℕ, suc, ltb, Bool, true, false, not, ◌||◌, String, str_eq, sorted_strings, Option, none, some,
  List, [], ◌∷◌, ◌++◌, map, keep_if, any_of, flat_map, if◌then◌else◌,
}
use free_weight.Json.{
  Json, string, array, object, Items, no_items, item, Fields, has_key, get, keys, same, is_object,
}
use free_weight.Schema.{
  ViolationKind, Segment, Violation, Keywords, Schema, Properties, Subschema, Library, Report,
  found, raised, schema_unsupported, pattern_error, chained, violation_if, maximum_pattern_length,
  is_array, is_type, wrong_type_of, measured_number, measured_text, measured_list, breaks,
  breaks_in, is_empty_list, missing_required, wrong_type, nesting, additional, bound, key, index,
  schema, no_properties, property, no_schema, subschema,
}

-- What re.search answers: re.error leaves the validator.
abbrev pub match_report : Option Bool → List Segment → Report
match_report none path = raised pattern_error
match_report (some matches) path = found (violation_if (not matches) path ViolationKind.pattern)

module _ {N : Type 0} where
  -- The checks of `const` and `enum`, and the six bounds of `_bounds`: each with whether it fails.
  abbrev pub value_checks : Library N → Keywords N → Json N → List (Bool × ViolationKind)
  value_checks l k document =
      (breaks_in k.const (λ c. not (same l.numbers document c)), ViolationKind.enum)
      ∷ (breaks_in k.choices (λ cs. not (any_of (same l.numbers document) cs)), ViolationKind.enum)
      ∷ (breaks l.less k.minimum (measured_number l document), bound)
      ∷ (breaks (λ m limit. l.less limit m) k.maximum (measured_number l document), bound)
      ∷ (breaks ltb k.min_length (measured_text document), bound)
      ∷ (breaks (λ m limit. ltb limit m) k.max_length (measured_text document), bound)
      ∷ (breaks ltb k.min_items (measured_list document), bound)
      ∷ (breaks (λ m limit. ltb limit m) k.max_items (measured_list document), bound)
      ∷ []

  unfoldable pub value_violations : Library N → Keywords N → Json N → List Segment → List Violation
  value_violations l k document path =
      flat_map (λ (c : Bool × ViolationKind). violation_if c.0 path c.1) (value_checks l k document)

  abbrev pub pattern_report : Library N → Option String → Json N → List Segment → Report
  pattern_report l (some p) (string text) path =
      if ltb maximum_pattern_length (count p)
      then raised schema_unsupported
      else match_report (l.search p text) path
  pattern_report l _ _ path = found []

  abbrev pub names : Properties N → List String
  names no_properties = []
  names (property name sub rest) = name ∷ names rest

  abbrev pub undeclared : Properties N → Fields N → List String
  undeclared ps f =
      sorted_strings (keep_if (λ name. not (any_of (str_eq name) (names ps))) (keys f))

  -- The first two loops of `_object`.
  unfoldable pub key_violations :
      Keywords N → Properties N → Fields N → List Segment → List Violation
  key_violations k ps f path =
      flat_map (λ name. violation_if (not (has_key name f)) (key name ∷ path) missing_required)
        k.required
      ++ (if k.no_additional
          then flat_map (λ name. violation_if true (key name ∷ path) additional) (undeclared ps f)
          else [])

  -- The loop of `_array`, with what is done for an item.
  abbrev pub each_item : (Json N → List Segment → Report) → ℕ → Items N → List Segment → Report
  each_item check i no_items path = found []
  each_item check i (item x xs) path =
      chained (check x (index i ∷ path)) (each_item check (suc i) xs path)

  -- _object and _array, with what is done for the declared properties and for an item.
  abbrev pub parts_report :
      Keywords N
      → Properties N
      → (Fields N → Report)
      → (Json N → List Segment → Report)
      → Json N
      → List Segment
      → Report
  parts_report k ps check_fields check_item (object f) path =
      chained (found (key_violations k ps f path)) (check_fields f)
  parts_report k ps check_fields check_item (array xs) path = each_item check_item 0 xs path
  parts_report k ps check_fields check_item document path = found []

-- `_nested` once the value has been validated: below the root a dict or a list is a nesting failure.
abbrev pub reclassified : Bool → Report → Report
reclassified false report = report
reclassified true (raised e) = raised e
reclassified true (found vs) =
    found (map (λ (v : Violation). record { path = v.path; kind = nesting }) vs)

unfoldable mutual
  unfolding value_violations key_violations is_type

  pub validate : {N : Type 0} → Library N → Schema N → Json N → List Segment → Report
  validate l (schema k ps items) document path =
      if not (is_empty_list k.unknown)
      then raised schema_unsupported
      else if wrong_type_of l k document
      then found (record { path = path; kind = wrong_type } ∷ [])
      else chained (found (value_violations l k document path)) (
          chained (pattern_report l k.pattern document path) (
            parts_report k ps (λ f. validate_properties l ps f path)
              (λ value at. validate_nested l items value at) document path))

  pub validate_properties :
      {N : Type 0} → Library N → Properties N → Fields N → List Segment → Report
  validate_properties l no_properties f path = found []
  validate_properties l (property name sub rest) f path =
      chained
        (if has_key name f then validate_nested l sub (get name f) (key name ∷ path) else found [])
        (validate_properties l rest f path)

  -- _nested
  pub validate_nested : {N : Type 0} → Library N → Subschema N → Json N → List Segment → Report
  validate_nested l no_schema value path = found []
  validate_nested l (subschema s) value path =
      reclassified (is_object value || is_array value) (validate l s value path)
