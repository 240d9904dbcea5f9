-- ===== src/Schema/Reports.antt =====
-- What the validator reports: always a list, and where the violations are.
use Prim.Native.String.{count}
use free_weight.Base.{
  ◌≡◌, refl, ap, ◌∙◌, inl, inr, ltb, Bool, true, false, not, ◌||◌, String, Option, none, some, List,
  [], ◌∷◌, ◌++◌, All, All-append, flat_map, map, Bool-cases, suc, ℕ, arith,
}
use free_weight.Json.{
  Json, string, array, object, Items, no_items, item, Fields, has_key, get, is_object,
}
use free_weight.Schema.{
  Library, Keywords, Schema, schema, Properties, no_properties, property, Subschema, no_schema,
  subschema, Segment, key, index, Violation, ViolationKind, Report, found, chained, wrong_type_of,
  is_array, violation_if, missing_required, additional, nesting, maximum_pattern_length,
}
use free_weight.Schema.Validate.{
  reclassified, parts_report, each_item, key_violations, value_violations, value_checks,
  pattern_report, validate, validate_properties, validate_nested, undeclared,
}
use free_weight.Schema.Conformance.{IsPattern, Supported, PropertiesSupported, NestedSupported}

-- A violation at a path, or at one below it.
abbrev pub IsBelow : List Segment → Violation → Type 0
IsBelow path v = (steps : List Segment) × (v.path ≡ steps ++ path)

-- The validator has answered, with violations at the path or below it.
abbrev pub Answers : List Segment → Report → Type 0
Answers path report = (vs : List Violation) × ((report ≡ found vs) × All (IsBelow path) vs)

answer :
    (path : List Segment) (vs : List Violation) → All (IsBelow path) vs → Answers path (found vs)
answer path vs h = (vs, (refl, h))

chained-Answers :
    (path : List Segment) (a b : Report)
    → Answers path a
    → Answers path b
    → Answers path (chained a b)
chained-Answers path a b (xs, (ea, hx)) (ys, (eb, hy)) =
    rw (ea, eb) (answer path (xs ++ ys) (All-append (IsBelow path) xs ys hx hy))

append_snoc :
    (steps : List Segment) (s : Segment) (path : List Segment)
    → steps ++ s ∷ path ≡ (steps ++ s ∷ []) ++ path
append_snoc [] s path = refl
append_snoc (t ∷ ts) s path = ap (λ l. t ∷ l) (append_snoc ts s path)

raise-All :
    (s : Segment) (path : List Segment) (vs : List Violation)
    → All (IsBelow (s ∷ path)) vs
    → All (IsBelow path) vs
raise-All s path [] h = tt
raise-All s path (v ∷ vs) h =
    let (steps, e) = h.0 in
    ((steps ++ s ∷ [], e ∙ append_snoc steps s path), raise-All s path vs h.1)

-- What is reported of a member is reported of the whole.
raise-Answers :
    (s : Segment) (path : List Segment) (r : Report) → Answers (s ∷ path) r → Answers path r
raise-Answers s path r (vs, (e, h)) = (vs, (e, raise-All s path vs h))

violation_if-IsBelow :
    (test : Bool) (steps path : List Segment) (kind : ViolationKind)
    → All (IsBelow path) (violation_if test (steps ++ path) kind)
violation_if-IsBelow true steps path kind = ((steps, refl), tt)
violation_if-IsBelow false steps path kind = tt

each-IsBelow :
    {A : Type 0} (path : List Segment) (f : A → List Violation)
    → ((a : A) → All (IsBelow path) (f a))
    → (xs : List A) → All (IsBelow path) (flat_map f xs)
each-IsBelow path f h [] = tt
each-IsBelow path f h (x ∷ xs) =
    All-append (IsBelow path) (f x) (flat_map f xs) (h x) (each-IsBelow path f h xs)

reclassified-Answers :
    (test : Bool) (path : List Segment) (r : Report)
    → Answers path r
    → Answers path (reclassified test r)
reclassified-Answers false path r h = h
reclassified-Answers true path r (vs, (e, h)) = rw e (answer path _ (moved vs h))
  where
    moved :
        (ws : List Violation)
        → All (IsBelow path) ws
        → All (IsBelow path) (map (λ (v : Violation). record { path = v.path; kind = nesting }) ws)
    moved [] k = tt
    moved (w ∷ ws) k = (k.0, moved ws k.1)

module _ {N : Type 0} where
  pattern-Answers :
      (l : Library N) (pattern : Option String) (v : Json N) (path : List Segment)
      → ((p : String) → pattern ≡ some p → IsPattern l p)
      → Answers path (pattern_report l pattern v path)
  pattern-Answers l (some p) (string text) path short =
      let ok = short p refl in
      let fits : ltb maximum_pattern_length (count p) ≡ false = ground (arith, ok.0) in
      let (matches, e) = ok.1 text in
      rw (fits, e)
        (answer path _ (violation_if-IsBelow (not matches) [] path ViolationKind.pattern))
  pattern-Answers l none v path short = answer path [] tt
  pattern-Answers l (some p) v path short = answer path [] tt

  key_violations-IsBelow :
      (k : Keywords N) (ps : Properties N) (f : Fields N) (path : List Segment)
      → All (IsBelow path) (key_violations k ps f path)
  unfolding key_violations
  key_violations-IsBelow k ps f path =
      All-append (IsBelow path) (flat_map _ k.required) _
        (each-IsBelow path _
          (λ name.
            violation_if-IsBelow (not (has_key name f)) (key name ∷ []) path missing_required)
          k.required)
        (elim (Bool-cases k.no_additional) [
          | inl e ↦ rw e (
              each-IsBelow path (λ name. violation_if true (key name ∷ path) additional)
                (λ name. violation_if-IsBelow true (key name ∷ []) path additional)
                (undeclared ps f))
          | inr e ↦ rw e tt
        ])

  each_item-Answers :
      (check : Json N → List Segment → Report)
      → ((x : Json N) (path : List Segment) → Answers path (check x path))
      → (i : ℕ) (xs : Items N) (path : List Segment) → Answers path (each_item check i xs path)
  each_item-Answers check h i no_items path = answer path [] tt
  each_item-Answers check h i (item x xs) path =
      chained-Answers path _ _ (raise-Answers (index i) path _ (h x (index i ∷ path)))
        (each_item-Answers check h (suc i) xs path)

  parts-Answers :
      (k : Keywords N) (ps : Properties N) (check_fields : Fields N → Report)
      (check_item : Json N → List Segment → Report) (path : List Segment)
      → ((f : Fields N) → Answers path (check_fields f))
      → ((x : Json N) (at : List Segment) → Answers at (check_item x at))
      → (v : Json N) → Answers path (parts_report k ps check_fields check_item v path)
  parts-Answers k ps check_fields check_item path hf hi (object f) =
      chained-Answers path _ _ (answer path _ (key_violations-IsBelow k ps f path)) (hf f)
  parts-Answers k ps check_fields check_item path hf hi (array xs) =
      each_item-Answers check_item hi 0 xs path
  parts-Answers k ps check_fields check_item path hf hi v = answer path [] tt

mutual
  unfolding validate value_violations

  schema-Answers :
      {N : Type 0} (l : Library N) (s : Schema N) (v : Json N) (path : List Segment)
      → Supported l s
      → Answers path (validate l s v path)
  schema-Answers l (schema k ps items) v path ok = elim (Bool-cases (wrong_type_of l k v)) [
    | inl f ↦ rw (ok.0, f) (answer path _ (([], refl), tt))
    | inr f ↦
        rw (ok.0, f)
          (chained-Answers path (found (value_violations l k v path)) _
            (answer path _ (
              each-IsBelow path _
                (λ (c : Bool × ViolationKind). violation_if-IsBelow c.0 [] path c.1)
                (value_checks l k v)))
            (chained-Answers path _ _ (pattern-Answers l k.pattern v path ok.1.0) (
              parts-Answers k ps _ _ path (λ g. properties-Answers l ps g path ok.1.1.0)
                (λ x at. nested-Answers l items x at ok.1.1.1) v)))
  ]

  properties-Answers :
      {N : Type 0} (l : Library N) (ps : Properties N) (f : Fields N) (path : List Segment)
      → PropertiesSupported l ps
      → Answers path (validate_properties l ps f path)
  properties-Answers l no_properties f path ok = answer path [] tt
  properties-Answers l (property name sub rest) f path ok =
      chained-Answers path _ _
        (elim (Bool-cases (has_key name f)) [
          | inl e ↦ rw e (
              raise-Answers (key name) path _
                (nested-Answers l sub (get name f) (key name ∷ path) ok.0))
          | inr e ↦ rw e (answer path [] tt)
        ])
        (properties-Answers l rest f path ok.1)

  nested-Answers :
      {N : Type 0} (l : Library N) (sub : Subschema N) (v : Json N) (path : List Segment)
      → NestedSupported l sub
      → Answers path (validate_nested l sub v path)
  nested-Answers l no_schema v path ok = answer path [] tt
  nested-Answers l (subschema s) v path ok =
      reclassified-Answers (is_object v || is_array v) path _ (schema-Answers l s v path ok)

-- On a schema that it supports at every level (no keyword is unknown, and each pattern has at most
-- 200 characters and compiles) the validator never raises, whatever the value, and every violation it
-- reports is at the path it was given or below it.
pub validate-Answers :
    {N : Type 0} (l : Library N) (s : Schema N) (v : Json N) (path : List Segment)
    → Supported l s
    → Answers path (validate l s v path)
validate-Answers l s v path ok = schema-Answers l s v path ok
