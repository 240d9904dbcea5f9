-- ===== src/Schema/Validation.antt =====
-- The validator accepts what conforms.
use free_weight.Base.{◌≡◌, refl, ◌↔◌, inl, inr, ◌||◌, List, [], ◌∷◌, Bool-cases}
use free_weight.Json.{Json, array, object, Fields, has_key, get, is_object}
use free_weight.Schema.{
  Library, Keywords, Schema, schema, Properties, no_properties, property, Subschema, no_schema,
  subschema, Segment, key, Report, found, wrong_type_of, is_array, is_empty_list,
}
use free_weight.Schema.Validate.{
  parts_report, key_violations, validate, validate_properties, validate_nested,
}
use free_weight.Schema.Checks.{
  chained→empty, empty→chained, found_empty, reclassified→empty, each_item→AllItems,
  AllItems→each_item,
}
use free_weight.Schema.Conformance.{
  Conforms, PropertiesConform, NestedConforms, FitsParts, Supported, PropertiesSupported,
  NestedSupported,
}
use free_weight.Schema.Keyword.{
  checks→FitsKeywords, FitsKeywords→checks, key_violations→FitsKeys, FitsKeys→key_violations,
}

module _ {N : Type 0} where
  -- The parts, once the properties and the items are dealt with.
  parts→FitsParts :
      (k : Keywords N) (ps : Properties N) (check_fields : Fields N → Report)
      (check_item : Json N → List Segment → Report) (OfFields : Fields N → Type 0)
      (OfItem : Json N → Type 0)
      → ((f : Fields N) → check_fields f ≡ found [] → OfFields f)
      → ((x : Json N) (path : List Segment) → check_item x path ≡ found [] → OfItem x)
      → (v : Json N) (path : List Segment)
      → parts_report k ps check_fields check_item v path ≡ found []
      → FitsParts k ps OfFields OfItem v
  parts→FitsParts k ps check_fields check_item OfFields OfItem hf hi (object f) path h =
      let parts = chained→empty (found (key_violations k ps f path)) (check_fields f) h in
      (key_violations→FitsKeys k ps f path (found_empty _ parts.0), hf f parts.1)
  parts→FitsParts k ps check_fields check_item OfFields OfItem hf hi (array xs) path h =
      each_item→AllItems OfItem check_item hi 0 xs path h
  parts→FitsParts k ps check_fields check_item OfFields OfItem hf hi v path h = tt

  FitsParts→parts :
      (k : Keywords N) (ps : Properties N) (check_fields : Fields N → Report)
      (check_item : Json N → List Segment → Report) (OfFields : Fields N → Type 0)
      (OfItem : Json N → Type 0)
      → ((f : Fields N) → OfFields f → check_fields f ≡ found [])
      → ((x : Json N) (path : List Segment) → OfItem x → check_item x path ≡ found [])
      → (v : Json N) (path : List Segment) → FitsParts k ps OfFields OfItem v
      → parts_report k ps check_fields check_item v path ≡ found []
  FitsParts→parts k ps check_fields check_item OfFields OfItem hf hi (object f) path h =
      rw (FitsKeys→key_violations k ps f path h.0, hf f h.1) refl
  FitsParts→parts k ps check_fields check_item OfFields OfItem hf hi (array xs) path h =
      AllItems→each_item OfItem check_item hi 0 xs path h
  FitsParts→parts k ps check_fields check_item OfFields OfItem hf hi v path h = refl

mutual
  unfolding validate

  validate→Conforms :
      {N : Type 0} (l : Library N) (s : Schema N) (v : Json N) (path : List Segment)
      → validate l s v path ≡ found []
      → Conforms l s v
  validate→Conforms l (schema k ps items) v path h = elim (Bool-cases (is_empty_list k.unknown)) [
    | inr e ↦ absurd (let q = rw e at h in cc)
    | inl e ↦ elim (Bool-cases (wrong_type_of l k v)) [
      | inl f ↦ absurd (let q = rw (e, f) at h in cc)
      | inr f ↦
          let all = chained→empty _ _ (rw (e, f) at h) in
          let rest = chained→empty _ _ all.1 in
          (
            checks→FitsKeywords l k v path f (found_empty _ all.0) rest.0,
            parts→FitsParts k ps _ _ (λ g. PropertiesConform l ps g) (λ x. NestedConforms l items x)
                (λ g. properties→Conform l ps g path) (λ x at. nested→Conforms l items x at) v path
                rest.1,
          )
    ]
  ]

  properties→Conform :
      {N : Type 0} (l : Library N) (ps : Properties N) (f : Fields N) (path : List Segment)
      → validate_properties l ps f path ≡ found []
      → PropertiesConform l ps f
  properties→Conform l no_properties f path h = tt
  properties→Conform l (property name sub rest) f path h =
      let parts = chained→empty _ _ h in
      (
        λ e. nested→Conforms l sub (get name f) (key name ∷ path) (rw e at parts.0),
        properties→Conform l rest f path parts.1,
      )

  nested→Conforms :
      {N : Type 0} (l : Library N) (sub : Subschema N) (v : Json N) (path : List Segment)
      → validate_nested l sub v path ≡ found []
      → NestedConforms l sub v
  nested→Conforms l no_schema v path h = tt
  nested→Conforms l (subschema s) v path h =
      validate→Conforms l s v path (reclassified→empty _ (validate l s v path) h)

mutual
  unfolding validate

  Conforms→validate :
      {N : Type 0} (l : Library N) (s : Schema N) (v : Json N) (path : List Segment)
      → Supported l s
      → Conforms l s v
      → validate l s v path ≡ found []
  Conforms→validate l (schema k ps items) v path ok h =
      let own = FitsKeywords→checks l k v path ok.1.0 h.0 in
      rw (ok.0, own.0, own.1.0, own.1.1)
        (empty→chained (found []) _ refl (
          empty→chained (found []) _ refl (
            FitsParts→parts k ps _ _ (λ g. PropertiesConform l ps g) (λ x. NestedConforms l items x)
              (λ g. Conform→properties l ps g path ok.1.1.0)
              (λ x at. Conforms→nested l items x at ok.1.1.1) v path h.1)))

  Conform→properties :
      {N : Type 0} (l : Library N) (ps : Properties N) (f : Fields N) (path : List Segment)
      → PropertiesSupported l ps
      → PropertiesConform l ps f
      → validate_properties l ps f path ≡ found []
  Conform→properties l no_properties f path ok h = refl
  Conform→properties l (property name sub rest) f path ok h =
      empty→chained _ _
        (elim (Bool-cases (has_key name f)) [
          | inl e ↦ rw e (Conforms→nested l sub (get name f) (key name ∷ path) ok.0 (h.0 e))
          | inr e ↦ rw e refl
        ])
        (Conform→properties l rest f path ok.1 h.1)

  Conforms→nested :
      {N : Type 0} (l : Library N) (sub : Subschema N) (v : Json N) (path : List Segment)
      → NestedSupported l sub
      → NestedConforms l sub v
      → validate_nested l sub v path ≡ found []
  Conforms→nested l no_schema v path ok h = refl
  Conforms→nested l (subschema s) v path ok h =
      rw (Conforms→validate l s v path ok h)
        (elim (Bool-cases (is_object v || is_array v)) [ inl e ↦ rw e refl | inr e ↦ rw e refl ])

-- The validator finds nothing wrong with a value exactly if the value conforms to the schema, if it
-- supports the schema at every level: no keyword is unknown, and each pattern has at most 200
-- characters and compiles.
pub validate-Conforms :
    {N : Type 0} (l : Library N) (s : Schema N) (v : Json N) (path : List Segment)
    → Supported l s
    → (validate l s v path ≡ found []) ↔ Conforms l s v
validate-Conforms l s v path ok = (validate→Conforms l s v path, Conforms→validate l s v path ok)
