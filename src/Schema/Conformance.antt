-- ===== src/Schema/Conformance.antt =====
-- What it is to conform to a schema, said without the validator.
use Prim.Native.String.{count}
use free_weight.Base.{
  ℕ, suc, ◌≤◌, ◌≡◌, ◌⊎◌, Bool, true, false, String, str_eq, some, List, [], any_of, All,
}
use free_weight.Json.{
  Json, null, boolean, number, string, array, object, Items, no_items, item, Fields, has_key, get,
  keys, same,
}
use free_weight.Schema.{
  Library, Keywords, Schema, schema, Properties, no_properties, property, Subschema, no_schema,
  subschema,
}
use free_weight.Schema.Validate.{names}
use free_weight.Schema.Checks.{AllItems}

module _ {N : Type 0} where
  -- The names of a value's type. A boolean is no number, and a float without a fraction is an integer.
  abbrev pub HasType : Library N → Json N → String → Type 0
  HasType l null name = name ≡ "null"
  HasType l (boolean b) name = name ≡ "boolean"
  HasType l (number n) name = (name ≡ "number") ⊎ ((name ≡ "integer") × (l.is_whole n ≡ true))
  HasType l (string s) name = name ≡ "string"
  HasType l (array xs) name = name ≡ "array"
  HasType l (object f) name = name ≡ "object"

  -- What the bounds measure: a number, where a boolean is 0 or 1; the characters of a text; the items
  -- of a list.
  abbrev pub IsNumber : Library N → Json N → N → Type 0
  IsNumber l (number m) n = m ≡ n
  IsNumber l (boolean b) n = l.numbers.of_bool b ≡ n
  IsNumber l _ n = ⊥

  abbrev pub HasLength : Json N → ℕ → Type 0
  HasLength (string s) n = count s ≡ n
  HasLength _ n = ⊥

  abbrev pub IsCount : Items N → ℕ → Type 0
  IsCount no_items n = 0 ≡ n
  IsCount (item x xs) n = (m : ℕ) × ((suc m ≡ n) × IsCount xs m)

  abbrev pub HasItems : Json N → ℕ → Type 0
  HasItems (array xs) n = IsCount xs n
  HasItems _ n = ⊥

  -- A value satisfies the keywords that concern it itself.
  pub record FitsKeywords (l : Library N) (k : Keywords N) (v : Json N) : Type 0 where
    pub of_type : (name : String) → k.type ≡ some name → HasType l v name
    pub is_const : (c : Json N) → k.const ≡ some c → same l.numbers v c ≡ true
    pub is_choice : (cs : List (Json N)) → k.choices ≡ some cs → any_of (same l.numbers v) cs ≡ true
    pub at_least : (m n : N) → k.minimum ≡ some m → IsNumber l v n → l.less n m ≡ false
    pub at_most : (m n : N) → k.maximum ≡ some m → IsNumber l v n → l.less m n ≡ false
    pub text_at_least : (m n : ℕ) → k.min_length ≡ some m → HasLength v n → m ≤ n
    pub text_at_most : (m n : ℕ) → k.max_length ≡ some m → HasLength v n → n ≤ m
    pub items_at_least : (m n : ℕ) → k.min_items ≡ some m → HasItems v n → m ≤ n
    pub items_at_most : (m n : ℕ) → k.max_items ≡ some m → HasItems v n → n ≤ m
    pub matches :
        (p text : String) → k.pattern ≡ some p → v ≡ string text → l.search p text ≡ some true

  -- A dict has the keys that are required, and no others than declared ones if it may not.
  abbrev pub FitsKeys : Keywords N → Properties N → Fields N → Type 0
  FitsKeys k ps f =
      All (λ name. has_key name f ≡ true) k.required
      × (k.no_additional ≡ true → All (λ name. any_of (str_eq name) (names ps) ≡ true) (keys f))

  -- Its parts, where a property and an item have theirs to satisfy.
  abbrev pub FitsParts :
      Keywords N → Properties N → (Fields N → Type 0) → (Json N → Type 0) → Json N → Type 0
  FitsParts k ps of_properties of_item (object f) = FitsKeys k ps f × of_properties f
  FitsParts k ps of_properties of_item (array xs) = AllItems of_item xs
  FitsParts k ps of_properties of_item v = Unit

abbrev mutual
  pub Conforms : {N : Type 0} → Library N → Schema N → Json N → Type 0
  Conforms l (schema k ps items) v =
      FitsKeywords l k v
      × FitsParts k ps (λ f. PropertiesConform l ps f) (λ x. NestedConforms l items x) v

  pub PropertiesConform : {N : Type 0} → Library N → Properties N → Fields N → Type 0
  PropertiesConform l no_properties f = Unit
  PropertiesConform l (property name sub rest) f =
      (has_key name f ≡ true → NestedConforms l sub (get name f)) × PropertiesConform l rest f

  pub NestedConforms : {N : Type 0} → Library N → Subschema N → Json N → Type 0
  NestedConforms l no_schema v = Unit
  NestedConforms l (subschema s) v = Conforms l s v

-- A pattern of at most 200 characters that compiles.
abbrev pub IsPattern : {N : Type 0} → Library N → String → Type 0
IsPattern l p =
    (count p ≤ 200) × ((text : String) → (matches : Bool) × (l.search p text ≡ some matches))

-- A schema that the validator decides, at every level.
abbrev mutual
  pub Supported : {N : Type 0} → Library N → Schema N → Type 0
  Supported l (schema k ps items) =
      (k.unknown ≡ [])
      × (((p : String) → k.pattern ≡ some p → IsPattern l p)
          × (PropertiesSupported l ps × NestedSupported l items))

  pub PropertiesSupported : {N : Type 0} → Library N → Properties N → Type 0
  PropertiesSupported l no_properties = Unit
  PropertiesSupported l (property name sub rest) =
      NestedSupported l sub × PropertiesSupported l rest

  pub NestedSupported : {N : Type 0} → Library N → Subschema N → Type 0
  NestedSupported l no_schema = Unit
  NestedSupported l (subschema s) = Supported l s
