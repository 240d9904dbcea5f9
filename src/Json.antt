-- ===== src/Json.antt =====
-- JSON documents as the code reads them from json.loads: scalars, lists and dicts. `Numbers` stands
-- for Python's int and float with their comparison, under which True is 1 and False is 0.
use free_weight.Base.{
  ℕ, zero, suc, ◌==◌, Bool, true, false, ◌&&◌, String, List, [], ◌∷◌, str_eq, if◌then◌else◌,
}

mutual
  pub data Json (N : Type 0) : Type 0 where
    null : Json N
    boolean : Bool → Json N
    number : N → Json N
    string : String → Json N
    array : Items N → Json N
    object : Fields N → Json N

  pub data Items (N : Type 0) : Type 0 where
    no_items : Items N
    item : Json N → Items N → Items N

  pub data Fields (N : Type 0) : Type 0 where
    no_fields : Fields N
    field : String → Json N → Fields N → Fields N

pub record Numbers (N : Type 0) : Type 0 where
  pub equal : N → N → Bool
  pub of_bool : Bool → N

module _ {N : Type 0} where
  -- `key in mapping`
  abbrev pub has_key : String → Fields N → Bool
  has_key key no_fields = false
  has_key key (field k v rest) = if str_eq k key then true else has_key key rest

  -- `mapping.get(key)`, None where the key is missing.
  abbrev pub get : String → Fields N → Json N
  get key no_fields = null
  get key (field k v rest) = if str_eq k key then v else get key rest

  abbrev pub size : Fields N → ℕ
  size no_fields = zero
  size (field k v rest) = suc (size rest)

  -- `isinstance(value, dict)`
  abbrev pub is_object : Json N → Bool
  is_object (object f) = true
  is_object _ = false

  abbrev pub keys : Fields N → List String
  keys no_fields = []
  keys (field k v rest) = k ∷ keys rest

-- Python's `==`; two dicts are equal whatever the order of their keys.
unfoldable mutual
  pub same : {N : Type 0} → Numbers N → Json N → Json N → Bool
  same n null null = true
  same n (boolean a) (boolean b) = n.equal (n.of_bool a) (n.of_bool b)
  same n (boolean a) (number b) = n.equal (n.of_bool a) b
  same n (number a) (boolean b) = n.equal a (n.of_bool b)
  same n (number a) (number b) = n.equal a b
  same n (string a) (string b) = str_eq a b
  same n (array a) (array b) = same_items n a b
  same n (object a) (object b) = size a == size b && same_fields n a b
  same n _ _ = false

  pub same_items : {N : Type 0} → Numbers N → Items N → Items N → Bool
  same_items n no_items no_items = true
  same_items n (item a as_) (item b bs) = same n a b && same_items n as_ bs
  same_items n _ _ = false

  pub same_fields : {N : Type 0} → Numbers N → Fields N → Fields N → Bool
  same_fields n no_fields other = true
  same_fields n (field k v rest) other =
      has_key k other && (same n v (get k other) && same_fields n rest other)
