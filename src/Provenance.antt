-- ===== src/Provenance.antt =====
-- domain/provenance.py: how two fingerprint documents are compared. A dotted path is the list of its
-- parts where one is read. `walk` is given the depth of the first document as fuel.
mod Keys
pub mod Agreement
mod Examples
use Prim.Native.Nat.{max}
use Prim.Native.String.{◌++◌ as text_append}
use free_weight.Base.{
  ℕ, zero, suc, Bool, true, false, not, ◌&&◌, String, str_eq, str_leb, sorted_strings, List, [],
  ◌∷◌, ◌++◌, keep_if, any_of, flat_map, if◌then◌else◌,
}
use free_weight.Json.{
  is_object, keys, Json, null, object, Fields, no_fields, field, Numbers, get, same,
}

pub record FieldDiff (N : Type 0) : Type 0 where
  pub path : String
  pub left : Json N
  pub right : Json N

-- `f"{prefix}.{key}" if prefix else key`
abbrev pub child_path : String → String → String
child_path prefix key = if str_eq prefix "" then key else text_append prefix (text_append "." key)

module _ {N : Type 0} where
  -- The dict that the test has found.
  abbrev pub fields_of : Json N → Fields N
  fields_of (object f) = f
  fields_of _ = no_fields

  abbrev pub both_objects : Json N → Json N → Bool
  both_objects a b = is_object a && is_object b

  -- `sorted(set(first) | set(second))`
  abbrev pub all_keys : Fields N → Fields N → List String
  all_keys first second =
      sorted_strings
        (keys first ++ keep_if (λ key. not (any_of (str_eq key) (keys first))) (keys second))

  -- The comparison at the end of `walk`.
  abbrev pub leaf_diff : Numbers N → String → Json N → Json N → List (FieldDiff N)
  leaf_diff n prefix first second =
      if same n first second
      then []
      else record { path = prefix; left = first; right = second } ∷ []

  unfoldable pub walk : Numbers N → ℕ → String → Json N → Json N → List (FieldDiff N)
  walk n zero prefix first second = leaf_diff n prefix first second
  walk n (suc fuel) prefix first second =
      if both_objects first second
      then flat_map
          (λ key.
            walk n fuel (child_path prefix key) (get key (fields_of first))
              (get key (fields_of second)))
          (all_keys (fields_of first) (fields_of second))
      else leaf_diff n prefix first second

  -- `sorted(diffs, key=lambda diff: diff.path)`
  abbrev pub insert_diff : FieldDiff N → List (FieldDiff N) → List (FieldDiff N)
  insert_diff d [] = d ∷ []
  insert_diff d (e ∷ es) = if str_leb d.path e.path then d ∷ e ∷ es else e ∷ insert_diff d es

  abbrev pub sorted_diffs : List (FieldDiff N) → List (FieldDiff N)
  sorted_diffs [] = []
  sorted_diffs (d ∷ ds) = insert_diff d (sorted_diffs ds)

-- How many dicts stand inside one another.
unfoldable mutual
  pub depth : {N : Type 0} → Json N → ℕ
  depth (object f) = suc (depth_fields f)
  depth _ = zero

  pub depth_fields : {N : Type 0} → Fields N → ℕ
  depth_fields no_fields = zero
  depth_fields (field k v rest) = max (depth v) (depth_fields rest)

pub record RepeatBlocker (N : Type 0) : Type 0 where
  pub field_path : List String
  pub recorded : Json N
  pub observed : Json N
  pub reason : String

pub record Check : Type 0 where
  pub path : List String
  pub reason : String

-- The table `checks`, without the explanations.
abbrev pub checks : List Check
checks =
    record { path = "model" ∷ "artifact_digest" ∷ []; reason = "model_digest_changed" }
    ∷ record { path = "machine_fingerprint" ∷ []; reason = "machine_changed" }
    ∷ record { path = "provider" ∷ "version" ∷ []; reason = "provider_version_changed" }
    ∷ record { path = "benchmark" ∷ "dataset_hashes" ∷ []; reason = "dataset_hash_changed" }
    ∷ []

module _ {N : Type 0} where
  unfoldable pub diff_documents : Numbers N → Fields N → Fields N → List (FieldDiff N)
  unfolding walk depth
  diff_documents n left right =
      sorted_diffs (walk n (depth (object left)) "" (object left) (object right))

  -- The loop of `_get`.
  unfoldable pub get_path : List String → Json N → Json N
  get_path [] current = current
  get_path (part ∷ parts) (object f) = get_path parts (get part f)
  get_path (part ∷ parts) _ = null

  -- One turn of the loop over the checks.
  abbrev pub blocker_of : Numbers N → Json N → Json N → Check → List (RepeatBlocker N)
  blocker_of n recorded observed check =
      let before = get_path check.path recorded in
      let now = get_path check.path observed in
      if same n before now
      then []
      else record {
        field_path = check.path;
        recorded = before;
        observed = now;
        reason = check.reason;
      }
        ∷ []

  unfoldable pub check_repeatable : Numbers N → Fields N → Fields N → List (RepeatBlocker N)
  unfolding get_path
  check_repeatable n recorded observed =
      flat_map (blocker_of n (object recorded) (object observed)) checks
