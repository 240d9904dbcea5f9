-- ===== src/Provenance/Agreement.antt =====
-- When the field diff of two documents is empty, and what a repeat is refused over.
use free_weight.Base.{
  ℕ, zero, suc, ◌≤◌, ◌≡◌, refl, ap, ◌↔◌, inl, inr, Bool, true, false, ◌||◌, String, str_eq, str_leb,
  List, [], ◌∷◌, any_of, All, ◌≢◌, flat_map-empty, All-flat_map, arith, Bool-cases,
}
use free_weight.Json.{is_object, Json, object, Fields, Numbers, get, same}
use free_weight.Provenance.{
  FieldDiff, RepeatBlocker, Check, both_objects, all_keys, leaf_diff, walk, child_path, insert_diff,
  sorted_diffs, depth, diff_documents, get_path, check_repeatable, blocker_of, checks,
}
use free_weight.Provenance.Keys.{
  All-at, All-every, All-flat_map_of, get-missing, get_path-null, depth-get,
}

module _ {N : Type 0} where
  -- Equal values are both dicts or neither.
  same-is_object : (n : Numbers N) (a b : Json N) → same n a b ≡ true → is_object a ≡ is_object b
  unfolding same
  same-is_object n (object f) (object g) h = refl
  same-is_object n a (object g) h = cc
  same-is_object n (object f) b h = cc
  same-is_object n a b h = refl

  abbrev pub alike : Numbers N → Json N → Json N → Bool
  alike n a b = both_objects a b || same n a b

  -- Whatever path is read in the two, it leads to two dicts or to equal values.
  abbrev pub ReadAlike : Numbers N → Json N → Json N → Type 0
  ReadAlike n a b = (path : List String) → alike n (get_path path a) (get_path path b) ≡ true

  below_leaf :
      (n : Numbers N) (part : String) (parts : List String) (a b : Json N)
      → both_objects a b ≡ false
      → is_object a ≡ is_object b
      → alike n (get_path (part ∷ parts) a) (get_path (part ∷ parts) b) ≡ true
  unfolding get_path same
  below_leaf n part parts (object f) (object g) h same_kind = cc
  below_leaf n part parts (object f) b h same_kind = cc
  below_leaf n part parts a (object g) h same_kind = cc
  below_leaf n part parts a b h same_kind = refl

  leaf→ReadAlike :
      (n : Numbers N) (prefix : String) (a b : Json N)
      → both_objects a b ≡ false
      → leaf_diff n prefix a b ≡ []
      → ReadAlike n a b
  unfolding get_path
  leaf→ReadAlike n prefix a b apart h path = elim (Bool-cases (same n a b)) [
    | inl e ↦ at_path e path
    | inr e ↦ absurd (let q = rw e at h in cc)
  ]
    where
      at_path :
          same n a b ≡ true
          → (path : List String) → alike n (get_path path a) (get_path path b) ≡ true
      at_path e [] = rw (apart, e) refl
      at_path e (part ∷ parts) = below_leaf n part parts a b apart (same-is_object n a b e)

  ReadAlike→leaf :
      (n : Numbers N) (prefix : String) (a b : Json N)
      → both_objects a b ≡ false
      → ReadAlike n a b
      → leaf_diff n prefix a b ≡ []
  unfolding get_path
  ReadAlike→leaf n prefix a b apart h = let e : same n a b ≡ true = rw apart at (h []) in rw e refl

  walk→ReadAlike :
      (n : Numbers N) (fuel : ℕ) (prefix : String) (a b : Json N)
      → depth a ≤ fuel
      → walk n fuel prefix a b ≡ []
      → ReadAlike n a b
  unfolding walk depth get_path
  walk→ReadAlike n (suc fuel) prefix (object f) (object g) d h [] = refl
  walk→ReadAlike n (suc fuel) prefix (object f) (object g) d h (part ∷ parts) =
      elim (Bool-cases (any_of (str_eq part) (all_keys f g))) [
        | inl e ↦
            let child =
              All-at (λ key. walk n fuel (child_path prefix key) (get key f) (get key g) ≡ []) part
                (all_keys f g) (flat_map-empty _ (all_keys f g) h) e in
            walk→ReadAlike n fuel (child_path prefix part) (get part f) (get part g)
              (omega (arith, d, depth-get part f)) child parts
        | inr e ↦
            let gone = get-missing part f g e in
            rw (gone.0, gone.1, get_path-null parts) (unfold same in refl)
      ]
  walk→ReadAlike n zero prefix (object f) b d h path = absurd (omega arith)
  walk→ReadAlike n fuel prefix a b d h path = leaf→ReadAlike n prefix a b refl h path

  ReadAlike→walk :
      (n : Numbers N) (fuel : ℕ) (prefix : String) (a b : Json N)
      → depth a ≤ fuel
      → ReadAlike n a b
      → walk n fuel prefix a b ≡ []
  unfolding walk depth get_path
  ReadAlike→walk n (suc fuel) prefix (object f) (object g) d h = All-flat_map _ (all_keys f g) (
      All-every _
        (λ key.
          ReadAlike→walk n fuel (child_path prefix key) (get key f) (get key g)
            (omega (arith, d, depth-get key f)) (λ path. h (key ∷ path)))
        (all_keys f g))
  ReadAlike→walk n zero prefix (object f) b d h = absurd (omega arith)
  ReadAlike→walk n fuel prefix a b d h = ReadAlike→leaf n prefix a b refl h

  insert_diff-some : (d : FieldDiff N) (ds : List (FieldDiff N)) → insert_diff d ds ≢ []
  insert_diff-some d [] h = cc
  insert_diff-some d (e ∷ es) h = elim (Bool-cases (str_leb d.path e.path)) [
    | inl f ↦ let q = rw f at h in cc
    | inr f ↦ let q = rw f at h in cc
  ]

  sorted_diffs-empty : (ds : List (FieldDiff N)) → sorted_diffs ds ≡ [] → ds ≡ []
  sorted_diffs-empty [] h = refl
  sorted_diffs-empty (d ∷ ds) h = absurd (insert_diff-some d (sorted_diffs ds) h)

  -- Two documents have no field diff exactly if every dotted path, read in both, leads to two dicts
  -- or to equal values, where a missing key reads as None.
  pub diff_documents-ReadAlike :
      (n : Numbers N) (left right : Fields N)
      → (diff_documents n left right ≡ []) ↔ ReadAlike n (object left) (object right)
  unfolding diff_documents
  diff_documents-ReadAlike n left right =
      let fuel = depth (object left) in
      (
        λ h.
            walk→ReadAlike n fuel "" (object left) (object right) (omega arith)
              (sorted_diffs-empty _ h),
        λ h.
            ap sorted_diffs (ReadAlike→walk n fuel "" (object left) (object right) (omega arith) h),
      )

  abbrev pub OverDicts : RepeatBlocker N → Type 0
  OverDicts b = both_objects b.recorded b.observed ≡ true

  blocker_of-OverDicts :
      (n : Numbers N) (a b : Json N) (check : Check)
      → ReadAlike n a b
      → All OverDicts (blocker_of n a b check)
  blocker_of-OverDicts n a b check h =
      elim (Bool-cases (same n (get_path check.path a) (get_path check.path b))) [
        | inl e ↦ rw e tt
        | inr e ↦
            let read = h check.path in
            let both : both_objects (get_path check.path a) (get_path check.path b) ≡ true =
              let q = rw e at read in ground arith in
            rw e (both, tt)
      ]

  -- A repeat of a run whose document shows no field diff is refused over nothing but a path that
  -- leads to a dict in both documents; the digest of the model, the machine and the provider's
  -- version, where they are not dicts, do not refuse it.
  pub check_repeatable-OverDicts :
      (n : Numbers N) (recorded observed : Fields N)
      → diff_documents n recorded observed ≡ []
      → All OverDicts (check_repeatable n recorded observed)
  unfolding check_repeatable
  check_repeatable-OverDicts n recorded observed h =
      let read = (diff_documents-ReadAlike n recorded observed).0 h in
      All-flat_map_of OverDicts (blocker_of n (object recorded) (object observed)) checks
        (λ check. blocker_of-OverDicts n (object recorded) (object observed) check read)
