-- ===== src/Schema/Keyword.antt =====
-- The keywords of one schema: the validator's checks find nothing exactly if they are satisfied.
use Prim.Native.String.{count}
use free_weight.Base.{
  ◌≡◌, refl, ap, inl, inr, ltb, Bool, true, false, not, String, Option, none, some, List, [], ◌∷◌,
  any_of, flat_map, flat_map-empty, All-flat_map, append-empty, arith, Bool-cases, Option-cases,
}
use free_weight.Json.{Json, string, Fields, has_key, keys, same}
use free_weight.Schema.{
  Library, Keywords, Properties, Segment, key, ViolationKind, violation_if, wrong_type_of,
  missing_required, additional, maximum_pattern_length, measured_number, measured_text,
  measured_list, found,
}
use free_weight.Schema.Measuring.{
  is_type-HasType, HasType-is_type, IsNumber-measured, measured-IsNumber, HasLength-measured,
  measured-HasLength, HasItems-measured, measured-HasItems,
}
use free_weight.Schema.Validate.{
  match_report, value_violations, value_checks, pattern_report, key_violations, undeclared,
}
use free_weight.Schema.Checks.{
  violation_if→false, not-false, breaks→Within, Within→breaks, breaks_in→each, each→breaks_in,
  sorted_strings-empty, keep_if→All, All→keep_if, All-map, found_empty,
}
use free_weight.Schema.Conformance.{IsPattern, FitsKeywords, FitsKeys}

module _ {N : Type 0} where
  pattern→matches :
      (l : Library N) (pattern : Option String) (v : Json N) (path : List Segment)
      → pattern_report l pattern v path ≡ found []
      → (p text : String) → pattern ≡ some p
      → v ≡ string text
      → l.search p text ≡ some true
  pattern→matches l pattern v path h p text e f =
      let here = rw (e, f) at h in
      elim (Bool-cases (ltb maximum_pattern_length (count p))) [
        | inl g ↦ absurd (let q = rw g at here in cc)
        | inr g ↦ answered (l.search p text) (rw g at here)
      ]
    where
      answered : (answer : Option Bool) → match_report answer path ≡ found [] → answer ≡ some true
      answered none q = cc
      answered (some b) q =
          ap some (not-false b (violation_if→false _ path ViolationKind.pattern (found_empty _ q)))

  matches→pattern :
      (l : Library N) (pattern : Option String) (v : Json N) (path : List Segment)
      → ((p : String) → pattern ≡ some p → IsPattern l p)
      → ((p text : String) → pattern ≡ some p → v ≡ string text → l.search p text ≡ some true)
      → pattern_report l pattern v path ≡ found []
  matches→pattern l (some p) (string text) path short h =
      let ok = short p refl in
      let fits : ltb maximum_pattern_length (count p) ≡ false = ground (arith, ok.0) in
      rw (fits, h p text refl refl) refl
  matches→pattern l none v path short h = refl
  matches→pattern l (some p) v path short h = refl

  pub checks→FitsKeywords :
      (l : Library N) (k : Keywords N) (v : Json N) (path : List Segment)
      → wrong_type_of l k v ≡ false
      → value_violations l k v path ≡ []
      → pattern_report l k.pattern v path ≡ found []
      → FitsKeywords l k v
  unfolding value_violations
  checks→FitsKeywords l k v path typed values pattern =
      let none_fails =
        All-map {P = λ c. violation_if c.0 path c.1 ≡ []} {Q = λ c. c.0 ≡ false}
          (λ c. violation_if→false c.0 path c.1) (value_checks l k v)
          (flat_map-empty (λ (c : Bool × ViolationKind). violation_if c.0 path c.1)
            (value_checks l k v) values) in
      let (const, (choices, (low, (high, (short, (long, (few, (many, _)))))))) = none_fails in
      record {
        of_type = λ name e. is_type-HasType l v name (not-false _ (rw e at typed));
        is_const = breaks_in→each k.const (same l.numbers v) const;
        is_choice = breaks_in→each k.choices (any_of (same l.numbers v)) choices;
        at_least = λ m n e is.
            breaks→Within _ k.minimum (measured_number l v) low m n e (IsNumber-measured l v n is);
        at_most = λ m n e is.
            breaks→Within _ k.maximum (measured_number l v) high m n e (IsNumber-measured l v n is);
        text_at_least = λ m n e is.
            let q =
              breaks→Within _ k.min_length (measured_text v) short m n e
                (HasLength-measured v n is) in
            ground arith;
        text_at_most = λ m n e is.
            let q =
              breaks→Within _ k.max_length (measured_text v) long m n e
                (HasLength-measured v n is) in
            ground arith;
        items_at_least = λ m n e is.
            let q =
              breaks→Within _ k.min_items (measured_list v) few m n e (HasItems-measured v n is) in
            ground arith;
        items_at_most = λ m n e is.
            let q =
              breaks→Within _ k.max_items (measured_list v) many m n e (HasItems-measured v n is) in
            ground arith;
        matches = pattern→matches l k.pattern v path pattern;
      }

  FitsKeywords→typed :
      (l : Library N) (k : Keywords N) (v : Json N)
      → FitsKeywords l k v
      → wrong_type_of l k v ≡ false
  FitsKeywords→typed l k v h = elim (Option-cases k.type) [
    | inl e ↦ rw e refl
    | inr (name, e) ↦ let typed = HasType-is_type l v name (h.of_type name e) in rw (e, typed) refl
  ]

  FitsKeywords→values :
      (l : Library N) (k : Keywords N) (v : Json N) (path : List Segment)
      → FitsKeywords l k v
      → value_violations l k v path ≡ []
  unfolding value_violations
  FitsKeywords→values l k v path h =
      All-flat_map (λ (c : Bool × ViolationKind). violation_if c.0 path c.1) (value_checks l k v)
        (All-map {P = λ c. c.0 ≡ false} {Q = λ c. violation_if c.0 path c.1 ≡ []} (λ c e. rw e refl)
          (value_checks l k v)
          (
            each→breaks_in k.const (same l.numbers v) h.is_const,
            (
              each→breaks_in k.choices (any_of (same l.numbers v)) h.is_choice,
              (
                Within→breaks _ k.minimum (measured_number l v)
                    (λ m n e is. h.at_least m n e (measured-IsNumber l v n is)),
                (
                  Within→breaks _ k.maximum (measured_number l v)
                      (λ m n e is. h.at_most m n e (measured-IsNumber l v n is)),
                  (
                    Within→breaks _ k.min_length (measured_text v) (λ m n e is.
                        let q = h.text_at_least m n e (measured-HasLength v n is) in ground arith),
                    (
                      Within→breaks _ k.max_length (measured_text v) (λ m n e is.
                          let q = h.text_at_most m n e (measured-HasLength v n is) in ground arith),
                      (
                        Within→breaks _ k.min_items (measured_list v) (λ m n e is.
                            let q = h.items_at_least m n e (measured-HasItems v n is) in
                            ground arith),
                        (
                          Within→breaks _ k.max_items (measured_list v) (λ m n e is.
                              let q = h.items_at_most m n e (measured-HasItems v n is) in
                              ground arith),
                          tt,
                        ),
                      ),
                    ),
                  ),
                ),
              ),
            ),
          ))

  pub FitsKeywords→checks :
      (l : Library N) (k : Keywords N) (v : Json N) (path : List Segment)
      → ((p : String) → k.pattern ≡ some p → IsPattern l p)
      → FitsKeywords l k v
      → (wrong_type_of l k v ≡ false)
        × ((value_violations l k v path ≡ []) × (pattern_report l k.pattern v path ≡ found []))
  FitsKeywords→checks l k v path short h = (
    FitsKeywords→typed l k v h,
    (FitsKeywords→values l k v path h, matches→pattern l k.pattern v path short h.matches),
  )

  pub key_violations→FitsKeys :
      (k : Keywords N) (ps : Properties N) (f : Fields N) (path : List Segment)
      → key_violations k ps f path ≡ []
      → FitsKeys k ps f
  unfolding key_violations
  key_violations→FitsKeys k ps f path h =
      let parts = append-empty (flat_map _ k.required) _ h in
      (
        All-map
            (λ name e.
              not-false (has_key name f)
                (violation_if→false _ (key name ∷ path) missing_required e))
            k.required (flat_map-empty _ k.required parts.0),
        λ e.
            keep_if→All _ (keys f)
              (sorted_strings-empty _ (no_elements (undeclared ps f) path (rw e at parts.1))),
      )
    where
      no_elements :
          (xs : List String) (path : List Segment)
          → flat_map (λ name. violation_if true (key name ∷ path) additional) xs ≡ []
          → xs ≡ []
      no_elements [] path h = refl
      no_elements (x ∷ xs) path h = cc

  pub FitsKeys→key_violations :
      (k : Keywords N) (ps : Properties N) (f : Fields N) (path : List Segment)
      → FitsKeys k ps f
      → key_violations k ps f path ≡ []
  unfolding key_violations
  FitsKeys→key_violations k ps f path h =
      let present =
        All-flat_map
          (λ name. violation_if (not (has_key name f)) (key name ∷ path) missing_required)
          k.required (All-map (λ name e. rw e refl) k.required h.0) in
      rw present (elim (Bool-cases k.no_additional) [
        | inl e ↦ rw (e, All→keep_if _ (keys f) (h.1 e)) refl
        | inr e ↦ rw e refl
      ])
