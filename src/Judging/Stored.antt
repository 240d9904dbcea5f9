-- ===== src/Judging/Stored.antt =====
-- A record of trials is stored as text and read back.
use free_weight.Base.{◌≡◌, refl, String, str_leb, some, List, [], ◌∷◌, All, if◌then◌else◌}
use free_weight.Json.{
  Json, null, boolean, number, string, array, object, Items, no_items, item, Fields, no_fields,
  field,
}
use free_weight.Judging.{
  JudgeChoice, JudgeTrial, JudgeRecord, Python, Storage, choice_value, choice_of, trial_json,
  record_json, as_text, from_text, trials_from, trial_from_json, trial_items, text_items, texts_of,
  first, second, tie, unparseable,
}

abbrev pub insert_field : {N : Type 0} → String → Json N → Fields N → Fields N
insert_field k v no_fields = field k v no_fields
insert_field k v (field l w rest) =
    if str_leb k l then field k v (field l w rest) else field l w (insert_field k v rest)

-- The value with the keys of every dict in order.
abbrev mutual
  pub sort_json : {N : Type 0} → Json N → Json N
  sort_json null = null
  sort_json (boolean b) = boolean b
  sort_json (number n) = number n
  sort_json (string s) = string s
  sort_json (array xs) = array (sort_items xs)
  sort_json (object f) = object (sort_fields f)

  pub sort_items : {N : Type 0} → Items N → Items N
  sort_items no_items = no_items
  sort_items (item x xs) = item (sort_json x) (sort_items xs)

  pub sort_fields : {N : Type 0} → Fields N → Fields N
  sort_fields no_fields = no_fields
  sort_fields (field k v rest) = insert_field k (sort_json v) (sort_fields rest)

choice_of-value : (c : JudgeChoice) → choice_of (choice_value c) ≡ c
unfolding choice_of
choice_of-value first = refl
choice_of-value second = refl
choice_of-value tie = refl
choice_of-value unparseable = refl

module _ {N : Type 0} (p : Python N) where
  -- `str` leaves a text as it is.
  abbrev pub KeepsTexts : Type 0
  KeepsTexts = (s : String) → p.str (string s) ≡ s

  -- The ordinal of the trial is an int.
  abbrev pub HasInt : JudgeTrial N → Type 0
  HasInt t = p.int (number t.ordinal) ≡ some t.ordinal

  texts_of-items : KeepsTexts → (xs : List String) → texts_of p (sort_items (text_items xs)) ≡ xs
  texts_of-items keeps [] = refl
  texts_of-items keeps (x ∷ xs) = rw (keeps x, texts_of-items keeps xs) refl

  abbrev sorted_trial : JudgeTrial N → Fields N
  sorted_trial t = field "choice" (string (choice_value t.choice)) (
      field "group" (string t.group) (
        field "order" (array (sort_items (text_items t.order))) (
          field "ordinal" (number t.ordinal) (
            field "raw_excerpt" (string t.raw_excerpt)
              (field "subjects" (array (sort_items (text_items t.subjects))) no_fields)))))

  trial_sorted : (t : JudgeTrial N) → sort_json (trial_json t) ≡ object (sorted_trial t)
  unfolding trial_json
  trial_sorted t = refl

  trial_read :
      KeepsTexts → (t : JudgeTrial N) → HasInt t → trial_from_json p (sorted_trial t) ≡ some t
  unfolding trial_from_json
  trial_read keeps t int =
      rw
        (
          int,
          texts_of-items keeps t.order,
          texts_of-items keeps t.subjects,
          keeps (choice_value t.choice),
          keeps t.group,
          keeps t.raw_excerpt,
          choice_of-value t.choice,
        )
        refl

  trials_read :
      KeepsTexts
      → (ts : List (JudgeTrial N)) → All HasInt ts
      → trials_from p (sort_items (trial_items ts)) ≡ some ts
  unfolding trials_from
  trials_read keeps [] h = refl
  trials_read keeps (t ∷ ts) h =
      rw (trial_sorted t, trial_read keeps t h.0, trials_read keeps ts h.1) refl

  -- A record whose ordinals are ints is read back as it was stored, if str leaves texts alone and
  -- json.loads reads what canonical_json printed, with the keys of every dict in order.
  pub from_text-as_text :
      (s : Storage N) (r : JudgeRecord N)
      → KeepsTexts
      → All HasInt r.trials
      → s.loads (as_text s r) ≡ some (sort_json (record_json r))
      → from_text p s (as_text s r) ≡ some (some r)
  unfolding from_text record_json
  from_text-as_text s r keeps ints loaded =
      rw (loaded, trials_read keeps r.trials ints, keeps r.stopped) refl
