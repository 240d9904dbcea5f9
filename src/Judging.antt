-- ===== src/Judging.antt =====
-- domain/judging.py: the trials of a judge, how they are stored, and how verdicts are reduced.
-- `Python` stands for int() and str() on the values that are not already of the type, and `Storage`
-- for json.loads and baseaicore's canonical_json.
pub mod Stored
pub mod Verdicts
mod Counting
pub mod Majority
pub mod Blinding
mod Examples
use free_weight.Base.{
  ℕ, suc, ◌==◌, leb, Bool, true, false, not, ◌&&◌, String, str_eq, str_leb, Option, none, some,
  List, [], ◌∷◌, map, keep_if, if◌then◌else◌,
}
use free_weight.Json.{
  Json, null, boolean, number, string, array, object, Items, no_items, item, Fields, no_fields,
  field, has_key, get, keys,
}

pub data JudgeChoice : Type 0 where
  first second tie unparseable : JudgeChoice

pub record JudgeTrial (N : Type 0) : Type 0 where
  pub ordinal : N
  pub order : List String
  pub subjects : List String
  pub choice : JudgeChoice
  pub group : String
  pub raw_excerpt : String

pub record JudgeRecord (N : Type 0) : Type 0 where
  pub trials : List (JudgeTrial N)
  pub stopped : String

pub record Python (N : Type 0) : Type 0 where
  pub zero_int : N
  -- `int(value)` and `str(value)`; `int` may raise.
  pub int : Json N → Option N
  pub str : Json N → String
  -- The characters of a text, which iterating over it yields.
  pub characters : String → List String

pub record Storage (N : Type 0) : Type 0 where
  pub canonical_json : Json N → String
  pub loads : String → Option (Json N)

-- `choice.value`
abbrev pub choice_value : JudgeChoice → String
choice_value first = "first"
choice_value second = "second"
choice_value tie = "tie"
choice_value unparseable = "unparseable"

-- `JudgeChoice(text)`, with UNPARSEABLE for the ValueError.
unfoldable pub choice_of : String → JudgeChoice
choice_of text =
    if str_eq text "first"
    then first
    else if str_eq text "second"
    then second
    else if str_eq text "tie"
    then tie
    else unparseable

module _ {N : Type 0} where
  -- JudgeTrial.chosen_subject
  unfoldable pub chosen_subject : JudgeTrial N → Option String
  chosen_subject t = elim t.choice [
    | first ↦ elim t.subjects [ [] ↦ none | a ∷ rest ↦ some a ]
    | second ↦ elim t.subjects [ [] ↦ none | a ∷ rest ↦ elim rest [ [] ↦ none | b ∷ _ ↦ some b ] ]
    | _ ↦ none
  ]

  abbrev pub text_items : List String → Items N
  text_items [] = no_items
  text_items (a ∷ as_) = item (string a) (text_items as_)

  -- JudgeTrial.as_json
  unfoldable pub trial_json : JudgeTrial N → Json N
  trial_json t = object (
      field "ordinal" (number t.ordinal) (
        field "order" (array (text_items t.order)) (
          field "subjects" (array (text_items t.subjects)) (
            field "choice" (string (choice_value t.choice)) (
              field "group" (string t.group)
                (field "raw_excerpt" (string t.raw_excerpt) no_fields))))))

  -- `body.get(key, default)`
  abbrev pub get_or : String → Json N → Fields N → Json N
  get_or key default f = if has_key key f then get key f else default

  -- `tuple(str(item) for item in value)`; nothing for a value that is not iterable.
  abbrev pub texts_of : Python N → Items N → List String
  texts_of p no_items = []
  texts_of p (item x xs) = p.str x ∷ texts_of p xs

  abbrev pub iterated : Python N → Json N → Option (List String)
  iterated p (array xs) = some (texts_of p xs)
  iterated p (object f) = some (keys f)
  iterated p (string s) = some (p.characters s)
  iterated p _ = none

  abbrev pub trial_of :
      Option N
      → Option (List String)
      → Option (List String)
      → JudgeChoice
      → String
      → String
      → Option (JudgeTrial N)
  trial_of (some ordinal) (some order) (some subjects) choice group raw_excerpt = some (record {
    ordinal = ordinal;
    order = order;
    subjects = subjects;
    choice = choice;
    group = group;
    raw_excerpt = raw_excerpt;
  })
  trial_of _ _ _ choice group raw_excerpt = none

  -- JudgeTrial.from_json; nothing for an exception.
  unfoldable pub trial_from_json : Python N → Fields N → Option (JudgeTrial N)
  unfolding choice_of
  trial_from_json p body =
      trial_of (p.int (get_or "ordinal" (number p.zero_int) body))
        (iterated p (get_or "order" (array no_items) body))
        (iterated p (get_or "subjects" (array no_items) body))
        (choice_of (p.str (get_or "choice" (string "") body)))
        (p.str (get_or "group" (string "") body)) (p.str (get_or "raw_excerpt" (string "") body))

  abbrev pub trial_items : List (JudgeTrial N) → Items N
  trial_items [] = no_items
  trial_items (t ∷ ts) = item (trial_json t) (trial_items ts)

  -- JudgeRecord.as_text, before and after it is printed
  unfoldable pub record_json : JudgeRecord N → Json N
  record_json r =
      object (
        field "trials" (array (trial_items r.trials))
          (field "stopped" (string r.stopped) no_fields))

  unfoldable pub as_text : Storage N → JudgeRecord N → String
  unfolding record_json
  as_text s r = s.canonical_json (record_json r)

  abbrev pub and_trials :
      Option (JudgeTrial N) → Option (List (JudgeTrial N)) → Option (List (JudgeTrial N))
  and_trials (some t) (some ts) = some (t ∷ ts)
  and_trials _ _ = none

  -- The generator over `body["trials"]`, which passes over items that are not dicts.
  unfoldable pub trials_from : Python N → Items N → Option (List (JudgeTrial N))
  unfolding trial_from_json
  trials_from p no_items = some []
  trials_from p (item (object body) rest) = and_trials (trial_from_json p body) (trials_from p rest)
  trials_from p (item _ rest) = trials_from p rest

  abbrev pub record_of : Option (List (JudgeTrial N)) → String → Option (Option (JudgeRecord N))
  record_of none stopped = none
  record_of (some trials) stopped = some (some (record { trials = trials; stopped = stopped }))

  abbrev pub record_from : Python N → Json N → Fields N → Option (Option (JudgeRecord N))
  record_from p (array trials) body =
      record_of (trials_from p trials) (p.str (get_or "stopped" (string "completed") body))
  record_from p _ body = some none

  abbrev pub record_from_json : Python N → Option (Json N) → Option (Option (JudgeRecord N))
  record_from_json p (some (object body)) = record_from p (get "trials" body) body
  record_from_json p _ = some none

  -- JudgeRecord.from_text: `some none` is the None it returns, and nothing is an exception.
  unfoldable pub from_text : Python N → Storage N → String → Option (Option (JudgeRecord N))
  unfolding trials_from
  from_text p s text = record_from_json p (s.loads text)
