-- ===== src/Judging/Examples.antt =====
-- The theorems on judges, applied to two trials of a pair.
use free_weight.Base.{List, arith, ℕ, zero, ◌≡◌, refl, String, Option, none, some, [], ◌∷◌}
use free_weight.Json.{Json, number, string}
use free_weight.Judging.{
  JudgeRecord, Python, Storage, first, second, tie, unparseable, record_json, as_text, from_text,
}
use free_weight.Judging.Stored.{sort_json, from_text-as_text}
use free_weight.Judging.Verdicts.{majority_choice}
use free_weight.Judging.Blinding.{BlindedPresentation, present, IsShown, present-IsShown}
use free_weight.Judging.Majority.{verdict, votes_for, majority_choice-verdict}

abbrev int_of : Json ℕ → Option ℕ
int_of (number n) = some n
int_of _ = none

abbrev str_of : Json ℕ → String
str_of (string s) = s
str_of _ = "?"

abbrev python : Python ℕ
python = record { zero_int = zero; int = int_of; str = str_of; characters = λ s. s ∷ [] }

abbrev trials : JudgeRecord ℕ
trials = record {
  trials =
      record {
        ordinal = 0;
        order = "A" ∷ "B" ∷ [];
        subjects = "q" ∷ "r" ∷ [];
        choice = first;
        group = "";
        raw_excerpt = "VERDICT: A";
      }
      ∷ record {
        ordinal = 1;
        order = "B" ∷ "A" ∷ [];
        subjects = "r" ∷ "q" ∷ [];
        choice = second;
        group = "";
        raw_excerpt = "";
      }
      ∷ [];
  stopped = "completed";
}

-- A store that holds this one record.
abbrev storage : Storage ℕ
storage = record {
  canonical_json = λ v. "stored";
  loads = λ text. some (sort_json (record_json trials));
}

from_text-as_text_example : from_text python storage (as_text storage trials) ≡ some (some trials)
from_text-as_text_example =
    from_text-as_text python storage trials (λ s. refl) (refl, (refl, tt)) refl

majority_choice-verdict_example :
    majority_choice (tie ∷ first ∷ unparseable ∷ first ∷ [])
    ≡ verdict
        (votes_for first (tie ∷ first ∷ unparseable ∷ first ∷ []))
        (votes_for second (tie ∷ first ∷ unparseable ∷ first ∷ []))
        (votes_for tie (tie ∷ first ∷ unparseable ∷ first ∷ []))
majority_choice-verdict_example = majority_choice-verdict (tie ∷ first ∷ unparseable ∷ first ∷ [])

abbrev pair : List String
pair = "q" ∷ "r" ∷ []

abbrev answers : List String
answers = "answer of q" ∷ "answer of r" ∷ []

present-IsShown_example :
    (p : BlindedPresentation) × ((present pair answers (1 ∷ 0 ∷ []) ≡ some p)
      × IsShown pair answers (1 ∷ 0 ∷ []) p)
present-IsShown_example =
    present-IsShown pair answers (1 ∷ 0 ∷ []) refl (omega arith, (omega arith, tt)) (omega arith)
