-- ===== src/Jury.antt =====
-- domain/jury.py and the eligibility rules of domain/judging.py: who may judge a candidate's output.
-- `remote` is the mapping's items, each key once.
pub mod Eligible
pub mod Assembly
mod Examples
use free_weight.Base.{
  ℕ, ltb, Bool, true, false, not, ◌&&◌, String, Option, none, some, List, [], ◌∷◌, ◌++◌, map,
  keep_if, take, length, any_of, find_first, str_eq, sorted_strings, if◌then◌else◌,
}

abbrev pub reason_self_judging : String
reason_self_judging = "self_judging"

abbrev pub reason_remote_not_permitted : String
reason_remote_not_permitted = "remote_not_permitted"

abbrev pub reason_not_installed : String
reason_not_installed = "not_installed"

pub record JurorEligibility : Type 0 where
  pub model_canonical_id : String
  pub eligible : Bool
  pub reasons : List String

-- `remote_by_id.get(model, False)`
abbrev pub is_remote : List (String × Bool) → String → Bool
is_remote [] model = false
is_remote ((key, value) ∷ rest) model = if str_eq key model then value else is_remote rest model

-- `candidate is not None and model == candidate`
abbrev pub is_candidate : Option String → String → Bool
is_candidate none model = false
is_candidate (some candidate) model = str_eq model candidate

abbrev pub reason_if : Bool → String → List String
reason_if true reason = reason ∷ []
reason_if false reason = []

abbrev pub is_empty_list : List String → Bool
is_empty_list [] = true
is_empty_list (_ ∷ _) = false

-- The reasons that one turn of the loop in `eligible_jurors` collects.
unfoldable pub refusal_reasons :
    List String → Option String → List (String × Bool) → Bool → String → List String
refusal_reasons available candidate remote allow_remote model =
    reason_if (not (any_of (str_eq model) available)) reason_not_installed
    ++ reason_if (is_candidate candidate model) reason_self_judging
    ++ reason_if (is_remote remote model && not allow_remote) reason_remote_not_permitted

unfoldable pub juror_verdict :
    List String → Option String → List (String × Bool) → Bool → String → JurorEligibility
unfolding refusal_reasons
juror_verdict available candidate remote allow_remote model =
    let reasons = refusal_reasons available candidate remote allow_remote model in
    record {
      model_canonical_id = model;
      eligible = is_empty_list reasons;
      reasons = sorted_strings reasons;
    }

-- `list(requested) if requested else list(available)`
abbrev pub considered : List String → List String → List String
considered available [] = available
considered available (model ∷ rest) = model ∷ rest

unfoldable pub eligible_jurors :
    List String → Option String → List String → List (String × Bool) → Bool → List JurorEligibility
unfolding juror_verdict
eligible_jurors available candidate requested remote allow_remote =
    map (juror_verdict available candidate remote allow_remote) (considered available requested)

pub record JuryAssembly : Type 0 where
  pub jurors : List String
  pub requested_size : ℕ
  pub reduced : Bool
  pub refusals : List JurorEligibility
  pub remote : Bool

-- assemble_jury; nothing is the ValueError.
unfoldable pub assemble_jury :
    List String
    → Option String
    → List String
    → ℕ
    → List (String × Bool)
    → Bool
    → Option JuryAssembly
unfolding eligible_jurors
assemble_jury available candidate requested jury_size remote allow_remote =
    let verdicts = eligible_jurors available candidate requested remote allow_remote in
    let chosen = take jury_size (
      map (λ (v : JurorEligibility). v.model_canonical_id)
        (keep_if (λ (v : JurorEligibility). v.eligible) verdicts)) in
    if ltb jury_size 1
    then none
    else some (record {
      jurors = chosen;
      requested_size = jury_size;
      reduced = ltb (length chosen) jury_size;
      refusals = keep_if (λ (v : JurorEligibility). not v.eligible) verdicts;
      remote = any_of (is_remote remote) chosen;
    })
