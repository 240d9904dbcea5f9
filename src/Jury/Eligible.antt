-- ===== src/Jury/Eligible.antt =====
-- Who may judge, said without the code that decides it.
use free_weight.Base.{
  ◌≡◌, ◌≢◌, ◌⊎◌, refl, inl, inr, Bool, true, false, String, Option, none, some, List, [], ◌∷◌,
  any_of, str_eq, eq_iff, Bool-cases,
}
use free_weight.Jury.{is_remote, is_candidate}

-- The mapping says that the model is remote.
abbrev pub IsRemote : List (String × Bool) → String → Type 0
IsRemote [] model = ⊥
IsRemote ((key, value) ∷ rest) model =
    ((key ≡ model) × (value ≡ true)) ⊎ ((key ≢ model) × IsRemote rest model)

abbrev pub IsInstalled : List String → String → Type 0
IsInstalled [] model = ⊥
IsInstalled (a ∷ rest) model = (model ≡ a) ⊎ IsInstalled rest model

-- A model that may judge: installed, not the candidate, and remote only if that is allowed.
abbrev pub MayJudge : List String → Option String → List (String × Bool) → Bool → String → Type 0
MayJudge available candidate remote allow_remote model =
    IsInstalled available model
    × ((candidate ≢ some model) × (IsRemote remote model → allow_remote ≡ true))

str_eq-false : (a b : String) → str_eq a b ≡ false → a ≢ b
str_eq-false a b e h = absurd (let q = (eq_iff a b).1 h in cc)

pub is_remote-IsRemote :
    (remote : List (String × Bool)) (model : String)
    → is_remote remote model ≡ true
    → IsRemote remote model
is_remote-IsRemote [] model h = cc
is_remote-IsRemote ((key, value) ∷ rest) model h = elim (Bool-cases (str_eq key model)) [
  | inl e ↦ inl ((eq_iff key model).0 e, rw e at h)
  | inr e ↦ inr (str_eq-false key model e, is_remote-IsRemote rest model (rw e at h))
]

pub IsRemote-is_remote :
    (remote : List (String × Bool)) (model : String)
    → IsRemote remote model
    → is_remote remote model ≡ true
IsRemote-is_remote [] model h = absurd h
IsRemote-is_remote ((key, value) ∷ rest) model (inl (same, h)) =
    let e : str_eq key model ≡ true = (eq_iff key model).1 same in rw e h
IsRemote-is_remote ((key, value) ∷ rest) model (inr (other, h)) =
    elim (Bool-cases (str_eq key model)) [
      | inl e ↦ absurd (other ((eq_iff key model).0 e))
      | inr e ↦ rw e (IsRemote-is_remote rest model h)
    ]

pub any_of-IsInstalled :
    (available : List String) (model : String)
    → any_of (str_eq model) available ≡ true
    → IsInstalled available model
any_of-IsInstalled [] model h = cc
any_of-IsInstalled (a ∷ rest) model h = elim (Bool-cases (str_eq model a)) [
  | inl e ↦ inl ((eq_iff model a).0 e)
  | inr e ↦ inr (any_of-IsInstalled rest model (rw e at h))
]

pub IsInstalled-any_of :
    (available : List String) (model : String)
    → IsInstalled available model
    → any_of (str_eq model) available ≡ true
IsInstalled-any_of [] model h = absurd h
IsInstalled-any_of (a ∷ rest) model (inl same) =
    let e : str_eq model a ≡ true = (eq_iff model a).1 same in rw e refl
IsInstalled-any_of (a ∷ rest) model (inr h) = elim (Bool-cases (str_eq model a)) [
  | inl e ↦ rw e refl
  | inr e ↦ rw e (IsInstalled-any_of rest model h)
]

pub candidate-false :
    (candidate : Option String) (model : String)
    → is_candidate candidate model ≡ false
    → candidate ≢ some model
candidate-false none model h e = cc
candidate-false (some c) model h e =
    let same : model ≡ c = cc in absurd (let q = (eq_iff model c).1 same in cc)

pub candidate-true :
    (candidate : Option String) (model : String)
    → is_candidate candidate model ≡ true
    → candidate ≡ some model
candidate-true none model h = cc
candidate-true (some c) model h = let same : model ≡ c = (eq_iff model c).0 h in cc
