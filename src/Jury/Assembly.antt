-- ===== src/Jury/Assembly.antt =====
-- Who sits on an assembled jury, and what it records.
use free_weight.Base.{
  ℕ, zero, suc, ◌<◌, ◌≡◌, refl, inl, inr, ltb, Bool, true, false, not, String, Option, none, some,
  List, [], ◌∷◌, map, keep_if, take, length, any_of, All, length-take-le, arith, str_eq, Bool-cases,
}
use free_weight.Jury.{
  JurorEligibility, is_remote, is_candidate, refusal_reasons, juror_verdict, considered,
  eligible_jurors, JuryAssembly, assemble_jury,
}
use free_weight.Jury.Eligible.{
  IsRemote, MayJudge, is_remote-IsRemote, IsRemote-is_remote, any_of-IsInstalled,
  IsInstalled-any_of, candidate-false, candidate-true,
}

-- The models that are considered: those requested, or all that are available if none is.
abbrev pub AreConsidered : List String → List String → List String → Type 0
AreConsidered available [] models = models ≡ available
AreConsidered available requested models = models ≡ requested

-- The models, in their order, parted into those of which `P` holds and the others.
pub data Parted (P : String → Type 0) : List String → List String → List String → Type 0 where
  no_models : Parted P [] [] []
  takes :
      {x : String} {xs ys zs : List String}
      → P x
      → Parted P xs ys zs
      → Parted P (x ∷ xs) (x ∷ ys) zs
  leaves :
      {x : String} {xs ys zs : List String}
      → ¬ P x
      → Parted P xs ys zs
      → Parted P (x ∷ xs) ys (x ∷ zs)

module _ (available : List String) (candidate : Option String) (remote : List (String × Bool))
    (allow_remote : Bool) where
  abbrev verdict : String → JurorEligibility
  verdict = juror_verdict available candidate remote allow_remote

  abbrev Judges : String → Type 0
  Judges = MayJudge available candidate remote allow_remote

  abbrev seated : List String → List String
  seated models =
      map (λ (v : JurorEligibility). v.model_canonical_id)
        (keep_if (λ (v : JurorEligibility). v.eligible) (map verdict models))

  abbrev refused : List String → List JurorEligibility
  refused models = keep_if (λ (v : JurorEligibility). not v.eligible) (map verdict models)

  eligible-MayJudge : (model : String) → (verdict model).eligible ≡ true → Judges model
  unfolding juror_verdict refusal_reasons
  eligible-MayJudge model h = elim (Bool-cases (any_of (str_eq model) available)) [
    | inr e ↦ absurd (let q = rw e at h in cc)
    | inl e ↦ elim (Bool-cases (is_candidate candidate model)) [
      | inl f ↦ absurd (let q = rw (e, f) at h in cc)
      | inr f ↦ (
        any_of-IsInstalled available model e,
        (
          candidate-false candidate model f,
          λ far. elim (Bool-cases allow_remote) [
            | inl allowed ↦ allowed
            | inr barred ↦
                let r = IsRemote-is_remote remote model far in
                absurd (let q = rw (e, f, r, barred) at h in cc)
          ],
        ),
      )
    ]
  ]

  MayJudge-eligible : (model : String) → Judges model → (verdict model).eligible ≡ true
  unfolding juror_verdict refusal_reasons
  MayJudge-eligible model (here, (other, allowed)) =
      let e = IsInstalled-any_of available model here in
      elim (Bool-cases (is_candidate candidate model)) [
        | inl f ↦ absurd (other (candidate-true candidate model f))
        | inr f ↦ elim (Bool-cases (is_remote remote model)) [
          | inl r ↦ let may = allowed (is_remote-IsRemote remote model r) in rw (e, f, r, may) refl
          | inr r ↦ rw (e, f, r) refl
        ]
      ]

  verdict-id : (model : String) → (verdict model).model_canonical_id ≡ model
  unfolding juror_verdict
  verdict-id model = refl

  abbrev ids : List JurorEligibility → List String
  ids = map (λ (v : JurorEligibility). v.model_canonical_id)

  -- The verdicts part the models.
  seated-Parted :
      (models : List String) → Parted Judges models (seated models) (ids (refused models))
  seated-Parted [] = no_models
  seated-Parted (model ∷ models) = elim (Bool-cases (verdict model).eligible) [
    | inl e ↦ rw (e, verdict-id model) (takes (eligible-MayJudge model e) (seated-Parted models))
    | inr e ↦
        rw (e, verdict-id model)
          (leaves (λ may. absurd (let q = MayJudge-eligible model may in cc))
            (seated-Parted models))
  ]

  -- What an assembly at this size promises, of models parted so.
  pub record IsAssembled (jury_size : ℕ) (eligible others : List String) (a : JuryAssembly)
      : Type 0 where
    pub positive : 0 < jury_size
    pub seats : a.jurors ≡ take jury_size eligible
    pub refusals : map (λ (v : JurorEligibility). v.model_canonical_id) a.refusals ≡ others
    pub size : a.requested_size ≡ jury_size
    pub whole : a.reduced ≡ false → length a.jurors ≡ jury_size
    pub short : a.reduced ≡ true → length a.jurors < jury_size
    pub local : a.remote ≡ false → All (λ juror. ¬ IsRemote remote juror) a.jurors
    pub remote_permitted : a.remote ≡ true → allow_remote ≡ true

  abbrev pub Assembled : ℕ → List String → List String → Option JuryAssembly → Type 0
  Assembled jury_size eligible others none = jury_size ≡ 0
  Assembled jury_size eligible others (some a) = IsAssembled jury_size eligible others a

  local_jurors :
      (jurors : List String)
      → any_of (is_remote remote) jurors ≡ false
      → All (λ juror. ¬ IsRemote remote juror) jurors
  local_jurors [] h = tt
  local_jurors (juror ∷ jurors) h = elim (Bool-cases (is_remote remote juror)) [
    | inl e ↦ absurd (let q = rw e at h in cc)
    | inr e ↦ (
      λ far. absurd (let q = IsRemote-is_remote remote juror far in cc),
      local_jurors jurors (rw e at h),
    )
  ]

  -- A remote juror among the first seated ones is allowed.
  remote_allowed :
      {models eligible others : List String} (n : ℕ)
      → Parted Judges models eligible others
      → any_of (is_remote remote) (take n eligible) ≡ true
      → allow_remote ≡ true
  remote_allowed zero parted r = cc
  remote_allowed (suc n) no_models r = cc
  remote_allowed (suc n) (takes {x} may rest) r = elim (Bool-cases (is_remote remote x)) [
    | inl e ↦ may.1.1 (is_remote-IsRemote remote x e)
    | inr e ↦ remote_allowed n rest (rw e at r)
  ]
  remote_allowed (suc n) (leaves other rest) r = remote_allowed (suc n) rest r

  -- A jury is assembled exactly if the size asked for is positive. The models considered are those
  -- requested, or all that are available if none is; each of them that is installed, is not the
  -- candidate, and is remote only if that is allowed is eligible, and the others are the refusals.
  -- The jury is the first of the eligible ones, as many as were asked for; it says that it is
  -- reduced exactly if they are fewer; and it says that it is remote only if that is allowed and
  -- whenever one of them is.
  pub assemble_jury-Assembled :
      (requested : List String) (jury_size : ℕ)
      → (models : List String) × ((eligible : List String) × ((others : List String)
            × (AreConsidered available requested models
                × (Parted (MayJudge available candidate remote allow_remote) models eligible others
                    × Assembled jury_size eligible others (
                        assemble_jury available candidate requested jury_size remote
                          allow_remote)))))
  unfolding assemble_jury eligible_jurors
  assemble_jury-Assembled requested jury_size =
      let models = considered available requested in
      let chosen = take jury_size (seated models) in
      (
        models,
        (
          seated models,
          (
            ids (refused models),
            (
              are_considered requested,
              (
                seated-Parted models,
                elim (Bool-cases (ltb jury_size 1)) [
                  | inl e ↦ rw e (ground arith)
                  | inr e ↦ rw e (record {
                    positive = ground arith;
                    seats = refl;
                    refusals = refl;
                    size = refl;
                    whole = λ r. ground (arith, length-take-le jury_size (seated models));
                    short = λ r. ground arith;
                    local = local_jurors chosen;
                    remote_permitted = remote_allowed jury_size (seated-Parted models);
                  })
                ],
              ),
            ),
          ),
        ),
      )
    where
      are_considered :
          (requested : List String)
          → AreConsidered available requested (considered available requested)
      are_considered [] = refl
      are_considered (r ∷ rs) = refl
