-- ===== src/Sampling/Plan.antt =====
-- The plan of a test, and what running through the repetitions of one case comes to.
use free_weight.Base.{
  ℕ, suc, ◌+◌, ◌≡◌, refl, sym, ap, ◌∙◌, ◌⊎◌, inl, inr, Bool, true, false, not, List, [], ◌∷◌, ◌++◌,
  map, length, take, drop, keep_if, any_of, arith, Bool-cases,
}
use free_weight.Sampling.{
  Case, Key, key_of, key_eq, Progress, Execution, cancelled, failed, done, Moments, Conditions,
  range_from, run_repetitions,
}

-- The keys of a test, in the order of the loops.
abbrev pub planned : ℕ → List Case → List Key
planned n [] = []
planned n (c ∷ cs) = map (key_of c) (range_from 1 n) ++ planned n cs

-- Those that are not stored yet.
abbrev pub is_new : List Key → Key → Bool
is_new already key = not (any_of (key_eq key) already)

abbrev pub missing : List Key → List Key → List Key
missing already keys = keep_if (is_new already) keys

-- The next of the remaining samples has the key of a stored one.
abbrev pub Repeats : List Key → List Key → Type 0
Repeats [] stored = ⊥
Repeats (key ∷ rest) stored = any_of (key_eq key) stored ≡ true

-- Why an execution fails with these samples stored and those remaining: a generation raises, the
-- publish of the last sample raises, or the next key is stored already.
abbrev pub FailsAt : Moments → List Key → List Key → Type 0
FailsAt o remaining stored =
    (o.sampling_raises (length stored) ≡ true)
    ⊎ ((o.publishing_raises (length stored) ≡ true) ⊎ Repeats remaining stored)

-- What running through `keys` from `p` may come to: they are all counted and the missing ones are
-- stored; or a cancellation or a failure leaves some first part of the missing ones stored.
abbrev pub Ran : Conditions → List Key → Progress → Execution → Type 0
Ran k keys p (done q) =
    (q.stored ≡ p.stored ++ missing k.already keys)
    × (q.completed_samples ≡ p.completed_samples + length keys)
Ran k keys p (cancelled q) =
    (n : ℕ) × ((q.stored ≡ p.stored ++ take n (missing k.already keys))
      × (k.moments.is_cancelled (length q.stored) ≡ true))
Ran k keys p (failed q) =
    (n : ℕ) × ((q.stored ≡ p.stored ++ take n (missing k.already keys))
      × FailsAt k.moments (drop n (missing k.already keys)) q.stored)

pub append_assoc : (xs ys zs : List Key) → xs ++ (ys ++ zs) ≡ (xs ++ ys) ++ zs
append_assoc [] ys zs = refl
append_assoc (x ∷ xs) ys zs = ap (λ l. x ∷ l) (append_assoc xs ys zs)

pub append_nothing : (xs : List Key) → xs ++ [] ≡ xs
append_nothing [] = refl
append_nothing (x ∷ xs) = ap (λ l. x ∷ l) (append_nothing xs)

Ran-skip :
    (k : Conditions) (keys : List Key) (key : Key) (p : Progress) (x : Execution)
    → is_new k.already key ≡ false
    → Ran k keys (record p { completed_samples = p.completed_samples + 1 }) x
    → Ran k (key ∷ keys) p x
Ran-skip k keys key p (done q) h r = rw h (r.0, omega (arith, r.1))
Ran-skip k keys key p (cancelled q) h (n, r) = (n, rw h r)
Ran-skip k keys key p (failed q) h (n, r) = (n, rw h r)

Ran-store :
    (k : Conditions) (keys : List Key) (key : Key) (p : Progress) (x : Execution)
    → is_new k.already key ≡ true
    → Ran k keys
        (record p { stored = p.stored ++ key ∷ []; completed_samples = p.completed_samples + 1 })
        x
    → Ran k (key ∷ keys) p x
Ran-store k keys key p (done q) h r =
    rw h (r.0 ∙ sym (append_assoc p.stored (key ∷ []) (missing k.already keys)), omega (arith, r.1))
Ran-store k keys key p (cancelled q) h (n, r) = (
  suc n,
  rw h (r.0 ∙ sym (append_assoc p.stored (key ∷ []) (take n (missing k.already keys))), r.1),
)
Ran-store k keys key p (failed q) h (n, r) = (
  suc n,
  rw h (r.0 ∙ sym (append_assoc p.stored (key ∷ []) (take n (missing k.already keys))), r.1),
)

pub Ran-cancelled :
    (k : Conditions) (keys : List Key) (p : Progress)
    → k.moments.is_cancelled (length p.stored) ≡ true
    → Ran k keys p (cancelled p)
Ran-cancelled k keys p stop = (0, (sym (append_nothing p.stored), stop))

pub run_repetitions-Ran :
    (k : Conditions) (c : Case) (reps : List ℕ) (p : Progress)
    → Ran k (map (key_of c) reps) p (run_repetitions k c reps p)
unfolding run_repetitions
run_repetitions-Ran k c [] p = (sym (append_nothing p.stored), omega arith)
run_repetitions-Ran k c (n ∷ reps) p =
    let key = key_of c n in
    let keys = map (key_of c) reps in
    let after : Progress = record p {
      stored = p.stored ++ key ∷ [];
      completed_samples = p.completed_samples + 1;
    } in
    elim (Bool-cases (any_of (key_eq key) k.already)) [
      | inl e ↦ rw e (
          Ran-skip k keys key p _ (rw e refl) (
            run_repetitions-Ran k c reps
              (record p { completed_samples = p.completed_samples + 1 })))
      | inr e ↦
          let new : is_new k.already key ≡ true = rw e refl in
          elim (Bool-cases (k.moments.is_cancelled (length p.stored))) [
            | inl stop ↦ rw (e, stop) (Ran-cancelled k (key ∷ keys) p stop)
            | inr go ↦ elim (Bool-cases (k.moments.sampling_raises (length p.stored))) [
              | inl bad ↦ rw (e, go, bad) (0, (sym (append_nothing p.stored), inl bad))
              | inr fine ↦ elim (Bool-cases (any_of (key_eq key) p.stored)) [
                | inl twice ↦
                    rw (e, go, fine, twice)
                      (0, (sym (append_nothing p.stored), inr (inr (rw new twice))))
                | inr once ↦ elim (Bool-cases (k.moments.publishing_raises (length after.stored))) [
                  | inl mute ↦ rw (e, go, fine, once, mute) (1, (rw new refl, inr (inl mute)))
                  | inr told ↦
                      rw (e, go, fine, once, told)
                        (Ran-store k keys key p _ new (run_repetitions-Ran k c reps after))
                ]
              ]
            ]
          ]
    ]
