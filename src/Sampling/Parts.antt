-- ===== src/Sampling/Parts.antt =====
-- What running through two parts of a plan in turn comes to.
use mathlib.Core.Path.{subst}
use free_weight.Base.{
  ℕ, zero, suc, ◌+◌, ◌≡◌, refl, sym, ap, ◌∙◌, inl, inr, List, [], ◌∷◌, ◌++◌, length, take, drop,
  keep_if-append, length-append, arith,
}
use free_weight.Sampling.{Key, Progress, Execution, cancelled, failed, done, Conditions, and_go_on}
use free_weight.Sampling.Plan.{missing, is_new, Repeats, FailsAt, Ran, append_assoc}

take_within : (n : ℕ) (xs ys : List Key) → (m : ℕ) × (take m (xs ++ ys) ≡ take n xs)
take_within zero xs ys = (0, refl)
take_within (suc n) [] ys = (0, refl)
take_within (suc n) (x ∷ xs) ys =
    let rest = take_within n xs ys in (suc rest.0, ap (λ l. x ∷ l) rest.1)

take_beyond : (n : ℕ) (xs ys : List Key) → take (length xs + n) (xs ++ ys) ≡ xs ++ take n ys
take_beyond n [] ys = ap (λ k. take k ys) (omega arith)
take_beyond n (x ∷ xs) ys =
    let e : suc (length xs) + n ≡ suc (length xs + n) = omega arith in
    rw e (ap (λ l. x ∷ l) (take_beyond n xs ys))

drop_beyond : (n : ℕ) (xs ys : List Key) → drop (length xs + n) (xs ++ ys) ≡ drop n ys
drop_beyond n [] ys = ap (λ k. drop k ys) (omega arith)
drop_beyond n (x ∷ xs) ys =
    let e : suc (length xs) + n ≡ suc (length xs + n) = omega arith in rw e (drop_beyond n xs ys)

-- A repetition within the first part is one within the whole.
Repeats-within :
    (n : ℕ) (xs ys stored : List Key)
    → Repeats (drop n xs) stored
    → (take n (xs ++ ys) ≡ take n xs) × Repeats (drop n (xs ++ ys)) stored
Repeats-within zero [] ys stored h = absurd h
Repeats-within zero (x ∷ xs) ys stored h = (refl, h)
Repeats-within (suc n) [] ys stored h = absurd h
Repeats-within (suc n) (x ∷ xs) ys stored h =
    let rest = Repeats-within n xs ys stored h in (ap (λ l. x ∷ l) rest.0, rest.1)

missing-append :
    (already ks ls : List Key)
    → missing already (ks ++ ls) ≡ missing already ks ++ missing already ls
missing-append already ks ls = keep_if-append (is_new already) ks ls

-- The samples stored after two parts, the second cut short.
stored_beyond :
    (k : Conditions) (ks ls : List Key) (p q r : Progress) (n : ℕ)
    → q.stored ≡ p.stored ++ missing k.already ks
    → r.stored ≡ q.stored ++ take n (missing k.already ls)
    → r.stored ≡ p.stored ++ take (length (missing k.already ks) + n) (missing k.already (ks ++ ls))
stored_beyond k ks ls p q r n h h' =
    let first = missing k.already ks in
    let second = missing k.already ls in
    h'
    ∙ ap (λ l. l ++ take n second) h
    ∙ sym (append_assoc p.stored first (take n second))
    ∙ ap (λ l. p.stored ++ l)
        (sym (take_beyond n first second)
          ∙ ap (take (length first + n)) (sym (missing-append k.already ks ls)))

Ran-append :
    (k : Conditions) (ks ls : List Key) (p q : Progress) (x : Execution)
    → Ran k ks p (done q)
    → Ran k ls q x
    → Ran k (ks ++ ls) p x
Ran-append k ks ls p q (done r) h r' = (
  r'.0
      ∙ ap (λ l. l ++ missing k.already ls) h.0
      ∙ sym (append_assoc p.stored (missing k.already ks) (missing k.already ls))
      ∙ ap (λ l. p.stored ++ l) (sym (missing-append k.already ks ls)),
  omega (arith, r'.1, h.1, length-append ks ls),
)
Ran-append k ks ls p q (cancelled r) h (n, (r', stop)) =
    (length (missing k.already ks) + n, (stored_beyond k ks ls p q r n h.0 r', stop))
Ran-append k ks ls p q (failed r) h (n, (r', why)) =
    let first = missing k.already ks in
    let second = missing k.already ls in
    let same : drop (length first + n) (missing k.already (ks ++ ls)) ≡ drop n second =
      ap (drop (length first + n)) (missing-append k.already ks ls) ∙ drop_beyond n first second in
    (
      length first + n,
      (
        stored_beyond k ks ls p q r n h.0 r',
        subst (λ l. FailsAt k.moments l r.stored) (sym same) why,
      ),
    )

stored_within :
    (k : Conditions) (ks ls : List Key) (p q : Progress) (n : ℕ)
    → q.stored ≡ p.stored ++ take n (missing k.already ks)
    → (m : ℕ) × (q.stored ≡ p.stored ++ take m (missing k.already (ks ++ ls)))
stored_within k ks ls p q n h =
    let cut = take_within n (missing k.already ks) (missing k.already ls) in
    (
      cut.0,
      h
          ∙ ap (λ l. p.stored ++ l)
              (sym cut.1 ∙ ap (take cut.0) (sym (missing-append k.already ks ls))),
    )

Ran-short :
    (k : Conditions) (ks ls : List Key) (p q : Progress)
    → Ran k ks p (cancelled q)
    → Ran k (ks ++ ls) p (cancelled q)
Ran-short k ks ls p q (n, (h, stop)) = let (m, e) = stored_within k ks ls p q n h in (m, (e, stop))

Ran-failed :
    (k : Conditions) (ks ls : List Key) (p q : Progress)
    → Ran k ks p (failed q)
    → Ran k (ks ++ ls) p (failed q)
Ran-failed k ks ls p q (n, (h, inl bad)) =
    let (m, e) = stored_within k ks ls p q n h in (m, (e, inl bad))
Ran-failed k ks ls p q (n, (h, inr (inl mute))) =
    let (m, e) = stored_within k ks ls p q n h in (m, (e, inr (inl mute)))
Ran-failed k ks ls p q (n, (h, inr (inr twice))) =
    let whole = missing-append k.already ks ls in
    let (same, again) =
      Repeats-within n (missing k.already ks) (missing k.already ls) q.stored twice in
    (
      n,
      (
        h ∙ ap (λ l. p.stored ++ l) (sym same ∙ ap (take n) (sym whole)),
        inr (inr (subst (λ l. Repeats (drop n l) q.stored) (sym whole) again)),
      ),
    )

pub and_go_on-Ran :
    (k : Conditions) (ks ls : List Key) (p : Progress) (x : Execution) (rest : Progress → Execution)
    → Ran k ks p x
    → ((q : Progress) → Ran k ls q (rest q))
    → Ran k (ks ++ ls) p (and_go_on x rest)
and_go_on-Ran k ks ls p (done q) rest h then_ = Ran-append k ks ls p q (rest q) h (then_ q)
and_go_on-Ran k ks ls p (cancelled q) rest h then_ = Ran-short k ks ls p q h
and_go_on-Ran k ks ls p (failed q) rest h then_ = Ran-failed k ks ls p q h
