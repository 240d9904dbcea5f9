-- ===== src/Sampling/Interruptions.antt =====
-- Interrupted executions of a test, resumed until one is not interrupted.
use mathlib.Core.Path.{subst}
use free_weight.Base.{
  ℕ, zero, suc, ◌+◌, ◌≡◌, refl, sym, ap, ◌∙◌, inl, inr, Bool, true, false, List, [], ◌∷◌, ◌++◌,
  length, take, drop, All, take-append-drop, drop-nil, arith, eq_refl,
}
use free_weight.Sampling.{
  Case, Key, key_eq, Execution, cancelled, failed, done, Moments, execute_cases,
}
use free_weight.Sampling.Plan.{planned, is_new, missing, Repeats, FailsAt}
use free_weight.Sampling.Resume.{Executed, execute_cases-Executed}

abbrev pub stored_by : Execution → List Key
stored_by (cancelled q) = q.stored
stored_by (failed q) = q.stored
stored_by (done q) = q.stored

-- Nothing raises but the cancellation at these moments.
abbrev pub only_cancelled : (ℕ → Bool) → Moments
only_cancelled is_cancelled = record {
  is_cancelled = is_cancelled;
  sampling_raises = λ _. false;
  publishing_raises = λ _. false;
}

-- The samples once executions that are cancelled at these moments, or finish, have been followed by
-- one that is not cancelled.
abbrev pub resumed : List (ℕ → Bool) → ℕ → List Case → List Key → List Key
resumed [] n cs already = stored_by (execute_cases (only_cancelled (λ _. false)) n cs 0 already)
resumed (is_cancelled ∷ rest) n cs already =
    resumed rest n cs (stored_by (execute_cases (only_cancelled is_cancelled) n cs 0 already))

abbrev pub IsDistinct : List Key → Type 0
IsDistinct [] = Unit
IsDistinct (x ∷ xs) = All (λ y. key_eq y x ≡ false) xs × IsDistinct xs

key_eq_refl : (k : Key) → key_eq k k ≡ true
key_eq_refl k = ground (arith, eq_refl k.case_id)

missing_nothing : (keys : List Key) → missing [] keys ≡ keys
missing_nothing [] = refl
missing_nothing (x ∷ keys) = ap (λ l. x ∷ l) (missing_nothing keys)

missing_absent :
    (x : Key) (already keys : List Key)
    → All (λ y. key_eq y x ≡ false) keys
    → missing (x ∷ already) keys ≡ missing already keys
missing_absent x already [] h = refl
missing_absent x already (y ∷ keys) h = ground (arith, h.0, missing_absent x already keys h.1)

-- Of distinct keys, those after the first `m` are the missing ones when the first `m` are stored.
missing-take :
    (m : ℕ) (keys : List Key) → IsDistinct keys → missing (take m keys) keys ≡ drop m keys
missing-take zero keys d = missing_nothing keys
missing-take (suc m) [] d = refl
missing-take (suc m) (x ∷ keys) d =
    let here : is_new (x ∷ take m keys) x ≡ false = ground (arith, key_eq_refl x) in
    rw here (missing_absent x (take m keys) keys d.0 ∙ missing-take m keys d.1)

take-nil : (n : ℕ) → take {A = Key} n [] ≡ []
take-nil zero = refl
take-nil (suc n) = refl

take-take : (m n : ℕ) (keys : List Key) → take m keys ++ take n (drop m keys) ≡ take (m + n) keys
take-take zero n keys = ap (λ k. take k keys) (omega arith)
take-take (suc m) n [] = let e : suc m + n ≡ suc (m + n) = omega arith in rw e (take-nil n)
take-take (suc m) n (x ∷ keys) =
    let e : suc m + n ≡ suc (m + n) = omega arith in rw e (ap (λ l. x ∷ l) (take-take m n keys))

take-length : (keys : List Key) → take (length keys) keys ≡ keys
take-length [] = refl
take-length (x ∷ keys) = ap (λ l. x ∷ l) (take-length keys)

drop-drop : (m n : ℕ) (keys : List Key) → drop n (drop m keys) ≡ drop (m + n) keys
drop-drop zero n keys = ap (λ k. drop k keys) (omega arith)
drop-drop (suc m) n [] = drop-nil n ∙ sym (drop-nil (suc m + n))
drop-drop (suc m) n (x ∷ keys) =
    let e : suc m + n ≡ suc (m + n) = omega arith in rw e (drop-drop m n keys)

All-drop : (P : Key → Type 0) (n : ℕ) (keys : List Key) → All P keys → All P (drop n keys)
All-drop P zero keys h = h
All-drop P (suc n) [] h = h
All-drop P (suc n) (x ∷ keys) h = All-drop P n keys h.1

Repeats-shed :
    (x : Key) (rest stored : List Key)
    → All (λ y. key_eq y x ≡ false) rest
    → Repeats rest (x ∷ stored)
    → Repeats rest stored
Repeats-shed x [] stored a h = h
Repeats-shed x (y ∷ rest) stored a h = rw a.0 at h

-- Of distinct keys, none is among those before it.
never-Repeats :
    (n : ℕ) (keys : List Key) → IsDistinct keys → Repeats (drop n keys) (take n keys) → ⊥
never-Repeats zero [] d h = h
never-Repeats zero (x ∷ keys) d h = cc
never-Repeats (suc n) [] d h = h
never-Repeats (suc n) (x ∷ keys) d h =
    never-Repeats n keys d.1
      (Repeats-shed x (drop n keys) (take n keys) (All-drop (λ y. key_eq y x ≡ false) n keys d.0) h)

-- From a first part of the plan a first part remains, and an execution that only a cancellation may
-- stop does not fail.
stored_first :
    (m k : ℕ) (keys stored : List Key)
    → IsDistinct keys
    → stored ≡ take m keys ++ take k (missing (take m keys) keys)
    → stored ≡ take (m + k) keys
stored_first m k keys stored d h =
    h ∙ ap (λ l. take m keys ++ take k l) (missing-take m keys d) ∙ take-take m k keys

never_fails :
    (is_cancelled : ℕ → Bool) (m k : ℕ) (keys stored : List Key)
    → IsDistinct keys
    → stored ≡ take m keys ++ take k (missing (take m keys) keys)
    → FailsAt (only_cancelled is_cancelled) (drop k (missing (take m keys) keys)) stored
    → ⊥
never_fails is_cancelled m k keys stored d h (inl bad) = cc
never_fails is_cancelled m k keys stored d h (inr (inl mute)) = cc
never_fails is_cancelled m k keys stored d h (inr (inr twice)) =
    let rest = ap (drop k) (missing-take m keys d) ∙ drop-drop m k keys in
    never-Repeats (m + k) keys d (
      subst (λ l. Repeats l (take (m + k) keys)) rest
        (subst (λ l. Repeats (drop k (missing (take m keys) keys)) l)
          (stored_first m k keys stored d h) twice))

-- An execution over a first part of the plan leaves a first part of the plan.
stored_prefix :
    (is_cancelled : ℕ → Bool) (m : ℕ) (keys : List Key) (x : Execution)
    → IsDistinct keys
    → Executed (only_cancelled is_cancelled) keys (take m keys) 0 x
    → (j : ℕ) × (stored_by x ≡ take j keys)
stored_prefix is_cancelled m keys (done q) d h = (
  length keys,
  h.0
      ∙ ap (λ l. take m keys ++ l) (missing-take m keys d)
      ∙ take-append-drop m keys
      ∙ sym (take-length keys),
)
stored_prefix is_cancelled m keys (cancelled q) d (k, h) =
    (m + k, stored_first m k keys q.stored d h.0)
stored_prefix is_cancelled m keys (failed q) d (k, h) =
    (m + k, stored_first m k keys q.stored d h.0)

stored_whole :
    (m : ℕ) (keys : List Key) (x : Execution)
    → IsDistinct keys
    → Executed (only_cancelled (λ _. false)) keys (take m keys) 0 x
    → stored_by x ≡ keys
stored_whole m keys (done q) d h =
    h.0 ∙ ap (λ l. take m keys ++ l) (missing-take m keys d) ∙ take-append-drop m keys
stored_whole m keys (cancelled q) d (k, (h, stop)) = cc
stored_whole m keys (failed q) d (k, (h, why)) =
    absurd (never_fails (λ _. false) m k keys q.stored d h why)

resumed_from :
    (interruptions : List (ℕ → Bool)) (m n : ℕ) (cs : List Case) (already : List Key)
    → IsDistinct (planned n cs)
    → already ≡ take m (planned n cs)
    → resumed interruptions n cs already ≡ planned n cs
resumed_from [] m n cs already d e =
    let o = only_cancelled (λ _. false) in
    let start = take m (planned n cs) in
    rw e (
      stored_whole m (planned n cs) (execute_cases o n cs 0 start) d
        (execute_cases-Executed o n cs 0 start))
resumed_from (s ∷ rest) m n cs already d e =
    let o = only_cancelled s in
    let start = take m (planned n cs) in
    let x =
      stored_prefix s m (planned n cs) (execute_cases o n cs 0 start) d
        (execute_cases-Executed o n cs 0 start) in
    resumed_from rest x.0 n cs (stored_by (execute_cases o n cs 0 already)) d (rw e x.1)

-- If no two planned samples have one key and nothing raises but the cancellations, a test that is
-- executed from the start, interrupted any number of times at any moments and resumed until an
-- execution is not interrupted, has stored exactly the planned samples, each once and in the order of
-- an execution without interruption.
pub resumed_exact :
    (interruptions : List (ℕ → Bool)) (n : ℕ) (cs : List Case)
    → IsDistinct (planned n cs)
    → resumed interruptions n cs [] ≡ planned n cs
resumed_exact interruptions n cs d = resumed_from interruptions 0 n cs [] d refl
