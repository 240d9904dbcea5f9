-- ===== src/RunState/Paths.antt =====
-- Sequences of legal transitions: what a run has been through, and that nothing loops by itself.
use free_weight.Base.{
  ℕ, ◌+◌, ◌<◌, ◌≤◌, ◌≡◌, refl, ◌⊎◌, inr, Bool, true, false, ◌&&◌, List, [], ◌∷◌, arith, length,
}
use free_weight.RunState.{RunStatus, run_eq, run_in, is_terminal_run, is_legal_run_transition}
use free_weight.RunState.Table.{legal_from_terminal}

pub data Trail (s : RunStatus) : RunStatus → Type 0 where
  stay : Trail s s
  move : {t u : RunStatus} → Trail s t → is_legal_run_transition t u ≡ true → Trail s u

-- The statuses of a trail, the latest first.
abbrev pub visited : {s t : RunStatus} → Trail s t → List RunStatus
visited {s} stay = s ∷ []
visited (move {u = u} trail h) = u ∷ visited trail

abbrev pub is_prefix : List RunStatus → List RunStatus → Bool
is_prefix [] l = true
is_prefix (x ∷ xs) [] = false
is_prefix (x ∷ xs) (y ∷ ys) = run_eq x y && is_prefix xs ys

-- The statuses that must directly precede one, the latest first.
abbrev pub history : RunStatus → List RunStatus
history RunStatus.queued = RunStatus.queued ∷ []
history RunStatus.preparing = RunStatus.preparing ∷ RunStatus.queued ∷ []
history RunStatus.warming = RunStatus.warming ∷ RunStatus.preparing ∷ RunStatus.queued ∷ []
history RunStatus.running =
    RunStatus.running ∷ RunStatus.warming ∷ RunStatus.preparing ∷ RunStatus.queued ∷ []
history RunStatus.completed =
    RunStatus.completed ∷ RunStatus.running ∷ RunStatus.warming ∷ RunStatus.preparing
    ∷ RunStatus.queued ∷ []
history RunStatus.cancelling =
    RunStatus.cancelling ∷ RunStatus.running ∷ RunStatus.warming ∷ RunStatus.preparing
    ∷ RunStatus.queued ∷ []
history s = s ∷ []

history_step :
    (t u : RunStatus) (l : List RunStatus)
    → is_legal_run_transition t u ≡ true
    → is_prefix (history t) l ≡ true
    → is_prefix (history u) (u ∷ l) ≡ true
unfolding is_legal_run_transition
history_step RunStatus.queued u l h p = ground arith
history_step _ u l h p = ground arith

-- However a queued run comes to a status, the statuses just before it are those of `history`: a
-- completed run went from queued through preparing, warming and running without a break since it
-- was last queued, and a run in cancelling likewise up to running.
pub visited-history :
    {u : RunStatus} (trail : Trail RunStatus.queued u)
    → is_prefix (history u) (visited trail) ≡ true
visited-history stay = refl
visited-history (move {t = t} {u = u} trail h) =
    history_step t u (visited trail) h (visited-history trail)

-- A trail from a terminal status goes nowhere.
pub terminal_immutable : {s t : RunStatus} → is_terminal_run s ≡ true → Trail s t → t ≡ s
terminal_immutable h stay = refl
terminal_immutable {s} h (move {t = t} {u = u} trail legal) =
    let e : t ≡ s = terminal_immutable h trail in ground (arith, legal_from_terminal t u)

-- How far a status is along the way; only resuming goes back.
abbrev rank : RunStatus → ℕ
rank RunStatus.queued = 0
rank RunStatus.preparing = 1
rank RunStatus.warming = 2
rank RunStatus.running = 3
rank RunStatus.cancelling = 4
rank _ = 5

rank_step :
    (t u : RunStatus)
    → is_legal_run_transition t u ≡ true
    → (t ≡ RunStatus.interrupted) ⊎ (rank t < rank u)
unfolding is_legal_run_transition
rank_step RunStatus.queued u h = ground arith
rank_step _ u h = ground arith

in_visited :
    {s t : RunStatus} (trail : Trail s t)
    → t ≡ RunStatus.interrupted
    → run_in RunStatus.interrupted (visited trail) ≡ true
in_visited stay e = ground arith
in_visited (move trail h) e = ground arith

rank_trail :
    {s t : RunStatus} (trail : Trail s t)
    → (run_in RunStatus.interrupted (visited trail) ≡ true)
      ⊎ (rank s + length (visited trail) ≤ rank t + 1)
rank_trail {s} stay = inr (omega arith)
rank_trail {s} (move {t = t} {u = u} trail h) =
    ground (arith, rank_trail trail, rank_step t u h, in_visited trail)

rank-le : (s : RunStatus) → rank s ≤ 5
rank-le s = ground arith

-- A trail that does not visit `interrupted` makes at most five moves, and one that comes back to
-- the status it left makes none.
pub no_loop_without_resume :
    {s t : RunStatus} (trail : Trail s t)
    → run_in RunStatus.interrupted (visited trail) ≡ false
    → (length (visited trail) ≤ 6) × (s ≡ t → length (visited trail) ≡ 1)
no_loop_without_resume {s} {t} trail h =
    ground (arith, rank_trail trail, rank-le t, length_visited trail)
  where
    length_visited : {s t : RunStatus} (trail : Trail s t) → 1 ≤ length (visited trail)
    length_visited stay = omega arith
    length_visited (move trail h) = omega arith
