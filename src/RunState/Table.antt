-- ===== src/RunState/Table.antt =====
-- What the transition tables and the functions over them guarantee, status by status.
use free_weight.Base.{◌≡◌, ◌≢◌, ◌⊎◌, true, false, arith}
use free_weight.RunState.{
  RunStatus, is_terminal_run, is_legal_run_transition, Checked, return, raise, run_not_cancellable,
  cancellation_target, run_eq,
}

pub run_eq_refl : (s : RunStatus) → run_eq s s ≡ true
run_eq_refl s = ground arith

pub run_eq→eq : (s t : RunStatus) → run_eq s t ≡ true → s ≡ t
run_eq→eq s t h = ground arith

pub legal-ne : (s t : RunStatus) → is_legal_run_transition s t ≡ true → s ≢ t
unfolding is_legal_run_transition
legal-ne s t h = ground arith

pub legal_from_terminal :
    (s t : RunStatus) → is_terminal_run s ≡ true → is_legal_run_transition s t ≡ false
unfolding is_legal_run_transition is_terminal_run
legal_from_terminal s t h = ground arith

-- What a cancel request of a run in `s` may come to.
abbrev pub CancelOutcome : RunStatus → Checked RunStatus → Type 0
CancelOutcome s (return t) =
    (is_legal_run_transition s t ≡ true)
    × ((t ≡ RunStatus.cancelled) ⊎ (is_legal_run_transition t RunStatus.cancelled ≡ true))
    × ((t ≡ RunStatus.cancelling → s ≡ RunStatus.running)
        × (s ≡ RunStatus.running → t ≡ RunStatus.cancelling))
CancelOutcome s (raise e) =
    (e ≡ run_not_cancellable s)
    × ((is_terminal_run s ≡ true) ⊎ ((s ≡ RunStatus.cancelling) ⊎ (s ≡ RunStatus.interrupted)))

-- For every status, `cancellation_target` answers a legal move that is `cancelled` or from which
-- `cancelled` is one legal move away, and it answers `cancelling` exactly for a running run; or it
-- raises RunNotCancellable with that status, and then the run is in a terminal status, in
-- `cancelling` or in `interrupted`.
pub cancellation_target_outcome : (s : RunStatus) → CancelOutcome s (cancellation_target s)
unfolding cancellation_target is_legal_run_transition is_terminal_run
cancellation_target_outcome RunStatus.queued = ground arith
cancellation_target_outcome _ = ground arith
