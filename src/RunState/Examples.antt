-- ===== src/RunState/Examples.antt =====
-- The theorems on the state machines, applied to single statuses and trails.
use free_weight.Base.{◌≤◌, ◌≡◌, refl, true, length}
use free_weight.RunState.{RunStatus, cancellation_target, is_legal_run_transition}
use free_weight.RunState.Table.{CancelOutcome, cancellation_target_outcome}
use free_weight.RunState.Paths.{
  Trail, stay, move, visited, is_prefix, history, visited-history, no_loop_without_resume,
}

cancellation_target_outcome_example :
    CancelOutcome RunStatus.running (cancellation_target RunStatus.running)
cancellation_target_outcome_example = cancellation_target_outcome RunStatus.running

-- A run that is executed and then asked to stop.
stopping_trail : Trail RunStatus.queued RunStatus.cancelling
unfolding is_legal_run_transition
stopping_trail =
    move {t = RunStatus.running}
      (move {t = RunStatus.warming}
        (move {t = RunStatus.preparing} (move {t = RunStatus.queued} stay refl) refl) refl)
      refl

visited-history_example : is_prefix (history RunStatus.cancelling) (visited stopping_trail) ≡ true
visited-history_example = visited-history stopping_trail

no_loop_without_resume_example :
    (length (visited stopping_trail) ≤ 6)
    × (RunStatus.queued ≡ RunStatus.cancelling → length (visited stopping_trail) ≡ 1)
unfolding stopping_trail
no_loop_without_resume_example = no_loop_without_resume stopping_trail refl
