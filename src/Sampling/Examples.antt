-- ===== src/Sampling/Examples.antt =====
-- The theorems on samples, applied to an interrupted test.
use free_weight.Base.{ℕ, ◌≡◌, refl, leb, Bool, false, List, [], ◌∷◌}
use free_weight.Sampling.{Case, Moments, execute_cases}
use free_weight.Sampling.Plan.{planned}
use free_weight.Sampling.Resume.{Executed, execute_cases-Executed}
use free_weight.Sampling.Interruptions.{resumed, resumed_exact}

abbrev two_cases : List Case
two_cases = record { case_id = "a"; ordinal = 0 } ∷ record { case_id = "b"; ordinal = 1 } ∷ []

-- A request that comes once three samples are stored.
abbrev after_three : ℕ → Bool
after_three n = leb 3 n

-- A test of which a case comes twice, and nothing raises: the second is refused.
abbrev quiet : Moments
quiet = record {
  is_cancelled = λ _. false;
  sampling_raises = λ _. false;
  publishing_raises = λ _. false;
}

abbrev repeated_case : List Case
repeated_case = record { case_id = "a"; ordinal = 0 } ∷ record { case_id = "a"; ordinal = 0 } ∷ []

execute_cases-Executed_example :
    Executed quiet (planned 2 repeated_case) [] 5 (execute_cases quiet 2 repeated_case 5 [])
execute_cases-Executed_example = execute_cases-Executed quiet 2 repeated_case 5 []

resumed_exact_example :
    resumed (after_three ∷ after_three ∷ []) 2 two_cases [] ≡ planned 2 two_cases
resumed_exact_example =
    resumed_exact (after_three ∷ after_three ∷ []) 2 two_cases
      ((refl, (refl, (refl, tt))), ((refl, (refl, tt)), ((refl, tt), (tt, tt))))
