-- ===== src/Calibration/Examples.antt =====
-- The theorem on partitions, applied to three samples of two grades.
use free_weight.Base.{ℕ, ◌≡◌, refl, true, String, some, List, [], ◌∷◌, arith}
use free_weight.Calibration.{Chance, Partition, partition_samples}
use free_weight.Calibration.Split.{IsFair, IsPartition, partition_samples-IsPartition}

abbrev chance : Chance
chance = record { is_share = true; share_of = λ n. n; shuffled = λ seed grade xs. xs }

chance-IsFair : IsFair chance
chance-IsFair = record { keeps = λ test seed grade xs. refl; share-le = λ n. omega arith }

abbrev graded : List (String × ℕ)
graded = ("b", 5) ∷ ("a", 2) ∷ ("c", 5) ∷ []

partition_samples-IsPartition_example :
    (p : Partition) × ((partition_samples chance graded 7 ≡ some p) × IsPartition graded p)
partition_samples-IsPartition_example =
    partition_samples-IsPartition chance graded 7 chance-IsFair refl
