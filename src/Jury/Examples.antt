-- ===== src/Jury/Examples.antt =====
-- The theorems on juries, applied to a machine with three models, one of them remote.
use free_weight.Base.{true, false, String, some, List, [], ◌∷◌}
use free_weight.Jury.{assemble_jury}
use free_weight.Jury.Eligible.{MayJudge}
use free_weight.Jury.Assembly.{AreConsidered, Parted, Assembled, assemble_jury-Assembled}

abbrev installed : List String
installed = "q" ∷ "r" ∷ "s" ∷ []

assemble_jury-Assembled_example :
    (models : List String) × ((eligible : List String) × ((others : List String) × (AreConsidered
            installed [] models
          × (Parted (MayJudge installed (some "q") (("s", true) ∷ []) false) models eligible others
              × Assembled installed
                  (some "q")
                  (("s", true) ∷ [])
                  false
                  2
                  eligible
                  others
                  (assemble_jury installed (some "q") [] 2 (("s", true) ∷ []) false)))))
assemble_jury-Assembled_example =
    assemble_jury-Assembled installed (some "q") (("s", true) ∷ []) false [] 2
