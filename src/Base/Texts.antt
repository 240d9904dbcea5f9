-- ===== src/Base/Texts.antt =====
-- Texts in the order of their characters' numbers, and sorted lists of them.
use Prim.Native.Nat.{Ordering}
use Prim.Native.String.{String}
use mathlib.Core.Bool.{Bool, true, false}
use mathlib.Core.List.{List, [], ◌∷◌}
use free_weight.Base.Tests.{if◌then◌else◌}

abbrev pub str_leb : String → String → Bool
str_leb a b = elim (Prim.Native.String.compare a b) [ Ordering.gt ↦ false | _ ↦ true ]

abbrev pub insert_string : String → List String → List String
insert_string a [] = a ∷ []
insert_string a (b ∷ bs) = if str_leb a b then a ∷ b ∷ bs else b ∷ insert_string a bs

-- `sorted(reasons)`
abbrev pub sorted_strings : List String → List String
sorted_strings [] = []
sorted_strings (a ∷ rest) = insert_string a (sorted_strings rest)
