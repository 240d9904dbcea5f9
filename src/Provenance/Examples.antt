-- ===== src/Provenance/Examples.antt =====
-- The theorems on fingerprint documents, applied to two of one model on one machine.
use free_weight.Base.{ℕ, ◌==◌, ◌≡◌, refl, ◌↔◌, true, false, [], All}
use free_weight.Json.{Numbers, Fields, null, string, object, field, no_fields, same}
use free_weight.Provenance.{diff_documents, check_repeatable, walk, depth}
use free_weight.Provenance.Agreement.{
  ReadAlike, OverDicts, diff_documents-ReadAlike, check_repeatable-OverDicts,
}

abbrev numbers : Numbers ℕ
numbers = record { equal = ◌==◌; of_bool = λ b. elim b [ true ↦ 1 | false ↦ 0 ] }

abbrev hashes : Fields ℕ → Fields ℕ
hashes f = field "benchmark" (object (field "dataset_hashes" (object f) no_fields)) no_fields

-- The same hashes, with a dataset that has none noted in one document and left out of the other.
abbrev recorded : Fields ℕ
recorded =
    field "model" (object (field "artifact_digest" (string "d1") no_fields))
      (hashes (field "a" (string "h") (field "b" null no_fields)))

abbrev observed : Fields ℕ
observed =
    field "model" (object (field "artifact_digest" (string "d1") no_fields))
      (hashes (field "a" (string "h") no_fields))

diff_documents-ReadAlike_example :
    (diff_documents numbers recorded observed ≡ [])
    ↔ ReadAlike numbers (object recorded) (object observed)
diff_documents-ReadAlike_example = diff_documents-ReadAlike numbers recorded observed

no_diff : diff_documents numbers recorded observed ≡ []
unfolding diff_documents walk depth same
no_diff = refl

check_repeatable-OverDicts_example : All OverDicts (check_repeatable numbers recorded observed)
check_repeatable-OverDicts_example = check_repeatable-OverDicts numbers recorded observed no_diff
