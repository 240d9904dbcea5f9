-- ===== src/Store/Rows.antt =====
-- The rows of `runs`, `run_tests` and `run_events`, and updates of a table by key.
use free_weight.Base.{
  ℕ, ◌≡◌, refl, String, Option, none, some, List, [], ◌∷◌, arith, if◌then◌else◌, find_first, str_eq,
  eq_iff,
}
use free_weight.RunState.{RunStatus, TestStatus}

pub record Run : Type 0 where
  pub id : String
  pub status : RunStatus
  pub created_at : ℕ
  pub started_at : Option ℕ
  pub completed_at : Option ℕ
  pub error_code : Option String
  pub error_text : Option String

pub record RunTest : Type 0 where
  pub id : String
  pub run_id : String
  pub status : TestStatus
  pub total_cases : ℕ
  pub repetitions : ℕ
  pub skip_reason : Option String
  pub started_at : Option ℕ
  pub completed_at : Option ℕ
  pub error_code : Option String
  pub error_text : Option String

-- `data_json` holds the keys that the modelled publishers write, each with its value or null.
pub record RunEvent : Type 0 where
  pub run_id : String
  pub sequence : ℕ
  pub timestamp : ℕ
  pub event_type : String
  pub message : Option String
  pub progress_completed : Option ℕ
  pub progress_total : Option ℕ
  pub data_json : List (String × Option String)

pub record Db : Type 0 where
  pub runs : List Run
  pub tests : List RunTest
  pub events : List RunEvent

-- `session.get(Run, run_id)`
unfoldable pub find_run : String → List Run → Option Run
find_run id rows = find_first (λ r. str_eq r.id id) rows

-- `UPDATE runs SET … WHERE id = :id`
unfoldable pub update_run : String → (Run → Run) → List Run → List Run
update_run id f [] = []
update_run id f (r ∷ rs) = (if str_eq r.id id then f r else r) ∷ update_run id f rs

unfoldable pub find_test : String → List RunTest → Option RunTest
find_test id rows = find_first (λ r. str_eq r.id id) rows

unfoldable pub update_test : String → (RunTest → RunTest) → List RunTest → List RunTest
update_test id f [] = []
update_test id f (r ∷ rs) = (if str_eq r.id id then f r else r) ∷ update_test id f rs

-- A column that keeps its value where the new one is `None`.
abbrev pub or_keep {ℓ} : {A : Type ℓ} → Option A → Option A → Option A
or_keep none old = old
or_keep (some v) old = some v

pub find_run-update_run :
    (id k : String) (f : Run → Run) (rs : List Run)
    → ((r : Run) → (f r).id ≡ r.id)
    → find_run k (update_run id f rs)
      ≡ elim (find_run k rs) [ none ↦ none | some r ↦ some (if str_eq r.id id then f r else r) ]
unfolding find_run update_run
find_run-update_run id k f [] same = refl
find_run-update_run id k f (r ∷ rs) same =
    ground (arith, find_run-update_run id k f rs same, same r, eq_iff r.id id, eq_iff r.id k)
