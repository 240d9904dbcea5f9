-- ===== src/Store/Examples.antt =====
-- The theorem on pages, applied to three runs of which two were created at one instant.
use free_weight.Base.{ℕ, ◌≡◌, refl, true, String, none, some, List, [], ◌∷◌, ◌++◌}
use free_weight.RunState.{RunStatus}
use free_weight.Store.Rows.{Run}
use free_weight.Store.Listing.{Filters, cursor_of, list_runs}
use free_weight.Store.Pages.{list_runs-append}

abbrev run : String → ℕ → Run
run id created_at = record {
  id = id;
  status = RunStatus.completed;
  created_at = created_at;
  started_at = none;
  completed_at = none;
  error_code = none;
  error_text = none;
}

abbrev rows : List Run
rows = run "a" 1 ∷ run "b" 2 ∷ run "c" 2 ∷ []

abbrev completed_runs : Filters
completed_runs = record {
  status = some RunStatus.completed;
  since = none;
  until = none;
  others = λ r. true;
}

first_page : list_runs completed_runs none 1 rows ≡ [] ++ run "c" 2 ∷ []
unfolding list_runs
first_page = refl

list_runs-append_example :
    list_runs completed_runs none 1 rows
      ++ list_runs completed_runs (some (cursor_of (run "c" 2))) 2 rows
    ≡ list_runs completed_runs none 3 rows
list_runs-append_example =
    list_runs-append completed_runs none rows ((refl, (refl, tt)), ((refl, tt), (tt, tt))) 1 2 []
      (run "c" 2) first_page
