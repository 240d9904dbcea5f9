-- ===== src/Store/Listing.antt =====
-- RunRepository.list_runs: the runs a page at a time, newest first. The filters over columns that the
-- rows here leave out are one test, `others`.
use free_weight.Base.{
  ℕ, ltb, ◌==◌, leb, Bool, true, ◌&&◌, ◌||◌, String, Option, none, some, List, [], ◌∷◌, take,
  keep_if, text_lt, if◌then◌else◌,
}
use free_weight.RunState.{RunStatus, run_eq}
use free_weight.Store.Rows.{Run}

pub record Filters : Type 0 where
  pub status : Option RunStatus
  pub since : Option ℕ
  pub until : Option ℕ
  pub others : Run → Bool

-- A `where` that is added if the argument is not None.
abbrev pub where_given : {A : Type 0} → Option A → (A → Bool) → Bool
where_given none test = true
where_given (some a) test = test a

abbrev pub passes : Filters → Run → Bool
passes f r =
    where_given f.status (run_eq r.status)
    && (f.others r
        && (where_given f.since (λ from. leb from r.created_at)
            && where_given f.until (λ to. ltb r.created_at to)))

-- `Run.created_at < created_at OR (Run.created_at == created_at AND Run.id < run_id)`
abbrev pub comes_after : ℕ × String → Run → Bool
comes_after (created_at, run_id) r =
    ltb r.created_at created_at || (r.created_at == created_at && text_lt r.id run_id)

abbrev pub cursor_of : Run → ℕ × String
cursor_of r = (r.created_at, r.id)

-- `ORDER BY created_at DESC, id DESC`
abbrev pub insert_newest : Run → List Run → List Run
insert_newest r [] = r ∷ []
insert_newest r (s ∷ ss) =
    if comes_after (cursor_of r) s then r ∷ s ∷ ss else s ∷ insert_newest r ss

abbrev pub newest_first : List Run → List Run
newest_first [] = []
newest_first (r ∷ rs) = insert_newest r (newest_first rs)

unfoldable pub list_runs : Filters → Option (ℕ × String) → ℕ → List Run → List Run
list_runs f after limit runs = take limit (
    newest_first
      (keep_if (λ r. where_given after (λ cursor. comes_after cursor r)) (keep_if (passes f) runs)))
