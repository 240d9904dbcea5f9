-- ===== src/Store/Actions.antt =====
-- Code that reads and writes the tables and may raise. What a committed transaction wrote stays
-- written when a later statement raises, so the tables come back beside the error too;
-- `database.write()` is `transaction`, which rolls back on an exception.
use free_weight.Base.{String, Option, none, some}
use free_weight.RunState.{StateError, Checked, return, raise}
use free_weight.Store.Rows.{Db}

-- The exceptions that the modelled code raises or handles. `suite_error` is any other SuiteError
-- with its stable code, `other_error` any other Exception.
pub data Error : Type 0 where
  state_error : StateError → Error
  run_not_found ambiguous_reference : Error
  unknown_event_type sequence_collisions integrity_error : Error
  run_cancelled keyboard_interrupt : Error
  suite_error : String → Error
  other_error : Error

pub data Outcome (A : Type 0) : Type 0 where
  ok : A → Outcome A
  err : Error → Outcome A

abbrev pub Action : Type 0 → Type 0
Action A = Db → Outcome A × Db

module _ {A : Type 0} where
  abbrev pub pure : A → Action A
  pure a db = (ok a, db)

  abbrev pub throw : Error → Action A
  throw e db = (err e, db)

  abbrev pub gets : (Db → A) → Action A
  gets f db = (ok (f db), db)

  abbrev pub lift : Checked A → Action A
  lift (return a) db = (ok a, db)
  lift (raise e) db = (err (state_error e), db)

  abbrev pub or_throw : Option A → Error → Action A
  or_throw none e = throw e
  or_throw (some a) e = pure a

  abbrev pub commit_or_undo : Db → Outcome A × Db → Outcome A × Db
  commit_or_undo before (ok a, after) = (ok a, after)
  commit_or_undo before (err e, after) = (err e, before)

  abbrev pub transaction : Action A → Action A
  transaction body db = commit_or_undo db (body db)

abbrev pub modify : (Db → Db) → Action (Unit {0})
modify f db = (ok tt, f db)

abbrev pub skip : Action (Unit {0})
skip db = (ok tt, db)

module _ {A B : Type 0} where
  abbrev pub and_then : Outcome A × Db → (A → Action B) → Outcome B × Db
  and_then (ok a, db) f = f a db
  and_then (err e, db) f = (err e, db)

  infixl 5 ◌>>=◌ ◌>>◌
  abbrev pub ◌>>=◌ : Action A → (A → Action B) → Action B
  ◌>>=◌ m f db = and_then (m db) f

  abbrev pub ◌>>◌ : Action A → Action B → Action B
  m >> n = m >>= λ _. n
