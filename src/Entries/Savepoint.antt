-- ===== src/Entries/Savepoint.antt =====
-- entries/helpers.go: the handle of the database, and savepoints. A transaction that is not open is
-- a nil pointer.
use text.Mathlib.Text as Text
use postgres_data_handler.Base.{Bool, true, false, String, ◌<>◌, Option, none, some, if◌then◌else◌}
use postgres_data_handler.Go.{Error, Exec, ok, pure, wrap, return_error, ◌>>=◌, ◌>>◌}

-- `GetDbHandle`, over the interface `bun.IDB` that both handles have.
abbrev pub get_db_handle : {Idb : Type 0} → Option Idb → Idb → Idb
get_db_handle none db = db
get_db_handle (some tx) db = tx

-- A session of the database: what its statements and `uuid.New` do to it.
pub record Session : Type 1 where
  pub State : Type 0
  pub exec_raw : String → State → Option Error × State
  pub new_uuid : State → String × State

module _ (S : Session) where
  abbrev tx_exec : String → Exec S.State Unit
  tx_exec statement s = let (e, s') = S.exec_raw statement s in (return_error e, s')

  abbrev uuid_string : Exec S.State String
  uuid_string s = let (u, s') = S.new_uuid s in (ok u, s')

  -- `tx` is true where it is not nil.
  unfoldable pub create_savepoint : Bool → Exec S.State String
  create_savepoint false = pure ""
  create_savepoint true = do
    savepoint_name ← uuid_string
    wrap "PostgresDataHandler.CreateSavepoint: Error creating savepoint"
        (tx_exec ("SAVEPOINT " <> savepoint_name))
    pure savepoint_name

  unfoldable pub rollback_to_savepoint : Bool → String → Exec S.State Unit
  rollback_to_savepoint false savepoint_name = pure tt
  rollback_to_savepoint true savepoint_name =
      if Text.◌==◌ savepoint_name ""
      then pure tt
      else wrap "PostgresDataHandler.RollbackToSavepoint: Error reverting to savepoint"
          (tx_exec ("ROLLBACK TO SAVEPOINT " <> savepoint_name))
