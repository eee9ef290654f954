-- ===== src/Entries/Batch.antt =====
-- The shape that the files of entries/ share: one delete, or one insert of the converted entries.
-- `Spec` has what differs from file to file; `batch` is what the laws are proved of.
pub mod Statements
pub mod Laws
use postgres_data_handler.Base.{String, List, Bool, true, false, map, if◌then◌else◌}
use postgres_data_handler.Go.{Exec, Result, lift, wrap, map_result, first, ◌>>=◌}
use postgres_data_handler.Core.{OperationType, is_delete, StateChangeEntry}
use postgres_data_handler.Schema.{Table, Column, Row, Value, badger_key}
use postgres_data_handler.Env.{Env, World, insert, delete, on_upsert, exec}

pub record Spec (X : Env) : Type 0 where
  pub table : Table
  pub target : List Column
  pub to_row : X.Params → StateChangeEntry → Result Row
  pub insert_message : String
  pub delete_message : String
  pub batch_message : String

module _ (X : Env) (S : Spec X) where
  pub insert_batch : List StateChangeEntry → OperationType → X.Params → Exec (World X) Unit
  insert_batch entries operation_type params = do
    rows ← lift (map_result (S.to_row params) (X.unique_entries entries))
    wrap S.insert_message (exec X (insert S.table rows (on_upsert operation_type S.target)))

  pub delete_batch : List StateChangeEntry → Exec (World X) Unit
  delete_batch entries = wrap S.delete_message (
      exec X
        (delete S.table badger_key (map Value.bytes (X.keys_to_delete (X.unique_entries entries)))))

  unfoldable pub batch : List StateChangeEntry → X.Params → Exec (World X) Unit
  unfolding insert_batch delete_batch
  batch entries params = do
    entry ← lift (first entries)
    wrap S.batch_message (
        if is_delete entry.operation_type
        then delete_batch entries
        else insert_batch entries entry.operation_type params)
