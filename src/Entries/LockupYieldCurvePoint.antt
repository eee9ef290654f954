-- ===== src/Entries/LockupYieldCurvePoint.antt =====
-- entries/yield_curve_point.go: rows of the table of `PGLockupYieldCurvePoint`.
use postgres_data_handler.Base.{some, List, [], ◌∷◌, map, Bytes, if◌then◌else◌, ◌≡◌, refl, sym, ap}
use postgres_data_handler.Go.{
  Exec, Result, ok, panic, type_assertion, lift, bind, wrap, map_result, first, ◌>>=◌,
}
use postgres_data_handler.Go.Laws.{bind-eq-ok, ok-injective}
use postgres_data_handler.Entries.Batch.{Spec, batch}
use postgres_data_handler.Core.Staking.{LibLockupYieldCurvePoint}
use postgres_data_handler.Core.{Encoder, OperationType, is_delete, StateChangeEntry}
use postgres_data_handler.Schema.Staking.{LockupYieldCurvePoint}
use postgres_data_handler.Schema.{Table, Row, Value, badger_key, badger_key_of}
use postgres_data_handler.Env.{Codec, Env, World, insert, delete, on_upsert, exec, if_set}

module _ (C : Codec) where
  unfoldable pub lockup_yield_curve_point_encoder_to_pg_struct :
      LibLockupYieldCurvePoint → Bytes → C.Params → LockupYieldCurvePoint
  lockup_yield_curve_point_encoder_to_pg_struct e key_bytes params = record {
    profile_pkid = if_set e.profile_pkid (λ v. C.public_key_to_base58 v params) "";
    lockup_duration_nano_secs = e.lockup_duration_nano_secs;
    lockup_yield_apy_basis_points = e.lockup_yield_apy_basis_points;
    badger_key = key_bytes;
  }

as_lockup_yield_curve_point : Encoder → Result LibLockupYieldCurvePoint
as_lockup_yield_curve_point (Encoder.lockup_yield_curve_point e) = ok e
as_lockup_yield_curve_point _ = panic type_assertion

module _ (X : Env) where
  -- `&PGLockupYieldCurvePoint{…}` for one entry.
  unfoldable pub to_row : X.Params → StateChangeEntry → Result Row
  unfolding as_lockup_yield_curve_point
  to_row params entry = bind (as_lockup_yield_curve_point entry.encoder) λ e. ok (
      Row.lockup_yield_curve_point
        (lockup_yield_curve_point_encoder_to_pg_struct X.codec e entry.key_bytes params))

  unfoldable pub bulk_insert_lockup_yield_curve_point :
      List StateChangeEntry → OperationType → X.Params → Exec (World X) Unit
  bulk_insert_lockup_yield_curve_point entries operation_type params = do
    let unique_entries = X.unique_entries entries
    pg_entry_slice ← lift (map_result (to_row params) unique_entries)
    wrap "entries.bulkInsertLockupYieldCurvePoint: Error inserting entries" (
        exec X (
          insert Table.lockup_yield_curve_point pg_entry_slice
            (on_upsert operation_type (badger_key ∷ []))))

  unfoldable pub bulk_delete_lockup_yield_curve_point :
      List StateChangeEntry → OperationType → Exec (World X) Unit
  bulk_delete_lockup_yield_curve_point entries operation_type = do
    let unique_entries = X.unique_entries entries
    let keys_to_delete = X.keys_to_delete unique_entries
    wrap "entries.bulkDeleteLockupYieldCurvePoint: Error deleting entries"
        (exec X (delete Table.lockup_yield_curve_point badger_key (map Value.bytes keys_to_delete)))

  unfoldable pub lockup_yield_curve_point_batch_operation :
      List StateChangeEntry → X.Params → Exec (World X) Unit
  unfolding bulk_insert_lockup_yield_curve_point bulk_delete_lockup_yield_curve_point
  lockup_yield_curve_point_batch_operation entries params = do
    entry ← lift (first entries)
    let operation_type = entry.operation_type
    wrap "entries.LockupYieldCurvePointBatchOperation: Problem with operation type %v" (
        if is_delete operation_type
        then bulk_delete_lockup_yield_curve_point entries operation_type
        else bulk_insert_lockup_yield_curve_point entries operation_type params)

  abbrev pub spec : Spec X
  spec = record {
    table = Table.lockup_yield_curve_point;
    target = badger_key ∷ [];
    to_row = to_row;
    insert_message = "entries.bulkInsertLockupYieldCurvePoint: Error inserting entries";
    delete_message = "entries.bulkDeleteLockupYieldCurvePoint: Error deleting entries";
    batch_message = "entries.LockupYieldCurvePointBatchOperation: Problem with operation type %v";
  }

  pub batch_lem :
      (entries : List StateChangeEntry) (params : X.Params)
      → lockup_yield_curve_point_batch_operation entries params ≡ batch X spec entries params
  unfolding lockup_yield_curve_point_batch_operation batch
  batch_lem entries params = refl

  -- The row of an entry has the entry's key.
  pub badger_key-to_row :
      (params : X.Params) (entry : StateChangeEntry) (row : Row)
      → to_row params entry ≡ ok row
      → badger_key_of row ≡ some entry.key_bytes
  unfolding to_row lockup_yield_curve_point_encoder_to_pg_struct
  badger_key-to_row params entry row h =
      let (e, p, q) = bind-eq-ok (as_lockup_yield_curve_point entry.encoder) _ h in
      sym (ap badger_key_of (ok-injective q))
