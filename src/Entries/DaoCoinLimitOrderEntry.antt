-- ===== src/Entries/DaoCoinLimitOrderEntry.antt =====
-- entries/dao_coin_limit_order.go: rows of the table of `PGDaoCoinLimitOrderEntry`.
use postgres_data_handler.Base.{
  true, some, List, [], ◌∷◌, map, Bytes, ◌%◌, if◌then◌else◌, ◌≡◌, refl, sym, ap,
}
use postgres_data_handler.Go.{
  Exec, Result, ok, panic, type_assertion, lift, bind, wrap, map_result, first, ◌>>=◌,
}
use postgres_data_handler.Go.Laws.{bind-eq-ok, ok-injective}
use postgres_data_handler.Entries.Batch.{Spec, batch}
use postgres_data_handler.Core.Coins.{LibDaoCoinLimitOrderEntry}
use postgres_data_handler.Core.{Encoder, OperationType, is_delete, StateChangeEntry}
use postgres_data_handler.Schema.Coins.{DaoCoinLimitOrderEntry}
use postgres_data_handler.Schema.{Table, Row, Value, badger_key, badger_key_of}
use postgres_data_handler.Env.{Codec, Env, World, insert, delete, on_upsert, exec}

module _ (C : Codec) where
  unfoldable pub dao_coin_limit_order_encoder_to_pg_struct :
      LibDaoCoinLimitOrderEntry → Bytes → C.Params → DaoCoinLimitOrderEntry
  dao_coin_limit_order_encoder_to_pg_struct e key_bytes params = record {
    order_id = C.hex e.order_id;
    transactor_pkid = C.public_key_to_base58 e.transactor_pkid params;
    buying_dao_coin_creator_pkid = C.public_key_to_base58 e.buying_dao_coin_creator_pkid params;
    selling_dao_coin_creator_pkid = C.public_key_to_base58 e.selling_dao_coin_creator_pkid params;
    scaled_exchange_rate_coins_to_sell_per_coin_to_buy_hex =
        C.uint256_hex e.scaled_exchange_rate_coins_to_sell_per_coin_to_buy;
    quantity_to_fill_in_base_units_hex = C.uint256_hex e.quantity_to_fill_in_base_units;
    operation_type = e.operation_type % 256;
    fill_type = e.fill_type % 256;
    block_height = e.block_height;
    is_dao_coin_const = true;
    badger_key = key_bytes;
  }

as_dao_coin_limit_order_entry : Encoder → Result LibDaoCoinLimitOrderEntry
as_dao_coin_limit_order_entry (Encoder.dao_coin_limit_order_entry e) = ok e
as_dao_coin_limit_order_entry _ = panic type_assertion

module _ (X : Env) where
  -- `&PGDaoCoinLimitOrderEntry{…}` for one entry.
  unfoldable pub to_row : X.Params → StateChangeEntry → Result Row
  unfolding as_dao_coin_limit_order_entry
  to_row params entry = bind (as_dao_coin_limit_order_entry entry.encoder) λ e. ok (
      Row.dao_coin_limit_order_entry
        (dao_coin_limit_order_encoder_to_pg_struct X.codec e entry.key_bytes params))

  unfoldable pub bulk_insert_dao_coin_limit_order_entry :
      List StateChangeEntry → OperationType → X.Params → Exec (World X) Unit
  bulk_insert_dao_coin_limit_order_entry entries operation_type params = do
    let unique_entries = X.unique_entries entries
    pg_entry_slice ← lift (map_result (to_row params) unique_entries)
    wrap "entries.bulkInsertDaoCoinLimitOrderEntry: Error inserting entries" (
        exec X (
          insert Table.dao_coin_limit_order_entry pg_entry_slice
            (on_upsert operation_type (badger_key ∷ []))))

  unfoldable pub bulk_delete_dao_coin_limit_order_entry :
      List StateChangeEntry → OperationType → Exec (World X) Unit
  bulk_delete_dao_coin_limit_order_entry entries operation_type = do
    let unique_entries = X.unique_entries entries
    let keys_to_delete = X.keys_to_delete unique_entries
    wrap "entries.bulkDeleteDaoCoinLimitOrderEntry: Error deleting entries" (
        exec X
          (delete Table.dao_coin_limit_order_entry badger_key (map Value.bytes keys_to_delete)))

  unfoldable pub dao_coin_limit_order_batch_operation :
      List StateChangeEntry → X.Params → Exec (World X) Unit
  unfolding bulk_insert_dao_coin_limit_order_entry bulk_delete_dao_coin_limit_order_entry
  dao_coin_limit_order_batch_operation entries params = do
    entry ← lift (first entries)
    let operation_type = entry.operation_type
    wrap "entries.DaoCoinLimitOrderBatchOperation: Problem with operation type %v" (
        if is_delete operation_type
        then bulk_delete_dao_coin_limit_order_entry entries operation_type
        else bulk_insert_dao_coin_limit_order_entry entries operation_type params)

  abbrev pub spec : Spec X
  spec = record {
    table = Table.dao_coin_limit_order_entry;
    target = badger_key ∷ [];
    to_row = to_row;
    insert_message = "entries.bulkInsertDaoCoinLimitOrderEntry: Error inserting entries";
    delete_message = "entries.bulkDeleteDaoCoinLimitOrderEntry: Error deleting entries";
    batch_message = "entries.DaoCoinLimitOrderBatchOperation: Problem with operation type %v";
  }

  pub batch_lem :
      (entries : List StateChangeEntry) (params : X.Params)
      → dao_coin_limit_order_batch_operation entries params ≡ batch X spec entries params
  unfolding dao_coin_limit_order_batch_operation batch
  batch_lem entries params = refl

  -- The row of an entry has the entry's key.
  pub badger_key-to_row :
      (params : X.Params) (entry : StateChangeEntry) (row : Row)
      → to_row params entry ≡ ok row
      → badger_key_of row ≡ some entry.key_bytes
  unfolding to_row dao_coin_limit_order_encoder_to_pg_struct
  badger_key-to_row params entry row h =
      let (e, p, q) = bind-eq-ok (as_dao_coin_limit_order_entry entry.encoder) _ h in
      sym (ap badger_key_of (ok-injective q))
