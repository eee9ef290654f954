-- ===== src/Entries/StakeEntry.antt =====
-- entries/stake.go: rows of the table of `PGStakeEntry`.
use postgres_data_handler.Base.{some, List, [], ◌∷◌, map, Bytes, if◌then◌else◌, ◌≡◌, refl, sym, ap}
use postgres_data_handler.Go.{
  Exec, Result, ok, panic, type_assertion, lift, bind, wrap, map_result, first, ◌>>=◌,
}
use postgres_data_handler.Go.Laws.{bind-eq-ok, ok-injective}
use postgres_data_handler.Entries.Batch.{Spec, batch}
use postgres_data_handler.Core.Staking.{LibStakeEntry}
use postgres_data_handler.Core.{Encoder, OperationType, is_delete, StateChangeEntry}
use postgres_data_handler.Schema.Staking.{StakeEntry}
use postgres_data_handler.Schema.{Table, Row, Value, badger_key, badger_key_of}
use postgres_data_handler.Env.{Codec, Env, World, insert, delete, on_upsert, exec, if_set}

module _ (C : Codec) where
  unfoldable pub stake_encoder_to_pg_struct : LibStakeEntry → Bytes → C.Params → StakeEntry
  stake_encoder_to_pg_struct e key_bytes params = record {
    staker_pkid = if_set e.staker_pkid (λ v. C.public_key_to_base58 v params) "";
    validator_pkid = if_set e.validator_pkid (λ v. C.public_key_to_base58 v params) "";
    reward_method = C.from_lib_stake_reward_method e.reward_method;
    stake_amount_nanos = C.big_int e.stake_amount_nanos;
    extra_data = C.extra_data_to_strings e.extra_data params;
    badger_key = key_bytes;
  }

as_stake_entry : Encoder → Result LibStakeEntry
as_stake_entry (Encoder.stake_entry e) = ok e
as_stake_entry _ = panic type_assertion

module _ (X : Env) where
  -- `&PGStakeEntry{…}` for one entry.
  unfoldable pub to_row : X.Params → StateChangeEntry → Result Row
  unfolding as_stake_entry
  to_row params entry =
      bind (as_stake_entry entry.encoder)
        λ e. ok (Row.stake_entry (stake_encoder_to_pg_struct X.codec e entry.key_bytes params))

  unfoldable pub bulk_insert_stake_entry :
      List StateChangeEntry → OperationType → X.Params → Exec (World X) Unit
  bulk_insert_stake_entry entries operation_type params = do
    let unique_entries = X.unique_entries entries
    pg_entry_slice ← lift (map_result (to_row params) unique_entries)
    wrap "entries.bulkInsertStakeEntry: Error inserting entries" (
        exec X
          (insert Table.stake_entry pg_entry_slice (on_upsert operation_type (badger_key ∷ []))))

  unfoldable pub bulk_delete_stake_entry :
      List StateChangeEntry → OperationType → Exec (World X) Unit
  bulk_delete_stake_entry entries operation_type = do
    let unique_entries = X.unique_entries entries
    let keys_to_delete = X.keys_to_delete unique_entries
    wrap "entries.bulkDeleteStakeEntry: Error deleting entries"
        (exec X (delete Table.stake_entry badger_key (map Value.bytes keys_to_delete)))

  unfoldable pub stake_batch_operation : List StateChangeEntry → X.Params → Exec (World X) Unit
  unfolding bulk_insert_stake_entry bulk_delete_stake_entry
  stake_batch_operation entries params = do
    entry ← lift (first entries)
    let operation_type = entry.operation_type
    wrap "entries.StakeBatchOperation: Problem with operation type %v" (
        if is_delete operation_type
        then bulk_delete_stake_entry entries operation_type
        else bulk_insert_stake_entry entries operation_type params)

  abbrev pub spec : Spec X
  spec = record {
    table = Table.stake_entry;
    target = badger_key ∷ [];
    to_row = to_row;
    insert_message = "entries.bulkInsertStakeEntry: Error inserting entries";
    delete_message = "entries.bulkDeleteStakeEntry: Error deleting entries";
    batch_message = "entries.StakeBatchOperation: Problem with operation type %v";
  }

  pub batch_lem :
      (entries : List StateChangeEntry) (params : X.Params)
      → stake_batch_operation entries params ≡ batch X spec entries params
  unfolding stake_batch_operation batch
  batch_lem entries params = refl

  -- The row of an entry has the entry's key.
  pub badger_key-to_row :
      (params : X.Params) (entry : StateChangeEntry) (row : Row)
      → to_row params entry ≡ ok row
      → badger_key_of row ≡ some entry.key_bytes
  unfolding to_row stake_encoder_to_pg_struct
  badger_key-to_row params entry row h =
      let (e, p, q) = bind-eq-ok (as_stake_entry entry.encoder) _ h in
      sym (ap badger_key_of (ok-injective q))
