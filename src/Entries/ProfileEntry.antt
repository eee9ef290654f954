-- ===== src/Entries/ProfileEntry.antt =====
-- entries/profile.go: rows of the table of `PGProfileEntry`.
use postgres_data_handler.Base.{some, List, [], ◌∷◌, map, Bytes, if◌then◌else◌, ◌≡◌, refl, sym, ap}
use postgres_data_handler.Go.{
  Exec, Result, ok, panic, type_assertion, lift, bind, wrap, map_result, first, ◌>>=◌,
}
use postgres_data_handler.Go.Laws.{bind-eq-ok, ok-injective}
use postgres_data_handler.Entries.Batch.{Spec, batch}
use postgres_data_handler.Core.Social.{LibProfileEntry}
use postgres_data_handler.Core.{Encoder, OperationType, is_delete, StateChangeEntry}
use postgres_data_handler.Schema.Social.{ProfileEntry}
use postgres_data_handler.Schema.{Table, Row, Value, badger_key, badger_key_of, public_key}
use postgres_data_handler.Env.{Codec, Env, World, insert, delete, on_upsert, exec}

module _ (C : Codec) where
  unfoldable pub profile_entry_encoder_to_pg_struct :
      LibProfileEntry → Bytes → C.Params → ProfileEntry
  profile_entry_encoder_to_pg_struct e key_bytes params = record {
    public_key = C.public_key_to_base58 e.public_key params;
    pkid = C.public_key_to_base58 (C.get_pkid_bytes_from_key key_bytes) params;
    username = C.text e.username;
    description = C.text e.description;
    profile_pic = e.profile_pic;
    creator_basis_points = e.creator_coin_entry_creator_basis_points;
    coin_watermark_nanos = e.creator_coin_entry_coin_watermark_nanos;
    minting_disabled = e.creator_coin_entry_minting_disabled;
    deso_locked_nanos = e.creator_coin_entry_deso_locked_nanos;
    cc_coins_in_circulation_nanos = C.uint64 e.creator_coin_entry_coins_in_circulation_nanos;
    dao_coins_in_circulation_nanos_hex = C.uint256_hex e.dao_coin_entry_coins_in_circulation_nanos;
    dao_coin_minting_disabled = e.dao_coin_entry_minting_disabled;
    dao_coin_transfer_restriction_status = e.dao_coin_entry_transfer_restriction_status;
    extra_data = C.extra_data_to_strings e.extra_data params;
    badger_key = key_bytes;
  }

as_profile_entry : Encoder → Result LibProfileEntry
as_profile_entry (Encoder.profile_entry e) = ok e
as_profile_entry _ = panic type_assertion

module _ (X : Env) where
  -- `&PGProfileEntry{…}` for one entry.
  unfoldable pub to_row : X.Params → StateChangeEntry → Result Row
  unfolding as_profile_entry
  to_row params entry = bind (as_profile_entry entry.encoder) λ e.
      ok (Row.profile_entry (profile_entry_encoder_to_pg_struct X.codec e entry.key_bytes params))

  unfoldable pub bulk_insert_profile_entry :
      List StateChangeEntry → OperationType → X.Params → Exec (World X) Unit
  bulk_insert_profile_entry entries operation_type params = do
    let unique_entries = X.unique_entries entries
    pg_entry_slice ← lift (map_result (to_row params) unique_entries)
    wrap "entries.bulkInsertProfileEntry: Error inserting entries" (
        exec X
          (insert Table.profile_entry pg_entry_slice (on_upsert operation_type (public_key ∷ []))))

  unfoldable pub bulk_delete_profile_entry :
      List StateChangeEntry → OperationType → Exec (World X) Unit
  bulk_delete_profile_entry entries operation_type = do
    let unique_entries = X.unique_entries entries
    let keys_to_delete = X.keys_to_delete unique_entries
    wrap "entries.bulkDeleteProfileEntry: Error deleting entries"
        (exec X (delete Table.profile_entry badger_key (map Value.bytes keys_to_delete)))

  unfoldable pub profile_batch_operation : List StateChangeEntry → X.Params → Exec (World X) Unit
  unfolding bulk_insert_profile_entry bulk_delete_profile_entry
  profile_batch_operation entries params = do
    entry ← lift (first entries)
    let operation_type = entry.operation_type
    wrap "entries.PostBatchOperation: Problem with operation type %v" (
        if is_delete operation_type
        then bulk_delete_profile_entry entries operation_type
        else bulk_insert_profile_entry entries operation_type params)

  abbrev pub spec : Spec X
  spec = record {
    table = Table.profile_entry;
    target = public_key ∷ [];
    to_row = to_row;
    insert_message = "entries.bulkInsertProfileEntry: Error inserting entries";
    delete_message = "entries.bulkDeleteProfileEntry: Error deleting entries";
    batch_message = "entries.PostBatchOperation: Problem with operation type %v";
  }

  pub batch_lem :
      (entries : List StateChangeEntry) (params : X.Params)
      → profile_batch_operation entries params ≡ batch X spec entries params
  unfolding profile_batch_operation batch
  batch_lem entries params = refl

  -- The row of an entry has the entry's key.
  pub badger_key-to_row :
      (params : X.Params) (entry : StateChangeEntry) (row : Row)
      → to_row params entry ≡ ok row
      → badger_key_of row ≡ some entry.key_bytes
  unfolding to_row profile_entry_encoder_to_pg_struct
  badger_key-to_row params entry row h =
      let (e, p, q) = bind-eq-ok (as_profile_entry entry.encoder) _ h in
      sym (ap badger_key_of (ok-injective q))
