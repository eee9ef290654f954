-- ===== src/Entries/UtxoOperation/Orphan.antt =====
-- Blocks that the initial sync stored, under a delete batch of entries/block.go: their rows have the
-- keys of their UTXO operations.
use postgres_data_handler.Base.{
  ◌≡◌, ◌≢◌, refl, sym, ◌∙◌, ap, subst, true, some, String, List, ◌∷◌, map, In, In-map, Bytes,
}
use postgres_data_handler.Go.{Exec, ok, wrap, first, ◌>>=◌}
use postgres_data_handler.Go.Ensures.{Ensures, Ensures-bind, Ensures-wrap_if}
use postgres_data_handler.Core.Chain.{LibBlock}
use postgres_data_handler.Core.{StateChangeEntry, is_delete, keys_of}
use postgres_data_handler.Schema.{Table, Row, Value, badger_key, badger_key_of}
use postgres_data_handler.Env.{Env, World, delete, exec}
use postgres_data_handler.Env.Lawful.{IsDatabase, IsConsumer}
use postgres_data_handler.Entries.Batch.Laws.{keys_to_delete_exact}
use postgres_data_handler.Entries.Cached.Coherent.{map_bytes-injective}
use postgres_data_handler.Entries.Block.{
  block_encoder_to_pg_struct, delete_by_block_hash, bulk_delete_block_entries_from_keys_to_delete,
  bulk_delete_block_entry, bulk_insert_block_entry, block_batch_operation,
}
use postgres_data_handler.Entries.UtxoOperation.Gather.Attached.{block_row}

some_injective : {a b : Bytes} → some a ≡ some b → a ≡ b
some_injective h = cc

module _ (X : Env) (D : IsDatabase X) where
  abbrev Stays : Row → World X → Unit {0} → World X → Type 0
  Stays r w _ v = D.Stored w.database Table.block r → D.Stored v.database Table.block r

  child_delete-Stays :
      (t : Table) (keys : List Bytes) (m : String) (r : Row) (w : World X)
      → Table.block ≢ t
      → Ensures (delete_by_block_hash X t keys m) w (Stays r w)
  unfolding delete_by_block_hash exec
  child_delete-Stays t keys m r w n a h s = D.delete_frame t _ _ w.database Table.block n r s

  then_Stays :
      (m n : Exec (World X) Unit) (r : Row) (w : World X)
      → Ensures m w (Stays r w)
      → ((v : World X) → Ensures n v (Stays r v))
      → Ensures (m >>= λ _. n) w (Stays r w)
  then_Stays m n r w h k =
      Ensures-bind m (λ _. n) w (Stays r w) λ _ e a f s. k (m w).1 a f (h tt e s)

  block_delete-Stays :
      (keys : List Bytes) (m : String) (r : Row) (key : Bytes) (w : World X)
      → badger_key_of r ≡ some key
      → ¬ In key keys
      → Ensures
          (wrap m (exec X (delete Table.block badger_key (map Value.bytes keys))))
          w
          (Stays r w)
  unfolding exec
  block_delete-Stays keys m r key w b away a h s =
      D.delete_keeps Table.block badger_key _ w.database r s λ v c i.
        let (k, j, q) = In-map Value.bytes v keys i in
        let same : some key ≡ some k =
          sym b ∙ map_bytes-injective (badger_key_of r) (some k) (c ∙ ap some q) in
        away (subst (λ z. In z keys) (sym (some_injective same)) j)

  purge-Stays :
      (keys : List Bytes) (r : Row) (key : Bytes) (w : World X)
      → badger_key_of r ≡ some key
      → ¬ In key keys
      → Ensures (bulk_delete_block_entries_from_keys_to_delete X keys) w (Stays r w)
  unfolding bulk_delete_block_entries_from_keys_to_delete
  purge-Stays keys r key w b away =
      let d0 =
        wrap "entries.bulkDeleteBlockEntry: Error deleting entries"
          (exec X (delete Table.block badger_key (map Value.bytes keys))) in
      let d1 =
        delete_by_block_hash X Table.transaction keys
          "entries.bulkDeleteBlockEntry: Error deleting transaction entries" in
      let d2 =
        delete_by_block_hash X Table.utxo_operation keys
          "entries.bulkDeleteBlockEntry: Error deleting utxo operation entries" in
      let d3 =
        delete_by_block_hash X Table.block_signer keys
          "entries.bulkDeleteBlockEntry: Error deleting block signers" in
      let d4 =
        delete_by_block_hash X Table.stake_reward keys
          "entries.bulkDeleteBlockEntry: Error deleting stake rewards" in
      then_Stays d0 (d1 >>= λ _. d2 >>= λ _. d3 >>= λ _. d4) r w
        (block_delete-Stays keys "entries.bulkDeleteBlockEntry: Error deleting entries" r key w b
          away)
        λ v1.
          then_Stays d1 (d2 >>= λ _. d3 >>= λ _. d4) r v1
            (child_delete-Stays Table.transaction keys _ r v1 (λ e. cc))
            λ v2.
              then_Stays d2 (d3 >>= λ _. d4) r v2
                (child_delete-Stays Table.utxo_operation keys _ r v2 (λ e. cc))
                λ v3.
                  then_Stays d3 d4 r v3
                    (child_delete-Stays Table.block_signer keys _ r v3 (λ e. cc))
                    λ v4. child_delete-Stays Table.stake_reward keys _ r v4 (λ e. cc)

module _ (X : Env) (D : IsDatabase X) (K : IsConsumer X) (params : X.Params) where
  -- A block that is stored as the initial sync stores it, from an entry of UTXO operations, is still
  -- stored after a delete batch of blocks that returns nil, if no entry of the batch has the key of
  -- the UTXO operations.
  pub synced_block_stays :
      (synced : StateChangeEntry) (block : LibBlock) (e : StateChangeEntry)
      (es : List StateChangeEntry) (w : World X)
      → D.Stored w.database Table.block (Row.block (block_row X params block synced))
      → ¬ In synced.key_bytes (keys_of (e ∷ es))
      → is_delete e.operation_type ≡ true
      → (block_batch_operation X (e ∷ es) params w).0 ≡ ok tt
      → D.Stored
          (block_batch_operation X (e ∷ es) params w).1.database
          Table.block
          (Row.block (block_row X params block synced))
  unfolding block_batch_operation first bulk_delete_block_entry block_encoder_to_pg_struct
  synced_block_stays synced block e es w s away d h =
      let r = Row.block (block_row X params block synced) in
      Ensures-wrap_if (is_delete e.operation_type) _
        (bulk_delete_block_entry X (e ∷ es) e.operation_type)
        (bulk_insert_block_entry X (e ∷ es) e.operation_type params) w (Stays X D r w)
        (λ _.
          purge-Stays X D (X.keys_to_delete (X.unique_entries (e ∷ es))) r synced.key_bytes w refl
            (λ i. away ((keys_to_delete_exact X K (e ∷ es) synced.key_bytes).1 i)))
        (λ f. cc) tt h s
