-- ===== src/Entries/Block/Purge.antt =====
-- What entries/block.go deletes with a block.
use postgres_data_handler.Base.{
  Bool-cases, All, ◌≡◌, ◌≢◌, ◌∙◌, refl, sym, ap, subst, inl, inr, true, false, Option, none, some,
  String, List, [], ◌∷◌, In, In-map, In-map_of, In-keep_of, not, map, Bytes,
}
use mathlib.Core.Option
use postgres_data_handler.Go.{Exec, ok, wrap, first, unless_empty, map_result, ◌>>=◌, ◌>>◌}
use postgres_data_handler.Go.Laws.{rewrap-eq-ok}
use postgres_data_handler.Go.Ensures.{Ensures, Ensures-bind, Ensures-wrap_if}
use postgres_data_handler.Core.{StateChangeEntry, OperationType, is_delete, keys_of}
use postgres_data_handler.Schema.{
  Table, Column, Row, Value, badger_key, block_hash, badger_key_of, block_hash_of, column,
}
use postgres_data_handler.Env.{Env, World, delete, exec}
use postgres_data_handler.Env.Lawful.{IsDatabase, IsConsumer}
use postgres_data_handler.Entries.Batch.Statements.{exec_ok}
use postgres_data_handler.Entries.Batch.Laws.{keys_to_delete_exact}
use postgres_data_handler.Entries.Cached.Coherent.{map_bytes-injective}
use postgres_data_handler.Entries.Block.{
  delete_by_block_hash, bulk_delete_block_entries_from_keys_to_delete, bulk_delete_block_entry,
  bulk_insert_block_entry, block_batch_operation, block_node_operation, delete_orphans,
  orphaned_keys, as_block_node,
}
use postgres_data_handler.Core.Chain.{LibBlockNode}

Table-discrete : Discrete Table
Table-discrete = hlevel

text_injective : (a b : Option String) → Option.map Value.text a ≡ Option.map Value.text b → a ≡ b
text_injective none none h = refl
text_injective none (some b) h = cc
text_injective (some a) none h = cc
text_injective (some a) (some b) h = cc

-- The tables of a block's rows.
abbrev pub child_tables : List Table
child_tables =
    Table.transaction ∷ Table.utxo_operation ∷ Table.block_signer ∷ Table.stake_reward ∷ []

module _ (X : Env) (D : IsDatabase X) where
  abbrev Shrinks : World X → World X → Type 0
  Shrinks w v = (u : Table) (r : Row) → D.Stored v.database u r → D.Stored w.database u r

  -- A delete that returns: no new rows, none with one of the values, and the others as before.
  abbrev Step : Table → Column → List Value → World X → Unit {0} → World X → Type 0
  Step t c values w _ v =
      Shrinks w v
      × ((r : Row) (x : Value) → D.Stored v.database t r → column c r ≡ some x → ¬ In x values)
      × ((u : Table) (r : Row)
          → D.Stored w.database u r
          → ((x : Value) → column c r ≡ some x → ¬ In x values)
          → D.Stored v.database u r)

  step :
      (m : String) (t : Table) (c : Column) (values : List Value) (w : World X)
      → Ensures (wrap m (exec X (delete t c values))) w (Step t c values w)
  unfolding exec
  step m t c values w a h =
      let q = delete t c values in
      (
        λ u r s. D.delete_only t c values w.database u r s,
        λ r x s e.
            D.delete_removes t c values w.database (exec_ok X q w (rewrap-eq-ok m (exec X q w).0 h))
              r x s e,
        λ u r s free. elim (Table-discrete u t) [
          | yes e ↦
              subst (λ z. D.Stored (X.exec_statement q w.database).1 z r) (sym e)
                (D.delete_keeps t c values w.database r (subst (λ z. D.Stored w.database z r) e s)
                  free)
          | no n ↦ D.delete_frame t c values w.database u n r s
        ],
      )

  abbrev hash_text : Bytes → String
  hash_text k = X.hex (X.get_block_hash_bytes_from_key k)

  abbrev hashes : List Bytes → List Value
  hashes keys = map (λ k. Value.text (hash_text k)) keys

  -- No row of the table is of the block of one of the keys.
  abbrev pub Without : World X → List Bytes → Table → Type 0
  Without v keys t =
      (r : Row) (k : Bytes)
      → D.Stored v.database t r
      → block_hash_of r ≡ some (hash_text k)
      → ¬ In k keys

  -- The row is of none of the blocks of the keys.
  abbrev pub Other : List Bytes → Row → Type 0
  Other keys r =
      ((k : Bytes) → In k keys → badger_key_of r ≢ some k)
      × ((k : Bytes) → In k keys → block_hash_of r ≢ some (hash_text k))

  abbrev pub Purged : List Bytes → World X → Type 0
  Purged keys v =
      ((r : Row) (k : Bytes)
        → D.Stored v.database Table.block r
        → badger_key_of r ≡ some k
        → ¬ In k keys)
      × ((t : Table) → In t child_tables → Without v keys t)

  abbrev ResultOf : List Bytes → World X → Unit {0} → World X → Type 0
  ResultOf keys w _ v =
      Purged keys v
      × ((t : Table) (r : Row) → D.Stored v.database t r → D.Stored w.database t r)
      × ((t : Table) (r : Row) → D.Stored w.database t r → Other keys r → D.Stored v.database t r)

  Without-Shrinks :
      (w v : World X) (keys : List Bytes) (t : Table)
      → Shrinks w v
      → Without w keys t
      → Without v keys t
  Without-Shrinks w v keys t less none_left r k s = none_left r k (less t r s)

  Without-of :
      (keys : List Bytes) (t : Table) (v : World X)
      → ((r : Row) (x : Value)
          → D.Stored v.database t r
          → column block_hash r ≡ some x
          → ¬ In x (hashes keys))
      → Without v keys t
  Without-of keys t v h r k s e i =
      h r (Value.text (hash_text k)) s (ap (Option.map Value.text) e)
        (In-map_of (λ (z : Bytes). Value.text (hash_text z)) k keys i)

  Other-hash :
      (keys : List Bytes) (r : Row)
      → Other keys r
      → (x : Value) → column block_hash r ≡ some x
      → ¬ In x (hashes keys)
  Other-hash keys r (_, h) x e i =
      let (k, m, q) = In-map (λ (z : Bytes). Value.text (hash_text z)) x keys i in
      h k m (text_injective (block_hash_of r) (some (hash_text k)) (e ∙ ap (λ z. some z) q))

  Other-key :
      (keys : List Bytes) (r : Row)
      → Other keys r
      → (x : Value) → column badger_key r ≡ some x
      → ¬ In x (map Value.bytes keys)
  Other-key keys r (h, _) x e i =
      let (k, m, q) = In-map Value.bytes x keys i in
      h k m (map_bytes-injective (badger_key_of r) (some k) (e ∙ ap (λ z. some z) q))

  -- What a delete by block hash, and the ones after it, leave.
  abbrev Cleared : List Bytes → List Table → World X → Unit {0} → World X → Type 0
  Cleared keys tables w _ v =
      ((t : Table) → In t tables → Without v keys t)
      × Shrinks w v
      × ((t : Table) (r : Row) → D.Stored w.database t r → Other keys r → D.Stored v.database t r)

  clear_step :
      (m : String) (t : Table) (keys : List Bytes) (w : World X)
      → Ensures (delete_by_block_hash X t keys m) w (Cleared keys (t ∷ []) w)
  unfolding delete_by_block_hash
  clear_step m t keys w a h =
      let (less, gone, kept) = step m t block_hash (hashes keys) w a h in
      (
        λ u i. elim i [
          | inl e ↦
              subst (Without (delete_by_block_hash X t keys m w).1 keys) (sym e)
                (Without-of keys t (delete_by_block_hash X t keys m w).1 gone)
          | inr n ↦ absurd n
        ],
        less,
        λ u r s o. kept u r s (Other-hash keys r o),
      )

  clear_then :
      (m : String) (t : Table) (ts : List Table) (keys : List Bytes) (rest : Exec (World X) Unit)
      (w : World X)
      → ((v : World X) → Ensures rest v (Cleared keys ts v))
      → Ensures (delete_by_block_hash X t keys m >> rest) w (Cleared keys (t ∷ ts) w)
  clear_then m t ts keys rest w h =
      Ensures-bind (delete_by_block_hash X t keys m) (λ _. rest) w (Cleared keys (t ∷ ts) w)
        λ _ e a f.
          let v = (delete_by_block_hash X t keys m w).1 in
          let (gone, less, kept) = clear_step m t keys w tt e in
          let (gone2, less2, kept2) = h v a f in
          (
            λ u i. elim i [
              | inl p ↦ Without-Shrinks v (rest v).1 keys u less2 (gone u (inl p))
              | inr n ↦ gone2 u n
            ],
            λ u r s. less u r (less2 u r s),
            λ u r s o. kept2 u r (kept u r s o) o,
          )

  purge :
      (keys : List Bytes) (w : World X)
      → Ensures (bulk_delete_block_entries_from_keys_to_delete X keys) w (ResultOf keys w)
  unfolding bulk_delete_block_entries_from_keys_to_delete
  purge keys w =
      let blocks =
        wrap "entries.bulkDeleteBlockEntry: Error deleting entries"
          (exec X (delete Table.block badger_key (map Value.bytes keys))) in
      let d1 =
        delete_by_block_hash X Table.transaction keys
          "entries.bulkDeleteBlockEntry: Error deleting transaction entries" in
      let d2 =
        delete_by_block_hash X Table.utxo_operation keys
          "entries.bulkDeleteBlockEntry: Error deleting utxo operation entries" in
      let d3 =
        delete_by_block_hash X Table.block_signer keys
          "entries.bulkDeleteBlockEntry: Error deleting block signers" in
      let d4 =
        delete_by_block_hash X Table.stake_reward keys
          "entries.bulkDeleteBlockEntry: Error deleting stake rewards" in
      Ensures-bind blocks (λ _. d1 >>= λ _. d2 >>= λ _. d3 >>= λ _. d4) w (ResultOf keys w)
        λ _ e a f.
          let v = (blocks w).1 in
          let (less, gone, kept) =
            step "entries.bulkDeleteBlockEntry: Error deleting entries" Table.block badger_key
              (map Value.bytes keys) w tt e in
          let (gone2, less2, kept2) =
            clear_then "entries.bulkDeleteBlockEntry: Error deleting transaction entries"
              Table.transaction
              (Table.utxo_operation ∷ Table.block_signer ∷ Table.stake_reward ∷ []) keys
              (d2 >>= λ _. d3 >>= λ _. d4) v
              (λ v1.
                clear_then "entries.bulkDeleteBlockEntry: Error deleting utxo operation entries"
                  Table.utxo_operation (Table.block_signer ∷ Table.stake_reward ∷ []) keys
                  (d3 >>= λ _. d4) v1
                  (λ v2.
                    clear_then "entries.bulkDeleteBlockEntry: Error deleting block signers"
                      Table.block_signer (Table.stake_reward ∷ []) keys d4 v2
                      (λ v3.
                        clear_step "entries.bulkDeleteBlockEntry: Error deleting stake rewards"
                          Table.stake_reward keys v3)))
              a f in
          (
            (
              λ r k s b i.
                  gone r (Value.bytes k) (less2 Table.block r s) (ap (Option.map Value.bytes) b)
                    (In-map_of Value.bytes k keys i),
              gone2,
            ),
            λ t r s. less t r (less2 t r s),
            λ t r s o. kept2 t r (kept t r s (Other-key keys r o)) o,
          )

module _ (X : Env) (D : IsDatabase X) (K : IsConsumer X) (params : X.Params) where
  abbrev AllOf : List StateChangeEntry → World X → Unit {0} → World X → Type 0
  AllOf es w _ v =
      Purged X D (keys_of es) v
      × ((t : Table) (r : Row) → D.Stored v.database t r → D.Stored w.database t r)
      × ((t : Table) (r : Row)
          → D.Stored w.database t r
          → Other X D (keys_of es) r
          → D.Stored v.database t r)

  delete_all :
      (es : List StateChangeEntry) (o : OperationType) (w : World X)
      → Ensures (bulk_delete_block_entry X es o) w (AllOf es w)
  unfolding bulk_delete_block_entry
  delete_all es o w a h =
      let ks = X.keys_to_delete (X.unique_entries es) in
      let same = λ (k : Bytes). keys_to_delete_exact X K es k in
      let ((p, q), less, kept) = purge X D ks w a h in
      (
        (λ r k s b i. p r k s b ((same k).0 i), λ t m r k s b i. q t m r k s b ((same k).0 i)),
        less,
        λ t r s (f, g). kept t r s (λ k i. f k ((same k).1 i), λ k i. g k ((same k).1 i)),
      )

  -- After a delete batch of blocks that returns nil: no row of the table of blocks has the badger key
  -- of an entry of the batch, and no transaction, UTXO operation, signer or stake reward has the
  -- block hash that such a key holds. No table has a row that it did not have, and every row that has
  -- neither such a key nor such a hash is still there.
  pub block_delete_purges :
      (e : StateChangeEntry) (es : List StateChangeEntry) (w : World X)
      → is_delete e.operation_type ≡ true
      → (block_batch_operation X (e ∷ es) params w).0 ≡ ok tt
      → Purged X D (keys_of (e ∷ es)) (block_batch_operation X (e ∷ es) params w).1
        × ((t : Table) (r : Row)
            → D.Stored (block_batch_operation X (e ∷ es) params w).1.database t r
            → D.Stored w.database t r)
        × ((t : Table) (r : Row)
            → D.Stored w.database t r
            → Other X D (keys_of (e ∷ es)) r
            → D.Stored (block_batch_operation X (e ∷ es) params w).1.database t r)
  unfolding block_batch_operation first
  block_delete_purges e es w t h =
      Ensures-wrap_if (is_delete e.operation_type) _
        (bulk_delete_block_entry X (e ∷ es) e.operation_type)
        (bulk_insert_block_entry X (e ∷ es) e.operation_type params) w (AllOf (e ∷ es) w)
        (λ _. delete_all (e ∷ es) e.operation_type w) (λ f. cc) tt h

  orphans-Purged :
      (keys : List Bytes) (w : World X)
      → Ensures
          (unless_empty keys (bulk_delete_block_entries_from_keys_to_delete X keys))
          w
          λ _ v. Purged X D keys v
  orphans-Purged [] w a h = (λ r k s b m. m, λ t i r k s b m. m)
  orphans-Purged (x ∷ keys) w a h = (purge X D (x ∷ keys) w a h).0

  orphaned-In :
      (n : LibBlockNode) (nodes : List LibBlockNode)
      → In n nodes
      → n.is_committed ≡ false
      → In (X.block_hash_to_block_key n.hash) (orphaned_keys X nodes)
  unfolding orphaned_keys
  orphaned-In n nodes i c =
      In-map_of (λ (z : LibBlockNode). X.block_hash_to_block_key z.hash) n _
        (In-keep_of (λ (z : LibBlockNode). not z.is_committed) n nodes i (ap not c))

  committed-none :
      (nodes : List LibBlockNode)
      → All (λ n. n.is_committed ≡ true) nodes
      → orphaned_keys X nodes ≡ []
  unfolding orphaned_keys
  committed-none [] a = refl
  committed-none (n ∷ nodes) (c, a) = rw c (committed-none nodes a)

  -- A batch of block nodes that is not a delete batch and whose nodes are all committed returns nil
  -- and changes nothing, neither a table nor the cache.
  pub block_nodes_kept :
      (e : StateChangeEntry) (es : List StateChangeEntry) (w : World X) (nodes : List LibBlockNode)
      → map_result (λ x. as_block_node x.encoder) (X.unique_entries (e ∷ es)) ≡ ok nodes
      → is_delete e.operation_type ≡ false
      → All (λ n. n.is_committed ≡ true) nodes
      → block_node_operation X (e ∷ es) params w ≡ (ok tt, w)
  unfolding block_node_operation first delete_orphans
  block_nodes_kept e es w nodes m d a = rw (d, m, committed-none nodes a) refl

  -- After a batch of block nodes that returns nil, and for each of its nodes that is not committed:
  -- no block has the badger key that the consumer makes of the node's hash, and no transaction, UTXO
  -- operation, signer or stake reward has the node's block hash. The consumer reads back the hash of
  -- a block from its key.
  pub orphans_purged :
      (e : StateChangeEntry) (es : List StateChangeEntry) (w : World X) (nodes : List LibBlockNode)
      → ((h : Bytes) → X.get_block_hash_bytes_from_key (X.block_hash_to_block_key h) ≡ h)
      → map_result (λ x. as_block_node x.encoder) (X.unique_entries (e ∷ es)) ≡ ok nodes
      → (block_node_operation X (e ∷ es) params w).0 ≡ ok tt
      → (n : LibBlockNode) → In n nodes
      → n.is_committed ≡ false
      → ((r : Row)
          → ¬ (
              D.Stored (block_node_operation X (e ∷ es) params w).1.database Table.block r
              × (badger_key_of r ≡ some (X.block_hash_to_block_key n.hash))))
        × ((t : Table)
            → In t child_tables
            → (r : Row)
            → ¬ (
                D.Stored (block_node_operation X (e ∷ es) params w).1.database t r
                × (block_hash_of r ≡ some (X.hex n.hash))))
  unfolding block_node_operation first delete_orphans
  orphans_purged e es w nodes back m h n i c = elim (Bool-cases (is_delete e.operation_type)) [
    | inl d ↦ cc (rw d at h)
    | inr d ↦
        let (blocks, children) = orphans-Purged (orphaned_keys X nodes) w tt (rw (d, m) at h) in
        let k = X.block_hash_to_block_key n.hash in
        (
          λ r (s, b). blocks r k (rw (d, m) at s) b (orphaned-In n nodes i c),
          λ t j r (s, b).
              children t j r k (rw (d, m) at s) (b ∙ ap (λ z. some (X.hex z)) (sym (back n.hash)))
                (orphaned-In n nodes i c),
        )
  ]
