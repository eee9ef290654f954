-- ===== src/Entries/UtxoOperation/Sync.antt =====
-- The initial sync of a block: from an entry of UTXO operations that brings its block to the tables.
use postgres_data_handler.Base.{
  ℕ, ◌≡◌, inl, inr, refl, sym, ◌∙◌, ap, subst, Bool, true, false, ◌||◌, none, some, String, List,
  [], ◌∷◌, map, get_elem?, In, In-append_left, In-append_right, In-map_of, All-In, Bytes,
}
use postgres_data_handler.Go.{ok, lift, pure, ◌>>=◌}
use postgres_data_handler.Go.Laws.{ok-injective, bind-eq-ok}
use postgres_data_handler.Go.Ensures.{Ensures, Ensures-bind}
use postgres_data_handler.Core.{Encoder, StateChangeEntry, OperationType}
use postgres_data_handler.Core.Chain.{LibTxn, LibBlock, UtxoOperation}
use postgres_data_handler.Core.Txindex.{
  LibTransactionMetadata, BasicTransferTxindexMetadata, basic_transfer_txindex,
}
use postgres_data_handler.Schema.Chain.{TransactionEntry}
use postgres_data_handler.Schema.{Table, Row}
use postgres_data_handler.Env.{Env, World}
use postgres_data_handler.Env.Lawful.{IsDatabase}
use postgres_data_handler.Entries.Block.Placement.{At}
use postgres_data_handler.Entries.UtxoOperation.{bulk_insert_utxo_operations_entry, write_collected}
use postgres_data_handler.Entries.UtxoOperation.Gather.{
  convert_utxo_operation_key_to_block_hash_hex, as_bundle, Collected, append_collected,
  gather_block_from, parse_gathered, collect_block, collect_bundle, collect_one, collect_each,
}
use postgres_data_handler.Entries.UtxoOperation.Gather.Attached.{
  block_row, attached_transactions, HasEvent,
}
use postgres_data_handler.Entries.UtxoOperation.Written.{collected_written}

module _ (X : Env) (params : X.Params) where
  -- What one entry with its block is collected to is part of the whole.
  abbrev Includes :
      LibBlock → List (List UtxoOperation) → StateChangeEntry → Collected → World X → Type 0
  Includes block bundle e c v =
      (hash : String) × (part : Collected) × (collect_block X params e block bundle hash ≡ ok part)
      × ((r : TransactionEntry)
          → In r part.parsed.transaction_updates
          → In r c.parsed.transaction_updates)
      × (c.insert_transactions ≡ true)
      × In (block_row X params block e) c.blocks

  block_collected :
      (e : StateChangeEntry) (block : LibBlock) (bundle : List (List UtxoOperation)) (hash : String)
      (c : Collected)
      → collect_block X params e block bundle hash ≡ ok c
      → (c.insert_transactions ≡ true) × In (block_row X params block e) c.blocks
  unfolding collect_block
  block_collected e block bundle hash c h =
      let b = block_row X params block e in
      let (g, p, k) = bind-eq-ok (gather_block_from X.codec params 0 block.txns bundle b) _ h in
      let (all, q, j) = bind-eq-ok (parse_gathered X params bundle hash g) _ k in
      let f = ok-injective j in
      (ap (λ z. z.insert_transactions) (sym f), subst (λ z. In b z.blocks) f (inl refl))

  one-Includes :
      (block : LibBlock) (bundle : List (List UtxoOperation)) (e : StateChangeEntry) (w : World X)
      → e.block ≡ some block
      → e.encoder ≡ Encoder.utxo_operation_bundle bundle
      → Ensures (collect_one X params e) w (Includes block bundle e)
  unfolding collect_one as_bundle
  one-Includes block bundle e w b n =
      Ensures-bind (lift (convert_utxo_operation_key_to_block_hash_hex X.codec e.key_bytes))
        (λ hash. lift (as_bundle e.encoder) >>= λ u. collect_bundle X params e u hash e.block) w
        (Includes block bundle e)
        λ hash _.
          Ensures-bind (lift (as_bundle e.encoder)) (λ u. collect_bundle X params e u hash e.block)
            w (Includes block bundle e)
            λ u k c h.
              let same : u ≡ bundle = sym (ok-injective (ap as_bundle (sym n) ∙ k)) in
              let collected : collect_block X params e block bundle hash ≡ ok c =
                subst (λ z. collect_block X params e block z hash ≡ ok c) same
                  (subst (λ z. (collect_bundle X params e u hash z w).0 ≡ ok c) b h) in
              let (t, i) = block_collected e block bundle hash c collected in
              (hash, c, collected, λ r m. m, t, i)

  or_left : (a b : Bool) → a ≡ true → a || b ≡ true
  or_left true b h = refl
  or_left false b h = cc

  or_right : (a b : Bool) → b ≡ true → a || b ≡ true
  or_right true b h = refl
  or_right false b h = h

  each-Includes :
      (block : LibBlock) (bundle : List (List UtxoOperation)) (e : StateChangeEntry)
      (entries : List StateChangeEntry) (w : World X)
      → e.block ≡ some block
      → e.encoder ≡ Encoder.utxo_operation_bundle bundle
      → In e entries
      → Ensures (collect_each X params entries) w (Includes block bundle e)
  unfolding collect_each
  each-Includes block bundle e [] w b n i = absurd i
  each-Includes block bundle e (x ∷ entries) w b n i =
      let Q = Includes block bundle e in
      Ensures-bind (collect_one X params x)
        (λ c. collect_each X params entries >>= λ more. pure (append_collected c more)) w Q
        λ c h.
          let v = (collect_one X params x w).1 in
          Ensures-bind (collect_each X params entries) (λ more. pure (append_collected c more)) v Q
            λ more k all j.
              let whole = ok-injective j in
              subst (λ z. Q z v) whole
                (elim i [
                  | inl same ↦
                      let (hash, part, p, f, t, m) =
                        one-Includes block bundle e w b n c
                          (subst (λ z. (collect_one X params z w).0 ≡ ok c) (sym same) h) in
                      (
                        hash,
                        part,
                        p,
                        λ r q.
                            In-append_left r c.parsed.transaction_updates
                              more.parsed.transaction_updates (f r q),
                        or_left c.insert_transactions more.insert_transactions t,
                        In-append_left _ c.blocks more.blocks m,
                      )
                  | inr later ↦
                      let (hash, part, p, f, t, m) =
                        each-Includes block bundle e entries v b n later more k in
                      (
                        hash,
                        part,
                        p,
                        λ r q.
                            In-append_right r c.parsed.transaction_updates
                              more.parsed.transaction_updates (f r q),
                        or_right c.insert_transactions more.insert_transactions t,
                        In-append_right _ c.blocks more.blocks m,
                      )
                ])

module _ (X : Env) (D : IsDatabase X) (params : X.Params) where
  -- The transaction is stored at its index of the block, and the block is.
  abbrev pub IsSynced : StateChangeEntry → LibBlock → ℕ → LibTxn → Unit {0} → World X → Type 0
  IsSynced e block i t _ v =
      ((r : TransactionEntry) × D.Stored v.database Table.transaction (Row.transaction r)
        × At X.codec params (block_row X params block e).block_hash
            (block_row X params block e).height (block_row X params block e).timestamp (some i) none
            none t r)
      × D.Stored v.database Table.block (Row.block (block_row X params block e))

module _ (X : Env) (D : IsDatabase X) (params : X.Params)
    (round_trip : (t : LibTxn) (bs : Bytes) → X.txn_to_bytes t ≡ ok bs → X.txn_from_bytes bs ≡ ok t)
    (basic : (m : LibTransactionMetadata) (n : ℕ) (b : BasicTransferTxindexMetadata)
      → X.get_encoder_for_tx_type m n ≡ some (basic_transfer_txindex b)
      → m.basic_transfer ≡ some b) where
  written-IsSynced :
      (e : StateChangeEntry) (o : OperationType) (block : LibBlock)
      (bundle : List (List UtxoOperation)) (i : ℕ) (t : LibTxn) (ops : List UtxoOperation)
      (c : Collected) (v : World X)
      → Includes X params block bundle e c v
      → get_elem? block.txns i ≡ some t
      → get_elem? bundle i ≡ some ops
      → HasEvent X params t ops
      → Ensures (write_collected X c o) v (IsSynced X D params e block i t)
  written-IsSynced e o block bundle i t ops c v (hash, part, p, f, inserts, m) g k n a h =
      let (r, q, placed) =
        attached_transactions X params round_trip basic e block bundle hash part i t ops p g k n in
      let ((txns, blocks), _, _, _) = collected_written X D c o v inserts h in
      let stored =
        All-In _ (map Row.transaction c.parsed.transaction_updates) txns (Row.transaction r)
          (In-map_of Row.transaction r c.parsed.transaction_updates (f r q)) in
      (
        (r, stored, placed),
        elim blocks [
          | inl e ↦ absurd (subst (In r) e (f r q))
          | inr (b, s) ↦
              All-In _ (map Row.block c.blocks) b (Row.block (block_row X params block e))
                (In-map_of Row.block (block_row X params block e) c.blocks m)
        ],
      )

  -- Assume that the bytes of a transaction decode to it, and that the encoder of a basic transfer is
  -- the one that the metadata hold. If the insert of a batch of UTXO operations returns
  -- nil, a unique entry of it brings a block, and a transaction of the block has an entry in the
  -- bundle, which holds a jailed event if it is an unjail transaction, then the block is stored, and
  -- the transaction is stored with its index in the block, no wrapper, and the block's hash, height
  -- and time.
  pub initial_sync_stores :
      (entries : List StateChangeEntry) (o : OperationType) (w : World X) (e : StateChangeEntry)
      (block : LibBlock) (bundle : List (List UtxoOperation)) (i : ℕ) (t : LibTxn)
      (ops : List UtxoOperation)
      → In e (X.unique_entries entries)
      → e.block ≡ some block
      → e.encoder ≡ Encoder.utxo_operation_bundle bundle
      → get_elem? block.txns i ≡ some t
      → get_elem? bundle i ≡ some ops
      → HasEvent X params t ops
      → (bulk_insert_utxo_operations_entry X entries o params w).0 ≡ ok tt
      → IsSynced X D params e block i t tt
          (bulk_insert_utxo_operations_entry X entries o params w).1
  unfolding bulk_insert_utxo_operations_entry
  initial_sync_stores entries o w e block bundle i t ops m b n g k u h =
      Ensures-bind (collect_each X params (X.unique_entries entries)) (λ c. write_collected X c o) w
        (IsSynced X D params e block i t)
        (λ c p.
          written-IsSynced e o block bundle i t ops c
            (collect_each X params (X.unique_entries entries) w).1
            (each-Includes X params block bundle e (X.unique_entries entries) w b n m c p) g k u)
        tt h
