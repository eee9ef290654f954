-- ===== src/Entries/UtxoOperation/Gather/Attached.antt =====
-- What is collected of an entry of UTXO operations that brings its block.
use mathlib.Core.Bool.{false≢true}
use postgres_data_handler.Base.{
  ℕ, ◌+◌, false, ◌≡◌, ◌⊎◌, none, ◌↔◌, inl, inr, sym, ap, subst, ◌∙◌, String, Option, some, List,
  length, get_elem?, In, In-append, In-append_left, Bytes, arith,
}
use postgres_data_handler.Go.{Result, ok, rewrap}
use postgres_data_handler.Go.Laws.{ok-injective, rewrap-eq-ok, bind-eq-ok}
use postgres_data_handler.Core.{StateChangeEntry}
use postgres_data_handler.Core.Chain.{LibTxn, LibBlock, txn_meta, UtxoOperation}
use postgres_data_handler.Core.Txindex.{
  LibTransactionMetadata, BasicTransferTxindexMetadata, basic_transfer_txindex,
}
use postgres_data_handler.Schema.Chain.{BlockEntry, TransactionEntry}
use postgres_data_handler.Schema.Staking.{StakeReward, JailedHistoryEntry}
use postgres_data_handler.Env.{Env}
use postgres_data_handler.Entries.Transaction.{transaction_encoder_to_pg_struct}
use postgres_data_handler.Entries.Block.{block_encoder_to_pg_struct}
use postgres_data_handler.Entries.Block.Placement.{At, encoded-At}
use postgres_data_handler.Entries.UtxoOperation.Bundle.{
  Parsed, append_parsed, parse_utxo_operation_bundle,
}
use postgres_data_handler.Entries.UtxoOperation.Bundle.Rewards.{
  IsReward, bundle-IsReward, no_rewards,
}
use postgres_data_handler.Entries.UtxoOperation.Bundle.Updates.{strip, bundle_keeps}
use postgres_data_handler.Entries.UtxoOperation.Bundle.Laws.{is_unjail, jailed_event}
use postgres_data_handler.Entries.UtxoOperation.Gather.{
  Gathered, gather_block_from, parse_gathered, Collected, collect_block,
}
use postgres_data_handler.Entries.UtxoOperation.Gather.Laws.{gathered_at, gather_block-Balanced}

module _ (X : Env) (params : X.Params) where
  abbrev pub block_row : LibBlock → StateChangeEntry → BlockEntry
  block_row block entry = (block_encoder_to_pg_struct X.codec block entry.key_bytes params).0

  abbrev parsed_by : List (List UtxoOperation) → List TransactionEntry → String → Result Parsed
  parsed_by bundle txns hash = parse_utxo_operation_bundle X.codec params bundle txns hash

  -- If the transaction is an unjail transaction, then its UTXO operations hold its jailed event.
  abbrev pub HasEvent : LibTxn → List UtxoOperation → Type 0
  HasEvent t ops =
      (is_unjail X.codec t ≡ false)
      ⊎ ((j : JailedHistoryEntry) × (jailed_event X.codec params ops ≡ some j))

  none_apart : {j : JailedHistoryEntry} → ¬ (none ≡ some j)
  none_apart h = cc

  -- What a collected block is put together of.
  collect_block-parts :
      (entry : StateChangeEntry) (block : LibBlock) (bundle : List (List UtxoOperation))
      (hash : String) (c : Collected)
      → collect_block X params entry block bundle hash ≡ ok c
      → (g : Gathered) × (outer : Parsed) × (inner_part : Parsed) × (gather_block_from X.codec
            params 0 block.txns bundle
            (block_row block entry)
          ≡ ok g)
        × (parsed_by bundle g.transactions hash ≡ ok outer)
        × (parsed_by g.inner_utxo_operations g.inner_transactions hash ≡ ok inner_part)
        × (append_parsed outer inner_part ≡ c.parsed)
  unfolding collect_block parse_gathered
  collect_block-parts entry block bundle hash c h =
      let b = block_row block entry in
      let (g, p, k) = bind-eq-ok (gather_block_from X.codec params 0 block.txns bundle b) _ h in
      let (all, q, j) = bind-eq-ok (parse_gathered X params bundle hash g) _ k in
      let (outer, s, i) = bind-eq-ok (rewrap _ (parsed_by bundle g.transactions hash)) _ q in
      let (inner_part, t, e) =
        bind-eq-ok (rewrap _ (parsed_by g.inner_utxo_operations g.inner_transactions hash)) _ i in
      (
        g,
        outer,
        inner_part,
        p,
        rewrap-eq-ok _ (parsed_by bundle g.transactions hash) s,
        rewrap-eq-ok _ (parsed_by g.inner_utxo_operations g.inner_transactions hash) t,
        ok-injective e ∙ ap (λ z. z.parsed) (ok-injective j),
      )

  -- The stake rewards collected of an entry with its block are those of the stake distributions
  -- among the operations in the bundle's entry behind the last transaction of the block, each under
  -- the index of its operation; the operations of inner transactions give none.
  pub attached_rewards :
      (entry : StateChangeEntry) (block : LibBlock) (bundle : List (List UtxoOperation))
      (hash : String) (c : Collected) (r : StakeReward)
      → collect_block X params entry block bundle hash ≡ ok c
      → In r c.parsed.stake_rewards ↔ (
          (ops : List UtxoOperation) × (get_elem? bundle (length block.txns) ≡ some ops)
          × IsReward X.codec params hash 0 ops r)
  attached_rewards entry block bundle hash c r h =
      let (g, outer, inner_part, p, s, t, e) = collect_block-parts entry block bundle hash c h in
      let (balanced, n) =
        gather_block-Balanced X.codec params 0 block.txns bundle (block_row block entry) g p in
      let law = bundle-IsReward X.codec params hash g.transactions bundle outer r s in
      (
        λ m.
            elim (In-append r outer.stake_rewards inner_part.stake_rewards
              (subst (λ z. In r z.stake_rewards) (sym e) m)) [
                | inl a ↦
                    let (ops, f, q) = law.0 a in
                    (ops, subst (λ z. get_elem? bundle z ≡ some ops) n f, q)
                | inr a ↦ absurd (
                    no_rewards X.codec params hash g.inner_transactions g.inner_utxo_operations
                      inner_part r t balanced a)
              ],
        λ (ops, f, q).
            subst (λ z. In r z.stake_rewards) e
              (In-append_left r outer.stake_rewards inner_part.stake_rewards
                (law.1 (ops, subst (λ z. get_elem? bundle z ≡ some ops) (sym n) f, q))),
      )

  strip-At :
      (hash : String) (height time : ℕ) (i : ℕ) (t : LibTxn) (a r : TransactionEntry)
      → At X.codec params hash height time (some i) none none t a
      → strip r ≡ strip a
      → At X.codec params hash height time (some i) none none t r
  strip-At hash height time i t a r (h1, h2, h3, h4, h5, h6, h7, h8) e = (
    ap (λ z. z.transaction_hash) e ∙ h1,
    ap (λ z. z.block_hash) e ∙ h2,
    ap (λ z. z.block_height) e ∙ h3,
    ap (λ z. z.timestamp) e ∙ h4,
    ap (λ z. z.index_in_block) e ∙ h5,
    ap (λ z. z.wrapper_transaction_hash) e ∙ h6,
    ap (λ z. z.index_in_wrapper_transaction) e ∙ h7,
    ap (λ z. z.txn_meta) e ∙ h8,
  )

  encoded-bytes :
      (t : LibTxn) (index : Option ℕ) (hash : String) (height time : ℕ) (r : TransactionEntry)
      → transaction_encoder_to_pg_struct X.codec t index hash height time none none params ≡ ok r
      → X.txn_to_bytes t ≡ ok r.txn_bytes
  unfolding transaction_encoder_to_pg_struct
  encoded-bytes t index hash height time r h =
      let (m, _, h1) = bind-eq-ok (rewrap _ (X.txn_meta_to_bytes (txn_meta t))) _ h in
      let (b, p, h2) = bind-eq-ok (rewrap _ (X.txn_to_bytes t)) _ h1 in
      rewrap-eq-ok _ (X.txn_to_bytes t) p ∙ ap (λ z. ok z.txn_bytes) (ok-injective h2)

  -- Assume that the bytes of a transaction decode to it, and that the encoder of a basic transfer is the
  -- one that the metadata hold. If the entry with its block is collected, then a transaction of the
  -- attached block with an entry in the bundle, which holds a jailed event if it is an unjail
  -- transaction, is collected, with its index in the block, no wrapper, and the block's hash,
  -- height and time.
  pub attached_transactions :
      (round_trip : (t : LibTxn) (bs : Bytes)
        → X.txn_to_bytes t ≡ ok bs
        → X.txn_from_bytes bs ≡ ok t)
      (basic : (m : LibTransactionMetadata) (n : ℕ) (b : BasicTransferTxindexMetadata)
        → X.get_encoder_for_tx_type m n ≡ some (basic_transfer_txindex b)
        → m.basic_transfer ≡ some b)
      (entry : StateChangeEntry) (block : LibBlock) (bundle : List (List UtxoOperation))
      (hash : String) (c : Collected) (i : ℕ) (t : LibTxn) (ops : List UtxoOperation)
      → collect_block X params entry block bundle hash ≡ ok c
      → get_elem? block.txns i ≡ some t
      → get_elem? bundle i ≡ some ops
      → HasEvent t ops
      → (r : TransactionEntry) × In r c.parsed.transaction_updates
        × At X.codec params
            (block_row block entry).block_hash
            (block_row block entry).height
            (block_row block entry).timestamp
            (some i)
            none
            none
            t
            r
  attached_transactions round_trip basic entry block bundle hash c i t ops h f k n =
      let (g, outer, inner_part, p, s, u, e) = collect_block-parts entry block bundle hash c h in
      let b = block_row block entry in
      let (a, d, enc) = gathered_at X.codec params 0 i block.txns bundle b g t p f in
      elim (bundle_keeps X.codec params basic hash g.transactions bundle outer i ops a s k d) [
        | inl (r, m, (same, _)) ↦ (
          r,
          subst (λ z. In r z.transaction_updates) e
              (In-append_left r outer.transaction_updates inner_part.transaction_updates m),
          strip-At b.block_hash b.height b.timestamp i t a r
              (encoded-At X.codec params t (some i) b.block_hash b.height b.timestamp none none a (
                subst
                  (λ z.
                    transaction_encoder_to_pg_struct X.codec t (some z) b.block_hash b.height
                      b.timestamp none none params
                    ≡ ok a)
                  (omega arith) enc))
              same,
        )
        | inr (v, decoded, y, missing) ↦
            let back =
              round_trip t a.txn_bytes
                (encoded-bytes t (some (0 + i)) b.block_hash b.height b.timestamp a enc) in
            let same : v ≡ t = ok-injective (sym decoded ∙ back) in
            absurd (elim n [
              | inl not_unjail ↦ false≢true (sym not_unjail ∙ ap (is_unjail X.codec) (sym same) ∙ y)
              | inr (j, found) ↦ none_apart (sym missing ∙ found)
            ])
      ]
