-- ===== src/Entries/UtxoOperation/Gather/Agreement.antt =====
-- The rows that entries/utxo_operation.go makes of an attached block, and those that
-- entries/block.go makes of the same block.
use mathlib.Core.List.{Perm, perm_append_comm}
use mathlib.Core.List.Perm
use postgres_data_handler.Base.{
  ℕ, suc, ◌==◌, Bool, true, false, ◌≡◌, refl, sym, ap, subst, Option, none, some, List, [], ◌∷◌,
  ◌++◌, get_elem?, append_assoc, if◌then◌else◌,
}
use postgres_data_handler.Go.{ok}
use postgres_data_handler.Go.Laws.{ok-injective}
use postgres_data_handler.Core.Chain.{LibTxn, txn_meta, get_txn_type, UtxoOperation}
use postgres_data_handler.Schema.Chain.{BlockEntry, TransactionEntry}
use postgres_data_handler.Env.{Codec}
use postgres_data_handler.Entries.Transaction.{transaction_encoder_to_pg_struct}
use postgres_data_handler.Entries.Block.{block_txns_from}
use postgres_data_handler.Entries.UtxoOperation.Gather.{inner_at, Gathered, gather_block_from}
use postgres_data_handler.Entries.UtxoOperation.Gather.Laws.{inner_at-parts, gather_block-cons}

abbrev pub all_rows : Gathered → List TransactionEntry
all_rows g = g.transactions ++ g.inner_transactions

-- The rows of a wrapper are put next to it by one loop, and after all others by the other.
shuffle-Perm :
    {A : Type 0} (xs ys zs us : List A) → Perm us (ys ++ zs) → Perm (xs ++ us) (ys ++ (xs ++ zs))
shuffle-Perm xs ys zs us p = Perm.trans (Perm.append_left xs p) (
    subst (λ l. Perm (xs ++ (ys ++ zs)) l) (append_assoc ys xs zs)
      (subst (λ l. Perm l (ys ++ xs ++ zs)) (append_assoc xs ys zs)
        (Perm.append_right zs (perm_append_comm xs ys))))

module _ (C : Codec) (params : C.Params) where
  block_txns-cons :
      (ii : ℕ) (t : LibTxn) (txns : List LibTxn) (b : BlockEntry) (is_wrapper : Bool)
      (o : Option (List UtxoOperation)) (r : TransactionEntry) (inner_txns : List TransactionEntry)
      (ops : List (List UtxoOperation)) (more : List TransactionEntry)
      → transaction_encoder_to_pg_struct C t
          (some ii)
          b.block_hash
          b.height
          b.timestamp
          none
          none
          params
        ≡ ok r
      → (get_txn_type (txn_meta t) == C.txn_type_atomic_txns_wrapper) ≡ is_wrapper
      → (if is_wrapper then inner_at C params o (some r) else ok ([], [])) ≡ ok (inner_txns, ops)
      → block_txns_from C (suc ii) txns b params ≡ ok more
      → block_txns_from C ii (t ∷ txns) b params ≡ ok (r ∷ inner_txns ++ more)
  unfolding block_txns_from
  block_txns-cons ii t txns b true o r inner_txns ops more p y q s =
      let parsed = (inner_at-parts C params o (some r) inner_txns ops q).0 in
      rw (p, y, s, parsed) refl
  block_txns-cons ii t txns b false o r inner_txns ops more p y q s =
      let e : [] ≡ inner_txns = ap (λ z. z.0) (ok-injective q) in rw (p, y, s, sym e) refl

  -- Where the transactions of a block that came with an entry of UTXO operations are gathered, the
  -- loop of entries/block.go over the same transactions succeeds too, and the rows that it makes are
  -- the gathered ones, wrapped or not, in another order.
  pub gathered_rows_agree :
      (ii : ℕ) (txns : List LibTxn) (bundle : List (List UtxoOperation)) (b : BlockEntry)
      (g : Gathered)
      → gather_block_from C params ii txns bundle b ≡ ok g
      → (rows : List TransactionEntry) × (block_txns_from C ii txns b params ≡ ok rows)
        × Perm rows (all_rows g)
  unfolding gather_block_from block_txns_from
  gathered_rows_agree ii [] bundle b g h =
      ([], refl, subst (λ z. Perm [] (all_rows z)) (ok-injective h) Perm.rfl)
  gathered_rows_agree ii (t ∷ txns) bundle b g h =
      let (r, inner_txns, ops, more, p, q, s, e) =
        gather_block-cons C params ii t txns bundle b g h in
      let (rows, f, perm) = gathered_rows_agree (suc ii) txns bundle b more s in
      (
        r ∷ inner_txns ++ rows,
        block_txns-cons ii t txns b _ (get_elem? bundle ii) r inner_txns ops rows p refl q f,
        subst (λ z. Perm (r ∷ inner_txns ++ rows) (all_rows z)) e
            (Perm.cons r
              (shuffle-Perm inner_txns more.transactions more.inner_transactions rows perm)),
      )
