-- ===== src/Entries/UtxoOperation/Bundle/Updates.antt =====
-- Which transactions the loop over a bundle of UTXO operations updates.
use mathlib.Core.Option
use postgres_data_handler.Base.{
  ℕ, zero, suc, ◌+◌, true, ◌≡◌, refl, sym, subst, ◌⊎◌, inl, inr, String, Option, none, some, List,
  [], ◌∷◌, map, get_elem?, In, In-get_elem?, All, In-append, In-append_left, In-append_right, arith,
}
use postgres_data_handler.Go.{ok}
use postgres_data_handler.Core.Chain.{LibTxn, txn_meta, get_txn_type, UtxoOperation}
use postgres_data_handler.Core.Txindex.{
  BasicTransferTxindexMetadata, InnerTransactionMetadata, TxindexMetadata, basic_transfer_txindex,
  atomic_txns_wrapper_txindex, other_txindex, LibTransactionMetadata,
}
use postgres_data_handler.Schema.Chain.{TransactionEntry}
use postgres_data_handler.Env.{Codec}
use postgres_data_handler.Entries.UtxoOperation.Bundle.{
  Parsed, without_utxo_ops, clear_inner, clear_atomic, with_metadata, parse_from,
  parse_utxo_operation_bundle,
}
use postgres_data_handler.Entries.UtxoOperation.Bundle.Laws.{
  BasicIsCleared, is_unjail, jailed_event, Part, parse_from-cons, parse_from-nil,
}

-- The row without its two metadata columns.
abbrev pub strip : TransactionEntry → TransactionEntry
strip r = record r {
  tx_index_metadata = record { deso_encoder = none; transaction_extra_metadata = none };
  tx_index_basic_transfer_metadata = none;
}

-- No UTXO operations are left in the metadata.
abbrev pub IsCleared : Option TxindexMetadata → Type 0
IsCleared none = Unit
IsCleared (some (basic_transfer_txindex b)) = b.utxo_ops ≡ none
IsCleared (some (atomic_txns_wrapper_txindex inner others)) =
    All (λ m. BasicIsCleared m.basic_transfer) inner
IsCleared (some (other_txindex t others)) = Unit

abbrev pub IsClearedBasic : Option TxindexMetadata → Type 0
IsClearedBasic (some (basic_transfer_txindex b)) = b.utxo_ops ≡ none
IsClearedBasic _ = Unit

-- `r` is `t` with at most the two metadata columns changed, to metadata without UTXO operations.
abbrev pub IsUpdate : TransactionEntry → TransactionEntry → Type 0
IsUpdate t r =
    (strip r ≡ strip t)
    × ((r ≡ t)
        ⊎ (IsCleared r.tx_index_metadata.deso_encoder
            × IsClearedBasic r.tx_index_basic_transfer_metadata))

inner-All :
    (inner : List InnerTransactionMetadata)
    → All (λ m. BasicIsCleared m.basic_transfer) (map clear_inner inner)
inner-All [] = tt
inner-All (m ∷ inner) = (one m.basic_transfer, inner-All inner)
  where
    one : (b : Option BasicTransferTxindexMetadata) → BasicIsCleared (Option.map without_utxo_ops b)
    one none = tt
    one (some b) = refl

module _ (C : Codec) (params : C.Params)
    (basic : (m : LibTransactionMetadata) (t : ℕ) (b : BasicTransferTxindexMetadata)
      → C.get_encoder_for_tx_type m t ≡ some (basic_transfer_txindex b)
      → m.basic_transfer ≡ some b) where
  basic-IsClearedBasic :
      (m : LibTransactionMetadata) (t : ℕ) (o : Option TxindexMetadata)
      → BasicIsCleared m.basic_transfer
      → C.get_encoder_for_tx_type m t ≡ o
      → IsClearedBasic o
  basic-IsClearedBasic m t none c e = tt
  basic-IsClearedBasic m t (some (basic_transfer_txindex b)) c e =
      subst BasicIsCleared (basic m t b e) c
  basic-IsClearedBasic m t (some (atomic_txns_wrapper_txindex inner others)) c e = tt
  basic-IsClearedBasic m t (some (other_txindex u others)) c e = tt

  -- The metadata of a transaction whose basic transfer metadata are cleared.
  encoder-IsCleared :
      (m : LibTransactionMetadata) (t : ℕ) (o : Option TxindexMetadata)
      → BasicIsCleared m.basic_transfer
      → C.get_encoder_for_tx_type m t ≡ o
      → IsCleared (Option.map clear_atomic o)
  encoder-IsCleared m t none c e = tt
  encoder-IsCleared m t (some (basic_transfer_txindex b)) c e =
      subst BasicIsCleared (basic m t b e) c
  encoder-IsCleared m t (some (atomic_txns_wrapper_txindex inner others)) c e = inner-All inner
  encoder-IsCleared m t (some (other_txindex u others)) c e = tt

  changed :
      (t : TransactionEntry) (transaction : LibTxn) (m : LibTransactionMetadata)
      (extra : Option String)
      → BasicIsCleared m.basic_transfer
      → IsUpdate t (with_metadata C params t transaction m extra)
  unfolding with_metadata
  changed t transaction m extra c = (
    refl,
    inr (
      encoder-IsCleared m (get_txn_type (txn_meta transaction)) _ c refl,
      basic-IsClearedBasic m C.txn_type_basic_transfer _ c refl,
    ),
  )

  same : (t : TransactionEntry) → IsUpdate t t
  same t = (refl, inl refl)

  module _ (hash : String) (txns : List TransactionEntry) where
    Part-update :
        (jj : ℕ) (ops : List UtxoOperation) (o : Option TransactionEntry) (a : Parsed)
        (r : TransactionEntry)
        → Part C params IsUpdate same changed hash txns jj ops o a
        → In r a.transaction_updates
        → (t : TransactionEntry) × (o ≡ some t) × IsUpdate t r
    Part-update jj ops none a r (e, f) m = absurd (subst (In r) e m)
    Part-update jj ops (some t) a r (tx, d, (s, inl (u, v, e))) m = absurd (subst (In r) e m)
    Part-update jj ops (some t) a r (tx, d, (s, inr (v, e, i))) m = elim (subst (In r) e m) [
      | inl k ↦ (t, refl, subst (IsUpdate t) (sym k) i)
      | inr n ↦ absurd n
    ]

    updates_from :
        (jj : ℕ) (bundle : List (List UtxoOperation)) (p : Parsed) (r : TransactionEntry)
        → parse_from C params hash txns jj bundle ≡ ok p
        → In r p.transaction_updates
        → (i : ℕ) × (t : TransactionEntry) × (get_elem? txns (jj + i) ≡ some t) × IsUpdate t r
    updates_from jj [] p r h m = absurd (
        subst (λ z. In r z.transaction_updates)
          (parse_from-nil C params IsUpdate same changed hash txns jj p h) m)
    updates_from jj (ops ∷ bundle) p r h m =
        let (a, q, part, later, e) =
          parse_from-cons C params IsUpdate same changed hash txns jj ops bundle p h in
        elim (In-append r a.transaction_updates q.transaction_updates
          (subst (λ z. In r z.transaction_updates) (sym e) m)) [
            | inl n ↦
                let (t, g, u) = Part-update jj ops (get_elem? txns jj) a r part n in
                (0, t, subst (λ z. get_elem? txns z ≡ some t) (omega arith) g, u)
            | inr n ↦
                let (i, t, g, u) = updates_from (suc jj) bundle q r later n in
                (suc i, t, subst (λ z. get_elem? txns z ≡ some t) (omega arith) g, u)
          ]

    -- The transaction's update is there, or it is an unjail transaction whose event is not.
    abbrev pub Kept : List UtxoOperation → Parsed → TransactionEntry → Type 0
    Kept ops p t =
        ((r : TransactionEntry) × In r p.transaction_updates × IsUpdate t r)
        ⊎ ((transaction : LibTxn) × (C.txn_from_bytes t.txn_bytes ≡ ok transaction)
            × (is_unjail C transaction ≡ true)
            × (jailed_event C params ops ≡ none))

    Part-Kept :
        (jj : ℕ) (ops : List UtxoOperation) (o : Option TransactionEntry) (a : Parsed)
        (t : TransactionEntry)
        → Part C params IsUpdate same changed hash txns jj ops o a
        → o ≡ some t
        → Kept ops a t
    Part-Kept jj ops none a t part e = cc
    Part-Kept jj ops (some u) a t (tx, d, (s, inl (v, w, f))) e =
        let same : u ≡ t = cc in subst (Kept ops a) same (inr (tx, d, v, w))
    Part-Kept jj ops (some u) a t (tx, d, (s, inr (r, f, i))) e =
        let same : u ≡ t = cc in
        subst (Kept ops a) same (inl (r, subst (In r) (sym f) (inl refl), i))

    parse_from-Kept :
        (jj i : ℕ) (bundle : List (List UtxoOperation)) (p : Parsed) (ops : List UtxoOperation)
        (t : TransactionEntry)
        → parse_from C params hash txns jj bundle ≡ ok p
        → get_elem? bundle i ≡ some ops
        → get_elem? txns (jj + i) ≡ some t
        → Kept ops p t
    parse_from-Kept jj i [] p ops t h g f = cc
    parse_from-Kept jj zero (o ∷ bundle) p ops t h g f =
        let (a, q, part, later, e) =
          parse_from-cons C params IsUpdate same changed hash txns jj o bundle p h in
        elim (Part-Kept jj o (get_elem? txns jj) a t part
          (subst (λ z. get_elem? txns z ≡ some t) (omega arith) f)) [
            | inl (r, m, u) ↦ inl (
              r,
              subst (λ z. In r z.transaction_updates) e
                  (In-append_left r a.transaction_updates q.transaction_updates m),
              u,
            )
            | inr (tx, d, v, y) ↦
                let same_ops : o ≡ ops = cc in
                inr (tx, d, v, subst (λ z. jailed_event C params z ≡ none) same_ops y)
          ]
    parse_from-Kept jj (suc i) (o ∷ bundle) p ops t h g f =
        let (a, q, part, later, e) =
          parse_from-cons C params IsUpdate same changed hash txns jj o bundle p h in
        elim (parse_from-Kept (suc jj) i bundle q ops t later g
          (subst (λ z. get_elem? txns z ≡ some t) (omega arith) f)) [
            | inl (r, m, u) ↦ inl (
              r,
              subst (λ z. In r z.transaction_updates) e
                  (In-append_right r a.transaction_updates q.transaction_updates m),
              u,
            )
            | inr n ↦ inr n
          ]

    -- Assume that the encoder of a basic transfer is the one that the metadata hold. Where a bundle of
    -- UTXO operations parses, each updated row is one of the transactions with at most its two
    -- metadata columns changed, and where they are, then to metadata of basic transfers, alone or in a
    -- wrapper, without UTXO operations.
    pub bundle_updates :
        (bundle : List (List UtxoOperation)) (p : Parsed) (r : TransactionEntry)
        → parse_utxo_operation_bundle C params bundle txns hash ≡ ok p
        → In r p.transaction_updates
        → (t : TransactionEntry) × In t txns × IsUpdate t r
    unfolding parse_utxo_operation_bundle
    bundle_updates bundle p r h m =
        let (i, t, g, u) = updates_from 0 bundle p r h m in (t, In-get_elem? txns (0 + i) t g, u)

    -- Assume that the encoder of a basic transfer is the one that the metadata hold. Where a bundle of
    -- UTXO operations parses, each transaction with an entry in the bundle has an updated row, which
    -- is the transaction but for the two metadata columns, or its bytes are those of an unjail
    -- transaction and its entry in the bundle holds no jailed event.
    pub bundle_keeps :
        (bundle : List (List UtxoOperation)) (p : Parsed) (i : ℕ) (ops : List UtxoOperation)
        (t : TransactionEntry)
        → parse_utxo_operation_bundle C params bundle txns hash ≡ ok p
        → get_elem? bundle i ≡ some ops
        → get_elem? txns i ≡ some t
        → Kept ops p t
    unfolding parse_utxo_operation_bundle
    bundle_keeps bundle p i ops t h g f =
        parse_from-Kept 0 i bundle p ops t h g
          (subst (λ z. get_elem? txns z ≡ some t) (omega arith) f)
