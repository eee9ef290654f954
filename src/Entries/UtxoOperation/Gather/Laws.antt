-- ===== src/Entries/UtxoOperation/Gather/Laws.antt =====
-- What is gathered of a bundle: as many inner operation lists as inner transactions, and the rows
-- that entries/block.go makes of the same block.
use postgres_data_handler.Base.{
  ℕ, zero, suc, ◌+◌, ◌%◌, ◌^◌, ◌==◌, Bool, Bool-cases, true, false, ◌≡◌, refl, sym, ap, subst, ◌∙◌,
  inl, inr, Option, none, some, List, [], ◌∷◌, length, get_elem?, length-append, arith,
  if◌then◌else◌,
}
use postgres_data_handler.Go.{ok, rewrap}
use postgres_data_handler.Go.Laws.{ok-injective, rewrap-eq-ok, bind-eq-ok}
use postgres_data_handler.Core.Chain.{
  LibTxn, txn_meta, get_txn_type, UtxoOperation, utxo_operation, nil_inner, inner, utxo_op_lists,
}
use postgres_data_handler.Schema.Chain.{BlockEntry, TransactionEntry}
use postgres_data_handler.Env.{Codec}
use postgres_data_handler.Entries.Transaction.{
  transaction_encoder_to_pg_struct, parse_inner_txns_from_atomic_txn,
}
use postgres_data_handler.Entries.UtxoOperation.Gather.{
  inner_ops, get_inner_txns_from_atomic_txn, inner_at, Gathered, add_txn, gather_block_from,
  gather_stored_from, inner_of_stored, or_nil,
}

eq_of : (a b : ℕ) → a == b ≡ true → a ≡ b
eq_of a b h = ground arith

length-inner_ops :
    (o : Option UtxoOperation) (n : ℕ) (ops : List (List UtxoOperation))
    → inner_ops o n ≡ ok ops
    → length ops ≡ n
unfolding inner_ops
length-inner_ops none n ops h = cc
length-inner_ops (some (utxo_operation t m nil_inner)) n ops h = cc
length-inner_ops (some (utxo_operation t m (inner lists))) n ops h =
    elim (Bool-cases (length (utxo_op_lists lists) == n)) [
      | inl y ↦
          subst (λ z. length z ≡ n) (ok-injective (rw y at h))
            (eq_of (length (utxo_op_lists lists)) n y)
      | inr f ↦ cc (rw f at h)
    ]

abbrev pub Balanced : Gathered → Type 0
Balanced g = length g.inner_transactions ≡ length g.inner_utxo_operations

module _ (C : Codec) (params : C.Params) where
  -- The inner transactions are those that the wrapper parses to, and each has its operations.
  pub inner_at-parts :
      (o : Option (List UtxoOperation)) (w : Option TransactionEntry) (txns : List TransactionEntry)
      (ops : List (List UtxoOperation))
      → inner_at C params o w ≡ ok (txns, ops)
      → (parse_inner_txns_from_atomic_txn C w params ≡ ok txns) × (length txns ≡ length ops)
  unfolding get_inner_txns_from_atomic_txn
  inner_at-parts none w txns ops h = cc
  inner_at-parts (some u) w txns ops h =
      let (t, p, k) =
        bind-eq-ok (rewrap _ (parse_inner_txns_from_atomic_txn C w params)) _
          (rewrap-eq-ok _ (get_inner_txns_from_atomic_txn C params w u) h) in
      let found = C.get_utxo_op_by_operation_type u C.operation_type_atomic_txns_wrapper in
      let (o, q, j) = bind-eq-ok (inner_ops found (length t)) _ k in
      let e = ok-injective j in
      (
        rewrap-eq-ok _ (parse_inner_txns_from_atomic_txn C w params) p ∙ ap (λ z. ok z.0) e,
        ap (λ z. length z.0) (sym e)
            ∙ sym (length-inner_ops found (length t) o q)
            ∙ ap (λ z. length z.1) e,
      )

  add_txn-Balanced :
      (t : TransactionEntry) (txns : List TransactionEntry) (ops : List (List UtxoOperation))
      (g : Gathered)
      → length txns ≡ length ops
      → Balanced g
      → Balanced (add_txn C params t (txns, ops) g)
  add_txn-Balanced t txns ops g e b = omega (
    arith,
    e,
    b,
    length-append txns g.inner_transactions,
    length-append ops g.inner_utxo_operations,
  )

  -- What one transaction and the ones after it give.
  pub gather_block-cons :
      (ii : ℕ) (t : LibTxn) (txns : List LibTxn) (bundle : List (List UtxoOperation))
      (b : BlockEntry) (g : Gathered)
      → gather_block_from C params ii (t ∷ txns) bundle b ≡ ok g
      → (r : TransactionEntry) × (txns' : List TransactionEntry) × (ops : List (List UtxoOperation))
        × (more : Gathered) × (transaction_encoder_to_pg_struct C t
              (some ii)
              b.block_hash
              b.height
              b.timestamp
              none
              none
              params
            ≡ ok r)
        × ((if get_txn_type (txn_meta t) == C.txn_type_atomic_txns_wrapper
              then inner_at C params (get_elem? bundle ii) (some r)
              else ok ([], []))
            ≡ ok (txns', ops))
        × (gather_block_from C params (suc ii) txns bundle b ≡ ok more)
        × (add_txn C params r (txns', ops) more ≡ g)
  unfolding gather_block_from
  gather_block-cons ii t txns bundle b g h =
      let enc =
        transaction_encoder_to_pg_struct C t (some ii) b.block_hash b.height b.timestamp none none
          params in
      let (r, p, k) = bind-eq-ok (rewrap _ enc) _ h in
      let ((inner_txns, ops), q, j) = bind-eq-ok _ _ k in
      let (more, s, e) = bind-eq-ok (gather_block_from C params (suc ii) txns bundle b) _ j in
      (r, inner_txns, ops, more, rewrap-eq-ok _ enc p, q, s, ok-injective e)

  -- The operations of the inner transactions of one transaction.
  part-Balanced :
      (is_wrapper : Bool) (o : Option (List UtxoOperation)) (r : TransactionEntry)
      (txns : List TransactionEntry) (ops : List (List UtxoOperation))
      → (if is_wrapper then inner_at C params o (some r) else ok ([], [])) ≡ ok (txns, ops)
      → length txns ≡ length ops
  part-Balanced true o r txns ops h = (inner_at-parts o (some r) txns ops h).1
  part-Balanced false o r txns ops h =
      let e = ok-injective h in ap (λ z. length z.0) (sym e) ∙ ap (λ z. length z.1) e

  -- Where the transactions of an attached block are gathered, there are as many lists of inner
  -- operations as inner transactions, and as many transactions as in the block.
  pub gather_block-Balanced :
      (ii : ℕ) (txns : List LibTxn) (bundle : List (List UtxoOperation)) (b : BlockEntry)
      (g : Gathered)
      → gather_block_from C params ii txns bundle b ≡ ok g
      → Balanced g × (length g.transactions ≡ length txns)
  unfolding gather_block_from
  gather_block-Balanced ii [] bundle b g h =
      let e = ok-injective h in
      (
        ap (λ z. length z.inner_transactions) (sym e) ∙ ap (λ z. length z.inner_utxo_operations) e,
        ap (λ z. length z.transactions) (sym e),
      )
  gather_block-Balanced ii (t ∷ txns) bundle b g h =
      let (r, inner_txns, ops, more, p, q, s, e) = gather_block-cons ii t txns bundle b g h in
      let (c, n) = gather_block-Balanced (suc ii) txns bundle b more s in
      let d = part-Balanced _ (get_elem? bundle ii) r inner_txns ops q in
      (
        subst Balanced e (add_txn-Balanced r inner_txns ops more d c),
        ap (λ z. length z.transactions) (sym e) ∙ ap suc n,
      )

  gather_stored-cons :
      (ii : ℕ) (t : TransactionEntry) (txns : List TransactionEntry)
      (bundle : List (List UtxoOperation)) (g : Gathered)
      → gather_stored_from C params ii (t ∷ txns) bundle ≡ ok g
      → (inner_txns : List TransactionEntry) × (ops : List (List UtxoOperation)) × (more : Gathered)
        × (length inner_txns ≡ length ops)
        × (gather_stored_from C params (suc ii) txns bundle ≡ ok more)
        × (add_txn C params t (inner_txns, ops) more ≡ g)
  unfolding gather_stored_from inner_of_stored
  gather_stored-cons ii t txns bundle g h =
      let wrapper = t.txn_type == C.txn_type_atomic_txns_wrapper % 2 ^ 16 in
      let ((inner_txns, ops), q, j) =
        bind-eq-ok (if wrapper then inner_of_stored C params ii bundle t else ok ([], [])) _ h in
      let (more, s, e) = bind-eq-ok (gather_stored_from C params (suc ii) txns bundle) _ j in
      (inner_txns, ops, more, by_type wrapper inner_txns ops q, s, ok-injective e)
    where
      by_type :
          (is_wrapper : Bool) (inner_txns : List TransactionEntry) (ops : List (List UtxoOperation))
          → (if is_wrapper then inner_of_stored C params ii bundle t else ok ([], []))
            ≡ ok (inner_txns, ops)
          → length inner_txns ≡ length ops
      by_type true inner_txns ops q =
          let (a, d, k) = bind-eq-ok (rewrap _ (C.txn_from_bytes t.txn_bytes)) _ q in
          let (w, f, j) =
            bind-eq-ok
              (or_nil C params (
                transaction_encoder_to_pg_struct C a t.index_in_block t.block_hash t.block_height
                  t.timestamp none none params))
              _ k in
          (inner_at-parts (get_elem? bundle ii) w inner_txns ops j).1
      by_type false inner_txns ops q =
          let e = ok-injective q in ap (λ z. length z.0) (sym e) ∙ ap (λ z. length z.1) e

  pub gather_stored-Balanced :
      (ii : ℕ) (txns : List TransactionEntry) (bundle : List (List UtxoOperation)) (g : Gathered)
      → gather_stored_from C params ii txns bundle ≡ ok g
      → Balanced g × (g.transactions ≡ txns)
  unfolding gather_stored_from
  gather_stored-Balanced ii [] bundle g h =
      let e = ok-injective h in
      (
        ap (λ z. length z.inner_transactions) (sym e) ∙ ap (λ z. length z.inner_utxo_operations) e,
        ap (λ z. z.transactions) (sym e),
      )
  gather_stored-Balanced ii (t ∷ txns) bundle g h =
      let (inner_txns, ops, more, d, s, e) = gather_stored-cons ii t txns bundle g h in
      let (c, n) = gather_stored-Balanced (suc ii) txns bundle more s in
      (
        subst Balanced e (add_txn-Balanced t inner_txns ops more d c),
        ap (λ z. z.transactions) (sym e) ∙ ap (λ z. t ∷ z) n,
      )

  -- Each transaction of a block is gathered at its index.
  pub gathered_at :
      (ii i : ℕ) (txns : List LibTxn) (bundle : List (List UtxoOperation)) (b : BlockEntry)
      (g : Gathered) (t : LibTxn)
      → gather_block_from C params ii txns bundle b ≡ ok g
      → get_elem? txns i ≡ some t
      → (r : TransactionEntry) × (get_elem? g.transactions i ≡ some r)
        × (transaction_encoder_to_pg_struct C t
              (some (ii + i))
              b.block_hash
              b.height
              b.timestamp
              none
              none
              params
            ≡ ok r)
  gathered_at ii i [] bundle b g t h f = cc
  gathered_at ii zero (u ∷ txns) bundle b g t h f =
      let (r, inner_txns, ops, more, p, q, s, e) = gather_block-cons ii u txns bundle b g h in
      let same : u ≡ t = cc in
      (
        r,
        subst (λ z. get_elem? z.transactions 0 ≡ some r) e refl,
        subst
            (λ z.
              transaction_encoder_to_pg_struct C t (some z) b.block_hash b.height b.timestamp none
                none params
              ≡ ok r)
            (omega arith)
            (subst
              (λ z.
                transaction_encoder_to_pg_struct C z (some ii) b.block_hash b.height b.timestamp
                  none none params
                ≡ ok r)
              same p),
      )
  gathered_at ii (suc i) (u ∷ txns) bundle b g t h f =
      let (r, inner_txns, ops, more, p, q, s, e) = gather_block-cons ii u txns bundle b g h in
      let (v, k, d) = gathered_at (suc ii) i txns bundle b more t s f in
      (
        v,
        subst (λ z. get_elem? z.transactions (suc i) ≡ some v) e k,
        subst
            (λ z.
              transaction_encoder_to_pg_struct C t (some z) b.block_hash b.height b.timestamp none
                none params
              ≡ ok v)
            (omega arith) d,
      )
