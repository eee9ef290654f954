-- ===== src/Entries/Block/Placement.antt =====
-- Where entries/block.go and entries/transaction.go place the transactions of a block.
use postgres_data_handler.Base.{
  ℕ, suc, ◌==◌, ◌≡◌, ◌⊎◌, refl, sym, ◌∙◌, ap, subst, inl, inr, Bool-cases, true, false, String,
  Option, none, some, List, [], ◌∷◌, In, get_elem?, Time, Concats, Concats-In, Concats-of, arith,
}
use postgres_data_handler.Go.{ok, rewrap}
use postgres_data_handler.Go.Laws.{bind-eq-ok, ok-injective, rewrap-eq-ok}
use postgres_data_handler.Core.Chain.{
  LibTxn, LibTxns, LibTxnMeta, atomic_txns_wrapper, other_meta, txns_list, txn_meta, get_txn_type,
}
use postgres_data_handler.Schema.Chain.{BlockEntry, TransactionEntry}
use postgres_data_handler.Env.{Codec}
use postgres_data_handler.Entries.Transaction.{
  transaction_encoder_to_pg_struct, inner_txns_from, inner_of_meta,
  parse_inner_txns_from_atomic_txn,
}
use postgres_data_handler.Entries.Block.{block_txns_from}

module _ (C : Codec) (params : C.Params) where
  abbrev pub hash_of : LibTxn → String
  hash_of t = C.hex (C.txn_hash t)

  -- The columns of a row that say which transaction it is and where it stands.
  abbrev pub At :
      String → ℕ → Time → Option ℕ → Option String → Option ℕ → LibTxn → TransactionEntry → Type 0
  At block_hash height timestamp index wrapper index_in_wrapper t r =
      (r.transaction_hash ≡ hash_of t)
      × (r.block_hash ≡ block_hash)
      × (r.block_height ≡ height)
      × (r.timestamp ≡ timestamp)
      × (r.index_in_block ≡ index)
      × (r.wrapper_transaction_hash ≡ wrapper)
      × (r.index_in_wrapper_transaction ≡ index_in_wrapper)
      × (r.txn_meta ≡ txn_meta t)

  pub encoded-At :
      (t : LibTxn) (index : Option ℕ) (block_hash : String) (height : ℕ) (timestamp : Time)
      (wrapper : Option String) (index_in_wrapper : Option ℕ) (r : TransactionEntry)
      → transaction_encoder_to_pg_struct C t index block_hash height timestamp wrapper
          index_in_wrapper params
        ≡ ok r
      → At block_hash height timestamp index wrapper index_in_wrapper t r
  unfolding transaction_encoder_to_pg_struct
  encoded-At t index block_hash height timestamp wrapper index_in_wrapper r h =
      let (m, _, h1) =
        bind-eq-ok
          (rewrap "TransactionEncoderToPGStruct: Problem converting txn meta to bytes"
            (C.txn_meta_to_bytes (txn_meta t)))
          _ h in
      let (b, _, h2) =
        bind-eq-ok
          (rewrap "TransactionEncoderToPGStruct: Problem converting txn to bytes"
            (C.txn_to_bytes t))
          _ h1 in
      let e = sym (ok-injective h2) in
      (
        ap (λ z. z.transaction_hash) e,
        ap (λ z. z.block_hash) e,
        ap (λ z. z.block_height) e,
        ap (λ z. z.timestamp) e,
        ap (λ z. z.index_in_block) e,
        ap (λ z. z.wrapper_transaction_hash) e,
        ap (λ z. z.index_in_wrapper_transaction) e,
        ap (λ z. z.txn_meta) e,
      )

  -- The piece of one inner transaction of the wrapper `w`.
  abbrev InnerPiece : TransactionEntry → ℕ → LibTxn → List TransactionEntry → Type 0
  InnerPiece w j u piece =
      (r : TransactionEntry) × (piece ≡ r ∷ [])
      × At w.block_hash w.block_height w.timestamp none (some w.transaction_hash) (some j) u r

  inner-Concats :
      (n : ℕ) (txns : List LibTxn) (w : TransactionEntry) (rows : List TransactionEntry)
      → inner_txns_from C n txns w params ≡ ok rows
      → Concats (InnerPiece w) n txns rows
  unfolding inner_txns_from
  inner-Concats n [] w rows h = sym (ok-injective h)
  inner-Concats n (t ∷ txns) w rows h =
      let m : String = "getInnerTxnsFromAtomicTxn: Problem converting inner txn to PG struct" in
      let enc =
        transaction_encoder_to_pg_struct C t none w.block_hash w.block_height w.timestamp
          (some w.transaction_hash) (some n) params in
      let (r, p, h1) = bind-eq-ok (rewrap m enc) _ h in
      let (rest, q, h2) = bind-eq-ok (inner_txns_from C (suc n) txns w params) _ h1 in
      (
        r ∷ [],
        rest,
        sym (ok-injective h2),
        (
          r,
          refl,
          encoded-At t none w.block_hash w.block_height w.timestamp (some w.transaction_hash)
              (some n) r (rewrap-eq-ok m enc p),
        ),
        inner-Concats (suc n) txns w rest q,
      )

  -- The inner rows of a transaction: none unless it is a wrapper, else those of what it wraps.
  abbrev Inner : TransactionEntry → LibTxnMeta → List TransactionEntry → Type 0
  Inner w m rows =
      (ty : ℕ) × (txns : LibTxns) × (m ≡ atomic_txns_wrapper ty txns)
      × Concats (InnerPiece w) 0 (txns_list txns) rows

  inner_of_meta-Inner :
      (m : LibTxnMeta) (w : TransactionEntry) (rows : List TransactionEntry)
      → inner_of_meta C m w params ≡ ok rows
      → Inner w m rows
  inner_of_meta-Inner (atomic_txns_wrapper ty txns) w rows h =
      (ty, txns, refl, inner-Concats 0 (txns_list txns) w rows h)
  inner_of_meta-Inner (other_meta ty j) w rows h = cc

  parse-Inner :
      (w : TransactionEntry) (rows : List TransactionEntry)
      → parse_inner_txns_from_atomic_txn C (some w) params ≡ ok rows
      → Inner w w.txn_meta rows
  unfolding parse_inner_txns_from_atomic_txn
  parse-Inner w rows h =
      elim (Bool-cases (get_txn_type w.txn_meta == C.txn_type_atomic_txns_wrapper)) [
        | inl t ↦ inner_of_meta-Inner w.txn_meta w rows (rw t at h)
        | inr f ↦ cc (rw f at h)
      ]

  -- The rows of one transaction of a block: its own, with its index, and the inner ones.
  abbrev Piece : BlockEntry → ℕ → LibTxn → List TransactionEntry → Type 0
  Piece b i t piece =
      (r : TransactionEntry) × (inner : List TransactionEntry) × (piece ≡ r ∷ inner)
      × At b.block_hash b.height b.timestamp (some i) none none t r
      × (((get_txn_type (txn_meta t) == C.txn_type_atomic_txns_wrapper ≡ true)
            × Inner r r.txn_meta inner)
          ⊎ ((get_txn_type (txn_meta t) == C.txn_type_atomic_txns_wrapper ≡ false) × (inner ≡ [])))

  block-Concats :
      (n : ℕ) (txns : List LibTxn) (b : BlockEntry) (rows : List TransactionEntry)
      → block_txns_from C n txns b params ≡ ok rows
      → Concats (Piece b) n txns rows
  unfolding block_txns_from
  block-Concats n [] b rows h = sym (ok-injective h)
  block-Concats n (t ∷ txns) b rows h =
      let m : String =
        "entries.bulkInsertBlockEntry: Problem converting transaction to PG struct" in
      let l : String = "entries.bulkInsertBlockEntry: Problem parsing inner txns from atomic txn" in
      let enc =
        transaction_encoder_to_pg_struct C t (some n) b.block_hash b.height b.timestamp none none
          params in
      let (r, p, h1) = bind-eq-ok (rewrap m enc) _ h in
      let placed =
        encoded-At t (some n) b.block_hash b.height b.timestamp none none r
          (rewrap-eq-ok m enc p) in
      elim (Bool-cases (get_txn_type (txn_meta t) == C.txn_type_atomic_txns_wrapper)) [
        | inl y ↦
            let parse = parse_inner_txns_from_atomic_txn C (some r) params in
            let (inner, q, h2) = bind-eq-ok (rewrap l parse) _ (rw y at h1) in
            let (rest, s, h3) = bind-eq-ok (block_txns_from C (suc n) txns b params) _ h2 in
            (
              r ∷ inner,
              rest,
              sym (ok-injective h3),
              (r, inner, refl, placed, inl (y, parse-Inner r inner (rewrap-eq-ok l parse q))),
              block-Concats (suc n) txns b rest s,
            )
        | inr y ↦
            let (rest, s, h2) =
              bind-eq-ok (block_txns_from C (suc n) txns b params) _ (rw y at h1) in
            (
              r ∷ [],
              rest,
              sym (ok-injective h2),
              (r, [], refl, placed, inr (y, refl)),
              block-Concats (suc n) txns b rest s,
            )
      ]

  -- The row is that of the block's transaction at an index.
  abbrev pub IsOuter : BlockEntry → List LibTxn → TransactionEntry → Type 0
  IsOuter b txns r =
      (i : ℕ) × (t : LibTxn) × (get_elem? txns i ≡ some t)
      × At b.block_hash b.height b.timestamp (some i) none none t r

  -- The row is that of the transaction at an index of a wrapper that the block has.
  abbrev pub IsInner : BlockEntry → List LibTxn → TransactionEntry → Type 0
  IsInner b txns r =
      (i : ℕ) × (t : LibTxn) × (ty : ℕ) × (wrapped : LibTxns) × (j : ℕ) × (u : LibTxn) × (get_elem?
          txns i
        ≡ some t)
      × (txn_meta t ≡ atomic_txns_wrapper ty wrapped)
      × (get_elem? (txns_list wrapped) j ≡ some u)
      × At b.block_hash b.height b.timestamp none (some (hash_of t)) (some j) u r

  Inner-IsInner :
      (b : BlockEntry) (txns : List LibTxn) (i : ℕ) (t : LibTxn) (w : TransactionEntry)
      (inner : List TransactionEntry) (r : TransactionEntry)
      → get_elem? txns i ≡ some t
      → At b.block_hash b.height b.timestamp (some i) none none t w
      → Inner w w.txn_meta inner
      → In r inner
      → IsInner b txns r
  Inner-IsInner b txns i t w inner r g (h, bh, ht, ts, _, _, _, m) (ty, wrapped, e, c) k =
      let (j, u, piece, gj, (z, s, (a1, a2, a3, a4, a5, a6, a7, a8)), x) =
        Concats-In (InnerPiece w) 0 (txns_list wrapped) inner r c k in
      let same : r ≡ z = elim (subst (In r) s x) [ inl p ↦ p | inr n ↦ absurd n ] in
      (
        i,
        t,
        ty,
        wrapped,
        j,
        u,
        g,
        sym m ∙ e,
        gj,
        subst (At b.block_hash b.height b.timestamp none (some (hash_of t)) (some j) u) (sym same) (
          a1,
          a2 ∙ bh,
          a3 ∙ ht,
          a4 ∙ ts,
          a5,
          a6 ∙ ap (λ y. some y) h,
          a7 ∙ ap (λ y. some y) (omega arith),
          a8,
        ),
      )

  -- Where a block's transactions convert, every row has the block's hash, height and time, and is the row of the
  -- block's transaction at its index in the block, or that of an inner transaction at its index in
  -- a wrapper of the block, under the wrapper's hash and with no index in the block.
  pub block_rows_placed :
      (txns : List LibTxn) (b : BlockEntry) (rows : List TransactionEntry)
      → block_txns_from C 0 txns b params ≡ ok rows
      → (r : TransactionEntry) → In r rows
      → IsOuter b txns r ⊎ IsInner b txns r
  block_rows_placed txns b rows h r m =
      let (i, t, piece, g, (w, inner, s, placed, kind), x) =
        Concats-In (Piece b) 0 txns rows r (block-Concats 0 txns b rows h) m in
      let here : At b.block_hash b.height b.timestamp (some i) none none t w =
        subst (λ z. At b.block_hash b.height b.timestamp (some z) none none t w) (omega arith)
          placed in
      elim (subst (In r) s x) [
        | inl p ↦ inl (
          i,
          t,
          g,
          subst (At b.block_hash b.height b.timestamp (some i) none none t) (sym p) here,
        )
        | inr k ↦ elim kind [
          | inl (_, inn) ↦ inr (Inner-IsInner b txns i t w inner r g here inn k)
          | inr (_, e) ↦ absurd (subst (In r) e k)
        ]
      ]

  -- Where a block's transactions convert, each has a row with its index in the block and no wrapper,
  -- and with the block's hash, height and time.
  pub block_rows_outer :
      (txns : List LibTxn) (b : BlockEntry) (rows : List TransactionEntry)
      → block_txns_from C 0 txns b params ≡ ok rows
      → (i : ℕ) (t : LibTxn) → get_elem? txns i ≡ some t
      → (r : TransactionEntry) × In r rows
        × At b.block_hash b.height b.timestamp (some i) none none t r
  block_rows_outer txns b rows h i t g =
      let (piece, (w, inner, s, placed, kind), f) =
        Concats-of (Piece b) 0 txns rows i t (block-Concats 0 txns b rows h) g in
      (
        w,
        f w (subst (In w) (sym s) (inl refl)),
        subst (λ z. At b.block_hash b.height b.timestamp (some z) none none t w) (omega arith)
            placed,
      )

  -- Where a block's transactions convert, each transaction in an atomic wrapper of the block, of the
  -- type of such wrappers, has a row with the wrapper's hash, its index in the wrapper, no index in
  -- the block, and the block's hash, height and time.
  pub block_rows_inner :
      (txns : List LibTxn) (b : BlockEntry) (rows : List TransactionEntry)
      → block_txns_from C 0 txns b params ≡ ok rows
      → (i : ℕ) (t : LibTxn) (ty : ℕ) (wrapped : LibTxns) → get_elem? txns i ≡ some t
      → txn_meta t ≡ atomic_txns_wrapper ty wrapped
      → ty == C.txn_type_atomic_txns_wrapper ≡ true
      → (j : ℕ) (u : LibTxn) → get_elem? (txns_list wrapped) j ≡ some u
      → (r : TransactionEntry) × In r rows
        × At b.block_hash b.height b.timestamp none (some (hash_of t)) (some j) u r
  block_rows_inner txns b rows h i t ty wrapped g e y j u gj =
      let (piece, (w, inner, s, (a1, a2, a3, a4, _, _, _, a8), kind), f) =
        Concats-of (Piece b) 0 txns rows i t (block-Concats 0 txns b rows h) g in
      elim kind [
        | inr (n, _) ↦ cc (n, y, ap (λ z. get_txn_type z == C.txn_type_atomic_txns_wrapper) e)
        | inl (_, (ty2, wrapped2, e2, c)) ↦
            let same : wrapped2 ≡ wrapped = cc (e2, a8, e) in
            let (one, (z, s2, (b1, b2, b3, b4, b5, b6, b7, b8)), f2) =
              Concats-of (InnerPiece w) 0 (txns_list wrapped) inner j u
                (subst (λ v. Concats (InnerPiece w) 0 (txns_list v) inner) same c) gj in
            (
              z,
              f z (subst (In z) (sym s) (inr (f2 z (subst (In z) (sym s2) (inl refl))))),
              (
                b1,
                b2 ∙ a2,
                b3 ∙ a3,
                b4 ∙ a4,
                b5,
                b6 ∙ ap (λ v. some v) a1,
                b7 ∙ ap (λ v. some v) (omega arith),
                b8,
              ),
            )
      ]
