-- ===== src/Entries/Block/Signers.antt =====
-- The signers of a block that entries/block.go stores.
use postgres_data_handler.Base.{
  ℕ, zero, suc, ◌+◌, ◌≡◌, ◌↔◌, refl, sym, ◌∙◌, ap, subst, inl, inr, Bool, true, false, String, some,
  List, [], ◌∷◌, In, get_elem?, Bytes, arith,
}
use postgres_data_handler.Core.Chain.{
  LibBlock, Interface, value, LibQuorumCertificate, LibAggregatedSignature,
}
use postgres_data_handler.Schema.Chain.{BlockSigner}
use postgres_data_handler.Env.{Codec}
use postgres_data_handler.Entries.Block.{
  signers_from, aggregated_signers, qc_signers, block_encoder_to_pg_struct,
}

abbrev signer : String → ℕ → BlockSigner
signer h n = record { block_hash = h; signer_index = n }

signers_sound :
    (h : String) (n : ℕ) (bits : List Bool) (r : BlockSigner)
    → In r (signers_from h n bits)
    → (i : ℕ) × (r ≡ signer h (n + i)) × (get_elem? bits i ≡ some true)
unfolding signers_from
signers_sound h n [] r m = absurd m
signers_sound h n (true ∷ bits) r (inl e) = (0, e ∙ ap (signer h) (omega arith), refl)
signers_sound h n (true ∷ bits) r (inr m) =
    let (i, e, g) = signers_sound h (suc n) bits r m in (suc i, e ∙ ap (signer h) (omega arith), g)
signers_sound h n (false ∷ bits) r m =
    let (i, e, g) = signers_sound h (suc n) bits r m in (suc i, e ∙ ap (signer h) (omega arith), g)

signers_complete :
    (h : String) (n : ℕ) (bits : List Bool) (i : ℕ)
    → get_elem? bits i ≡ some true
    → In (signer h (n + i)) (signers_from h n bits)
unfolding signers_from
signers_complete h n [] i g = cc
signers_complete h n (true ∷ bits) zero g = inl (ap (signer h) (omega arith))
signers_complete h n (false ∷ bits) zero g = cc
signers_complete h n (true ∷ bits) (suc i) g = inr (
    subst (λ z. In (signer h z) (signers_from h (suc n) bits)) (omega arith)
      (signers_complete h (suc n) bits i g))
signers_complete h n (false ∷ bits) (suc i) g =
    subst (λ z. In (signer h z) (signers_from h (suc n) bits)) (omega arith)
      (signers_complete h (suc n) bits i g)

signers_of :
    (h : String) (qc : Interface LibQuorumCertificate) (c : LibQuorumCertificate)
    (s : LibAggregatedSignature)
    → qc ≡ value c
    → c.aggregated_signature ≡ value s
    → qc_signers h qc ≡ signers_from h 0 s.signers_list
unfolding qc_signers aggregated_signers
signers_of h qc c s p q = ap (qc_signers h) p ∙ ap (aggregated_signers h) q

module _ (C : Codec) where
  -- The signers of a block with an aggregated signature are its hash with each index whose bit in
  -- the signers' list is set, and no others.
  pub block_signers_exact :
      (block : LibBlock) (key_bytes : Bytes) (params : C.Params) (c : LibQuorumCertificate)
      (s : LibAggregatedSignature)
      → block.header.qc ≡ value c
      → c.aggregated_signature ≡ value s
      → (r : BlockSigner)
      → In r (block_encoder_to_pg_struct C block key_bytes params).1 ↔ (
          (r.block_hash ≡ C.hex (C.block_hash block))
          × (get_elem? s.signers_list r.signer_index ≡ some true))
  unfolding block_encoder_to_pg_struct
  block_signers_exact block key_bytes params c s p q r =
      let h = C.hex (C.block_hash block) in
      let same = signers_of h block.header.qc c s p q in
      (
        λ m.
            let (i, e, g) = signers_sound h 0 s.signers_list r (subst (In r) same m) in
            let at_i : r.signer_index ≡ i = ap (λ z. z.signer_index) e ∙ omega arith in
            (
              ap (λ z. z.block_hash) e,
              subst (λ z. get_elem? s.signers_list z ≡ some true) (sym at_i) g,
            ),
        λ (e, g). subst (In r) (sym same) (
            subst (λ z. In z (signers_from h 0 s.signers_list))
              (ap (signer h) (omega arith) ∙ ap (λ z. signer z r.signer_index) (sym e))
              (signers_complete h 0 s.signers_list r.signer_index g)),
      )
