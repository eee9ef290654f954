-- ===== src/Entries/UtxoOperation/Bundle/Rewards.antt =====
-- Which stake rewards the loop over a bundle of UTXO operations finds.
use mathlib.Core.Bool.{false≢true}
use postgres_data_handler.Base.{
  ℕ, zero, suc, ◌+◌, ◌==◌, ◌<◌, true, Bool-cases, ◌≡◌, refl, sym, ap, subst, ◌∙◌, ◌↔◌, inl, inr,
  String, Option, none, some, List, [], ◌∷◌, length, get_elem?, In, In-append, In-append_left,
  In-append_right, arith,
}
use postgres_data_handler.Go.{ok}
use postgres_data_handler.Core.Chain.{
  StateChangeMetadata, stake_reward, unjail_validator, other_state_change, UtxoOperation,
  utxo_operation, InnerUtxoOps,
}
use postgres_data_handler.Core.Staking.{LibStakeRewardStateChangeMetadata}
use postgres_data_handler.Schema.Staking.{StakeReward}
use postgres_data_handler.Schema.Chain.{TransactionEntry}
use postgres_data_handler.Env.{Codec}
use postgres_data_handler.Entries.StakeReward.{stake_reward_encoder_to_pg_struct}
use postgres_data_handler.Entries.UtxoOperation.Bundle.{
  Parsed, append_parsed, is_stake_distribution, reward_of, block_rewards_from, parse_from,
  parse_utxo_operation_bundle,
}
use postgres_data_handler.Entries.UtxoOperation.Bundle.Laws.{Part, parse_from-cons, parse_from-nil}

eq_of : (a b : ℕ) → a == b ≡ true → a ≡ b
eq_of a b h = ground arith

self_eq : (a : ℕ) → a == a ≡ true
self_eq a = ground arith

below : {A : Type 0} (xs : List A) (i : ℕ) (x : A) → get_elem? xs i ≡ some x → i < length xs
below [] i x g = cc
below (y ∷ xs) zero x g = omega arith
below (y ∷ xs) (suc i) x g = omega (arith, below xs i x g)

at_length : {A : Type 0} (xs : List A) → get_elem? xs (length xs) ≡ none
at_length [] = refl
at_length (x ∷ xs) = at_length xs

module _ (C : Codec) (params : C.Params) where
  abbrev Any : TransactionEntry → TransactionEntry → Type 0
  Any t r = Unit

  module _ (hash : String) (txns : List TransactionEntry) where
    -- The stake rewards of the operations at an index, as they stand in the bundle.
    abbrev At : ℕ → List (List UtxoOperation) → StakeReward → Type 0
    At jj bundle r =
        (i : ℕ) × (ops : List UtxoOperation) × (get_elem? bundle i ≡ some ops)
        × (jj + i ≡ length txns)
        × In r (block_rewards_from C params hash 0 ops)

    -- The stake rewards of one index: those of the operations of the block itself.
    Part-rewards :
        (jj : ℕ) (ops : List UtxoOperation) (o : Option TransactionEntry) (a : Parsed)
        (r : StakeReward)
        → get_elem? txns jj ≡ o
        → Part C params Any (λ t. tt) (λ t transaction m extra c. tt) hash txns jj ops o a
        → In r a.stake_rewards
          ↔ ((jj ≡ length txns) × In r (block_rewards_from C params hash 0 ops))
    Part-rewards jj ops (some t) a r g (tx, d, (s, u)) =
        (λ m. absurd (subst (In r) s m), λ (e, m). absurd (omega (arith, below txns jj t g, e)))
    Part-rewards jj ops none a r g (e, s) = elim (Bool-cases (jj == length txns)) [
      | inl y ↦ (
        λ m. (eq_of jj (length txns) y, rw y at (subst (In r) s m)),
        λ (f, m). subst (In r) (sym s) (rw y m),
      )
      | inr n ↦ (
        λ m. absurd (rw n at (subst (In r) s m)),
        λ (f, m).
            absurd (false≢true (sym n ∙ ap (λ z. z == length txns) f ∙ self_eq (length txns))),
      )
    ]

    rewards_from :
        (jj : ℕ) (bundle : List (List UtxoOperation)) (p : Parsed) (r : StakeReward)
        → parse_from C params hash txns jj bundle ≡ ok p
        → In r p.stake_rewards ↔ At jj bundle r
    rewards_from jj [] p r h = (
      λ m. absurd (
          subst (λ z. In r z.stake_rewards)
            (parse_from-nil C params Any (λ t. tt) (λ t transaction m extra c. tt) hash txns jj p h)
            m),
      λ (i, ops, g, e, m). cc,
    )
    rewards_from jj (ops ∷ bundle) p r h =
        let (a, q, part, later, e) =
          parse_from-cons C params Any (λ t. tt) (λ t transaction m extra c. tt) hash txns jj ops
            bundle p h in
        let here = Part-rewards jj ops (get_elem? txns jj) a r refl part in
        let more = rewards_from (suc jj) bundle q r later in
        (
          λ m.
              elim (In-append r a.stake_rewards q.stake_rewards
                (subst (λ z. In r z.stake_rewards) (sym e) m)) [
                  | inl n ↦ let (f, k) = here.0 n in (0, ops, refl, omega (arith, f), k)
                  | inr n ↦ let (i, o, g, f, k) = more.0 n in (suc i, o, g, omega (arith, f), k)
                ],
          λ (i, o, g, f, k). subst (λ z. In r z.stake_rewards) e (back a q here more i o g f k),
        )
      where
        back :
            (a q : Parsed)
            → (In r a.stake_rewards
                ↔ ((jj ≡ length txns) × In r (block_rewards_from C params hash 0 ops)))
            → (In r q.stake_rewards ↔ At (suc jj) bundle r)
            → (i : ℕ) (o : List UtxoOperation) → get_elem? (ops ∷ bundle) i ≡ some o
            → jj + i ≡ length txns
            → In r (block_rewards_from C params hash 0 o)
            → In r (append_parsed a q).stake_rewards
        back a q here more zero o g f k =
            let same : ops ≡ o = cc in
            In-append_left r a.stake_rewards q.stake_rewards (
              here.1 (
                omega (arith, f),
                subst (λ z. In r (block_rewards_from C params hash 0 z)) (sym same) k,
              ))
        back a q here more (suc i) o g f k =
            In-append_right r a.stake_rewards q.stake_rewards
              (more.1 (i, o, g, omega (arith, f), k))

  -- A row is among the stake rewards of operations that start at an index if the operation with its
  -- index is a stake distribution, with the metadata of a reward, and the row is encoded from them.
  abbrev pub IsReward : String → ℕ → List UtxoOperation → StakeReward → Type 0
  IsReward hash ii ops r =
      (i : ℕ) × (t : ℕ) × (m : LibStakeRewardStateChangeMetadata) × (nested : InnerUtxoOps)
      × (get_elem? ops i ≡ some (utxo_operation t (stake_reward m) nested))
      × (is_stake_distribution C params t ≡ true)
      × (r ≡ stake_reward_encoder_to_pg_struct C m params hash (ii + i))

  reward_of-In :
      (hash : String) (ii t : ℕ) (m : StateChangeMetadata) (nested : InnerUtxoOps)
      (ops : List UtxoOperation) (r : StakeReward)
      → is_stake_distribution C params t ≡ true
      → In r (reward_of C params hash ii m)
      → IsReward hash ii (utxo_operation t m nested ∷ ops) r
  reward_of-In hash ii t (stake_reward m) nested ops r d (inl e) = (
    0,
    t,
    m,
    nested,
    refl,
    d,
    subst (λ z. r ≡ stake_reward_encoder_to_pg_struct C m params hash z) (omega arith) e,
  )
  reward_of-In hash ii t (stake_reward m) nested ops r d (inr n) = absurd n
  reward_of-In hash ii t (unjail_validator m) nested ops r d n = absurd n
  reward_of-In hash ii t (other_state_change m) nested ops r d n = absurd n

  IsReward-suc :
      (hash : String) (ii : ℕ) (op : UtxoOperation) (ops : List UtxoOperation) (r : StakeReward)
      → IsReward hash (suc ii) ops r
      → IsReward hash ii (op ∷ ops) r
  IsReward-suc hash ii op ops r (i, t, m, nested, g, d, e) = (
    suc i,
    t,
    m,
    nested,
    g,
    d,
    subst (λ z. r ≡ stake_reward_encoder_to_pg_struct C m params hash z) (omega arith) e,
  )

  rewards-IsReward :
      (hash : String) (ii : ℕ) (ops : List UtxoOperation) (r : StakeReward)
      → In r (block_rewards_from C params hash ii ops)
      → IsReward hash ii ops r
  unfolding block_rewards_from
  rewards-IsReward hash ii [] r n = absurd n
  rewards-IsReward hash ii (utxo_operation t m nested ∷ ops) r n =
      elim (Bool-cases (is_stake_distribution C params t)) [
        | inl y ↦ elim (In-append r (reward_of C params hash ii m) _ (rw y at n)) [
          | inl k ↦ reward_of-In hash ii t m nested ops r y k
          | inr k ↦
              IsReward-suc hash ii (utxo_operation t m nested) ops r
                (rewards-IsReward hash (suc ii) ops r k)
        ]
        | inr y ↦
            IsReward-suc hash ii (utxo_operation t m nested) ops r
              (rewards-IsReward hash (suc ii) ops r (rw y at n))
      ]

  rewards_of-IsReward :
      (hash : String) (ii : ℕ) (ops : List UtxoOperation) (r : StakeReward)
      → IsReward hash ii ops r
      → In r (block_rewards_from C params hash ii ops)
  unfolding block_rewards_from
  rewards_of-IsReward hash ii [] r (i, t, m, nested, g, d, e) = cc
  rewards_of-IsReward hash ii (op ∷ ops) r (zero, t, m, nested, g, d, e) =
      let same : utxo_operation t (stake_reward m) nested ≡ op = cc in
      subst (λ z. In r (block_rewards_from C params hash ii (z ∷ ops))) same
        (rw d (
          inl
            (subst (λ z. r ≡ stake_reward_encoder_to_pg_struct C m params hash z) (omega arith) e)))
  rewards_of-IsReward hash ii (utxo_operation u n j ∷ ops) r (suc i, t, m, nested, g, d, e) =
      let later = rewards_of-IsReward hash (suc ii) ops r (
        i,
        t,
        m,
        nested,
        g,
        d,
        subst (λ z. r ≡ stake_reward_encoder_to_pg_struct C m params hash z) (omega arith) e,
      ) in
      elim (Bool-cases (is_stake_distribution C params u)) [
        | inl y ↦ rw y (In-append_right r (reward_of C params hash ii n) _ later)
        | inr y ↦ rw y later
      ]

  -- The rewards of a parsed bundle are those of the entry behind the last transaction.
  pub bundle-IsReward :
      (hash : String) (txns : List TransactionEntry) (bundle : List (List UtxoOperation))
      (p : Parsed) (r : StakeReward)
      → parse_utxo_operation_bundle C params bundle txns hash ≡ ok p
      → In r p.stake_rewards ↔ (
          (ops : List UtxoOperation) × (get_elem? bundle (length txns) ≡ some ops)
          × IsReward hash 0 ops r)
  unfolding parse_utxo_operation_bundle
  bundle-IsReward hash txns bundle p r h = (
    λ m.
        let (i, ops, g, e, n) = (rewards_from hash txns 0 bundle p r h).0 m in
        (
          ops,
          subst (λ z. get_elem? bundle z ≡ some ops) (omega (arith, e)) g,
          rewards-IsReward hash 0 ops r n,
        ),
    λ (ops, g, q).
        (rewards_from hash txns 0 bundle p r h).1
          (length txns, ops, g, omega arith, rewards_of-IsReward hash 0 ops r q),
  )

  -- A bundle with an entry for each transaction and no more has no rewards.
  pub no_rewards :
      (hash : String) (txns : List TransactionEntry) (bundle : List (List UtxoOperation))
      (p : Parsed) (r : StakeReward)
      → parse_utxo_operation_bundle C params bundle txns hash ≡ ok p
      → length txns ≡ length bundle
      → ¬ In r p.stake_rewards
  no_rewards hash txns bundle p r h e m =
      let (ops, g, q) = (bundle-IsReward hash txns bundle p r h).0 m in
      absurd (omega (arith, e, below bundle (length txns) ops g))
