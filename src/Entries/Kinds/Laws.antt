-- ===== src/Entries/Kinds/Laws.antt =====
-- Every table of the common shape: what a batch of state changes leaves in the database.
use postgres_data_handler.Base.{
  ◌≡◌, sym, subst, ap, ◌∙◌, ◌≢◌, ◌↔◌, ◌⊎◌, inl, inr, true, false, some, List, ◌∷◌, In, Bytes,
}
use postgres_data_handler.Go.{ok}
use postgres_data_handler.Core.{StateChangeEntry, is_delete, keys_of}
use postgres_data_handler.Schema.{Table, Row, badger_key_of}
use postgres_data_handler.Env.{Env, World}
use postgres_data_handler.Env.Lawful.{IsDatabase, IsConsumer, columns}
use postgres_data_handler.Entries.Batch.{batch}
use postgres_data_handler.Entries.Batch.Laws as Batch
use postgres_data_handler.Entries.Batch.Laws.{
  batch_stores, batch_keeps, batch_only, batch_failed, batch_frame, batch_deletes,
}
use postgres_data_handler.Entries.Kinds.{Kind, spec, kind_batch_operation}
use postgres_data_handler.Entries.PostEntry
use postgres_data_handler.Entries.ProfileEntry
use postgres_data_handler.Entries.LikeEntry
use postgres_data_handler.Entries.DiamondEntry
use postgres_data_handler.Entries.FollowEntry
use postgres_data_handler.Entries.MessageEntry
use postgres_data_handler.Entries.NewMessageEntry
use postgres_data_handler.Entries.BalanceEntry
use postgres_data_handler.Entries.NftEntry
use postgres_data_handler.Entries.NftBidEntry
use postgres_data_handler.Entries.DesoBalanceEntry
use postgres_data_handler.Entries.DaoCoinLimitOrderEntry
use postgres_data_handler.Entries.DerivedKeyEntry
use postgres_data_handler.Entries.AccessGroupEntry
use postgres_data_handler.Entries.AccessGroupMemberEntry
use postgres_data_handler.Entries.UserAssociationEntry
use postgres_data_handler.Entries.PostAssociationEntry
use postgres_data_handler.Entries.PkidEntry
use postgres_data_handler.Entries.StakeEntry
use postgres_data_handler.Entries.LockedStakeEntry
use postgres_data_handler.Entries.LockedBalanceEntry
use postgres_data_handler.Entries.LockupYieldCurvePoint
use postgres_data_handler.Entries.GlobalParamsEntry

kind_batch :
    (X : Env) (k : Kind) (es : List StateChangeEntry) (params : X.Params)
    → kind_batch_operation X k es params ≡ batch X (spec X k) es params
unfolding kind_batch_operation
kind_batch X Kind.post_entry es params = PostEntry.batch_lem X es params
kind_batch X Kind.profile_entry es params = ProfileEntry.batch_lem X es params
kind_batch X Kind.like_entry es params = LikeEntry.batch_lem X es params
kind_batch X Kind.diamond_entry es params = DiamondEntry.batch_lem X es params
kind_batch X Kind.follow_entry es params = FollowEntry.batch_lem X es params
kind_batch X Kind.message_entry es params = MessageEntry.batch_lem X es params
kind_batch X Kind.new_message_entry es params = NewMessageEntry.batch_lem X es params
kind_batch X Kind.balance_entry es params = BalanceEntry.batch_lem X es params
kind_batch X Kind.nft_entry es params = NftEntry.batch_lem X es params
kind_batch X Kind.nft_bid_entry es params = NftBidEntry.batch_lem X es params
kind_batch X Kind.deso_balance_entry es params = DesoBalanceEntry.batch_lem X es params
kind_batch X Kind.dao_coin_limit_order_entry es params =
    DaoCoinLimitOrderEntry.batch_lem X es params
kind_batch X Kind.derived_key_entry es params = DerivedKeyEntry.batch_lem X es params
kind_batch X Kind.access_group_entry es params = AccessGroupEntry.batch_lem X es params
kind_batch X Kind.access_group_member_entry es params = AccessGroupMemberEntry.batch_lem X es params
kind_batch X Kind.user_association_entry es params = UserAssociationEntry.batch_lem X es params
kind_batch X Kind.post_association_entry es params = PostAssociationEntry.batch_lem X es params
kind_batch X Kind.pkid_entry es params = PkidEntry.batch_lem X es params
kind_batch X Kind.stake_entry es params = StakeEntry.batch_lem X es params
kind_batch X Kind.locked_stake_entry es params = LockedStakeEntry.batch_lem X es params
kind_batch X Kind.locked_balance_entry es params = LockedBalanceEntry.batch_lem X es params
kind_batch X Kind.lockup_yield_curve_point es params = LockupYieldCurvePoint.batch_lem X es params
kind_batch X Kind.global_params_entry es params = GlobalParamsEntry.batch_lem X es params

-- The row that is made of an entry has the entry's key.
pub badger_key_of-row :
    (X : Env) (k : Kind) (params : X.Params) (e : StateChangeEntry) (row : Row)
    → (spec X k).to_row params e ≡ ok row
    → badger_key_of row ≡ some e.key_bytes
badger_key_of-row X Kind.post_entry params e row h = PostEntry.badger_key-to_row X params e row h
badger_key_of-row X Kind.profile_entry params e row h =
    ProfileEntry.badger_key-to_row X params e row h
badger_key_of-row X Kind.like_entry params e row h = LikeEntry.badger_key-to_row X params e row h
badger_key_of-row X Kind.diamond_entry params e row h =
    DiamondEntry.badger_key-to_row X params e row h
badger_key_of-row X Kind.follow_entry params e row h =
    FollowEntry.badger_key-to_row X params e row h
badger_key_of-row X Kind.message_entry params e row h =
    MessageEntry.badger_key-to_row X params e row h
badger_key_of-row X Kind.new_message_entry params e row h =
    NewMessageEntry.badger_key-to_row X params e row h
badger_key_of-row X Kind.balance_entry params e row h =
    BalanceEntry.badger_key-to_row X params e row h
badger_key_of-row X Kind.nft_entry params e row h = NftEntry.badger_key-to_row X params e row h
badger_key_of-row X Kind.nft_bid_entry params e row h =
    NftBidEntry.badger_key-to_row X params e row h
badger_key_of-row X Kind.deso_balance_entry params e row h =
    DesoBalanceEntry.badger_key-to_row X params e row h
badger_key_of-row X Kind.dao_coin_limit_order_entry params e row h =
    DaoCoinLimitOrderEntry.badger_key-to_row X params e row h
badger_key_of-row X Kind.derived_key_entry params e row h =
    DerivedKeyEntry.badger_key-to_row X params e row h
badger_key_of-row X Kind.access_group_entry params e row h =
    AccessGroupEntry.badger_key-to_row X params e row h
badger_key_of-row X Kind.access_group_member_entry params e row h =
    AccessGroupMemberEntry.badger_key-to_row X params e row h
badger_key_of-row X Kind.user_association_entry params e row h =
    UserAssociationEntry.badger_key-to_row X params e row h
badger_key_of-row X Kind.post_association_entry params e row h =
    PostAssociationEntry.badger_key-to_row X params e row h
badger_key_of-row X Kind.pkid_entry params e row h = PkidEntry.badger_key-to_row X params e row h
badger_key_of-row X Kind.stake_entry params e row h = StakeEntry.badger_key-to_row X params e row h
badger_key_of-row X Kind.locked_stake_entry params e row h =
    LockedStakeEntry.badger_key-to_row X params e row h
badger_key_of-row X Kind.locked_balance_entry params e row h =
    LockedBalanceEntry.badger_key-to_row X params e row h
badger_key_of-row X Kind.lockup_yield_curve_point params e row h =
    LockupYieldCurvePoint.badger_key-to_row X params e row h
badger_key_of-row X Kind.global_params_entry params e row h =
    GlobalParamsEntry.badger_key-to_row X params e row h

module _ (X : Env) (k : Kind) (params : X.Params) (e : StateChangeEntry)
    (es : List StateChangeEntry) (w : World X) where
  abbrev pub Ok : Type 0
  Ok = (kind_batch_operation X k (e ∷ es) params w).0 ≡ ok tt

  abbrev pub new : X.State
  new = (kind_batch_operation X k (e ∷ es) params w).1.database

  Ok-batch : Ok ≡ Batch.Ok X (spec X k) params e es w
  Ok-batch = ap (λ m. (m w).0 ≡ ok tt) (kind_batch X k (e ∷ es) params)

  new-batch : Batch.new X (spec X k) params e es w ≡ new
  new-batch = sym (ap (λ m. (m w).1.database) (kind_batch X k (e ∷ es) params))

  module _ (D : IsDatabase X) (K : IsConsumer X) where
    -- After an insert or upsert batch of any kind that returns nil, the table has, for each entry of
    -- the batch, a row under the entry's key that is converted from an entry of the batch.
    pub upsert_stores :
        is_delete e.operation_type ≡ false
        → Ok
        → (x : StateChangeEntry) → In x (e ∷ es)
        → (u : StateChangeEntry) × In u (e ∷ es)
          × (row : Row) × ((spec X k).to_row params u ≡ ok row)
          × (badger_key_of row ≡ some x.key_bytes)
          × D.Stored new (spec X k).table row
    upsert_stores d h x m =
        let (u, i, q, row, r, s) =
          batch_stores X D K (spec X k) params e es w d (rw Ok-batch at h) x m in
        (
          u,
          i,
          row,
          r,
          badger_key_of-row X k params u row r ∙ ap some q,
          subst (λ z. D.Stored z (spec X k).table row) new-batch s,
        )

    -- After an insert or upsert batch that returns nil, a row of the table was there before or is
    -- converted from an entry of the batch.
    pub upsert_adds_only :
        is_delete e.operation_type ≡ false
        → Ok
        → (r : Row) → D.Stored new (spec X k).table r
        → D.Stored w.database (spec X k).table r
          ⊎ ((x : StateChangeEntry) × In x (e ∷ es) × ((spec X k).to_row params x ≡ ok r))
    upsert_adds_only d h r now =
        batch_only X D K (spec X k) params e es w d (rw Ok-batch at h) r
          (subst (λ z. D.Stored z (spec X k).table r) (sym new-batch) now)

    -- An insert or upsert batch that returns nil keeps every row of the table that no row converted
    -- from the batch agrees with on the columns of the conflict target.
    pub upsert_keeps_others :
        is_delete e.operation_type ≡ false
        → Ok
        → (r : Row) → D.Stored w.database (spec X k).table r
        → ((x : StateChangeEntry) (row : Row)
            → In x (e ∷ es)
            → (spec X k).to_row params x ≡ ok row
            → columns (spec X k).target row ≢ columns (spec X k).target r)
        → D.Stored new (spec X k).table r
    upsert_keeps_others d h r old apart =
        subst (λ z. D.Stored z (spec X k).table r) new-batch
          (batch_keeps X D K (spec X k) params e es w d (rw Ok-batch at h) r old apart)

    -- After a delete batch of any kind that returns nil, a row with a badger key is in the table if
    -- and only if it was there before and its key is not the key of an entry of the batch.
    pub delete_exact :
        is_delete e.operation_type ≡ true
        → Ok
        → (r : Row) (key : Bytes) → badger_key_of r ≡ some key
        → D.Stored new (spec X k).table r
          ↔ (D.Stored w.database (spec X k).table r × ¬ In key (keys_of (e ∷ es)))
    delete_exact d h r key b =
        subst
          (λ z.
            D.Stored z (spec X k).table r
            ↔ (D.Stored w.database (spec X k).table r × ¬ In key (keys_of (e ∷ es))))
          new-batch (batch_deletes X D K (spec X k) params e es w d (rw Ok-batch at h) r key b)

    -- A batch of any kind leaves a table as it was if it does not return nil, or if the table is
    -- another than the one of its kind.
    pub batch_atomic :
        (t : Table) (r : Row)
        → ((¬ Ok) ⊎ (t ≢ (spec X k).table))
        → D.Stored new t r ↔ D.Stored w.database t r
    batch_atomic t r (inl h) =
        subst (λ z. D.Stored z t r ↔ D.Stored w.database t r) new-batch
          (batch_failed X D K (spec X k) params e es w (λ y. h (rw Ok-batch y)) t r)
    batch_atomic t r (inr apart) =
        subst (λ z. D.Stored z t r ↔ D.Stored w.database t r) new-batch
          (batch_frame X D K (spec X k) params e es w t apart r)
