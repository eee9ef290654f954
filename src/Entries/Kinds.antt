-- ===== src/Entries/Kinds.antt =====
-- The tables whose file of entries/ has the common shape, and the switch of
-- `HandleEntryBatch` over them (handler/postgres_data_handler.notgo).
pub mod Laws
use postgres_data_handler.Base.{List}
use postgres_data_handler.Go.{Exec}
use postgres_data_handler.Core.{StateChangeEntry}
use postgres_data_handler.Env.{Env, World}
use postgres_data_handler.Entries.Batch.{Spec}
use postgres_data_handler.Entries.PostEntry
use postgres_data_handler.Entries.ProfileEntry
use postgres_data_handler.Entries.LikeEntry
use postgres_data_handler.Entries.DiamondEntry
use postgres_data_handler.Entries.FollowEntry
use postgres_data_handler.Entries.MessageEntry
use postgres_data_handler.Entries.NewMessageEntry
use postgres_data_handler.Entries.BalanceEntry
use postgres_data_handler.Entries.NftEntry
use postgres_data_handler.Entries.NftBidEntry
use postgres_data_handler.Entries.DesoBalanceEntry
use postgres_data_handler.Entries.DaoCoinLimitOrderEntry
use postgres_data_handler.Entries.DerivedKeyEntry
use postgres_data_handler.Entries.AccessGroupEntry
use postgres_data_handler.Entries.AccessGroupMemberEntry
use postgres_data_handler.Entries.UserAssociationEntry
use postgres_data_handler.Entries.PostAssociationEntry
use postgres_data_handler.Entries.PkidEntry
use postgres_data_handler.Entries.StakeEntry
use postgres_data_handler.Entries.LockedStakeEntry
use postgres_data_handler.Entries.LockedBalanceEntry
use postgres_data_handler.Entries.LockupYieldCurvePoint
use postgres_data_handler.Entries.GlobalParamsEntry

pub data Kind : Type 0 where
  post_entry profile_entry like_entry diamond_entry follow_entry message_entry : Kind
  new_message_entry balance_entry nft_entry nft_bid_entry deso_balance_entry : Kind
  dao_coin_limit_order_entry derived_key_entry access_group_entry access_group_member_entry : Kind
  user_association_entry post_association_entry pkid_entry stake_entry locked_stake_entry : Kind
  locked_balance_entry lockup_yield_curve_point global_params_entry : Kind

abbrev pub spec : (X : Env) → Kind → Spec X
spec X post_entry = PostEntry.spec X
spec X profile_entry = ProfileEntry.spec X
spec X like_entry = LikeEntry.spec X
spec X diamond_entry = DiamondEntry.spec X
spec X follow_entry = FollowEntry.spec X
spec X message_entry = MessageEntry.spec X
spec X new_message_entry = NewMessageEntry.spec X
spec X balance_entry = BalanceEntry.spec X
spec X nft_entry = NftEntry.spec X
spec X nft_bid_entry = NftBidEntry.spec X
spec X deso_balance_entry = DesoBalanceEntry.spec X
spec X dao_coin_limit_order_entry = DaoCoinLimitOrderEntry.spec X
spec X derived_key_entry = DerivedKeyEntry.spec X
spec X access_group_entry = AccessGroupEntry.spec X
spec X access_group_member_entry = AccessGroupMemberEntry.spec X
spec X user_association_entry = UserAssociationEntry.spec X
spec X post_association_entry = PostAssociationEntry.spec X
spec X pkid_entry = PkidEntry.spec X
spec X stake_entry = StakeEntry.spec X
spec X locked_stake_entry = LockedStakeEntry.spec X
spec X locked_balance_entry = LockedBalanceEntry.spec X
spec X lockup_yield_curve_point = LockupYieldCurvePoint.spec X
spec X global_params_entry = GlobalParamsEntry.spec X

unfoldable pub kind_batch_operation :
    (X : Env) → Kind → List StateChangeEntry → X.Params → Exec (World X) Unit
kind_batch_operation X post_entry = PostEntry.post_batch_operation X
kind_batch_operation X profile_entry = ProfileEntry.profile_batch_operation X
kind_batch_operation X like_entry = LikeEntry.like_batch_operation X
kind_batch_operation X diamond_entry = DiamondEntry.diamond_batch_operation X
kind_batch_operation X follow_entry = FollowEntry.follow_batch_operation X
kind_batch_operation X message_entry = MessageEntry.message_batch_operation X
kind_batch_operation X new_message_entry = NewMessageEntry.new_message_batch_operation X
kind_batch_operation X balance_entry = BalanceEntry.balance_batch_operation X
kind_batch_operation X nft_entry = NftEntry.nft_batch_operation X
kind_batch_operation X nft_bid_entry = NftBidEntry.nft_bid_batch_operation X
kind_batch_operation X deso_balance_entry = DesoBalanceEntry.deso_balance_batch_operation X
kind_batch_operation X dao_coin_limit_order_entry =
    DaoCoinLimitOrderEntry.dao_coin_limit_order_batch_operation X
kind_batch_operation X derived_key_entry = DerivedKeyEntry.derived_key_batch_operation X
kind_batch_operation X access_group_entry = AccessGroupEntry.access_group_batch_operation X
kind_batch_operation X access_group_member_entry =
    AccessGroupMemberEntry.access_group_member_batch_operation X
kind_batch_operation X user_association_entry =
    UserAssociationEntry.user_association_batch_operation X
kind_batch_operation X post_association_entry =
    PostAssociationEntry.post_association_batch_operation X
kind_batch_operation X pkid_entry = PkidEntry.pkid_entry_batch_operation X
kind_batch_operation X stake_entry = StakeEntry.stake_batch_operation X
kind_batch_operation X locked_stake_entry = LockedStakeEntry.locked_stake_batch_operation X
kind_batch_operation X locked_balance_entry =
    LockedBalanceEntry.locked_balance_entry_batch_operation X
kind_batch_operation X lockup_yield_curve_point =
    LockupYieldCurvePoint.lockup_yield_curve_point_batch_operation X
kind_batch_operation X global_params_entry = GlobalParamsEntry.global_params_batch_operation X
