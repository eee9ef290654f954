-- ===== src/Entries.antt =====
-- One module for each file of entries/.
pub mod Batch
pub mod Cached
pub mod Validator
pub mod Transaction
pub mod Block
pub mod StakeReward
pub mod JailedHistory
pub mod LeaderSchedule
pub mod Savepoint
pub mod UtxoOperation
pub mod BlsPkidPair
pub mod Kinds
pub mod PostEntry
pub mod ProfileEntry
pub mod LikeEntry
pub mod DiamondEntry
pub mod FollowEntry
pub mod MessageEntry
pub mod NewMessageEntry
pub mod BalanceEntry
pub mod NftEntry
pub mod NftBidEntry
pub mod DesoBalanceEntry
pub mod DaoCoinLimitOrderEntry
pub mod DerivedKeyEntry
pub mod AccessGroupEntry
pub mod AccessGroupMemberEntry
pub mod UserAssociationEntry
pub mod PostAssociationEntry
pub mod PkidEntry
pub mod StakeEntry
pub mod LockedStakeEntry
pub mod LockedBalanceEntry
pub mod LockupYieldCurvePoint
pub mod EpochEntry
pub mod GlobalParamsEntry
