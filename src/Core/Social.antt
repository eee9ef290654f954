-- ===== src/Core/Social.antt =====
-- What entries/*.go reads of the core library's types: posts, profiles, likes, diamonds, follows.
use postgres_data_handler.Base.{ℕ, ℤ, Bool, String, Option, List, Bytes}

pub record LibPostEntry : Type 0 where
  pub post_hash : Bytes
  pub poster_public_key : Bytes
  pub parent_stake_id : Bytes
  pub reposted_post_hash : Option Bytes
  pub is_quoted_repost : Bool
  pub timestamp_nanos : ℕ
  pub is_hidden : Bool
  pub is_pinned : Bool
  pub is_nft : Bool
  pub num_nft_copies : ℕ
  pub num_nft_copies_for_sale : ℕ
  pub num_nft_copies_burned : ℕ
  pub has_unlockable : Bool
  pub nft_royalty_to_creator_basis_points : ℕ
  pub nft_royalty_to_coin_basis_points : ℕ
  pub post_extra_data : List (String × Bytes)
  pub is_frozen : Bool
  pub body : Option Bytes
  pub additional_nft_royalties_to_creators_basis_points : List (Bytes × ℕ)
  pub additional_nft_royalties_to_coins_basis_points : List (Bytes × ℕ)

pub record LibProfileEntry : Type 0 where
  pub public_key : Bytes
  pub username : Bytes
  pub description : Bytes
  pub profile_pic : Bytes
  pub creator_coin_entry_creator_basis_points : ℕ
  pub creator_coin_entry_coin_watermark_nanos : ℕ
  pub creator_coin_entry_minting_disabled : Bool
  pub creator_coin_entry_deso_locked_nanos : ℕ
  pub dao_coin_entry_minting_disabled : Bool
  pub dao_coin_entry_transfer_restriction_status : ℕ
  pub extra_data : List (String × Bytes)
  pub creator_coin_entry_coins_in_circulation_nanos : ℕ
  pub dao_coin_entry_coins_in_circulation_nanos : ℕ

pub record LibLikeEntry : Type 0 where
  pub liker_pub_key : Bytes
  pub liked_post_hash : Bytes

pub record LibDiamondEntry : Type 0 where
  pub sender_pkid : Bytes
  pub receiver_pkid : Bytes
  pub diamond_level : ℤ
  pub diamond_post_hash : Bytes

pub record LibFollowEntry : Type 0 where
  pub follower_pkid : Bytes
  pub followed_pkid : Bytes
