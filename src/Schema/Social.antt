-- ===== src/Schema/Social.antt =====
-- The columns of the tables of entries/*.go: posts, profiles, likes, diamonds, follows. Relation fields, which no code sets, are
-- left out.
use postgres_data_handler.Base.{ℕ, ℤ, Bool, String, List, Bytes, Time}

pub record PostEntry : Type 0 where
  pub post_hash : String
  pub poster_public_key : String
  pub parent_post_hash : String
  pub body : String
  pub image_urls : List String
  pub video_urls : List String
  pub reposted_post_hash : String
  pub is_quoted_repost : Bool
  pub timestamp : Time
  pub is_hidden : Bool
  pub is_pinned : Bool
  pub is_nft : Bool
  pub num_nft_copies : ℕ
  pub num_nft_copies_for_sale : ℕ
  pub num_nft_copies_burned : ℕ
  pub has_unlockable : Bool
  pub nft_royalty_to_creator_basis_points : ℕ
  pub nft_royalty_to_coin_basis_points : ℕ
  pub additional_nft_royalties_to_creators_basis_points : List (String × ℕ)
  pub additional_nft_royalties_to_coins_basis_points : List (String × ℕ)
  pub extra_data : List (String × String)
  pub is_frozen : Bool
  pub badger_key : Bytes

pub record ProfileEntry : Type 0 where
  pub public_key : String
  pub pkid : String
  pub username : String
  pub description : String
  pub profile_pic : Bytes
  pub creator_basis_points : ℕ
  pub coin_watermark_nanos : ℕ
  pub minting_disabled : Bool
  pub deso_locked_nanos : ℕ
  pub cc_coins_in_circulation_nanos : ℕ
  pub dao_coins_in_circulation_nanos_hex : String
  pub dao_coin_minting_disabled : Bool
  pub dao_coin_transfer_restriction_status : ℕ
  pub extra_data : List (String × String)
  pub badger_key : Bytes

pub record LikeEntry : Type 0 where
  pub public_key : String
  pub post_hash : String
  pub badger_key : Bytes

pub record DiamondEntry : Type 0 where
  pub sender_pkid : String
  pub receiver_pkid : String
  pub diamond_level : ℤ
  pub post_hash : String
  pub badger_key : Bytes

pub record FollowEntry : Type 0 where
  pub follower_pkid : String
  pub followed_pkid : String
  pub badger_key : Bytes
