-- ===== src/Schema/Coins.antt =====
-- The columns of the tables of entries/*.go: balances, NFTs, bids, orders. Relation fields, which no code sets, are
-- left out.
use postgres_data_handler.Base.{ℕ, Bool, String, List, Bytes}

pub record BalanceEntry : Type 0 where
  pub hodler_pkid : String
  pub creator_pkid : String
  pub balance_nanos : ℕ
  pub has_purchased : Bool
  pub is_dao_coin : Bool
  pub badger_key : Bytes

pub record NftEntry : Type 0 where
  pub last_owner_pkid : String
  pub owner_pkid : String
  pub nft_post_hash : String
  pub serial_number : ℕ
  pub is_for_sale : Bool
  pub min_bid_amount_nanos : ℕ
  pub unlockable_text : String
  pub last_accepted_bid_amount_nanos : ℕ
  pub is_pending : Bool
  pub is_buy_now : Bool
  pub buy_now_price_nanos : ℕ
  pub extra_data : List (String × String)
  pub badger_key : Bytes

pub record NftBidEntry : Type 0 where
  pub bidder_pkid : String
  pub nft_post_hash : String
  pub serial_number : ℕ
  pub bid_amount_nanos : ℕ
  pub accepted_block_height : ℕ
  pub badger_key : Bytes

pub record DesoBalanceEntry : Type 0 where
  pub public_key : String
  pub balance_nanos : ℕ
  pub badger_key : Bytes

pub record DaoCoinLimitOrderEntry : Type 0 where
  pub order_id : String
  pub transactor_pkid : String
  pub buying_dao_coin_creator_pkid : String
  pub selling_dao_coin_creator_pkid : String
  pub scaled_exchange_rate_coins_to_sell_per_coin_to_buy_hex : String
  pub quantity_to_fill_in_base_units_hex : String
  pub operation_type : ℕ
  pub fill_type : ℕ
  pub block_height : ℕ
  pub is_dao_coin_const : Bool
  pub badger_key : Bytes
