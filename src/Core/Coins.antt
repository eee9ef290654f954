-- ===== src/Core/Coins.antt =====
-- What entries/*.go reads of the core library's types: balances, NFTs, bids, orders.
use postgres_data_handler.Base.{ℕ, Bool, String, Option, List, Bytes}

pub record LibBalanceEntry : Type 0 where
  pub hodler_pkid : Bytes
  pub creator_pkid : Bytes
  pub balance_nanos : ℕ
  pub has_purchased : Bool

pub record LibNftEntry : Type 0 where
  pub last_owner_pkid : Option Bytes
  pub owner_pkid : Bytes
  pub nft_post_hash : Bytes
  pub serial_number : ℕ
  pub is_for_sale : Bool
  pub min_bid_amount_nanos : ℕ
  pub unlockable_text : Option Bytes
  pub last_accepted_bid_amount_nanos : ℕ
  pub is_pending : Bool
  pub is_buy_now : Bool
  pub buy_now_price_nanos : ℕ
  pub extra_data : List (String × Bytes)

pub record LibNftBidEntry : Type 0 where
  pub bidder_pkid : Bytes
  pub nft_post_hash : Bytes
  pub serial_number : ℕ
  pub bid_amount_nanos : ℕ
  pub accepted_block_height : Option ℕ

pub record LibDesoBalanceEntry : Type 0 where
  pub public_key : Bytes
  pub balance_nanos : ℕ

pub record LibDaoCoinLimitOrderEntry : Type 0 where
  pub order_id : Bytes
  pub transactor_pkid : Bytes
  pub buying_dao_coin_creator_pkid : Bytes
  pub selling_dao_coin_creator_pkid : Bytes
  pub block_height : ℕ
  pub scaled_exchange_rate_coins_to_sell_per_coin_to_buy : ℕ
  pub quantity_to_fill_in_base_units : ℕ
  pub operation_type : ℕ
  pub fill_type : ℕ
