-- ===== src/Main.antt =====
-- main.go: the configuration and the choice of the network's parameters. Flags, the profiler and the
-- start of the consumer are calls of libraries.
use text.Mathlib.Text as Text
use text.Mathlib.TextEquality.{eq_iff}
use postgres_data_handler.Base.{
  ℕ, zero, suc, ◌==◌, ◌≡◌, ◌≢◌, refl, Bool, Bool-cases, inl, inr, String, List, [], ◌∷◌, ℤ, pos,
  negsuc, arith, if◌then◌else◌,
}

-- What viper reads of the environment and the file .env.
pub record Viper : Type 0 where
  pub get_string : String → String
  pub get_uint64 : String → ℕ
  pub get_int : String → ℤ
  pub get_bool : String → Bool

pub record ConfigValues : Type 0 where
  pub state_change_dir : String
  pub consumer_progress_dir : String
  pub batch_bytes : ℕ
  pub thread_limit : ℤ
  pub log_queries : Bool
  pub explorer_statistics : Bool
  pub datadog_profiler : Bool
  pub is_testnet : Bool
  pub is_regtest : Bool
  pub is_accelerated_regtest : Bool
  pub sync_mempool : Bool

-- `if s == "" { s = … }`
abbrev or_default : String → String → String
or_default s default = if Text.◌==◌ s "" then default else s

abbrev int_or_default : ℤ → ℤ → ℤ
int_or_default (pos zero) default = default
int_or_default (pos (suc n)) default = pos (suc n)
int_or_default (negsuc n) default = negsuc n

-- The values, and what `viper.Set` is called with on the way.
unfoldable pub get_config_values : Viper → ConfigValues × List (String × String)
get_config_values v =
    let state_change_dir = or_default (v.get_string "STATE_CHANGE_DIR") "/tmp/state-changes" in
    let consumer_progress_dir =
      or_default (v.get_string "CONSUMER_PROGRESS_DIR") "/tmp/consumer-progress" in
    let batch_bytes = v.get_uint64 "BATCH_BYTES" in
    (
      record {
        state_change_dir = state_change_dir;
        consumer_progress_dir = consumer_progress_dir;
        batch_bytes = if batch_bytes == 0 then 5000000 else batch_bytes;
        thread_limit = int_or_default (v.get_int "THREAD_LIMIT") (pos 25);
        log_queries = v.get_bool "LOG_QUERIES";
        explorer_statistics = v.get_bool "CALCULATE_EXPLORER_STATISTICS";
        datadog_profiler = v.get_bool "DATADOG_PROFILER";
        is_testnet = v.get_bool "IS_TESTNET";
        is_regtest = v.get_bool "REGTEST";
        is_accelerated_regtest = v.get_bool "ACCELERATED_REGTEST";
        sync_mempool = v.get_bool "SYNC_MEMPOOL";
      },
      ("state-change-dir", state_change_dir) ∷ [],
    )

module _ {Params : Type 0} (mainnet testnet : Params)
    (enable_regtest : Bool → Params → Params) where
  -- `lib.GlobalDeSoParams`, and the parameters of the handler.
  unfoldable pub choose_params : ConfigValues → Params
  choose_params c =
      if c.is_testnet
      then (if c.is_regtest then enable_regtest c.is_accelerated_regtest testnet else testnet)
      else mainnet

or_default-set : (s default : String) → default ≢ "" → or_default s default ≢ ""
or_default-set s default n e = elim (Bool-cases (Text.◌==◌ s "")) [
  | inl y ↦ n (rw y at e)
  | inr f ↦ cc (f, (eq_iff s "").1 (rw f at e))
]

int_or_default-set : (i : ℤ) (n : ℕ) → int_or_default i (pos (suc n)) ≢ pos 0
int_or_default-set (pos zero) n e = cc
int_or_default-set (pos (suc m)) n e = cc
int_or_default-set (negsuc m) n e = cc

number-set : (n d : ℕ) → d ≢ 0 → (if n == 0 then d else n) ≢ 0
number-set n d h = ground arith

-- Whatever the environment says, no directory of the configuration is empty, a batch is of some
-- bytes, the limit of threads is not zero, and the core library's flag is set once, to the
-- directory of the state changes that the consumer gets.
pub config_values_set :
    (v : Viper)
    → ((get_config_values v).0.state_change_dir ≢ "")
      × ((get_config_values v).0.consumer_progress_dir ≢ "")
      × ((get_config_values v).0.batch_bytes ≢ 0)
      × ((get_config_values v).0.thread_limit ≢ pos 0)
      × ((get_config_values v).1
          ≡ ("state-change-dir", (get_config_values v).0.state_change_dir) ∷ [])
unfolding get_config_values
config_values_set v = (
  or_default-set (v.get_string "STATE_CHANGE_DIR") "/tmp/state-changes" (λ e. cc),
  or_default-set (v.get_string "CONSUMER_PROGRESS_DIR") "/tmp/consumer-progress" (λ e. cc),
  number-set (v.get_uint64 "BATCH_BYTES") 5000000 (λ e. omega (arith, e)),
  int_or_default-set (v.get_int "THREAD_LIMIT") 24,
  refl,
)
