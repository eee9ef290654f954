-- ===== src/Tests/Handlers.antt =====
-- The theorem on the web handler, at a batch that opens the web socket.
use postgres_data_handler.Main.{Viper, get_config_values, config_values_set}
use postgres_data_handler.Base.{
  ltb, ◌≡◌, ◌≢◌, pos, ◌⊎◌, refl, none, some, true, false, String, List, [], ◌∷◌,
}
use text.Mathlib.Text as Text
use postgres_data_handler.Go.{ok, foreign}
use postgres_data_handler.Core.{StateChangeEntry, insert_operation, Encoder}
use postgres_data_handler.Handler.{
  Network, Running, new_web_handler, establish, write, send_batch_over_web_socket, route,
  handle_entry_batch,
}
use postgres_data_handler.Handler.Connection.{IsContacted, connection_kept}
use postgres_data_handler.Handler.Laws.{Posted, Written, batch_delivered}

-- Every call succeeds; the state is the messages that have arrived.
abbrev reliable : Network
reliable = record {
  Conn = Unit;
  State = List String;
  marshal = λ es. ok "entries";
  post = λ url json s. (ok 200, json ∷ s);
  dial = λ url s. (some tt, none, s);
  write_message = λ c json s. (none, json ∷ s);
}

abbrev entry : StateChangeEntry
entry = record {
  operation_type = insert_operation;
  key_bytes = 1 ∷ [];
  encoder = Encoder.pkid (2 ∷ []);
  encoder_bytes = 2 ∷ [];
  block = none;
  block_height = 12;
}

unfoldable socket : Running reliable
socket = record { handler = new_web_handler reliable "" true "ws://host" 10; net = [] }

socket-ok : (handle_entry_batch reliable (entry ∷ []) socket).0 ≡ ok tt
unfolding socket new_web_handler handle_entry_batch route send_batch_over_web_socket establish write
socket-ok = refl

-- One message has arrived.
socket_net : (handle_entry_batch reliable (entry ∷ []) socket).1.net ≡ "entries" ∷ []
unfolding socket new_web_handler handle_entry_batch route send_batch_over_web_socket establish write
socket_net = refl

batch_delivered_example :
    ((ltb 12 socket.handler.min_block_height ≡ true)
      × ((handle_entry_batch reliable (entry ∷ []) socket).1 ≡ socket))
    ⊎ ((Text.◌==◌ socket.handler.endpoint_url "" ≡ false)
        × Posted reliable (entry ∷ []) socket (handle_entry_batch reliable (entry ∷ []) socket).1)
    ⊎ ((Text.◌==◌ socket.handler.endpoint_url "" ≡ true)
        × (socket.handler.use_web_socket ≡ true)
        × Written reliable (entry ∷ []) socket (handle_entry_batch reliable (entry ∷ []) socket).1)
batch_delivered_example = batch_delivered reliable entry [] socket socket-ok

-- Every write fails.
abbrev broken : Network
broken = record reliable { write_message = λ c json s. (some (foreign 0), s) }

abbrev connected : Running broken
connected = record {
  handler = record {
    endpoint_url = "";
    use_web_socket = true;
    ws_url = "ws://host";
    ws_conn = some tt;
    min_block_height = 10;
  };
  net = [];
}

connection_kept_example :
    IsContacted broken
      (entry ∷ [])
      connected
      tt
      (handle_entry_batch broken (entry ∷ []) connected).1
connection_kept_example = connection_kept broken entry [] connected tt refl

abbrev no_settings : Viper
no_settings = record {
  get_string = λ s. "";
  get_uint64 = λ s. 0;
  get_int = λ s. pos 0;
  get_bool = λ s. false;
}

config_values_set_example :
    ((get_config_values no_settings).0.state_change_dir ≢ "")
    × ((get_config_values no_settings).0.consumer_progress_dir ≢ "")
    × ((get_config_values no_settings).0.batch_bytes ≢ 0)
    × ((get_config_values no_settings).0.thread_limit ≢ pos 0)
    × ((get_config_values no_settings).1
        ≡ ("state-change-dir", (get_config_values no_settings).0.state_change_dir) ∷ [])
config_values_set_example = config_values_set no_settings
