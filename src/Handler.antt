-- ===== src/Handler.antt =====
-- handler/web_data_handler.go: the handler that sends batches over HTTP or a web socket.
pub mod Laws
pub mod Connection
use postgres_data_handler.Base.{
  ℕ, ltb, ◌==◌, Bool, String, Option, none, some, List, [], ◌∷◌, not, if◌then◌else◌,
}
use text.Mathlib.Text as Text
use postgres_data_handler.Go.{
  Error, errorf, Result, ok, panic, nil_dereference, Exec, pure, fail, lift, wrap, return_error,
  ◌>>=◌, ◌>>◌,
}
use postgres_data_handler.Core.{StateChangeEntry}

-- What the handler calls: `json.Marshal`, `http.Post` up to the status code of its response,
-- `Dial`, and `WriteMessage` of a connection.
pub record Network : Type 1 where
  pub Conn : Type 0
  pub State : Type 0
  pub marshal : List StateChangeEntry → Result String
  pub post : String → String → State → Result ℕ × State
  pub dial : String → State → Option Conn × Option Error × State
  pub write_message : Conn → String → State → Option Error × State

pub record WebHandler (N : Network) : Type 0 where
  pub endpoint_url : String
  pub use_web_socket : Bool
  pub ws_url : String
  pub ws_conn : Option N.Conn
  pub min_block_height : ℕ

-- The handler and the network.
pub record Running (N : Network) : Type 0 where
  pub handler : WebHandler N
  pub net : N.State

module _ (N : Network) where
  unfoldable pub new_web_handler : String → Bool → String → ℕ → WebHandler N
  new_web_handler endpoint_url use_web_socket ws_url min_block_height = record {
    endpoint_url = endpoint_url;
    use_web_socket = use_web_socket;
    ws_url = ws_url;
    ws_conn = none;
    min_block_height = min_block_height;
  }

  unfoldable pub http_post : String → Exec (Running N) ℕ
  http_post json_data w =
      let (r, s) = N.post w.handler.endpoint_url json_data w.net in (r, record w { net = s })

  -- `if resp.StatusCode != http.StatusOK { … }`
  unfoldable pub check_status : ℕ → Exec (Running N) Unit
  check_status status_code =
      if status_code == 200
      then pure tt
      else fail (errorf "WebHandler.pushBatchToEndpoint: unexpected HTTP status code %d")

  unfoldable pub push_batch_to_endpoint : List StateChangeEntry → Exec (Running N) Unit
  push_batch_to_endpoint batched_entries = do
    json_data ←
        wrap "WebHandler.pushBatchToEndpoint: failed to marshal batch"
          (lift (N.marshal batched_entries))
    status_code ←
        wrap "WebHandler.pushBatchToEndpoint: failed to send HTTP POST to %s" (http_post json_data)
    check_status status_code

  -- `if wh.wsConn == nil { … }`
  unfoldable pub establish : Option N.Conn → Exec (Running N) Unit
  establish (some c) w = (ok tt, w)
  establish none w =
      let (c, e, s) = N.dial w.handler.ws_url w.net in
      (return_error e, record { handler = record w.handler { ws_conn = c }; net = s })

  unfoldable pub write : String → Option N.Conn → Exec (Running N) Unit
  write json_data none w = (panic nil_dereference, w)
  write json_data (some c) w =
      let (e, s) = N.write_message c json_data w.net in (return_error e, record w { net = s })

  unfoldable pub send_batch_over_web_socket : List StateChangeEntry → Exec (Running N) Unit
  send_batch_over_web_socket batched_entries = do
    wrap "WebHandler.sendBatchOverWebSocket: failed to establish connection to %s"
        (λ w. establish w.handler.ws_conn w)
    json_data ←
        wrap "WebHandler.sendBatchOverWebSocket: failed to marshal batch"
          (lift (N.marshal batched_entries))
    wrap "WebHandler.sendBatchOverWebSocket: failed to write websocket message"
        (λ w. write json_data w.handler.ws_conn w)

  -- The ways after the test of the block height.
  unfoldable pub route : WebHandler N → List StateChangeEntry → Exec (Running N) Unit
  route wh batched_entries =
      if not (Text.◌==◌ wh.endpoint_url "")
      then push_batch_to_endpoint batched_entries
      else if wh.use_web_socket
      then send_batch_over_web_socket batched_entries
      else fail (errorf "WebHandler.HandleEntryBatch: no endpoint configured")

  unfoldable pub handle_entry_batch : List StateChangeEntry → Exec (Running N) Unit
  handle_entry_batch [] w = fail (errorf "WebHandler.HandleEntryBatch: no entries to send") w
  handle_entry_batch (e ∷ es) w =
      (if ltb e.block_height w.handler.min_block_height then pure tt else route w.handler (e ∷ es))
        w
