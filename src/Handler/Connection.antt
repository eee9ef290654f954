-- ===== src/Handler/Connection.antt =====
-- The connection of handler/web_data_handler.go, once it is there.
use postgres_data_handler.Base.{
  ltb, ◌==◌, ◌≡◌, refl, sym, ap, subst, ◌⊎◌, inl, inr, Bool, true, false, String, Option, none,
  some, List, ◌∷◌, not, if◌then◌else◌,
}
use text.Mathlib.Text as Text
use postgres_data_handler.Go.{Result, ok, err, panic, Exec, continue, lift, wrap, rewrap, ◌>>=◌}
use postgres_data_handler.Go.Laws.{rewrap-eq-ok}
use postgres_data_handler.Core.{StateChangeEntry}
use postgres_data_handler.Handler.{
  Network, Running, http_post, check_status, push_batch_to_endpoint, establish, write,
  send_batch_over_web_socket, route, handle_entry_batch,
}

module _ (N : Network) where
  -- The handler is as it was, and the network is as it was, or is what one post of the batch's JSON
  -- to the endpoint or one message with it on the connection `c` makes of it.
  abbrev pub IsContacted : List StateChangeEntry → Running N → N.Conn → Running N → Type 0
  IsContacted es w c v =
      (v.handler ≡ w.handler)
      × ((v.net ≡ w.net)
          ⊎ ((json : String) × (N.marshal es ≡ ok json)
              × ((v.net ≡ (N.post w.handler.endpoint_url json w.net).1)
                  ⊎ (v.net ≡ (N.write_message c json w.net).1))))

  continue-leaves :
      {A B : Type 0} (R : Running N → Type 0) (r : Result A) (f : A → Exec (Running N) B)
      (v : Running N)
      → R v
      → ((a : A) → r ≡ ok a → R (f a v).1)
      → R (continue r f v).1
  continue-leaves R (ok a) f v h k = k a refl
  continue-leaves R (err e) f v h k = h
  continue-leaves R (panic p) f v h k = h

  if-leaves :
      {A : Type 0} (R : Running N → Type 0) (b : Bool) (m n : Exec (Running N) A) (w : Running N)
      → R (m w).1
      → R (n w).1
      → R ((if b then m else n) w).1
  if-leaves R true m n w h k = h
  if-leaves R false m n w h k = k

  module _ (es : List StateChangeEntry) (w : Running N) (c : N.Conn) where
    abbrev Contacted : Running N → Type 0
    Contacted = IsContacted es w c

    unchanged : Contacted w
    unchanged = (refl, inl refl)

    push-IsContacted : Contacted (push_batch_to_endpoint N es w).1
    unfolding push_batch_to_endpoint http_post check_status
    push-IsContacted =
        let m1 : String = "WebHandler.pushBatchToEndpoint: failed to marshal batch" in
        let m2 : String = "WebHandler.pushBatchToEndpoint: failed to send HTTP POST to %s" in
        continue-leaves Contacted (rewrap m1 (N.marshal es))
          (λ json. wrap m2 (http_post N json) >>= check_status N) w unchanged
          λ json p.
            let v : Running N = (http_post N json w).1 in
            let posted : Contacted v =
              (refl, inr (json, rewrap-eq-ok m1 (N.marshal es) p, inl refl)) in
            continue-leaves Contacted (rewrap m2 (http_post N json w).0) (check_status N) v posted
              λ n _. if-leaves Contacted (n == 200) _ _ v posted posted

    write-IsContacted :
        (json : String) (o : Option N.Conn)
        → o ≡ some c
        → N.marshal es ≡ ok json
        → Contacted (write N json o w).1
    unfolding write
    write-IsContacted json none p m = cc
    write-IsContacted json (some d) p m =
        let same : d ≡ c = cc in
        (refl, inr (json, m, inr (ap (λ z. (N.write_message z json w.net).1) same)))

    establish-kept : (o : Option N.Conn) → o ≡ some c → (establish N o w).1 ≡ w
    unfolding establish
    establish-kept none p = cc
    establish-kept (some d) p = refl

    send-IsContacted : w.handler.ws_conn ≡ some c → Contacted (send_batch_over_web_socket N es w).1
    unfolding send_batch_over_web_socket
    send-IsContacted p =
        let m1 : String =
          "WebHandler.sendBatchOverWebSocket: failed to establish connection to %s" in
        let m2 : String = "WebHandler.sendBatchOverWebSocket: failed to marshal batch" in
        let m3 : String = "WebHandler.sendBatchOverWebSocket: failed to write websocket message" in
        let body : Exec (Running N) Unit = wrap m2 (lift (N.marshal es)) >>= λ json.
        wrap m3 (λ z. write N json z.handler.ws_conn z) in
        let start : Exec (Running N) Unit = λ z. establish N z.handler.ws_conn z in
        let kept : w ≡ (start w).1 = sym (establish-kept w.handler.ws_conn p) in
        let sent : Contacted (body w).1 =
          continue-leaves Contacted (rewrap m2 (N.marshal es))
            (λ json. wrap m3 (λ z. write N json z.handler.ws_conn z)) w unchanged
            λ json m.
              write-IsContacted json w.handler.ws_conn p (rewrap-eq-ok m2 (N.marshal es) m) in
        continue-leaves Contacted (rewrap m1 (start w).0) (λ _. body) (start w).1
          (subst Contacted kept unchanged) λ _ _. subst (λ z. Contacted (body z).1) kept sent

  -- Once the handler has a connection, no batch changes it, whatever comes of the batch, also after a
  -- write that failed. The handler does not dial: the network is as it was, or is what one post of
  -- the batch's JSON to the endpoint or one message with it on the same connection makes of it.
  pub connection_kept :
      (e : StateChangeEntry) (es : List StateChangeEntry) (w : Running N) (c : N.Conn)
      → w.handler.ws_conn ≡ some c
      → IsContacted (e ∷ es) w c (handle_entry_batch N (e ∷ es) w).1
  unfolding handle_entry_batch route
  connection_kept e es w c p =
      let R = IsContacted (e ∷ es) w c in
      let same : R w = (refl, inl refl) in
      if-leaves R (ltb e.block_height w.handler.min_block_height) _ (route N w.handler (e ∷ es)) w
        same
        (if-leaves R (not (Text.◌==◌ w.handler.endpoint_url "")) (push_batch_to_endpoint N (e ∷ es))
          _ w (push-IsContacted (e ∷ es) w c)
          (if-leaves R w.handler.use_web_socket (send_batch_over_web_socket N (e ∷ es)) _ w
            (send-IsContacted (e ∷ es) w c p) same))
