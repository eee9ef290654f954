-- ===== src/Handler/Laws.antt =====
-- What handler/web_data_handler.go delivers, and when it connects.
use postgres_data_handler.Base.{
  ℕ, ltb, ◌==◌, ◌≡◌, ◌⊎◌, inl, inr, refl, sym, ◌∙◌, ap, subst, Bool-cases, true, false, String,
  Option, none, some, Option-cases, List, ◌∷◌, arith,
}
use text.Mathlib.Text as Text
use postgres_data_handler.Go.{Error, ok, return_error, Exec, lift, wrap, ◌>>=◌}
use postgres_data_handler.Go.Laws.{rewrap-eq-ok}
use postgres_data_handler.Go.Ensures.{Ensures, Ensures-bind}
use postgres_data_handler.Core.{StateChangeEntry}
use postgres_data_handler.Handler.{
  Network, Running, http_post, check_status, push_batch_to_endpoint, establish, write,
  send_batch_over_web_socket, route, handle_entry_batch,
}

module _ (N : Network) where
  -- The batch was posted to the endpoint, which answered with the status 200.
  abbrev pub Posted : List StateChangeEntry → Running N → Running N → Type 0
  Posted es w v =
      (json : String) × (N.marshal es ≡ ok json)
      × ((N.post w.handler.endpoint_url json w.net).0 ≡ ok 200)
      × (v ≡ record w { net = (N.post w.handler.endpoint_url json w.net).1 })

  -- The connection was there, or has been made.
  abbrev pub Connected : Running N → N.Conn → Running N → Type 0
  Connected w c u =
      ((w.handler.ws_conn ≡ some c) × (u ≡ w))
      ⊎ ((w.handler.ws_conn ≡ none)
          × (N.dial w.handler.ws_url w.net ≡ (some c, none, u.net))
          × (u.handler ≡ record w.handler { ws_conn = some c }))

  -- The batch was written to a connection, which the handler keeps.
  abbrev pub Written : List StateChangeEntry → Running N → Running N → Type 0
  Written es w v =
      (json : String) × (c : N.Conn) × (u : Running N) × (N.marshal es ≡ ok json)
      × Connected w c u
      × ((N.write_message c json u.net).0 ≡ none)
      × (v ≡ record u { net = (N.write_message c json u.net).1 })

  checked : (n : ℕ) (w : Running N) → Ensures (check_status N n) w λ _ v. (n ≡ 200) × (v ≡ w)
  unfolding check_status
  checked n w a h = elim (Bool-cases (n == 200)) [
    | inl t ↦ (ground (arith, t), rw t refl)
    | inr f ↦ cc (rw f at h)
  ]

  pushed :
      (es : List StateChangeEntry) (w : Running N)
      → Ensures (push_batch_to_endpoint N es) w (λ _ v. Posted es w v)
  unfolding push_batch_to_endpoint http_post
  pushed es w =
      let m1 : String = "WebHandler.pushBatchToEndpoint: failed to marshal batch" in
      let m2 : String = "WebHandler.pushBatchToEndpoint: failed to send HTTP POST to %s" in
      Ensures-bind (wrap m1 (lift (N.marshal es)))
        (λ json. wrap m2 (http_post N json) >>= check_status N) w (λ _ v. Posted es w v)
        λ json e.
          Ensures-bind (wrap m2 (http_post N json)) (check_status N) w (λ _ v. Posted es w v)
            λ n f a h.
              let (same, stay) = checked n (wrap m2 (http_post N json) w).1 a h in
              (
                json,
                rewrap-eq-ok m1 (N.marshal es) e,
                rewrap-eq-ok m2 (N.post w.handler.endpoint_url json w.net).0 f
                    ∙ ap (λ z. ok z) same,
                stay,
              )

  return_error-ok : (e : Option Error) (a : Unit {0}) → return_error e ≡ ok a → e ≡ none
  return_error-ok none a h = refl
  return_error-ok (some e) a h = cc

  -- After the connection is looked for: it is there, or the dialer gave none.
  abbrev Established : Running N → Unit {0} → Running N → Type 0
  Established w _ u =
      ((c : N.Conn) × (u.handler.ws_conn ≡ some c) × Connected w c u) ⊎ (u.handler.ws_conn ≡ none)

  established :
      (o : Option N.Conn) (w : Running N)
      → w.handler.ws_conn ≡ o
      → Ensures (establish N o) w (Established w)
  unfolding establish
  established (some c) w p a h = inl (c, p, inl (p, refl))
  established none w p a h =
      let d = N.dial w.handler.ws_url w.net in
      let q = return_error-ok d.1 a h in
      elim (Option-cases d.0) [
        | inl r ↦ inr r
        | inr (c, r) ↦
            inl (c, r, inr (p, λ i. (r i, q i, d.2), ap (λ z. record w.handler { ws_conn = z }) r))
      ]

  written :
      (json : String) (o : Option N.Conn) (u : Running N)
      → Ensures (write N json o) u λ _ v.
        (c : N.Conn) × (o ≡ some c)
        × ((N.write_message c json u.net).0 ≡ none)
        × (v ≡ record u { net = (N.write_message c json u.net).1 })
  unfolding write
  written json none u a h = cc
  written json (some c) u a h =
      (c, refl, return_error-ok (N.write_message c json u.net).0 a h, refl)

  sent :
      (es : List StateChangeEntry) (w : Running N)
      → Ensures (send_batch_over_web_socket N es) w (λ _ v. Written es w v)
  unfolding send_batch_over_web_socket
  sent es w =
      let m1 : String = "WebHandler.sendBatchOverWebSocket: failed to establish connection to %s" in
      let m2 : String = "WebHandler.sendBatchOverWebSocket: failed to marshal batch" in
      let m3 : String = "WebHandler.sendBatchOverWebSocket: failed to write websocket message" in
      let connect : Exec (Running N) Unit = λ z. establish N z.handler.ws_conn z in
      let put : String → Exec (Running N) Unit = λ json z. write N json z.handler.ws_conn z in
      Ensures-bind (wrap m1 connect)
        (λ _. wrap m2 (lift (N.marshal es)) >>= λ json. wrap m3 (put json)) w
        (λ _ v. Written es w v)
        λ a e.
          let u : Running N = (connect w).1 in
          let there = established w.handler.ws_conn w refl a (rewrap-eq-ok m1 (connect w).0 e) in
          Ensures-bind (wrap m2 (lift (N.marshal es))) (λ json. wrap m3 (put json)) u
            (λ _ v. Written es w v)
            λ json f b h.
              let (c, p, q, stay) =
                written json u.handler.ws_conn u b (rewrap-eq-ok m3 (put json u).0 h) in
              elim there [
                | inr n ↦ cc (n, p)
                | inl (d, r, made) ↦
                    let same : d ≡ c = cc (r, p) in
                    (
                      json,
                      c,
                      u,
                      rewrap-eq-ok m2 (N.marshal es) f,
                      subst (λ z. Connected w z u) same made,
                      q,
                      stay,
                    )
              ]

  -- If a batch returns nil, then its first entry is below the minimum block height and nothing was
  -- done, or there is an endpoint and the batch was posted to it with the answer 200, or there is
  -- none and the batch was written to the web socket's connection, which the handler had or has
  -- made and keeps.
  pub batch_delivered :
      (e : StateChangeEntry) (es : List StateChangeEntry) (w : Running N)
      → (handle_entry_batch N (e ∷ es) w).0 ≡ ok tt
      → ((ltb e.block_height w.handler.min_block_height ≡ true)
          × ((handle_entry_batch N (e ∷ es) w).1 ≡ w))
        ⊎ ((Text.◌==◌ w.handler.endpoint_url "" ≡ false)
            × Posted (e ∷ es) w (handle_entry_batch N (e ∷ es) w).1)
        ⊎ ((Text.◌==◌ w.handler.endpoint_url "" ≡ true)
            × (w.handler.use_web_socket ≡ true)
            × Written (e ∷ es) w (handle_entry_batch N (e ∷ es) w).1)
  unfolding handle_entry_batch route
  batch_delivered e es w h = elim (Bool-cases (ltb e.block_height w.handler.min_block_height)) [
    | inl t ↦ inl (t, rw t refl)
    | inr f ↦ elim (Bool-cases (Text.◌==◌ w.handler.endpoint_url "")) [
      | inr g ↦ inr (inl (g, rw (f, g) (pushed (e ∷ es) w tt (rw (f, g) at h))))
      | inl g ↦ elim (Bool-cases w.handler.use_web_socket) [
        | inl u ↦
            let over : handle_entry_batch N (e ∷ es) w ≡ send_batch_over_web_socket N (e ∷ es) w =
              rw (f, g, u) refl in
            inr (
              inr (
                g,
                u,
                subst (λ z. Written (e ∷ es) w z.1) (sym over)
                    (sent (e ∷ es) w tt (ap (λ z. z.0) (sym over) ∙ h)),
              ))
        | inr u ↦ cc (rw (f, g, u) at h)
      ]
    ]
  ]
