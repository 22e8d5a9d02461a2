-- ===== src/Websocket/Handler/Sessions/Steps.antt =====
-- The steps of the loop: the sessions that they make and end.
use rito.Common.{
  ℕ, true, false, Option, none, some, List, ◌∷◌, Bytes, if◌then◌else◌, ◌≡◌, sym, subst, inl, inr,
  arith, Option-cases, Bool-cases,
}
use rito.Result.{Result-cases}
use rito.Act.{Act, Act-cases, Done}
use rito.Process.FileSystem.{FileSystem}
use rito.Process.Handler.{get_lcu_process_parameters}
use rito.Rest.Lcu.{localhost, lcu_user}
use rito.Outcome.{Outcome, returns, throws, terminates, Method, after, rescue, noexcept, pure}
use rito.Websocket.Client.{WebSocketApi, HttpsWebsocketClient, ClientState}
use rito.Websocket.Client
use rito.Websocket.Client.Untouched.{start_keeps, send_message_keeps, receive_message_keeps}
use rito.Websocket.Client.Sessions.{
  Sessions, start-session, send_message-session, receive_message-session, destroy_ends,
  create_makes, create_makes_none, set_credentials-session,
}
use rito.Websocket.Handler.{
  HandlerState, outside, on_client, set_websocket, is_connected, notify_connection_state_changed,
  reset_websocket, make_client, reconnect, receive_message, reconnect_and_notify, round,
  send_message,
}
use rito.Websocket.Handler.Sessions.{
  Polite, PoliteMessage, IsHeld, Leaves, after-Leaves, rescue-Leaves, no_throw-Leaves, if-Leaves,
  outcome-Leaves, moved, notify-Leaves,
}
use rito.Websocket.Handler.Stopping.{reset_lem}

module _ {W : Type 0} (api : WebSocketApi W) (files : W → FileSystem) (sleep : W → W)
    (open_sessions : W → List ℕ) (laws : Sessions api open_sessions)
    (sleep_keeps : (w : W) → open_sessions (sleep w) ≡ open_sessions w) (others : List ℕ) where
  abbrev Held : HandlerState W → Type 0
  Held = IsHeld open_sessions others

  abbrev HeldAfter : {A : Type 0} → Outcome A × HandlerState W → Type 0
  HeldAfter = Leaves open_sessions others

  -- A method of a client that keeps its session.
  on_client-Leaves :
      {A : Type 0} (c : HttpsWebsocketClient) (m : Act (ClientState W) A) (s : HandlerState W)
      → (m (record { client = c; world = s.world })).1.session ≡ c.session
      → open_sessions (m (record { client = c; world = s.world })).1.world ≡ open_sessions s.world
      → open_sessions s.world ≡ c.session ∷ others
      → Held s
      → HeldAfter (on_client c m s)
  on_client-Leaves c m s same kept own h =
      outcome-Leaves open_sessions others (m (record { client = c; world = s.world })).0 _ (record {
        own = ground (arith, same, kept, own);
        message = h.message;
        up = h.up;
        down = h.down;
      })

  pub reset-Leaves : (s : HandlerState W) → Held s → HeldAfter (reset_websocket api files sleep s)
  unfolding reset_websocket
  reset-Leaves s h = elim (Option-cases s.websocket) [
    | inl e ↦
        let same : reset_websocket api files sleep s ≡ (returns tt, s) = ground arith in
        subst HeldAfter (sym same) h
    | inr (c, e) ↦
        let cs : ClientState W = record { client = c; world = s.world } in
        let own : open_sessions s.world ≡ c.session ∷ others = ground (arith, h.own) in
        elim (Act-cases (Client.destroy api cs)) [
          | inl (_, t, q) ↦
              let u : HandlerState W = record (set_websocket none s) { world = t.world } in
              let same : reset_websocket api files sleep s ≡ (returns tt, u) = ground arith in
              subst HeldAfter (sym same) (record {
                own = destroy_ends api open_sessions laws others cs q own;
                message = h.message;
                up = h.up;
                down = h.down;
              })
          | inr (x, t, q) ↦
              let u : HandlerState W = record (set_websocket (some t.client) s) {
                world = t.world;
              } in
              let same : reset_websocket api files sleep s ≡ (terminates, u) = ground arith in
              subst HeldAfter (sym same) tt
        ]
  ]

  -- A new client, with its session, is started whether start returns or throws.
  started-Leaves :
      (c : HttpsWebsocketClient) (s : HandlerState W)
      → open_sessions s.world ≡ c.session ∷ others
      → PoliteMessage open_sessions s.on_message_received
      → Polite open_sessions s.on_connected
      → Polite open_sessions s.on_disconnected
      → HeldAfter (on_client c (Client.start api) s)
  started-Leaves c s own message up down =
      let cs : ClientState W = record { client = c; world = s.world } in
      outcome-Leaves open_sessions others (Client.start api cs).0 _ (record {
        own =
            ground (arith, start-session api cs, start_keeps api open_sessions laws.steady cs, own);
        message = message;
        up = up;
        down = down;
      })

  make_client-Leaves :
      (s : HandlerState W) → s.websocket ≡ none → Held s → HeldAfter (make_client api files sleep s)
  unfolding make_client
  make_client-Leaves s n h =
      elim (Result-cases (get_lcu_process_parameters (files s.world) s.process_handler)) [
        | inr (x, e) ↦
            let same : make_client api files sleep s ≡ (throws x, s) = ground arith in
            subst HeldAfter (sym same) h
        | inl (ps, e) ↦ elim (Act-cases (Client.create api localhost ps.app_port s.world)) [
          | inr (x, w, q) ↦
              let same : make_client api files sleep s ≡ (throws x, record s { world = w }) =
                ground arith in
              subst HeldAfter (sym same) (
                moved open_sessions others s w h
                  (create_makes_none api open_sessions laws localhost ps.app_port s.world q))
          | inl (c, w, q) ↦
              let k = Client.set_credentials api lcu_user ps.remoting_auth_token c in
              let t : HandlerState W = record s { world = w } in
              let same : make_client api files sleep s ≡ on_client k (Client.start api) t =
                ground arith in
              let own : open_sessions w ≡ k.session ∷ others = ground (
                arith,
                create_makes api open_sessions laws localhost ps.app_port s.world q,
                set_credentials-session api lcu_user ps.remoting_auth_token c,
                h.own,
              ) in
              subst HeldAfter (sym same) (started-Leaves k t own h.message h.up h.down)
        ]
      ]

  reconnect-Leaves : (s : HandlerState W) → Held s → HeldAfter (reconnect api files sleep s)
  unfolding reconnect
  reconnect-Leaves s h = elim (Option-cases s.websocket) [
    | inl e ↦
        let same : reconnect api files sleep s ≡ make_client api files sleep s = ground arith in
        subst HeldAfter (sym same) (make_client-Leaves s e h)
    | inr (c, e) ↦ elim (Bool-cases c.connected) [
      | inl on ↦
          let same : reconnect api files sleep s ≡ (returns tt, s) = ground arith in
          subst HeldAfter (sym same) h
      | inr off ↦
          let same : reconnect api files sleep s
              ≡ after (reset_websocket api files sleep s) (λ _. make_client api files sleep) =
            ground arith in
          subst HeldAfter (sym same) (
            after-Leaves open_sessions others (reset_websocket api files sleep s) _
              (reset-Leaves s h)
              λ _ t q k. make_client-Leaves t (ground (arith, reset_lem api files sleep s q)) k)
    ]
  ]

  announce-Leaves :
      (s : HandlerState W) → Held s → HeldAfter (reconnect_and_notify api files sleep s)
  unfolding reconnect_and_notify
  announce-Leaves s h =
      after-Leaves open_sessions others (notify_connection_state_changed false s) _
        (notify-Leaves open_sessions others false s h)
        λ _ t e k.
          rescue-Leaves open_sessions others _ _
            (after-Leaves open_sessions others (reconnect api files sleep t) _
              (reconnect-Leaves t k) λ _ u q l. notify-Leaves open_sessions others true u l)
            λ u l. moved open_sessions others u (sleep u.world) l (sleep_keeps u.world)

  heard-Leaves :
      (o : Option (Bytes → Act W Done)) (response : Bytes) (t : HandlerState W)
      → PoliteMessage open_sessions o
      → Held t
      → HeldAfter (elim o as (λ _. Outcome Done × HandlerState W) [
        | none ↦ (returns tt, t)
        | some f ↦ outside (f response) t
      ])
  heard-Leaves none response t p h = h
  heard-Leaves (some f) response t p h =
      outcome-Leaves open_sessions others (f response t.world).0 _
        (moved open_sessions others t (f response t.world).1 h (p response t.world))

  receive-Leaves : (s : HandlerState W) → Held s → HeldAfter (receive_message api files sleep s)
  unfolding receive_message
  receive-Leaves s h = elim (Option-cases s.websocket) [
    | inl e ↦
        let same : receive_message api files sleep s ≡ (terminates, s) = ground arith in
        subst HeldAfter (sym same) tt
    | inr (c, e) ↦
        let cs : ClientState W = record { client = c; world = s.world } in
        let got = on_client c (Client.receive_message api) s in
        let heard : Bytes → Method (HandlerState W) Done = λ response t.
          elim t.on_message_received as (λ _. Outcome Done × HandlerState W) [
            | none ↦ (returns tt, t)
            | some f ↦ outside (f response) t
          ] in
        let same : receive_message api files sleep s ≡ rescue (after got heard) (pure tt) =
          ground arith in
        let held : HeldAfter got =
          on_client-Leaves c (Client.receive_message api) s (receive_message-session api cs)
            (receive_message_keeps api open_sessions laws.steady cs) (ground (arith, h.own)) h in
        subst HeldAfter (sym same) (
          rescue-Leaves open_sessions others (after got heard) (pure tt)
            (after-Leaves open_sessions others got heard held
              λ response t q k. heard-Leaves t.on_message_received response t k.message k)
            λ t k. k)
  ]

  pub send-Leaves :
      (m : Bytes) (s : HandlerState W) → Held s → HeldAfter (send_message api files sleep m s)
  unfolding send_message
  send-Leaves m s h = elim (Option-cases s.websocket) [
    | inl e ↦
        let same : send_message api files sleep m s ≡ (returns false, s) = ground arith in
        subst HeldAfter (sym same) h
    | inr (c, e) ↦
        let cs : ClientState W = record { client = c; world = s.world } in
        let sent = noexcept (on_client c (Client.send_message api m)) s in
        let same : send_message api files sleep m s
            ≡ (if c.connected then sent else (returns false, s)) =
          ground arith in
        subst HeldAfter (sym same) (
          if-Leaves open_sessions others c.connected sent (returns false, s)
            (no_throw-Leaves open_sessions others (on_client c (Client.send_message api m) s) (
              on_client-Leaves c (Client.send_message api m) s (send_message-session api m cs)
                (send_message_keeps api open_sessions laws.steady m cs) (ground (arith, h.own)) h))
            h)
  ]

  pub round-Leaves : (s : HandlerState W) → Held s → HeldAfter (round api files sleep s)
  unfolding round
  round-Leaves s h =
      if-Leaves open_sessions others s.stop_flag _ _
        (after-Leaves open_sessions others (reset_websocket api files sleep s) _ (reset-Leaves s h)
          λ _ t e k.
            after-Leaves open_sessions others (notify_connection_state_changed false t) _
              (notify-Leaves open_sessions others false t k) λ _ u q l. l)
        (if-Leaves open_sessions others (is_connected s) _ _
          (after-Leaves open_sessions others (receive_message api files sleep s) _
            (receive-Leaves s h) λ _ t e k. k)
          (after-Leaves open_sessions others (reconnect_and_notify api files sleep s) _
            (announce-Leaves s h) λ _ t e k. k))
