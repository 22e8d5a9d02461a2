-- ===== src/Websocket/Handler/Connecting.antt =====
-- From the LCU's command line to a connected websocket, in one round of the loop.
use rito.Common.{
  ℕ, ◌^◌, ◌<◌, Bool, true, false, Option, none, some, [], ◌∷◌, Bytes, ◌≡◌, refl, inl, inr, arith,
  Bool-cases, Option-cases, if◌then◌else◌,
}
use rito.Common.Decimal.{to_string}
use rito.Result.{ok}
use rito.Act.{Act, Done}
use rito.Process.FileSystem.{FileSystem}
use rito.Process.Linux.{get_lcu_process_command}
use rito.Process.Linux.Parameters.{TokenAt, PortAt, get_lcu_process_parameters-launch}
use rito.Process.Handler.{LcuProcessHandler, get_lcu_process_parameters}
use rito.Rest.Client.{HttpRequest, authenticate}
use rito.Rest.Lcu.{localhost, lcu_user}
use rito.Outcome.{returns}
use rito.Websocket.Client.{WebSocketApi, HttpsWebsocketClient, ClientState, max_frame_size}
use rito.Websocket.Client
use rito.Websocket.Handler.{
  HandlerState, set_websocket, set_state, is_connected, invoke, notify_connection_state_changed,
  make_client, reset_websocket, reconnect, reconnect_and_notify, round,
}

module _ {W : Type 0} (api : WebSocketApi W) where
  -- The request that opens the websocket, with the LCU's token.
  abbrev pub upgrade : Bytes → HttpRequest
  upgrade token = record {
    method = api.method_get;
    uri = b'/' ∷ [];
    version = api.http_1_1;
    calls = authenticate lcu_user token ∷ [];
  }

  -- The client for the LCU that listens on this port.
  abbrev pub lcu_client : Bytes → ℕ → ℕ → Bool → Option ℕ → HttpsWebsocketClient
  lcu_client token port session connected websocket = record {
    connected = connected;
    host = localhost;
    port = port;
    session = session;
    username = lcu_user;
    password = token;
    request = upgrade token;
    websocket = websocket;
  }

  -- What lies outside when a client with no connection has been destroyed.
  abbrev closed : Option ℕ → W → W
  closed none w = w
  closed (some ws) w = api.close ws w

  abbrev pub discarded : Option HttpsWebsocketClient → W → W
  discarded none w = w
  discarded (some c) w = api.close_session c.session (closed c.websocket w)

  -- The LCU can be found and connected to: the process handler's files show a command line whose
  -- leftmost fields hold the token and the decimal text of the port, and Poco makes a session for
  -- that port, opens a websocket over it with the token, and takes the size of a frame.
  pub record Answers (files : W → FileSystem) (h : LcuProcessHandler) (token : Bytes)
      (port session ws : ℕ) (w w' : W) : Type 0 where
    pub command : Bytes
    pub found : get_lcu_process_command (files w) h.pimpl ≡ ok command
    pub token_at : TokenAt command token
    pub port_at : PortAt command (to_string port)
    pub port_fits : port < 2 ^ 16
    pub w₁ : W
    pub w₂ : W
    pub made : api.new_session localhost port w ≡ (ok session, w₁)
    pub opened : api.open_websocket session (upgrade token) w₁ ≡ (ok ws, w₂)
    pub sized : api.set_max_payload_size ws max_frame_size w₂ ≡ (ok tt, w')

-- The callback, if there is one, returns.
abbrev pub Welcomes : {W : Type 0} → Option (Act W Done) → W → W → Type 0
Welcomes none w w' = w' ≡ w
Welcomes (some f) w w' = f w ≡ (ok tt, w')

-- The callback for a lost connection, where the state has not been told of it yet.
abbrev pub farewell : {W : Type 0} → HandlerState W → Option (Act W Done)
farewell s = if s.is_state_connected then s.on_disconnected else none

module _ {W : Type 0} (api : WebSocketApi W) (files : W → FileSystem) (sleep : W → W) where
  module _ (s : HandlerState W) {token : Bytes} {port session ws : ℕ} {w' : W}
      (lcu : Answers api files s.process_handler token port session ws s.world w') where
    abbrev with_lcu : HandlerState W
    with_lcu = record (set_websocket (some (lcu_client api token port session true (some ws))) s) {
      world = w';
    }

    start_lem :
        Client.start api
          (record { client = lcu_client api token port session false none; world = lcu.w₁ })
        ≡ (ok tt, record { client = lcu_client api token port session true (some ws); world = w' })
    unfolding Client.start
    start_lem = ground (arith, lcu.opened, lcu.sized)

    there :
        get_lcu_process_parameters (files s.world) s.process_handler
        ≡ ok (record { remoting_auth_token = token; app_port = port })
    there =
        get_lcu_process_parameters-launch (files s.world) s.process_handler.pimpl lcu.found token
          port lcu.token_at lcu.port_at lcu.port_fits

    make_client_lem : make_client api files sleep s ≡ (returns tt, with_lcu)
    unfolding make_client Client.create Client.set_credentials
    make_client_lem = ground (arith, there, lcu.made, start_lem)

  -- The end of a client that has lost its connection.
  abbrev without_client : HandlerState W → HandlerState W
  without_client s = record (set_websocket none s) { world = discarded api s.websocket s.world }

  destroy_lem :
      (c : HttpsWebsocketClient) (w : W)
      → c.connected ≡ false
      → ((Client.destroy api (record { client = c; world = w })).0 ≡ ok tt)
        × ((Client.destroy api (record { client = c; world = w })).1.world
            ≡ discarded api (some c) w)
  unfolding Client.destroy Client.stop
  destroy_lem c w e = elim (Option-cases c.websocket) [
    | inl n ↦ ground arith
    | inr (ws, j) ↦ ground arith
  ]

  reset_lem :
      (s : HandlerState W) (c : HttpsWebsocketClient)
      → s.websocket ≡ some c
      → c.connected ≡ false
      → reset_websocket api files sleep s ≡ (returns tt, without_client s)
  unfolding reset_websocket
  reset_lem s c e d = ground (arith, destroy_lem c s.world d)

  without-none : (s : HandlerState W) → s.websocket ≡ none → without_client s ≡ s
  without-none s e = ground arith

  reconnect_lem :
      (s : HandlerState W) {token : Bytes} {port session ws : ℕ} {w' : W}
      → is_connected s ≡ false
      → (lcu : Answers api files s.process_handler token port session ws
          (discarded api s.websocket s.world)
          w')
      → reconnect api files sleep s ≡ (returns tt, with_lcu (without_client s) lcu)
  unfolding reconnect is_connected
  reconnect_lem s off lcu = elim (Option-cases s.websocket) [
    | inl n ↦ ground (arith, without-none s n, make_client_lem (without_client s) lcu)
    | inr (c, e) ↦
        ground (arith, reset_lem s c e (ground arith), make_client_lem (without_client s) lcu)
  ]

  invoke-Welcomes :
      (o : Option (Act W Done)) (s : HandlerState W) (w : W)
      → Welcomes o s.world w
      → invoke o s ≡ (returns tt, record s { world = w })
  invoke-Welcomes none s w h = ground arith
  invoke-Welcomes (some f) s w h = ground arith

  notify_up :
      (s : HandlerState W) (w : W)
      → s.is_state_connected ≡ false
      → Welcomes s.on_connected s.world w
      → notify_connection_state_changed true s
        ≡ (returns tt, set_state true (record s { world = w }))
  unfolding notify_connection_state_changed
  notify_up s w e h = ground (arith, invoke-Welcomes s.on_connected s w h)

  notify_down :
      (s : HandlerState W) (w : W)
      → Welcomes (farewell s) s.world w
      → notify_connection_state_changed false s
        ≡ (returns tt, set_state false (record s { world = w }))
  unfolding notify_connection_state_changed
  notify_down s w h = elim (Bool-cases s.is_state_connected) [
    | inl e ↦ ground (arith, invoke-Welcomes s.on_disconnected s w (ground arith))
    | inr e ↦ ground arith
  ]

  -- A round that does not see the flag, of a handler that is not connected, whether it has a client
  -- that has lost its connection or none: where the LCU answers, the round leaves a connected client
  -- for it and the state connected, once the callback for a lost connection has been called if the
  -- state was connected, the old client's websocket and session have ended, and the callback for a
  -- connection has been called; the callbacks are empty or return. Nothing else of the handler
  -- changes.
  pub round-connects :
      (s : HandlerState W) {token : Bytes} {port session ws : ℕ} (w₁ w₂ w₃ : W)
      → s.stop_flag ≡ false
      → is_connected s ≡ false
      → Welcomes (farewell s) s.world w₁
      → Answers api files s.process_handler token port session ws (discarded api s.websocket w₁) w₂
      → Welcomes s.on_connected w₂ w₃
      → round api files sleep s ≡ (
        returns false,
        set_state true
            (record (set_websocket (some (lcu_client api token port session true (some ws))) s) {
              world = w₃;
            }),
      )
  unfolding round reconnect_and_notify is_connected
  round-connects s w₁ w₂ w₃ on off bye lcu hello =
      let t = set_state false (record s { world = w₁ }) in
      let u = with_lcu (without_client t) lcu in
      ground (arith, notify_down s w₁ bye, reconnect_lem t off lcu, notify_up u w₃ refl hello)
