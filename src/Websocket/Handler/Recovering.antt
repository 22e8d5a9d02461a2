-- ===== src/Websocket/Handler/Recovering.antt =====
-- From a connection that the peer ends to the next one, in two rounds of the loop.
use Prim.Native.Nat.{bit_and}
use rito.Common.{ℕ, suc, true, false, some, List, [], ◌∷◌, ◌++◌, Bytes, ◌≡◌, refl, arith}
use rito.Exception.{
  Thrown, websocket_exception, unknown_exception, poco_websocket, poco_message, poco_other,
}
use rito.Result.{ok, throw}
use rito.Act.{try_catch}
use rito.Process.FileSystem.{FileSystem}
use rito.Outcome.{returns}
use rito.Websocket.Client.{
  WebSocketApi, HttpsWebsocketClient, ClientState, Received, receive_frames, receive_failure,
  max_frames_per_message, disconnected,
}
use rito.Websocket.Client
use rito.Websocket.Client.Receive.{IsClosing}
use rito.Websocket.Handler.{
  HandlerState, Call, set_websocket, set_state, is_connected, receive_message, round, perform_all,
  main_loop,
}
use rito.Websocket.Handler.Connecting.{
  lcu_client, discarded, Answers, Welcomes, farewell, round-connects,
}

-- An exception of Poco that is no timeout.
pub data Breaks : Thrown → Type 0 where
  by_websocket : (what : Bytes) → Breaks (poco_websocket what)
  by_message : (what : Bytes) → Breaks (poco_message what)
  by_other : (what : Bytes) → Breaks (poco_other what)

module _ {W : Type 0} (api : WebSocketApi W) (ws : ℕ) where
  -- After fewer than `n` frames, none of which ends a message, the peer hangs up, or receiveFrame
  -- throws something of Poco that is no timeout.
  pub data Drops : ℕ → W → W → Type 0 where
    hangs_up :
        {n : ℕ} {w w' : W} (r : Received)
        → api.receive_frame ws w ≡ (ok r, w')
        → IsClosing r
        → Drops (suc n) w w'
    breaks :
        {n : ℕ} {w w' : W} {e : Thrown}
        → Breaks e
        → api.receive_frame ws w ≡ (throw e, w')
        → Drops (suc n) w w'
    more :
        {n : ℕ} {w w' : W} (r : Received) (w₁ : W)
        → api.receive_frame ws w ≡ (ok r, w₁)
        → ¬ IsClosing r
        → bit_and r.flags api.frame_flag_fin ≡ 0
        → Drops n w₁ w'
        → Drops (suc n) w w'

  abbrev off : HttpsWebsocketClient → HttpsWebsocketClient
  off c = record c { connected = false }

  frames-Drops :
      {n : ℕ} {w w' : W} (c : HttpsWebsocketClient) (buffer : Bytes)
      → Drops n w w'
      → (e : Thrown) × (try_catch
            (receive_frames api n ws buffer)
            receive_failure
            (record { client = c; world = w })
          ≡ (throw e, record { client = off c; world = w' }))
  unfolding receive_frames receive_failure
  frames-Drops c buffer (hangs_up r e (p, z)) =
      (websocket_exception disconnected, ground (arith, e))
  frames-Drops c buffer (breaks (by_websocket what) e) = (unknown_exception what, ground (arith, e))
  frames-Drops c buffer (breaks (by_message what) e) = (unknown_exception what, ground (arith, e))
  frames-Drops c buffer (breaks (by_other what) e) = (unknown_exception what, ground (arith, e))
  frames-Drops c buffer (more r w₁ e z f rest) =
      let (x, q) = frames-Drops c (buffer ++ r.payload) rest in (x, ground (arith, e, q))

  receive-Drops :
      (c : HttpsWebsocketClient) {w w' : W}
      → c.websocket ≡ some ws
      → Drops max_frames_per_message w w'
      → (e : Thrown) × (Client.receive_message api (record { client = c; world = w })
          ≡ (throw e, record { client = off c; world = w' }))
  unfolding Client.receive_message
  receive-Drops c up d = let (x, q) = frames-Drops c [] d in (x, ground (arith, q))

module _ {W : Type 0} (api : WebSocketApi W) (files : W → FileSystem) (sleep : W → W) where
  module _ (s : HandlerState W) (c : HttpsWebsocketClient) {ws : ℕ} {w₁ : W}
      (has : s.websocket ≡ some c) (up : c.connected ≡ true) (open_ws : c.websocket ≡ some ws)
      (lost : Drops api ws max_frames_per_message s.world w₁) where
    abbrev dropped : HandlerState W
    dropped = record (set_websocket (some (off api ws c)) s) { world = w₁ }

    round-drops : s.stop_flag ≡ false → round api files sleep s ≡ (returns false, dropped)
    unfolding round is_connected receive_message
    round-drops on = ground (arith, receive-Drops api ws c open_ws lost)

  -- A connected handler whose state is connected loses its connection: the peer hangs up, or
  -- receiveFrame throws something of Poco that is no timeout, in the first 255 frames of a message.
  -- Where the callback for a lost connection is empty or returns, the LCU answers behind that and
  -- behind the end of the old websocket and session, and the callback for a connection is empty or
  -- returns, two rounds in which no thread calls anything lead the loop to a connected client of the
  -- LCU that answered and the state connected; nothing else of the handler changes.
  pub main_loop-recovers :
      (s : HandlerState W) (c : HttpsWebsocketClient) {ws : ℕ} {token : Bytes}
      {port session ws' : ℕ} (w₁ w₂ w₃ w₄ : W) (rest : List (List (Call W)))
      → s.stop_flag ≡ false
      → s.is_state_connected ≡ true
      → s.websocket ≡ some c
      → c.connected ≡ true
      → c.websocket ≡ some ws
      → Drops api ws max_frames_per_message s.world w₁
      → Welcomes s.on_disconnected w₁ w₂
      → Answers api files s.process_handler token port session ws'
          (api.close_session c.session (api.close ws w₂))
          w₃
      → Welcomes s.on_connected w₃ w₄
      → main_loop api files sleep ([] ∷ [] ∷ rest) s
        ≡ main_loop api files sleep rest (
            set_state true
              (record (set_websocket (some (lcu_client api token port session true (some ws'))) s) {
                world = w₄;
              }))
  unfolding main_loop perform_all is_connected
  main_loop-recovers s c {ws} {token} {port} {session} {ws'} w₁ w₂ w₃ w₄ rest on was has up open_ws
        lost bye lcu hello =
      let t = dropped s c has up open_ws lost in
      let first = round-drops s c has up open_ws lost on in
      let bye' : Welcomes (farewell t) w₁ w₂ = rw was bye in
      let lcu' : Answers api files s.process_handler token port session ws'
          (discarded api t.websocket w₂) w₃ =
        rw open_ws lcu in
      let second = round-connects api files sleep t w₂ w₃ w₄ on refl bye' lcu' hello in
      ground (arith, first, second)
