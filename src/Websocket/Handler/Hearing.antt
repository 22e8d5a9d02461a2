-- ===== src/Websocket/Handler/Hearing.antt =====
-- The order in which messages come to the callback.
use rito.Common.{
  true, false, some, List, [], ◌∷◌, map, Bytes, ◌≡◌, refl, sym, ap, ◌∙◌, inl, inr, arith,
}
use rito.Result.{Result, ok, Result-cases}
use rito.Act.{Act, Done}
use rito.Process.FileSystem.{FileSystem}
use rito.Outcome.{returns}
use rito.Websocket.Client.{WebSocketApi, HttpsWebsocketClient, ClientState}
use rito.Websocket.Client
use rito.Websocket.Handler.{
  HandlerState, Call, set_websocket, is_connected, receive_message, round, perform_all, main_loop,
}

module _ {W : Type 0} (api : WebSocketApi W) (files : W → FileSystem) (sleep : W → W)
    (c : HttpsWebsocketClient) (g : Bytes → Act W Done) where
  -- What comes in on the client's websocket, a message at a time, and what the callback, which may
  -- throw, makes of the world.
  pub data Hears : W → List Bytes → W → Type 0 where
    silence : {w : W} → Hears w [] w
    hears :
        {w w₃ : W} {ms : List Bytes} (m : Bytes) (w₁ w₂ : W) (r : Result Done)
        → Client.receive_message api (record { client = c; world = w })
          ≡ (ok m, record { client = c; world = w₁ })
        → g m w₁ ≡ (r, w₂)
        → Hears w₂ ms w₃
        → Hears w (m ∷ ms) w₃

  -- One round for each message, in which the other threads do nothing.
  abbrev pub quiet_rounds : List Bytes → List (List (Call W))
  quiet_rounds ms = map (λ _. []) ms

  module _ (up : c.connected ≡ true) where
    receive_lem :
        (s : HandlerState W) (m : Bytes) (w₁ w₂ : W) (r : Result Done)
        → s.websocket ≡ some c
        → s.on_message_received ≡ some g
        → Client.receive_message api (record { client = c; world = s.world })
          ≡ (ok m, record { client = c; world = w₁ })
        → g m w₁ ≡ (r, w₂)
        → receive_message api files sleep s
          ≡ (returns tt, record (set_websocket (some c) s) { world = w₂ })
    unfolding receive_message
    receive_lem s m w₁ w₂ r e h q p = elim (Result-cases r) [
      | inl (_, z) ↦ ground arith
      | inr (x, z) ↦ ground arith
    ]

    -- The handler, later.
    abbrev later : W → HandlerState W → HandlerState W
    later w s = record (set_websocket (some c) s) { world = w }

    later_lem :
        (s : HandlerState W) (w : W) → s.websocket ≡ some c → later w s ≡ record s { world = w }
    later_lem s w e = ap (λ o. record (set_websocket o s) { world = w }) (sym e)

    round_lem :
        (s : HandlerState W) (m : Bytes) (w₁ w₂ : W) (r : Result Done)
        → s.stop_flag ≡ false
        → s.websocket ≡ some c
        → s.on_message_received ≡ some g
        → Client.receive_message api (record { client = c; world = s.world })
          ≡ (ok m, record { client = c; world = w₁ })
        → g m w₁ ≡ (r, w₂)
        → round api files sleep s ≡ (returns false, later w₂ s)
    unfolding round is_connected
    round_lem s m w₁ w₂ r n e h q p = ground (arith, receive_lem s m w₁ w₂ r e h q p, up)

    later-Hears :
        {w₀ w : W} {ms : List Bytes} (s : HandlerState W)
        → s.stop_flag ≡ false
        → s.on_message_received ≡ some g
        → Hears w₀ ms w
        → main_loop api files sleep (quiet_rounds ms) (later w₀ s) ≡ (returns false, later w s)
    unfolding main_loop perform_all
    later-Hears s n h silence = refl
    later-Hears s n h (hears m w₁ w₂ r q p rest) =
        let first = round_lem (later _ s) m w₁ w₂ r n refl h q p in
        ground (arith, first, later-Hears s n h rest)

  -- In rounds before which no other thread calls anything, where the flag of stop is not set, a
  -- callback for messages is registered, the client is connected and stays so, and each call of
  -- its receive_message returns a message, the loop gives the callback each message, once, in the
  -- order in which they come, a message a round, whether or not the callback throws; and nothing
  -- else of the handler changes.
  pub main_loop-Hears :
      (s : HandlerState W) (ms : List Bytes) (w : W)
      → c.connected ≡ true
      → s.stop_flag ≡ false
      → s.websocket ≡ some c
      → s.on_message_received ≡ some g
      → Hears s.world ms w
      → main_loop api files sleep (quiet_rounds ms) s ≡ (returns false, record s { world = w })
  main_loop-Hears s ms w up n e h heard =
      ap (main_loop api files sleep (quiet_rounds ms)) (sym (later_lem up s s.world e))
      ∙ later-Hears up s n h heard
      ∙ ap (λ t. (returns false, t)) (later_lem up s w e)
