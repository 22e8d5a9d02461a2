-- ===== src/Websocket/Handler/Sending.antt =====
-- What send_message does with a text, whatever the state of the connection.
use rito.Common.{
  ℕ, ◌%◌, ◌^◌, length, Bool, true, false, none, some, Bytes, ◌≡◌, ◌⊎◌, inl, inr, arith,
  Option-cases, Bool-cases,
}
use rito.Exception.{Thrown}
use rito.Result.{ok, throw}
use rito.Act.{Act-cases}
use rito.Process.FileSystem.{FileSystem}
use rito.Outcome.{Outcome, returns, terminates}
use rito.Websocket.Client.{WebSocketApi, HttpsWebsocketClient, ClientState, Frame}
use rito.Websocket.Client
use rito.Websocket.Handler.{HandlerState, send_message}

module _ {W : Type 0} (api : WebSocketApi W) (files : W → FileSystem) (sleep : W → W)
    (message : Bytes) (s : HandlerState W) where
  abbrev pub text_frame : Frame
  text_frame = record { bytes = message; size = length message % 2 ^ 32; kind = api.frame_text }

  -- A client that is connected, on the websocket `ws`.
  pub record Reaches (ws : ℕ) : Type 0 where
    pub client : HttpsWebsocketClient
    pub held : s.websocket ≡ some client
    pub up : client.connected ≡ true
    pub socket : client.websocket ≡ some ws

  -- How a call ends.
  pub data Sends (r : Outcome Bool) (t : HandlerState W) : Type 0 where
    no_client : s.websocket ≡ none → r ≡ returns false → t ≡ s → Sends r t
    not_connected :
        (c : HttpsWebsocketClient)
        → s.websocket ≡ some c
        → (c.connected ≡ false) ⊎ (c.websocket ≡ none)
        → r ≡ returns false
        → t ≡ s
        → Sends r t
    sent :
        (ws : ℕ) (w : W)
        → Reaches ws
        → api.send_frame ws text_frame s.world ≡ (ok tt, w)
        → r ≡ returns true
        → t ≡ record s { world = w }
        → Sends r t
    failed :
        (ws : ℕ) (e : Thrown) (w : W)
        → Reaches ws
        → api.send_frame ws text_frame s.world ≡ (throw e, w)
        → r ≡ terminates
        → t ≡ record s { world = w }
        → Sends r t

  abbrev result : Outcome Bool
  result = (send_message api files sleep message s).0

  abbrev left : HandlerState W
  left = (send_message api files sleep message s).1

  -- send_message returns false and changes nothing where there is no client, or none that is
  -- connected to a websocket. Otherwise it makes one call of Poco's send, of one text frame with
  -- the message's bytes and its length taken modulo 2^32: it returns true where that returns,
  -- and ends the process where that throws; and but for what lies outside nothing changes.
  pub send_message-Sends : Sends result left
  unfolding send_message Client.send_message
  send_message-Sends = elim (Option-cases s.websocket) [
    | inl e ↦ no_client e (ground arith) (ground arith)
    | inr (c, e) ↦ elim (Bool-cases c.connected) [
      | inr off ↦ not_connected c e (inl off) (ground arith) (ground arith)
      | inl on ↦ elim (Option-cases c.websocket) [
        | inl q ↦ not_connected c e (inr q) (ground arith) (ground arith)
        | inr (ws, q) ↦
            let to : Reaches ws = record { client = c; held = e; up = on; socket = q } in
            elim (Act-cases (api.send_frame ws text_frame s.world)) [
              | inl (_, w, p) ↦ sent ws w to (ground arith) (ground arith) (ground arith)
              | inr (x, w, p) ↦ failed ws x w to p (ground arith) (ground arith)
            ]
      ]
    ]
  ]
