-- ===== src/Websocket/Race/Refines.antt =====
-- The handler's loop, of Websocket/Handler, against the threads' moves.
use rito.Common.{Bool, true, false, List, [], ◌∷◌, ◌≡◌, ◌⊎◌, arith}
use rito.Process.FileSystem.{FileSystem}
use rito.Outcome.{returns}
use rito.Websocket.Client.{WebSocketApi, HttpsWebsocketClient}
use rito.Websocket.Client
use rito.Websocket.Handler.{HandlerState, Call, notify_connection_state_changed, round, perform_all}
use rito.Websocket.Race.{top, finished}
use rito.Websocket.Race.Passes.{seen, PerformsAll, Passes}

module _ {W : Type 0} (api : WebSocketApi W) (files : W → FileSystem) (sleep : W → W) where
  notify-seen :
      (b : Bool) (s : HandlerState W) → seen (notify_connection_state_changed b s).1 ≡ seen s
  unfolding notify_connection_state_changed
  notify-seen b s = ground arith

  -- A run over a schedule, round by round: from the handler's state to that behind the calls of the
  -- round, and on to that behind the round; true where a round has left the loop.
  abbrev pub Runs : List (List (Call W)) → HandlerState W → Bool → HandlerState W → Type 0
  Runs [] s b t = (b ≡ false) × (t ≡ s)
  Runs (calls ∷ rest) s b t =
      (u v : HandlerState W) × (perform_all api files sleep calls s ≡ (returns tt, u))
      × PerformsAll calls (seen s) (seen u)
      × (((b ≡ true)
            × (round api files sleep u ≡ (returns true, t))
            × Passes (seen u) finished (seen t))
          ⊎ ((round api files sleep u ≡ (returns false, v))
              × Passes (seen u) top (seen v)
              × Runs rest v b t))
