-- ===== src/Wamp/Handler/Listening.antt =====
-- The events that a WAMP handler hands on while its loop runs, and their order.
use rito.Common.{true, false, some, List, [], ◌∷◌, map, Bytes, ◌≡◌, ◌≢◌, ◌∙◌}
use rito.Result.{Result, ok}
use rito.Act.{Done}
use rito.Process.FileSystem.{FileSystem}
use rito.Outcome.{returns}
use rito.Websocket.Client.{WebSocketApi, HttpsWebsocketClient}
use rito.Websocket.Client
use rito.Websocket.Handler.{main_loop}
use rito.Websocket.Handler.Hearing.{Hears, silence, hears, quiet_rounds, main_loop-Hears}
use rito.Wamp.Dispatch.{JsonApi, WampWorld, on_message}
use rito.Wamp.Dispatch.Delivery.{Event, Reads, Hands, Hands-rescue, on_message-deliver}
use rito.Wamp.Handler.{lifted, files_of, sleep_of, LcuWampHandler}
use rito.Wamp.Handler.Wiring.{IsWired}

module _ {Var Array : Type 0} (json : JsonApi Var Array) {V : Type 0} (api : WebSocketApi V)
    (files : V → FileSystem) (sleep : V → V) (c : HttpsWebsocketClient) where
  -- The texts that come in, with what each says, and the world that is left once each has been
  -- handed on.
  pub data Delivers : WampWorld V → List (Bytes × Event) → WampWorld V → Type 0 where
    nothing : {w : WampWorld V} → Delivers w [] w
    delivers :
        {w w₃ : WampWorld V} {rest : List (Bytes × Event)} (m : Bytes) (e : Event)
        (w₁ w₂ : WampWorld V) (r : Result Done)
        → Client.receive_message (lifted api) (record { client = c; world = w })
          ≡ (ok m, record { client = c; world = w₁ })
        → m ≢ []
        → Reads json m e
        → Hands e w₁ r w₂
        → Delivers w₂ rest w₃
        → Delivers w ((m, e) ∷ rest) w₃

  abbrev pub texts : List (Bytes × Event) → List Bytes
  texts es = map (λ p. p.0) es

  Delivers-Hears :
      {w w₂ : WampWorld V} {es : List (Bytes × Event)}
      → Delivers w es w₂
      → Hears (lifted api) (files_of files) (sleep_of sleep) c (on_message json) w (texts es) w₂
  Delivers-Hears nothing = silence
  Delivers-Hears (delivers m e w₁ w₂ r got ne reads h rest) =
      hears m w₁ w₂ r got (on_message-deliver json m e w₁ ne reads ∙ Hands-rescue json h)
        (Delivers-Hears rest)

  -- In rounds before which no other thread calls anything, where the flag of stop is not set, the
  -- client of a wired handler is connected and stays so, and each call of its receive_message
  -- returns a text that is not empty and reads as an event, the loop hands each event to the one
  -- callback for it, where there is one, with its parts in order, once, in the order in which the
  -- texts come, a text a round, whether or not the callbacks throw; and nothing else of the
  -- handler changes.
  pub main_loop-Delivers :
      (s : LcuWampHandler V) (es : List (Bytes × Event)) (w : WampWorld V)
      → IsWired json s
      → c.connected ≡ true
      → s.stop_flag ≡ false
      → s.websocket ≡ some c
      → Delivers s.world es w
      → main_loop
          (lifted api)
          (files_of files)
          (sleep_of sleep)
          (quiet_rounds
            (lifted api)
            (files_of files)
            (sleep_of sleep)
            c
            (on_message json)
            (texts es))
          s
        ≡ (returns false, record s { world = w })
  main_loop-Delivers s es w h up n held d =
      main_loop-Hears (lifted api) (files_of files) (sleep_of sleep) c (on_message json) s
        (texts es) w up n held h.message (Delivers-Hears d)
