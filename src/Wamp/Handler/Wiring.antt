-- ===== src/Wamp/Handler/Wiring.antt =====
-- The WAMP handler hears what its websocket handler hears.
use rito.Common.{
  false, some, List, [], ◌∷◌, map, Bytes, ◌≡◌, ◌≢◌, refl, ap, ◌∙◌, arith, All, inl, inr,
}
use rito.Result.{Result, ok, throw}
use rito.Act.{Done, Act-cases, rescue}
use rito.Process.FileSystem.{FileSystem}
use rito.Outcome.{returns}
use rito.Websocket.Client.{WebSocketApi, HttpsWebsocketClient, ClientState}
use rito.Websocket.Client
use rito.Websocket.Handler.{HandlerState, Call, set_websocket, receive_message}
use rito.Websocket.Handler
use rito.Websocket.Handler.Callbacks.{
  registers, SameCallbacks, NoRegistration, send-SameCallbacks, stop-SameCallbacks,
  run-SameCallbacks,
}
use rito.Wamp.Messages.{subscribe_message, unsubscribe_message, call_message, call_with_message}
use rito.Wamp.Dispatch.{JsonApi, WampWorld, on_connected, on_disconnected, on_message, swallow}
use rito.Wamp.Dispatch.Delivery.{Event, Reads, deliver, on_message-deliver}
use rito.Wamp.Handler.{
  WampCall, WampRegistration, register_callback, to_call, lifted, files_of, sleep_of, create,
  subscribe, unsubscribe, call, call_with, stop, run,
}

module _ {Var Array : Type 0} (json : JsonApi Var Array) {V : Type 0} where
  -- The websocket handler's callbacks are the ones that the constructor registered.
  pub record IsWired (s : HandlerState (WampWorld V)) : Type 0 where
    pub message : s.on_message_received ≡ some (on_message json)
    pub connected : s.on_connected ≡ some on_connected
    pub disconnected : s.on_disconnected ≡ some on_disconnected

  pub create-IsWired : (w : V) → IsWired (create json w)
  unfolding create Handler.register
  create-IsWired w = record { message = refl; connected = refl; disconnected = refl }

  same-IsWired : (s t : HandlerState (WampWorld V)) → SameCallbacks s t → IsWired s → IsWired t
  same-IsWired s t (d, c, m) h = record {
    message = m ∙ h.message;
    connected = c ∙ h.connected;
    disconnected = d ∙ h.disconnected;
  }

  module _ (api : WebSocketApi V) (files : V → FileSystem) (sleep : V → V) where
    -- What one public call makes of a handler; a call of run goes with the calls that others make
    -- while it runs.
    pub data Operation : HandlerState (WampWorld V) → HandlerState (WampWorld V) → Type 0 where
      subscribe_op :
          (event : Bytes) (s : HandlerState (WampWorld V))
          → Operation s (subscribe api files sleep event s).1
      unsubscribe_op :
          (event : Bytes) (s : HandlerState (WampWorld V))
          → Operation s (unsubscribe api files sleep event s).1
      call_op :
          (i f : Bytes) (s : HandlerState (WampWorld V))
          → Operation s (call api files sleep i f s).1
      call_with_op :
          (i f arg : Bytes) (args : List Bytes) (s : HandlerState (WampWorld V))
          → Operation s (call_with api files sleep i f arg args s).1
      stop_op : (s : HandlerState (WampWorld V)) → Operation s (stop api files sleep s).1
      register_op :
          (r : WampRegistration V) (s : HandlerState (WampWorld V))
          → Operation s (record s { world = register_callback r s.world })
      run_op :
          (schedule : List (List (WampCall V))) (s : HandlerState (WampWorld V))
          → Operation s (run api files sleep schedule s).1

    to_call-registers : (c : WampCall V) → registers (to_call c) ≡ false
    unfolding to_call
    to_call-registers WampCall.stop_call = refl
    to_call-registers (WampCall.subscribe_call e) = refl
    to_call-registers (WampCall.unsubscribe_call e) = refl
    to_call-registers (WampCall.call_call i f) = refl
    to_call-registers (WampCall.call_with_call i f a args) = refl
    to_call-registers (WampCall.register_call r) = refl

    abbrev Free : List (Call (WampWorld V)) → Type 0
    Free = NoRegistration (lifted api) (files_of files) (sleep_of sleep)

    calls-Free : (calls : List (WampCall V)) → Free (map to_call calls)
    calls-Free [] = tt
    calls-Free (c ∷ cs) = (to_call-registers c, calls-Free cs)

    schedule-Free :
        (schedule : List (List (WampCall V))) → All Free (map (λ calls. map to_call calls) schedule)
    schedule-Free [] = tt
    schedule-Free (calls ∷ rest) = (calls-Free calls, schedule-Free rest)

    sent-IsWired :
        (m : Bytes) (s : HandlerState (WampWorld V))
        → IsWired s
        → IsWired (Handler.send_message (lifted api) (files_of files) (sleep_of sleep) m s).1
    sent-IsWired m s h =
        same-IsWired s _ (send-SameCallbacks (lifted api) (files_of files) (sleep_of sleep) m s) h

    -- Every public call keeps the three callbacks that the constructor registered, whether it
    -- returns, throws or ends the process; for a call of run, whatever calls others make during it.
    pub Operation-IsWired :
        {s t : HandlerState (WampWorld V)} → Operation s t → IsWired s → IsWired t
    unfolding subscribe unsubscribe call call_with stop run
    Operation-IsWired (subscribe_op e s) h = sent-IsWired (subscribe_message e) s h
    Operation-IsWired (unsubscribe_op e s) h = sent-IsWired (unsubscribe_message e) s h
    Operation-IsWired (call_op i f s) h = sent-IsWired (call_message i f) s h
    Operation-IsWired (call_with_op i f a args s) h =
        sent-IsWired (call_with_message i f a args) s h
    Operation-IsWired (stop_op s) h =
        same-IsWired s _ (stop-SameCallbacks (lifted api) (files_of files) (sleep_of sleep) s) h
    Operation-IsWired (register_op r s) h = record {
      message = h.message;
      connected = h.connected;
      disconnected = h.disconnected;
    }
    Operation-IsWired (run_op schedule s) h =
        same-IsWired s _
          (run-SameCallbacks (lifted api) (files_of files) (sleep_of sleep) _ s
            (schedule-Free schedule))
          h

    pub rescued : (p : Result Done × WampWorld V) → (rescue p swallow).1 ≡ p.1
    rescued (ok x, w) = refl
    rescued (throw e, w) = ground arith

    receive_lem :
        (s : HandlerState (WampWorld V)) (c : HttpsWebsocketClient) (m : Bytes)
        (t : ClientState (WampWorld V))
        → s.websocket ≡ some c
        → s.on_message_received ≡ some (on_message json)
        → Client.receive_message (lifted api) (record { client = c; world = s.world }) ≡ (ok m, t)
        → receive_message (lifted api) (files_of files) (sleep_of sleep) s ≡ (
          returns tt,
          record (set_websocket (some t.client) s) { world = (on_message json m t.world).1 },
        )
    unfolding receive_message
    receive_lem s c m t e w r = elim (Act-cases (on_message json m t.world)) [
      | inl (_, u, q) ↦ ground arith
      | inr (x, u, q) ↦ ground arith
    ]

    -- Where the handler is wired and its client receives a text that reads as an event, the round of
    -- the loop hands the event to the callback for it, with its parts, and returns, even where
    -- the callback throws.
    pub receive_message-deliver :
        (s : HandlerState (WampWorld V)) (c : HttpsWebsocketClient) (m : Bytes) (e : Event)
        (t : ClientState (WampWorld V))
        → IsWired s
        → s.websocket ≡ some c
        → Client.receive_message (lifted api) (record { client = c; world = s.world }) ≡ (ok m, t)
        → m ≢ []
        → Reads json m e
        → receive_message (lifted api) (files_of files) (sleep_of sleep) s ≡ (
          returns tt,
          record (set_websocket (some t.client) s) { world = (deliver json e t.world).1 },
        )
    receive_message-deliver s c m e t h held received ne reads =
        receive_lem s c m t held h.message received
        ∙ ap (λ w. (returns tt, record (set_websocket (some t.client) s) { world = w }))
            (ap (λ p. p.1) (on_message-deliver json m e t.world ne reads)
              ∙ rescued (deliver json e t.world))
