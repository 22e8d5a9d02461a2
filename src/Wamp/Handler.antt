-- ===== src/Wamp/Handler.antt =====
-- The Lcu_wamp_handler itself, of src/lcu_wamp_handler.cpp: a websocket handler whose callbacks are
-- the WAMP handler's, and whose world holds the WAMP handler's own callbacks.
pub mod Wiring
pub mod Calling
pub mod Listening
use rito.Common.{ℕ, Bool, Option, none, some, List, map, Bytes}
use rito.Act.{Act, Done}
use rito.Process.FileSystem.{FileSystem}
use rito.Outcome
use rito.Outcome.{Method}
use rito.Websocket.Client.{WebSocketApi}
use rito.Websocket.Handler.{
  HandlerState, Call, send_call, outside_call, Registration, message_callback, connected_callback,
  disconnected_callback, register,
}
use rito.Websocket.Handler
use rito.Types.{
  ConnectionCallback, WampCallResultCallback, WampCallErrorCallback, WampEventCallback,
}
use rito.Wamp.Messages.{subscribe_message, unsubscribe_message, call_message, call_with_message}
use rito.Wamp.Dispatch.{
  JsonApi, WampCallbacks, WampWorld, outside, on_connected, on_disconnected, on_message,
}

-- An Lcu_wamp_handler with what lies outside: its websocket handler, and in the world its callbacks.
abbrev pub LcuWampHandler : Type 0 → Type 0
LcuWampHandler V = HandlerState (WampWorld V)

-- What the register functions are given.
pub data WampRegistration (V : Type 0) : Type 0 where
  user_connected user_disconnected : Option (ConnectionCallback V) → WampRegistration V
  user_call_result : Option (WampCallResultCallback V) → WampRegistration V
  user_event : Option (WampEventCallback V) → WampRegistration V
  user_call_error : Option (WampCallErrorCallback V) → WampRegistration V

-- The public calls of other threads.
pub data WampCall (V : Type 0) : Type 0 where
  stop_call : WampCall V
  subscribe_call unsubscribe_call : Bytes → WampCall V
  call_call : Bytes → Bytes → WampCall V
  call_with_call : Bytes → Bytes → Bytes → List Bytes → WampCall V
  register_call : WampRegistration V → WampCall V

module _ {V : Type 0} where
  abbrev pub no_callbacks : WampCallbacks V
  no_callbacks = record {
    on_connected_callback = none;
    on_disconnected_callback = none;
    on_call_result_callback = none;
    on_call_error_callback = none;
    on_event_callback = none;
  }

  abbrev pub set_callbacks : WampCallbacks V → WampWorld V → WampWorld V
  set_callbacks c w = record w { callbacks = c }

  -- The five register functions.
  unfoldable pub register_callback : WampRegistration V → WampWorld V → WampWorld V
  register_callback (user_connected f) w =
      set_callbacks (record (w.callbacks) { on_connected_callback = f }) w
  register_callback (user_disconnected f) w =
      set_callbacks (record (w.callbacks) { on_disconnected_callback = f }) w
  register_callback (user_call_result f) w =
      set_callbacks (record (w.callbacks) { on_call_result_callback = f }) w
  register_callback (user_call_error f) w =
      set_callbacks (record (w.callbacks) { on_call_error_callback = f }) w
  register_callback (user_event f) w =
      set_callbacks (record (w.callbacks) { on_event_callback = f }) w

  -- What a public call does to the websocket handler.
  unfoldable pub to_call : WampCall V → Call (WampWorld V)
  to_call stop_call = Handler.stop_call
  to_call (subscribe_call event) = send_call (subscribe_message event)
  to_call (unsubscribe_call event) = send_call (unsubscribe_message event)
  to_call (call_call identifier function) = send_call (call_message identifier function)
  to_call (call_with_call identifier function arg args) =
      send_call (call_with_message identifier function arg args)
  to_call (register_call r) = outside_call (register_callback r)

  -- Poco does not reach the handler's callbacks.
  abbrev pub lifted : WebSocketApi V → WebSocketApi (WampWorld V)
  lifted api = record {
    method_get = api.method_get;
    http_1_1 = api.http_1_1;
    frame_text = api.frame_text;
    frame_flag_fin = api.frame_flag_fin;
    new_session = λ host port. outside (api.new_session host port);
    close_session = λ n s. record s { world = api.close_session n s.world };
    open_websocket = λ n r. outside (api.open_websocket n r);
    set_max_payload_size = λ n size. outside (api.set_max_payload_size n size);
    shutdown = λ n. outside (api.shutdown n);
    close = λ n s. record s { world = api.close n s.world };
    send_frame = λ n f. outside (api.send_frame n f);
    receive_frame = λ n. outside (api.receive_frame n);
  }

  abbrev pub files_of : (V → FileSystem) → WampWorld V → FileSystem
  files_of files s = files s.world

  abbrev pub sleep_of : (V → V) → WampWorld V → WampWorld V
  sleep_of sleep s = record s { world = sleep s.world }

  -- The constructor: three registrations at the websocket handler.
  unfoldable pub create : {Var Array : Type 0} → JsonApi Var Array → V → LcuWampHandler V
  create json w =
      let made : LcuWampHandler V = record {
        handler = Handler.create;
        world = record { callbacks = no_callbacks; world = w };
      } in
      register (message_callback (some (on_message json))) (
        register (disconnected_callback (some on_disconnected))
          (register (connected_callback (some on_connected)) made))

module _ {V : Type 0} (api : WebSocketApi V) (files : V → FileSystem) (sleep : V → V) where
  unfoldable pub subscribe : Bytes → Method (LcuWampHandler V) Bool
  subscribe event =
      Handler.send_message (lifted api) (files_of files) (sleep_of sleep) (subscribe_message event)

  unfoldable pub unsubscribe : Bytes → Method (LcuWampHandler V) Bool
  unsubscribe event =
      Handler.send_message (lifted api) (files_of files) (sleep_of sleep)
        (unsubscribe_message event)

  unfoldable pub call : Bytes → Bytes → Method (LcuWampHandler V) Bool
  call identifier function =
      Handler.send_message (lifted api) (files_of files) (sleep_of sleep)
        (call_message identifier function)

  unfoldable pub call_with : Bytes → Bytes → Bytes → List Bytes → Method (LcuWampHandler V) Bool
  call_with identifier function arg args =
      Handler.send_message (lifted api) (files_of files) (sleep_of sleep)
        (call_with_message identifier function arg args)

  unfoldable pub stop : Method (LcuWampHandler V) Outcome.Done
  stop = Handler.stop (lifted api) (files_of files) (sleep_of sleep)

  -- The schedule lists the public calls that other threads complete before each round.
  unfoldable pub run : List (List (WampCall V)) → Method (LcuWampHandler V) Bool
  run schedule =
      Handler.run (lifted api) (files_of files) (sleep_of sleep)
        (map (λ calls. map to_call calls) schedule)
