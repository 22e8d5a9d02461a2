-- ===== src/Websocket/Handler.antt =====
-- src/lcu_websocket_handler.cpp and include/rito/lcu_websocket_handler.h. The loop runs over a
-- schedule: the calls that other threads complete before each of its rounds. Each method is one
-- step here: the steps of two threads do not mix inside a method.
pub mod Stopping
pub mod Returning
pub mod Ending
pub mod Sending
pub mod Connecting
pub mod Recovering
pub mod Hearing
pub mod Sessions
pub mod Callbacks
pub mod Notices
pub mod Balance
use rito.Common.{
  ℕ, Bool, true, false, not, ◌&&◌, Option, none, some, List, [], ◌∷◌, Bytes, codes, if◌then◌else◌,
}
use rito.Result.{Result, ok, throw}
use rito.Act
use rito.Act.{Act}
use rito.Types.{MessageCallback, ConnectionCallback}
use rito.Process.FileSystem.{FileSystem}
use rito.Process.Handler.{LcuProcessHandler, get_lcu_process_parameters, default_proc_dir}
use rito.Process.Handler
use rito.Rest.Lcu.{localhost, lcu_user}
use rito.Outcome.{
  Outcome, returns, throws, terminates, outcome, Method, Done, pure, after, rescue, no_throw,
  catch_all, noexcept, ◌>>=◌, ◌>>◌,
}
use rito.Websocket.Client.{WebSocketApi, HttpsWebsocketClient, ClientState}
use rito.Websocket.Client

-- An empty std::function is none.
pub record LcuWebsocketHandler (W : Type 0) : Type 0 where
  pub websocket : Option HttpsWebsocketClient
  pub is_state_connected : Bool
  pub stop_flag : Bool
  pub on_message_received : Option (MessageCallback W)
  pub on_connected : Option (ConnectionCallback W)
  pub on_disconnected : Option (ConnectionCallback W)
  pub process_handler : LcuProcessHandler

pub record HandlerState (W : Type 0) : Type 0 where
  pub handler : LcuWebsocketHandler W
  pub open handler use *
  pub world : W

-- The constructor.
abbrev pub create : {W : Type 0} → LcuWebsocketHandler W
create = record {
  websocket = none;
  is_state_connected = false;
  stop_flag = false;
  on_message_received = none;
  on_connected = none;
  on_disconnected = none;
  process_handler = Handler.create default_proc_dir;
}

-- What the register functions are given.
pub data Registration (W : Type 0) : Type 0 where
  message_callback : Option (MessageCallback W) → Registration W
  connected_callback disconnected_callback : Option (ConnectionCallback W) → Registration W

-- What other threads do while the loop runs: the public calls, and anything outside the handler.
pub data Call (W : Type 0) : Type 0 where
  stop_call : Call W
  send_call : Bytes → Call W
  register_call : Registration W → Call W
  outside_call : (W → W) → Call W

module _ {W : Type 0} where
  abbrev pub set_websocket : Option HttpsWebsocketClient → HandlerState W → HandlerState W
  set_websocket o s = record s { handler = record (s.handler) { websocket = o } }

  abbrev pub set_state : Bool → HandlerState W → HandlerState W
  set_state b s = record s { handler = record (s.handler) { is_state_connected = b } }

  abbrev pub set_stop : Bool → HandlerState W → HandlerState W
  set_stop b s = record s { handler = record (s.handler) { stop_flag = b } }

  unfoldable pub register : Registration W → HandlerState W → HandlerState W
  register (message_callback f) s = record s {
    handler = record (s.handler) { on_message_received = f };
  }
  register (connected_callback f) s = record s { handler = record (s.handler) { on_connected = f } }
  register (disconnected_callback f) s = record s {
    handler = record (s.handler) { on_disconnected = f };
  }

  abbrev pub outside : {A : Type 0} → Act W A → Method (HandlerState W) A
  outside m s = let (r, w) = m s.world in (outcome r, record s { world = w })

  -- A method of the client that `m_websocket` points to.
  abbrev pub on_client :
      {A : Type 0} → HttpsWebsocketClient → Act (ClientState W) A → Method (HandlerState W) A
  on_client c m s =
      let (r, t) = m (record { client = c; world = s.world }) in
      (outcome r, record (set_websocket (some t.client) s) { world = t.world })

  unfoldable pub is_connected : HandlerState W → Bool
  is_connected s = elim s.websocket [ none ↦ false | some c ↦ c.connected ]

  -- A callback that may be empty.
  abbrev pub invoke : Option (ConnectionCallback W) → Method (HandlerState W) Done
  invoke none = pure tt
  invoke (some f) = outside f

  -- Which callback a change of state calls.
  abbrev pub notice :
      Bool
      → Bool
      → Option (ConnectionCallback W)
      → Option (ConnectionCallback W)
      → Method (HandlerState W) Done
  notice connected was up down =
      if connected && not was
      then invoke up
      else if not connected && was
      then invoke down
      else pure tt

  unfoldable pub notify_connection_state_changed : Bool → Method (HandlerState W) Done
  notify_connection_state_changed connected s =
      (do
        notice connected s.is_state_connected s.on_connected s.on_disconnected
        λ t. (returns tt, set_state connected t))
        s

module _ {W : Type 0} (api : WebSocketApi W) (files : W → FileSystem) (sleep : W → W) where
  -- `m_websocket.reset()`, with the client's destructor.
  unfoldable pub reset_websocket : Method (HandlerState W) Done
  reset_websocket s = elim s.websocket [
    | none ↦ (returns tt, s)
    | some c ↦
        (do noexcept (on_client c (Client.destroy api)); λ t. (returns tt, set_websocket none t)) s
  ]

  -- The part of reconnect under `if (!m_websocket)`.
  unfoldable pub make_client : Method (HandlerState W) Done
  make_client s =
      (do
        ps ← λ t. (outcome (get_lcu_process_parameters (files t.world) t.process_handler), t)
        c ← outside (Client.create api localhost ps.app_port)
        let c' = Client.set_credentials api lcu_user ps.remoting_auth_token c
        on_client c' (Client.start api))
        s

  unfoldable pub reconnect : Method (HandlerState W) Done
  reconnect s = elim s.websocket [
    | none ↦ make_client s
    | some c ↦ if c.connected then (returns tt, s) else (do reset_websocket; make_client) s
  ]

  -- A null pointer, which the loop never follows, ends the process.
  unfoldable pub receive_message : Method (HandlerState W) Done
  receive_message s = elim s.websocket [
    | none ↦ (terminates, s)
    | some c ↦
        catch_all
          (do
            response ← on_client c (Client.receive_message api)
            λ t. elim t.on_message_received [
              | none ↦ (returns tt, t)
              | some f ↦ outside (f response) t
            ])
          (pure tt) s
  ]

  unfoldable pub reconnect_and_notify : Method (HandlerState W) Done
  reconnect_and_notify = do
    notify_connection_state_changed false
    catch_all (do reconnect; notify_connection_state_changed true)
        (λ s. (returns tt, record s { world = sleep s.world }))

  -- One round of the loop; true where it breaks.
  unfoldable pub round : Method (HandlerState W) Bool
  round s =
      if s.stop_flag
      then (do reset_websocket; notify_connection_state_changed false; pure true) s
      else if is_connected s
      then (do receive_message; pure false) s
      else (do reconnect_and_notify; pure false) s

  unfoldable pub send_message : Bytes → Method (HandlerState W) Bool
  send_message message s = elim s.websocket [
    | none ↦ (returns false, s)
    | some c ↦
        if c.connected
        then noexcept (on_client c (Client.send_message api message)) s
        else (returns false, s)
  ]

  unfoldable pub stop : Method (HandlerState W) Done
  stop s = (do send_message (codes "Exit"); λ t. (returns tt, t)) (set_stop true s)

  unfoldable pub perform : Call W → Method (HandlerState W) Done
  perform stop_call s = stop s
  perform (send_call m) s = (do send_message m; pure tt) s
  perform (register_call f) s = (returns tt, register f s)
  perform (outside_call f) s = (returns tt, record s { world = f s.world })

  unfoldable pub perform_all : List (Call W) → Method (HandlerState W) Done
  perform_all [] = pure tt
  perform_all (c ∷ cs) = do perform c; perform_all cs

  -- True where the loop has broken, false where it still runs at the end of the schedule.
  unfoldable pub main_loop : List (List (Call W)) → Method (HandlerState W) Bool
  main_loop [] s = (returns false, s)
  main_loop (calls ∷ rest) s = after (perform_all calls s) (λ _ t.
      after (round t)
        (λ broke u. elim broke [ true ↦ (returns true, u) | false ↦ main_loop rest u ]))

  unfoldable pub run : List (List (Call W)) → Method (HandlerState W) Bool
  run schedule s = noexcept (main_loop schedule) (set_stop false s)

  -- The destructor, with that of the client that `m_websocket` points to.
  unfoldable pub destroy : Method (HandlerState W) Done
  destroy = do stop; reset_websocket
