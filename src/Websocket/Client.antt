-- ===== src/Websocket/Client.antt =====
-- src/https_websocket_client.cpp and its header. Poco's sessions and websockets are a parameter,
-- WebSocketApi. A method takes the client with all that lies outside the program.
pub mod Receive
pub mod Validity
pub mod Untouched
pub mod Sessions
pub mod Bounds
use Prim.Native.Nat.{bit_and}
use rito.Common.{
  ℕ, zero, suc, ◌+◌, ◌*◌, ◌%◌, ◌^◌, Bool, true, false, not, ◌&&◌, Option, none, some, List, [], ◌∷◌,
  ◌++◌, Bytes, codes, length, ◌==◌, if◌then◌else◌,
}
use rito.Common.Decimal.{to_string}
use rito.Exception.{
  Thrown, websocket_exception, message_exception, unknown_exception, poco_websocket, poco_timeout,
  std_what,
}
use rito.Result.{Result, ok, throw}
use rito.Act.{Act, Done, pure, raise, ◌>>=◌, ◌>>◌, after, rescue, try_catch}
use rito.Rest.Client.{HttpRequest, RequestCall, authenticate}

abbrev pub max_frame_size : ℕ
max_frame_size = 65536

abbrev pub max_frames_per_message : ℕ
max_frames_per_message = 255

-- What receiveFrame appends to the buffer, the length of which it returns, and the flags.
pub record Received : Type 0 where
  pub payload : Bytes
  pub flags : ℕ

-- The arguments of sendFrame; `size` is an int as 32 bits.
pub record Frame : Type 0 where
  pub bytes : Bytes
  pub size : ℕ
  pub kind : ℕ

-- Poco::Net, over the state `W` of all that lies outside the program. Sessions and websockets are
-- known by numbers. Each call may throw.
pub record WebSocketApi (W : Type 0) : Type 0 where
  pub method_get : Bytes
  pub http_1_1 : Bytes
  pub frame_text : ℕ
  pub frame_flag_fin : ℕ
  pub new_session : Bytes → ℕ → W → Result ℕ × W
  pub close_session : ℕ → W → W
  -- the constructor of WebSocket, which makes the handshake
  pub open_websocket : ℕ → HttpRequest → W → Result ℕ × W
  pub set_max_payload_size : ℕ → ℕ → W → Result Done × W
  pub shutdown : ℕ → W → Result Done × W
  pub close : ℕ → W → W
  pub send_frame : ℕ → Frame → W → Result Done × W
  pub receive_frame : ℕ → W → Result Received × W

pub record HttpsWebsocketClient : Type 0 where
  pub connected : Bool
  pub host : Bytes
  pub port : ℕ
  pub session : ℕ
  pub username : Bytes
  pub password : Bytes
  pub request : HttpRequest
  pub websocket : Option ℕ

pub record ClientState (W : Type 0) : Type 0 where
  pub client : HttpsWebsocketClient
  pub open client use *
  pub world : W

abbrev pub not_started : Bytes
not_started = codes "Websocket client is not started"

abbrev pub disconnected : Bytes
disconnected = codes "Websocket client is disconnected"

abbrev pub too_long : Bytes
too_long = codes "Message is longer than " ++ to_string (max_frame_size * max_frames_per_message)

-- The catch clauses of start.
unfoldable pub start_failure : Thrown → Thrown
unfolding std_what
start_failure (poco_websocket what) =
    websocket_exception (codes "Failed to connect to websocket: " ++ what)
start_failure e = elim (std_what e) [ none ↦ e | some what ↦ unknown_exception what ]

module _ {W : Type 0} where
  abbrev pub set_connected : Bool → ClientState W → ClientState W
  set_connected b s = record s { client = record (s.client) { connected = b } }

  abbrev pub set_websocket : Option ℕ → ClientState W → ClientState W
  set_websocket o s = record s { client = record (s.client) { websocket = o } }

  -- An action on what lies outside, as a step of the client.
  abbrev pub outside : {A : Type 0} → Act W A → Act (ClientState W) A
  outside m s = let (r, w) = m s.world in (r, record s { world = w })

  -- The catch clauses of receive_message; the throw behind the block follows a timeout.
  unfoldable pub receive_failure : Thrown → Act (ClientState W) Bytes
  unfolding std_what
  receive_failure (poco_timeout _) s = (throw (websocket_exception not_started), s)
  receive_failure (websocket_exception what) s = (throw (websocket_exception what), s)
  receive_failure (message_exception what) s = (throw (message_exception what), s)
  receive_failure e s = elim (std_what e) [
    | none ↦ (throw e, s)
    | some what ↦ (throw (unknown_exception what), set_connected false s)
  ]

module _ {W : Type 0} (api : WebSocketApi W) where
  -- The constructor.
  unfoldable pub create : Bytes → ℕ → Act W HttpsWebsocketClient
  create host port = do
    session ← api.new_session host port
    pure (record {
      connected = false;
      host = host;
      port = port;
      session = session;
      username = [];
      password = [];
      request = record {
        method = api.method_get;
        uri = b'/' ∷ [];
        version = api.http_1_1;
        calls = [];
      };
      websocket = none;
    })

  unfoldable pub set_credentials : Bytes → Bytes → HttpsWebsocketClient → HttpsWebsocketClient
  set_credentials username password c = record c {
    username = username;
    password = password;
    request = record (c.request) { calls = c.request.calls ++ authenticate username password ∷ [] };
  }

  unfoldable pub is_connected : HttpsWebsocketClient → Bool
  is_connected c = c.connected

  unfoldable pub start : Act (ClientState W) Done
  start s = elim s.websocket [
    | some _ ↦ (ok tt, s)
    | none ↦
        try_catch
          (do
            ws ← outside (api.open_websocket s.session s.request)
            λ t. (ok tt, set_websocket (some ws) t)
            outside (api.set_max_payload_size ws max_frame_size)
            λ t. (ok tt, set_connected true t))
          (λ e. raise (start_failure e)) s
  ]

  -- `m_websocket.reset()`, where it holds `ws`.
  abbrev pub reset_websocket : ℕ → ClientState W → ClientState W
  reset_websocket ws s = record (set_websocket none s) { world = api.close ws s.world }

  unfoldable pub stop : Act (ClientState W) Done
  stop s = elim s.websocket [
    | none ↦ (ok tt, s)
    | some ws ↦
        if s.connected
        then after (outside (api.shutdown ws) (set_connected false s))
            (λ _ t. (ok tt, reset_websocket ws t))
        else (ok tt, reset_websocket ws s)
  ]

  -- The destructor: stop, and then the end of the session that is a member.
  unfoldable pub destroy : Act (ClientState W) Done
  destroy s =
      after (stop s) (λ _ t. (ok tt, record t { world = api.close_session t.session t.world }))

  unfoldable pub send_message : Bytes → Act (ClientState W) Bool
  send_message message s = elim s.websocket [
    | none ↦ (ok false, s)
    | some ws ↦
        (do
          outside (
              api.send_frame ws
                (record { bytes = message; size = length message % 2 ^ 32; kind = api.frame_text }))
          pure true)
          s
  ]

  -- What a frame says of the message.
  abbrev pub is_closing : Received → Bool
  is_closing r = length r.payload == 0 && r.flags == 0

  abbrev pub is_last : Received → Bool
  is_last r = not (bit_and r.flags api.frame_flag_fin == 0)

  -- The loop, on the frames still allowed.
  unfoldable pub receive_frames : ℕ → ℕ → Bytes → Act (ClientState W) Bytes
  receive_frames zero ws buffer s = (throw (message_exception too_long), s)
  receive_frames (suc n) ws buffer s = after (outside (api.receive_frame ws) s) (λ r t.
      elim (is_closing r) [
        | true ↦ (throw (websocket_exception disconnected), set_connected false t)
        | false ↦ elim (is_last r) [
          | true ↦ (ok (buffer ++ r.payload), t)
          | false ↦ receive_frames n ws (buffer ++ r.payload) t
        ]
      ])

  unfoldable pub receive_message : Act (ClientState W) Bytes
  receive_message s = elim s.websocket [
    | none ↦ (throw (websocket_exception not_started), s)
    | some ws ↦ try_catch (receive_frames max_frames_per_message ws []) receive_failure s
  ]
