-- ===== src/Websocket/Tests/Hearing.antt =====
-- A peer that sends a text in one frame and another in two, and a user who writes down what comes.
use rito.Common.{true, false, some, List, [], ◌∷◌, Bytes, codes, equal, if◌then◌else◌, ◌≡◌, refl}
use rito.Exception.{poco_timeout, poco_other}
use rito.Result.{Result, ok, throw}
use rito.Act.{Done}
use rito.Process.FileSystem.{FileSystem}
use rito.Outcome.{returns}
use rito.Websocket.Client.{
  Received, WebSocketApi, HttpsWebsocketClient, receive_message, receive_frames,
}
use rito.Websocket.Handler.{HandlerState, main_loop}
use rito.Websocket.Handler
use rito.Websocket.Handler.Hearing.{Hears, silence, hears, quiet_rounds, main_loop-Hears}

record Desk : Type 0 where
  incoming : List Received
  notes : List Bytes

abbrev poco : WebSocketApi Desk
poco = record {
  method_get = codes "GET";
  http_1_1 = codes "HTTP/1.1";
  frame_text = 129;
  frame_flag_fin = 128;
  new_session = λ host port w. (ok port, w);
  close_session = λ n w. w;
  open_websocket = λ n r w. (ok 7, w);
  set_max_payload_size = λ ws n w. (ok tt, w);
  shutdown = λ ws w. (ok tt, w);
  close = λ ws w. w;
  send_frame = λ ws f w. (ok tt, w);
  receive_frame = λ ws w. elim w.incoming [
    | [] ↦ (throw (poco_timeout (codes "Timeout")), w)
    | f ∷ fs ↦ (ok f, record w { incoming = fs })
  ];
}

abbrev client : HttpsWebsocketClient
client = record {
  connected = true;
  host = codes "127.0.0.1";
  port = 50123;
  session = 50123;
  username = codes "riot";
  password = codes "t";
  request = record {
    method = codes "GET";
    uri = codes "/";
    version = codes "HTTP/1.1";
    calls = [];
  };
  websocket = some 7;
}

-- The second note does not fit, and the user throws.
abbrev note : Bytes → Desk → Result Done × Desk
note m w = (
  if equal m (codes "ab") then throw (poco_other (codes "full")) else ok tt,
  record w { notes = m ∷ w.notes },
)

abbrev files : Desk → FileSystem
files _ = record { list_dir = λ dir. ok []; read_file = λ path. [] }

abbrev desk : List Received → List Bytes → Desk
desk incoming notes = record { incoming = incoming; notes = notes }

abbrev second : List Received
second =
    record { payload = codes "a"; flags = 1 } ∷ record { payload = codes "b"; flags = 128 } ∷ []

abbrev handler : HandlerState Desk
handler = record {
  handler = record (Handler.create) { websocket = some client; on_message_received = some note };
  world = desk (record { payload = codes "x"; flags = 128 } ∷ second) [];
}

heard_one :
    receive_message poco (record { client = client; world = handler.world })
    ≡ (ok (codes "x"), record { client = client; world = desk second [] })
unfolding receive_message receive_frames
heard_one = refl

heard_two :
    receive_message poco (record { client = client; world = desk second (codes "x" ∷ []) })
    ≡ (ok (codes "ab"), record { client = client; world = desk [] (codes "x" ∷ []) })
unfolding receive_message receive_frames
heard_two = refl

noted : note (codes "x") (desk second []) ≡ (ok tt, desk second (codes "x" ∷ []))
unfolding equal
noted = refl

thrown :
    note (codes "ab") (desk [] (codes "x" ∷ []))
    ≡ (throw (poco_other (codes "full")), desk [] (codes "ab" ∷ codes "x" ∷ []))
unfolding equal
thrown = refl

heard :
    Hears poco files
      (λ w. w)
      client
      note
      handler.world
      (codes "x" ∷ codes "ab" ∷ [])
      (desk [] (codes "ab" ∷ codes "x" ∷ []))
heard = hears (codes "x") _ _ _ heard_one noted (hears (codes "ab") _ _ _ heard_two thrown silence)

main_loop-Hears_example :
    main_loop poco files
      (λ w. w)
      (quiet_rounds poco files (λ w. w) client note (codes "x" ∷ codes "ab" ∷ []))
      handler
    ≡ (returns false, record handler { world = desk [] (codes "ab" ∷ codes "x" ∷ []) })
main_loop-Hears_example =
    main_loop-Hears poco files (λ w. w) client note handler (codes "x" ∷ codes "ab" ∷ [])
      (desk [] (codes "ab" ∷ codes "x" ∷ [])) refl refl refl refl heard
