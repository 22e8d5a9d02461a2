-- ===== src/Wamp/Tests.antt =====
-- A JSON library for texts of one character per element, a user who keeps what the callbacks were
-- given, and the theorems on them.
mod Calling
use rito.Common.{
  ℕ, zero, suc, ◌-◌, true, false, none, some, List, [], ◌∷◌, Bytes, codes, ◌≡◌, refl, sym, subst,
  ◌∙◌, arith,
}
use rito.Exception.{Thrown, poco_other, is_poco, foreign}
use rito.Result.{Result, ok, throw}
use rito.Act.{rescue}
use rito.Process.FileSystem.{FileSystem}
use rito.Outcome.{returns}
use rito.Websocket.Client.{WebSocketApi, HttpsWebsocketClient}
use rito.Websocket.Client
use rito.Websocket.Handler.{HandlerState, set_websocket, register, main_loop}
use rito.Wamp.Handler.{WampCall, lifted, files_of, sleep_of, create, call_with, run}
use rito.Wamp.Handler.Calling.{call_with-Sends}
use rito.Websocket.Handler.Sending.{Sends}
use rito.Wamp.Handler.Listening.{Delivers, nothing, delivers, texts, main_loop-Delivers}
use rito.Websocket.Handler.Hearing.{quiet_rounds}
use rito.Wamp.Handler.Wiring.{IsWired, run_op, Operation-IsWired}
use rito.Wamp.Dispatch.{
  JsonApi, WampWorld, on_event, parse_event, switch, swallow, dispatch_message, on_message,
}
use rito.Wamp.Dispatch.Delivery.{
  Event, occurrence, Says, says_result, says_error, says_event, says_other, Reads, OnlyPoco, Hands,
  called, on_message-Hands, on_message_unread, error,
}

abbrev element : Bytes → ℕ → Result Bytes
element [] n = throw (poco_other (codes "no such element"))
element (c ∷ s) zero = ok (c ∷ [])
element (c ∷ s) (suc n) = element s n

-- A digit is a number.
abbrev to_int : Result Bytes → Result ℕ
to_int (ok []) = ok 0
to_int (ok (c ∷ s)) = ok (c - b'0')
to_int (throw e) = throw (poco_other (codes "no number"))

abbrev json : JsonApi Bytes Bytes
json = record {
  parse = λ m. ok m;
  extract_array = λ v. ok v;
  get_int = λ a n. to_int (element a n);
  get_string = element;
}

element-throws : (a : Bytes) (n : ℕ) (e : Thrown) → element a n ≡ throw e → is_poco e ≡ true
unfolding is_poco
element-throws [] n e h = ground arith
element-throws (c ∷ s) zero e h = ground arith
element-throws (c ∷ s) (suc n) e h = element-throws s n e h

to_int-throws : (r : Result Bytes) (e : Thrown) → to_int r ≡ throw e → is_poco e ≡ true
unfolding is_poco
to_int-throws (ok []) e h = ground arith
to_int-throws (ok (c ∷ s)) e h = ground arith
to_int-throws (throw x) e h = ground arith

json-OnlyPoco : OnlyPoco json
json-OnlyPoco = record {
  parse_throws = λ m e h. ground arith;
  extract_throws = λ v e h. ground arith;
  int_throws = λ a i e h. to_int-throws (element a i) e h;
  string_throws = λ a i e h. element-throws a i e h;
}

-- The world outside is the list of what the callback for events was given.
abbrev state : WampWorld (List (Bytes × Bytes))
state = record {
  callbacks = record {
    on_connected_callback = none;
    on_disconnected_callback = none;
    on_call_result_callback = none;
    on_call_error_callback = none;
    on_event_callback = some (λ name json_data w. (ok tt, (name, json_data) ∷ w));
  };
  world = [];
}

delivered : (on_message json (codes "8nd") state).1.world ≡ (codes "n", codes "d") ∷ []
unfolding on_message dispatch_message switch parse_event on_event
delivered = refl

abbrev reads_event : Reads json (codes "8nd") (occurrence (codes "n") (codes "d"))
reads_event = record {
  var = codes "8nd";
  array = codes "8nd";
  parsed = refl;
  extracted = refl;
  says = says_event (codes "n") (codes "d") refl refl refl;
}

-- A result with no data is not read.
unsaid : (e : Event) (a : Bytes) → codes "3i" ≡ a → ¬ Says json a e
unsaid e a h (says_result i d n p q) =
    let missing : element (codes "3i") 2 ≡ ok d = subst (λ b. element b 2 ≡ ok d) (sym h) q in cc
unsaid e a h (says_error i x d n p q s) =
    let three : to_int (element (codes "3i") 0) ≡ ok 4 =
      subst (λ b. to_int (element b 0) ≡ ok 4) (sym h) n in
    ground arith
unsaid e a h (says_event i d n p q) =
    let three : to_int (element (codes "3i") 0) ≡ ok 8 =
      subst (λ b. to_int (element b 0) ≡ ok 8) (sym h) n in
    ground arith
unsaid e a h (says_other k n x y z) =
    let three : to_int (element (codes "3i") 0) ≡ ok k =
      subst (λ b. to_int (element b 0) ≡ ok k) (sym h) n in
    x (ground arith)

unread : (e : Event) → ¬ Reads json (codes "3i") e
unread e r =
    let same : codes "3i" ≡ r.var = ground (arith, r.parsed) in
    let same' : r.var ≡ r.array = ground (arith, r.extracted) in
    unsaid e r.array (same ∙ same') r.says

-- A callback for errors that throws what is not Poco's, and a message that is one.
abbrev throwing : WampWorld (List (Bytes × Bytes))
throwing = record state {
  callbacks = record (state.callbacks) {
    on_call_error_callback = some (λ i e d w. (throw foreign, (i, d) ∷ w));
  };
}

abbrev reads_error : Reads json (codes "4iex") (error (codes "i") (codes "e") (codes "x"))
reads_error = record {
  var = codes "4iex";
  array = codes "4iex";
  parsed = refl;
  extracted = refl;
  says = says_error (codes "i") (codes "e") (codes "x") refl refl refl refl;
}

error-Hands :
    Hands
      (error (codes "i") (codes "e") (codes "x"))
      throwing
      (on_message json (codes "4iex") throwing).0
      (on_message json (codes "4iex") throwing).1
error-Hands =
    on_message-Hands json (codes "4iex") (error (codes "i") (codes "e") (codes "x")) throwing
      (λ h. cc) reads_error

on_message-Hands_example :
    Hands
      (occurrence (codes "n") (codes "d"))
      state
      (on_message json (codes "8nd") state).0
      (on_message json (codes "8nd") state).1
on_message-Hands_example =
    on_message-Hands json (codes "8nd") (occurrence (codes "n") (codes "d")) state (λ h. cc)
      reads_event

on_message_unread_example : on_message json (codes "3i") state ≡ (ok tt, state)
on_message_unread_example = on_message_unread json json-OnlyPoco (codes "3i") state unread

-- The websocket of a wired handler, whose peer sends one text.
abbrev poco : WebSocketApi (List (Bytes × Bytes))
poco = record {
  method_get = codes "GET";
  http_1_1 = codes "HTTP/1.1";
  frame_text = 129;
  frame_flag_fin = 128;
  new_session = λ host port w. (ok port, w);
  close_session = λ n w. w;
  open_websocket = λ n r w. (ok 7, w);
  set_max_payload_size = λ ws n w. (ok tt, w);
  shutdown = λ ws w. (ok tt, w);
  close = λ ws w. w;
  send_frame = λ ws f w. (ok tt, w);
  receive_frame = λ ws w. (ok (record { payload = codes "8nd"; flags = 129 }), w);
}

abbrev files : List (Bytes × Bytes) → FileSystem
files _ = record { list_dir = λ dir. ok []; read_file = λ path. [] }

abbrev client : HttpsWebsocketClient
client = record {
  connected = true;
  host = codes "127.0.0.1";
  port = 50123;
  session = 50123;
  username = codes "riot";
  password = codes "t";
  request = record {
    method = codes "GET";
    uri = codes "/";
    version = codes "HTTP/1.1";
    calls = [];
  };
  websocket = some 7;
}

abbrev wired : HandlerState (WampWorld (List (Bytes × Bytes)))
wired = record (set_websocket (some client) (create json [])) { world = state }

wired-IsWired : IsWired json wired
unfolding create register
wired-IsWired = record { message = refl; connected = refl; disconnected = refl }

Operation-IsWired_example :
    IsWired json
      (run poco files
        (λ w. w)
        ((WampCall.subscribe_call (codes "e") ∷ []) ∷ (WampCall.stop_call ∷ []) ∷ [])
        wired).1
Operation-IsWired_example =
    Operation-IsWired json poco files (λ w. w)
      (run_op ((WampCall.subscribe_call (codes "e") ∷ []) ∷ (WampCall.stop_call ∷ []) ∷ []) wired)
      wired-IsWired

received :
    Client.receive_message (lifted poco) (record { client = client; world = state })
    ≡ (ok (codes "8nd"), record { client = client; world = state })
unfolding Client.receive_message Client.receive_frames
received = refl

wired_websocket : wired.websocket ≡ some client
unfolding create register
wired_websocket = refl

-- What the callback for events leaves.
abbrev holding : List (Bytes × Bytes) → WampWorld (List (Bytes × Bytes))
holding w = record state { world = w }

abbrev once : List (Bytes × Bytes)
once = (codes "n", codes "d") ∷ []

abbrev twice : List (Bytes × Bytes)
twice = (codes "n", codes "d") ∷ once

handed :
    (w : List (Bytes × Bytes))
    → Hands
        (occurrence (codes "n") (codes "d"))
        (holding w)
        (ok tt)
        (holding ((codes "n", codes "d") ∷ w))
handed w =
    called (λ v. (ok tt, (codes "n", codes "d") ∷ v)) ((codes "n", codes "d") ∷ w) refl refl refl
      refl

received_again :
    Client.receive_message (lifted poco) (record { client = client; world = holding once })
    ≡ (ok (codes "8nd"), record { client = client; world = holding once })
unfolding Client.receive_message Client.receive_frames
received_again = refl

-- The same text twice.
abbrev events : List (Bytes × Event)
events =
    (codes "8nd", occurrence (codes "n") (codes "d"))
    ∷ (codes "8nd", occurrence (codes "n") (codes "d"))
    ∷ []

delivered_twice : Delivers json poco files (λ w. w) client state events (holding twice)
delivered_twice =
    delivers (codes "8nd") (occurrence (codes "n") (codes "d")) state (holding once) (ok tt)
      received (λ h. cc) reads_event (handed [])
      (delivers (codes "8nd") (occurrence (codes "n") (codes "d")) (holding once) (holding twice)
        (ok tt) received_again (λ h. cc) reads_event (handed once) nothing)

still_running : wired.stop_flag ≡ false
unfolding create register
still_running = refl

main_loop-Delivers_example :
    main_loop
      (lifted poco)
      (files_of files)
      (sleep_of (λ w. w))
      (quiet_rounds
        (lifted poco)
        (files_of files)
        (sleep_of (λ w. w))
        client
        (on_message json)
        (texts json poco files (λ w. w) client events))
      wired
    ≡ (returns false, record wired { world = holding twice })
main_loop-Delivers_example =
    main_loop-Delivers json poco files (λ w. w) client wired events (holding twice) wired-IsWired
      refl still_running wired_websocket delivered_twice
