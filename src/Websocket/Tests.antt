-- ===== src/Websocket/Tests.antt =====
-- A Poco whose world is the list of frames still to come, and a run of the handler that is stopped
-- in its third round; and the theorems on them.
mod Lives
mod Hearing
use rito.Common.{
  ℕ, suc, ◌+◌, ◌≤◌, true, false, none, some, List, [], ◌∷◌, ◌++◌, codes, ◌≡◌, ◌≢◌, ◌⊎◌, inr, refl,
  arith, ◌==◌, if◌then◌else◌,
}
use rito.Exception.{websocket_exception, poco_timeout}
use rito.Result.{Result, ok, throw}
use rito.Process.FileSystem.{FileSystem}
use rito.Outcome.{returns}
use rito.Websocket.Client.{
  Received, WebSocketApi, HttpsWebsocketClient, ClientState, not_started, start, stop,
  receive_message, receive_failure, receive_frames,
}
use rito.Websocket.Client.Receive.{ReceivesPair, receive_message-Receives}
use rito.Websocket.Client.Validity.{IsValid, receive_op, Operation-IsValid}
use rito.Websocket.Handler.{
  HandlerState, Call, stop_call, send_call, set_websocket, send_message, run,
}
use rito.Websocket.Handler
use rito.Websocket.Handler.Stopping.{is_stopped, IsStopped, run-is_stopped}
use rito.Websocket.Client.Untouched.{Untouched}
use rito.Websocket.Client.Bounds.{IsShort, IsCapped, receive_message-le}
use rito.Websocket.Handler.Balance.{to_ℕ, run-Balanced}
use rito.Act.{Done}
use rito.Websocket.Handler.Sending.{Sends, send_message-Sends}
use rito.Websocket.Handler.Ending.{run_ends}
use rito.Websocket.Race.{
  Shared, top, asking, receiving, reconnecting, LoopMove, receives, finds_not_connected,
}
use rito.Websocket.Race.Passes.{Passes, hears, reconnects}
use rito.Websocket.Handler.Returning.{Quiet, CalmSchedule, run_returns}

abbrev poco : WebSocketApi (List Received)
poco = record {
  method_get = codes "GET";
  http_1_1 = codes "HTTP/1.1";
  frame_text = 129;
  frame_flag_fin = 128;
  new_session = λ host port w. (ok port, w);
  close_session = λ n w. w;
  open_websocket = λ n r w. (ok 7, w);
  set_max_payload_size = λ ws n w. (ok tt, w);
  shutdown = λ ws w. (ok tt, w);
  close = λ ws w. w;
  send_frame = λ ws f w. (ok tt, w);
  receive_frame =
      λ ws w. elim w [ [] ↦ (throw (poco_timeout (codes "Timeout")), []) | f ∷ fs ↦ (ok f, fs) ];
}

poco-Quiet : Quiet poco
poco-Quiet = record { shutdown_ok = λ n w. refl; send_ok = λ n f w. refl }

abbrev client : HttpsWebsocketClient
client = record {
  connected = true;
  host = codes "127.0.0.1";
  port = 50123;
  session = 50123;
  username = codes "riot";
  password = codes "t";
  request = record {
    method = codes "GET";
    uri = codes "/";
    version = codes "HTTP/1.1";
    calls = [];
  };
  websocket = some 7;
}

abbrev fresh_client : HttpsWebsocketClient
fresh_client = record client { connected = false; websocket = none }

-- A text in two frames, and then the frame that says that the peer has gone.
abbrev frames : List Received
frames =
    record { payload = codes "[8,"; flags = 1 }
    ∷ record { payload = codes "\"e\"]"; flags = 128 }
    ∷ record { payload = []; flags = 0 }
    ∷ []

abbrev state : List Received → ClientState (List Received)
state w = record { client = client; world = w }

abbrev fresh : ClientState (List Received)
fresh = record { client = fresh_client; world = frames }

joined : (receive_message poco (state frames)).0 ≡ ok (codes "[8,\"e\"]")
unfolding receive_message receive_frames
joined = refl

-- After a timeout the exception says that the client was not started.
timed_out : receive_message poco (state []) ≡ (throw (websocket_exception not_started), state [])
unfolding receive_message receive_frames receive_failure
timed_out = refl

started : start poco fresh ≡ (ok tt, state frames)
unfolding start
started = refl

receive_message-Receives_example :
    ReceivesPair poco (state frames) (receive_message poco (state frames))
receive_message-Receives_example = receive_message-Receives poco (state frames)

Operation-IsValid_example : IsValid (receive_message poco (state frames)).1.client
Operation-IsValid_example = Operation-IsValid poco (receive_op (state frames)) (λ h. cc)

-- The client's process is there.
abbrev files : List Received → FileSystem
files _ = record {
  list_dir = λ dir. ok (ok (codes "17") ∷ []);
  read_file = λ path. codes "LeagueClientUx.exe --remoting-auth-token=t --app-port=50123 --x";
}

abbrev sleep : List Received → List Received
sleep w = w

abbrev handler : HandlerState (List Received)
handler = record { handler = Handler.create; world = frames }

-- The first round connects, the second receives, and the third leaves the loop.
abbrev schedule : List (List (Call (List Received)))
schedule = (send_call (codes "x") ∷ []) ∷ [] ∷ (stop_call ∷ []) ∷ []

abbrev calm : CalmSchedule schedule
calm = ((tt, tt), (tt, ((tt, tt), tt)))

ran :
    (t : HandlerState (List Received)) × (run poco files sleep schedule handler ≡ (returns true, t))
    × (((true ≡ true) × IsStopped poco files sleep t) ⊎ (true ≡ false))
ran = run_returns poco files sleep poco-Quiet schedule handler calm tt

run_returns_example :
    (t : HandlerState (List Received)) × (run poco files sleep schedule handler ≡ (returns true, t))
    × (((true ≡ true) × IsStopped poco files sleep t) ⊎ (true ≡ false))
run_returns_example = run_returns poco files sleep poco-Quiet schedule handler calm tt

-- One pass takes no pointer away from a client that is connected.
asked_down : {m m' : Shared} → LoopMove m asking m' reconnecting → m.websocket ≢ some true
asked_down (finds_not_connected l n) = n

heard_there : {m m' : Shared} → LoopMove m receiving m' top → m'.websocket ≢ none
heard_there (receives c h) = λ z. cc

pass_keeps : {m m' : Shared} → Passes m top m' → m.websocket ≡ some true → m'.websocket ≢ none
pass_keeps (hears a b c) e = heard_there c
pass_keeps (reconnects a n d) e = absurd (asked_down n e)

send_message-Sends_example :
    Sends poco files sleep
      (codes "hello")
      (set_websocket (some client) handler)
      (send_message poco files sleep (codes "hello") (set_websocket (some client) handler)).0
      (send_message poco files sleep (codes "hello") (set_websocket (some client) handler)).1
send_message-Sends_example =
    send_message-Sends poco files sleep (codes "hello") (set_websocket (some client) handler)

-- The loop that has ended takes no notice of a fourth round.
run_ends_example :
    (t : HandlerState (List Received)) × (run poco files sleep (schedule ++ [] ∷ []) handler
      ≡ (returns true, t))
    × (run poco files sleep schedule handler ≡ (returns true, t))
run_ends_example =
    run_ends poco files sleep poco-Quiet ((send_call (codes "x") ∷ []) ∷ [] ∷ []) (stop_call ∷ [])
      ([] ∷ []) handler ((tt, tt), (tt, ((tt, tt), (tt, tt)))) tt refl

-- The announcements so far.
record Log : Type 0 where
  ups : ℕ
  downs : ℕ

-- A Poco for which connections succeed and nothing arrives.
abbrev silent_poco : WebSocketApi Log
silent_poco = record {
  method_get = codes "GET";
  http_1_1 = codes "HTTP/1.1";
  frame_text = 129;
  frame_flag_fin = 128;
  new_session = λ host port w. (ok port, w);
  close_session = λ n w. w;
  open_websocket = λ n r w. (ok 7, w);
  set_max_payload_size = λ ws n w. (ok tt, w);
  shutdown = λ ws w. (ok tt, w);
  close = λ ws w. w;
  send_frame = λ ws f w. (ok tt, w);
  receive_frame = λ ws w. (throw (poco_timeout (codes "Timeout")), w);
}

silent-Untouched : (f : Log → ℕ) → Untouched silent_poco f
silent-Untouched f = record {
  steady = record {
    open_keeps = λ n r w. refl;
    size_keeps = λ n k w. refl;
    shutdown_keeps = λ n w. refl;
    close_keeps = λ n w. refl;
    send_keeps = λ n m w. refl;
    receive_keeps = λ n w. refl;
  };
  session_keeps = λ h p w. refl;
  end_keeps = λ n w. refl;
}

abbrev log_up : Log → Result Done × Log
log_up w = (ok tt, record w { ups = suc w.ups })

abbrev log_down : Log → Result Done × Log
log_down w = (ok tt, record w { downs = suc w.downs })

abbrev lcu_files : Log → FileSystem
lcu_files _ = record {
  list_dir = λ dir. ok (ok (codes "17") ∷ []);
  read_file = λ path. codes "LeagueClientUx.exe --remoting-auth-token=t --app-port=50123 --x";
}

abbrev logging : HandlerState Log
logging = record {
  handler = record (Handler.create) { on_connected = some log_up; on_disconnected = some log_down };
  world = record { ups = 0; downs = 0 };
}

abbrev two_rounds : List (List (Call Log))
two_rounds = [] ∷ (stop_call ∷ []) ∷ []

run-Balanced_example :
    let t = (run silent_poco lcu_files (λ w. w) two_rounds logging).1 in
    t.world.ups + 0 + 0 ≡ t.world.downs + 0 + to_ℕ t.is_state_connected
run-Balanced_example =
    run-Balanced silent_poco lcu_files (λ w. w) (λ w. w.ups) (λ w. w.downs)
      (silent-Untouched (λ w. w.ups)) (silent-Untouched (λ w. w.downs)) (λ w. refl) (λ w. refl)
      log_up log_down (λ w. (refl, refl, refl)) (λ w. (refl, refl, refl)) none tt tt two_rounds
      logging (tt, (((tt, tt), tt), tt)) (refl, refl, refl)

-- A peer that never ends its message, in a world that counts the frames.
abbrev endless_poco : WebSocketApi ℕ
endless_poco = record {
  method_get = codes "GET";
  http_1_1 = codes "HTTP/1.1";
  frame_text = 129;
  frame_flag_fin = 128;
  new_session = λ host port w. (ok port, w);
  close_session = λ n w. w;
  open_websocket = λ n r w. (ok 7, w);
  set_max_payload_size = λ ws n w. (ok tt, w);
  shutdown = λ ws w. (ok tt, w);
  close = λ ws w. w;
  send_frame = λ ws f w. (ok tt, w);
  receive_frame = λ ws w. (ok (record { payload = codes "x"; flags = 1 }), suc w);
}

-- One that ends it with the second frame.
abbrev brief_poco : WebSocketApi ℕ
brief_poco = record endless_poco {
  receive_frame =
      λ ws w. (ok (record { payload = codes "x"; flags = if w == 3 then 1 else 128 }), suc w);
}

brief-IsCapped : IsCapped brief_poco 7
brief-IsCapped w w' r h = ground arith

receive_message-le_example :
    ((receive_message brief_poco (record { client = client; world = 3 })).1.world ≤ 3 + 255)
    × IsShort 16711680 (receive_message brief_poco (record { client = client; world = 3 })).0
receive_message-le_example =
    receive_message-le brief_poco (λ w. w) (λ n w. refl) (record { client = client; world = 3 }) 7
      refl brief-IsCapped
