-- ===== src/Websocket/Tests/Lives.antt =====
-- A Poco whose world lists the open sessions, for which connections succeed and nothing arrives, and
-- a run of the handler in it.
use rito.Common.{
  ℕ, suc, true, false, List, some, [], ◌∷◌, Bytes, codes, equal, contains, is_digit, ◌≡◌, ◌⊎◌, refl,
  arith, ◌==◌, if◌then◌else◌,
}
use rito.Exception.{poco_timeout}
use rito.Result.{ok, throw}
use rito.Common.Decimal.{to_string}
use rito.Process.FileSystem.{FileSystem, join, stem, before_last_dot, get_line}
use rito.Process.Helpers.{
  is_token_char, extract_remoting_auth_token, extract_app_port, is_positive_integer,
}
use rito.Process.Linux.{scan, get_lcu_process_command}
use rito.Process.Linux.Parameters.{extract-TokenAt, extract-PortAt}
use rito.Outcome.{returns, terminates}
use rito.Websocket.Client.{WebSocketApi, HttpsWebsocketClient}
use rito.Websocket.Client.Sessions.{Sessions}
use rito.Websocket.Handler.{
  HandlerState, Call, stop_call, send_call, set_websocket, set_state, is_connected, round,
  main_loop, run, destroy,
}
use rito.Websocket.Handler
use rito.Websocket.Handler.Connecting.{lcu_client, Answers, round-connects}
use rito.Websocket.Handler.Recovering.{hangs_up, main_loop-recovers}
use rito.Websocket.Handler.Stopping.{IsStopped}
use rito.Websocket.Handler.Returning.{Quiet, run_returns}
use rito.Websocket.Handler.Sessions.{with_own}
use rito.Websocket.Handler.Sessions.Run.{run-IsHeld}

record Net : Type 0 where
  opened : List ℕ
  next : ℕ

abbrev without : ℕ → List ℕ → List ℕ
without n [] = []
without n (k ∷ ks) = if k == n then ks else k ∷ without n ks

abbrev poco : WebSocketApi Net
poco = record {
  method_get = codes "GET";
  http_1_1 = codes "HTTP/1.1";
  frame_text = 129;
  frame_flag_fin = 128;
  new_session =
      λ host port w. (ok w.next, record { opened = w.next ∷ w.opened; next = suc w.next });
  close_session = λ n w. record w { opened = without n w.opened };
  open_websocket = λ n r w. (ok 7, w);
  set_max_payload_size = λ ws n w. (ok tt, w);
  shutdown = λ ws w. (ok tt, w);
  close = λ ws w. w;
  send_frame = λ ws f w. (ok tt, w);
  receive_frame = λ ws w. (throw (poco_timeout (codes "Timeout")), w);
}

poco-Quiet : Quiet poco
poco-Quiet = record { shutdown_ok = λ n w. refl; send_ok = λ n f w. refl }

poco-Sessions : Sessions poco (λ w. w.opened)
poco-Sessions = record {
  steady = record {
    open_keeps = λ n r w. refl;
    size_keeps = λ n k w. refl;
    shutdown_keeps = λ n w. refl;
    close_keeps = λ n w. refl;
    send_keeps = λ n m w. refl;
    receive_keeps = λ n w. refl;
  };
  makes = λ host port n w w' e. ground arith;
  makes_none = λ host port x w w' e. ground arith;
  ends = λ n others w e. rw e (ground arith);
}

-- The client's process is there.
abbrev files : Net → FileSystem
files _ = record {
  list_dir = λ dir. ok (ok (codes "17") ∷ []);
  read_file = λ path. codes "LeagueClientUx.exe --remoting-auth-token=t --app-port=50123 --x";
}

abbrev handler : HandlerState Net
handler = record { handler = Handler.create; world = record { opened = 4 ∷ []; next = 5 } }

-- The first round connects, and the second leaves the loop.
abbrev schedule : List (List (Call Net))
schedule = (send_call (codes "x") ∷ []) ∷ (stop_call ∷ []) ∷ []

ran :
    (t : HandlerState Net) × (run poco files (λ w. w) schedule handler ≡ (returns true, t))
    × (((true ≡ true) × IsStopped poco files (λ w. w) t) ⊎ (true ≡ false))
ran = run_returns poco files (λ w. w) poco-Quiet schedule handler ((tt, tt), ((tt, tt), tt)) tt

run-IsHeld_example :
    (ran.0.world.opened ≡ with_own ran.0.websocket (4 ∷ []))
    × (((true ≡ true) × (ran.0.world.opened ≡ 4 ∷ [])) ⊎ (true ≡ false))
    × (((destroy poco files (λ w. w) ran.0).0 ≡ terminates)
        ⊎ ((destroy poco files (λ w. w) ran.0).1.world.opened ≡ 4 ∷ []))
run-IsHeld_example =
    run-IsHeld poco files (λ w. w) (λ w. w.opened) poco-Sessions (λ w. refl) (4 ∷ []) schedule
      handler ((tt, tt), ((tt, tt), tt)) (record { own = refl; message = tt; up = tt; down = tt })
      ran.1

abbrev launch : Bytes
launch = codes "LeagueClientUx.exe --remoting-auth-token=t --app-port=50123 --x"

found : get_lcu_process_command (files handler.world) handler.process_handler.pimpl ≡ ok launch
unfolding get_lcu_process_command scan equal join stem before_last_dot get_line contains
    is_positive_integer is_digit
found = refl

token_read : extract_remoting_auth_token launch ≡ ok (codes "t")
unfolding extract_remoting_auth_token is_token_char is_digit
token_read = refl

port_read : extract_app_port launch ≡ ok (to_string 50123)
unfolding extract_app_port is_digit to_string
port_read = refl

lcu-Answers :
    (n : ℕ) (l : List ℕ)
    → Answers poco files handler.process_handler
        (codes "t")
        50123
        n
        7
        (record { opened = l; next = n })
        (record { opened = n ∷ l; next = suc n })
lcu-Answers n l = record {
  command = launch;
  found = found;
  token_at = extract-TokenAt token_read;
  port_at = extract-PortAt port_read;
  port_fits = omega arith;
  w₁ = record { opened = n ∷ l; next = suc n };
  w₂ = record { opened = n ∷ l; next = suc n };
  made = refl;
  opened = refl;
  sized = refl;
}

round-connects_example : round poco files (λ w. w) handler ≡ (
  returns false,
  set_state true
      (record (set_websocket (some (lcu_client poco (codes "t") 50123 5 true (some 7))) handler) {
        world = record { opened = 5 ∷ 4 ∷ []; next = 6 };
      }),
)
unfolding is_connected
round-connects_example =
    round-connects poco files (λ w. w) handler handler.world
      (record { opened = 5 ∷ 4 ∷ []; next = 6 }) (record { opened = 5 ∷ 4 ∷ []; next = 6 }) refl
      refl refl (lcu-Answers 5 (4 ∷ [])) refl

-- A peer that has gone.
abbrev hanging : WebSocketApi Net
hanging = record poco { receive_frame = λ ws w. (ok (record { payload = []; flags = 0 }), w) }

hanging-Answers :
    (n : ℕ) (l : List ℕ)
    → Answers hanging files handler.process_handler
        (codes "t")
        50123
        n
        7
        (record { opened = l; next = n })
        (record { opened = n ∷ l; next = suc n })
hanging-Answers n l =
    let a = lcu-Answers n l in
    record {
      command = a.command;
      found = a.found;
      token_at = a.token_at;
      port_at = a.port_at;
      port_fits = a.port_fits;
      w₁ = a.w₁;
      w₂ = a.w₂;
      made = a.made;
      opened = a.opened;
      sized = a.sized;
    }

-- A handler on its session, with a callback for a lost connection that changes the world.
abbrev old_client : HttpsWebsocketClient
old_client = lcu_client hanging (codes "u") 50122 4 true (some 3)

abbrev connected_handler : HandlerState Net
connected_handler = record {
  handler = record (handler.handler) {
    websocket = some old_client;
    is_state_connected = true;
    on_disconnected = some (λ w. (ok tt, record w { next = suc w.next }));
  };
  world = handler.world;
}

main_loop-recovers_example :
    main_loop hanging files (λ w. w) ([] ∷ [] ∷ []) connected_handler
    ≡ main_loop hanging files
        (λ w. w)
        []
        (set_state true
          (record (set_websocket
            (some (lcu_client hanging (codes "t") 50123 6 true (some 7)))
            connected_handler) { world = record { opened = 6 ∷ []; next = 7 } }))
main_loop-recovers_example =
    main_loop-recovers hanging files (λ w. w) connected_handler old_client handler.world
      (record { opened = 4 ∷ []; next = 6 }) (record { opened = 6 ∷ []; next = 7 })
      (record { opened = 6 ∷ []; next = 7 }) [] refl refl refl refl refl
      (hangs_up (record { payload = []; flags = 0 }) refl (refl, refl)) refl (hanging-Answers 6 [])
      refl
