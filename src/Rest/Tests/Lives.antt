-- ===== src/Rest/Tests/Lives.antt =====
-- A Poco whose world lists the open sessions, and in which every second request is not answered; and
-- the lives of two handlers in it.
use rito.Common.{
  ℕ, suc, ◌%◌, List, [], ◌∷◌, Bytes, codes, empty, equal, contains, is_digit, ◌≡◌, refl, arith,
  ◌==◌, if◌then◌else◌, ◌&&◌,
}
use rito.Common.Decimal.{to_string}
use rito.Exception.{poco_message}
use rito.Result.{ok, throw}
use rito.Types.{RequestType, http_get, http_put}
use rito.Process.FileSystem.{FileSystem, join, stem, before_last_dot, get_line}
use rito.Process.Helpers.{
  is_token_char, extract_remoting_auth_token, extract_app_port, is_positive_integer,
}
use rito.Process.Linux.{scan, get_lcu_process_command}
use rito.Process.Linux.Parameters.{extract-TokenAt, extract-PortAt}
use rito.Rest.Client.{HttpApi}
use rito.Rest.Client
use rito.Rest.Client.Sessions.{Sessions}
use rito.Rest.Region.{kr, eune}
use rito.Rest.Riot
use rito.Rest.Riot.{RiotState}
use rito.Rest.Riot.Sessions.{RiotCall, request_call, region_call, live, destroy-live}
use rito.Rest.Riot.Sessions
use rito.Rest.Lcu
use rito.Rest.Lcu.{LcuState}
use rito.Rest.Lcu.Retry.{at_once, fresh, bare}
use rito.Rest.Lcu.Launch.{launched, request-launch}
use rito.Rest.Lcu.Sessions.{destroy-live_lcu}

record Net : Type 0 where
  opened : List ℕ
  next : ℕ
  sent : ℕ

abbrev without : ℕ → List ℕ → List ℕ
without n [] = []
without n (k ∷ ks) = if k == n then ks else k ∷ without n ks

abbrev poco : HttpApi Net
poco = record {
  method_connect = codes "CONNECT";
  method_delete = codes "DELETE";
  method_get = codes "GET";
  method_head = codes "HEAD";
  method_options = codes "OPTIONS";
  method_patch = codes "PATCH";
  method_post = codes "POST";
  method_put = codes "PUT";
  method_trace = codes "TRACE";
  http_1_1 = codes "HTTP/1.1";
  credentials_empty = λ u p. empty u && empty p;
  new_session =
      λ host port w. (ok w.next, record w { opened = w.next ∷ w.opened; next = suc w.next });
  close_session = λ n w. record w { opened = without n w.opened };
  send_request = λ n r w. (ok tt, record w { sent = suc w.sent });
  receive_response = λ n w.
      (if w.sent % 2 == 0 then throw (poco_message (codes "reset")) else ok (200, codes "OK"), w);
  read_body = λ n w. (ok (codes "{}"), w);
}

poco-Sessions : Sessions poco (λ w. w.opened)
poco-Sessions = record {
  makes = λ host port n w w' e. ground arith;
  makes_none = λ host port x w w' e. ground arith;
  ends = λ n others w e. rw e (ground arith);
  send_keeps = λ n r w. refl;
  receive_keeps = λ n w. refl;
  read_keeps = λ n w. refl;
}

-- Two sessions of others are open.
abbrev net : Net
net = record { opened = 4 ∷ 2 ∷ []; next = 5; sent = 0 }

abbrev riot_calls : List RiotCall
riot_calls =
    request_call http_get (codes "/x")
    ∷ region_call kr
    ∷ request_call http_get (codes "/x")
    ∷ region_call eune
    ∷ request_call http_put (codes "/y")
    ∷ []

destroy-live_example :
    let s : RiotState Net = record { handler = Riot.create (codes "key"); world = net } in
    Riot.Sessions.IsHeld (λ w. w.opened) (4 ∷ 2 ∷ []) (live poco riot_calls s)
    × ((Riot.destroy poco (live poco riot_calls s)).opened ≡ 4 ∷ 2 ∷ [])
destroy-live_example = destroy-live poco (λ w. w.opened) poco-Sessions (codes "key") riot_calls net

-- The client's process is there.
abbrev launch : Bytes
launch = codes "LeagueClientUx.exe --remoting-auth-token=t --app-port=50123 --x"

abbrev files : Net → FileSystem
files _ = record { list_dir = λ dir. ok (ok (codes "17") ∷ []); read_file = λ path. launch }

abbrev lcu : LcuState Net
lcu = record { handler = Lcu.create; world = net }

abbrev requests : List (RequestType × Bytes)
requests = (http_get, codes "/x") ∷ (http_put, codes "/y") ∷ []

destroy-live_lcu_example :
    Lcu.Sessions.IsHeld (λ w. w.opened) (4 ∷ 2 ∷ []) (Lcu.Sessions.live poco files requests lcu)
    × ((Lcu.destroy poco files (Lcu.Sessions.live poco files requests lcu)).opened ≡ 4 ∷ 2 ∷ [])
destroy-live_lcu_example = destroy-live_lcu poco files (λ w. w.opened) poco-Sessions requests net

found : get_lcu_process_command (files net) lcu.process_handler.pimpl ≡ ok launch
unfolding get_lcu_process_command scan equal join stem before_last_dot get_line contains
    is_positive_integer is_digit
found = refl

token_read : extract_remoting_auth_token launch ≡ ok (codes "t")
unfolding extract_remoting_auth_token is_token_char is_digit
token_read = refl

port_read : extract_app_port launch ≡ ok (to_string 50123)
unfolding extract_app_port is_digit to_string
port_read = refl

request-launch_example :
    Lcu.request poco files http_get (codes "/x") lcu
    ≡ Lcu.outside poco files
        (Client.request poco
          (fresh poco files lcu http_get (codes "/x") (launched (codes "t") 50123) 5)
          http_get
          (codes "/x")
          [])
        (Lcu.with_client poco files
          (fresh poco files lcu http_get (codes "/x") (launched (codes "t") 50123) 5)
          (bare poco files lcu http_get
            (codes "/x")
            (record net { opened = 5 ∷ 4 ∷ 2 ∷ []; next = 6 })))
request-launch_example =
    request-launch poco files lcu http_get (codes "/x") (codes "t") 50123 5 (at_once refl refl)
      found (extract-TokenAt token_read) (extract-PortAt port_read) (omega arith) refl
