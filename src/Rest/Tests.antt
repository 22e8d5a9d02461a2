-- ===== src/Rest/Tests.antt =====
-- A Poco that counts the requests it was given, answers from the second on, and opens every session;
-- and the theorems on it.
mod Lives
use rito.Common.{
  ℕ, suc, ◌+◌, ◌≤◌, true, some, [], ◌∷◌, codes, empty, ◌≡◌, refl, ◌==◌, if◌then◌else◌, ◌&&◌,
}
use rito.Exception.{no_region_selected_exception, message_exception, poco_message, std_what}
use rito.Result.{ok, throw}
use rito.Types.{HttpResponse, http_get, http_put}
use rito.Rest.Client.{
  HttpApi, HttpsRestClient, build_request, send_request, receive_failure, receive_response,
  to_poco_request_type, set_host, set_keep_alive, authenticate, set,
}
use rito.Rest.Client
use rito.Rest.Client.Requests.{Requests, request-Requests}
use rito.Rest.Client.Sends.{Counts}
use rito.Process.FileSystem.{FileSystem}
use rito.Rest.Lcu
use rito.Rest.Lcu.{LcuState}
use rito.Rest.Lcu.Retry.{request-Comes, request-sends_twice}
use rito.Rest.Region.{eune, kr, is_none, get_host_by_region}
use rito.Rest.Riot.{
  RiotState, set_region, attempt_reconnect, first_try, last_try, request, no_region_text,
}
use rito.Rest.Riot
use rito.Rest.Riot.Retry.{headers, Comes, request-Source}

abbrev poco : HttpApi ℕ
poco = record {
  method_connect = codes "CONNECT";
  method_delete = codes "DELETE";
  method_get = codes "GET";
  method_head = codes "HEAD";
  method_options = codes "OPTIONS";
  method_patch = codes "PATCH";
  method_post = codes "POST";
  method_put = codes "PUT";
  method_trace = codes "TRACE";
  http_1_1 = codes "HTTP/1.1";
  credentials_empty = λ u p. empty u && empty p;
  new_session = λ host port w. (ok (port + w), w);
  close_session = λ n w. w;
  send_request = λ n r w. (ok tt, suc w);
  receive_response =
      λ n w. (if w == 1 then throw (poco_message (codes "reset")) else ok (200, codes "OK"), w);
  read_body = λ n w. (ok (codes "{}"), w);
}

poco-Counts : Counts poco (λ w. w)
poco-Counts = record {
  new_session_keeps = λ host port w. refl;
  close_session_keeps = λ n w. refl;
  receive_keeps = λ n w. refl;
  read_keeps = λ n w. refl;
  send_counts = λ n r w. refl;
}

abbrev old_client : HttpsRestClient
old_client = record {
  host = codes "kr.api.riotgames.com";
  port = 443;
  session = 9;
  username = [];
  password = [];
}

-- The handler with a client, having sent `w` requests, and with none.
abbrev held : ℕ → RiotState ℕ
held w = record {
  handler = record { region = kr; api_key = codes "key"; client = some old_client };
  world = w;
}

abbrev bare : RiotState ℕ
bare = record { handler = Riot.create (codes "key"); world = 0 }

abbrev answer : HttpResponse
answer = record { status = 200; reason = codes "OK"; response = codes "{}" }

-- What send_request puts into a request with credentials and a header.
built :
    (build_request poco
      (record old_client { username = codes "riot"; password = codes "t" })
      (codes "GET")
      (codes "/x")
      ((codes "k", codes "v") ∷ [])).calls
    ≡ set_host (codes "kr.api.riotgames.com") 443
      ∷ set_keep_alive true
      ∷ authenticate (codes "riot") (codes "t")
      ∷ set (codes "k") (codes "v")
      ∷ []
unfolding build_request
built = refl

-- The first request is not answered: the handler opens a session of its own and asks again.
retried : (request poco http_get (codes "/x") (held 0)).0 ≡ ok answer
unfolding request first_try last_try attempt_reconnect Riot.send_request Client.create
    Client.request receive_response send_request to_poco_request_type is_none get_host_by_region
    build_request receive_failure std_what
retried = refl

-- With no client, the request that is not answered throws.
not_answered :
    (request poco http_get (codes "/x") (set_region eune bare)).0
    ≡ throw (message_exception (codes "Unable to receive message from the server (reset)"))
unfolding request first_try last_try attempt_reconnect set_region Riot.send_request Client.create
    Client.request receive_response send_request to_poco_request_type is_none get_host_by_region
    build_request receive_failure std_what
not_answered = refl

request-Requests_example :
    Requests poco old_client
      (codes "/x")
      []
      http_put
      4
      (Client.request poco old_client http_put (codes "/x") [] 4).0
      (Client.request poco old_client http_put (codes "/x") [] 4).1
request-Requests_example = request-Requests poco old_client (codes "/x") [] http_put 4

request-Source_example :
    Comes poco (held 0) http_get (codes "/x") (request poco http_get (codes "/x") (held 0))
request-Source_example = request-Source poco (held 0) http_get (codes "/x")

-- The client's process is there.
abbrev files : ℕ → FileSystem
files _ = record {
  list_dir = λ dir. ok (ok (codes "17") ∷ []);
  read_file = λ path. codes "LeagueClientUx.exe --remoting-auth-token=t --app-port=50123 --x";
}

abbrev lcu : LcuState ℕ
lcu = record { handler = record (Lcu.create) { client = some old_client }; world = 0 }

request-Comes_example :
    Lcu.Retry.Comes poco files lcu http_get
      (codes "/x")
      (Lcu.request poco files http_get (codes "/x") lcu)
request-Comes_example = request-Comes poco files lcu http_get (codes "/x")
