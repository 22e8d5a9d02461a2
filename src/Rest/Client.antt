-- ===== src/Rest/Client.antt =====
-- src/https_rest_client.cpp and its header. Poco's sessions and streams are a parameter, HttpApi;
-- an HTTPRequest is what was called on it, since Poco decides what that means on the wire.
pub mod Requests
pub mod Sends
pub mod Sessions
use rito.Common.{ℕ, Bool, true, false, not, List, [], ◌∷◌, ◌++◌, map, Bytes, codes, if◌then◌else◌}
use rito.Exception.{Thrown, wrong_enum_value_exception, message_exception, poco_message}
use rito.Result.{Result, ok, throw}
use rito.Act.{Act, Done, pure, raise, ◌>>=◌, ◌>>◌, after, try_catch, rescue}
use rito.Types.{
  RequestType, HttpResponse, http_connect, http_delete, http_get, http_head, http_options,
  http_patch, http_post, http_put, http_trace, unspecified,
}

-- The calls on a Poco::Net::HTTPRequest.
pub data RequestCall : Type 0 where
  set_host : Bytes → ℕ → RequestCall
  set_keep_alive : Bool → RequestCall
  authenticate set : Bytes → Bytes → RequestCall

pub record HttpRequest : Type 0 where
  pub method : Bytes
  pub uri : Bytes
  pub version : Bytes
  pub calls : List RequestCall

-- Poco::Net, over the state `W` of all that lies outside the program. A session is known by a
-- number. Each call may throw.
pub record HttpApi (W : Type 0) : Type 0 where
  pub method_connect : Bytes
  pub method_delete : Bytes
  pub method_get : Bytes
  pub method_head : Bytes
  pub method_options : Bytes
  pub method_patch : Bytes
  pub method_post : Bytes
  pub method_put : Bytes
  pub method_trace : Bytes
  pub http_1_1 : Bytes
  -- HTTPBasicCredentials::empty, of a user name and a password
  pub credentials_empty : Bytes → Bytes → Bool
  -- the context and the HTTPSClientSession of a host and a port
  pub new_session : Bytes → ℕ → W → Result ℕ × W
  pub close_session : ℕ → W → W
  pub send_request : ℕ → HttpRequest → W → Result Done × W
  -- the status and the reason; then the body, read from the stream
  pub receive_response : ℕ → W → Result (ℕ × Bytes) × W
  pub read_body : ℕ → W → Result Bytes × W

abbrev pub KeyValueMap : Type 0
KeyValueMap = List (Bytes × Bytes)

pub record HttpsRestClient : Type 0 where
  pub host : Bytes
  pub port : ℕ
  pub session : ℕ
  pub username : Bytes
  pub password : Bytes

abbrev unknown_type : Bytes
unknown_type = codes "Unknown RequestType enum value"

-- `catch (Poco::Net::MessageException&)`
unfoldable pub receive_failure : Thrown → Thrown
receive_failure (poco_message what) =
    message_exception (codes "Unable to receive message from the server (" ++ (what ++ codes ")"))
receive_failure e = e

module _ {W : Type 0} (api : HttpApi W) where
  unfoldable pub to_poco_request_type : RequestType → Result Bytes
  to_poco_request_type http_connect = ok api.method_connect
  to_poco_request_type http_delete = ok api.method_delete
  to_poco_request_type http_get = ok api.method_get
  to_poco_request_type http_head = ok api.method_head
  to_poco_request_type http_options = ok api.method_options
  to_poco_request_type http_patch = ok api.method_patch
  to_poco_request_type http_post = ok api.method_post
  to_poco_request_type http_put = ok api.method_put
  to_poco_request_type http_trace = ok api.method_trace
  to_poco_request_type (unspecified _) = throw (wrong_enum_value_exception unknown_type)

  -- The constructor.
  unfoldable pub create : Bytes → ℕ → Act W HttpsRestClient
  create host port = do
    session ← api.new_session host port
    pure (record { host = host; port = port; session = session; username = []; password = [] })

  unfoldable pub set_credentials : HttpsRestClient → Bytes → Bytes → HttpsRestClient
  set_credentials c username password = record c { username = username; password = password }

  -- The request that send_request builds.
  unfoldable pub build_request : HttpsRestClient → Bytes → Bytes → KeyValueMap → HttpRequest
  build_request c type path_and_query headers = record {
    method = type;
    uri = path_and_query;
    version = api.http_1_1;
    calls =
        set_host c.host c.port
        ∷ set_keep_alive true
        ∷ ((if not (api.credentials_empty c.username c.password)
              then authenticate c.username c.password ∷ []
              else [])
            ++ map (λ (key, value). set key value) headers);
  }

  unfoldable pub send_request : HttpsRestClient → Bytes → Bytes → KeyValueMap → Act W Done
  unfolding build_request
  send_request c type path_and_query headers =
      api.send_request c.session (build_request c type path_and_query headers)

  unfoldable pub receive_response : HttpsRestClient → Act W HttpResponse
  unfolding receive_failure
  receive_response c =
      try_catch
        (do
          (status, reason) ← api.receive_response c.session
          body ← api.read_body c.session
          pure (record { status = status; reason = reason; response = body }))
        (λ e. raise (receive_failure e))

  unfoldable pub request : HttpsRestClient → RequestType → Bytes → KeyValueMap → Act W HttpResponse
  unfolding to_poco_request_type send_request receive_response
  request c type path_and_query headers = do
    method ← λ w. (to_poco_request_type type, w)
    send_request c method path_and_query headers
    receive_response c
