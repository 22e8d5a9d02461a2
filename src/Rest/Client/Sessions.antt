-- ===== src/Rest/Client/Sessions.antt =====
-- Which sessions are open, over the client's operations.
use rito.Common.{ℕ, Option, none, some, List, ◌∷◌, Bytes, ◌≡◌, arith, inl, inr}
use rito.Exception.{Thrown}
use rito.Result.{Result, ok, throw}
use rito.Types.{RequestType, HttpResponse}
use rito.Rest.Client.{HttpApi, HttpRequest, HttpsRestClient, KeyValueMap, build_request, request}
use rito.Rest.Client.Requests.{
  Requests, refused, not_sent, not_received, answered, request-Requests,
}

-- The open sessions, the latest first: what Poco's operations make of them.
pub record Sessions {W : Type 0} (api : HttpApi W) (open_sessions : W → List ℕ) : Type 0 where
  pub makes :
      (host : Bytes) (port n : ℕ) (w w' : W)
      → api.new_session host port w ≡ (ok n, w')
      → open_sessions w' ≡ n ∷ open_sessions w
  pub makes_none :
      (host : Bytes) (port : ℕ) (e : Thrown) (w w' : W)
      → api.new_session host port w ≡ (throw e, w')
      → open_sessions w' ≡ open_sessions w
  pub ends :
      (n : ℕ) (others : List ℕ) (w : W)
      → open_sessions w ≡ n ∷ others
      → open_sessions (api.close_session n w) ≡ others
  pub send_keeps :
      (n : ℕ) (r : HttpRequest) (w : W) → open_sessions (api.send_request n r w).1 ≡ open_sessions w
  pub receive_keeps : (n : ℕ) (w : W) → open_sessions (api.receive_response n w).1 ≡ open_sessions w
  pub read_keeps : (n : ℕ) (w : W) → open_sessions (api.read_body n w).1 ≡ open_sessions w

-- The open sessions where an object has this client, and there are `others` beside its own.
abbrev pub with_own : Option HttpsRestClient → List ℕ → List ℕ
with_own none others = others
with_own (some c) others = c.session ∷ others

module _ {W : Type 0} (api : HttpApi W) (open_sessions : W → List ℕ)
    (laws : Sessions api open_sessions) where
  Requests-keeps :
      (c : HttpsRestClient) (path : Bytes) (headers : KeyValueMap) (type : RequestType) (w w' : W)
      (r : Result HttpResponse)
      → Requests api c path headers type w r w'
      → open_sessions w' ≡ open_sessions w
  Requests-keeps c path headers type w w' r (refused n t e k) = ground arith
  Requests-keeps c path headers type w w' r (not_sent method x t s e) =
      ground (arith, laws.send_keeps c.session (build_request api c method path headers) w)
  Requests-keeps c path headers type w w' r (not_received method x _ w₁ t s (inl q) _ e) = ground (
    arith,
    laws.send_keeps c.session (build_request api c method path headers) w,
    laws.receive_keeps c.session w₁,
  )
  Requests-keeps c path headers type w w' r
        (not_received method x _ w₁ t s (inr (h, w₂, q, b)) _ e) =
      ground (
        arith,
        laws.send_keeps c.session (build_request api c method path headers) w,
        laws.receive_keeps c.session w₁,
        laws.read_keeps c.session w₂,
      )
  Requests-keeps c path headers type w w' r (answered method x w₁ w₂ t s q b e) = ground (
    arith,
    laws.send_keeps c.session (build_request api c method path headers) w,
    laws.receive_keeps c.session w₁,
    laws.read_keeps c.session w₂,
  )

  pub request_keeps :
      (c : HttpsRestClient) (type : RequestType) (path : Bytes) (headers : KeyValueMap) (w : W)
      → open_sessions (request api c type path headers w).1 ≡ open_sessions w
  request_keeps c type path headers w =
      Requests-keeps c path headers type w _ _ (request-Requests api c path headers type w)
