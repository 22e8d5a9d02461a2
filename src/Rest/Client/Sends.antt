-- ===== src/Rest/Client/Sends.antt =====
-- How many requests go out: one at most for each call of the client.
use rito.Common.{ℕ, suc, ◌≤◌, Bytes, ◌≡◌, arith, inl, inr}
use rito.Result.{Result}
use rito.Types.{RequestType, HttpResponse}
use rito.Rest.Client.{HttpApi, HttpRequest, HttpsRestClient, KeyValueMap, build_request, request}
use rito.Rest.Client.Requests.{
  Requests, refused, not_sent, not_received, answered, request-Requests,
}

-- A count of the requests that sessions were given to send: no other operation of Poco's changes it.
pub record Counts {W : Type 0} (api : HttpApi W) (sent : W → ℕ) : Type 0 where
  pub new_session_keeps :
      (host : Bytes) (port : ℕ) (w : W) → sent (api.new_session host port w).1 ≡ sent w
  pub close_session_keeps : (n : ℕ) (w : W) → sent (api.close_session n w) ≡ sent w
  pub receive_keeps : (n : ℕ) (w : W) → sent (api.receive_response n w).1 ≡ sent w
  pub read_keeps : (n : ℕ) (w : W) → sent (api.read_body n w).1 ≡ sent w
  pub send_counts :
      (n : ℕ) (r : HttpRequest) (w : W) → sent (api.send_request n r w).1 ≡ suc (sent w)

module _ {W : Type 0} (api : HttpApi W) (sent : W → ℕ) (counts : Counts api sent) where
  Requests-sends :
      (c : HttpsRestClient) (path : Bytes) (headers : KeyValueMap) (type : RequestType) (w w' : W)
      (r : Result HttpResponse)
      → Requests api c path headers type w r w'
      → sent w' ≤ suc (sent w)
  Requests-sends c path headers type w w' r (refused n t e k) = ground arith
  Requests-sends c path headers type w w' r (not_sent method x t s e) =
      ground (arith, counts.send_counts c.session (build_request api c method path headers) w)
  Requests-sends c path headers type w w' r (not_received method x _ w₁ t s (inl q) _ e) = ground (
    arith,
    counts.send_counts c.session (build_request api c method path headers) w,
    counts.receive_keeps c.session w₁,
  )
  Requests-sends c path headers type w w' r
        (not_received method x _ w₁ t s (inr (h, w₂, q, b)) _ e) =
      ground (
        arith,
        counts.send_counts c.session (build_request api c method path headers) w,
        counts.receive_keeps c.session w₁,
        counts.read_keeps c.session w₂,
      )
  Requests-sends c path headers type w w' r (answered method x w₁ w₂ t s q b e) = ground (
    arith,
    counts.send_counts c.session (build_request api c method path headers) w,
    counts.receive_keeps c.session w₁,
    counts.read_keeps c.session w₂,
  )

  pub request-sends :
      (c : HttpsRestClient) (type : RequestType) (path : Bytes) (headers : KeyValueMap) (w : W)
      → sent (request api c type path headers w).1 ≤ suc (sent w)
  request-sends c type path headers w =
      Requests-sends c path headers type w _ _ (request-Requests api c path headers type w)
