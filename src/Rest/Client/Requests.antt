-- ===== src/Rest/Client/Requests.antt =====
-- What a request sends, what it returns and what it throws.
use rito.Common.{ℕ, ◌++◌, Bytes, codes, ◌≡◌, ◌≢◌, arith, refl, sym, subst, ◌⊎◌, inl, inr}
use rito.Exception.{Thrown, wrong_enum_value_exception, message_exception, poco_message}
use rito.Result.{Result, ok, throw}
use rito.Act.{Act, Done, after, rescue}
use rito.Types.{RequestType, HttpResponse, unspecified}
use rito.Rest.Client.{
  HttpApi, HttpsRestClient, KeyValueMap, to_poco_request_type, build_request, receive_failure,
  request,
}

-- What leaves a call where this was thrown while receiving.
pub data Relays (e : Thrown) (x : Thrown) : Type 0 where
  converted :
      (what : Bytes)
      → e ≡ poco_message what
      → x
        ≡ message_exception
            (codes "Unable to receive message from the server (" ++ (what ++ codes ")"))
      → Relays e x
  passed_on : ((what : Bytes) → e ≢ poco_message what) → x ≡ e → Relays e x

receive_failure-Relays : (e : Thrown) → Relays e (receive_failure e)
unfolding receive_failure
receive_failure-Relays (poco_message what) = converted what refl refl
receive_failure-Relays _ = passed_on (λ w h. ground arith) refl

type_cases :
    {W : Type 0} (api : HttpApi W) (type : RequestType)
    → ((n : ℕ) × (type ≡ unspecified n))
      ⊎ ((method : Bytes) × (to_poco_request_type api type ≡ ok method))
unfolding to_poco_request_type
type_cases api (unspecified n) = inl (n, refl)
type_cases api _ = inr (_, refl)

module _ {W : Type 0} (api : HttpApi W) (c : HttpsRestClient) (path : Bytes)
    (headers : KeyValueMap) where
  -- What a call of `request` may do: refuse the type with nothing sent, fail to send, fail to
  -- receive, or return the response to the one request that was sent.
  pub data Requests (type : RequestType) (w : W) (r : Result HttpResponse) (w' : W) : Type 0 where
    refused :
        (n : ℕ)
        → type ≡ unspecified n
        → r ≡ throw (wrong_enum_value_exception (codes "Unknown RequestType enum value"))
        → w' ≡ w
        → Requests type w r w'
    not_sent :
        (method : Bytes) (e : Thrown)
        → to_poco_request_type api type ≡ ok method
        → api.send_request c.session (build_request api c method path headers) w ≡ (throw e, w')
        → r ≡ throw e
        → Requests type w r w'
    not_received :
        (method : Bytes) (e x : Thrown) (w₁ : W)
        → to_poco_request_type api type ≡ ok method
        → api.send_request c.session (build_request api c method path headers) w ≡ (ok tt, w₁)
        → (api.receive_response c.session w₁ ≡ (throw e, w'))
          ⊎ ((head : ℕ × Bytes) × (w₂ : W) × (api.receive_response c.session w₁ ≡ (ok head, w₂))
              × (api.read_body c.session w₂ ≡ (throw e, w')))
        → Relays e x
        → r ≡ throw x
        → Requests type w r w'
    answered :
        (method : Bytes) (response : HttpResponse) (w₁ w₂ : W)
        → to_poco_request_type api type ≡ ok method
        → api.send_request c.session (build_request api c method path headers) w ≡ (ok tt, w₁)
        → api.receive_response c.session w₁ ≡ (ok (response.status, response.reason), w₂)
        → api.read_body c.session w₂ ≡ (ok response.response, w')
        → r ≡ ok response
        → Requests type w r w'

  -- The steps of `request`, each from the result of the one before it.
  abbrev with_body : ℕ × Bytes → Bytes → Act W HttpResponse
  with_body head body w = (ok (record { status = head.0; reason = head.1; response = body }), w)

  abbrev with_head : ℕ × Bytes → Act W HttpResponse
  with_head head w = after (api.read_body c.session w) (with_body head)

  abbrev on_failure : Thrown → Act W HttpResponse
  on_failure e w = (throw (receive_failure e), w)

  abbrev with_answer : Done → Act W HttpResponse
  with_answer _ w = rescue (after (api.receive_response c.session w) with_head) on_failure

  module _ (type : RequestType) (w : W) where
    abbrev Holds : Result HttpResponse × W → Type 0
    Holds p = Requests type w p.0 p.1

    module _ (method : Bytes) (known : to_poco_request_type api type ≡ ok method) where
      body-Requests :
          (w₁ w₂ : W) (head : ℕ × Bytes) (p : Result Bytes × W)
          → api.send_request c.session (build_request api c method path headers) w ≡ (ok tt, w₁)
          → api.receive_response c.session w₁ ≡ (ok head, w₂)
          → api.read_body c.session w₂ ≡ p
          → Holds (rescue (after p (with_body head)) on_failure)
      body-Requests w₁ w₂ head (ok body, w') s e b = answered method _ w₁ w₂ known s e b refl
      body-Requests w₁ w₂ head (throw x, w') s e b =
          not_received method x _ w₁ known s (inr (head, w₂, e, b)) (receive_failure-Relays x) refl

      head-Requests :
          (w₁ : W) (p : Result (ℕ × Bytes) × W)
          → api.send_request c.session (build_request api c method path headers) w ≡ (ok tt, w₁)
          → api.receive_response c.session w₁ ≡ p
          → Holds (rescue (after p with_head) on_failure)
      head-Requests w₁ (ok head, w₂) s e =
          body-Requests w₁ w₂ head (api.read_body c.session w₂) s e refl
      head-Requests w₁ (throw x, w') s e =
          not_received method x _ w₁ known s (inl e) (receive_failure-Relays x) refl

      send-Requests :
          (p : Result Done × W)
          → api.send_request c.session (build_request api c method path headers) w ≡ p
          → Holds (after p with_answer)
      send-Requests (ok tt, w₁) s = head-Requests w₁ (api.receive_response c.session w₁) s refl
      send-Requests (throw x, w') s = not_sent method x known s refl

    abbrev sent : Bytes → Act W HttpResponse
    sent method w' =
        after (api.send_request c.session (build_request api c method path headers) w') with_answer

    -- A call refuses a type that the enum does not name, with
    -- Wrong_enum_value_exception and nothing sent. Otherwise it sends one request; what the session
    -- throws there is passed on as it is, and what it throws while receiving is passed on too, but
    -- for Poco's MessageException, which becomes Message_exception. Otherwise it returns the status,
    -- the reason and the body that were received.
    pub request-Requests : Holds (request api c type path headers w)
    unfolding request
    request-Requests = elim (type_cases api type) [
      | inl (n, e) ↦ rw e (refused n refl refl refl)
      | inr (method, e) ↦
          subst (λ r. Holds (after (r, w) sent)) (sym e)
            (send-Requests method e
              (api.send_request c.session (build_request api c method path headers) w) refl)
    ]
