-- ===== src/Rest/Riot/Retry.antt =====
-- Which client answers a request of the Riot handler, and what a failed attempt leads to.
use rito.Common.{
  ℕ, true, false, none, some, [], ◌∷◌, Bytes, ◌≡◌, ◌≢◌, refl, sym, subst, inl, inr, arith,
  Option-cases, Bool-cases,
}
use rito.Exception.{Thrown, no_region_selected_exception, std_what}
use rito.Result.{Result, ok, throw}
use rito.Act.{Act-cases}
use rito.Types.{RequestType, HttpResponse, https_port}
use rito.Rest.Client.{HttpApi, HttpsRestClient, KeyValueMap}
use rito.Rest.Client
use rito.Rest.Region.{Region, is_none, get_host_by_region}
use rito.Rest.Riot.{
  RiotState, token_header, no_region_text, outside, with_client, send_request, first_try, last_try,
  request,
}

pub is_none_lem : (r : Region) → is_none r ≡ true → r ≡ Region.none
unfolding is_none
is_none_lem Region.none h = refl
is_none_lem _ h = cc

pub is_none-ne : (r : Region) → is_none r ≡ false → r ≢ Region.none
unfolding is_none
is_none-ne r h e = ground arith

module _ {W : Type 0} (api : HttpApi W) (s : RiotState W) (type : RequestType)
    (message : Bytes) where
  -- The one header of every request: the key that the handler was made with.
  abbrev pub headers : KeyValueMap
  headers = (token_header, s.api_key) ∷ []

  abbrev pub fresh : ℕ → HttpsRestClient
  fresh session = record {
    host = get_host_by_region s.region;
    port = https_port;
    session = session;
    username = [];
    password = [];
  }

  -- Where an attempt with a new client starts: at once where there was no client, or else after the
  -- client's request has thrown a std::exception and its session was closed.
  pub data Starts (w : W) : Type 0 where
    at_once : s.client ≡ none → w ≡ s.world → Starts w
    after_failure :
        (c : HttpsRestClient) (e : Thrown) (what : Bytes) (w₁ : W)
        → s.client ≡ some c
        → Client.request api c type message headers s.world ≡ (throw e, w₁)
        → std_what e ≡ some what
        → w ≡ api.close_session c.session w₁
        → Starts w

  -- Where the result of a call comes from.
  pub data Source (r : Result HttpResponse) (t : RiotState W) : Type 0 where
    held_answer :
        (c : HttpsRestClient) (response : HttpResponse)
        → s.client ≡ some c
        → Client.request api c type message headers s.world ≡ (ok response, t.world)
        → r ≡ ok response
        → t.client ≡ some c
        → Source r t
    held_failure :
        (c : HttpsRestClient) (e : Thrown)
        → s.client ≡ some c
        → Client.request api c type message headers s.world ≡ (throw e, t.world)
        → std_what e ≡ none
        → r ≡ throw e
        → t.client ≡ some c
        → Source r t
    new_request :
        (session : ℕ) (w w' : W)
        → Starts w
        → s.region ≢ Region.none
        → api.new_session (get_host_by_region s.region) https_port w ≡ (ok session, w')
        → Client.request api (fresh session) type message headers w' ≡ (r, t.world)
        → t.client ≡ some (fresh session)
        → Source r t
    session_failure :
        (e : Thrown) (w : W)
        → Starts w
        → s.region ≢ Region.none
        → api.new_session (get_host_by_region s.region) https_port w ≡ (throw e, t.world)
        → r ≡ throw e
        → t.client ≡ none
        → Source r t
    no_region :
        Starts t.world
        → s.region ≡ Region.none
        → r ≡ throw (no_region_selected_exception no_region_text)
        → t.client ≡ none
        → Source r t

  abbrev pub Comes : Result HttpResponse × RiotState W → Type 0
  Comes (r, t) = Source r t × (t.region ≡ s.region) × (t.api_key ≡ s.api_key)

  -- The handler with no client.
  abbrev pub bare : W → RiotState W
  bare w = record {
    handler = record { region = s.region; api_key = s.api_key; client = none };
    world = w;
  }

  pub last_try_unselected :
      (w : W)
      → s.region ≡ Region.none
      → last_try api type message (bare w)
        ≡ (throw (no_region_selected_exception no_region_text), bare w)
  unfolding last_try
  last_try_unselected w e = ground arith

  pub last_try_refused :
      {e : Thrown} {w' : W} (w : W)
      → s.region ≢ Region.none
      → api.new_session (get_host_by_region s.region) https_port w ≡ (throw e, w')
      → last_try api type message (bare w) ≡ (throw e, bare w')
  unfolding last_try Client.create
  last_try_refused w n e = ground arith

  pub last_try_connected :
      {session : ℕ} {w' : W} (w : W)
      → s.region ≢ Region.none
      → api.new_session (get_host_by_region s.region) https_port w ≡ (ok session, w')
      → last_try api type message (bare w)
        ≡ outside api
            (Client.request api (fresh session) type message headers)
            (with_client api (fresh session) (bare w'))
  unfolding last_try Client.create
  last_try_connected w n e = ground arith

  last_try-Comes : (w : W) → Starts w → Comes (last_try api type message (bare w))
  last_try-Comes w from = elim (Bool-cases (is_none s.region)) [
    | inl none_yet ↦
        let e = is_none_lem s.region none_yet in
        subst Comes (sym (last_try_unselected w e)) (no_region from e refl refl, refl, refl)
    | inr selected ↦
        let n = is_none-ne s.region selected in
        elim (Act-cases (api.new_session (get_host_by_region s.region) https_port w)) [
          | inl (session, w', e) ↦
              subst Comes (sym (last_try_connected w n e))
                (new_request session w w' from n e refl refl, refl, refl)
          | inr (x, w', e) ↦
              subst Comes (sym (last_try_refused w n e))
                (session_failure x w from n e refl refl, refl, refl)
        ]
  ]

  module _ (c : HttpsRestClient) (held : s.client ≡ some c) where
    -- The outcomes of the request on the client at hand.
    pub request_answered :
        {r : HttpResponse} {w : W}
        → Client.request api c type message headers s.world ≡ (ok r, w)
        → request api type message s ≡ (ok r, record s { world = w })
    unfolding request first_try send_request
    request_answered e = ground arith

    pub request_dropped :
        {e : Thrown} {what : Bytes} {w : W}
        → Client.request api c type message headers s.world ≡ (throw e, w)
        → std_what e ≡ some what
        → request api type message s
          ≡ last_try api type message (bare (api.close_session c.session w))
    unfolding request first_try send_request
    request_dropped e h = ground arith

    pub request_not_std :
        {e : Thrown} {w : W}
        → Client.request api c type message headers s.world ≡ (throw e, w)
        → std_what e ≡ none
        → request api type message s ≡ (throw e, record s { world = w })
    unfolding request first_try send_request
    request_not_std e h = ground arith

    held-Comes : Comes (request api type message s)
    held-Comes = elim (Act-cases (Client.request api c type message headers s.world)) [
      | inl (r, w, e) ↦
          subst Comes (sym (request_answered e)) (held_answer c r held e refl held, refl, refl)
      | inr (x, w, e) ↦ elim (Option-cases (std_what x)) [
        | inl n ↦
            subst Comes (sym (request_not_std e n))
              (held_failure c x held e n refl held, refl, refl)
        | inr (what, h) ↦ subst Comes (sym (request_dropped e h)) (
            last_try-Comes (api.close_session c.session w) (after_failure c x what w held e h refl))
      ]
    ]

  pub request_unheld :
      s.client ≡ none → request api type message s ≡ last_try api type message (bare s.world)
  unfolding request first_try
  request_unheld e = ground arith

  -- A call is one request of the client at hand, whose response is returned; where it throws what is
  -- no std::exception, that goes on. With no client, or after a std::exception of its request and
  -- the close of its session, the call throws No_region_selected_exception if no region is selected,
  -- passes on what the making of a session for the host of the region and port 443 throws, both with
  -- no client left, or is one request of the new client, with that client kept and the result passed
  -- on as it is. Every request has the API key in the X-Riot-Token header; region and key stay.
  pub request-Source : Comes (request api type message s)
  request-Source = elim (Option-cases s.client) [
    | inl e ↦ subst Comes (sym (request_unheld e)) (last_try-Comes s.world (at_once e refl))
    | inr (c, e) ↦ held-Comes c e
  ]
