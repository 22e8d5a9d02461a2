-- ===== src/Rest/Lcu/Retry.antt =====
-- Which client answers a request of the LCU handler, and what a failed attempt leads to.
use rito.Common.{
  ℕ, suc, ◌+◌, ◌≤◌, none, some, [], Bytes, ◌≡◌, refl, sym, ap, subst, inl, inr, arith, Option-cases,
}
use rito.Exception.{Thrown}
use rito.Result.{Result, ok, throw, Result-cases}
use rito.Act.{Act-cases}
use rito.Types.{RequestType, HttpResponse}
use rito.Process.FileSystem.{FileSystem}
use rito.Process.Linux.{LcuParameters}
use rito.Process.Handler.{get_lcu_process_parameters}
use rito.Rest.Client.{HttpApi, HttpsRestClient}
use rito.Rest.Client
use rito.Rest.Client.Sends.{Counts, request-sends}
use rito.Rest.Lcu.{
  LcuState, localhost, lcu_user, outside, with_client, attempt_reconnect, first_try, last_try,
  request,
}

module _ {W : Type 0} (api : HttpApi W) (files : W → FileSystem) (s : LcuState W)
    (type : RequestType) (message : Bytes) where
  -- The new client: that of the LCU's port, with its token as the password.
  abbrev pub fresh : LcuParameters → ℕ → HttpsRestClient
  fresh ps session = record {
    host = localhost;
    port = ps.app_port;
    session = session;
    username = lcu_user;
    password = ps.remoting_auth_token;
  }

  abbrev pub parameters_at : W → Result LcuParameters
  parameters_at w = get_lcu_process_parameters (files w) s.process_handler

  -- Where an attempt with a new client starts: at once where there was no client, or else after the
  -- client's request has thrown and its session was closed.
  pub data Starts (w : W) : Type 0 where
    at_once : s.client ≡ none → w ≡ s.world → Starts w
    after_failure :
        (c : HttpsRestClient) (e : Thrown) (w₁ : W)
        → s.client ≡ some c
        → Client.request api c type message [] s.world ≡ (throw e, w₁)
        → w ≡ api.close_session c.session w₁
        → Starts w

  -- Where the result of a call comes from.
  pub data Source (r : Result HttpResponse) (t : LcuState W) : Type 0 where
    held_answer :
        (c : HttpsRestClient) (response : HttpResponse)
        → s.client ≡ some c
        → Client.request api c type message [] s.world ≡ (ok response, t.world)
        → r ≡ ok response
        → t.client ≡ some c
        → Source r t
    no_parameters :
        (e : Thrown)
        → Starts t.world
        → parameters_at t.world ≡ throw e
        → r ≡ throw e
        → t.client ≡ none
        → Source r t
    session_failure :
        (ps : LcuParameters) (e : Thrown) (w : W)
        → Starts w
        → parameters_at w ≡ ok ps
        → api.new_session localhost ps.app_port w ≡ (throw e, t.world)
        → r ≡ throw e
        → t.client ≡ none
        → Source r t
    new_request :
        (ps : LcuParameters) (session : ℕ) (w w' : W)
        → Starts w
        → parameters_at w ≡ ok ps
        → api.new_session localhost ps.app_port w ≡ (ok session, w')
        → Client.request api (fresh ps session) type message [] w' ≡ (r, t.world)
        → t.client ≡ some (fresh ps session)
        → Source r t

  abbrev pub Comes : Result HttpResponse × LcuState W → Type 0
  Comes (r, t) = Source r t × (t.process_handler ≡ s.process_handler)

  -- The handler with no client.
  abbrev pub bare : W → LcuState W
  bare w = record {
    handler = record { client = none; process_handler = s.process_handler };
    world = w;
  }

  module _ (w : W) where
    last_try_unknown :
        {e : Thrown}
        → parameters_at w ≡ throw e
        → last_try api files type message (bare w) ≡ (throw e, bare w)
    unfolding last_try attempt_reconnect
    last_try_unknown e = ground arith

    last_try_refused :
        {ps : LcuParameters} {e : Thrown} {w' : W}
        → parameters_at w ≡ ok ps
        → api.new_session localhost ps.app_port w ≡ (throw e, w')
        → last_try api files type message (bare w) ≡ (throw e, bare w')
    unfolding last_try attempt_reconnect Client.create
    last_try_refused p e = ground arith

    pub last_try_connected :
        {ps : LcuParameters} {session : ℕ} {w' : W}
        → parameters_at w ≡ ok ps
        → api.new_session localhost ps.app_port w ≡ (ok session, w')
        → last_try api files type message (bare w)
          ≡ outside api files
              (Client.request api (fresh ps session) type message [])
              (with_client api files (fresh ps session) (bare w'))
    unfolding last_try attempt_reconnect Client.create Client.set_credentials
    last_try_connected p e = ground arith

    last_try-Comes : Starts w → Comes (last_try api files type message (bare w))
    last_try-Comes from = elim (Result-cases (parameters_at w)) [
      | inr (x, p) ↦ subst Comes (sym (last_try_unknown p)) (no_parameters x from p refl refl, refl)
      | inl (ps, p) ↦ elim (Act-cases (api.new_session localhost ps.app_port w)) [
        | inr (x, w', e) ↦
            subst Comes (sym (last_try_refused p e))
              (session_failure ps x w from p e refl refl, refl)
        | inl (session, w', e) ↦
            subst Comes (sym (last_try_connected p e))
              (new_request ps session w w' from p e refl refl, refl)
      ]
    ]

  module _ (c : HttpsRestClient) (held : s.client ≡ some c) where
    request_answered :
        {r : HttpResponse} {w : W}
        → Client.request api c type message [] s.world ≡ (ok r, w)
        → request api files type message s ≡ (ok r, record s { world = w })
    unfolding request first_try
    request_answered e = ground arith

    pub request_dropped :
        {e : Thrown} {w : W}
        → Client.request api c type message [] s.world ≡ (throw e, w)
        → request api files type message s
          ≡ last_try api files type message (bare (api.close_session c.session w))
    unfolding request first_try
    request_dropped e = ground arith

    held-Comes : Comes (request api files type message s)
    held-Comes = elim (Act-cases (Client.request api c type message [] s.world)) [
      | inl (r, w, e) ↦
          subst Comes (sym (request_answered e)) (held_answer c r held e refl held, refl)
      | inr (x, w, e) ↦
          subst Comes (sym (request_dropped e))
            (last_try-Comes (api.close_session c.session w) (after_failure c x w held e refl))
    ]

  pub request_unheld :
      s.client ≡ none
      → request api files type message s ≡ last_try api files type message (bare s.world)
  unfolding request first_try
  request_unheld e = ground arith

  -- A call is one request of the client at hand, whose response is returned. With no client, or
  -- after its request threw anything and its session was closed, the call looks for the LCU's
  -- process and passes on what that throws, or what the making of a session for 127.0.0.1 and the
  -- LCU's port throws, both with no client left; or it is one request of the new client, which has
  -- the user riot and the token as its password, with that client kept and the result passed on.
  -- The process handler stays.
  pub request-Comes : Comes (request api files type message s)
  request-Comes = elim (Option-cases s.client) [
    | inl e ↦ subst Comes (sym (request_unheld e)) (last_try-Comes s.world (at_once e refl))
    | inr (c, e) ↦ held-Comes c e
  ]

  module _ (sent : W → ℕ) (counts : Counts api sent) where
    Starts-sends : {w : W} → Starts w → sent w ≤ suc (sent s.world)
    Starts-sends (at_once n e) = rw e (omega arith)
    Starts-sends (after_failure c x w₁ held q e) = rw e (
        omega (
          arith,
          counts.close_session_keeps c.session w₁,
          request-sends api sent counts c type message [] s.world,
          ap (λ p. sent p.1) q,
        ))

    Source-sends :
        {r : Result HttpResponse} {t : LcuState W} → Source r t → sent t.world ≤ sent s.world + 2
    Source-sends (held_answer c x h q e k) =
        omega (arith, request-sends api sent counts c type message [] s.world, ap (λ p. sent p.1) q)
    Source-sends (no_parameters x from p e k) = omega (arith, Starts-sends from)
    Source-sends (session_failure ps x w from p q e k) = omega (
      arith,
      Starts-sends from,
      counts.new_session_keeps localhost ps.app_port w,
      ap (λ p. sent p.1) q,
    )
    Source-sends (new_request ps session w w' from p q e k) = omega (
      arith,
      Starts-sends from,
      counts.new_session_keeps localhost ps.app_port w,
      ap (λ p. sent p.1) q,
      request-sends api sent counts (fresh ps session) type message [] w',
      ap (λ p. sent p.1) e,
    )

    -- A call sends at most two requests.
    pub request-sends_twice : sent (request api files type message s).1.world ≤ sent s.world + 2
    request-sends_twice = Source-sends request-Comes.0
