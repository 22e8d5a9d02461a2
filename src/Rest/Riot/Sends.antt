-- ===== src/Rest/Riot/Sends.antt =====
-- What the Riot handler sends: how often, and to which host.
use rito.Common.{
  ℕ, suc, ◌+◌, ◌≤◌, Bytes, none, some, ◌≡◌, ap, arith, inl, inr, Option-cases, Bool-cases,
}
use rito.Exception.{std_what, no_region_selected_exception}
use rito.Result.{Result, ok, throw}
use rito.Act.{Act-cases}
use rito.Types.{RequestType, HttpResponse, https_port}
use rito.Rest.Client.{HttpApi, HttpsRestClient}
use rito.Rest.Client
use rito.Rest.Client.Sends.{Counts, request-sends}
use rito.Rest.Region.{Region, is_none, get_host_by_region}
use rito.Rest.Riot.{
  RiotState, set_region, send_request, first_try, last_try, request, no_region_text,
}
use rito.Rest.Riot.Retry.{
  is_none_lem, is_none-ne, headers, bare, fresh, last_try_unselected, last_try_refused,
  last_try_connected, request_answered, request_dropped, request_not_std, request_unheld,
}

module _ {W : Type 0} (api : HttpApi W) (s : RiotState W) (type : RequestType)
    (message : Bytes) where
  -- With neither a client nor a region, a call throws No_region_selected_exception, and neither the
  -- handler nor anything outside changes.
  pub request_unselected :
      s.client ≡ none
      → s.region ≡ Region.none
      → request api type message s ≡ (throw (no_region_selected_exception no_region_text), s)
  unfolding request first_try last_try is_none
  request_unselected e n = ground arith

  -- A new region does not reach a client that answers: the client that was made for the region
  -- before still gets the request.
  pub request-set_region :
      (c : HttpsRestClient) (r : HttpResponse) (w : W) (region : Region)
      → s.client ≡ some c
      → Client.request api c type message (headers api s type message) s.world ≡ (ok r, w)
      → request api type message (set_region region s)
        ≡ (ok r, set_region region (record s { world = w }))
  unfolding request first_try send_request set_region
  request-set_region c r w region e q = ground arith

  module _ (sent : W → ℕ) (counts : Counts api sent) where
    last_try-sends :
        (w : W)
        → sent (last_try api type message (bare api s type message w)).1.world ≤ suc (sent w)
    last_try-sends w = elim (Bool-cases (is_none s.region)) [
      | inl none_yet ↦
          rw (last_try_unselected api s type message w (is_none_lem s.region none_yet))
            (omega arith)
      | inr selected ↦
          let n = is_none-ne s.region selected in
          let host = get_host_by_region s.region in
          elim (Act-cases (api.new_session host https_port w)) [
            | inl (session, w', e) ↦ rw (last_try_connected api s type message w n e) (
                omega (
                  arith,
                  request-sends api sent counts (fresh api s type message session) type message
                      (headers api s type message) w',
                  counts.new_session_keeps host https_port w,
                  ap (λ p. sent p.1) e,
                ))
            | inr (x, w', e) ↦
                rw (last_try_refused api s type message w n e)
                  (omega (arith, counts.new_session_keeps host https_port w, ap (λ p. sent p.1) e))
          ]
    ]

    module _ (c : HttpsRestClient) (held : s.client ≡ some c) where
      held_sends :
          {r : Result HttpResponse} {w : W}
          → Client.request api c type message (headers api s type message) s.world ≡ (r, w)
          → sent w ≤ suc (sent s.world)
      held_sends q = omega (
        arith,
        request-sends api sent counts c type message (headers api s type message) s.world,
        ap (λ p. sent p.1) q,
      )

      held-sends-le : sent (request api type message s).1.world ≤ sent s.world + 2
      held-sends-le =
          elim (Act-cases
            (Client.request api c type message (headers api s type message) s.world)) [
              | inl (r, w, q) ↦
                  rw (request_answered api s type message c held q) (omega (arith, held_sends q))
              | inr (x, w, q) ↦ elim (Option-cases (std_what x)) [
                | inl n ↦
                    rw (request_not_std api s type message c held q n) (omega (arith, held_sends q))
                | inr (what, h) ↦ rw (request_dropped api s type message c held q h) (
                    omega (
                      arith,
                      held_sends q,
                      last_try-sends (api.close_session c.session w),
                      counts.close_session_keeps c.session w,
                    ))
              ]
            ]

    -- A call sends at most two requests.
    pub request-sends-le : sent (request api type message s).1.world ≤ sent s.world + 2
    request-sends-le = elim (Option-cases s.client) [
      | inl e ↦ rw (request_unheld api s type message e) (omega (arith, last_try-sends s.world))
      | inr (c, e) ↦ held-sends-le c e
    ]

    -- A call that starts with no client sends at most one request.
    pub request-sends_unheld :
        s.client ≡ none → sent (request api type message s).1.world ≤ sent s.world + 1
    request-sends_unheld e =
        rw (request_unheld api s type message e) (omega (arith, last_try-sends s.world))
