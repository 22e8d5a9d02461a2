-- ===== src/Rest/Riot/Sessions.antt =====
-- The Riot handler's sessions, over the handler's whole life.
use rito.Common.{ℕ, List, [], ◌∷◌, Bytes, ◌≡◌, refl, ap, ◌∙◌, arith, Option-cases, inl, inr}
use rito.Types.{RequestType, HttpResponse, https_port}
use rito.Result.{Result}
use rito.Rest.Client.{HttpApi}
use rito.Rest.Client.Sessions.{Sessions, with_own, request_keeps}
use rito.Rest.Region.{Region, get_host_by_region}
use rito.Rest.Riot.{RiotState, create, set_region, request, destroy}
use rito.Rest.Riot.Retry.{
  Starts, at_once, after_failure, Source, held_answer, held_failure, new_request, session_failure,
  no_region, headers, fresh, request-Source,
}

-- What is called on a handler.
pub data RiotCall : Type 0 where
  request_call : RequestType → Bytes → RiotCall
  region_call : Region → RiotCall

-- The handler's client has the latest session, and there are these others.
abbrev pub IsHeld : {W : Type 0} → (W → List ℕ) → List ℕ → RiotState W → Type 0
IsHeld open_sessions others s = open_sessions s.world ≡ with_own s.client others

module _ {W : Type 0} (api : HttpApi W) where
  -- What a list of calls leaves, whether they return or throw.
  abbrev pub live : List RiotCall → RiotState W → RiotState W
  live [] s = s
  live (request_call type message ∷ calls) s = live calls (request api type message s).1
  live (region_call region ∷ calls) s = live calls (set_region region s)

module _ {W : Type 0} (api : HttpApi W) (open_sessions : W → List ℕ)
    (laws : Sessions api open_sessions) (others : List ℕ) where
  module _ (s : RiotState W) (type : RequestType) (message : Bytes)
      (held : IsHeld open_sessions others s) where
    Starts-others : {w : W} → Starts api s type message w → open_sessions w ≡ others
    Starts-others (at_once n e) = ground (arith, held)
    Starts-others {w} (after_failure c x what w₁ q e h k) =
        let now : open_sessions w₁ ≡ c.session ∷ others = ground (
          arith,
          held,
          request_keeps api open_sessions laws c type message (headers api s type message) s.world,
        ) in
        ap open_sessions k ∙ laws.ends c.session others w₁ now

    Source-IsHeld :
        (r : Result HttpResponse) (t : RiotState W)
        → Source api s type message r t
        → IsHeld open_sessions others t
    Source-IsHeld r t (held_answer c x q e h k) = ground (
      arith,
      held,
      request_keeps api open_sessions laws c type message (headers api s type message) s.world,
    )
    Source-IsHeld r t (held_failure c x q e n h k) = ground (
      arith,
      held,
      request_keeps api open_sessions laws c type message (headers api s type message) s.world,
    )
    Source-IsHeld r t (new_request session w w' from n made e k) = ground (
      arith,
      Starts-others from,
      laws.makes (get_host_by_region s.region) https_port session w w' made,
      request_keeps api open_sessions laws (fresh api s type message session) type message
          (headers api s type message) w',
    )
    Source-IsHeld r t (session_failure x w from n made e k) = ground (
      arith,
      Starts-others from,
      laws.makes_none (get_host_by_region s.region) https_port x w t.world made,
    )
    Source-IsHeld r t (no_region from n e k) = ground (arith, Starts-others from)

    request-IsHeld : IsHeld open_sessions others (request api type message s).1
    request-IsHeld = Source-IsHeld _ _ (request-Source api s type message).0

  destroy-others :
      (s : RiotState W) → IsHeld open_sessions others s → open_sessions (destroy api s) ≡ others
  unfolding destroy
  destroy-others s held = elim (Option-cases s.client) [
    | inl e ↦ ground (arith, held)
    | inr (c, e) ↦ ground (arith, held, laws.ends c.session others s.world)
  ]

module _ {W : Type 0} (api : HttpApi W) (open_sessions : W → List ℕ)
    (laws : Sessions api open_sessions) where
  live-IsHeld :
      (others : List ℕ) (calls : List RiotCall) (s : RiotState W)
      → IsHeld open_sessions others s
      → IsHeld open_sessions others (live api calls s)
  unfolding set_region
  live-IsHeld others [] s held = held
  live-IsHeld others (request_call type message ∷ calls) s held =
      live-IsHeld others calls (request api type message s).1
        (request-IsHeld api open_sessions laws others s type message held)
  live-IsHeld others (region_call region ∷ calls) s held =
      live-IsHeld others calls (set_region region s) held

  -- In the whole life of a Riot handler, whatever is called on it and whether it returns or throws,
  -- the sessions that are open are those that were open before and the one of its client, if it
  -- has one: no session is lost and none is ended twice. When the handler is destroyed, exactly
  -- those from before are open.
  pub destroy-live :
      (api_key : Bytes) (calls : List RiotCall) (w : W)
      → let s : RiotState W = record { handler = create api_key; world = w } in
        IsHeld open_sessions (open_sessions w) (live api calls s)
        × (open_sessions (destroy api (live api calls s)) ≡ open_sessions w)
  destroy-live api_key calls w =
      let s : RiotState W = record { handler = create api_key; world = w } in
      let held = live-IsHeld (open_sessions w) calls s refl in
      (held, destroy-others api open_sessions laws (open_sessions w) (live api calls s) held)
