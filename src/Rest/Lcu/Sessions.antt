-- ===== src/Rest/Lcu/Sessions.antt =====
-- The LCU handler's sessions, over the handler's whole life.
use rito.Common.{ℕ, List, [], ◌∷◌, Bytes, ◌≡◌, refl, ap, ◌∙◌, arith, Option-cases, inl, inr}
use rito.Types.{RequestType, HttpResponse}
use rito.Result.{Result}
use rito.Process.FileSystem.{FileSystem}
use rito.Rest.Client.{HttpApi}
use rito.Rest.Client.Sessions.{Sessions, with_own, request_keeps}
use rito.Rest.Lcu.{LcuState, localhost, create, request, destroy}
use rito.Rest.Lcu.Retry.{
  Starts, at_once, after_failure, Source, held_answer, no_parameters, new_request, session_failure,
  fresh, request-Comes,
}

-- The handler's client has the latest session, and there are these others.
abbrev pub IsHeld : {W : Type 0} → (W → List ℕ) → List ℕ → LcuState W → Type 0
IsHeld open_sessions others s = open_sessions s.world ≡ with_own s.client others

module _ {W : Type 0} (api : HttpApi W) (files : W → FileSystem) where
  -- What a list of requests leaves, whether they return or throw.
  abbrev pub live : List (RequestType × Bytes) → LcuState W → LcuState W
  live [] s = s
  live ((type, message) ∷ calls) s = live calls (request api files type message s).1

module _ {W : Type 0} (api : HttpApi W) (files : W → FileSystem) (open_sessions : W → List ℕ)
    (laws : Sessions api open_sessions) (others : List ℕ) where
  module _ (s : LcuState W) (type : RequestType) (message : Bytes)
      (held : IsHeld open_sessions others s) where
    Starts-others : {w : W} → Starts api files s type message w → open_sessions w ≡ others
    Starts-others (at_once n e) = ground (arith, held)
    Starts-others {w} (after_failure c x w₁ q e k) =
        let now : open_sessions w₁ ≡ c.session ∷ others =
          ground (arith, held, request_keeps api open_sessions laws c type message [] s.world) in
        ap open_sessions k ∙ laws.ends c.session others w₁ now

    Source-IsHeld :
        (r : Result HttpResponse) (t : LcuState W)
        → Source api files s type message r t
        → IsHeld open_sessions others t
    Source-IsHeld r t (held_answer c x q e h k) =
        ground (arith, held, request_keeps api open_sessions laws c type message [] s.world)
    Source-IsHeld r t (no_parameters x from p e k) = ground (arith, Starts-others from)
    Source-IsHeld r t (session_failure ps x w from p made e k) =
        ground (arith, Starts-others from, laws.makes_none localhost ps.app_port x w t.world made)
    Source-IsHeld r t (new_request ps session w w' from p made e k) = ground (
      arith,
      Starts-others from,
      laws.makes localhost ps.app_port session w w' made,
      request_keeps api open_sessions laws (fresh api files s type message ps session) type message
          [] w',
    )

    request-IsHeld : IsHeld open_sessions others (request api files type message s).1
    request-IsHeld = Source-IsHeld _ _ (request-Comes api files s type message).0

  destroy-others :
      (s : LcuState W)
      → IsHeld open_sessions others s
      → open_sessions (destroy api files s) ≡ others
  unfolding destroy
  destroy-others s held = elim (Option-cases s.client) [
    | inl e ↦ ground (arith, held)
    | inr (c, e) ↦ ground (arith, held, laws.ends c.session others s.world)
  ]

module _ {W : Type 0} (api : HttpApi W) (files : W → FileSystem) (open_sessions : W → List ℕ)
    (laws : Sessions api open_sessions) where
  live-IsHeld :
      (others : List ℕ) (calls : List (RequestType × Bytes)) (s : LcuState W)
      → IsHeld open_sessions others s
      → IsHeld open_sessions others (live api files calls s)
  live-IsHeld others [] s held = held
  live-IsHeld others ((type, message) ∷ calls) s held =
      live-IsHeld others calls (request api files type message s).1
        (request-IsHeld api files open_sessions laws others s type message held)

  -- In the whole life of an LCU handler, whatever is requested and whether it is answered or not,
  -- the sessions that are open are those that were open before and the one of its client, if it
  -- has one: no session is lost and none is ended twice. When the handler is destroyed, exactly
  -- those from before are open.
  pub destroy-live_lcu :
      (calls : List (RequestType × Bytes)) (w : W)
      → let s : LcuState W = record { handler = create; world = w } in
        IsHeld open_sessions (open_sessions w) (live api files calls s)
        × (open_sessions (destroy api files (live api files calls s)) ≡ open_sessions w)
  destroy-live_lcu calls w =
      let s : LcuState W = record { handler = create; world = w } in
      let held = live-IsHeld (open_sessions w) calls s refl in
      (
        held,
        destroy-others api files open_sessions laws (open_sessions w) (live api files calls s) held,
      )
