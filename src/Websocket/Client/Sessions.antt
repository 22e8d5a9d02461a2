-- ===== src/Websocket/Client/Sessions.antt =====
-- Which sessions are open, over a websocket client's operations.
use rito.Common.{ℕ, zero, suc, List, [], ◌∷◌, Bytes, ◌++◌, ◌≡◌, refl, inl, inr, arith, Option-cases}
use rito.Exception.{Thrown, poco_timeout, websocket_exception, message_exception, foreign}
use rito.Result.{ok, throw}
use rito.Act.{Act-cases}
use rito.Websocket.Client.{
  WebSocketApi, HttpsWebsocketClient, ClientState, max_frames_per_message, create, set_credentials,
  start, stop, send_message, receive_frames, receive_message, receive_failure, destroy,
}
use rito.Websocket.Client.Untouched.{Steady, stop_keeps}

-- The open sessions, the latest first: what Poco's operations make of them.
pub record Sessions {W : Type 0} (api : WebSocketApi W) (open_sessions : W → List ℕ) : Type 0 where
  pub steady : Steady api open_sessions
  pub makes :
      (host : Bytes) (port n : ℕ) (w w' : W)
      → api.new_session host port w ≡ (ok n, w')
      → open_sessions w' ≡ n ∷ open_sessions w
  pub makes_none :
      (host : Bytes) (port : ℕ) (e : Thrown) (w w' : W)
      → api.new_session host port w ≡ (throw e, w')
      → open_sessions w' ≡ open_sessions w
  pub ends :
      (n : ℕ) (others : List ℕ) (w : W)
      → open_sessions w ≡ n ∷ others
      → open_sessions (api.close_session n w) ≡ others

module _ {W : Type 0} (api : WebSocketApi W) where
  -- No operation gives a client another session.
  pub start-session : (s : ClientState W) → (start api s).1.session ≡ s.session
  unfolding start
  start-session s = elim (Act-cases (api.open_websocket s.session s.request s.world)) [
    | inl (ws, w, e) ↦ ground arith
    | inr (x, w, e) ↦ ground arith
  ]

  stop-session : (s : ClientState W) → (stop api s).1.session ≡ s.session
  unfolding stop
  stop-session s = ground arith

  pub send_message-session :
      (m : Bytes) (s : ClientState W) → (send_message api m s).1.session ≡ s.session
  unfolding send_message
  send_message-session m s = ground arith

  frames-session :
      (n ws : ℕ) (buffer : Bytes) (s : ClientState W)
      → (receive_frames api n ws buffer s).1.session ≡ s.session
  unfolding receive_frames
  frames-session zero ws buffer s = refl
  frames-session (suc n) ws buffer s = elim (Act-cases (api.receive_frame ws s.world)) [
    | inr (x, w, e) ↦ ground arith
    | inl (r, w, e) ↦
        ground (arith, frames-session n ws (buffer ++ r.payload) (record s { world = w }))
  ]

  failure-session : (e : Thrown) (s : ClientState W) → (receive_failure e s).1.session ≡ s.session
  unfolding receive_failure
  failure-session (poco_timeout _) s = refl
  failure-session (websocket_exception _) s = refl
  failure-session (message_exception _) s = refl
  failure-session (foreign) s = refl
  failure-session _ s = refl

  pub receive_message-session : (s : ClientState W) → (receive_message api s).1.session ≡ s.session
  unfolding receive_message
  receive_message-session s = elim (Option-cases s.websocket) [
    | inl e ↦ ground arith
    | inr (ws, e) ↦ elim (Act-cases (receive_frames api max_frames_per_message ws [] s)) [
      | inl (m, t, q) ↦ ground (arith, frames-session max_frames_per_message ws [] s)
      | inr (x, t, q) ↦
          ground (arith, frames-session max_frames_per_message ws [] s, failure-session x t)
    ]
  ]

  module _ (open_sessions : W → List ℕ) (laws : Sessions api open_sessions) where
    -- A destructor that returns has ended the client's session.
    pub destroy_ends :
        (others : List ℕ) (s : ClientState W) {t : ClientState W}
        → destroy api s ≡ (ok tt, t)
        → open_sessions s.world ≡ s.session ∷ others
        → open_sessions t.world ≡ others
    unfolding destroy
    destroy_ends others s h o = elim (Act-cases (stop api s)) [
      | inl (_, u, e) ↦ ground (
        arith,
        laws.ends u.session others u.world,
        stop-session s,
        stop_keeps api open_sessions laws.steady s,
      )
      | inr (x, u, e) ↦ absurd (ground arith)
    ]

    pub create_makes :
        (host : Bytes) (port : ℕ) (w : W) {c : HttpsWebsocketClient} {w' : W}
        → create api host port w ≡ (ok c, w')
        → open_sessions w' ≡ c.session ∷ open_sessions w
    unfolding create
    create_makes host port w {c} {w'} h = elim (Act-cases (api.new_session host port w)) [
      | inl (n, v, e) ↦ ground (arith, laws.makes host port n w v e)
      | inr (x, v, e) ↦ absurd (ground arith)
    ]

    pub create_makes_none :
        (host : Bytes) (port : ℕ) (w : W) {x : Thrown} {w' : W}
        → create api host port w ≡ (throw x, w')
        → open_sessions w' ≡ open_sessions w
    unfolding create
    create_makes_none host port w {x} {w'} h = elim (Act-cases (api.new_session host port w)) [
      | inl (n, v, e) ↦ absurd (ground arith)
      | inr (y, v, e) ↦ ground (arith, laws.makes_none host port y w v e)
    ]

  pub set_credentials-session :
      (username password : Bytes) (c : HttpsWebsocketClient)
      → (set_credentials api username password c).session ≡ c.session
  unfolding set_credentials
  set_credentials-session username password c = refl
