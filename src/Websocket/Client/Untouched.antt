-- ===== src/Websocket/Client/Untouched.antt =====
-- What the client's operations leave as it was: anything observed of the outside that Poco's calls
-- do not change.
use rito.Common.{
  ℕ, zero, suc, ◌^◌, ◌%◌, length, [], Bytes, ◌++◌, ◌≡◌, refl, inl, inr, arith, Option-cases,
}
use rito.Exception.{Thrown, poco_timeout, websocket_exception, message_exception, foreign}
use rito.Act.{Act-cases}
use rito.Rest.Client.{HttpRequest}
use rito.Websocket.Client.{
  WebSocketApi, ClientState, Frame, max_frame_size, max_frames_per_message, create, start, stop,
  send_message, receive_frames, receive_message, receive_failure, destroy,
}

-- `f` is what Poco's calls on a websocket do not change.
pub record Steady {W X : Type 0} (api : WebSocketApi W) (f : W → X) : Type 0 where
  pub open_keeps : (n : ℕ) (r : HttpRequest) (w : W) → f (api.open_websocket n r w).1 ≡ f w
  pub size_keeps : (n k : ℕ) (w : W) → f (api.set_max_payload_size n k w).1 ≡ f w
  pub shutdown_keeps : (n : ℕ) (w : W) → f (api.shutdown n w).1 ≡ f w
  pub close_keeps : (n : ℕ) (w : W) → f (api.close n w) ≡ f w
  pub send_keeps : (n : ℕ) (m : Frame) (w : W) → f (api.send_frame n m w).1 ≡ f w
  pub receive_keeps : (n : ℕ) (w : W) → f (api.receive_frame n w).1 ≡ f w

-- Nor those on a session.
pub record Untouched {W X : Type 0} (api : WebSocketApi W) (f : W → X) : Type 0 where
  pub steady : Steady api f
  pub session_keeps : (h : Bytes) (p : ℕ) (w : W) → f (api.new_session h p w).1 ≡ f w
  pub end_keeps : (n : ℕ) (w : W) → f (api.close_session n w) ≡ f w

module _ {W X : Type 0} (api : WebSocketApi W) (f : W → X) (laws : Steady api f) where
  pub start_keeps : (s : ClientState W) → f (start api s).1.world ≡ f s.world
  unfolding start
  start_keeps s = elim (Act-cases (api.open_websocket s.session s.request s.world)) [
    | inl (ws, w, e) ↦
        ground
          (arith, laws.open_keeps s.session s.request s.world, laws.size_keeps ws max_frame_size w)
    | inr (x, w, e) ↦ ground (arith, laws.open_keeps s.session s.request s.world)
  ]

  pub stop_keeps : (s : ClientState W) → f (stop api s).1.world ≡ f s.world
  unfolding stop
  stop_keeps s = elim (Option-cases s.websocket) [
    | inl e ↦ ground arith
    | inr (ws, e) ↦ elim (Act-cases (api.shutdown ws s.world)) [
      | inl (_, w, q) ↦ ground (
        arith,
        laws.shutdown_keeps ws s.world,
        laws.close_keeps ws w,
        laws.close_keeps ws s.world,
      )
      | inr (x, w, q) ↦ ground (arith, laws.shutdown_keeps ws s.world, laws.close_keeps ws s.world)
    ]
  ]

  pub send_message_keeps :
      (m : Bytes) (s : ClientState W) → f (send_message api m s).1.world ≡ f s.world
  unfolding send_message
  send_message_keeps m s = elim (Option-cases s.websocket) [
    | inl e ↦ ground arith
    | inr (ws, e) ↦ ground (
      arith,
      laws.send_keeps ws (record { bytes = m; size = length m % 2 ^ 32; kind = api.frame_text })
          s.world,
    )
  ]

  frames_keep :
      (n ws : ℕ) (buffer : Bytes) (s : ClientState W)
      → f (receive_frames api n ws buffer s).1.world ≡ f s.world
  unfolding receive_frames
  frames_keep zero ws buffer s = refl
  frames_keep (suc n) ws buffer s = elim (Act-cases (api.receive_frame ws s.world)) [
    | inr (x, w, e) ↦ ground (arith, laws.receive_keeps ws s.world)
    | inl (r, w, e) ↦ ground (
      arith,
      laws.receive_keeps ws s.world,
      frames_keep n ws (buffer ++ r.payload) (record s { world = w }),
    )
  ]

  failure_keeps : (e : Thrown) (s : ClientState W) → f (receive_failure e s).1.world ≡ f s.world
  unfolding receive_failure
  failure_keeps (poco_timeout _) s = refl
  failure_keeps (websocket_exception _) s = refl
  failure_keeps (message_exception _) s = refl
  failure_keeps (foreign) s = refl
  failure_keeps _ s = refl

  pub receive_message_keeps : (s : ClientState W) → f (receive_message api s).1.world ≡ f s.world
  unfolding receive_message
  receive_message_keeps s = elim (Option-cases s.websocket) [
    | inl e ↦ ground arith
    | inr (ws, e) ↦ elim (Act-cases (receive_frames api max_frames_per_message ws [] s)) [
      | inl (m, t, q) ↦ ground (arith, frames_keep max_frames_per_message ws [] s)
      | inr (x, t, q) ↦
          ground (arith, frames_keep max_frames_per_message ws [] s, failure_keeps x t)
    ]
  ]

module _ {W X : Type 0} (api : WebSocketApi W) (f : W → X) (laws : Untouched api f) where
  pub create_keeps : (h : Bytes) (p : ℕ) (w : W) → f (create api h p w).1 ≡ f w
  unfolding create
  create_keeps h p w = ground (arith, laws.session_keeps h p w)

  pub destroy_keeps : (s : ClientState W) → f (destroy api s).1.world ≡ f s.world
  unfolding destroy
  destroy_keeps s = elim (Act-cases (stop api s)) [
    | inl (_, t, e) ↦
        ground (arith, stop_keeps api f laws.steady s, laws.end_keeps t.session t.world)
    | inr (x, t, e) ↦ ground (arith, stop_keeps api f laws.steady s)
  ]
