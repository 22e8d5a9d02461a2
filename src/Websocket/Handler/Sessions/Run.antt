-- ===== src/Websocket/Handler/Sessions/Run.antt =====
-- Over a whole run: the sessions that the loop makes and ends.
use rito.Common.{
  ℕ, Bool, true, false, List, [], ◌∷◌, codes, ◌≡◌, ◌≢◌, subst, ◌⊎◌, inl, inr, arith, All,
}
use rito.Process.FileSystem.{FileSystem}
use rito.Exception.{Thrown}
use rito.Outcome.{Outcome, returns, throws, terminates, Method-cases}
use rito.Websocket.Client.{WebSocketApi}
use rito.Websocket.Client.Sessions.{Sessions}
use rito.Websocket.Handler.{
  HandlerState, Call, stop_call, send_call, register_call, message_callback, connected_callback,
  disconnected_callback, outside_call, set_stop, register, round, send_message, stop, perform,
  perform_all, main_loop, run, destroy, reset_websocket,
}
use rito.Websocket.Handler.Sessions.{
  PoliteCall, with_own, IsHeld, Leaves, after-Leaves, moved, flagged,
}
use rito.Websocket.Handler.Stopping.{IsStopped, run-is_stopped, reset_lem}
use rito.Websocket.Handler.Sessions.Steps.{send-Leaves, round-Leaves, reset-Leaves}

module _ {W : Type 0} (api : WebSocketApi W) (files : W → FileSystem) (sleep : W → W)
    (open_sessions : W → List ℕ) (laws : Sessions api open_sessions)
    (sleep_keeps : (w : W) → open_sessions (sleep w) ≡ open_sessions w) (others : List ℕ) where
  abbrev Held : HandlerState W → Type 0
  Held = IsHeld open_sessions others

  abbrev HeldAfter : {A : Type 0} → Outcome A × HandlerState W → Type 0
  HeldAfter = Leaves open_sessions others

  stop-Leaves : (s : HandlerState W) → Held s → HeldAfter (stop api files sleep s)
  unfolding stop
  stop-Leaves s h =
      after-Leaves open_sessions others
        (send_message api files sleep (codes "Exit") (set_stop true s)) _
        (send-Leaves api files sleep open_sessions laws sleep_keeps others (codes "Exit")
          (set_stop true s) (flagged open_sessions others true s h))
        λ _ t e k. k

  perform-Leaves :
      (c : Call W) (s : HandlerState W)
      → PoliteCall open_sessions c
      → Held s
      → HeldAfter (perform api files sleep c s)
  unfolding perform register
  perform-Leaves stop_call s p h = stop-Leaves s h
  perform-Leaves (send_call m) s p h =
      after-Leaves open_sessions others (send_message api files sleep m s) _
        (send-Leaves api files sleep open_sessions laws sleep_keeps others m s h) λ _ t e k. k
  perform-Leaves (register_call (message_callback f)) s p h = record {
    own = h.own;
    message = p;
    up = h.up;
    down = h.down;
  }
  perform-Leaves (register_call (connected_callback f)) s p h = record {
    own = h.own;
    message = h.message;
    up = p;
    down = h.down;
  }
  perform-Leaves (register_call (disconnected_callback f)) s p h = record {
    own = h.own;
    message = h.message;
    up = h.up;
    down = p;
  }
  perform-Leaves (outside_call f) s p h = moved open_sessions others s (f s.world) h (p s.world)

  perform_all-Leaves :
      (calls : List (Call W)) (s : HandlerState W)
      → All (PoliteCall open_sessions) calls
      → Held s
      → HeldAfter (perform_all api files sleep calls s)
  unfolding perform_all
  perform_all-Leaves [] s p h = h
  perform_all-Leaves (c ∷ cs) s p h =
      after-Leaves open_sessions others (perform api files sleep c s) _ (perform-Leaves c s p.0 h)
        λ _ t e k. perform_all-Leaves cs t p.1 k

  -- Behind a round the loop has broken or goes on.
  onward-Leaves :
      (rest : List (List (Call W))) (broke : Bool) (u : HandlerState W)
      → Held u
      → HeldAfter (main_loop api files sleep rest u)
      → HeldAfter (elim broke as (λ _. Outcome Bool × HandlerState W) [
        | true ↦ (returns true, u)
        | false ↦ main_loop api files sleep rest u
      ])
  onward-Leaves rest true u h k = h
  onward-Leaves rest false u h k = k

  main_loop-Leaves :
      (schedule : List (List (Call W))) (s : HandlerState W)
      → All (All (PoliteCall open_sessions)) schedule
      → Held s
      → HeldAfter (main_loop api files sleep schedule s)
  unfolding main_loop
  main_loop-Leaves [] s p h = h
  main_loop-Leaves (calls ∷ rest) s p h =
      after-Leaves open_sessions others (perform_all api files sleep calls s) _
        (perform_all-Leaves calls s p.0 h)
        λ _ t e k.
          after-Leaves open_sessions others (round api files sleep t) _
            (round-Leaves api files sleep open_sessions laws sleep_keeps others t k)
            λ broke u q l. onward-Leaves rest broke u l (main_loop-Leaves rest u p.1 l)

  -- Neither throws.
  stop_silent :
      (s : HandlerState W) {x : Thrown} {t : HandlerState W}
      → stop api files sleep s ≢ (throws x, t)
  unfolding stop send_message
  stop_silent s e = ground arith

  reset_silent :
      (s : HandlerState W) {x : Thrown} {t : HandlerState W}
      → reset_websocket api files sleep s ≢ (throws x, t)
  unfolding reset_websocket
  reset_silent s e = ground arith

  destroy-others :
      (s : HandlerState W)
      → Held s
      → ((destroy api files sleep s).0 ≡ terminates)
        ⊎ (open_sessions (destroy api files sleep s).1.world ≡ others)
  unfolding destroy
  destroy-others s h = elim (Method-cases (stop api files sleep s)) [
    | inr (inl (x, t, e)) ↦ absurd (stop_silent s e)
    | inr (inr (t, e)) ↦ inl (ground arith)
    | inl (_, t, e) ↦
        let held : Held t = subst HeldAfter e (stop-Leaves s h) in
        elim (Method-cases (reset_websocket api files sleep t)) [
          | inr (inl (x, u, q)) ↦ absurd (reset_silent t q)
          | inr (inr (u, q)) ↦ inl (ground arith)
          | inl (_, u, q) ↦
              let left : Held u =
                subst HeldAfter q
                  (reset-Leaves api files sleep open_sessions laws sleep_keeps others t held) in
              inr (ground (arith, left.own, reset_lem api files sleep t q))
        ]
  ]

  -- Where Poco makes and ends sessions as it is asked to, and neither the pauses, the callbacks nor
  -- the other threads' doings make or end one: a run that returns leaves those sessions open that
  -- were open before beside the handler's own, and the one of its client, if it has one; where
  -- the loop has ended, exactly the former; and the handler's destructor, unless it ends the
  -- process, leaves exactly the former. No session is lost, and none is ended twice.
  pub run-IsHeld :
      (schedule : List (List (Call W))) (s : HandlerState W) {b : Bool} {t : HandlerState W}
      → All (All (PoliteCall open_sessions)) schedule
      → IsHeld open_sessions others s
      → run api files sleep schedule s ≡ (returns b, t)
      → (open_sessions t.world ≡ with_own t.websocket others)
        × (((b ≡ true) × (open_sessions t.world ≡ others)) ⊎ (b ≡ false))
        × (((destroy api files sleep t).0 ≡ terminates)
            ⊎ (open_sessions (destroy api files sleep t).1.world ≡ others))
  unfolding run
  run-IsHeld schedule s {b} {t} p h e =
      let same : main_loop api files sleep schedule (set_stop false s) ≡ (returns b, t) =
        ground arith in
      let held : Held t =
        subst HeldAfter same (
          main_loop-Leaves schedule (set_stop false s) p
            (flagged open_sessions others false s h)) in
      let (_, left) = run-is_stopped api files sleep schedule s e in
      (held.own, over b t held left, destroy-others t held)
    where
      over :
          (b : Bool) (t : HandlerState W)
          → Held t
          → ((b ≡ true) × IsStopped api files sleep t) ⊎ (b ≡ false)
          → ((b ≡ true) × (open_sessions t.world ≡ others)) ⊎ (b ≡ false)
      over b t k (inl (e, z)) = inl (e, ground (arith, k.own, z.no_websocket))
      over b t k (inr e) = inr e
