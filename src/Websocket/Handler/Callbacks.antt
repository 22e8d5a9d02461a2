-- ===== src/Websocket/Handler/Callbacks.antt =====
-- The callbacks stay what they were registered to be.
use rito.Common.{
  Bool, true, false, List, [], ◌∷◌, Bytes, codes, ◌≡◌, refl, inl, inr, arith, All, Bool-cases,
}
use rito.Process.FileSystem.{FileSystem}
use rito.Outcome.{Method-cases}
use rito.Websocket.Client.{WebSocketApi}
use rito.Websocket.Handler.{
  HandlerState, Call, stop_call, send_call, register_call, outside_call, set_stop, round,
  send_message, stop, perform, perform_all, main_loop, run, reset_websocket,
}
use rito.Websocket.Handler.Stopping.{
  notify-Keeps, reset-Keeps, receive-Keeps, announce-Keeps, send-Keeps,
}

abbrev pub registers : {W : Type 0} → Call W → Bool
registers (register_call _) = true
registers _ = false

abbrev pub SameCallbacks : {W : Type 0} → HandlerState W → HandlerState W → Type 0
SameCallbacks s t =
    (t.on_disconnected ≡ s.on_disconnected)
    × (t.on_connected ≡ s.on_connected)
    × (t.on_message_received ≡ s.on_message_received)

module _ {W : Type 0} (api : WebSocketApi W) (files : W → FileSystem) (sleep : W → W) where
  pub send-SameCallbacks :
      (m : Bytes) (s : HandlerState W) → SameCallbacks s (send_message api files sleep m s).1
  send-SameCallbacks m s = let (_, a, b, c) = send-Keeps api files sleep m s in (a, b, c)

  pub stop-SameCallbacks : (s : HandlerState W) → SameCallbacks s (stop api files sleep s).1
  unfolding stop
  stop-SameCallbacks s = ground (arith, send-SameCallbacks (codes "Exit") (set_stop true s))

  pub round-SameCallbacks : (s : HandlerState W) → SameCallbacks s (round api files sleep s).1
  unfolding round
  round-SameCallbacks s = ground (
    arith,
    reset-Keeps api files sleep s,
    notify-Keeps api files sleep false (reset_websocket api files sleep s).1,
    receive-Keeps api files sleep s,
    announce-Keeps api files sleep s,
  )

  pub perform-SameCallbacks :
      (c : Call W) (s : HandlerState W)
      → registers c ≡ false
      → SameCallbacks s (perform api files sleep c s).1
  unfolding perform
  perform-SameCallbacks stop_call s h = stop-SameCallbacks s
  perform-SameCallbacks (send_call m) s h = ground (arith, send-SameCallbacks m s)
  perform-SameCallbacks (register_call r) s h = cc
  perform-SameCallbacks (outside_call f) s h = (refl, refl, refl)

  abbrev pub NoRegistration : List (Call W) → Type 0
  NoRegistration = All (λ c. registers c ≡ false)

  perform_all-SameCallbacks :
      (calls : List (Call W)) (s : HandlerState W)
      → NoRegistration calls
      → SameCallbacks s (perform_all api files sleep calls s).1
  unfolding perform_all
  perform_all-SameCallbacks [] s h = (refl, refl, refl)
  perform_all-SameCallbacks (c ∷ cs) s h = elim (Method-cases (perform api files sleep c s)) [
    | inl (_, t, e) ↦
        ground (arith, e, perform-SameCallbacks c s h.0, perform_all-SameCallbacks cs t h.1)
    | inr (inl (x, t, e)) ↦ ground (arith, e, perform-SameCallbacks c s h.0)
    | inr (inr (t, e)) ↦ ground (arith, e, perform-SameCallbacks c s h.0)
  ]

  main_loop-SameCallbacks :
      (schedule : List (List (Call W))) (s : HandlerState W)
      → All NoRegistration schedule
      → SameCallbacks s (main_loop api files sleep schedule s).1
  unfolding main_loop
  main_loop-SameCallbacks [] s h = (refl, refl, refl)
  main_loop-SameCallbacks (calls ∷ rest) s h =
      elim (Method-cases (perform_all api files sleep calls s)) [
        | inr (inl (x, t, e)) ↦ ground (arith, e, perform_all-SameCallbacks calls s h.0)
        | inr (inr (t, e)) ↦ ground (arith, e, perform_all-SameCallbacks calls s h.0)
        | inl (_, t, e) ↦ elim (Method-cases (round api files sleep t)) [
          | inr (inl (x, u, q)) ↦
              ground (arith, perform_all-SameCallbacks calls s h.0, round-SameCallbacks t)
          | inr (inr (u, q)) ↦
              ground (arith, perform_all-SameCallbacks calls s h.0, round-SameCallbacks t)
          | inl (broke, u, q) ↦ elim (Bool-cases broke) [
            | inl over ↦
                ground (arith, perform_all-SameCallbacks calls s h.0, round-SameCallbacks t)
            | inr on ↦ ground (
              arith,
              perform_all-SameCallbacks calls s h.0,
              round-SameCallbacks t,
              main_loop-SameCallbacks rest u h.1,
            )
          ]
        ]
      ]

  pub run-SameCallbacks :
      (schedule : List (List (Call W))) (s : HandlerState W)
      → All NoRegistration schedule
      → SameCallbacks s (run api files sleep schedule s).1
  unfolding run
  run-SameCallbacks schedule s h =
      ground (arith, main_loop-SameCallbacks schedule (set_stop false s) h)
