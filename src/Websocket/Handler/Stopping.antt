-- ===== src/Websocket/Handler/Stopping.antt =====
-- When the loop ends, and what it leaves then.
use rito.Common.{
  Bool, true, false, ◌||◌, none, List, [], ◌∷◌, Bytes, codes, ◌≡◌, refl, subst, ◌⊎◌, inl, inr,
  arith, Bool-cases,
}
use rito.Process.FileSystem.{FileSystem}
use rito.Outcome.{returns, Method-cases}
use rito.Websocket.Client.{WebSocketApi}
use rito.Websocket.Handler.{
  HandlerState, Call, stop_call, send_call, register_call, message_callback, connected_callback,
  disconnected_callback, outside_call, set_websocket, set_stop, register,
  notify_connection_state_changed, reset_websocket, make_client, reconnect, receive_message,
  reconnect_and_notify, round, send_message, stop, perform, perform_all, main_loop, run,
}

-- Is there a call of stop among these? In any round of the schedule?
abbrev pub asks_stop : {W : Type 0} → List (Call W) → Bool
asks_stop [] = false
asks_stop (stop_call ∷ cs) = true
asks_stop (_ ∷ cs) = asks_stop cs

abbrev pub is_stopped : {W : Type 0} → List (List (Call W)) → Bool
is_stopped [] = false
is_stopped (calls ∷ rest) = asks_stop calls || is_stopped rest

module _ {W : Type 0} (api : WebSocketApi W) (files : W → FileSystem) (sleep : W → W) where
  -- Only run and stop write the flag, and only a registration writes a callback.
  abbrev pub Keeps : HandlerState W → HandlerState W → Type 0
  Keeps s t =
      (t.stop_flag ≡ s.stop_flag)
      × (t.on_disconnected ≡ s.on_disconnected)
      × (t.on_connected ≡ s.on_connected)
      × (t.on_message_received ≡ s.on_message_received)

  pub notify-Keeps :
      (b : Bool) (s : HandlerState W) → Keeps s (notify_connection_state_changed b s).1
  unfolding notify_connection_state_changed
  notify-Keeps b s = ground arith

  pub reset-Keeps : (s : HandlerState W) → Keeps s (reset_websocket api files sleep s).1
  unfolding reset_websocket
  reset-Keeps s = ground arith

  pub reset_lem :
      (s : HandlerState W) {t : HandlerState W}
      → reset_websocket api files sleep s ≡ (returns tt, t)
      → t ≡ record (set_websocket none s) { world = t.world }
  unfolding reset_websocket
  reset_lem s h = ground arith

  pub make_client-Keeps : (s : HandlerState W) → Keeps s (make_client api files sleep s).1
  unfolding make_client
  make_client-Keeps s = ground arith

  pub receive-Keeps : (s : HandlerState W) → Keeps s (receive_message api files sleep s).1
  unfolding receive_message
  receive-Keeps s = ground arith

  pub send-Keeps : (m : Bytes) (s : HandlerState W) → Keeps s (send_message api files sleep m s).1
  unfolding send_message
  send-Keeps m s = ground arith

  pub reconnect-Keeps : (s : HandlerState W) → Keeps s (reconnect api files sleep s).1
  unfolding reconnect
  reconnect-Keeps s = elim (Method-cases (reset_websocket api files sleep s)) [
    | inl (_, t, e) ↦ ground (arith, reset-Keeps s, make_client-Keeps s, make_client-Keeps t)
    | inr (inl (x, t, e)) ↦ ground (arith, reset-Keeps s, make_client-Keeps s)
    | inr (inr (t, e)) ↦ ground (arith, reset-Keeps s, make_client-Keeps s)
  ]

  pub announce-Keeps : (s : HandlerState W) → Keeps s (reconnect_and_notify api files sleep s).1
  unfolding reconnect_and_notify
  announce-Keeps s = elim (Method-cases (notify_connection_state_changed false s)) [
    | inr (inl (x, t, e)) ↦ ground (arith, notify-Keeps false s)
    | inr (inr (t, e)) ↦ ground (arith, notify-Keeps false s)
    | inl (_, t, e) ↦ elim (Method-cases (reconnect api files sleep t)) [
      | inr (inl (x, u, q)) ↦ ground (arith, notify-Keeps false s, reconnect-Keeps t)
      | inr (inr (u, q)) ↦ ground (arith, notify-Keeps false s, reconnect-Keeps t)
      | inl (_, u, q) ↦ ground (arith, notify-Keeps false s, reconnect-Keeps t, notify-Keeps true u)
    ]
  ]

  pub round_goes_on :
      (s : HandlerState W) {b : Bool} {t : HandlerState W}
      → s.stop_flag ≡ false
      → round api files sleep s ≡ (returns b, t)
      → (b ≡ false) × (t.stop_flag ≡ false)
  unfolding round
  round_goes_on s n h = ground (arith, receive-Keeps s, announce-Keeps s)

  -- What the loop leaves when it has broken.
  pub record IsStopped (t : HandlerState W) : Type 0 where
    pub no_websocket : t.websocket ≡ none
    pub not_connected : t.is_state_connected ≡ false
    pub flag : t.stop_flag ≡ true

  notify_false :
      (s : HandlerState W) {t : HandlerState W}
      → notify_connection_state_changed false s ≡ (returns tt, t)
      → (t.websocket ≡ s.websocket) × (t.is_state_connected ≡ false) × (t.stop_flag ≡ s.stop_flag)
  unfolding notify_connection_state_changed
  notify_false s h = ground arith

  pub round_stops :
      (s : HandlerState W) {b : Bool} {t : HandlerState W}
      → s.stop_flag ≡ true
      → round api files sleep s ≡ (returns b, t)
      → (b ≡ true) × IsStopped t
  unfolding round
  round_stops s h e = elim (Method-cases (reset_websocket api files sleep s)) [
    | inr (inl (x, t', q)) ↦ absurd (ground arith)
    | inr (inr (t', q)) ↦ absurd (ground arith)
    | inl (_, t', q) ↦ elim (Method-cases (notify_connection_state_changed false t')) [
      | inr (inl (x, u, p)) ↦ absurd (ground arith)
      | inr (inr (u, p)) ↦ absurd (ground arith)
      | inl (_, u, p) ↦ ground (arith, reset_lem s q, reset-Keeps s, notify_false t' p)
    ]
  ]

  abbrev asks : Call W → Bool
  asks c = asks_stop (c ∷ [])

  perform-stop_flag :
      (c : Call W) (s : HandlerState W)
      → (perform api files sleep c s).1.stop_flag ≡ (asks c || s.stop_flag)
  unfolding perform stop register
  perform-stop_flag stop_call s = ground (arith, send-Keeps (codes "Exit") (set_stop true s))
  perform-stop_flag (send_call m) s = ground (arith, send-Keeps m s)
  perform-stop_flag (register_call (message_callback f)) s = refl
  perform-stop_flag (register_call (connected_callback f)) s = refl
  perform-stop_flag (register_call (disconnected_callback f)) s = refl
  perform-stop_flag (outside_call f) s = refl

  asks_stop-cons : (c : Call W) (cs : List (Call W)) → asks_stop (c ∷ cs) ≡ (asks c || asks_stop cs)
  asks_stop-cons stop_call cs = refl
  asks_stop-cons _ cs = refl

  pub perform_all-stop_flag :
      (calls : List (Call W)) (s : HandlerState W) {t : HandlerState W}
      → perform_all api files sleep calls s ≡ (returns tt, t)
      → t.stop_flag ≡ (asks_stop calls || s.stop_flag)
  unfolding perform_all
  perform_all-stop_flag [] s h = ground arith
  perform_all-stop_flag (c ∷ cs) s {t} h = elim (Method-cases (perform api files sleep c s)) [
    | inl (_, u, e) ↦
        let rest : perform_all api files sleep cs u ≡ (returns tt, t) = ground arith in
        ground (arith, perform-stop_flag c s, asks_stop-cons c cs, perform_all-stop_flag cs u rest)
    | inr (inl (x, u, e)) ↦ absurd (ground arith)
    | inr (inr (u, e)) ↦ absurd (ground arith)
  ]

  main_loop-is_stopped :
      (schedule : List (List (Call W))) (s : HandlerState W) {b : Bool} {t : HandlerState W}
      → s.stop_flag ≡ false
      → main_loop api files sleep schedule s ≡ (returns b, t)
      → (b ≡ is_stopped schedule) × (b ≡ true → IsStopped t)
  unfolding main_loop
  main_loop-is_stopped [] s n h = (ground arith, λ e. cc)
  main_loop-is_stopped (calls ∷ rest) s {b} {t} n h =
      elim (Method-cases (perform_all api files sleep calls s)) [
        | inr (inl (x, u, e)) ↦ absurd (ground arith)
        | inr (inr (u, e)) ↦ absurd (ground arith)
        | inl (_, u, e) ↦ elim (Method-cases (round api files sleep u)) [
          | inr (inl (x, v, q)) ↦ absurd (ground arith)
          | inr (inr (v, q)) ↦ absurd (ground arith)
          | inl (broke, v, q) ↦ elim (Bool-cases (asks_stop calls)) [
            | inl asked ↦
                let f : u.stop_flag ≡ true = ground (arith, perform_all-stop_flag calls s e) in
                let stopped = round_stops u f q in
                let b_is : true ≡ b = ground (arith, stopped.0) in
                let t_is : v ≡ t = ground (arith, stopped.0) in
                (ground arith, λ _. subst IsStopped t_is stopped.1)
            | inr quiet ↦
                let f : u.stop_flag ≡ false = ground (arith, perform_all-stop_flag calls s e) in
                let on = round_goes_on u f q in
                let later : main_loop api files sleep rest v ≡ (returns b, t) =
                  ground (arith, on.0) in
                let (b_is, left) = main_loop-is_stopped rest v on.1 later in (ground arith, left)
          ]
        ]
      ]

  stopped_or_not :
      (b : Bool) {t : HandlerState W}
      → (b ≡ true → IsStopped t)
      → ((b ≡ true) × IsStopped t) ⊎ (b ≡ false)
  stopped_or_not true f = inl (refl, f refl)
  stopped_or_not false f = inr refl

  -- Where run does not end the process and does not throw, whatever Poco and the callbacks do, it
  -- has left its loop exactly if some round of the schedule held a call of stop. Then no websocket
  -- is left, the last state notified is the disconnected one, and the flag is still set.
  pub run-is_stopped :
      (schedule : List (List (Call W))) (s : HandlerState W) {b : Bool} {t : HandlerState W}
      → run api files sleep schedule s ≡ (returns b, t)
      → (b ≡ is_stopped schedule) × (((b ≡ true) × IsStopped t) ⊎ (b ≡ false))
  unfolding run
  run-is_stopped schedule s {b} {t} h =
      let same : main_loop api files sleep schedule (set_stop false s) ≡ (returns b, t) =
        ground arith in
      let (b_is, left) = main_loop-is_stopped schedule (set_stop false s) refl same in
      (b_is, stopped_or_not b left)
