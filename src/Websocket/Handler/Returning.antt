-- ===== src/Websocket/Handler/Returning.antt =====
-- How the methods of the loop end where destructors, sends and the callback for a lost connection
-- do not throw.
use rito.Common.{
  ℕ, ◌%◌, ◌^◌, length, Bool, true, false, Option, none, some, List, [], ◌∷◌, Bytes, codes, ◌≡◌, ◌≢◌,
  refl, sym, subst, ◌⊎◌, inl, inr, arith, Option-cases, Bool-cases, All,
}
use rito.Result.{ok}
use rito.Act.{Act}
use rito.Process.FileSystem.{FileSystem}
use rito.Outcome.{returns, terminates, Done}
use rito.Websocket.Client.{WebSocketApi, HttpsWebsocketClient, ClientState, Frame}
use rito.Websocket.Client
use rito.Websocket.Handler.{
  HandlerState, Call, stop_call, send_call, register_call, message_callback, connected_callback,
  disconnected_callback, outside_call, set_stop, invoke, register, is_connected,
  notify_connection_state_changed, reset_websocket, make_client, reconnect, receive_message,
  reconnect_and_notify, round, send_message, stop, perform, perform_all, main_loop, run,
}
use rito.Websocket.Handler.Stopping.{
  is_stopped, IsStopped, notify-Keeps, reset-Keeps, receive-Keeps, announce-Keeps, send-Keeps,
  run-is_stopped,
}

-- What Poco is asked not to do: a shutdown or a send that throws would end the process.
pub record Quiet {W : Type 0} (api : WebSocketApi W) : Type 0 where
  pub shutdown_ok : (n : ℕ) (w : W) → (api.shutdown n w).0 ≡ ok tt
  pub send_ok : (n : ℕ) (f : Frame) (w : W) → (api.send_frame n f w).0 ≡ ok tt

-- A callback that does not throw.
abbrev pub Calm : {W : Type 0} → Option (Act W Done) → Type 0
Calm none = Unit
Calm {W} (some f) = (w : W) → (f w).0 ≡ ok tt

abbrev pub CalmCall : {W : Type 0} → Call W → Type 0
CalmCall (register_call (disconnected_callback f)) = Calm f
CalmCall _ = Unit

abbrev pub CalmSchedule : {W : Type 0} → List (List (Call W)) → Type 0
CalmSchedule = All (All CalmCall)

module _ {W : Type 0} (api : WebSocketApi W) (files : W → FileSystem) (sleep : W → W)
    (quiet : Quiet api) where
  client_stop_ok : (s : ClientState W) → (Client.stop api s).0 ≡ ok tt
  unfolding Client.stop
  client_stop_ok s = elim (Option-cases s.websocket) [
    | inl e ↦ ground arith
    | inr (ws, e) ↦ ground (arith, quiet.shutdown_ok ws s.world)
  ]

  client_destroy_ok : (s : ClientState W) → (Client.destroy api s).0 ≡ ok tt
  unfolding Client.destroy
  client_destroy_ok s = ground (arith, client_stop_ok s)

  reset_returns : (s : HandlerState W) → (reset_websocket api files sleep s).0 ≡ returns tt
  unfolding reset_websocket
  reset_returns s = elim (Option-cases s.websocket) [
    | inl e ↦ ground arith
    | inr (c, e) ↦ ground (arith, client_destroy_ok (record { client = c; world = s.world }))
  ]

  invoke_ok : (f : Option (Act W Done)) (s : HandlerState W) → Calm f → (invoke f s).0 ≡ returns tt
  invoke_ok none s c = refl
  invoke_ok (some f) s c = ground (arith, c s.world)

  notify_false_returns :
      (s : HandlerState W)
      → Calm s.on_disconnected
      → (notify_connection_state_changed false s).0 ≡ returns tt
  unfolding notify_connection_state_changed
  notify_false_returns s c = ground (arith, invoke_ok s.on_disconnected s c)

  notify_goes_on :
      (b : Bool) (s : HandlerState W) → (notify_connection_state_changed b s).0 ≢ terminates
  unfolding notify_connection_state_changed
  notify_goes_on b s h = ground arith

  make_client_goes_on : (s : HandlerState W) → (make_client api files sleep s).0 ≢ terminates
  unfolding make_client
  make_client_goes_on s h = ground arith

  reconnect_goes_on : (s : HandlerState W) → (reconnect api files sleep s).0 ≢ terminates
  unfolding reconnect
  reconnect_goes_on s h = ground (
    arith,
    reset_returns s,
    make_client_goes_on s,
    make_client_goes_on (reset_websocket api files sleep s).1,
  )

  receive_returns :
      (s : HandlerState W)
      → is_connected s ≡ true
      → (receive_message api files sleep s).0 ≡ returns tt
  unfolding receive_message is_connected
  receive_returns s h = ground arith

  announce_returns :
      (s : HandlerState W)
      → Calm s.on_disconnected
      → (reconnect_and_notify api files sleep s).0 ≡ returns tt
  unfolding reconnect_and_notify
  announce_returns s c =
      let t = (notify_connection_state_changed false s).1 in
      let u = (reconnect api files sleep t).1 in
      ground (arith, notify_false_returns s c, reconnect_goes_on t, notify_goes_on true u)

  pub round_keeps :
      (s : HandlerState W) → (round api files sleep s).1.on_disconnected ≡ s.on_disconnected
  unfolding round
  round_keeps s = ground (
    arith,
    reset-Keeps api files sleep s,
    notify-Keeps api files sleep false (reset_websocket api files sleep s).1,
    receive-Keeps api files sleep s,
    announce-Keeps api files sleep s,
  )

  pub last_round_returns :
      (s : HandlerState W)
      → s.stop_flag ≡ true
      → Calm s.on_disconnected
      → (round api files sleep s).0 ≡ returns true
  unfolding round
  last_round_returns s asked c =
      let t = (reset_websocket api files sleep s).1 in
      let kept = reset-Keeps api files sleep s in
      ground (arith, reset_returns s, notify_false_returns t (subst Calm (sym kept.1) c))

  pub other_round_returns :
      (s : HandlerState W)
      → s.stop_flag ≡ false
      → Calm s.on_disconnected
      → (round api files sleep s).0 ≡ returns false
  unfolding round
  other_round_returns s on c = ground (arith, receive_returns s, announce_returns s c)

  send_returns :
      (m : Bytes) (s : HandlerState W)
      → (b : Bool) × ((send_message api files sleep m s).0 ≡ returns b)
  unfolding send_message Client.send_message
  send_returns m s = elim (Option-cases s.websocket) [
    | inl e ↦ (false, ground arith)
    | inr (c, e) ↦ elim (Bool-cases c.connected) [
      | inr off ↦ (false, ground arith)
      | inl up ↦ elim (Option-cases c.websocket) [
        | inl n ↦ (false, ground arith)
        | inr (ws, q) ↦ (
          true,
          ground (
            arith,
            quiet.send_ok ws (record { bytes = m; size = length m % 2 ^ 32; kind = api.frame_text })
                s.world,
          ),
        )
      ]
    ]
  ]

  perform_returns :
      (c : Call W) (s : HandlerState W)
      → CalmCall c
      → Calm s.on_disconnected
      → ((perform api files sleep c s).0 ≡ returns tt)
        × Calm (perform api files sleep c s).1.on_disconnected
  unfolding perform stop register
  perform_returns stop_call s h c =
      let t = set_stop true s in
      let (b, e) = send_returns (codes "Exit") t in
      let kept = send-Keeps api files sleep (codes "Exit") t in
      let same : (perform api files sleep stop_call s).1.on_disconnected ≡ s.on_disconnected =
        ground (arith, kept, e) in
      (ground (arith, e), subst Calm (sym same) c)
  perform_returns (send_call m) s h c =
      let (b, e) = send_returns m s in
      let kept = send-Keeps api files sleep m s in
      let same : (perform api files sleep (send_call m) s).1.on_disconnected ≡ s.on_disconnected =
        ground (arith, kept, e) in
      (ground (arith, e), subst Calm (sym same) c)
  perform_returns (register_call (message_callback f)) s h c = (refl, c)
  perform_returns (register_call (connected_callback f)) s h c = (refl, c)
  perform_returns (register_call (disconnected_callback f)) s h c = (refl, h)
  perform_returns (outside_call f) s h c = (refl, c)

  pub perform_all_returns :
      (calls : List (Call W)) (s : HandlerState W)
      → All CalmCall calls
      → Calm s.on_disconnected
      → (t : HandlerState W) × (perform_all api files sleep calls s ≡ (returns tt, t))
        × Calm t.on_disconnected
  unfolding perform_all
  perform_all_returns [] s h c = (s, refl, c)
  perform_all_returns (k ∷ calls) s h c =
      let (e, c') = perform_returns k s h.0 c in
      let (t, q, c'') = perform_all_returns calls (perform api files sleep k s).1 h.1 c' in
      (t, ground (arith, e, q), c'')

  main_loop_returns :
      (schedule : List (List (Call W))) (s : HandlerState W)
      → CalmSchedule schedule
      → Calm s.on_disconnected
      → (b : Bool) × (t : HandlerState W) × (main_loop api files sleep schedule s ≡ (returns b, t))
  unfolding main_loop
  main_loop_returns [] s h c = (false, s, refl)
  main_loop_returns (calls ∷ rest) s h c =
      let (t, e, ct) = perform_all_returns calls s h.0 c in
      elim (Bool-cases t.stop_flag) [
        | inl asked ↦
            (true, (round api files sleep t).1, ground (arith, e, last_round_returns t asked ct))
        | inr on ↦
            let u = (round api files sleep t).1 in
            let (b, v, q) = main_loop_returns rest u h.1 (subst Calm (sym (round_keeps t)) ct) in
            (b, v, ground (arith, e, q, other_round_returns t on ct))
      ]

  -- Where Poco's shutdown and send calls do not throw, and neither does any callback for a lost
  -- connection, run goes through every schedule without ending the process or throwing: it leaves
  -- its loop, with no websocket and the state disconnected, if some round held a call of stop, and
  -- still runs at the schedule's end if none did.
  pub run_returns :
      (schedule : List (List (Call W))) (s : HandlerState W)
      → CalmSchedule schedule
      → Calm s.on_disconnected
      → (t : HandlerState W) × (run api files sleep schedule s ≡ (returns (is_stopped schedule), t))
        × (((is_stopped schedule ≡ true) × IsStopped api files sleep t)
            ⊎ (is_stopped schedule ≡ false))
  unfolding run
  run_returns schedule s h c =
      let (b, t, e) = main_loop_returns schedule (set_stop false s) h c in
      let ran : run api files sleep schedule s ≡ (returns b, t) = ground (arith, e) in
      let (same, left) = run-is_stopped api files sleep schedule s ran in
      (
        t,
        ground (arith, ran, same),
        subst (λ q. ((q ≡ true) × IsStopped api files sleep t) ⊎ (q ≡ false)) same left,
      )
