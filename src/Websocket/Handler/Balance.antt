-- ===== src/Websocket/Handler/Balance.antt =====
-- The announcements of connections and of lost connections, counted over a run.
use rito.Common.{
  ℕ, ◌+◌, Bool, true, false, List, [], ◌∷◌, Option, some, Bytes, if◌then◌else◌, ◌≡◌, refl, sym,
  subst, inl, inr, arith, All,
}
use rito.Act.{Act}
use rito.Process.FileSystem.{FileSystem}
use rito.Outcome.{
  Outcome, returns, throws, terminates, Method, Done, Method-cases, after, rescue, pure, ◌>>◌,
}
use rito.Websocket.Client.{WebSocketApi}
use rito.Websocket.Client.Untouched.{Untouched}
use rito.Websocket.Handler.{
  HandlerState, Call, stop_call, send_call, register_call, outside_call, set_stop, is_connected,
  notify_connection_state_changed, reset_websocket, reconnect, receive_message,
  reconnect_and_notify, round, perform, perform_all, main_loop, run,
}
use rito.Websocket.Handler.Stopping.{notify-Keeps, reset-Keeps, reconnect-Keeps}
use rito.Websocket.Handler.Callbacks.{registers, round-SameCallbacks, perform-SameCallbacks}
use rito.Websocket.Handler.Notices.{
  Counts, Silent, SilentCall, reset-Same, reconnect-Same, receive-Same, perform-Same,
}

abbrev pub to_ℕ : Bool → ℕ
to_ℕ b = if b then 1 else 0

module _ {W : Type 0} (api : WebSocketApi W) (files : W → FileSystem) (sleep : W → W)
    (up down : W → ℕ) (up_laws : Untouched api up) (down_laws : Untouched api down)
    (sleep_up : (w : W) → up (sleep w) ≡ up w) (sleep_down : (w : W) → down (sleep w) ≡ down w)
    (on_up on_down : Act W Done) (ups : Counts up down on_up) (downs : Counts down up on_down)
    (heard : Option (Bytes → Act W Done)) (heard_up : Silent up heard)
    (heard_down : Silent down heard) where
  -- The handler has these callbacks.
  abbrev pub Callbacks : HandlerState W → Type 0
  Callbacks s =
      (s.on_disconnected ≡ some on_down)
      × (s.on_connected ≡ some on_up)
      × (s.on_message_received ≡ heard)

  -- Connections announced less losses announced is the change of the state that was announced last.
  abbrev pub Balanced : HandlerState W → HandlerState W → Type 0
  Balanced s t =
      up t.world + down s.world + to_ℕ s.is_state_connected
      ≡ down t.world + up s.world + to_ℕ t.is_state_connected

  same-Balanced :
      (s t : HandlerState W)
      → t.is_state_connected ≡ s.is_state_connected
      → up t.world ≡ up s.world
      → down t.world ≡ down s.world
      → Balanced s t
  same-Balanced s t e p q = rw e (omega (arith, p, q))

  notify-Balanced :
      (b : Bool) (s : HandlerState W)
      → Callbacks s
      → Balanced s (notify_connection_state_changed b s).1
  unfolding notify_connection_state_changed
  notify-Balanced b s c = ground (arith, ups s.world, downs s.world)

  reset-Balanced : (s : HandlerState W) → Balanced s (reset_websocket api files sleep s).1
  reset-Balanced s =
      let (e, p) = reset-Same api files sleep up up_laws s in
      let (_, q) = reset-Same api files sleep down down_laws s in
      same-Balanced s (reset_websocket api files sleep s).1 e p q

  reconnect-Balanced : (s : HandlerState W) → Balanced s (reconnect api files sleep s).1
  reconnect-Balanced s =
      let (e, p) = reconnect-Same api files sleep up up_laws s in
      let (_, q) = reconnect-Same api files sleep down down_laws s in
      same-Balanced s (reconnect api files sleep s).1 e p q

  receive-Balanced :
      (s : HandlerState W) → Callbacks s → Balanced s (receive_message api files sleep s).1
  receive-Balanced s (_, _, m) =
      let (e, p) = receive-Same api files sleep up up_laws s (subst (Silent up) (sym m) heard_up) in
      let (_, q) =
        receive-Same api files sleep down down_laws s (subst (Silent down) (sym m) heard_down) in
      same-Balanced s (receive_message api files sleep s).1 e p q

  -- Two steps, one after the other.
  after-Balanced :
      {A B : Type 0} (s : HandlerState W) (o : Outcome A × HandlerState W)
      (f : A → Method (HandlerState W) B)
      → Balanced s o.1
      → ((a : A) (t : HandlerState W) → o ≡ (returns a, t) → Balanced t (f a t).1)
      → Balanced s (after o f).1
  after-Balanced s (returns a, t) f h k = omega (arith, h, k a t refl)
  after-Balanced s (throws e, t) f h k = h
  after-Balanced s (terminates, t) f h k = h

  notified :
      (b : Bool) (s t : HandlerState W)
      → Callbacks s
      → notify_connection_state_changed b s ≡ (returns tt, t)
      → Callbacks t
  notified b s t c e = ground (arith, notify-Keeps api files sleep b s)

  announced :
      (s : HandlerState W) → Callbacks s → Balanced s (reconnect_and_notify api files sleep s).1
  unfolding reconnect_and_notify
  announced s c =
      after-Balanced s (notify_connection_state_changed false s) _ (notify-Balanced false s c)
        λ _ t e. caught t (notified false s t c e)
    where
      tried :
          (t : HandlerState W)
          → Callbacks t
          → Balanced t
              (after (reconnect api files sleep t) (λ _. notify_connection_state_changed true)).1
      tried t k =
          after-Balanced t (reconnect api files sleep t) (λ _. notify_connection_state_changed true)
            (reconnect-Balanced t)
            λ _ u q. notify-Balanced true u (ground (arith, reconnect-Keeps api files sleep t))

      slept :
          (t : HandlerState W) (o : Outcome Done × HandlerState W)
          → Balanced t o.1
          → Balanced t (rescue o (λ u. (returns tt, record u { world = sleep u.world }))).1
      slept t (returns a, u) h = h
      slept t (throws e, u) h = omega (arith, h, sleep_up u.world, sleep_down u.world)
      slept t (terminates, u) h = h

      caught :
          (t : HandlerState W)
          → Callbacks t
          → Balanced t
              (rescue
                (after (reconnect api files sleep t) (λ _. notify_connection_state_changed true))
                (λ u. (returns tt, record u { world = sleep u.world }))).1
      caught t k = slept t _ (tried t k)

  if-Balanced :
      {A : Type 0} (s : HandlerState W) (b : Bool) (p q : Outcome A × HandlerState W)
      → Balanced s p.1
      → Balanced s q.1
      → Balanced s (if b then p else q).1
  if-Balanced s true p q h k = h
  if-Balanced s false p q h k = k

  round-Balanced : (s : HandlerState W) → Callbacks s → Balanced s (round api files sleep s).1
  unfolding round
  round-Balanced s c =
      let broken : Balanced s
          ((do reset_websocket api files sleep; notify_connection_state_changed false; pure true)
            s).1 =
        after-Balanced s (reset_websocket api files sleep s)
          (λ _. do notify_connection_state_changed false; pure true) (reset-Balanced s)
          λ _ t e.
            after-Balanced t (notify_connection_state_changed false t) (λ _. pure true)
              (notify-Balanced false t (ground (arith, reset-Keeps api files sleep s)))
              λ _ u q. omega arith in
      let heard_one : Balanced s ((do receive_message api files sleep; pure false) s).1 =
        after-Balanced s (receive_message api files sleep s) (λ _. pure false)
          (receive-Balanced s c) λ _ t e. omega arith in
      let lost_one : Balanced s ((do reconnect_and_notify api files sleep; pure false) s).1 =
        after-Balanced s (reconnect_and_notify api files sleep s) (λ _. pure false) (announced s c)
          λ _ t e. omega arith in
      if-Balanced s s.stop_flag _ _ broken (if-Balanced s (is_connected s) _ _ heard_one lost_one)

  abbrev Quiet : Call W → Type 0
  Quiet c = SilentCall up c × SilentCall down c

  perform-Balanced :
      (c : Call W) (s : HandlerState W) → Quiet c → Balanced s (perform api files sleep c s).1
  perform-Balanced c s (h, k) =
      let (e, p) = perform-Same api files sleep up up_laws c s h in
      let (_, q) = perform-Same api files sleep down down_laws c s k in
      same-Balanced s (perform api files sleep c s).1 e p q

  quiet-registers : (c : Call W) → SilentCall up c → registers c ≡ false
  quiet-registers stop_call h = refl
  quiet-registers (send_call m) h = refl
  quiet-registers (register_call r) h = elim h [ ]
  quiet-registers (outside_call g) h = refl

  perform-Callbacks :
      (c : Call W) (s t : HandlerState W) {a : Done}
      → Quiet c
      → Callbacks s
      → perform api files sleep c s ≡ (returns a, t)
      → Callbacks t
  perform-Callbacks c s t (h, _) k e =
      ground (arith, perform-SameCallbacks api files sleep c s (quiet-registers c h))

  calls-Balanced :
      (calls : List (Call W)) (s : HandlerState W)
      → All Quiet calls
      → Callbacks s
      → Balanced s (perform_all api files sleep calls s).1
        × ((t : HandlerState W)
            → perform_all api files sleep calls s ≡ (returns tt, t)
            → Callbacks t)
  unfolding perform_all
  calls-Balanced [] s h c = (omega arith, λ t e. ground arith)
  calls-Balanced (k ∷ ks) s (h, hs) c = elim (Method-cases (perform api files sleep k s)) [
    | inl (_, u, e) ↦
        let (b, l) = calls-Balanced ks u hs (perform-Callbacks k s u h c e) in
        let first = perform-Balanced k s h in (ground (arith, first, b), λ t q. l t (ground arith))
    | inr (inl (x, u, e)) ↦ (ground (arith, perform-Balanced k s h), λ t q. absurd (ground arith))
    | inr (inr (u, e)) ↦ (ground (arith, perform-Balanced k s h), λ t q. absurd (ground arith))
  ]

  loop-Balanced :
      (schedule : List (List (Call W))) (s : HandlerState W)
      → All (All Quiet) schedule
      → Callbacks s
      → Balanced s (main_loop api files sleep schedule s).1
  unfolding main_loop
  loop-Balanced [] s h c = omega arith
  loop-Balanced (calls ∷ rest) s (h, hs) c =
      let (b, l) = calls-Balanced calls s h c in
      after-Balanced s (perform_all api files sleep calls s) _ b λ _ t e.
        after-Balanced t (round api files sleep t) _ (round-Balanced t (l t e)) λ broke u q.
          onward (λ v k. loop-Balanced rest v hs k) broke u
            (ground (arith, round-SameCallbacks api files sleep t, l t e))
    where
      onward :
          ((v : HandlerState W) → Callbacks v → Balanced v (main_loop api files sleep rest v).1)
          → (broke : Bool) (u : HandlerState W) → Callbacks u
          → Balanced u
              (elim broke as (λ _. Outcome Bool × HandlerState W) [
                | true ↦ (returns true, u)
                | false ↦ main_loop api files sleep rest u
              ]).1
      onward ih true u k = omega arith
      onward ih false u k = ih u k

  -- Where Poco, the pauses, the message callback and the other threads' doings announce nothing, a
  -- callback for a connection and one for a lost connection are registered, each call of either
  -- returns and is one announcement, and no thread registers anything during the run, then over any run, however it ends, the announcements of connections less those
  -- of lost connections are the change of the state announced last.
  pub run-Balanced :
      (schedule : List (List (Call W))) (s : HandlerState W)
      → All (All (λ c. SilentCall up c × SilentCall down c)) schedule
      → Callbacks s
      → Balanced s (run api files sleep schedule s).1
  unfolding run
  run-Balanced schedule s h c = ground (arith, loop-Balanced schedule (set_stop false s) h c)
