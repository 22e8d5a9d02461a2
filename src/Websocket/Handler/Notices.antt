-- ===== src/Websocket/Handler/Notices.antt =====
-- Connections and lost connections are announced in turn.
use rito.Common.{
  ℕ, suc, true, Option, none, some, Bytes, codes, ◌≡◌, refl, subst, inl, inr, arith, Option-cases,
}
use rito.Result.{ok, Result-cases}
use rito.Act.{Act, Act-cases}
use rito.Process.FileSystem.{FileSystem}
use rito.Process.Handler.{get_lcu_process_parameters}
use rito.Rest.Lcu.{localhost, lcu_user}
use rito.Outcome.{Done, Method-cases}
use rito.Websocket.Client.{WebSocketApi, ClientState}
use rito.Websocket.Client
use rito.Websocket.Client.Untouched.{
  Untouched, create_keeps, start_keeps, destroy_keeps, send_message_keeps, receive_message_keeps,
}
use rito.Websocket.Handler.{
  HandlerState, Call, stop_call, send_call, register_call, outside_call, set_stop, reset_websocket,
  make_client, reconnect, receive_message, send_message, stop, perform,
}

-- One call of the callback is one more of the first count, and none of the second.
abbrev pub Counts : {W : Type 0} → (W → ℕ) → (W → ℕ) → Act W Done → Type 0
Counts {W} one other f =
    (w : W) → ((f w).0 ≡ ok tt) × (one (f w).1 ≡ suc (one w)) × (other (f w).1 ≡ other w)

-- A callback for messages that announces nothing.
abbrev pub Silent : {W : Type 0} → (W → ℕ) → Option (Bytes → Act W Done) → Type 0
Silent f none = Unit
Silent {W} f (some g) = (m : Bytes) (w : W) → f (g m w).1 ≡ f w

-- What other threads do announces nothing, and registers nothing.
abbrev pub SilentCall : {W : Type 0} → (W → ℕ) → Call W → Type 0
SilentCall f (register_call _) = ⊥
SilentCall {W} f (outside_call g) = (w : W) → f (g w) ≡ f w
SilentCall f _ = Unit

-- The part that is the same for both counts.
module _ {W : Type 0} (api : WebSocketApi W) (files : W → FileSystem) (sleep : W → W) (f : W → ℕ)
    (laws : Untouched api f) where
  abbrev Same : HandlerState W → HandlerState W → Type 0
  Same s t = (t.is_state_connected ≡ s.is_state_connected) × (f t.world ≡ f s.world)

  pub reset-Same : (s : HandlerState W) → Same s (reset_websocket api files sleep s).1
  unfolding reset_websocket
  reset-Same s = elim (Option-cases s.websocket) [
    | inl e ↦ ground arith
    | inr (c, e) ↦ ground (arith, destroy_keeps api f laws (record { client = c; world = s.world }))
  ]

  make_client-Same : (s : HandlerState W) → Same s (make_client api files sleep s).1
  unfolding make_client
  make_client-Same s =
      elim (Result-cases (get_lcu_process_parameters (files s.world) s.process_handler)) [
        | inr (x, e) ↦ ground arith
        | inl (ps, e) ↦ elim (Act-cases (Client.create api localhost ps.app_port s.world)) [
          | inr (x, w, q) ↦ ground (arith, create_keeps api f laws localhost ps.app_port s.world)
          | inl (c, w, q) ↦ ground (
            arith,
            create_keeps api f laws localhost ps.app_port s.world,
            start_keeps api f laws.steady (record {
              client = Client.set_credentials api lcu_user ps.remoting_auth_token c;
              world = w;
            }),
          )
        ]
      ]

  pub reconnect-Same : (s : HandlerState W) → Same s (reconnect api files sleep s).1
  unfolding reconnect
  reconnect-Same s = elim (Method-cases (reset_websocket api files sleep s)) [
    | inl (_, t, e) ↦ ground (arith, reset-Same s, make_client-Same s, make_client-Same t)
    | inr (inl (x, t, e)) ↦ ground (arith, reset-Same s, make_client-Same s)
    | inr (inr (t, e)) ↦ ground (arith, reset-Same s, make_client-Same s)
  ]

  pub receive-Same :
      (s : HandlerState W)
      → Silent f s.on_message_received
      → Same s (receive_message api files sleep s).1
  unfolding receive_message
  receive-Same s quiet = elim (Option-cases s.websocket) [
    | inl e ↦ ground arith
    | inr (c, e) ↦
        let cs : ClientState W = record { client = c; world = s.world } in
        let kept = receive_message_keeps api f laws.steady cs in
        elim (Act-cases (Client.receive_message api cs)) [
          | inr (x, t, q) ↦ ground (arith, kept)
          | inl (m, t, q) ↦ elim (Option-cases s.on_message_received) [
            | inl n ↦ ground (arith, kept)
            | inr (g, n) ↦
                let silent : Silent f (some g) = subst (Silent f) n quiet in
                ground (arith, kept, silent m t.world)
          ]
        ]
  ]

  pub send-Same : (m : Bytes) (s : HandlerState W) → Same s (send_message api files sleep m s).1
  unfolding send_message
  send-Same m s = elim (Option-cases s.websocket) [
    | inl e ↦ ground arith
    | inr (c, e) ↦
        ground
          (arith, send_message_keeps api f laws.steady m (record { client = c; world = s.world }))
  ]

  pub perform-Same :
      (c : Call W) (s : HandlerState W) → SilentCall f c → Same s (perform api files sleep c s).1
  unfolding perform stop
  perform-Same stop_call s h = ground (arith, send-Same (codes "Exit") (set_stop true s))
  perform-Same (send_call m) s h = ground (arith, send-Same m s)
  perform-Same (register_call r) s h = elim h [ ]
  perform-Same (outside_call g) s h = (refl, h s.world)
