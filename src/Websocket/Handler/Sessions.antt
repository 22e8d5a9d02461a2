-- ===== src/Websocket/Handler/Sessions.antt =====
-- The websocket handler's sessions: what a state of it holds, and how states follow each other.
pub mod Steps
pub mod Run
use rito.Common.{
  ℕ, Bool, true, false, Option, none, some, List, ◌∷◌, Bytes, if◌then◌else◌, ◌≡◌, refl, arith,
}
use rito.Result.{Result, ok, throw}
use rito.Act.{Act, Done}
use rito.Outcome.{Outcome, returns, throws, terminates, outcome, Method, after, rescue, no_throw}
use rito.Websocket.Client.{HttpsWebsocketClient}
use rito.Websocket.Client
use rito.Websocket.Handler.{
  HandlerState, Call, register_call, message_callback, connected_callback, disconnected_callback,
  outside_call, set_state, set_stop, invoke, notice, notify_connection_state_changed,
}

-- A callback that makes and ends no session.
abbrev pub Polite : {W : Type 0} → (W → List ℕ) → Option (Act W Done) → Type 0
Polite f none = Unit
Polite {W} f (some g) = (w : W) → f (g w).1 ≡ f w

abbrev pub PoliteMessage : {W : Type 0} → (W → List ℕ) → Option (Bytes → Act W Done) → Type 0
PoliteMessage f none = Unit
PoliteMessage {W} f (some g) = (m : Bytes) (w : W) → f (g m w).1 ≡ f w

abbrev pub PoliteCall : {W : Type 0} → (W → List ℕ) → Call W → Type 0
PoliteCall f (register_call (message_callback g)) = PoliteMessage f g
PoliteCall f (register_call (connected_callback g)) = Polite f g
PoliteCall f (register_call (disconnected_callback g)) = Polite f g
PoliteCall {W} f (outside_call g) = (w : W) → f (g w) ≡ f w
PoliteCall f _ = Unit

-- The open sessions where a handler has this client, and there are `others` beside its own.
abbrev pub with_own : Option HttpsWebsocketClient → List ℕ → List ℕ
with_own none others = others
with_own (some c) others = c.session ∷ others

module _ {W : Type 0} (open_sessions : W → List ℕ) (others : List ℕ) where
  pub record IsHeld (s : HandlerState W) : Type 0 where
    pub own : open_sessions s.world ≡ with_own s.websocket others
    pub message : PoliteMessage open_sessions s.on_message_received
    pub up : Polite open_sessions s.on_connected
    pub down : Polite open_sessions s.on_disconnected

  -- The state is held after a method, unless that ended the process.
  abbrev pub Leaves : {A : Type 0} → Outcome A × HandlerState W → Type 0
  Leaves (returns a, t) = IsHeld t
  Leaves (throws e, t) = IsHeld t
  Leaves (terminates, t) = Unit

  module _ {A : Type 0} where
    pub after-Leaves :
        {B : Type 0} (o : Outcome A × HandlerState W) (f : A → Method (HandlerState W) B)
        → Leaves o
        → ((a : A) (t : HandlerState W) → o ≡ (returns a, t) → IsHeld t → Leaves (f a t))
        → Leaves (after o f)
    after-Leaves (returns a, s) f h k = k a s refl h
    after-Leaves (throws e, s) f h k = h
    after-Leaves (terminates, s) f h k = h

    pub rescue-Leaves :
        (o : Outcome A × HandlerState W) (f : Method (HandlerState W) A)
        → Leaves o
        → ((t : HandlerState W) → IsHeld t → Leaves (f t))
        → Leaves (rescue o f)
    rescue-Leaves (returns a, s) f h k = h
    rescue-Leaves (throws e, s) f h k = k s h
    rescue-Leaves (terminates, s) f h k = h

    pub no_throw-Leaves : (o : Outcome A × HandlerState W) → Leaves o → Leaves (no_throw o)
    no_throw-Leaves (returns a, s) h = h
    no_throw-Leaves (throws e, s) h = tt
    no_throw-Leaves (terminates, s) h = h

    pub if-Leaves :
        (b : Bool) (p q : Outcome A × HandlerState W)
        → Leaves p
        → Leaves q
        → Leaves (if b then p else q)
    if-Leaves true p q h k = h
    if-Leaves false p q h k = k

    pub outcome-Leaves : (r : Result A) (s : HandlerState W) → IsHeld s → Leaves (outcome r, s)
    outcome-Leaves (ok a) s h = h
    outcome-Leaves (throw e) s h = h

  -- The world may change, where the sessions stay.
  pub moved :
      (s : HandlerState W) (w : W)
      → IsHeld s
      → open_sessions w ≡ open_sessions s.world
      → IsHeld (record s { world = w })
  moved s w h e = record {
    own = ground (arith, e, h.own);
    message = h.message;
    up = h.up;
    down = h.down;
  }

  pub invoke-Leaves :
      (f : Option (Act W Done)) (s : HandlerState W)
      → Polite open_sessions f
      → IsHeld s
      → Leaves (invoke f s)
  invoke-Leaves none s p h = h
  invoke-Leaves (some g) s p h =
      outcome-Leaves (g s.world).0 _ (moved s (g s.world).1 h (p s.world))

  notice-Leaves :
      (b was : Bool) (s : HandlerState W)
      → IsHeld s
      → Leaves (notice b was s.on_connected s.on_disconnected s)
  notice-Leaves true true s h = h
  notice-Leaves true false s h = invoke-Leaves s.on_connected s h.up h
  notice-Leaves false true s h = invoke-Leaves s.on_disconnected s h.down h
  notice-Leaves false false s h = h

  stated : (b : Bool) (s : HandlerState W) → IsHeld s → IsHeld (set_state b s)
  stated b s h = record { own = h.own; message = h.message; up = h.up; down = h.down }

  pub flagged : (b : Bool) (s : HandlerState W) → IsHeld s → IsHeld (set_stop b s)
  flagged b s h = record { own = h.own; message = h.message; up = h.up; down = h.down }

  pub notify-Leaves :
      (b : Bool) (s : HandlerState W) → IsHeld s → Leaves (notify_connection_state_changed b s)
  unfolding notify_connection_state_changed
  notify-Leaves b s h =
      after-Leaves (notice b s.is_state_connected s.on_connected s.on_disconnected s) _
        (notice-Leaves b s.is_state_connected s h) λ _ t e k. stated b t k
