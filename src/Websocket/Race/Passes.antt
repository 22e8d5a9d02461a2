-- ===== src/Websocket/Race/Passes.antt =====
-- Whole calls and whole rounds as sequences of the threads' moves.
use rito.Common.{Bool, true, false, Option, none, some, List, [], ◌∷◌, ◌≡◌, ◌≢◌, refl, arith}
use rito.Websocket.Client.{HttpsWebsocketClient}
use rito.Websocket.Handler.{HandlerState, Call, stop_call, send_call}
use rito.Websocket.Race.{
  Shared, LoopPc, top, asking, receiving, reconnecting, resetting, finished, CallerPc, outside,
  send_asking, stop_asking, LoopMove, makes_none, makes_client, CallerMove, send_refused,
  send_allowed, takes_lock, sends, stop_refused, stop_allowed, stop_follows, stop_returns,
}

abbrev pub connection : Option HttpsWebsocketClient → Option Bool
connection none = none
connection (some c) = some c.connected

-- Between two calls no thread has the lock.
abbrev pub free : Option Bool → Bool → Shared
free o b = record { websocket = o; stop_flag = b; lock = none }

-- What the threads share of the handler, between two of its methods.
abbrev pub seen : {W : Type 0} → HandlerState W → Shared
seen s = free (connection s.websocket) s.stop_flag

-- Moves of thread 0, one after another.
pub data Moves (m : Shared) (c : CallerPc) : Shared → CallerPc → Type 0 where
  still : Moves m c m c
  and_then :
      {m₁ m₂ : Shared} {d e : CallerPc} → Moves m c m₁ d → CallerMove 0 m₁ d m₂ e → Moves m c m₂ e

-- A call, from its first move to its return: stop and send_message each begin as they do, and
-- anything else is no move.
abbrev pub Performs : {W : Type 0} → Call W → Shared → Shared → Type 0
Performs stop_call m m' =
    (m₁ : Shared) × CallerMove 0 m outside m₁ stop_asking × Moves m₁ stop_asking m' outside
Performs (send_call _) m m' =
    (m₁ : Shared) × CallerMove 0 m outside m₁ send_asking × Moves m₁ send_asking m' outside
Performs _ m m' = m' ≡ m

abbrev pub PerformsAll : {W : Type 0} → List (Call W) → Shared → Shared → Type 0
PerformsAll [] m m' = m' ≡ m
PerformsAll (c ∷ cs) m m' = (m₁ : Shared) × Performs c m m₁ × PerformsAll cs m₁ m'

-- One pass of the loop, and where it leads.
pub data Passes (m : Shared) : LoopPc → Shared → Type 0 where
  leaves :
      {m' : Shared}
      → LoopMove m top m resetting
      → LoopMove m resetting m' finished
      → Passes m finished m'
  hears :
      {m' : Shared}
      → LoopMove m top m asking
      → LoopMove m asking m receiving
      → LoopMove m receiving m' top
      → Passes m top m'
  reconnects :
      {m' : Shared}
      → LoopMove m top m asking
      → LoopMove m asking m reconnecting
      → LoopMove m reconnecting m' top
      → Passes m top m'

pub send-Moves : (o : Option Bool) (b : Bool) → Moves (free o b) send_asking (free o b) outside
send-Moves none b = and_then still (send_refused refl (λ e. cc))
send-Moves (some false) b = and_then still (send_refused refl (λ e. ground arith))
send-Moves (some true) b =
    and_then (and_then (and_then still (send_allowed refl refl)) (takes_lock true refl refl))
      (sends true (λ e. cc))

pub stop-Moves : (o : Option Bool) (b : Bool) → Moves (free o b) stop_asking (free o b) outside
stop-Moves none b = and_then still (stop_refused refl (λ e. cc))
stop-Moves (some false) b = and_then still (stop_refused refl (λ e. ground arith))
stop-Moves (some true) b =
    and_then (and_then (and_then still (stop_allowed refl refl)) (stop_follows (λ e. cc)))
      stop_returns

-- What reconnect leaves is no client, or one that is connected or not.
pub finds_client :
    (o o' : Option Bool) (f : Bool)
    → o ≢ some true
    → LoopMove (free o f) reconnecting (free o' f) top
finds_client o none f h = makes_none refl h
finds_client o (some b) f h = makes_client b refl h
