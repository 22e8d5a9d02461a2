-- ===== src/Websocket/Race/Falls.antt =====
-- Threads that have passed is_connected, and the client that may end meanwhile.
use rito.Common.{ℕ, Bool, true, false, none, ◌≡◌, refl, ap, ◌∙◌, inl, inr, arith}
use rito.Websocket.Race.{
  CallerPc, send_waiting, stop_following, fallen, is_there, CallerMove, takes_lock, send_falls,
  stop_dangles, stop_falls, System, init, Steps, stop_sending, stop_dangling,
}
use rito.Websocket.Race.Paths.{then_steps, move-Steps, updated_at}
use rito.Websocket.Race.Progress.{may_hold, CanFall, Steps-Frees, Frees}
use rito.Websocket.Race.Safety.{Steps-Inv}
use rito.Websocket.Race.Clients.{HasClient, Steps-ClientInv}
use rito.Websocket.Race.Ends.{LoopEmpties, loop_empties, Left, same, orphaned}

and_falls : {s t : System} → Steps s t → CanFall t → CanFall s
and_falls r (u, q, f) = (u, then_steps r q, f)

-- A thread at `pc`, behind a loop that has ended, goes on to a null pointer or an ended client.
abbrev Falls : CallerPc → Type 0
Falls pc =
    (s : System) (i : ℕ)
    → s.caller i ≡ pc
    → s.shared.lock ≡ none
    → s.shared.websocket ≡ none
    → CanFall s

-- It does so by one move.
one_move-Falls :
    {pc : CallerPc} (s : System) (i : ℕ)
    → s.caller i ≡ pc
    → CallerMove i s.shared pc s.shared fallen
    → CanFall s
one_move-Falls s i c mv = (_, move-Steps i s c mv, (i, updated_at s.caller i fallen))

stop_following-Falls : Falls stop_following
stop_following-Falls s i c l w = one_move-Falls s i c (stop_falls w)

stop_dangling-Falls : Falls stop_dangling
stop_dangling-Falls s i c l w = one_move-Falls s i c stop_dangles

send_waiting-Falls : Falls send_waiting
send_waiting-Falls s i c l w =
    and_falls (move-Steps i s c (takes_lock false l (ap is_there w)))
      (one_move-Falls _ i (updated_at s.caller i _) (send_falls false w))

-- A thread that has passed is_connected: in send_message until it has the lock, in stop until it
-- returns.
abbrev pub has_passed : CallerPc → Bool
has_passed send_waiting = true
has_passed stop_following = true
has_passed stop_sending = true
has_passed stop_dangling = true
has_passed _ = false

-- It is left where no client is there.
Left-Falls :
    (c d : CallerPc) (s : System) (i : ℕ)
    → has_passed c ≡ true
    → Left c d
    → s.caller i ≡ d
    → HasClient s.shared d
    → s.shared.lock ≡ none
    → s.shared.websocket ≡ none
    → CanFall s
Left-Falls send_waiting d s i p same c k l w = send_waiting-Falls s i c l w
Left-Falls stop_following d s i p same c k l w = stop_following-Falls s i c l w
Left-Falls stop_sending d s i p same c k l w = absurd (k refl w)
Left-Falls stop_sending d s i p orphaned c k l w = stop_dangling-Falls s i c l w
Left-Falls stop_dangling d s i p same c k l w = stop_dangling-Falls s i c l w
Left-Falls _ d s i p e q k l w = absurd (ground arith)

passed_no_lock : (c : CallerPc) → has_passed c ≡ true → may_hold c ≡ false
passed_no_lock send_waiting p = refl
passed_no_lock stop_following p = refl
passed_no_lock stop_sending p = refl
passed_no_lock stop_dangling p = refl
passed_no_lock _ p = absurd (ground arith)

-- The lock is let go, and then the loop is left with no client.
freed_empties : {s : System} → Steps init s → (f : Frees s) → LoopEmpties f.freed
freed_empties r f =
    let path = then_steps r f.steps in
    loop_empties f.freed.caller f.freed.loop f.freed.shared f.is_free (Steps-Inv path).loop_inv
      (Steps-ClientInv path).bare

-- However the threads have taken turns: from the moment at which a thread has passed is_connected,
-- in send_message until it has taken the lock and in stop until it returns, they can take turns so
-- that a thread follows a null pointer or uses a client after its end.
pub passed-CanFall :
    {s : System} (i : ℕ) → Steps init s → has_passed (s.caller i) ≡ true → CanFall s
passed-CanFall {s} i r p = elim (Steps-Frees r) [
  | inl f ↦
      let e = freed_empties r f in
      let path = then_steps f.steps e.steps in
      let v = Steps-ClientInv (then_steps r path) in
      let stayed = f.others_same i (passed_no_lock (s.caller i) p) in
      and_falls path (
        Left-Falls (f.freed.caller i) (e.reached.caller i) e.reached i (ap has_passed stayed ∙ p)
          (e.callers_left i) refl (v.client_there i) (e.lock_same ∙ f.is_free) e.there)
  | inr z ↦ z
]
