-- ===== src/Websocket/Race/Tests.antt =====
-- Runs of the threads, and the theorems on them.
use rito.Common.{true, ◌≢◌, refl}
use rito.Websocket.Race.{
  System, Steps, here, next, by_loop, by_caller, init, crashed, goes_on, finds_not_connected,
  makes_client, calls_send, send_allowed, takes_lock, calls_stop, stop_allowed, stop_follows,
}
use rito.Websocket.Race.Progress.{CanFall, CanEnd, Steps-CanEnd}
use rito.Websocket.Race.Safety.{Steps-ne-crashed}
use rito.Websocket.Race.Returns.{CanReturn, Steps-CanReturn}
use rito.Websocket.Race.Falls.{passed-CanFall}

-- The loop connects.
abbrev up : (s : System) × Steps init s
up = (
  _,
  next (next (next here (by_loop (goes_on refl))) (by_loop (finds_not_connected refl (λ e. cc))))
      (by_loop (makes_client true refl (λ e. cc))),
)

-- Then thread 0 waits for the lock in send_message.
abbrev waiting : (s : System) × Steps init s
waiting = (_, next (next up.1 (by_caller 0 calls_send)) (by_caller 0 (send_allowed refl refl)))

-- It takes it.
abbrev held : (s : System) × Steps init s
held = (_, next waiting.1 (by_caller 0 (takes_lock true refl refl)))

Steps-ne-crashed_example : held.0.loop ≢ crashed
Steps-ne-crashed_example = Steps-ne-crashed held.1

-- While thread 0 has the lock, thread 1 calls stop.
abbrev stopping : (s : System) × Steps init s
stopping = (_, next held.1 (by_caller 1 calls_stop))

Steps-CanEnd_example : CanEnd stopping.0
Steps-CanEnd_example = Steps-CanEnd stopping.1 refl

-- While thread 0 waits for the lock, thread 1 is in send_message of the client that stop has
-- followed m_websocket to.
abbrev following : (s : System) × Steps init s
following = (
  _,
  next (next (next waiting.1 (by_caller 1 calls_stop)) (by_caller 1 (stop_allowed refl refl)))
      (by_caller 1 (stop_follows (λ e. cc))),
)

waiting-CanFall : CanFall waiting.0
waiting-CanFall = passed-CanFall 0 waiting.1 refl

passed-CanFall_example : CanFall following.0
passed-CanFall_example = passed-CanFall 1 following.1 refl

Steps-CanReturn_example : CanReturn 0 held.0
Steps-CanReturn_example = Steps-CanReturn 0 held.1
