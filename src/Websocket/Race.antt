-- ===== src/Websocket/Race.antt =====
-- src/lcu_websocket_handler.cpp, a shared access at a time: the thread in run, and any number of
-- threads in send_message and stop. Of the client that m_websocket points to only its being there
-- and its m_connected are kept. What a lock protects as a whole is one step, and so is a call of
-- the client by the thread in run, which alone ends clients.
pub mod Safety
pub mod Paths
pub mod Passes
pub mod Refines
pub mod Ends
pub mod Progress
pub mod Clients
pub mod Falls
pub mod Returns
mod Tests
use rito.Common.{ℕ, Bool, true, false, not, Option, none, some, ◌==◌, if◌then◌else◌, ◌≡◌, ◌≢◌}

-- `lock` is the thread that holds m_socket_mutex between two of its steps.
pub record Shared : Type 0 where
  pub websocket : Option Bool
  pub stop_flag : Bool
  pub lock : Option ℕ

-- Where the thread in run stands.
pub data LoopPc : Type 0 where
  top : LoopPc  -- before the test of m_stop
  asking : LoopPc  -- before is_connected
  receiving : LoopPc  -- before m_websocket->receive_message
  reconnecting : LoopPc  -- before the lock of reconnect
  resetting : LoopPc  -- before the lock around m_websocket.reset
  finished : LoopPc
  crashed : LoopPc  -- a null pointer was followed

-- Where another thread stands.
pub data CallerPc : Type 0 where
  outside : CallerPc
  send_asking : CallerPc  -- before is_connected in send_message
  send_waiting : CallerPc  -- before the lock in send_message
  send_holding : (was_there : Bool) → CallerPc  -- behind it
  stop_asking : CallerPc  -- before is_connected in stop
  stop_following : CallerPc  -- before m_websocket-> in stop
  stop_sending : CallerPc  -- in send_message of the client that it pointed to
  stop_dangling : CallerPc  -- the same, of a client that has ended meanwhile
  fallen : CallerPc  -- a null pointer was followed, or a client used after its end

abbrev pub is_there : Option Bool → Bool
is_there none = false
is_there (some _) = true

-- `m_websocket && !m_websocket->is_connected()`
abbrev pub has_lost : Option Bool → Bool
has_lost none = false
has_lost (some b) = not b

pub data LoopMove (m : Shared) : LoopPc → Shared → LoopPc → Type 0 where
  sees_stop : m.stop_flag ≡ true → LoopMove m top m resetting
  goes_on : m.stop_flag ≡ false → LoopMove m top m asking
  finds_connected : m.lock ≡ none → m.websocket ≡ some true → LoopMove m asking m receiving
  finds_not_connected : m.lock ≡ none → m.websocket ≢ some true → LoopMove m asking m reconnecting
  -- the client may have lost its connection meanwhile
  receives :
      (b : Bool) → m.websocket ≢ none → LoopMove m receiving (record m { websocket = some b }) top
  follows_null : m.websocket ≡ none → LoopMove m receiving m crashed
  keeps_client : m.lock ≡ none → m.websocket ≡ some true → LoopMove m reconnecting m top
  -- the LCU was not found, or no session could be made
  makes_none :
      m.lock ≡ none
      → m.websocket ≢ some true
      → LoopMove m reconnecting (record m { websocket = none }) top
  -- start has succeeded or thrown
  makes_client :
      (b : Bool)
      → m.lock ≡ none
      → m.websocket ≢ some true
      → LoopMove m reconnecting (record m { websocket = some b }) top
  resets : m.lock ≡ none → LoopMove m resetting (record m { websocket = none }) finished

pub data CallerMove (i : ℕ) (m : Shared) : CallerPc → Shared → CallerPc → Type 0 where
  calls_send : CallerMove i m outside m send_asking
  send_refused : m.lock ≡ none → m.websocket ≢ some true → CallerMove i m send_asking m outside
  send_allowed : m.lock ≡ none → m.websocket ≡ some true → CallerMove i m send_asking m send_waiting
  takes_lock :
      (b : Bool)
      → m.lock ≡ none
      → is_there m.websocket ≡ b
      → CallerMove i m send_waiting (record m { lock = some i }) (send_holding b)
  sends :
      (b : Bool)
      → m.websocket ≢ none
      → CallerMove i m (send_holding b) (record m { lock = none }) outside
  send_falls : (b : Bool) → m.websocket ≡ none → CallerMove i m (send_holding b) m fallen
  calls_stop : CallerMove i m outside (record m { stop_flag = true }) stop_asking
  stop_refused : m.lock ≡ none → m.websocket ≢ some true → CallerMove i m stop_asking m outside
  stop_allowed :
      m.lock ≡ none → m.websocket ≡ some true → CallerMove i m stop_asking m stop_following
  stop_follows : m.websocket ≢ none → CallerMove i m stop_following m stop_sending
  stop_falls : m.websocket ≡ none → CallerMove i m stop_following m fallen
  stop_returns : CallerMove i m stop_sending m outside
  stop_dangles : CallerMove i m stop_dangling m fallen

pub record System : Type 0 where
  pub shared : Shared
  pub loop : LoopPc
  pub caller : ℕ → CallerPc

abbrev pub update : (ℕ → CallerPc) → ℕ → CallerPc → ℕ → CallerPc
update f i pc j = if i == j then pc else f j

-- Does the loop, where it stands, end the client that m_websocket points to?
abbrev pub ends_client : Shared → LoopPc → Bool
ends_client m reconnecting = has_lost m.websocket
ends_client m resetting = is_there m.websocket
ends_client m _ = false

-- Another thread behind the loop's move.
abbrev pub behind : Shared → LoopPc → CallerPc → CallerPc
behind m pc stop_sending = if ends_client m pc then stop_dangling else stop_sending
behind m pc c = c

pub data Step (s : System) : System → Type 0 where
  by_loop :
      {m : Shared} {pc : LoopPc}
      → LoopMove s.shared s.loop m pc
      → Step s (record { shared = m; loop = pc; caller = λ i. behind s.shared s.loop (s.caller i) })
  by_caller :
      (i : ℕ) {m : Shared} {pc : CallerPc}
      → CallerMove i s.shared (s.caller i) m pc
      → Step s (record { shared = m; loop = s.loop; caller = update s.caller i pc })

-- run has cleared the flag; no thread has called anything.
abbrev pub init : System
init = record {
  shared = record { websocket = none; stop_flag = false; lock = none };
  loop = top;
  caller = λ _. outside;
}

pub data Steps (s : System) : System → Type 0 where
  here : Steps s s
  next : {t u : System} → Steps s t → Step t u → Steps s u
