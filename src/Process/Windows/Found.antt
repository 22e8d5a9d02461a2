-- ===== src/Process/Windows/Found.antt =====
-- Which process's command line a call takes, and how it ends.
use rito.Common.{ℕ, true, false, List, [], ◌∷◌, ◌++◌, none, some, Option, Bytes, equal, ◌≡◌, ◌≢◌}
use rito.Exception.{Thrown, lcu_parameters_exception}
use rito.Outcome.{Outcome, returns, throws, ◌>>=◌}
use rito.Process.Windows.{
  WindowsApi, WindowsState, client_name, not_found, not_enumerated, extract_process_name,
  command_of,
}
use rito.Process.Windows.Search.{opened, closed}

module _ {W : Type 0} (api : WindowsApi W) where
  -- The handle of a process that is opened in this state.
  abbrev pub handle_of : ℕ → WindowsState W → ℕ
  handle_of p s = (api.open_process p s.world).0

  -- The processes passed by: the null ones, and those with another name, whose handles are closed.
  pub data Passes : WindowsState W → List ℕ → WindowsState W → Type 0 where
    none_left : {s : WindowsState W} → Passes s [] s
    null :
        {s t : WindowsState W} {ids : List ℕ} (p : ℕ)
        → p ≡ 0
        → Passes s ids t
        → Passes s (p ∷ ids) t
    other :
        {s t : WindowsState W} {ids : List ℕ} (p : ℕ) (name : Bytes) (u : WindowsState W)
        → p ≢ 0
        → extract_process_name api (handle_of p s) (opened api p s) ≡ (returns name, u)
        → equal name client_name ≡ false
        → Passes (closed api (handle_of p s) u) ids t
        → Passes s (p ∷ ids) t

  -- The first process that is not passed by.
  pub record Stands (s : WindowsState W) (ids : List ℕ) (p : ℕ) (t : WindowsState W) : Type 0 where
    pub before : List ℕ
    pub behind : List ℕ
    pub is_there : ids ≡ before ++ p ∷ behind
    pub passed : Passes s before t
    pub is_process : p ≢ 0

  -- How the search goes.
  pub data Scans (s : WindowsState W) (ids : List ℕ)
      : Outcome (Option Bytes) × WindowsState W → Type 0 where
    nothing : {t : WindowsState W} → Passes s ids t → Scans s ids (returns none, t)
    unnamed :
        {t u : WindowsState W} (p : ℕ) (e : Thrown)
        → Stands s ids p t
        → extract_process_name api (handle_of p t) (opened api p t) ≡ (throws e, u)
        → Scans s ids (throws e, u)
    found :
        {t u : WindowsState W} (p : ℕ) (name : Bytes)
        → Stands s ids p t
        → extract_process_name api (handle_of p t) (opened api p t) ≡ (returns name, u)
        → equal name client_name ≡ true
        → Scans s ids ((command_of api (handle_of p t) >>= λ c v. (returns (some c), v)) u)

  -- The state behind EnumProcesses.
  abbrev listed : WindowsState W → W → WindowsState W
  listed s w = record s { world = w }

  -- How a call for the command line ends; 262144 is the room for 65536 identifiers.
  pub data Searches (s : WindowsState W) : Outcome Bytes × WindowsState W → Type 0 where
    not_listed :
        {w : W}
        → api.enum_processes 262144 s.world ≡ (none, w)
        → Searches s (throws (lcu_parameters_exception not_enumerated), listed s w)
    absent :
        {w : W} {t : WindowsState W} (ids : List ℕ)
        → api.enum_processes 262144 s.world ≡ (some ids, w)
        → Passes (listed s w) ids t
        → Searches s (throws (lcu_parameters_exception not_found), t)
    not_named :
        {w : W} {t u : WindowsState W} (ids : List ℕ) (p : ℕ) (e : Thrown)
        → api.enum_processes 262144 s.world ≡ (some ids, w)
        → Stands (listed s w) ids p t
        → extract_process_name api (handle_of p t) (opened api p t) ≡ (throws e, u)
        → Searches s (throws e, u)
    taken :
        {w : W} {t u : WindowsState W} (ids : List ℕ) (p : ℕ) (name : Bytes)
        → api.enum_processes 262144 s.world ≡ (some ids, w)
        → Stands (listed s w) ids p t
        → extract_process_name api (handle_of p t) (opened api p t) ≡ (returns name, u)
        → equal name client_name ≡ true
        → Searches s (command_of api (handle_of p t) u)
