-- ===== src/Process/Windows.antt =====
-- src/platform/windows/lcu_process_handler_impl_windows.cpp and its header. The Windows API and
-- Poco's UnicodeConverter are a parameter, WindowsApi; the status codes that the source does not
-- look at are left out, and an allocation does not fail.
pub mod Handles
pub mod Search
pub mod Found
pub mod Memory
pub mod Reading
pub mod Library
mod Tests
use rito.Common.{
  ℕ, ◌*◌, List, [], ◌∷◌, Option, none, some, Bytes, codes, equal, ◌==◌, if◌then◌else◌,
}
use rito.Exception.{Thrown, lcu_parameters_exception}
use rito.Result.{Result, ok, throw}
use rito.Outcome.{
  Outcome, returns, throws, terminates, outcome, Method, Done, pure, after, ◌>>=◌, ◌>>◌,
}
use rito.Process.Helpers.{extract_remoting_auth_token, extract_app_port, stoi, to_uint16}
use rito.Process.Linux.{LcuParameters}

-- The four blocks of memory that extract_process_command allocates.
pub data Block : Type 0 where
  basic_information peb_block parameters_block : Block
  wide_chars : ℕ → Block

-- Handles, modules and pointers are numbers, null is 0. A wide text is a list of its units.
pub record WindowsApi (W : Type 0) : Type 0 where
  -- EnumProcesses with room for so many bytes: the identifiers, none where it fails
  pub enum_processes : ℕ → W → Option (List ℕ) × W
  pub open_process : ℕ → W → ℕ × W
  pub close_handle : ℕ → W → W
  -- the first module of a process, none where EnumProcessModules fails
  pub enum_process_modules : ℕ → W → Option ℕ × W
  -- what GetModuleBaseName leaves in a buffer of zeros
  pub get_module_base_name : ℕ → ℕ → W → List ℕ × W
  pub load_library : Bytes → W → ℕ × W
  pub free_library : ℕ → W → W
  pub get_proc_address : ℕ → Bytes → W → ℕ × W
  -- the call of a function of Ntdll.dll by its address, and the second word of what it fills in
  pub query_information_process : ℕ → ℕ → W → ℕ × W
  -- ReadProcessMemory of a PEB: the pointer to the parameters, in the buffer afterwards
  pub read_peb : ℕ → ℕ → W → ℕ × W
  -- ReadProcessMemory of the parameters: the command line's address and its length
  pub read_parameters : ℕ → ℕ → W → (ℕ × ℕ) × W
  -- ReadProcessMemory from an address into a block, so many bytes
  pub read_text : ℕ → ℕ → ℕ → ℕ → W → W
  pub allocate : Block → W → ℕ × W
  pub deallocate : ℕ → W → W
  -- UnicodeConverter::convert of a text
  pub convert : List ℕ → Result Bytes
  -- and of the text at an address of this process, where there may be none
  pub convert_at : ℕ → W → Outcome Bytes

pub record WindowsHandler : Type 0 where
  pub dll_lib : ℕ
  pub query_information_ptr : ℕ

pub record WindowsState (W : Type 0) : Type 0 where
  pub handler : WindowsHandler
  pub open handler use *
  pub world : W

-- The constructor, which ignores the path.
abbrev pub create : WindowsHandler
create = record { dll_lib = 0; query_information_ptr = 0 }

abbrev pub max_process_count : ℕ
max_process_count = 65536

-- sizeof(DWORD)
abbrev pub dword_size : ℕ
dword_size = 4

abbrev pub client_name : Bytes
client_name = codes "LeagueClientUx.exe"

abbrev pub not_enumerated : Bytes
not_enumerated = codes "Unable to to enumerate processes with EnumProcesses"

abbrev pub not_found : Bytes
not_found = codes "Unable to find League Client process"

abbrev pub no_dll : Bytes
no_dll = codes "Unable to dynamically load Ntdll.dll"

abbrev pub no_function : Bytes
no_function = codes "Unable to retrieve NtQueryInformationProcess function pointer from Ntdll.dll"

module _ {W : Type 0} where
  abbrev pub set_dll : ℕ → WindowsState W → WindowsState W
  set_dll n s = record s { handler = record (s.handler) { dll_lib = n } }

  abbrev pub set_ptr : ℕ → WindowsState W → WindowsState W
  set_ptr n s = record s { handler = record (s.handler) { query_information_ptr = n } }

  -- A call of the API, which does not throw.
  abbrev pub outside : {A : Type 0} → (W → A × W) → Method (WindowsState W) A
  outside f s = let (a, w) = f s.world in (returns a, record s { world = w })

  abbrev pub outside_do : (W → W) → Method (WindowsState W) Done
  outside_do f s = (returns tt, record s { world = f s.world })

  abbrev pub modify : (WindowsState W → WindowsState W) → Method (WindowsState W) Done
  modify f s = (returns tt, f s)

  abbrev pub lift : {A : Type 0} → Result A → Method (WindowsState W) A
  lift r s = (outcome r, s)

  -- `catch (...)` that does `f` and throws again.
  abbrev pub rethrow_after :
      {A : Type 0}
      → Outcome A × WindowsState W
      → (WindowsState W → WindowsState W)
      → Outcome A × WindowsState W
  rethrow_after (returns a, s) f = (returns a, s)
  rethrow_after (throws e, s) f = (throws e, f s)
  rethrow_after (terminates, s) f = (terminates, s)

module _ {W : Type 0} (api : WindowsApi W) where
  unfoldable pub load_nt_dll : Method (WindowsState W) Done
  load_nt_dll s =
      if s.dll_lib == 0
      then (do
        lib ← outside (api.load_library (codes "Ntdll.dll"))
        modify (set_dll lib)
        if lib == 0 then (λ t. (throws (lcu_parameters_exception no_dll), t)) else pure tt)
          s
      else (returns tt, s)

  unfoldable pub retrieve_nt_query_information_process_function_pointer :
      Method (WindowsState W) Done
  retrieve_nt_query_information_process_function_pointer s =
      if s.query_information_ptr == 0
      then (do
        ptr ← outside (api.get_proc_address s.dll_lib (codes "NtQueryInformationProcess"))
        modify (set_ptr ptr)
        if ptr == 0 then (λ t. (throws (lcu_parameters_exception no_function), t)) else pure tt)
          s
      else (returns tt, s)

  unfoldable pub unload_nt_dll : WindowsState W → WindowsState W
  unload_nt_dll s = if s.dll_lib == 0 then s else record {
    handler = record { dll_lib = 0; query_information_ptr = 0 };
    world = api.free_library s.dll_lib s.world;
  }

  -- The destructor.
  unfoldable pub destroy : WindowsState W → WindowsState W
  destroy = unload_nt_dll

  -- The wide text of a process's name: empty where the process could not be opened or read.
  abbrev pub wide_name : ℕ → Method (WindowsState W) (List ℕ)
  wide_name process_handle s =
      if process_handle == 0
      then (returns [], s)
      else (do
        module_handle ← outside (api.enum_process_modules process_handle)
        elim module_handle [
          | none ↦ pure []
          | some m ↦ outside (api.get_module_base_name process_handle m)
        ])
          s

  unfoldable pub extract_process_name : ℕ → Method (WindowsState W) Bytes
  extract_process_name process_handle = do
    process_name ← wide_name process_handle
    lift (api.convert process_name)

  abbrev pub query : ℕ → Method (WindowsState W) ℕ
  query process_handle s =
      outside (api.query_information_process s.query_information_ptr process_handle) s

  -- From the first allocation to the last deallocation.
  unfoldable pub read_command : ℕ → Method (WindowsState W) Bytes
  read_command process_handle = do
    process_info ← outside (api.allocate basic_information)
    peb ← query process_handle
    peb_buffer ← outside (api.allocate peb_block)
    process_parameters ← outside (api.read_peb process_handle peb)
    parameters_buffer ← outside (api.allocate parameters_block)
    line ← outside (api.read_parameters process_handle process_parameters)
    command_buffer ← outside (api.allocate (wide_chars line.1))
    outside_do (api.read_text process_handle line.0 command_buffer line.1)
    to ← λ t. (api.convert_at line.0 t.world, t)
    outside_do (api.deallocate command_buffer)
    outside_do (api.deallocate parameters_buffer)
    outside_do (api.deallocate peb_buffer)
    outside_do (api.deallocate process_info)
    pure to

  unfoldable pub extract_process_command : ℕ → Method (WindowsState W) Bytes
  extract_process_command process_handle = do
    load_nt_dll
    retrieve_nt_query_information_process_function_pointer
    read_command process_handle

  -- The branch for a process with the client's name: its handle is closed either way.
  unfoldable pub command_of : ℕ → Method (WindowsState W) Bytes
  command_of process_handle s =
      after
        (rethrow_after (extract_process_command process_handle s)
          (λ t. record t { world = api.close_handle process_handle t.world }))
        (λ command. do outside_do (api.close_handle process_handle); pure command)

  -- The loop over the identifiers: a command, or none when it ends.
  unfoldable pub scan : List ℕ → Method (WindowsState W) (Option Bytes)
  scan [] s = (returns none, s)
  scan (process ∷ rest) s =
      let later = scan rest in
      if process == 0
      then later s
      else (do
        process_handle ← outside (api.open_process process)
        process_name ← extract_process_name process_handle
        if equal process_name client_name
            then (do command ← command_of process_handle; pure (some command))
            else (do outside_do (api.close_handle process_handle); later))
          s

  abbrev pub command_or_throw : Option Bytes → Method (WindowsState W) Bytes
  command_or_throw (some command) s = (returns command, s)
  command_or_throw none s = (throws (lcu_parameters_exception not_found), s)

  -- What follows EnumProcesses.
  abbrev pub search_all : Option (List ℕ) → Method (WindowsState W) Bytes
  search_all none s = (throws (lcu_parameters_exception not_enumerated), s)
  search_all (some ids) s = (do found ← scan ids; command_or_throw found) s

  unfoldable pub get_lcu_process_command : Method (WindowsState W) Bytes
  get_lcu_process_command = do
    processes ← outside (api.enum_processes (dword_size * max_process_count))
    search_all processes

  unfoldable pub get_lcu_process_parameters : Method (WindowsState W) LcuParameters
  get_lcu_process_parameters = do
    lcu_command ← get_lcu_process_command
    remoting_auth_token ← lift (extract_remoting_auth_token lcu_command)
    app_port ← lift (extract_app_port lcu_command)
    port ← lift (stoi app_port)
    pure (record { remoting_auth_token = remoting_auth_token; app_port = to_uint16 port })
