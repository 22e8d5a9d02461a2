-- ===== src/Process/Windows/Tests.antt =====
-- A Windows that keeps the lists of open handles and loaded libraries, with two processes; and the
-- theorems on it.
use rito.Common.{
  ℕ, List, [], ◌∷◌, some, codes, equal, contains, is_digit, ◌==◌, if◌then◌else◌, ◌≡◌, refl, ap, ◌⊎◌,
  arith,
}
use rito.Exception.{poco_other}
use rito.Result.{ok, throw}
use rito.Outcome.{returns, throws, terminates, outcome}
use rito.Process.Windows.{
  WindowsApi, WindowsState, create, load_nt_dll,
  retrieve_nt_query_information_process_function_pointer, destroy, extract_process_name,
  read_command, extract_process_command, command_of, scan, get_lcu_process_command,
  get_lcu_process_parameters,
}
use rito.Process.FileSystem.{FileSystem, join, stem, before_last_dot, get_line}
use rito.Process.Helpers.{is_positive_integer}
use rito.Process.Linux
use rito.Process.Linux.{LcuProcessHandlerImpl}
use rito.Process.Agreement.{platforms_agree}
use rito.Process.Windows.Search.{opened}
use rito.Process.Windows.Memory.{Blocks, Leaves, read_command-Leaves}
use rito.Process.Windows.Reading.{Untouched}
use rito.Process.Windows.Handles.{
  push, Handles, get_lcu_process_parameters-closes, get_lcu_process_parameters-leaks,
}
use rito.Process.Windows.Library.{Libraries, made, called, destroy-frees}

-- The open handles, the loaded libraries and the allocated blocks.
record World : Type 0 where
  handles : List ℕ
  libraries : List ℕ
  blocks : List ℕ

abbrev rest_of : List ℕ → List ℕ
rest_of [] = []
rest_of (x ∷ xs) = xs

-- The second process is the client's.
abbrev windows : WindowsApi World
windows = record {
  enum_processes = λ n w. (some (4 ∷ 0 ∷ 5 ∷ []), w);
  open_process = λ p w. (p, record w { handles = push p w.handles });
  close_handle = λ h w. record w { handles = if h == 0 then w.handles else rest_of w.handles };
  enum_process_modules = λ h w. (some h, w);
  get_module_base_name = λ h m w. (if h == 5 then codes "LeagueClientUx.exe" else codes "x", w);
  load_library = λ n w. (9, record w { libraries = 9 ∷ w.libraries });
  free_library =
      λ l w. record w { libraries = if l == 0 then w.libraries else rest_of w.libraries };
  get_proc_address = λ l n w. (77, w);
  query_information_process = λ f h w. (1000, w);
  read_peb = λ h a w. (2000, w);
  read_parameters = λ h a w. ((3000, 60), w);
  read_text = λ h a b n w. w;
  allocate = λ b w. (100, record w { blocks = 100 ∷ w.blocks });
  deallocate = λ n w. record w { blocks = rest_of w.blocks };
  convert = λ t. ok t;
  convert_at =
      λ a w. returns (codes "LeagueClientUx.exe --remoting-auth-token=t --app-port=50123 --x");
}

-- No name converts.
abbrev broken : WindowsApi World
broken = record windows { convert = λ t. throw (poco_other (codes "invalid")) }

abbrev start : World
start = record { handles = 3 ∷ []; libraries = 1 ∷ []; blocks = 8 ∷ [] }

abbrev state : WindowsState World
state = record { handler = create; world = start }

Untouched-handles : Untouched windows (λ w. w.handles)
Untouched-handles = record {
  enum_keeps = λ n w. refl;
  modules_keep = λ h w. refl;
  name_keeps = λ h m w. refl;
  address_keeps = λ l n w. refl;
  query_keeps = λ p h w. refl;
  peb_keeps = λ h a w. refl;
  parameters_keep = λ h a w. refl;
  text_keeps = λ h a b n w. refl;
  allocate_keeps = λ b w. refl;
  deallocate_keeps = λ n w. refl;
}

Untouched-libraries : Untouched windows (λ w. w.libraries)
Untouched-libraries = record {
  enum_keeps = λ n w. refl;
  modules_keep = λ h w. refl;
  name_keeps = λ h m w. refl;
  address_keeps = λ l n w. refl;
  query_keeps = λ p h w. refl;
  peb_keeps = λ h a w. refl;
  parameters_keep = λ h a w. refl;
  text_keeps = λ h a b n w. refl;
  allocate_keeps = λ b w. refl;
  deallocate_keeps = λ n w. refl;
}

popped : (h : ℕ) (l m : List ℕ) → m ≡ push h l → (if h == 0 then m else rest_of m) ≡ l
popped h l m e = ground arith

windows-Handles : Handles windows (λ w. w.handles)
windows-Handles = record {
  opens = λ p w. refl;
  closes = λ h l w e. popped h l w.handles e;
  load_keeps = λ n w. refl;
  untouched = Untouched-handles;
}

broken-Handles : Handles broken (λ w. w.handles)
broken-Handles = record {
  opens = λ p w. refl;
  closes = λ h l w e. popped h l w.handles e;
  load_keeps = λ n w. refl;
  untouched = record {
    enum_keeps = λ n w. refl;
    modules_keep = λ h w. refl;
    name_keeps = λ h m w. refl;
    address_keeps = λ l n w. refl;
    query_keeps = λ p h w. refl;
    peb_keeps = λ h a w. refl;
    parameters_keep = λ h a w. refl;
    text_keeps = λ h a b n w. refl;
    allocate_keeps = λ b w. refl;
    deallocate_keeps = λ n w. refl;
  };
}

windows-Libraries : Libraries windows (λ w. w.libraries)
windows-Libraries = record {
  loads = λ n w. refl;
  frees = λ l base w e. popped l base w.libraries e;
  open_keeps = λ p w. refl;
  close_keeps = λ h w. refl;
  untouched = Untouched-libraries;
}

found :
    (get_lcu_process_command windows state).0
    ≡ returns (codes "LeagueClientUx.exe --remoting-auth-token=t --app-port=50123 --x")
unfolding get_lcu_process_command scan command_of extract_process_command extract_process_name
    read_command load_nt_dll retrieve_nt_query_information_process_function_pointer equal
found = refl

get_lcu_process_parameters-closes_example :
    ((get_lcu_process_parameters windows state).0 ≡ terminates)
    ⊎ ((get_lcu_process_parameters windows state).1.world.handles ≡ 3 ∷ [])
get_lcu_process_parameters-closes_example =
    get_lcu_process_parameters-closes windows (λ w. w.handles) windows-Handles (λ t e h. cc) state

unnamed :
    extract_process_name broken 4 (opened broken 4 state)
    ≡ (throws (poco_other (codes "invalid")), opened broken 4 state)
unfolding extract_process_name
unnamed = refl

get_lcu_process_parameters-leaks_example :
    ((get_lcu_process_parameters broken state).0 ≡ throws (poco_other (codes "invalid")))
    × ((get_lcu_process_parameters broken state).1.world.handles ≡ 4 ∷ 3 ∷ [])
get_lcu_process_parameters-leaks_example =
    get_lcu_process_parameters-leaks broken (λ w. w.handles) broken-Handles state 4 (0 ∷ 5 ∷ [])
      start (poco_other (codes "invalid")) (opened broken 4 state) refl (omega arith) (omega arith)
      unnamed

destroy-frees_example :
    (destroy windows (get_lcu_process_parameters windows state).1).world.libraries ≡ 1 ∷ []
destroy-frees_example =
    destroy-frees windows (λ w. w.libraries) windows-Libraries {w = start} (called made)

-- The same client under Linux.
abbrev files : FileSystem
files = record {
  list_dir = λ dir. ok (ok (codes "17") ∷ []);
  read_file = λ path. codes "LeagueClientUx.exe --remoting-auth-token=t --app-port=50123 --x";
}

abbrev proc : LcuProcessHandlerImpl
proc = record { proc_dir = codes "/proc" }

found_on_windows : get_lcu_process_command windows state ≡ (
  returns (codes "LeagueClientUx.exe --remoting-auth-token=t --app-port=50123 --x"),
  (get_lcu_process_command windows state).1,
)
unfolding get_lcu_process_command scan command_of extract_process_command extract_process_name
    read_command load_nt_dll retrieve_nt_query_information_process_function_pointer equal
found_on_windows = refl

found_on_linux :
    Linux.get_lcu_process_command files proc
    ≡ ok (codes "LeagueClientUx.exe --remoting-auth-token=t --app-port=50123 --x")
unfolding Linux.get_lcu_process_command Linux.scan equal join stem before_last_dot get_line contains
    is_positive_integer is_digit
found_on_linux = refl

platforms_agree_example : get_lcu_process_parameters windows state ≡ (
  outcome (Linux.get_lcu_process_parameters files proc),
  (get_lcu_process_command windows state).1,
)
platforms_agree_example =
    platforms_agree windows state (get_lcu_process_command windows state).1 files proc
      found_on_windows found_on_linux

windows-Blocks : Blocks windows (λ w. w.blocks)
windows-Blocks = record {
  allocates = λ b w. refl;
  deallocates = λ n others w e. ap rest_of e;
  query_keeps = λ p h w. refl;
  peb_keeps = λ h a w. refl;
  parameters_keep = λ h a w. refl;
  text_keeps = λ h a b n w. refl;
}

read_command-Leaves_example :
    Leaves windows (λ w. w.blocks) windows-Blocks (8 ∷ []) (read_command windows 5 state)
read_command-Leaves_example = read_command-Leaves windows (λ w. w.blocks) windows-Blocks 5 state
