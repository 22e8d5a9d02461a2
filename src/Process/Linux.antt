-- ===== src/Process/Linux.antt =====
-- src/platform/linux/lcu_process_handler_impl_linux.cpp. The handler's state is the path of the
-- directory of processes.
pub mod Command
pub mod Parameters
pub mod Order
use rito.Common.{
  ℕ, Bool, true, false, not, Option, none, some, List, [], ◌∷◌, ◌++◌, Bytes, codes, contains,
  if◌then◌else◌,
}
use rito.Exception.{Thrown, filesystem_error, path_not_found_exception, lcu_not_running_exception}
use rito.Result.{Result, ok, throw, ◌>>=◌}
use rito.Process.FileSystem.{FileSystem, join, stem, get_line}
use rito.Process.Helpers.{
  extract_remoting_auth_token, extract_app_port, is_positive_integer, stoi, to_uint16,
}

pub record LcuParameters : Type 0 where
  pub remoting_auth_token : Bytes
  pub app_port : ℕ

pub record LcuProcessHandlerImpl : Type 0 where
  pub proc_dir : Bytes

-- The constructor.
abbrev pub create : Bytes → LcuProcessHandlerImpl
create proc_dir = record { proc_dir = proc_dir }

abbrev pub executable : Bytes
executable = codes "LeagueClientUx.exe"

-- The first line of a process's cmdline file.
abbrev pub cmdline : FileSystem → Bytes → Bytes → Bytes
cmdline fs dir name = get_line (fs.read_file (join dir name ++ codes "/cmdline"))

-- The loop over the directory: a command, or none when the loop ends.
unfoldable pub scan : FileSystem → Bytes → List (Result Bytes) → Result (Option Bytes)
scan fs dir [] = ok none
scan fs dir (throw e ∷ _) = throw e
scan fs dir (ok name ∷ rest) =
    let later = scan fs dir rest in
    let command = cmdline fs dir name in
    if not (is_positive_integer (stem name))
    then later
    else if contains command executable
    then ok (some command)
    else later

-- `catch (filesystem_error&)`
abbrev pub path_not_found : Bytes → Result (Option Bytes) → Result (Option Bytes)
path_not_found dir (throw (filesystem_error _)) =
    throw (path_not_found_exception (codes "Unable to locate " ++ (dir ++ codes " folder")))
path_not_found dir r = r

abbrev pub not_running : Bytes
not_running = codes "Unable to find League Client process"

abbrev pub command_or_throw : Option Bytes → Result Bytes
command_or_throw (some command) = ok command
command_or_throw none = throw (lcu_not_running_exception not_running)

unfoldable pub get_lcu_process_command : FileSystem → LcuProcessHandlerImpl → Result Bytes
unfolding scan is_positive_integer
get_lcu_process_command fs h = do
  found ←
      path_not_found h.proc_dir (do entries ← fs.list_dir h.proc_dir; scan fs h.proc_dir entries)
  command_or_throw found

unfoldable pub get_lcu_process_parameters :
    FileSystem → LcuProcessHandlerImpl → Result LcuParameters
unfolding get_lcu_process_command extract_remoting_auth_token extract_app_port stoi
get_lcu_process_parameters fs h = do
  lcu_command ← get_lcu_process_command fs h
  remoting_auth_token ← extract_remoting_auth_token lcu_command
  app_port ← extract_app_port lcu_command
  port ← stoi app_port
  ok (record { remoting_auth_token = remoting_auth_token; app_port = to_uint16 port })
