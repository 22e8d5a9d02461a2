-- ===== src/Process/Agreement.antt =====
-- The two implementations of the process handler against one another.
use rito.Common.{Bytes, ◌≡◌, arith}
use rito.Result.{Result, ok, ◌>>=◌}
use rito.Outcome.{returns, outcome}
use rito.Process.FileSystem.{FileSystem}
use rito.Process.Helpers.{extract_remoting_auth_token, extract_app_port, stoi, to_uint16}
use rito.Process.Linux
use rito.Process.Linux.{LcuParameters, LcuProcessHandlerImpl}
use rito.Process.Windows
use rito.Process.Windows.{WindowsApi, WindowsState}

-- What a command line says.
says : Bytes → Result LcuParameters
says command = do
  token ← extract_remoting_auth_token command
  text ← extract_app_port command
  port ← stoi text
  ok (record { remoting_auth_token = token; app_port = to_uint16 port })

module _ (fs : FileSystem) (h : LcuProcessHandlerImpl) {command : Bytes}
    (found : Linux.get_lcu_process_command fs h ≡ ok command) where
  linux_says : Linux.get_lcu_process_parameters fs h ≡ says command
  unfolding Linux.get_lcu_process_parameters says
  linux_says = ground (arith, found)

module _ {W : Type 0} (api : WindowsApi W) (s t : WindowsState W) {command : Bytes}
    (found : Windows.get_lcu_process_command api s ≡ (returns command, t)) where
  windows_says : Windows.get_lcu_process_parameters api s ≡ (outcome (says command), t)
  unfolding Windows.get_lcu_process_parameters says
  windows_says = ground (arith, found)

-- Where a call on Windows and a call on Linux find the same command line, they end alike: with the
-- same parameters or with the same exception; and what follows the search on Windows changes
-- nothing outside.
pub platforms_agree :
    {W : Type 0} (api : WindowsApi W) (s t : WindowsState W) (fs : FileSystem)
    (h : LcuProcessHandlerImpl) {command : Bytes}
    → Windows.get_lcu_process_command api s ≡ (returns command, t)
    → Linux.get_lcu_process_command fs h ≡ ok command
    → Windows.get_lcu_process_parameters api s
      ≡ (outcome (Linux.get_lcu_process_parameters fs h), t)
platforms_agree api s t fs h w l = ground (arith, windows_says api s t w, linux_says fs h l)
