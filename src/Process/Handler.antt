-- ===== src/Process/Handler.antt =====
-- src/lcu_process_handler.cpp and include/rito/lcu_process_handler.h, over the implementation for
-- Linux: what the handlers that need the LCU's port and token have of the search.
use rito.Common.{Bytes, codes}
use rito.Result.{Result}
use rito.Process.FileSystem.{FileSystem}
use rito.Process.Linux
use rito.Process.Linux.{LcuProcessHandlerImpl, LcuParameters}

pub record LcuProcessHandler : Type 0 where
  pub pimpl : LcuProcessHandlerImpl

-- The constructor, and its default argument.
abbrev pub create : Bytes → LcuProcessHandler
create proc_dir = record { pimpl = Linux.create proc_dir }

abbrev pub default_proc_dir : Bytes
default_proc_dir = codes "/proc"

abbrev pub get_lcu_process_parameters : FileSystem → LcuProcessHandler → Result LcuParameters
get_lcu_process_parameters fs h = Linux.get_lcu_process_parameters fs h.pimpl
