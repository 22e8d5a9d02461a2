-- ===== src/Process/Tests.antt =====
-- A directory with three processes, of which the second is the client; and the theorems on it.
use rito.Common.{
  some, List, [], ◌∷◌, Bytes, codes, equal, is_digit, contains, ◌≡◌, ◌↔◌, refl, subst, arith,
  if◌then◌else◌,
}
use rito.Common.Decimal.{to_string}
use rito.Exception.{
  lcu_parameters_exception, filesystem_error, path_not_found_exception, lcu_not_running_exception,
}
use rito.Result.{ok, throw}
use rito.Process.Regex.{regex_search, delimited}
use rito.Process.Regex.Search.{Occurs, IsLeftmost, regex_search_iff}
use rito.Process.FileSystem.{FileSystem, join, stem, before_last_dot, get_line}
use rito.Process.Helpers.{
  is_token_char, port_prefix, no_port, extract_remoting_auth_token, extract_app_port,
  is_positive_integer,
}
use rito.Process.Linux.{
  LcuProcessHandlerImpl, scan, get_lcu_process_command, get_lcu_process_parameters,
}
use rito.Process.Linux.Command.{Outcome, get_lcu_process_command-Outcome}
use rito.Process.Linux.Order.{Agree, SameInEveryOrder, get_lcu_process_command-order_iff}
use rito.Process.Linux.Parameters.{
  PortAt, extract-TokenAt, extract-PortAt, ParametersOutcome, get_lcu_process_parameters-launch,
  get_lcu_process_parameters-Outcome,
}

abbrev launch : Bytes
launch = codes "LeagueClientUx.exe --remoting-auth-token=aB3-_ --app-port=50123 --x"

abbrev too_big : Bytes
too_big = codes "LeagueClientUx.exe --app-port=2147483648 --remoting-auth-token=t -"

-- One process directory that is the client's, and two entries that are not.
abbrev files : Bytes → FileSystem
files command = record {
  list_dir = λ dir.
      if equal dir (codes "/proc")
      then ok (ok (codes "self") ∷ ok (codes "17") ∷ ok (codes "42.x") ∷ [])
      else throw (filesystem_error (codes "no such directory"));
  read_file = λ path. if equal path (codes "/proc/17/cmdline") then command else codes "init";
}

abbrev here : LcuProcessHandlerImpl
here = record { proc_dir = codes "/proc" }

found : (get_lcu_process_command (files launch) here ≡ ok launch)
unfolding get_lcu_process_command scan equal join stem before_last_dot get_line contains
    is_positive_integer is_digit
found = refl

found_too_big : (get_lcu_process_command (files too_big) here ≡ ok too_big)
unfolding get_lcu_process_command scan equal join stem before_last_dot get_line contains
    is_positive_integer is_digit
found_too_big = refl

absent :
    get_lcu_process_command (files (codes "init")) here
    ≡ throw (lcu_not_running_exception (codes "Unable to find League Client process"))
unfolding get_lcu_process_command scan equal join stem before_last_dot get_line contains
    is_positive_integer is_digit
absent = refl

no_directory :
    get_lcu_process_command (files launch) (record { proc_dir = codes "/none" })
    ≡ throw (path_not_found_exception (codes "Unable to locate /none folder"))
unfolding get_lcu_process_command equal
no_directory = refl

stems :
    (stem (codes "42.x") ≡ codes "42")
    × (stem (codes ".7") ≡ codes ".7")
    × (stem (codes "1.2.3") ≡ codes "1.2")
unfolding stem before_last_dot equal
stems = (refl, refl, refl)

token_read : extract_remoting_auth_token launch ≡ ok (codes "aB3-_")
unfolding extract_remoting_auth_token is_token_char is_digit
token_read = refl

port_read : extract_app_port launch ≡ ok (codes "50123")
unfolding extract_app_port is_digit
port_read = refl

token_read_too_big : extract_remoting_auth_token too_big ≡ ok (codes "t")
unfolding extract_remoting_auth_token is_token_char is_digit
token_read_too_big = refl

port_read_too_big : extract_app_port too_big ≡ ok (codes "2147483648")
unfolding extract_app_port is_digit
port_read_too_big = refl

-- A field at the very end of the text has no character behind it.
token_at_end : extract_app_port (codes "--app-port=1") ≡ throw (lcu_parameters_exception no_port)
unfolding extract_app_port is_digit
token_at_end = refl

port_text : codes "50123" ≡ to_string 50123
unfolding to_string
port_text = refl

get_lcu_process_parameters-Outcome_example :
    ParametersOutcome (files launch) here (get_lcu_process_parameters (files launch) here)
get_lcu_process_parameters-Outcome_example = get_lcu_process_parameters-Outcome (files launch) here

get_lcu_process_parameters-launch_example :
    get_lcu_process_parameters (files launch) here
    ≡ ok (record { remoting_auth_token = codes "aB3-_"; app_port = 50123 })
get_lcu_process_parameters-launch_example =
    get_lcu_process_parameters-launch (files launch) here found (codes "aB3-_") 50123
      (extract-TokenAt token_read) (subst (PortAt launch) port_text (extract-PortAt port_read))
      (omega arith)

get_lcu_process_command-Outcome_example :
    Outcome (files launch) (codes "/proc") (get_lcu_process_command (files launch) here)
get_lcu_process_command-Outcome_example = get_lcu_process_command-Outcome (files launch) here

abbrev names : List Bytes
names = codes "self" ∷ codes "17" ∷ codes "42.x" ∷ []

get_lcu_process_command-order_iff_example :
    SameInEveryOrder (files launch) here names ↔ Agree (files launch) (codes "/proc") names
get_lcu_process_command-order_iff_example =
    get_lcu_process_command-order_iff (files launch) here names

regex_search_iff_example :
    (regex_search (delimited port_prefix is_digit) launch ≡ some (codes "50123"))
    ↔ ((o : Occurs port_prefix is_digit launch (codes "50123")) × IsLeftmost port_prefix is_digit o)
regex_search_iff_example = regex_search_iff port_prefix is_digit launch (codes "50123")
