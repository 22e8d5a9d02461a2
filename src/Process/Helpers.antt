-- ===== src/Process/Helpers.antt =====
-- src/lcu_process_handler_helpers.cpp, and what the implementations use of the standard library on
-- the same texts: std::stoi, the cast to uint16_t.
pub mod Fields
pub mod Numbers
use rito.Common.{
  ℕ, suc, ◌+◌, ◌-◌, ◌*◌, ◌%◌, ◌^◌, Bool, true, false, not, ◌&&◌, ◌||◌, Option, none, some, [], ◌∷◌,
  Bytes, codes, empty, all, is_digit, leb, ltb, ◌==◌, if◌then◌else◌,
}
use rito.Common.Decimal.{value_from}
use rito.Exception.{lcu_parameters_exception, out_of_range, std_other}
use rito.Result.{Result, ok, throw}
use rito.Process.Regex.{regex_search, delimited}

-- [a-zA-Z0-9-_]
unfoldable pub is_token_char : ℕ → Bool
unfolding is_digit
is_token_char c =
    (leb b'a' c && leb c b'z') || (leb b'A' c && leb c b'Z') || is_digit c || c == b'-' || c == b'_'

abbrev pub token_prefix : Bytes
token_prefix = codes "--remoting-auth-token="

abbrev pub port_prefix : Bytes
port_prefix = codes "--app-port="

abbrev pub no_token : Bytes
no_token = codes "Unable to extract remoting auth token from League Client launch command"

abbrev pub no_port : Bytes
no_port = codes "Unable to extract app port from League Client launch command"

-- The branch on a match: `match[1]`, or the exception.
abbrev or_throw : Option Bytes → Bytes → Result Bytes
or_throw (some group) what = ok group
or_throw none what = throw (lcu_parameters_exception what)

unfoldable pub extract_remoting_auth_token : Bytes → Result Bytes
unfolding regex_search delimited
extract_remoting_auth_token lcu_command =
    or_throw (regex_search (delimited token_prefix is_token_char) lcu_command) no_token

unfoldable pub extract_app_port : Bytes → Result Bytes
unfolding regex_search delimited
extract_app_port lcu_command =
    or_throw (regex_search (delimited port_prefix is_digit) lcu_command) no_port

unfoldable pub is_positive_integer : Bytes → Bool
is_positive_integer str = not (empty str) && all is_digit str

abbrev pub int_max : ℕ
int_max = 2 ^ 31 - 1

-- `std::stoi` on a text of digits, which is all that `extract_app_port` returns.
unfoldable pub stoi : Bytes → Result ℕ
unfolding value_from
stoi [] = throw (std_other (codes "stoi"))
stoi (c ∷ s) =
    let n = value_from 0 (c ∷ s) in
    if ltb int_max n then throw (out_of_range (codes "stoi")) else ok n

-- `static_cast<uint16_t>`
abbrev pub to_uint16 : ℕ → ℕ
to_uint16 n = n % 2 ^ 16
