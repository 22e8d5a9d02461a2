-- ===== src/Process/Helpers/Fields.antt =====
-- What the two extractors find in a command line.
use rito.Common.{ℕ, Bool, Option, none, some, Bytes, is_digit, ◌≡◌, refl}
use rito.Exception.{lcu_parameters_exception}
use rito.Result.{Result, ok, throw}
use rito.Process.Regex.{regex_search, delimited}
use rito.Process.Regex.Search.{
  Occurs, IsLeftmost, regex_search-Occurs, regex_search_complete, regex_search_iff,
}
use rito.Process.Helpers.{
  is_token_char, token_prefix, port_prefix, no_token, no_port, or_throw,
  extract_remoting_auth_token, extract_app_port,
}

module _ (prefix : Bytes) (p : ℕ → Bool) (what s : Bytes) where
  -- A group is that of the leftmost field, and the exception comes only where there is no field.
  abbrev pub Extracts : Result Bytes → Type 0
  Extracts (ok group) = (o : Occurs prefix p s group) × IsLeftmost prefix p o
  Extracts (throw e) =
      (e ≡ lcu_parameters_exception what) × ((group : Bytes) → ¬ Occurs prefix p s group)

  or_throw-Extracts :
      (found : Option Bytes)
      → regex_search (delimited prefix p) s ≡ found
      → Extracts (or_throw found what)
  or_throw-Extracts (some group) e = regex_search-Occurs prefix p s e
  or_throw-Extracts none e =
      (refl, λ group o. let (g, q) = regex_search_complete prefix p s o in cc)

-- The token is the leftmost run of token characters that stands behind --remoting-auth-token= and
-- is followed by another character; where there is none, Lcu_parameters_exception is thrown.
pub extract_remoting_auth_token-Extracts :
    (s : Bytes) → Extracts token_prefix is_token_char no_token s (extract_remoting_auth_token s)
unfolding extract_remoting_auth_token
extract_remoting_auth_token-Extracts s =
    or_throw-Extracts token_prefix is_token_char no_token s _ refl

-- The port is the leftmost run of digits that stands behind --app-port= and is followed by a
-- character that is no digit; where there is none, Lcu_parameters_exception is thrown.
pub extract_app_port-Extracts :
    (s : Bytes) → Extracts port_prefix is_digit no_port s (extract_app_port s)
unfolding extract_app_port
extract_app_port-Extracts s = or_throw-Extracts port_prefix is_digit no_port s _ refl

module _ {s group : Bytes} where
  pub extract_remoting_auth_token-leftmost :
      (o : Occurs token_prefix is_token_char s group)
      → IsLeftmost token_prefix is_token_char o
      → extract_remoting_auth_token s ≡ ok group
  unfolding extract_remoting_auth_token
  extract_remoting_auth_token-leftmost o first = rw (
    (regex_search_iff token_prefix is_token_char s group).1 (o, first),
    extract_remoting_auth_token,
  )

  pub extract_app_port-leftmost :
      (o : Occurs port_prefix is_digit s group)
      → IsLeftmost port_prefix is_digit o
      → extract_app_port s ≡ ok group
  unfolding extract_app_port
  extract_app_port-leftmost o first =
      rw ((regex_search_iff port_prefix is_digit s group).1 (o, first), extract_app_port)
