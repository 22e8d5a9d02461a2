-- ===== src/Process/Linux/Parameters.antt =====
-- The parameters that get_lcu_process_parameters takes from the command line.
use rito.Common.{ℕ, ◌%◌, ◌^◌, ◌≤◌, ◌<◌, Bytes, codes, is_digit, ◌≡◌, refl, ap, subst, ◌∙◌, arith}
use rito.Common.Decimal.{value_from, to_string}
use rito.Exception.{Thrown, out_of_range, lcu_parameters_exception}
use rito.Result.{Result, ok, throw, ◌>>=◌}
use rito.Process.Regex.Search.{Occurs, IsLeftmost}
use rito.Process.FileSystem.{FileSystem}
use rito.Process.Helpers.{
  is_token_char, token_prefix, port_prefix, no_token, no_port, extract_remoting_auth_token,
  extract_app_port, stoi, int_max,
}
use rito.Process.Helpers.Fields.{
  Extracts, extract_remoting_auth_token-Extracts, extract_app_port-Extracts,
  extract_remoting_auth_token-leftmost, extract_app_port-leftmost,
}
use rito.Process.Helpers.Numbers.{stoi-cases, stoi-to_string, stoi-overflow}
use rito.Process.Linux.{
  LcuProcessHandlerImpl, LcuParameters, get_lcu_process_command, get_lcu_process_parameters,
}

-- Where the token and the port stand in a command line.
abbrev pub TokenAt : Bytes → Bytes → Type 0
TokenAt command token =
    (o : Occurs token_prefix is_token_char command token) × IsLeftmost token_prefix is_token_char o

abbrev pub PortAt : Bytes → Bytes → Type 0
PortAt command port =
    (o : Occurs port_prefix is_digit command port) × IsLeftmost port_prefix is_digit o

-- What was extracted stands there.
pub extract-TokenAt :
    {command token : Bytes} → extract_remoting_auth_token command ≡ ok token → TokenAt command token
extract-TokenAt {command} e =
    subst (Extracts token_prefix is_token_char no_token command) e
      (extract_remoting_auth_token-Extracts command)

pub extract-PortAt :
    {command port : Bytes} → extract_app_port command ≡ ok port → PortAt command port
extract-PortAt {command} e =
    subst (Extracts port_prefix is_digit no_port command) e (extract_app_port-Extracts command)

-- What a successful call has read.
pub record Reads (fs : FileSystem) (h : LcuProcessHandlerImpl) (ps : LcuParameters) : Type 0 where
  pub command : Bytes
  pub port_text : Bytes
  pub command_is : get_lcu_process_command fs h ≡ ok command
  pub token_at : TokenAt command ps.remoting_auth_token
  pub port_at : PortAt command port_text
  pub port_fits : value_from 0 port_text ≤ int_max
  pub port_is : ps.app_port ≡ value_from 0 port_text % 2 ^ 16

-- The steps after the command line is known.
module _ (fs : FileSystem) (h : LcuProcessHandlerImpl) {command : Bytes}
    (found : get_lcu_process_command fs h ≡ ok command) where
  parameters_lem :
      (token port : Bytes) (n : ℕ)
      → extract_remoting_auth_token command ≡ ok token
      → extract_app_port command ≡ ok port
      → stoi port ≡ ok n
      → get_lcu_process_parameters fs h
        ≡ ok (record { remoting_auth_token = token; app_port = n % 2 ^ 16 })
  unfolding get_lcu_process_parameters
  parameters_lem token port n t p s = rw (found, t, p, s)

  -- Where the command line was found, and its leftmost fields hold a token and the decimal text of
  -- a number below 2^16, the call returns that token and that number.
  pub get_lcu_process_parameters-launch :
      (token : Bytes) (port : ℕ)
      → TokenAt command token
      → PortAt command (to_string port)
      → port < 2 ^ 16
      → get_lcu_process_parameters fs h
        ≡ ok (record { remoting_auth_token = token; app_port = port })
  get_lcu_process_parameters-launch token port (t, t') (p, p') small =
      parameters_lem token (to_string port) port (extract_remoting_auth_token-leftmost t t')
        (extract_app_port-leftmost p p') (stoi-to_string port (omega arith))
      ∙ ap (λ n. ok (record { remoting_auth_token = token; app_port = n })) (omega arith)

  -- Where the command line was found, and its leftmost fields hold a token and digits whose value
  -- is above INT_MAX, the call throws std::out_of_range.
  pub get_lcu_process_parameters-overflow :
      (token port : Bytes)
      → TokenAt command token
      → PortAt command port
      → int_max < value_from 0 port
      → get_lcu_process_parameters fs h ≡ throw (out_of_range (codes "stoi"))
  unfolding get_lcu_process_parameters
  get_lcu_process_parameters-overflow token port (t, t') (p, p') big = rw (
    found,
    extract_remoting_auth_token-leftmost t t',
    extract_app_port-leftmost p p',
    stoi-overflow port big,
  )

-- Why a call throws.
pub data ReadFails (fs : FileSystem) (h : LcuProcessHandlerImpl) (e : Thrown) : Type 0 where
  no_command : get_lcu_process_command fs h ≡ throw e → ReadFails fs h e
  token_missing :
      (command : Bytes)
      → get_lcu_process_command fs h ≡ ok command
      → ((token : Bytes) → ¬ Occurs token_prefix is_token_char command token)
      → e ≡ lcu_parameters_exception no_token
      → ReadFails fs h e
  port_missing :
      (command : Bytes)
      → get_lcu_process_command fs h ≡ ok command
      → ((port : Bytes) → ¬ Occurs port_prefix is_digit command port)
      → e ≡ lcu_parameters_exception no_port
      → ReadFails fs h e
  port_too_big :
      (command port : Bytes)
      → get_lcu_process_command fs h ≡ ok command
      → PortAt command port
      → int_max < value_from 0 port
      → e ≡ out_of_range (codes "stoi")
      → ReadFails fs h e

abbrev pub ParametersOutcome : FileSystem → LcuProcessHandlerImpl → Result LcuParameters → Type 0
ParametersOutcome fs h (ok ps) = Reads fs h ps
ParametersOutcome fs h (throw e) = ReadFails fs h e

module _ (fs : FileSystem) (h : LcuProcessHandlerImpl) where
  abbrev with_port : Bytes → ℕ → Result LcuParameters
  with_port token n = ok (record { remoting_auth_token = token; app_port = n % 2 ^ 16 })

  stoi-Outcome :
      (command token port : Bytes) (r : Result ℕ)
      → get_lcu_process_command fs h ≡ ok command
      → TokenAt command token
      → PortAt command port
      → stoi port ≡ r
      → ParametersOutcome fs h (r >>= with_port token)
  stoi-Outcome command token port (ok n) c t p e = record {
    command = command;
    port_text = port;
    command_is = c;
    token_at = t;
    port_at = p;
    port_fits = ground (arith, stoi-cases port p.0.field.group_ne_nil);
    port_is = ground (arith, stoi-cases port p.0.field.group_ne_nil);
  }
  stoi-Outcome command token port (throw x) c t p e =
      port_too_big command port c p (ground (arith, stoi-cases port p.0.field.group_ne_nil))
        (ground (arith, stoi-cases port p.0.field.group_ne_nil))

  port-Outcome :
      (command token : Bytes) (r : Result Bytes)
      → get_lcu_process_command fs h ≡ ok command
      → TokenAt command token
      → Extracts port_prefix is_digit no_port command r
      → ParametersOutcome fs h (r >>= λ port. stoi port >>= with_port token)
  port-Outcome command token (ok port) c t p =
      stoi-Outcome command token port (stoi port) c t p refl
  port-Outcome command token (throw x) c t (e, n) = port_missing command c n e

  token-Outcome :
      (command : Bytes) (r : Result Bytes)
      → get_lcu_process_command fs h ≡ ok command
      → Extracts token_prefix is_token_char no_token command r
      → ParametersOutcome fs h
          (r >>= λ token. extract_app_port command >>= λ port. stoi port >>= with_port token)
  token-Outcome command (ok token) c t =
      port-Outcome command token (extract_app_port command) c t (extract_app_port-Extracts command)
  token-Outcome command (throw x) c (e, n) = token_missing command c n e

  command-Outcome :
      (r : Result Bytes)
      → get_lcu_process_command fs h ≡ r
      → ParametersOutcome fs h (
          r >>= λ command. extract_remoting_auth_token command >>= λ token.
          extract_app_port command >>= λ port. stoi port >>= with_port token)
  command-Outcome (ok command) c =
      token-Outcome command (extract_remoting_auth_token command) c
        (extract_remoting_auth_token-Extracts command)
  command-Outcome (throw x) c = no_command c

  -- A call returns exactly what one command line says: the token is that of its leftmost token
  -- field, the port the value of its leftmost port field, which fits an int, modulo 2^16. An
  -- exception means that there was no command line, or no token field, or no port field
  -- (Lcu_parameters_exception both), or a port field whose value does not fit an int
  -- (std::out_of_range).
  pub get_lcu_process_parameters-Outcome : ParametersOutcome fs h (get_lcu_process_parameters fs h)
  unfolding get_lcu_process_parameters
  get_lcu_process_parameters-Outcome = command-Outcome (get_lcu_process_command fs h) refl
