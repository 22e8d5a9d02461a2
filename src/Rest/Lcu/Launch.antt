-- ===== src/Rest/Lcu/Launch.antt =====
-- From the LCU's command line to the request that is sent to it.
use rito.Common.{ℕ, ◌^◌, ◌<◌, [], Bytes, ◌≡◌, sym, ap, ◌∙◌}
use rito.Common.Decimal.{to_string}
use rito.Result.{ok}
use rito.Types.{RequestType}
use rito.Process.FileSystem.{FileSystem}
use rito.Process.Linux.{LcuParameters, get_lcu_process_command}
use rito.Process.Linux.Parameters.{TokenAt, PortAt, get_lcu_process_parameters-launch}
use rito.Rest.Client.{HttpApi}
use rito.Rest.Client
use rito.Rest.Lcu.{LcuState, localhost, outside, with_client, last_try, request}
use rito.Rest.Lcu.Retry.{
  Starts, at_once, after_failure, fresh, bare, last_try_connected, request_dropped, request_unheld,
}

-- The parameters that the command line holds.
abbrev pub launched : Bytes → ℕ → LcuParameters
launched token port = record { remoting_auth_token = token; app_port = port }

module _ {W : Type 0} (api : HttpApi W) (files : W → FileSystem) (s : LcuState W)
    (type : RequestType) (message : Bytes) where
  abbrev Start : W → Type 0
  Start = Starts api files s type message

  -- Both ways to a new client lead to the second half of request.
  request-last_try :
      {w : W}
      → Start w
      → request api files type message s
        ≡ last_try api files type message (bare api files s type message w)
  request-last_try (at_once n e) =
      request_unheld api files s type message n
      ∙ ap (λ v. last_try api files type message (bare api files s type message v)) (sym e)
  request-last_try (after_failure c x w₁ held q e) =
      request_dropped api files s type message c held q
      ∙ ap (λ v. last_try api files type message (bare api files s type message v)) (sym e)

  -- Where the handler has no client, or the one it has just failed, and at that time the files of
  -- /proc show a command line of the LCU whose leftmost fields hold a token and the decimal text
  -- of a port below 2^16, and Poco makes a session for 127.0.0.1 and that port: the call is one
  -- request over that session as the user riot with the token as its password, its result is
  -- passed on, and the new client is kept.
  pub request-launch :
      {w w' : W} {command : Bytes} (token : Bytes) (port session : ℕ)
      → Start w
      → get_lcu_process_command (files w) s.process_handler.pimpl ≡ ok command
      → TokenAt command token
      → PortAt command (to_string port)
      → port < 2 ^ 16
      → api.new_session localhost port w ≡ (ok session, w')
      → request api files type message s
        ≡ outside api files
            (Client.request api
              (fresh api files s type message (launched token port) session)
              type
              message
              [])
            (with_client api files
              (fresh api files s type message (launched token port) session)
              (bare api files s type message w'))
  request-launch {w} token port session from found t p small made =
      request-last_try from
      ∙ last_try_connected api files s type message w
          (get_lcu_process_parameters-launch (files w) s.process_handler.pimpl found token port t p
            small)
          made
