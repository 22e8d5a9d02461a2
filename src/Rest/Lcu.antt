-- ===== src/Rest/Lcu.antt =====
-- src/lcu_rest_handler.cpp and include/rito/lcu_rest_handler.h. The handler's own
-- Lcu_process_handler is that of Linux, over the files that the outside holds at the call.
pub mod Retry
pub mod Launch
pub mod Sessions
use rito.Common.{Option, none, some, [], Bytes, codes}
use rito.Exception.{Thrown, unknown_exception}
use rito.Result.{ok, throw}
use rito.Act.{Act, pure, ◌>>=◌, try_catch}
use rito.Types.{RequestType, HttpResponse}
use rito.Process.FileSystem.{FileSystem}
use rito.Process.Linux.{LcuParameters}
use rito.Process.Handler.{LcuProcessHandler, get_lcu_process_parameters, default_proc_dir}
use rito.Process.Handler
use rito.Rest.Client.{HttpApi, HttpsRestClient}
use rito.Rest.Client

pub record LcuRestHandler : Type 0 where
  pub client : Option HttpsRestClient
  pub process_handler : LcuProcessHandler

-- The handler, and what lies outside the program.
pub record LcuState (W : Type 0) : Type 0 where
  pub handler : LcuRestHandler
  pub open handler use *
  pub world : W

abbrev pub localhost : Bytes
localhost = codes "127.0.0.1"

abbrev pub lcu_user : Bytes
lcu_user = codes "riot"

-- The constructor: the process handler has its default directory.
abbrev pub create : LcuRestHandler
create = record { client = none; process_handler = Handler.create default_proc_dir }

module _ {W : Type 0} (api : HttpApi W) (files : W → FileSystem) where
  abbrev pub outside : {A : Type 0} → Act W A → Act (LcuState W) A
  outside m s = let (r, w) = m s.world in (r, record s { world = w })

  abbrev pub with_client : HttpsRestClient → LcuState W → LcuState W
  with_client c s = record s { handler = record (s.handler) { client = some c } }

  abbrev pub reset_client : HttpsRestClient → LcuState W → LcuState W
  reset_client c s = record s {
    handler = record (s.handler) { client = none };
    world = api.close_session c.session s.world;
  }

  abbrev pub parameters : Act (LcuState W) LcuParameters
  parameters s = (get_lcu_process_parameters (files s.world) s.process_handler, s)

  -- Returns the client that it has put into `m_client`.
  unfoldable pub attempt_reconnect : Act (LcuState W) HttpsRestClient
  attempt_reconnect = do
    ps ← parameters
    c ← outside (Client.create api localhost ps.app_port)
    λ s.
        let c' = Client.set_credentials api c lcu_user ps.remoting_auth_token in
        (ok c', with_client c' s)

  -- `m_client->request`, on the client at hand, with no headers.
  abbrev pub send_request : HttpsRestClient → RequestType → Bytes → Act (LcuState W) HttpResponse
  send_request c type message = outside (Client.request api c type message [])

  -- `catch (...)`
  abbrev pub drop_client : HttpsRestClient → Thrown → Act (LcuState W) (Option HttpResponse)
  drop_client c e s = (ok none, reset_client c s)

  -- The first `if`: a response where it returns.
  unfoldable pub first_try : RequestType → Bytes → Act (LcuState W) (Option HttpResponse)
  first_try type message s = elim s.client [
    | none ↦ (ok none, s)
    | some c ↦ try_catch (do r ← send_request c type message; pure (some r)) (drop_client c) s
  ]

  -- The second `if`, and the throw behind it.
  unfoldable pub last_try : RequestType → Bytes → Act (LcuState W) HttpResponse
  unfolding attempt_reconnect
  last_try type message s = elim s.client [
    | none ↦ (do c ← attempt_reconnect; send_request c type message) s
    | some _ ↦ (throw (unknown_exception (codes "Unexpected error")), s)
  ]

  unfoldable pub request : RequestType → Bytes → Act (LcuState W) HttpResponse
  unfolding first_try last_try
  request type message = do
    early ← first_try type message
    elim early [ some r ↦ pure r | none ↦ last_try type message ]

  -- The destructor, which ends the client's session.
  unfoldable pub destroy : LcuState W → W
  destroy s = elim s.client [ none ↦ s.world | some c ↦ api.close_session c.session s.world ]
