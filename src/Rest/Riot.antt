-- ===== src/Rest/Riot.antt =====
-- src/riot_rest_handler.cpp and include/rito/riot_rest_handler.h.
pub mod Retry
pub mod Sends
pub mod Sessions
use rito.Common.{Option, none, some, [], ◌∷◌, Bytes, codes, if◌then◌else◌}
use rito.Exception.{Thrown, no_region_selected_exception, unknown_exception, std_what}
use rito.Result.{Result, ok, throw}
use rito.Act.{Act, Done, pure, ◌>>=◌, try_catch}
use rito.Types.{RequestType, HttpResponse, https_port}
use rito.Rest.Client.{HttpApi, HttpsRestClient}
use rito.Rest.Client
use rito.Rest.Region
use rito.Rest.Region.{Region, is_none, get_host_by_region}

pub record RiotRestHandler : Type 0 where
  pub region : Region
  pub api_key : Bytes
  pub client : Option HttpsRestClient

-- The handler, and what lies outside the program.
pub record RiotState (W : Type 0) : Type 0 where
  pub handler : RiotRestHandler
  pub open handler use *
  pub world : W

-- The constructor.
abbrev pub create : Bytes → RiotRestHandler
create api_key = record { region = Region.none; api_key = api_key; client = none }

unfoldable pub set_region : {W : Type 0} → Region → RiotState W → RiotState W
set_region region s = record s { handler = record (s.handler) { region = region } }

abbrev pub token_header : Bytes
token_header = codes "X-Riot-Token"

abbrev pub no_region_text : Bytes
no_region_text = codes "You have to select region first"

module _ {W : Type 0} (api : HttpApi W) where
  -- An action on what lies outside, as a step of the handler.
  abbrev pub outside : {A : Type 0} → Act W A → Act (RiotState W) A
  outside m s = let (r, w) = m s.world in (r, record s { world = w })

  -- `m_client->request`, on the client at hand.
  unfoldable pub send_request :
      HttpsRestClient → RequestType → Bytes → Act (RiotState W) HttpResponse
  send_request c type message s =
      outside (Client.request api c type message ((token_header, s.api_key) ∷ [])) s

  abbrev pub with_client : HttpsRestClient → RiotState W → RiotState W
  with_client c s = record s { handler = record (s.handler) { client = some c } }

  -- `m_client.reset()`, where it holds `c`.
  abbrev pub reset_client : HttpsRestClient → RiotState W → RiotState W
  reset_client c s = record s {
    handler = record (s.handler) { client = none };
    world = api.close_session c.session s.world;
  }

  -- Returns the client that it has put into `m_client`.
  unfoldable pub attempt_reconnect : Act (RiotState W) HttpsRestClient
  unfolding is_none get_host_by_region
  attempt_reconnect s =
      if is_none s.region
      then (throw (no_region_selected_exception no_region_text), s)
      else (do
        c ← outside (Client.create api (get_host_by_region s.region) https_port)
        λ t. (ok c, with_client c t))
          s

  -- `catch (std::exception&)`
  abbrev pub drop_client : HttpsRestClient → Thrown → Act (RiotState W) (Option HttpResponse)
  drop_client c e s = elim (std_what e) [
    | none ↦ (throw e, s)
    | some _ ↦ (ok none, reset_client c s)
  ]

  -- The first `if`: a response where it returns.
  unfoldable pub first_try : RequestType → Bytes → Act (RiotState W) (Option HttpResponse)
  unfolding send_request
  first_try type message s = elim s.client [
    | none ↦ (ok none, s)
    | some c ↦ try_catch (do r ← send_request c type message; pure (some r)) (drop_client c) s
  ]

  -- The second `if`, and the throw behind it.
  unfoldable pub last_try : RequestType → Bytes → Act (RiotState W) HttpResponse
  unfolding attempt_reconnect send_request
  last_try type message s = elim s.client [
    | none ↦ (do c ← attempt_reconnect; send_request c type message) s
    | some _ ↦ (throw (unknown_exception (codes "Unexpected error")), s)
  ]

  unfoldable pub request : RequestType → Bytes → Act (RiotState W) HttpResponse
  unfolding first_try last_try
  request type message = do
    early ← first_try type message
    elim early [ some r ↦ pure r | none ↦ last_try type message ]

  -- The destructor, which ends the client's session.
  unfoldable pub destroy : RiotState W → W
  destroy s = elim s.client [ none ↦ s.world | some c ↦ api.close_session c.session s.world ]
