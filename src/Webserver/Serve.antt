-- ===== src/Webserver/Serve.antt =====
-- moonshine-core/src/webserver/mod.rs: `serve`, which sends a request to its handler, and the check of
-- the client's certificate in front of some of them.
pub mod Guard
pub mod History
use moonshine.Common.{ℕ, Bool, true, false, Option, none, some, List, [], ◌∷◌, if◌then◌else◌}
use moonshine.Common.Text.{codes}
use moonshine.Clients.{Crypto, ClientManager, same_bytes, is_cert_paired}
use moonshine.Session.Manager.{Manager}
use moonshine.Webserver.Query.{Codecs, Params, Response, bad_request, unauthorized, not_found}
use moonshine.Webserver.Pairing.{Surroundings, handle_pair_request, submit_pin}
use moonshine.Webserver.Launch.{Config, IpAddr, Host, launch, resume, cancel}
use moonshine.Webserver.Info.{app_list, app_asset, server_info, pin, unpair}

pub data Method : Type 0 where
  get post other : Method

-- A request and the connection that it comes on; `form` is what `submit_pin` can read of its body.
pub record Request : Type 0 where
  pub https : Bool
  pub method : Method
  pub path : List ℕ
  pub params : Params
  pub form : Option Params
  pub peer_cert_fingerprint : Option (List ℕ)
  pub local_address : Option IpAddr
  pub mac_address : Option (List ℕ)

-- What a request meets outside of the two managers.
pub record Outside : Type 0 where
  pub pairing : Surroundings
  pub host : Host
  pub image : List ℕ → Option (List ℕ)

-- The two managers that the handlers share.
pub record Managers : Type 0 where
  pub clients : ClientManager
  pub sessions : Manager

-- The arms of the two matches in `serve`
pub data Route : Type 0 where
  to_server_info to_app_list to_app_asset to_pair to_unpair to_launch to_resume to_cancel to_pin :
      Route
  to_submit_pin to_nothing : Route

unfoldable pub https_route : Method → List ℕ → Route
https_route get path =
    if same_bytes path (codes "/serverinfo")
    then to_server_info
    else if same_bytes path (codes "/applist")
    then to_app_list
    else if same_bytes path (codes "/appasset")
    then to_app_asset
    else if same_bytes path (codes "/pair")
    then to_pair
    else if same_bytes path (codes "/unpair")
    then to_unpair
    else if same_bytes path (codes "/launch")
    then to_launch
    else if same_bytes path (codes "/resume")
    then to_resume
    else if same_bytes path (codes "/cancel")
    then to_cancel
    else to_nothing
https_route post path = to_nothing
https_route other path = to_nothing

unfoldable pub http_route : Method → List ℕ → Route
http_route get path =
    if same_bytes path (codes "/serverinfo")
    then to_server_info
    else if same_bytes path (codes "/pair")
    then to_pair
    else if same_bytes path (codes "/pin")
    then to_pin
    else if same_bytes path (codes "/unpair")
    then to_unpair
    else to_nothing
http_route post path = if same_bytes path (codes "/submit-pin") then to_submit_pin else to_nothing
http_route other path = to_nothing

abbrev pub route : Request → Route
route r = if r.https then https_route r.method r.path else http_route r.method r.path

-- `verify_paired_client`, where the lock can be taken
unfoldable pub verify_paired_client : Option (List ℕ) → ClientManager → Option Response
verify_paired_client none clients = some unauthorized
verify_paired_client (some fingerprint) clients =
    if is_cert_paired fingerprint clients then none else some unauthorized

-- `if let Some(resp) = self.verify_paired_client(…) { return Ok(resp); }`
abbrev pub guarded :
    Option Response → Managers → (Managers → Managers × Response) → Managers × Response
guarded none m handler = handler m
guarded (some response) m handler = (m, response)

abbrev pub with_clients : Managers → ClientManager × Response → Managers × Response
with_clients m (clients, response) = (record m { clients = clients }, response)

abbrev pub with_sessions : Managers → Manager × Response → Managers × Response
with_sessions m (sessions, response) = (record m { sessions = sessions }, response)

-- `if !self.webserver_config.enable_pairing`
abbrev pub if_pairing : Bool → Managers → (Managers → Managers × Response) → Managers × Response
if_pairing true m handler = handler m
if_pairing false m handler = (m, bad_request)

module _ (crypto : Crypto) (codecs : Codecs) (config : Config) where
  unfoldable pub handle : Route → Request → Outside → Managers → Managers × Response
  handle to_server_info r o m =
      (m, server_info config r.params r.local_address r.mac_address r.https m.clients m.sessions)
  handle to_app_list r o m =
      guarded (verify_paired_client r.peer_cert_fingerprint m.clients) m
        (λ m'. (m', app_list config))
  handle to_app_asset r o m =
      guarded (verify_paired_client r.peer_cert_fingerprint m.clients) m
        (λ m'. (m', app_asset config o.image r.params))
  handle to_pair r o m =
      if_pairing config.enable_pairing m
        (λ m'. with_clients m' (handle_pair_request crypto codecs r.params o.pairing m'.clients))
  handle to_unpair r o m = (m, unpair)
  handle to_launch r o m =
      guarded (verify_paired_client r.peer_cert_fingerprint m.clients) m
        (λ m'. with_sessions m' (launch codecs config r.params r.local_address o.host m'.sessions))
  handle to_resume r o m =
      guarded (verify_paired_client r.peer_cert_fingerprint m.clients) m
        (λ m'. with_sessions m' (resume codecs config r.params r.local_address m'.sessions))
  handle to_cancel r o m =
      guarded (verify_paired_client r.peer_cert_fingerprint m.clients) m
        (λ m'. with_sessions m' (cancel o.host m'.sessions))
  handle to_pin r o m = if_pairing config.enable_pairing m (λ m'. (m', pin config r.params))
  handle to_submit_pin r o m =
      if_pairing config.enable_pairing m
        (λ m'. with_clients m' (submit_pin crypto codecs r.form m'.clients))
  handle to_nothing r o m = (m, not_found)

  -- `serve`
  unfoldable pub serve : Request → Outside → Managers → Managers × Response
  serve r o m = handle (route r) r o m

  -- One request after the other
  unfoldable pub serve_all : List (Request × Outside) → Managers → Managers
  serve_all [] m = m
  serve_all ((r, o) ∷ rest) m = serve_all rest (serve r o m).0
