-- ===== src/Webserver/Serve/Guard.antt =====
-- webserver/mod.rs, `serve`: only a client that was paired reaches the session.
use moonshine.Common.{
  ◌≡◌, ◌⊎◌, inl, inr, refl, ℕ, Bool, true, false, Option, none, some, List, arith, Bool-cases,
}
use moonshine.Clients.{Crypto, ClientManager, is_cert_paired}
use moonshine.Webserver.Query.{Codecs, Response}
use moonshine.Webserver.Launch.{Config}
use moonshine.Webserver.Serve.{
  Method, get, post, other, Request, Outside, Managers, Route, to_server_info, to_app_list,
  to_app_asset, to_pair, to_unpair, to_launch, to_resume, to_cancel, to_pin, to_submit_pin,
  to_nothing, http_route, route, verify_paired_client, guarded, handle, serve,
}

-- The routes that change the session
abbrev is_control : Route → Bool
is_control to_launch = true
is_control to_resume = true
is_control to_cancel = true
is_control to_server_info = false
is_control to_app_list = false
is_control to_app_asset = false
is_control to_pair = false
is_control to_unpair = false
is_control to_pin = false
is_control to_submit_pin = false
is_control to_nothing = false

-- The client of the request has the certificate of a paired client.
abbrev pub IsKnown : Option (List ℕ) → ClientManager → Type 0
IsKnown peer clients =
    (fingerprint : List ℕ) × (peer ≡ some fingerprint) × (is_cert_paired fingerprint clients ≡ true)

guarded-sessions :
    (peer : Option (List ℕ)) (m : Managers) (handler : Managers → Managers × Response)
    → ((guarded (verify_paired_client peer m.clients) m handler).0.sessions ≡ m.sessions)
      ⊎ IsKnown peer m.clients
unfolding verify_paired_client
guarded-sessions none m handler = inl refl
guarded-sessions (some fingerprint) m handler =
    elim (Bool-cases (is_cert_paired fingerprint m.clients)) [
      | inl known ↦ inr (fingerprint, refl, known)
      | inr unknown ↦ inl (rw unknown refl)
    ]

guarded-clients :
    (peer : Option (List ℕ)) (m : Managers) (handler : Managers → Managers × Response)
    → (handler m).0.clients ≡ m.clients
    → (guarded (verify_paired_client peer m.clients) m handler).0.clients ≡ m.clients
unfolding verify_paired_client
guarded-clients none m handler h = refl
guarded-clients (some fingerprint) m handler h = ground (arith, h)

-- Without TLS there is no route to the session.
http_route-control : (method : Method) (path : List ℕ) → is_control (http_route method path) ≡ false
unfolding http_route
http_route-control get path = ground arith
http_route-control post path = ground arith
http_route-control other path = refl

-- A request over TLS with the certificate of a paired client
abbrev pub IsTrusted : Request → ClientManager → Type 0
IsTrusted r clients = (r.https ≡ true) × IsKnown r.peer_cert_fingerprint clients

module _ (crypto : Crypto) (codecs : Codecs) (config : Config) where
  handle-sessions :
      (to : Route) (r : Request) (o : Outside) (m : Managers)
      → is_control to ≡ false
      → (handle crypto codecs config to r o m).0.sessions ≡ m.sessions
  unfolding handle
  handle-sessions to r o m h = ground arith

  control-sessions :
      (to : Route) (r : Request) (o : Outside) (m : Managers)
      → is_control to ≡ true
      → ((handle crypto codecs config to r o m).0.sessions ≡ m.sessions)
        ⊎ IsKnown r.peer_cert_fingerprint m.clients
  unfolding handle
  control-sessions to_launch r o m h = guarded-sessions r.peer_cert_fingerprint m _
  control-sessions to_resume r o m h = guarded-sessions r.peer_cert_fingerprint m _
  control-sessions to_cancel r o m h = guarded-sessions r.peer_cert_fingerprint m _
  control-sessions to_server_info r o m h = cc
  control-sessions to_app_list r o m h = cc
  control-sessions to_app_asset r o m h = cc
  control-sessions to_pair r o m h = cc
  control-sessions to_unpair r o m h = cc
  control-sessions to_pin r o m h = cc
  control-sessions to_submit_pin r o m h = cc
  control-sessions to_nothing r o m h = cc

  -- A request leaves the session as it is or is trusted.
  pub serve-IsTrusted :
      (r : Request) (o : Outside) (m : Managers)
      → ((serve crypto codecs config r o m).0.sessions ≡ m.sessions) ⊎ IsTrusted r m.clients
  unfolding serve
  serve-IsTrusted r o m = elim (Bool-cases (is_control (route r))) [
    | inr harmless ↦ inl (handle-sessions (route r) r o m harmless)
    | inl control ↦ elim (Bool-cases r.https) [
      | inr open_line ↦
          inl (handle-sessions (route r) r o m (rw open_line (http_route-control r.method r.path)))
      | inl secure ↦ elim (control-sessions (route r) r o m control) [
        | inl same ↦ inl same
        | inr known ↦ inr (secure, known)
      ]
    ]
  ]
