-- ===== src/Webserver/Serve/History.antt =====
-- webserver/mod.rs: a series of requests, and how the client that reaches the session came to be paired.
use moonshine.Common.{
  ◌≡◌, ◌⊎◌, inl, inr, refl, sym, ap, ◌∙◌, ℕ, true, some, List, [], ◌∷◌, ◌++◌, arith, if◌then◌else◌,
}
use moonshine.Clients.{Crypto, ClientManager, is_cert_paired}
use moonshine.Clients.Events.{AllOrdered}
use moonshine.Webserver.Query.{Codecs}
use moonshine.Webserver.Pairing.Trust.{
  Arrival, query, pin, OneAsks, serve as take_arrival, serve_all as take_arrivals,
  serve_all-OneAsks,
}
use moonshine.Webserver.Launch.{Config}
use moonshine.Webserver.Serve.{
  Request, Outside, Managers, Route, to_server_info, to_app_list, to_app_asset, to_pair, to_unpair,
  to_launch, to_resume, to_cancel, to_pin, to_submit_pin, to_nothing, route, handle, serve,
  serve_all,
}
use moonshine.Webserver.Serve.Guard.{IsTrusted, serve-IsTrusted}

module _ (crypto : Crypto) (codecs : Codecs) (config : Config) where
  -- The part of a request that concerns the pairing
  abbrev routed : Route → Request → Outside → List (Arrival crypto codecs)
  routed to_pair r o = if config.enable_pairing then query r.params o.pairing ∷ [] else []
  routed to_submit_pin r o = if config.enable_pairing then pin r.form ∷ [] else []
  routed to_server_info r o = []
  routed to_app_list r o = []
  routed to_app_asset r o = []
  routed to_unpair r o = []
  routed to_launch r o = []
  routed to_resume r o = []
  routed to_cancel r o = []
  routed to_pin r o = []
  routed to_nothing r o = []

  unfoldable pub arrivals : List (Request × Outside) → List (Arrival crypto codecs)
  arrivals [] = []
  arrivals ((r, o) ∷ rest) = routed (route r) r o ++ arrivals rest

  handle-clients :
      (to : Route) (r : Request) (o : Outside) (m : Managers)
      → (handle crypto codecs config to r o m).0.clients
        ≡ take_arrivals crypto codecs (routed to r o) m.clients
  unfolding handle take_arrivals take_arrival
  handle-clients to r o m = ground arith

  take_arrivals-append :
      (xs ys : List (Arrival crypto codecs)) (m : ClientManager)
      → take_arrivals crypto codecs (xs ++ ys) m
        ≡ take_arrivals crypto codecs ys (take_arrivals crypto codecs xs m)
  unfolding take_arrivals
  take_arrivals-append [] ys m = refl
  take_arrivals-append (x ∷ xs) ys m = take_arrivals-append xs ys (take_arrival crypto codecs x m)

  -- The clients after a series of requests are those that its pairing requests leave.
  serve_all-clients :
      (rs : List (Request × Outside)) (m : Managers)
      → (serve_all crypto codecs config rs m).clients
        ≡ take_arrivals crypto codecs (arrivals rs) m.clients
  unfolding serve_all arrivals serve take_arrivals
  serve_all-clients [] m = refl
  serve_all-clients ((r, o) ∷ rest) m =
      serve_all-clients rest (handle crypto codecs config (route r) r o m).0
      ∙ ap (take_arrivals crypto codecs (arrivals rest)) (handle-clients (route r) r o m)
      ∙ sym (take_arrivals-append (routed (route r) r o) (arrivals rest) m.clients)

  -- A series up to a request that is trusted when it comes
  abbrev pub Reaches : List (Request × Outside) → Managers → Type 0
  Reaches rs m =
      (before : List (Request × Outside)) × (r : Request) × (o : Outside) × (after : List
        (Request × Outside))
      × (rs ≡ before ++ ((r, o) ∷ after))
      × IsTrusted r (serve_all crypto codecs config before m).clients

  serve_all-Reaches :
      (rs : List (Request × Outside)) (m : Managers)
      → ((serve_all crypto codecs config rs m).sessions ≡ m.sessions) ⊎ Reaches rs m
  unfolding serve_all
  serve_all-Reaches [] m = inl refl
  serve_all-Reaches ((r, o) ∷ rest) m = elim (serve-IsTrusted crypto codecs config r o m) [
    | inr trusted ↦ inr ([], r, o, rest, refl, trusted)
    | inl same ↦ elim (serve_all-Reaches rest (serve crypto codecs config r o m).0) [
      | inl later ↦ inl (later ∙ same)
      | inr (before, r', o', after, shape, trusted) ↦ inr (
        (r, o) ∷ before,
        r',
        o',
        after,
        ap (λ (l : List (Request × Outside)). (r, o) ∷ l) shape,
        trusted,
      )
    ]
  ]

  -- A request over TLS that shows a certificate paired at the start or proved by a query before it
  abbrev pub OneTrusted : List (Request × Outside) → Managers → Type 0
  OneTrusted rs m =
      (before : List (Request × Outside)) × (r : Request) × (o : Outside) × (after : List
        (Request × Outside))
      × (fingerprint : List ℕ) × (rs ≡ before ++ ((r, o) ∷ after))
      × (r.https ≡ true)
      × (r.peer_cert_fingerprint ≡ some fingerprint)
      × ((is_cert_paired fingerprint m.clients ≡ true)
          ⊎ OneAsks crypto codecs (arrivals before) m.clients fingerprint)

  -- Whatever requests come in, over HTTP or HTTPS, and whatever happens outside: the session manager
  -- is at the end as it was at the start, or one of the requests came over HTTPS with a certificate
  -- that was paired at the start, or that one of the queries before it proved in the last step of a
  -- pairing.
  pub serve_all-OneTrusted :
      (rs : List (Request × Outside)) (m : Managers)
      → AllOrdered m.clients.pending_clients
      → ((serve_all crypto codecs config rs m).sessions ≡ m.sessions) ⊎ OneTrusted rs m
  serve_all-OneTrusted rs m ordered = elim (serve_all-Reaches rs m) [
    | inl same ↦ inl same
    | inr (before, r, o, after, shape, (secure, (fingerprint, shown, known))) ↦ inr (
      before,
      r,
      o,
      after,
      fingerprint,
      shape,
      secure,
      shown,
      serve_all-OneAsks crypto codecs (arrivals before) m.clients fingerprint ordered
          (rw (sym (serve_all-clients before m)) known),
    )
  ]
