-- ===== src/Webserver/Pairing/Trust.antt =====
-- webserver/pairing.rs: which requests can get a certificate paired.
use moonshine.Common.{◌≡◌, ◌⊎◌, inl, inr, ℕ, Option, List, [], ◌∷◌, true}
use moonshine.Clients.{Crypto, ClientManager, is_cert_paired}
use moonshine.Clients.Events.{
  AllOrdered, Event, starts, pins, challenges, responds, finishes, receive, receive-AllOrdered,
}
use moonshine.Clients.Persist.{HasProved, Proves, receive-Proves}
use moonshine.Webserver.Query.{Codecs, Params, get_param}
use moonshine.Webserver.Pairing.{Surroundings, handle_pair_request, submit_pin}
use moonshine.Webserver.Pairing.Passes.{
  IsLast, Reads, handle_pair_request-Passes, submit_pin-Passes,
}

module _ (crypto : Crypto) (codecs : Codecs) where
  -- What comes in: queries of any client, and forms with a PIN.
  pub data Arrival : Type 0 where
    query : Params → Surroundings → Arrival
    pin : Option Params → Arrival

  unfoldable pub serve : Arrival → ClientManager → ClientManager
  serve (query params now) m = (handle_pair_request crypto codecs params now m).0
  serve (pin form) m = (submit_pin crypto codecs form m).0

  unfoldable pub serve_all : List Arrival → ClientManager → ClientManager
  serve_all [] m = m
  serve_all (a ∷ rest) m = serve_all rest (serve a m)

  abbrev pub Asks : Arrival → ClientManager → List ℕ → Type 0
  Asks (query params now) m fingerprint =
      (id : List ℕ) × (secret : List ℕ) × IsLast crypto codecs params id secret
      × HasProved crypto m id secret fingerprint
  Asks (pin form) m fingerprint = ⊥

  -- One of the arrivals does that, in the state that those before it leave.
  abbrev pub OneAsks : List Arrival → ClientManager → List ℕ → Type 0
  OneAsks [] m fingerprint = ⊥
  OneAsks (a ∷ rest) m fingerprint = Asks a m fingerprint ⊎ OneAsks rest (serve a m) fingerprint

  -- The empty query is not that of the last step.
  not_last :
      (m : ClientManager) (fingerprint : List ℕ) (e : Event crypto)
      → Reads crypto codecs [] e
      → Proves crypto e m fingerprint
      → ⊥
  unfolding get_param
  not_last m fingerprint (finishes _ _ _ _) (_, _, _, _, t, _, _) proves = absurd cc
  not_last m fingerprint (starts _ _ _) reads proves = proves
  not_last m fingerprint (pins _ _) reads proves = proves
  not_last m fingerprint (challenges _ _ _ _) reads proves = proves
  not_last m fingerprint (responds _ _) reads proves = proves

  read-Proves :
      (params : Params) (now : Surroundings) (e : Event crypto) (m : ClientManager)
      (fingerprint : List ℕ)
      → Reads crypto codecs params e
      → Proves crypto e m fingerprint
      → Asks (query params now) m fingerprint
  read-Proves params now (finishes id secret _ _) m fingerprint reads proves =
      (id, secret, reads, proves)
  read-Proves params now (starts _ _ _) m fingerprint reads proves = absurd proves
  read-Proves params now (pins _ _) m fingerprint reads proves = absurd proves
  read-Proves params now (challenges _ _ _ _) m fingerprint reads proves = absurd proves
  read-Proves params now (responds _ _) m fingerprint reads proves = absurd proves

  -- An arrival keeps the order of the steps, and pairs a certificate only if it asks for that.
  abbrev Trusted : Arrival → ClientManager → List ℕ → ClientManager → Type 0
  Trusted a m fingerprint m' =
      AllOrdered m'.pending_clients
      × (is_cert_paired fingerprint m' ≡ true
          → (is_cert_paired fingerprint m ≡ true) ⊎ Asks a m fingerprint)

  receive-Trusted :
      (a : Arrival) (m m' : ClientManager) (fingerprint : List ℕ) (e : Event crypto)
      → AllOrdered m.pending_clients
      → m' ≡ receive crypto e m
      → (Proves crypto e m fingerprint → Asks a m fingerprint)
      → Trusted a m fingerprint m'
  receive-Trusted a m m' fingerprint e o passed asks = rw passed (
    receive-AllOrdered crypto e m o,
    λ h. elim (receive-Proves crypto e m fingerprint o h) [
      | inl before ↦ inl before
      | inr proves ↦ inr (asks proves)
    ],
  )

  serve-Trusted :
      (a : Arrival) (m : ClientManager) (fingerprint : List ℕ)
      → AllOrdered m.pending_clients
      → Trusted a m fingerprint (serve a m)
  unfolding serve
  serve-Trusted (pin form) m fingerprint o = elim (submit_pin-Passes crypto codecs form m) [
    | inl same ↦ rw same (o, λ h. inl h)
    | inr (e, passed, reads) ↦
        receive-Trusted (pin form) m _ fingerprint e o passed
          (λ proves. absurd (not_last m fingerprint e reads proves))
  ]
  serve-Trusted (query params now) m fingerprint o =
      elim (handle_pair_request-Passes crypto codecs params now m) [
        | inl same ↦ rw same (o, λ h. inl h)
        | inr (e, passed, reads) ↦
            receive-Trusted (query params now) m _ fingerprint e o passed
              (λ proves. read-Proves params now e m fingerprint reads proves)
      ]

  -- Whatever queries and forms with a PIN come in, in whatever order: a certificate is paired at the end only if
  -- it was at the start or one of the queries had the name of a pending client with this certificate
  -- and a pairing secret in hex, no key of an earlier step, and came after this client's PIN, and the
  -- secret agreed with the hash sent before and had a signature that the certificate verifies.
  pub serve_all-OneAsks :
      (arrivals : List Arrival) (m : ClientManager) (fingerprint : List ℕ)
      → AllOrdered m.pending_clients
      → is_cert_paired fingerprint (serve_all arrivals m) ≡ true
      → (is_cert_paired fingerprint m ≡ true) ⊎ OneAsks arrivals m fingerprint
  unfolding serve_all
  serve_all-OneAsks [] m fingerprint o h = inl h
  serve_all-OneAsks (a ∷ rest) m fingerprint o h =
      let (kept, asked) = serve-Trusted a m fingerprint o in
      elim (serve_all-OneAsks rest (serve a m) fingerprint kept h) [
        | inr later ↦ inr (inr later)
        | inl now ↦ elim (asked now) [ inl before ↦ inl before | inr asks ↦ inr (inl asks) ]
      ]
