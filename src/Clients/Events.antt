-- ===== src/Clients/Events.antt =====
-- clients.rs: what reaches the manager as events, and in which order a client gets its parts.
use moonshine.Common.{
  ℕ, ◌≡◌, inl, inr, Bool, true, false, Option, none, some, List, [], ◌∷◌, arith, Option-cases,
}
use moonshine.Common.Results.{Result-cases}
use moonshine.Clients.{
  Crypto, create_key, aes_decrypt_ecb, PendingClient, ClientManager, find, insert, start_pairing,
  register_pin, client_challenge, server_challenge_response, check_client_pairing_secret,
}

abbrev pub is_some {ℓ} : {A : Type ℓ} → Option A → Bool
is_some none = false
is_some (some a) = true

-- A client has a hash or a challenge only after its PIN.
pub record IsOrdered (c : PendingClient) : Type 0 where
  pub hash : is_some c.client_hash ≡ true → is_some c.key ≡ true
  pub challenge : is_some c.server_challenge ≡ true → is_some c.key ≡ true

abbrev pub AllOrdered : List PendingClient → Type 0
AllOrdered [] = Unit {0}
AllOrdered (c ∷ cs) = IsOrdered c × AllOrdered cs

pub insert-AllOrdered :
    (c : PendingClient) (cs : List PendingClient)
    → IsOrdered c
    → AllOrdered cs
    → AllOrdered (insert c cs)
unfolding insert
insert-AllOrdered c [] h hs = (h, tt)
insert-AllOrdered c (d ∷ ds) h hs = ground (arith, insert-AllOrdered c ds h hs.1)

pub find-IsOrdered :
    (id : List ℕ) (cs : List PendingClient) (c : PendingClient)
    → AllOrdered cs
    → find id cs ≡ some c
    → IsOrdered c
unfolding find
find-IsOrdered id [] c hs e = cc
find-IsOrdered id (d ∷ ds) c hs e = ground (arith, find-IsOrdered id ds c hs.1)

module _ (crypto : Crypto) where
  open crypto use {sha256, certificate_signature, verify_client_signature, cert_pem_fingerprint}

  -- What reaches the manager: a first request of any client, a PIN that the user enters, and the
  -- further steps of any client, with the bytes that the server draws for them.
  pub data Event : Type 0 where
    starts : List ℕ → List ℕ → List ℕ → Event
    pins : List ℕ → List ℕ → Event
    challenges : List ℕ → List ℕ → List ℕ → List ℕ → Event
    responds : List ℕ → List ℕ → Event
    finishes : List ℕ → List ℕ → Bool → Bool → Event

  -- The pending client of a first request (`get_server_cert`).
  abbrev pub fresh_client : List ℕ → List ℕ → List ℕ → PendingClient
  fresh_client id pem salt = record {
    id = id;
    pem = pem;
    salt = salt;
    key = none;
    server_secret = none;
    server_challenge = none;
    client_hash = none;
  }

  unfoldable pub receive : Event → ClientManager → ClientManager
  receive (starts id pem salt) m = start_pairing crypto (fresh_client id pem salt) m
  receive (pins id pin) m = (register_pin crypto id pin m).0
  receive (challenges id challenge secret server_challenge) m =
      (client_challenge crypto id challenge secret server_challenge m).0
  receive (responds id response) m = (server_challenge_response crypto id response m).0
  receive (finishes id secret saved_cert saved_client) m =
      (check_client_pairing_secret crypto id secret saved_cert saved_client m).0

  unfoldable pub receive_all : List Event → ClientManager → ClientManager
  receive_all [] m = m
  receive_all (e ∷ es) m = receive_all es (receive e m)

  pub receive-AllOrdered :
      (e : Event) (m : ClientManager)
      → AllOrdered m.pending_clients
      → AllOrdered (receive e m).pending_clients
  unfolding receive start_pairing register_pin client_challenge server_challenge_response
      check_client_pairing_secret
  receive-AllOrdered (starts id pem salt) m h =
      insert-AllOrdered (fresh_client id pem salt) m.pending_clients
        (record { hash = λ e. cc; challenge = λ e. cc }) h
  receive-AllOrdered (pins id pin) m h = elim (Option-cases (find id m.pending_clients)) [
    | inl e ↦ ground (arith, e)
    | inr (c, e) ↦ ground (
      arith,
      e,
      insert-AllOrdered (record c { key = some (create_key crypto c.salt pin) }) m.pending_clients,
    )
  ]
  receive-AllOrdered (challenges id challenge secret server_challenge) m h =
      elim (Option-cases (find id m.pending_clients)) [
        | inl e ↦ ground (arith, e)
        | inr (c, e) ↦
            let old = find-IsOrdered id m.pending_clients c h e in
            let c' : PendingClient = record c { server_secret = some secret } in
            let c'' : PendingClient = record c' { server_challenge = some server_challenge } in
            ground (
              arith,
              e,
              insert-AllOrdered c' m.pending_clients,
              insert-AllOrdered c'' m.pending_clients,
            )
      ]
  receive-AllOrdered (responds id response) m h = elim (Option-cases (find id m.pending_clients)) [
    | inl e ↦ ground (arith, e)
    | inr (c, e) ↦ elim (Option-cases c.key) [
      | inl k ↦ ground (arith, e, k)
      | inr (key, k) ↦ elim (Result-cases (aes_decrypt_ecb crypto response key)) [
        | inl (hash, d) ↦
            let old = find-IsOrdered id m.pending_clients c h e in
            ground (
              arith,
              e,
              k,
              d,
              insert-AllOrdered (record c { client_hash = some hash }) m.pending_clients,
            )
        | inr failed ↦ ground (arith, e, k, failed)
      ]
    ]
  ]
  receive-AllOrdered (finishes id secret saved_cert saved_client) m h = ground arith

  pub receive_all-AllOrdered :
      (es : List Event) (m : ClientManager)
      → AllOrdered m.pending_clients
      → AllOrdered (receive_all es m).pending_clients
  unfolding receive_all
  receive_all-AllOrdered [] m h = h
  receive_all-AllOrdered (e ∷ es) m h =
      receive_all-AllOrdered es (receive e m) (receive-AllOrdered e m h)
