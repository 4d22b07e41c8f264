-- ===== src/Clients/Persist.antt =====
-- clients.rs: a certificate is paired only by a client that proved what it has to.
use moonshine.Common.{
  ℕ, ◌≤◌, ◌++◌, length, take, drop, ◌≡◌, ◌⊎◌, inl, inr, refl, ap, ◌∙◌, Bool, true, some, List, [],
  ◌∷◌, arith, Bool-cases, Option-cases,
}
use moonshine.Common.Results.{ok, Result-cases}
use moonshine.Clients.{
  Crypto, hashed, PendingClient, StateData, ClientManager, same_bytes, contains, find,
  is_cert_paired, add_client, add_paired_cert, start_pairing, register_pin, client_challenge,
  server_challenge_response, verify_pairing_secret, persist_cert, check_client_pairing_secret,
}
use moonshine.Clients.Events.{
  is_some, AllOrdered, find-IsOrdered, Event, starts, pins, challenges, responds, finishes, receive,
  receive_all, receive-AllOrdered,
}

same_bytes-eq : (xs ys : List ℕ) → same_bytes xs ys ≡ true → xs ≡ ys
same_bytes-eq [] [] e = refl
same_bytes-eq [] (y ∷ ys) e = cc
same_bytes-eq (x ∷ xs) [] e = cc
same_bytes-eq (x ∷ xs) (y ∷ ys) e = ground (arith, same_bytes-eq xs ys)

module _ (crypto : Crypto) where
  open crypto use {sha256, certificate_signature, verify_client_signature, cert_pem_fingerprint}

  -- The secret's first sixteen bytes, hashed with the server's challenge and the certificate's
  -- signature, give the hash that the client sent before, and the rest is their signature.
  abbrev pub IsVerified : PendingClient → List ℕ → Type 0
  IsVerified c secret =
      (hash : List ℕ) × (challenge : List ℕ) × (signature : List ℕ) × (c.client_hash ≡ some hash)
      × (c.server_challenge ≡ some challenge)
      × (certificate_signature c.pem ≡ some signature)
      × (sha256 (challenge ++ (signature ++ take 16 secret)) ≡ hash)
      × (16 ≤ length secret)
      × (verify_client_signature c.pem (take 16 secret) (drop 16 secret) ≡ true)

  verify-IsVerified :
      (c : PendingClient) (secret : List ℕ)
      → verify_pairing_secret crypto c secret ≡ ok tt
      → IsVerified c secret
  unfolding verify_pairing_secret hashed
  verify-IsVerified c secret e = elim (Option-cases c.client_hash) [
    | inl missing ↦ absurd (ground (arith, missing))
    | inr (hash, h) ↦ elim (Option-cases c.server_challenge) [
      | inl missing ↦ absurd (ground (arith, h, missing))
      | inr (challenge, s) ↦ elim (Option-cases (certificate_signature c.pem)) [
        | inl missing ↦ absurd (ground (arith, h, s, missing))
        | inr (signature, g) ↦ (
          hash,
          challenge,
          signature,
          h,
          s,
          g,
          same_bytes-eq (sha256 (challenge ++ (signature ++ take 16 secret))) hash
              (ground (arith, h, s, g)),
          ground (arith, h, s, g),
          ground (arith, h, s, g),
        )
      ]
    ]
  ]

  -- The certificate with this fingerprint is that of a pending client that entered its PIN, and whose
  -- secret is verified.
  abbrev pub HasProved : ClientManager → List ℕ → List ℕ → List ℕ → Type 0
  HasProved m id secret fingerprint =
      (c : PendingClient) × (find id m.pending_clients ≡ some c)
      × (cert_pem_fingerprint c.pem ≡ some fingerprint)
      × IsVerified c secret
      × (is_some c.key ≡ true)

  abbrev pub Proves : Event crypto → ClientManager → List ℕ → Type 0
  Proves (finishes id secret saved_cert saved_client) m fingerprint =
      HasProved m id secret fingerprint
  Proves e m fingerprint = ⊥

  -- One of the events does that, in the state that those before it leave.
  abbrev pub OneProves : List (Event crypto) → ClientManager → List ℕ → Type 0
  OneProves [] m fingerprint = ⊥
  OneProves (e ∷ es) m fingerprint =
      Proves e m fingerprint ⊎ OneProves es (receive crypto e m) fingerprint

  verify-hash :
      (c : PendingClient) (secret : List ℕ)
      → verify_pairing_secret crypto c secret ≡ ok tt
      → is_some c.client_hash ≡ true
  unfolding verify_pairing_secret
  verify-hash c secret e = ground arith

  persist_cert-adds :
      (c : PendingClient) (saved : Bool) (s : StateData) (fingerprint : List ℕ)
      → contains (persist_cert crypto c saved s).0.paired_certs fingerprint ≡ true
      → (contains s.paired_certs fingerprint ≡ true)
        ⊎ (cert_pem_fingerprint c.pem ≡ some fingerprint)
  unfolding persist_cert add_paired_cert
  persist_cert-adds c saved s fingerprint h = elim (Option-cases (cert_pem_fingerprint c.pem)) [
    | inl e ↦ inl (ground (arith, e))
    | inr (added, e) ↦ elim (Bool-cases (contains s.paired_certs added)) [
      | inl old ↦ inl (ground (arith, e, old))
      | inr fresh ↦ elim (Bool-cases (same_bytes added fingerprint)) [
        | inl same ↦ inr (e ∙ ap some (same_bytes-eq added fingerprint same))
        | inr other ↦ inl (ground (arith, e, fresh, other))
      ]
    ]
  ]

  check-certs :
      (id secret : List ℕ) (saved_cert saved_client : Bool) (m : ClientManager) (c : PendingClient)
      → find id m.pending_clients ≡ some c
      → verify_pairing_secret crypto c secret ≡ ok tt
      → (check_client_pairing_secret crypto id secret saved_cert saved_client
          m).0.state.paired_certs
        ≡ (persist_cert crypto c saved_cert m.state).0.paired_certs
  unfolding check_client_pairing_secret add_client
  check-certs id secret saved_cert saved_client m c e v = ground (arith, e, v)

  pub receive-Proves :
      (e : Event crypto) (m : ClientManager) (fingerprint : List ℕ)
      → AllOrdered m.pending_clients
      → is_cert_paired fingerprint (receive crypto e m) ≡ true
      → (is_cert_paired fingerprint m ≡ true) ⊎ Proves e m fingerprint
  unfolding is_cert_paired receive start_pairing register_pin client_challenge
      server_challenge_response
  receive-Proves (starts id pem salt) m fingerprint o h = inl h
  receive-Proves (pins id pin) m fingerprint o h = inl (ground arith)
  receive-Proves (challenges id challenge secret server_challenge) m fingerprint o h =
      inl (ground arith)
  receive-Proves (responds id response) m fingerprint o h = inl (ground arith)
  receive-Proves (finishes id secret saved_cert saved_client) m fingerprint o h =
      elim (Option-cases (find id m.pending_clients)) [
        | inl e ↦ inl (unfold check_client_pairing_secret in ground (arith, e))
        | inr (c, e) ↦ elim (Result-cases (verify_pairing_secret crypto c secret)) [
          | inr failed ↦ inl (unfold check_client_pairing_secret in ground (arith, e, failed))
          | inl (_, v) ↦
              let ordered = find-IsOrdered id m.pending_clients c o e in
              let certs = check-certs id secret saved_cert saved_client m c e v in
              elim (persist_cert-adds c saved_cert m.state fingerprint (rw certs at h)) [
                | inl old ↦ inl old
                | inr added ↦ inr (
                  c,
                  e,
                  added,
                  verify-IsVerified c secret v,
                  ordered.hash (verify-hash c secret v),
                )
              ]
        ]
      ]

  -- Whatever requests and PINs come in, in whatever order, and whether the state can be saved or
  -- not: a certificate is paired at the end only if it was at the start or one of the requests was
  -- the last step of a pending client with this certificate, made after its PIN was entered, whose
  -- secret agreed with the hash sent before and had a signature that the certificate verifies.
  pub paired-proved :
      (es : List (Event crypto)) (m : ClientManager) (fingerprint : List ℕ)
      → AllOrdered m.pending_clients
      → is_cert_paired fingerprint (receive_all crypto es m) ≡ true
      → (is_cert_paired fingerprint m ≡ true) ⊎ OneProves es m fingerprint
  unfolding receive_all
  paired-proved [] m fingerprint o h = inl h
  paired-proved (e ∷ es) m fingerprint o h =
      elim (paired-proved es (receive crypto e m) fingerprint (receive-AllOrdered crypto e m o) h) [
        | inr later ↦ inr (inr later)
        | inl now ↦ elim (receive-Proves e m fingerprint o now) [
          | inl before ↦ inl before
          | inr proved ↦ inr (inl proved)
        ]
      ]
