-- ===== src/Clients.antt =====
-- moonshine-core/src/clients.rs and state.rs: the clients that pair, and those that are paired.
pub mod Ecb
pub mod Events
pub mod Persist
pub mod Honest
use moonshine.Common.{
  ℕ, zero, suc, ◌+◌, ◌%◌, ◌==◌, Bool, true, false, not, Option, none, some, List, [], ◌∷◌, ◌++◌,
  length, take, drop, ltb, if◌then◌else◌, ◌&&◌, ◌||◌,
}
use moonshine.Common.Results.{Result, ok, err, panic, ◌>>=◌, ◌>>◌, ensure, ok_or}

-- The crates aes, sha2, x509_parser and aws_lc_rs. Certificates and keys are their PEM texts.
pub record Crypto : Type 0 where
  pub sha256 : List ℕ → List ℕ
  pub encrypt_block : List ℕ → List ℕ → List ℕ
  pub decrypt_block : List ℕ → List ℕ → List ℕ
  -- the signature in a certificate (`extract_certificate_signature`)
  pub certificate_signature : List ℕ → Option (List ℕ)
  -- `sign`: a private key and the text
  pub sign : List ℕ → List ℕ → Option (List ℕ)
  -- a certificate, the text and its signature (`verify_client_signature`)
  pub verify_client_signature : List ℕ → List ℕ → List ℕ → Bool
  pub cert_pem_fingerprint : List ℕ → Option (List ℕ)

abbrev pub same_bytes : List ℕ → List ℕ → Bool
same_bytes [] [] = true
same_bytes [] (y ∷ ys) = false
same_bytes (x ∷ xs) [] = false
same_bytes (x ∷ xs) (y ∷ ys) = (x == y) && same_bytes xs ys

-- `PendingClient`, without the channel of the PIN's notification
pub record PendingClient : Type 0 where
  pub id : List ℕ
  pub pem : List ℕ
  pub salt : List ℕ
  pub key : Option (List ℕ)
  pub server_secret : Option (List ℕ)
  pub server_challenge : Option (List ℕ)
  pub client_hash : Option (List ℕ)

-- `StateData`, the sets as lists
pub record StateData : Type 0 where
  pub unique_id : List ℕ
  pub clients : List (List ℕ)
  pub paired_certs : List (List ℕ)

-- `ClientManager`
pub record ClientManager : Type 0 where
  pub pending_clients : List PendingClient
  pub state : StateData
  pub server_cert_pem : List ℕ
  pub server_private_key_pem : List ℕ

abbrev pub contains : List (List ℕ) → List ℕ → Bool
contains [] x = false
contains (y ∷ ys) x = same_bytes y x || contains ys x

-- `inner.get_mut(id)`
unfoldable pub find : List ℕ → List PendingClient → Option PendingClient
find id [] = none
find id (c ∷ cs) = let rest = find id cs in if same_bytes c.id id then some c else rest

-- `inner.insert`, and a write through `get_mut`: the entry of that id is replaced.
unfoldable pub insert : PendingClient → List PendingClient → List PendingClient
insert c [] = c ∷ []
insert c (d ∷ ds) = let rest = insert c ds in if same_bytes d.id c.id then c ∷ ds else d ∷ rest

abbrev pub put : PendingClient → ClientManager → ClientManager
put c m = record m { pending_clients = insert c m.pending_clients }

-- `has_client` and `has_paired_cert`
unfoldable pub is_paired : List ℕ → ClientManager → Bool
is_paired id m = contains m.state.clients id

unfoldable pub is_cert_paired : List ℕ → ClientManager → Bool
is_cert_paired fingerprint m = contains m.state.paired_certs fingerprint

-- `add_client` and `add_paired_cert`; `saved` tells whether the file could be written.
unfoldable pub add_client : List ℕ → Bool → StateData → StateData × Result Bool
add_client client saved s =
    if contains s.clients client
    then (s, ok false)
    else (record s { clients = client ∷ s.clients }, ensure saved >>= λ _. ok true)

unfoldable pub add_paired_cert : List ℕ → Bool → StateData → StateData × Result Bool
add_paired_cert fingerprint saved s =
    if contains s.paired_certs fingerprint
    then (s, ok false)
    else (record s { paired_certs = fingerprint ∷ s.paired_certs }, ensure saved >>= λ _. ok true)

-- The blocks of sixteen bytes through `f`; a round takes one of them.
unfoldable pub ecb_blocks : (List ℕ → List ℕ) → ℕ → List ℕ → List ℕ
ecb_blocks f zero bytes = []
ecb_blocks f (suc rounds) [] = []
ecb_blocks f (suc rounds) (b ∷ bytes) =
    f (take 16 (b ∷ bytes)) ++ ecb_blocks f rounds (drop 16 (b ∷ bytes))

unfoldable pub ecb : (List ℕ → List ℕ) → List ℕ → Result (List ℕ)
ecb f bytes = if length bytes % 16 == 0 then ok (ecb_blocks f (length bytes) bytes) else err

module _ (crypto : Crypto) where
  open crypto use {
    sha256, encrypt_block, decrypt_block, certificate_signature, sign, verify_client_signature,
    cert_pem_fingerprint,
  }

  -- `aes_encrypt_ecb` and `aes_decrypt_ecb`
  unfoldable pub aes_encrypt_ecb : List ℕ → List ℕ → Result (List ℕ)
  aes_encrypt_ecb bytes key = ecb (encrypt_block key) bytes

  unfoldable pub aes_decrypt_ecb : List ℕ → List ℕ → Result (List ℕ)
  aes_decrypt_ecb bytes key = ecb (decrypt_block key) bytes

  -- `create_key`
  unfoldable pub create_key : List ℕ → List ℕ → List ℕ
  create_key salt pin = take 16 (sha256 (salt ++ pin))

  -- `start_pairing`
  unfoldable pub start_pairing : PendingClient → ClientManager → ClientManager
  start_pairing c m = put c m

  -- `register_pin`
  unfoldable pub register_pin : List ℕ → List ℕ → ClientManager → ClientManager × Result (Unit {0})
  register_pin id pin m = elim (find id m.pending_clients) [
    | none ↦ (m, err)
    | some c ↦ (put (record c { key = some (create_key c.salt pin) }) m, ok tt)
  ]

  -- What the answer to a challenge is made of, and that answer.
  unfoldable pub hashed : List ℕ → List ℕ → List ℕ → List ℕ
  hashed challenge signature secret = sha256 (challenge ++ (signature ++ secret))

  -- `client_challenge`, with the random bytes drawn; a generator that fails is not modelled.
  unfoldable pub client_challenge :
      List ℕ → List ℕ → List ℕ → List ℕ → ClientManager → ClientManager × Result (List ℕ)
  client_challenge id challenge server_secret server_challenge m =
      elim (find id m.pending_clients) [
        | none ↦ (m, err)
        | some c ↦ elim c.key [
          | none ↦ (m, err)
          | some key ↦
              let c' = record c { server_secret = some server_secret } in
              elim (aes_decrypt_ecb challenge key) [
                | err ↦ (put c' m, err)
                | panic ↦ (put c' m, err)
                | ok decrypted ↦ elim (certificate_signature m.server_cert_pem) [
                  | none ↦ (put c' m, err)
                  | some signature ↦ (
                    put (record c' { server_challenge = some server_challenge }) m,
                    aes_encrypt_ecb (hashed decrypted signature server_secret ++ server_challenge)
                        key,
                  )
                ]
              ]
        ]
      ]

  -- `server_challenge_response`
  unfoldable pub server_challenge_response :
      List ℕ → List ℕ → ClientManager → ClientManager × Result (List ℕ)
  server_challenge_response id challenge_response m = elim (find id m.pending_clients) [
    | none ↦ (m, err)
    | some c ↦ elim c.key [
      | none ↦ (m, err)
      | some key ↦ elim (aes_decrypt_ecb challenge_response key) [
        | err ↦ (m, err)
        | panic ↦ (m, err)
        | ok decrypted ↦ (
          put (record c { client_hash = some decrypted }) m,
          ok_or c.server_secret >>= λ server_secret.
              ok_or (sign m.server_private_key_pem server_secret) >>= λ signed.
              ok (server_secret ++ signed),
        )
      ]
    ]
  ]

  -- `verify_pairing_secret`
  unfoldable pub verify_pairing_secret : PendingClient → List ℕ → Result (Unit {0})
  verify_pairing_secret c client_secret = ok_or c.client_hash >>= λ client_hash.
      ok_or c.server_challenge >>= λ server_challenge.
      ensure (not (ltb (length client_secret) 16))
      >> (ok_or (certificate_signature c.pem) >>= λ signature.
          ensure
            (same_bytes (hashed server_challenge signature (take 16 client_secret)) client_hash)
          >> ensure (verify_client_signature c.pem (take 16 client_secret) (drop 16 client_secret)))

  -- The paired certificate of `check_client_pairing_secret`
  unfoldable pub persist_cert : PendingClient → Bool → StateData → StateData × Result (Unit {0})
  persist_cert c saved s = elim (cert_pem_fingerprint c.pem) [
    | none ↦ (s, ok tt)
    | some fingerprint ↦
        let (s', added) = add_paired_cert fingerprint saved s in (s', added >>= λ _. ok tt)
  ]

  -- `check_client_pairing_secret`; the two flags tell whether the certificate and the client could
  -- be saved.
  unfoldable pub check_client_pairing_secret :
      List ℕ → List ℕ → Bool → Bool → ClientManager → ClientManager × Result (Unit {0})
  check_client_pairing_secret id client_secret saved_cert saved_client m =
      elim (find id m.pending_clients) [
        | none ↦ (m, err)
        | some c ↦ elim (verify_pairing_secret c client_secret) [
          | err ↦ (m, err)
          | panic ↦ (m, err)
          | ok _ ↦
              let (s, persisted) = persist_cert c saved_cert m.state in
              let m' = record m { state = s } in
              elim persisted [
                | err ↦ (m', err)
                | panic ↦ (m', err)
                | ok _ ↦
                    let (s', added) = add_client id saved_client s in
                    if contains s.clients id
                    then (m', ok tt)
                    else (record m { state = s' }, added >>= λ _. ok tt)
              ]
        ]
      ]
