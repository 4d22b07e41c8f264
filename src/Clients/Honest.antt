-- ===== src/Clients/Honest.antt =====
-- clients.rs: a client that follows the protocol and has the right PIN is paired.
use moonshine.Common.{ℕ, ◌≡◌, true, some, List, ◌++◌, length, drop}
use moonshine.Common.Results.{Result, ok, ◌>>=◌, ◌>>◌}
use moonshine.Clients.{
  Crypto, create_key, hashed, aes_encrypt_ecb, aes_decrypt_ecb, ClientManager, start_pairing,
  register_pin, client_challenge, server_challenge_response, check_client_pairing_secret,
}
use moonshine.Clients.Ecb.{IsCipher, IsBlocks}
use moonshine.Clients.Events.{fresh_client}

-- What the client has: its certificate, the PIN's salt, and the secrets that it draws.
pub record Client : Type 0 where
  pub id : List ℕ
  pub pem : List ℕ
  pub salt : List ℕ
  pub signature : List ℕ
  pub fingerprint : List ℕ
  pub challenge : List ℕ
  pub secret : List ℕ
  pub signed : List ℕ

module _ (crypto : Crypto) where
  open crypto use {sha256, certificate_signature, verify_client_signature, cert_pem_fingerprint}

  -- The certificate is well formed, the signature is right, and the sizes are those of the protocol.
  pub record IsHonest (c : Client) : Type 0 where
    pub has_signature : certificate_signature c.pem ≡ some c.signature
    pub has_fingerprint : cert_pem_fingerprint c.pem ≡ some c.fingerprint
    pub challenge_blocks : IsBlocks c.challenge
    pub secret_size : length c.secret ≡ 16
    pub verifies : verify_client_signature c.pem c.secret c.signed ≡ true

  -- What the server's own side needs: a digest of 32 bytes, and its certificate and key in order.
  pub record IsReady (m : ClientManager) : Type 0 where
    pub cipher : IsCipher crypto
    pub digest : (bytes : List ℕ) → length (sha256 bytes) ≡ 32
    pub certificate : (s : List ℕ) × (certificate_signature m.server_cert_pem ≡ some s)
    pub private_key :
        (secret : List ℕ) → (s : List ℕ) × (crypto.sign m.server_private_key_pem secret ≡ some s)

  -- The client's side of the protocol, with the PIN that it shows entered at the server: it seals
  -- its challenge, takes the server's challenge from the answer, seals the hash and sends its secret.
  unfoldable pub conversation :
      Client → List ℕ → List ℕ → List ℕ → ClientManager → Result ClientManager
  conversation c pin server_secret server_challenge m =
      let key = create_key crypto c.salt pin in
      let m1 = start_pairing crypto (fresh_client crypto c.id c.pem c.salt) m in
      let (m2, pinned) = register_pin crypto c.id pin m1 in
      pinned
      >> (aes_encrypt_ecb crypto c.challenge key >>= λ first.
          let (m3, answer) = client_challenge crypto c.id first server_secret server_challenge m2 in
          answer >>= λ reply. aes_decrypt_ecb crypto reply key >>= λ opened.
          aes_encrypt_ecb crypto (hashed crypto (drop 32 opened) c.signature c.secret) key
          >>= λ second.
              let (m4, answer') = server_challenge_response crypto c.id second m3 in
              answer' >>= λ _.
              let (m5, done) =
                check_client_pairing_secret crypto c.id (c.secret ++ c.signed) true true m4 in
              done >>= λ _. ok m5)
