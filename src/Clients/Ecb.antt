-- ===== src/Clients/Ecb.antt =====
-- clients.rs, `aes_encrypt_ecb` and `aes_decrypt_ecb`: the round trip.
use moonshine.Common.{
  ℕ, zero, suc, ◌*◌, ◌/◌, ◌%◌, ◌≤◌, ◌≡◌, refl, ap, ◌∙◌, true, List, [], ◌∷◌, ◌++◌, length, take,
  drop, ◌==◌, arith, length-take, length-drop, length-append, take-append-drop, take-append,
  drop-append,
}
use moonshine.Common.Results.{ok}
use moonshine.Clients.{Crypto, ecb_blocks, ecb, aes_encrypt_ecb, aes_decrypt_ecb}

-- Whole blocks and nothing else.
abbrev pub IsBlocks : List ℕ → Type 0
IsBlocks bytes = length bytes % 16 ≡ 0

module _ (f : List ℕ → List ℕ) where
  ecb_blocks-nil : (rounds : ℕ) → ecb_blocks f rounds [] ≡ []
  unfolding ecb_blocks
  ecb_blocks-nil zero = refl
  ecb_blocks-nil (suc rounds) = refl

  ecb_blocks-block :
      (rounds : ℕ) (block rest : List ℕ)
      → length block ≡ 16
      → ecb_blocks f (suc rounds) (block ++ rest) ≡ f block ++ ecb_blocks f rounds rest
  unfolding ecb_blocks
  ecb_blocks-block rounds [] rest h = absurd (omega arith)
  ecb_blocks-block rounds (b ∷ block) rest h =
      let size : 15 ≡ length block = omega arith in
      rw
        (
          ap (λ (k : ℕ). take k (block ++ rest)) size ∙ take-append block rest,
          ap (λ (k : ℕ). drop k (block ++ rest)) size ∙ drop-append block rest,
        )
        refl

module _ (f g : List ℕ → List ℕ)
    (sizes : (block : List ℕ) → length block ≡ 16 → length (f block) ≡ 16)
    (undo : (block : List ℕ) → length block ≡ 16 → g (f block) ≡ block) where
  ecb_blocks-undo :
      (n rounds rounds' : ℕ) (bytes : List ℕ)
      → length bytes ≡ 16 * n
      → n ≤ rounds
      → n ≤ rounds'
      → (length (ecb_blocks f rounds bytes) ≡ 16 * n)
        × (ecb_blocks g rounds' (ecb_blocks f rounds bytes) ≡ bytes)
  unfolding ecb_blocks
  ecb_blocks-undo zero rounds rounds' [] e h h' =
      rw (ecb_blocks-nil f rounds, ecb_blocks-nil g rounds') (refl, refl)
  ecb_blocks-undo zero rounds rounds' (b ∷ bytes) e h h' = absurd (omega arith)
  ecb_blocks-undo (suc n) zero rounds' bytes e h h' = absurd (omega arith)
  ecb_blocks-undo (suc n) (suc rounds) zero bytes e h h' = absurd (omega arith)
  ecb_blocks-undo (suc n) (suc rounds) (suc rounds') [] e h h' = absurd (omega arith)
  ecb_blocks-undo (suc n) (suc rounds) (suc rounds') (b ∷ bytes) e h h' =
      let block = b ∷ take 15 bytes in
      let small : length block ≡ 16 = omega (arith, length-take 15 bytes) in
      let (size, rest) =
        ecb_blocks-undo n rounds rounds' (drop 15 bytes) (omega (arith, length-drop 15 bytes))
          (omega arith) (omega arith) in
      (
        omega (
          arith,
          length-append (f block) (ecb_blocks f rounds (drop 15 bytes)),
          sizes block small,
          size,
        ),
        ecb_blocks-block g rounds' (f block) (ecb_blocks f rounds (drop 15 bytes))
              (sizes block small)
            ∙ rw (undo block small, rest) (ap (λ t. b ∷ t) (take-append-drop 15 bytes)),
      )

-- A cipher whose decryption of a block undoes the encryption.
pub record IsCipher (crypto : Crypto) : Type 0 where
  pub sizes :
      (key block : List ℕ) → length block ≡ 16 → length (crypto.encrypt_block key block) ≡ 16
  pub undo :
      (key block : List ℕ)
      → length block ≡ 16
      → crypto.decrypt_block key (crypto.encrypt_block key block) ≡ block

-- `bytes` of whole blocks are encrypted, and what comes out decrypts to them.
pub decrypt-encrypt :
    (crypto : Crypto) (bytes key : List ℕ)
    → IsCipher crypto
    → IsBlocks bytes
    → (sealed : List ℕ) × (aes_encrypt_ecb crypto bytes key ≡ ok sealed)
      × (aes_decrypt_ecb crypto sealed key ≡ ok bytes)
unfolding aes_encrypt_ecb aes_decrypt_ecb ecb
decrypt-encrypt crypto bytes key c h =
    let n = length bytes / 16 in
    let sealed = ecb_blocks (crypto.encrypt_block key) (length bytes) bytes in
    let (size, _) =
      ecb_blocks-undo (crypto.encrypt_block key) (crypto.decrypt_block key) (c.sizes key)
        (c.undo key) n (length bytes) (length bytes) bytes (omega arith) (omega arith)
        (omega arith) in
    let (_, back) =
      ecb_blocks-undo (crypto.encrypt_block key) (crypto.decrypt_block key) (c.sizes key)
        (c.undo key) n (length bytes) (length sealed) bytes (omega arith) (omega arith)
        (omega arith) in
    let whole : (length bytes % 16 == 0) ≡ true = ground arith in
    let whole' : (length sealed % 16 == 0) ≡ true = ground arith in
    (sealed, rw whole refl, rw (whole', back) refl)
