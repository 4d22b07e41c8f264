-- ===== src/Video/Packetizer/Crates.antt =====
-- The crates that the packetizer calls: fec_rs (`ReedSolomon`) and aes_gcm (`Aes128Gcm`).
use moonshine.Common.{ℕ, List, Option}

pub record Crates : Type 1 where
  -- `ReedSolomon::new` and `encode`, which overwrites the slices
  pub Encoder : Type 0
  pub new_encoder : ℕ → ℕ → Option Encoder
  pub encode : Encoder → List (List ℕ) → Option (List (List ℕ))
  -- `Aes128Gcm::new` and `encrypt_in_place_detached`: the ciphertext and the tag
  pub Cipher : Type 0
  pub new_cipher : List ℕ → Cipher
  pub encrypt : Cipher → List ℕ → List ℕ → Option (List ℕ × List ℕ)
