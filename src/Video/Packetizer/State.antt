-- ===== src/Video/Packetizer/State.antt =====
-- The state of `Packetizer`, its encoder cache and its key rotation.
pub mod Encoders
use moonshine.Common.{
  ℕ, zero, suc, ◌+◌, ◌-◌, ◌*◌, ◌/◌, ◌^◌, ◌≡◌, List, [], ◌∷◌, Option, none, some, Bool, true, false,
  ◌&&◌, ◌==◌, if◌then◌else◌, length, ltb,
}
use moonshine.Common.Int.{ℤ, negsuc, ==_ℤ}
use moonshine.Common.Results.{Result, ok, err, panic}
use moonshine.Video.Packetizer.Crates.{Crates}
use moonshine.Video.Packetizer.Layout.{max_shards, nr_data_shards_per_block, nr_parity_shards}

-- `SessionKeyData`
pub record SessionKeyData : Type 0 where
  pub remote_input_key : List ℕ
  pub remote_input_key_id : ℤ

module _ (c : Crates) where
  open c use {Encoder, new_encoder, Cipher, new_cipher}

  -- `Packetizer`, without the receiver of the keys: the keys that it holds are an argument.
  pub record Packetizer : Type 0 where
    pub fec_encoders : List ((ℕ × ℕ) × Encoder)
    pub encrypt : Bool
    pub cipher : Option Cipher
    pub last_key_id : ℤ
    pub gcm_iv_counter : ℕ

  -- `Packetizer::new`
  unfoldable pub new : Bool → Packetizer
  new encrypt = record {
    fec_encoders = [];
    encrypt = encrypt;
    cipher = none;
    last_key_id = negsuc (2 ^ 63 - 1);
    gcm_iv_counter = 0;
  }

  unfoldable pub maybe_update_cipher : SessionKeyData → Packetizer → Packetizer
  maybe_update_cipher keys p =
      if p.encrypt
      then (if ==_ℤ keys.remote_input_key_id p.last_key_id
          then p
          else if length keys.remote_input_key == 16
          then record p {
            last_key_id = keys.remote_input_key_id;
            cipher = some (new_cipher keys.remote_input_key);
            gcm_iv_counter = 0;
          }
          else record p { last_key_id = keys.remote_input_key_id; cipher = none })
      else p

  unfoldable pub lookup : ℕ → ℕ → List ((ℕ × ℕ) × Encoder) → Option Encoder
  lookup n m [] = none
  lookup n m (((i, j), e) ∷ es) = if (i == n) && (j == m) then some e else lookup n m es

  -- `get_fec_encoder`: the encoder in the map, or a new one that goes into it.
  unfoldable pub get_fec_encoder : ℕ → ℕ → Packetizer → Result Encoder × Packetizer
  get_fec_encoder n m p = elim (lookup n m p.fec_encoders) [
    | some e ↦ (ok e, p)
    | none ↦ elim (new_encoder n m) [
      | none ↦ (err, p)
      | some e ↦ (ok e, record p { fec_encoders = ((n, m), e) ∷ p.fec_encoders })
    ]
  ]

  -- The loop of `warm_up` over `count` data shard counts from `n` on.
  unfoldable pub warm_up_from : ℕ → ℕ → ℕ → ℕ → Packetizer → Packetizer
  warm_up_from fec_percentage minimum n zero p = p
  warm_up_from fec_percentage minimum n (suc count) p =
      let m = nr_parity_shards fec_percentage minimum n in
      warm_up_from fec_percentage minimum (n + 1) count
        (if ltb 0 m then (get_fec_encoder n m p).1 else p)

  unfoldable pub warm_up : ℕ → ℕ → Packetizer → Packetizer
  warm_up fec_percentage minimum =
      warm_up_from fec_percentage minimum 1 (nr_data_shards_per_block fec_percentage)
