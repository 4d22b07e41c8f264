-- ===== src/Audio/Encoder/Parity.antt =====
-- moonshine-core/src/session/stream/audio/encoder.rs: the loop over the parity shards of a group.
use moonshine.Common.{
  ℕ, suc, ◌+◌, ◌%◌, ◌^◌, ◌≤◌, ◌<◌, ◌≡◌, refl, sym, ap, ◌∙◌, inl, inr, Bool, List, [], ◌∷◌, length,
  take, drop, Bool-cases, arith,
}
use mathlib.Core.Path.{subst}
use moonshine.Common.Results.{ok}
use moonshine.Audio.Encoder.{write_parity_packet, parity_shards}
use moonshine.Audio.Encoder.Packets.{take-write_parity_packet}
use moonshine.Audio.Encoder.Shards.{
  Returns, bind-Returns, AllSized, crop-Returns, length-write_parity_packet,
}
use moonshine.Audio.Encoder.Numbers.{AllParity, fields-IsParityAt}

-- The shards that are written, as many and as long as before, and the packets
abbrev pub IsWritten : ℕ → ℕ → List (List ℕ) × List (List ℕ) → Type 0
IsWritten n count (ss, ps) = ((length ss ≡ count) × AllSized ss) × AllParity n ps

pub parity_shards-Returns :
    (ss : List (List ℕ)) (index n base t len : ℕ) (accepts : ℕ → Bool)
    → AllSized ss
    → 24 + len ≤ 2048
    → index + length ss ≤ 2
    → n < 2 ^ 16
    → n % 4 ≡ 0
    → base < 2 ^ 16
    → (base + 4) % 2 ^ 16 ≡ n
    → Returns (IsWritten n (length ss)) (parity_shards ss index n base t len accepts)
unfolding parity_shards
parity_shards-Returns [] index n base t len accepts h fit few lt start small e = ((refl, tt), tt)
parity_shards-Returns ([] ∷ ss) index n base t len accepts (size, _) fit few lt start small e =
    absurd (omega (arith, size))
parity_shards-Returns ((b ∷ rest) ∷ ss) index n base t len accepts (size, h) fit few lt start small
      e =
    let whole = write_parity_packet (b ∷ rest) index n base t len in
    let kept = length-write_parity_packet (b ∷ rest) index n base t len in
    let cut = take-write_parity_packet b rest index n base t len (omega (arith, size)) in
    let is_parity =
      subst (λ p. AllParity n (p ∷ [])) (sym cut)
        (
          fields-IsParityAt n index base t b (take len (drop 11 rest)) lt start (omega arith) small
              e,
          tt,
        ) in
    let later =
      parity_shards-Returns ss (index + 1) n base t len accepts h fit (omega arith) lt start small
        e in
    rw (crop-Returns whole (24 + len) (omega (arith, kept, size)))
      (elim (Bool-cases (accepts (index + 1))) [
        | inl open_ ↦ rw open_ (
            bind-Returns (IsWritten n (length ss)) (IsWritten n (suc (length ss)))
              (parity_shards ss (index + 1) n base t len accepts)
              (λ r. ok (whole ∷ r.0, take (24 + len) whole ∷ r.1)) later
              (λ r (sizes, ps). ((ap suc sizes.0, (kept ∙ size, sizes.1)), (is_parity.0, ps))))
        | inr closed ↦ rw closed ((refl, (kept ∙ size, h)), tt)
      ])
