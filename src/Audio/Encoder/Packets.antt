-- ===== src/Audio/Encoder/Packets.antt =====
-- moonshine-core/src/session/stream/audio/encoder.rs: the bytes of the packets.
use moonshine.Common.{
  ℕ, zero, suc, ◌+◌, ◌≤◌, ◌≡◌, refl, ap, ◌∙◌, List, [], ◌∷◌, ◌++◌, length, take, drop, slice,
  copy_at, length-take, length-drop, length-copy_at, drop-copy_at, slice-copy_at, copy_at-append,
  arith,
}
use moonshine.Audio.Encoder.{
  rtp_header, write_data_packet, parity_rtp_fields, fec_header, write_parity_packet,
}

-- Two writes that do not meet may change places.
copy_at_commute {ℓ} :
    {A : Type ℓ} (xs : List A) (i j : ℕ) (bs cs : List A)
    → i + length bs ≤ j
    → copy_at (copy_at xs j cs) i bs ≡ copy_at (copy_at xs i bs) j cs
copy_at_commute [] i j bs cs h = refl
copy_at_commute (x ∷ xs) zero zero [] [] h = refl
copy_at_commute (x ∷ xs) zero zero [] (c ∷ cs) h = refl
copy_at_commute (x ∷ xs) zero (suc j) [] cs h = refl
copy_at_commute (x ∷ xs) zero zero (b ∷ bs) cs h = absurd (omega arith)
copy_at_commute (x ∷ xs) zero (suc j) (b ∷ bs) cs h =
    ap (λ t. b ∷ t) (copy_at_commute xs zero j bs cs (omega arith))
copy_at_commute (x ∷ xs) (suc i) zero bs cs h = absurd (omega arith)
copy_at_commute (x ∷ xs) (suc i) (suc j) bs cs h =
    ap (λ t. x ∷ t) (copy_at_commute xs i j bs cs (omega arith))

-- All of a write at the front
take-copy_at_all :
    (xs bs : List ℕ) (n : ℕ) → n ≡ length bs → n ≤ length xs → take n (copy_at xs 0 bs) ≡ bs
take-copy_at_all xs bs n e h =
    ap (λ k. take k (copy_at xs 0 bs)) e ∙ slice-copy_at xs 0 bs (omega (arith, e))

-- A data packet is the header and the payload, whatever the shard held before.
pub take-write_data_packet :
    (shard : List ℕ) (n t : ℕ) (payload : List ℕ)
    → 12 + length payload ≤ length shard
    → take (12 + length payload) (write_data_packet shard n t payload) ≡ rtp_header n t ++ payload
unfolding write_data_packet rtp_header
take-write_data_packet shard n t payload h =
    ap (take (12 + length payload)) (copy_at-append shard 0 12 (rtp_header n t) payload refl)
    ∙ take-copy_at_all shard (rtp_header n t ++ payload) (12 + length payload) (omega arith) h

-- A parity packet keeps the first byte of the shard and its payload, which is moved back.
pub take-write_parity_packet :
    (b : ℕ) (rest : List ℕ) (index n base t len : ℕ)
    → 23 + len ≤ length rest
    → take (24 + len) (write_parity_packet (b ∷ rest) index n base t len)
      ≡ b ∷ (parity_rtp_fields n index ++ (fec_header index base t ++ slice rest 11 len))
unfolding write_parity_packet parity_rtp_fields fec_header
take-write_parity_packet b rest index n base t len h =
    let fields = parity_rtp_fields n index in
    let second = fec_header index base t in
    let headed = copy_at rest 0 fields in
    let m = slice headed 11 len in
    let size : length m ≡ len = omega (
      arith,
      length-take len (drop 11 headed),
      length-drop 11 headed,
      length-copy_at rest 0 fields,
    ) in
    let kept : m ≡ slice rest 11 len =
      ap (take len) (drop-copy_at rest 0 fields 11 (omega arith)) in
    let written : copy_at (copy_at headed 23 m) 11 second
        ≡ copy_at rest 0 (fields ++ (second ++ m)) =
      copy_at_commute headed 11 23 second m (omega arith)
      ∙ copy_at-append headed 11 23 second m refl
      ∙ copy_at-append rest 0 11 fields (second ++ m) refl in
    let cut : take (23 + len) (copy_at rest 0 (fields ++ (second ++ m))) ≡ fields ++ (second ++ m) =
      take-copy_at_all rest (fields ++ (second ++ m)) (23 + len) (omega (arith, size)) h in
    let one_more : 24 + len ≡ suc (23 + len) = omega arith in
    ap (λ k. take k (write_parity_packet (b ∷ rest) index n base t len)) one_more
    ∙ ap (λ t'. b ∷ t')
        (ap (take (23 + len)) written ∙ cut ∙ ap (λ (m' : List ℕ). fields ++ (second ++ m')) kept)
