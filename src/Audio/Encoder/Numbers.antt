-- ===== src/Audio/Encoder/Numbers.antt =====
-- moonshine-core/src/session/stream/audio/encoder.rs: the numbers on the packets that a run sends, as
-- the client reads them.
use moonshine.Common.{
  ℕ, ◌+◌, ◌%◌, ◌^◌, ◌<◌, ◌≡◌, refl, ◌⊎◌, inr, none, some, List, [], ◌∷◌, ◌++◌, get_elem?, slice,
  drop, ◌==◌, if◌then◌else◌, arith,
}
use moonshine.Common.Bytes.{of_be}
use moonshine.Audio.Encoder.{rtp_header, parity_rtp_fields, fec_header}

-- A byte of a packet, 0 where it has none
abbrev byte : List ℕ → ℕ → ℕ
byte p i = elim (get_elem? p i) [ none ↦ 0 | some b ↦ b ]

abbrev pub packet_type : List ℕ → ℕ
packet_type p = byte p 1

abbrev pub number : List ℕ → ℕ
number p = of_be (slice p 2 2)

abbrev pub shard_index : List ℕ → ℕ
shard_index p = byte p 12

abbrev pub base_number : List ℕ → ℕ
base_number p = of_be (slice p 14 2)

-- A data packet with the number `n`
abbrev pub IsDataAt : ℕ → List ℕ → Type 0
IsDataAt n p = (packet_type p ≡ 97) × (number p ≡ n)

-- A parity packet of the four data packets that end before the number `n`
abbrev pub IsParityAt : ℕ → List ℕ → Type 0
IsParityAt n p =
    (packet_type p ≡ 127)
    × ((n % 4 ≡ 0)
        × ((shard_index p < 2)
            × ((number p ≡ (n + shard_index p) % 2 ^ 16) × ((base_number p + 4) % 2 ^ 16 ≡ n))))

-- Packets from the number `n` on: each data packet counts on, and parity packets come between groups
-- of four and tell where their group began.
abbrev pub IsNumbered : ℕ → List (List ℕ) → Type 0
IsNumbered n [] = Unit
IsNumbered n (p ∷ ps) =
    (IsDataAt n p × IsNumbered ((n + 1) % 2 ^ 16) ps) ⊎ (IsParityAt n p × IsNumbered n ps)

abbrev pub AllParity : ℕ → List (List ℕ) → Type 0
AllParity n [] = Unit
AllParity n (p ∷ ps) = IsParityAt n p × AllParity n ps

pub parity-IsNumbered :
    (n : ℕ) (ps rest : List (List ℕ))
    → AllParity n ps
    → IsNumbered n rest
    → IsNumbered n (ps ++ rest)
parity-IsNumbered n [] rest h k = k
parity-IsNumbered n (p ∷ ps) rest (e, h) k = inr (e, parity-IsNumbered n ps rest h k)

pub rtp_header-IsDataAt :
    (n t : ℕ) (payload : List ℕ) → n < 2 ^ 16 → IsDataAt n (rtp_header n t ++ payload)
unfolding rtp_header
rtp_header-IsDataAt n t payload h = (refl, omega arith)

pub fields-IsParityAt :
    (n index base t b : ℕ) (m : List ℕ)
    → n < 2 ^ 16
    → n % 4 ≡ 0
    → index < 2
    → base < 2 ^ 16
    → (base + 4) % 2 ^ 16 ≡ n
    → IsParityAt n (b ∷ (parity_rtp_fields n index ++ (fec_header index base t ++ m)))
unfolding parity_rtp_fields fec_header
fields-IsParityAt n index base t b m lt start few small e =
    (refl, (start, (omega arith, (omega arith, omega arith))))

-- The payloads of the data packets
unfoldable pub heard : List (List ℕ) → List (List ℕ)
heard [] = []
heard (p ∷ ps) = let rest = heard ps in if packet_type p == 97 then drop 12 p ∷ rest else rest

pub parity-heard : (n : ℕ) (ps : List (List ℕ)) → AllParity n ps → heard ps ≡ []
unfolding heard
parity-heard n [] h = refl
parity-heard n (p ∷ ps) (e, h) = rw e.0 (parity-heard n ps h)

pub data-heard :
    (p : List ℕ) (ps : List (List ℕ)) → packet_type p ≡ 97 → heard (p ∷ ps) ≡ drop 12 p ∷ heard ps
unfolding heard
data-heard p ps e = rw e refl

pub append-heard : (ps qs : List (List ℕ)) → heard (ps ++ qs) ≡ heard ps ++ heard qs
unfolding heard
append-heard [] qs = refl
append-heard (p ∷ ps) qs = ground (arith, append-heard ps qs)

pub payload-heard : (n t : ℕ) (payload : List ℕ) → drop 12 (rtp_header n t ++ payload) ≡ payload
unfolding rtp_header
payload-heard n t payload = refl
