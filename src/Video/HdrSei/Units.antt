-- ===== src/Video/HdrSei/Units.antt =====
-- hdr_sei.rs: the fields of the MDCV payloads, and AV1's units.
use moonshine.Common.{
  ℕ, ◌+◌, ◌-◌, ◌*◌, ◌/◌, ◌^◌, ◌≤◌, ◌<◌, ◌≡◌, ◌⊎◌, Bool, true, false, List, arith, slice,
  if◌then◌else◌, inl, inr, dec_lt,
}
use moonshine.Common.Bytes.{of_be}
use moonshine.Control.Hdr.{HdrMetadata}
use moonshine.Video.HdrSei.{
  av1_chromaticity, av1_luminance_max, av1_luminance_min, build_mdcv_sei_payload,
}

-- `result` is `value * numer / denom` rounded to the nearest whole number.
abbrev pub IsRounded : ℕ → ℕ → ℕ → ℕ → Type 0
IsRounded numer denom value result =
    (2 * (value * numer) ≤ 2 * (result * denom) + denom)
    × (2 * (result * denom) ≤ 2 * (value * numer) + denom)

-- For every word of the metadata's width the results are the values in AV1's units, rounded to the
-- nearest: a luminance_max always, and the two that can saturate unless they are at the top of
-- their field.
pub av1_units-IsRounded :
    (chromaticity luminance : ℕ)
    → chromaticity < 2 ^ 16
    → luminance < 2 ^ 32
    → (IsRounded 65536 50000 chromaticity (av1_chromaticity chromaticity)
        ⊎ (av1_chromaticity chromaticity ≡ 2 ^ 16 - 1))
      × (IsRounded 256 10000 luminance (av1_luminance_max luminance)
          × (IsRounded 16384 10000 luminance (av1_luminance_min luminance)
              ⊎ (av1_luminance_min luminance ≡ 2 ^ 32 - 1)))
unfolding av1_chromaticity av1_luminance_max av1_luminance_min
av1_units-IsRounded chromaticity luminance h h' = (
  elim (dec_lt ((chromaticity * 65536 + 25000) / 50000) (2 ^ 16)) [
    | yes p ↦ inl (omega arith, omega arith)
    | no p ↦ inr (omega arith)
  ],
  (
    (omega arith, omega arith),
    elim (dec_lt ((luminance * 16384 + 5000) / 10000) (2 ^ 32)) [
      | yes p ↦ inl (omega arith, omega arith)
      | no p ↦ inr (omega arith)
    ],
  ),
)

-- All words of the metadata fit their fields.
pub record IsMetadata (m : HdrMetadata) : Type 0 where
  pub red : (m.red.0 < 2 ^ 16) × (m.red.1 < 2 ^ 16)
  pub green : (m.green.0 < 2 ^ 16) × (m.green.1 < 2 ^ 16)
  pub blue : (m.blue.0 < 2 ^ 16) × (m.blue.1 < 2 ^ 16)
  pub white_point : (m.white_point.0 < 2 ^ 16) × (m.white_point.1 < 2 ^ 16)
  pub max_luminance : m.max_luminance < 2 ^ 32
  pub min_luminance : m.min_luminance < 2 ^ 32

-- A reader of the MDCV message: three primaries in the order that the codec gives them, the white
-- point and the luminances.
abbrev pub coordinates_at : List ℕ → ℕ → ℕ × ℕ
coordinates_at payload i = (of_be (slice payload i 2), of_be (slice payload (i + 2) 2))

-- The MDCV payload has the primaries in the order green, blue, red for H.265 and red, green, blue for
-- H.264, then the white point and the two luminances, all big-endian, in 24 bytes.
pub build_mdcv_sei_payload-fields :
    (m : HdrMetadata) (is_hevc : Bool)
    → IsMetadata m
    → let payload = build_mdcv_sei_payload m is_hevc in
      (coordinates_at payload (if is_hevc then 8 else 0) ≡ m.red)
      × (coordinates_at payload (if is_hevc then 0 else 4) ≡ m.green)
      × (coordinates_at payload (if is_hevc then 4 else 8) ≡ m.blue)
      × (coordinates_at payload 12 ≡ m.white_point)
      × (of_be (slice payload 16 4) ≡ m.max_luminance)
      × (of_be (slice payload 20 4) ≡ m.min_luminance)
unfolding build_mdcv_sei_payload
build_mdcv_sei_payload-fields m true h = ground arith
build_mdcv_sei_payload-fields m false h = ground arith
