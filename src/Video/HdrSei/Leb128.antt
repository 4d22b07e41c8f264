-- ===== src/Video/HdrSei/Leb128.antt =====
-- hdr_sei.rs, `leb128_encode` and `leb128_decode`: the round trip.
use moonshine.Common.{
  ℕ, zero, suc, ◌+◌, ◌*◌, ◌/◌, ◌%◌, ◌^◌, ◌≤◌, ◌<◌, ◌≡◌, refl, ap, ◌∙◌, true, false, List, ◌∷◌, ◌++◌,
  length, ◌==◌, arith, Bool-cases, inl, inr, bit_and, bit_or,
}
use moonshine.Common.Bits.{shl, or-fields, or_comm, and_halves, and-zero, and_low_nibble}
use native.Mathlib.Nat.{div-add-mod, mul-le-mul_right}
use native.Mathlib.Numerals.{towards_suc}
use moonshine.Video.HdrSei.{encode_groups, leb128_encode, decode_from, leb128_decode}

low_group : (v : ℕ) → bit_and v 0x7f ≡ v % 128
low_group v = omega (
  arith,
  and_halves v 127,
  and_halves (v / 2) 63,
  and_halves (v / 2 / 2) 31,
  and_low_nibble (v / 2 / 2 / 2),
)

bit_1 : (b : ℕ) → bit_and b 2 ≡ b / 2 % 2 * 2
bit_1 b = omega (arith, and_halves b 2, and_halves (b / 2) 1, and-zero (b / 2 / 2))

bit_4 : (b : ℕ) → bit_and b 16 ≡ b / 16 % 2 * 16
bit_4 b =
    omega (
      arith,
      and_halves b 16,
      and_halves (b / 2) 8,
      and_halves (b / 2 / 2) 4,
      bit_1 (b / 2 / 2 / 2),
    )

top_bit : (b : ℕ) → bit_and b 0x80 ≡ b / 128 % 2 * 128
top_bit b = omega (
  arith,
  and_halves b 128,
  and_halves (b / 2) 64,
  and_halves (b / 2 / 2) 32,
  bit_4 (b / 2 / 2 / 2),
)

set_top_bit : (b : ℕ) → b < 128 → bit_or b 0x80 ≡ 128 + b
set_top_bit b h = or_comm b 0x80 ∙ or-fields 7 1 b h

-- A group of seven bits comes on top of what is below `shift`.
add_group :
    (value group shift : ℕ)
    → value < 2 ^ shift
    → shift < 64
    → value + group * 2 ^ shift < 2 ^ 64
    → bit_or value (shl group (shift % 64) % 2 ^ 64) ≡ value + group * 2 ^ shift
add_group value group shift below hs fits =
    let at_shift : shift % 64 ≡ shift = omega arith in
    let small : group * 2 ^ shift % 2 ^ 64 ≡ group * 2 ^ shift = omega arith in
    rw (at_shift, small, or_comm value (group * 2 ^ shift))
      (omega (arith, or-fields shift group value below))

pow_seven : (shift : ℕ) → 2 ^ (shift + 7) ≡ 128 * 2 ^ shift
pow_seven shift = simp towards_suc (omega arith)

two_groups : (v shift : ℕ) → v * 2 ^ shift ≡ v % 128 * 2 ^ shift + v / 128 * 2 ^ (shift + 7)
two_groups v shift =
    rw (pow_seven shift) (omega (arith, ap (λ (whole : ℕ). whole * 2 ^ shift) (div-add-mod v 128)))

-- The bytes that the encoder writes for its last group and for the others.
last_group :
    (v value shift i : ℕ) (rest : List ℕ)
    → v < 128
    → value < 2 ^ shift
    → shift < 64
    → value + v * 2 ^ shift < 2 ^ 64
    → decode_from (bit_and v 0x7f ∷ rest) value shift i ≡ (value + v * 2 ^ shift, i + 1)
unfolding decode_from
last_group v value shift i rest small below hs fits =
    let low : bit_and v 0x7f ≡ v = omega (arith, low_group v) in
    let ends : (bit_and v 0x80 == 0) ≡ true = ground (arith, top_bit v) in
    rw (low, low, ends, add_group value v shift below hs fits) refl

inner_group :
    (v value shift i : ℕ) (rest : List ℕ)
    → value < 2 ^ shift
    → shift < 64
    → value + v % 128 * 2 ^ shift < 2 ^ 64
    → decode_from (bit_or (bit_and v 0x7f) 0x80 ∷ rest) value shift i
      ≡ decode_from rest (value + v % 128 * 2 ^ shift) (shift + 7) (i + 1)
unfolding decode_from
inner_group v value shift i rest below hs fits =
    let byte : bit_or (bit_and v 0x7f) 0x80 ≡ 128 + v % 128 =
      omega (arith, low_group v, set_top_bit (bit_and v 0x7f)) in
    let low : bit_and (128 + v % 128) 0x7f ≡ v % 128 = omega (arith, low_group (128 + v % 128)) in
    let more : (bit_and (128 + v % 128) 0x80 == 0) ≡ false =
      ground (arith, top_bit (128 + v % 128)) in
    rw (byte, low, more, add_group value (v % 128) shift below hs fits) refl

not_last : (rounds v : ℕ) → v < 128 ^ suc rounds → (v / 2 ^ 7 == 0) ≡ false → 0 < rounds
not_last zero v fits e = absurd (ground arith)
not_last (suc rounds) v fits e = omega arith

both : {a b c d : ℕ} → a ≡ b → c ≡ d → ◌≡◌ {A = ℕ × ℕ} (a, c) (b, d)
both e e' = rw (e, e')

-- `v` is what the encoder has left, and counts from bit `shift` on.
decode-encode_groups :
    (rounds v value shift i : ℕ) (rest : List ℕ)
    → v < 128 ^ rounds
    → 0 < rounds
    → value < 2 ^ shift
    → shift + 7 * rounds ≤ 70
    → value + v * 2 ^ shift < 2 ^ 64
    → decode_from (encode_groups rounds v ++ rest) value shift i
      ≡ (value + v * 2 ^ shift, i + length (encode_groups rounds v))
unfolding encode_groups
decode-encode_groups zero v value shift i rest fits pos below room total = absurd (omega arith)
decode-encode_groups (suc rounds) v value shift i rest fits pos below room total =
    elim (Bool-cases (v / 2 ^ 7 == 0)) [
      | inl e ↦ rw e (last_group v value shift i rest (ground arith) below (omega arith) total)
      | inr e ↦ rw e (
          inner_group v value shift i (encode_groups rounds (v / 128) ++ rest) below (omega arith)
            (omega (arith, two_groups v shift))
          ∙ decode-encode_groups rounds (v / 128) (value + v % 128 * 2 ^ shift) (shift + 7) (i + 1)
              rest (omega arith) (not_last rounds v fits e)
              (omega (
                arith,
                pow_seven shift,
                mul-le-mul_right {m = v % 128} {n = 127} (2 ^ shift) (omega arith),
              ))
              (omega arith) (omega (arith, two_groups v shift))
          ∙ both (omega (arith, two_groups v shift)) (omega arith))
    ]

-- Every u64 is read back by `leb128_decode` from what `leb128_encode` wrote, whatever follows it,
-- and the second result is the number of bytes written.
pub leb128_decode-encode :
    (value : ℕ) (rest : List ℕ)
    → value < 2 ^ 64
    → leb128_decode (leb128_encode value ++ rest) ≡ (value, length (leb128_encode value))
unfolding leb128_decode leb128_encode
leb128_decode-encode value rest h =
    decode-encode_groups 10 value 0 0 0 rest (omega arith) (omega arith) (omega arith) (omega arith)
      (omega arith)
    ∙ both (omega arith) (omega arith)
