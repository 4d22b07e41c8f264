-- ===== src/Control/Input/Float.antt =====
-- `f32` as its 32-bit pattern: the sign at bit 31, the exponent at 23 to 30.
use moonshine.Common.{ℕ, ◌/◌, ◌%◌, ◌^◌, Bool, not, ◌&&◌, ltb, ◌==◌, if◌then◌else◌}

-- `is_finite`
unfoldable pub is_finite : ℕ → Bool
is_finite bits = not (bits / 2 ^ 23 % 2 ^ 8 == 255)

unfoldable pub is_nan : ℕ → Bool
is_nan bits = (bits / 2 ^ 23 % 2 ^ 8 == 255) && not (bits % 2 ^ 23 == 0)

-- `1.0`
abbrev pub one_f32 : ℕ
one_f32 = 0x3F800000

-- `clamp(0.0, 1.0)`: a NaN and -0.0 are left as they are, what is below 0.0 becomes 0.0, and of the
-- rest, whose patterns are ordered as the numbers are, what is above 1.0 becomes 1.0.
unfoldable pub clamp_unit : ℕ → ℕ
clamp_unit bits =
    if is_nan bits
    then bits
    else if ltb (2 ^ 31) bits
    then 0
    else if bits == 2 ^ 31
    then bits
    else if ltb one_f32 bits
    then one_f32
    else bits
