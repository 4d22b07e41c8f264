-- ===== src/Common/Bytes.antt =====
-- Little- and big-endian words as bytes, and checked reads of a byte buffer.
use Prim.Native.Nat.{ℕ, ◌+◌, ◌*◌, ◌/◌, ◌%◌, ◌^◌, ◌<◌}
use mathlib.Core.Path.{◌≡◌}
use mathlib.Core.Option.{none, some}
use mathlib.Core.List.{List, [], ◌∷◌, ◌++◌}
use native.Mathlib.Omega.{arith}
use moonshine.Common.Tests.{leb, if◌then◌else◌}
use moonshine.Common.Lists.{length, get_elem?, slice}
use moonshine.Common.Results.{Result, ok, panic, ◌>>=◌}
use moonshine.Common.Int.{ℤ, signed16}

-- `to_le_bytes` and `to_be_bytes` of u16, u32 and u64
abbrev pub le16 : ℕ → List ℕ
le16 x = x % 256 ∷ x / 256 % 256 ∷ []

abbrev pub be16 : ℕ → List ℕ
be16 x = x / 256 % 256 ∷ x % 256 ∷ []

abbrev pub le32 : ℕ → List ℕ
le32 x = x % 256 ∷ x / 256 % 256 ∷ x / 65536 % 256 ∷ x / 16777216 % 256 ∷ []

abbrev pub be32 : ℕ → List ℕ
be32 x = x / 16777216 % 256 ∷ x / 65536 % 256 ∷ x / 256 % 256 ∷ x % 256 ∷ []

abbrev pub le64 : ℕ → List ℕ
le64 x = le32 (x % 2 ^ 32) ++ le32 (x / 2 ^ 32)

-- `from_le_bytes` and `from_be_bytes`
abbrev pub of_le : List ℕ → ℕ
of_le [] = 0
of_le (b ∷ bs) = b + 256 * of_le bs

abbrev pub of_be_from : ℕ → List ℕ → ℕ
of_be_from acc [] = acc
of_be_from acc (b ∷ bs) = of_be_from (acc * 256 + b) bs

abbrev pub of_be : List ℕ → ℕ
of_be bs = of_be_from 0 bs

-- `buf[i]` and `buf[i..i + n]`: a panic where they leave the buffer.
abbrev pub index : List ℕ → ℕ → Result ℕ
index buf i = elim (get_elem? buf i) [ none ↦ panic | some b ↦ ok b ]

abbrev pub range : List ℕ → ℕ → ℕ → Result (List ℕ)
range buf i n = if leb (i + n) (length buf) then ok (slice buf i n) else panic

abbrev pub u16_le : List ℕ → ℕ → Result ℕ
u16_le buf i = range buf i 2 >>= λ bs. ok (of_le bs)

abbrev pub u16_be : List ℕ → ℕ → Result ℕ
u16_be buf i = range buf i 2 >>= λ bs. ok (of_be bs)

abbrev pub u32_le : List ℕ → ℕ → Result ℕ
u32_le buf i = range buf i 4 >>= λ bs. ok (of_le bs)

abbrev pub u32_be : List ℕ → ℕ → Result ℕ
u32_be buf i = range buf i 4 >>= λ bs. ok (of_be bs)

abbrev pub i16_le : List ℕ → ℕ → Result ℤ
i16_le buf i = u16_le buf i >>= λ w. ok (signed16 w)

abbrev pub i16_be : List ℕ → ℕ → Result ℤ
i16_be buf i = u16_be buf i >>= λ w. ok (signed16 w)

-- Every element is a byte.
abbrev pub IsBytes : List ℕ → Type 0
IsBytes [] = Unit {0}
IsBytes (b ∷ bs) = (b < 256) × IsBytes bs

pub of_le-le16 : (x : ℕ) → x < 2 ^ 16 → of_le (le16 x) ≡ x
of_le-le16 x h = omega arith

pub of_le-le32 : (x : ℕ) → x < 2 ^ 32 → of_le (le32 x) ≡ x
of_le-le32 x h = omega arith

pub of_be-be32 : (x : ℕ) → x < 2 ^ 32 → of_be (be32 x) ≡ x
of_be-be32 x h = omega arith
