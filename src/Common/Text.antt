-- ===== src/Common/Text.antt =====
-- Texts as code points, and the numbers written in them.
use Prim.Native.Nat.{ℕ, zero, suc, ◌+◌, ◌-◌, ◌*◌, ◌/◌, ◌%◌, ◌<◌}
use Prim.Native.Char.{code}
use Prim.Native.String.{String}
use mathlib.Core.Path.{◌≡◌, refl, ◌∙◌}
use mathlib.Core.Bool.{Bool, true, false, ◌&&◌, ◌||◌}
use mathlib.Core.List.{List, [], ◌∷◌, reverse}
use native.Mathlib.Omega.{arith}
use moonshine.Common.Tests.{ltb, leb, ltb-true, ◌==◌, if◌then◌else◌, Bool-cases}
use moonshine.Common.Int.{ℤ, pos, negsuc}
use moonshine.Common.Results.{Result, ok, err, ◌>>=◌}
use mathlib.Core.Logic.{inl, inr}

abbrev pub codes : String → List ℕ
codes String.[] = []
codes (String.◌∷◌ c s) = code c ∷ codes s

-- `==` of texts
abbrev pub same_text : List ℕ → List ℕ → Bool
same_text [] [] = true
same_text [] (y ∷ ys) = false
same_text (x ∷ xs) [] = false
same_text (x ∷ xs) (y ∷ ys) = (x == y) && same_text xs ys

-- `char::is_whitespace`
abbrev pub is_whitespace : ℕ → Bool
is_whitespace c =
    (leb 9 c && leb c 13)
    || (c == 0x20)
    || (c == 0x85)
    || (c == 0xa0)
    || (c == 0x1680)
    || (leb 0x2000 c && leb c 0x200a)
    || (c == 0x2028)
    || (c == 0x2029)
    || (c == 0x202f)
    || (c == 0x205f)
    || (c == 0x3000)

-- `trim`
unfoldable pub trim_start : List ℕ → List ℕ
trim_start [] = []
trim_start (c ∷ s) = let rest = trim_start s in if is_whitespace c then rest else c ∷ s

unfoldable pub trim : List ℕ → List ℕ
trim s = reverse (trim_start (reverse (trim_start s)))

abbrev pub is_digit : ℕ → Bool
is_digit c = leb b'0' c && leb c b'9'

-- The digits behind the sign, each with a check that the number stays below `limit`.
unfoldable pub parse_digits : ℕ → ℕ → List ℕ → Result ℕ
parse_digits limit n [] = ok n
parse_digits limit n (c ∷ s) =
    let n' = n * 10 + (c - b'0') in
    let rest = parse_digits limit n' s in if is_digit c && ltb n' limit then rest else err

unfoldable pub parse_nonempty : ℕ → List ℕ → Result ℕ
parse_nonempty limit [] = err
parse_nonempty limit (c ∷ s) = parse_digits limit 0 (c ∷ s)

abbrev negated : ℕ → ℤ
negated zero = pos 0
negated (suc n) = negsuc n

abbrev in_front : ℕ → List (List ℕ) → List (List ℕ)
in_front c [] = (c ∷ []) ∷ []
in_front c (part ∷ parts) = (c ∷ part) ∷ parts

-- `parse` of an unsigned integer below `limit`
unfoldable pub parse : ℕ → List ℕ → Result ℕ
parse limit [] = err
parse limit (c ∷ s) = if c == b'+' then parse_nonempty limit s else parse_digits limit 0 (c ∷ s)

-- `parse` of a signed integer from `-limit` on, below `limit`
unfoldable pub parse_signed : ℕ → List ℕ → Result ℤ
parse_signed limit [] = err
parse_signed limit (c ∷ s) =
    if c == b'-'
    then (parse_nonempty (limit + 1) s >>= λ n. ok (negated n))
    else parse limit (c ∷ s) >>= λ n. ok (pos n)

-- `split` at a character
unfoldable pub split : ℕ → List ℕ → List (List ℕ)
split separator [] = [] ∷ []
split separator (c ∷ s) =
    let parts = split separator s in if c == separator then [] ∷ parts else in_front c parts

-- `to_string` of an unsigned integer; each round writes a digit, so `n` and one more are enough.
unfoldable pub digits_of : ℕ → ℕ → List ℕ → List ℕ
digits_of zero n tail = tail
digits_of (suc rounds) n tail =
    let rest = digits_of rounds (n / 10) ((b'0' + n % 10) ∷ tail) in
    if n / 10 == 0 then (b'0' + n % 10) ∷ tail else rest

unfoldable pub to_string : ℕ → List ℕ
to_string n = digits_of (suc n) n []

-- Every number parsed fits its type.
parse_digits-lt :
    (limit n v : ℕ) (s : List ℕ) → n < limit → parse_digits limit n s ≡ ok v → v < limit
unfolding parse_digits
parse_digits-lt limit n v [] h e = ground arith
parse_digits-lt limit n v (c ∷ s) h e =
    ground (arith, parse_digits-lt limit (n * 10 + (c - b'0')) v s)

pub parse-lt : (limit v : ℕ) (s : List ℕ) → 0 < limit → parse limit s ≡ ok v → v < limit
unfolding parse parse_nonempty
parse-lt limit v [] h e = cc
parse-lt limit v (c ∷ []) h e = ground (arith, parse_digits-lt limit 0 v (c ∷ []))
parse-lt limit v (c ∷ d ∷ s) h e =
    ground (arith, parse_digits-lt limit 0 v (c ∷ d ∷ s), parse_digits-lt limit 0 v (d ∷ s))

-- The text of a number is read back.
digit_step :
    (limit k d n : ℕ) (tail : List ℕ)
    → d < 10
    → k * 10 + d ≡ n
    → n < limit
    → parse_digits limit k ((b'0' + d) ∷ tail) ≡ parse_digits limit n tail
unfolding parse_digits
digit_step limit k d n tail h e h' =
    let value : k * 10 + ((b'0' + d) - b'0') ≡ n = omega arith in
    let digit : is_digit (b'0' + d) ≡ true = ground arith in
    rw (value, digit, ltb-true n limit h') refl

parse_digits-digits_of :
    (limit rounds n : ℕ) (tail : List ℕ)
    → n < rounds
    → n < limit
    → parse_digits limit 0 (digits_of rounds n tail) ≡ parse_digits limit n tail
unfolding digits_of
parse_digits-digits_of limit zero n tail h h' = absurd (omega arith)
parse_digits-digits_of limit (suc rounds) n tail h h' = elim (Bool-cases (n / 10 == 0)) [
  | inl e ↦ rw e (unfold parse_digits in ground arith)
  | inr e ↦ rw e (
      parse_digits-digits_of limit rounds (n / 10) ((b'0' + n % 10) ∷ tail) (ground arith)
        (omega arith)
      ∙ digit_step limit (n / 10) (n % 10) n tail (omega arith) (omega arith) h')
]

digits_of-head :
    (rounds n : ℕ) (tail : List ℕ)
    → n < rounds
    → (c : ℕ) × (s : List ℕ) × (digits_of rounds n tail ≡ c ∷ s) × ((c == b'+') ≡ false)
unfolding digits_of
digits_of-head zero n tail h = absurd (omega arith)
digits_of-head (suc rounds) n tail h = elim (Bool-cases (n / 10 == 0)) [
  | inl e ↦ (b'0' + n % 10, tail, rw e refl, ground arith)
  | inr e ↦ rw e (digits_of-head rounds (n / 10) ((b'0' + n % 10) ∷ tail) (ground arith))
]

pub parse-to_string : (limit n : ℕ) → n < limit → parse limit (to_string n) ≡ ok n
unfolding to_string parse
parse-to_string limit n h =
    let (c, s, shape, no_sign) = digits_of-head (suc n) n [] (omega arith) in
    let read = parse_digits-digits_of limit (suc n) n [] (omega arith) h in
    rw (shape, no_sign) ((rw shape at read) ∙ (unfold parse_digits in refl))

-- `to_string` of a signed integer
unfoldable pub int_to_string : ℤ → List ℕ
int_to_string (pos n) = to_string n
int_to_string (negsuc n) = b'-' ∷ to_string (suc n)
