-- ===== src/Control/Input/Keyboard/Laws.antt =====
-- Key codes on the wire: a key is found by its own discriminant and by no other.
use moonshine.Common.{
  true, ℕ, ◌+◌, ◌*◌, ap, ◌⊎◌, ◌<◌, ◌≤◌, ◌≡◌, ◌↔◌, refl, sym, ◌∙◌, List, [], ◌∷◌, Option, none, some,
  arith, ◌==◌, inl, inr, Bool-cases, length, ltb-false, leb-true, bit_and, not, ◌||◌,
}
use moonshine.Common.Bits.{and_low_byte}
use moonshine.Common.Results.{Result, ok, ok_or, ensure, ◌>>◌}
use moonshine.Control.Input.Keyboard.{from_bytes}
use moonshine.Control.Input.Keyboard.Codes.{Key, to_repr, all_keys, find_repr, from_repr}

from_repr-to_repr : (key : Key) → from_repr (to_repr key) ≡ some key
unfolding from_repr to_repr
from_repr-to_repr Key.backspace = refl
from_repr-to_repr Key.tab = refl
from_repr-to_repr Key.clear = refl
from_repr-to_repr Key.return = refl
from_repr-to_repr Key.shift = refl
from_repr-to_repr Key.control = refl
from_repr-to_repr Key.alt = refl
from_repr-to_repr Key.pause = refl
from_repr-to_repr Key.capslock = refl
from_repr-to_repr Key.katakanahiragana = refl
from_repr-to_repr Key.hangeul = refl
from_repr-to_repr Key.hanja = refl
from_repr-to_repr Key.katakana = refl
from_repr-to_repr Key.escape = refl
from_repr-to_repr Key.space = refl
from_repr-to_repr Key.page_up = refl
from_repr-to_repr Key.page_down = refl
from_repr-to_repr Key.end = refl
from_repr-to_repr Key.home = refl
from_repr-to_repr Key.left = refl
from_repr-to_repr Key.up = refl
from_repr-to_repr Key.right = refl
from_repr-to_repr Key.down = refl
from_repr-to_repr Key.select = refl
from_repr-to_repr Key.print = refl
from_repr-to_repr Key.sys_rq = refl
from_repr-to_repr Key.insert = refl
from_repr-to_repr Key.delete = refl
from_repr-to_repr Key.help = refl
from_repr-to_repr Key.num0 = refl
from_repr-to_repr Key.num1 = refl
from_repr-to_repr Key.num2 = refl
from_repr-to_repr Key.num3 = refl
from_repr-to_repr Key.num4 = refl
from_repr-to_repr Key.num5 = refl
from_repr-to_repr Key.num6 = refl
from_repr-to_repr Key.num7 = refl
from_repr-to_repr Key.num8 = refl
from_repr-to_repr Key.num9 = refl
from_repr-to_repr Key.a = refl
from_repr-to_repr Key.b = refl
from_repr-to_repr Key.c = refl
from_repr-to_repr Key.d = refl
from_repr-to_repr Key.e = refl
from_repr-to_repr Key.f = refl
from_repr-to_repr Key.g = refl
from_repr-to_repr Key.h = refl
from_repr-to_repr Key.i = refl
from_repr-to_repr Key.j = refl
from_repr-to_repr Key.k = refl
from_repr-to_repr Key.l = refl
from_repr-to_repr Key.m = refl
from_repr-to_repr Key.n = refl
from_repr-to_repr Key.o = refl
from_repr-to_repr Key.p = refl
from_repr-to_repr Key.q = refl
from_repr-to_repr Key.r = refl
from_repr-to_repr Key.s = refl
from_repr-to_repr Key.t = refl
from_repr-to_repr Key.u = refl
from_repr-to_repr Key.v = refl
from_repr-to_repr Key.w = refl
from_repr-to_repr Key.x = refl
from_repr-to_repr Key.y = refl
from_repr-to_repr Key.z = refl
from_repr-to_repr Key.left_meta = refl
from_repr-to_repr Key.right_meta = refl
from_repr-to_repr Key.sleep = refl
from_repr-to_repr Key.numpad0 = refl
from_repr-to_repr Key.numpad1 = refl
from_repr-to_repr Key.numpad2 = refl
from_repr-to_repr Key.numpad3 = refl
from_repr-to_repr Key.numpad4 = refl
from_repr-to_repr Key.numpad5 = refl
from_repr-to_repr Key.numpad6 = refl
from_repr-to_repr Key.numpad7 = refl
from_repr-to_repr Key.numpad8 = refl
from_repr-to_repr Key.numpad9 = refl
from_repr-to_repr Key.numpad_asterisk = refl
from_repr-to_repr Key.numpad_plus = refl
from_repr-to_repr Key.numpad_comma = refl
from_repr-to_repr Key.numpad_minus = refl
from_repr-to_repr Key.numpad_dot = refl
from_repr-to_repr Key.numpad_slash = refl
from_repr-to_repr Key.f1 = refl
from_repr-to_repr Key.f2 = refl
from_repr-to_repr Key.f3 = refl
from_repr-to_repr Key.f4 = refl
from_repr-to_repr Key.f5 = refl
from_repr-to_repr Key.f6 = refl
from_repr-to_repr Key.f7 = refl
from_repr-to_repr Key.f8 = refl
from_repr-to_repr Key.f9 = refl
from_repr-to_repr Key.f10 = refl
from_repr-to_repr Key.f11 = refl
from_repr-to_repr Key.f12 = refl
from_repr-to_repr Key.f13 = refl
from_repr-to_repr Key.f14 = refl
from_repr-to_repr Key.f15 = refl
from_repr-to_repr Key.f16 = refl
from_repr-to_repr Key.f17 = refl
from_repr-to_repr Key.f18 = refl
from_repr-to_repr Key.f19 = refl
from_repr-to_repr Key.f20 = refl
from_repr-to_repr Key.f21 = refl
from_repr-to_repr Key.f22 = refl
from_repr-to_repr Key.f23 = refl
from_repr-to_repr Key.f24 = refl
from_repr-to_repr Key.numlock = refl
from_repr-to_repr Key.scroll = refl
from_repr-to_repr Key.left_shift = refl
from_repr-to_repr Key.right_shift = refl
from_repr-to_repr Key.left_control = refl
from_repr-to_repr Key.right_control = refl
from_repr-to_repr Key.left_alt = refl
from_repr-to_repr Key.right_alt = refl
from_repr-to_repr Key.semicolon = refl
from_repr-to_repr Key.equal = refl
from_repr-to_repr Key.comma = refl
from_repr-to_repr Key.minus = refl
from_repr-to_repr Key.dot = refl
from_repr-to_repr Key.slash = refl
from_repr-to_repr Key.grave = refl
from_repr-to_repr Key.left_brace = refl
from_repr-to_repr Key.backslash = refl
from_repr-to_repr Key.right_brace = refl
from_repr-to_repr Key.apostrophe = refl
from_repr-to_repr Key.non_us_backslash = refl

find_repr_sound :
    (code : ℕ) (keys : List Key) (key : Key) → find_repr code keys ≡ some key → to_repr key ≡ code
unfolding find_repr
find_repr_sound code [] key e = cc
find_repr_sound code (first ∷ keys) key e = elim (Bool-cases (to_repr first == code)) [
  | inl hit ↦ ground arith
  | inr miss ↦ find_repr_sound code keys key (ground arith)
]

from_repr_iff : (code : ℕ) (key : Key) → (from_repr code ≡ some key) ↔ (to_repr key ≡ code)
unfolding from_repr find_repr
from_repr_iff code key = (find_repr_sound code all_keys key, λ e. rw (← e) (from_repr-to_repr key))

-- The two codes that are told apart from the unknown ones are no key's either.
checked : ℕ → Result Key
checked code = ensure (not (code == 0 || code == 255)) >> ok_or (from_repr code)

no_key_zero : from_repr 0 ≡ none
unfolding from_repr
no_key_zero = refl

no_key_255 : from_repr 255 ≡ none
unfolding from_repr
no_key_255 = refl

skipped_cases : (code : ℕ) → (code == 0 || code == 255) ≡ true → (code ≡ 0) ⊎ (code ≡ 255)
skipped_cases code e = ground arith

checked_lem : (code : ℕ) → checked code ≡ ok_or (from_repr code)
unfolding checked
checked_lem code = elim (Bool-cases (code == 0 || code == 255)) [
  | inr other ↦ rw other refl
  | inl skipped ↦ elim (skipped_cases code skipped) [
    | inl zero ↦ rw (skipped, zero, no_key_zero) refl
    | inr last ↦ rw (skipped, last, no_key_255) refl
  ]
]

ok_or_iff : (o : Option Key) (key : Key) → (ok_or o ≡ ok key) ↔ (o ≡ some key)
ok_or_iff none key = (λ e. cc, λ e. cc)
ok_or_iff (some k') key = (λ e. cc, λ e. cc)

checked_iff : (code : ℕ) (key : Key) → (checked code ≡ ok key) ↔ (to_repr key ≡ code)
checked_iff code key = (
  (λ e.
      (from_repr_iff code key).0 ((ok_or_iff (from_repr code) key).0 (sym (checked_lem code) ∙ e))),
  (λ e. checked_lem code ∙ ap (λ (o : Option Key). ok_or o) ((from_repr_iff code key).1 e)),
)

-- A key packet of six bytes or more is read as the key whose code is the second byte, whatever the
-- other bytes are, and as none where no key has that code.
from_bytes_iff :
    (flags code : ℕ) (rest : List ℕ) (key : Key)
    → code < 256
    → 4 ≤ length rest
    → (from_bytes (flags ∷ code ∷ rest) ≡ ok key) ↔ (to_repr key ≡ code)
unfolding from_bytes checked
from_bytes_iff flags code [] key h enough = absurd (omega arith)
from_bytes_iff flags code (high ∷ rest) key h enough =
    let low : bit_and (code + 256 * (high + 256 * 0)) 255 ≡ code =
      omega (arith, and_low_byte (code + 256 * (high + 256 * 0))) in
    rw
      (
        ltb-false (length (flags ∷ code ∷ high ∷ rest)) 6 (omega arith),
        leb-true 3 (length (flags ∷ code ∷ high ∷ rest)) (omega arith),
        low,
      )
      (checked_iff code key)
