-- ===== src/Control/Input/Keyboard/Codes.antt =====
-- The keys, by their Windows virtual key codes.
use moonshine.Common.{ℕ, List, [], ◌∷◌, Option, none, some, ◌==◌, if◌then◌else◌}

-- `Key`
pub data Key : Type 0 where
  backspace tab clear return shift control alt pause capslock katakanahiragana hangeul hanja : Key
  katakana escape space page_up page_down end home left up right down select print sys_rq : Key
  insert delete help num0 num1 num2 num3 num4 num5 num6 num7 num8 num9 a b c d e f g h i j k l : Key
  m n o p q r s t u v w x y z left_meta right_meta sleep numpad0 numpad1 numpad2 numpad3 : Key
  numpad4 numpad5 numpad6 numpad7 numpad8 numpad9 numpad_asterisk numpad_plus numpad_comma : Key
  numpad_minus numpad_dot numpad_slash f1 f2 f3 f4 f5 f6 f7 f8 f9 f10 f11 f12 f13 f14 f15 f16 : Key
  f17 f18 f19 f20 f21 f22 f23 f24 numlock scroll left_shift right_shift left_control : Key
  right_control left_alt right_alt semicolon equal comma minus dot slash grave left_brace : Key
  backslash right_brace apostrophe non_us_backslash : Key

-- `Key as u8`
unfoldable pub to_repr : Key → ℕ
to_repr backspace = 0x08
to_repr tab = 0x09
to_repr clear = 0x0C
to_repr return = 0x0D
to_repr shift = 0x10
to_repr control = 0x11
to_repr alt = 0x12
to_repr pause = 0x13
to_repr capslock = 0x14
to_repr katakanahiragana = 0x15
to_repr hangeul = 0x16
to_repr hanja = 0x17
to_repr katakana = 0x19
to_repr escape = 0x1B
to_repr space = 0x20
to_repr page_up = 0x21
to_repr page_down = 0x22
to_repr end = 0x23
to_repr home = 0x24
to_repr left = 0x25
to_repr up = 0x26
to_repr right = 0x27
to_repr down = 0x28
to_repr select = 0x29
to_repr print = 0x2A
to_repr sys_rq = 0x2C
to_repr insert = 0x2D
to_repr delete = 0x2E
to_repr help = 0x2F
to_repr num0 = 0x30
to_repr num1 = 0x31
to_repr num2 = 0x32
to_repr num3 = 0x33
to_repr num4 = 0x34
to_repr num5 = 0x35
to_repr num6 = 0x36
to_repr num7 = 0x37
to_repr num8 = 0x38
to_repr num9 = 0x39
to_repr a = 0x41
to_repr b = 0x42
to_repr c = 0x43
to_repr d = 0x44
to_repr e = 0x45
to_repr f = 0x46
to_repr g = 0x47
to_repr h = 0x48
to_repr i = 0x49
to_repr j = 0x4A
to_repr k = 0x4B
to_repr l = 0x4C
to_repr m = 0x4D
to_repr n = 0x4E
to_repr o = 0x4F
to_repr p = 0x50
to_repr q = 0x51
to_repr r = 0x52
to_repr s = 0x53
to_repr t = 0x54
to_repr u = 0x55
to_repr v = 0x56
to_repr w = 0x57
to_repr x = 0x58
to_repr y = 0x59
to_repr z = 0x5A
to_repr left_meta = 0x5B
to_repr right_meta = 0x5C
to_repr sleep = 0x5F
to_repr numpad0 = 0x60
to_repr numpad1 = 0x61
to_repr numpad2 = 0x62
to_repr numpad3 = 0x63
to_repr numpad4 = 0x64
to_repr numpad5 = 0x65
to_repr numpad6 = 0x66
to_repr numpad7 = 0x67
to_repr numpad8 = 0x68
to_repr numpad9 = 0x69
to_repr numpad_asterisk = 0x6A
to_repr numpad_plus = 0x6B
to_repr numpad_comma = 0x6C
to_repr numpad_minus = 0x6D
to_repr numpad_dot = 0x6E
to_repr numpad_slash = 0x6F
to_repr f1 = 0x70
to_repr f2 = 0x71
to_repr f3 = 0x72
to_repr f4 = 0x73
to_repr f5 = 0x74
to_repr f6 = 0x75
to_repr f7 = 0x76
to_repr f8 = 0x77
to_repr f9 = 0x78
to_repr f10 = 0x79
to_repr f11 = 0x7A
to_repr f12 = 0x7B
to_repr f13 = 0x7C
to_repr f14 = 0x7D
to_repr f15 = 0x7E
to_repr f16 = 0x7F
to_repr f17 = 0x80
to_repr f18 = 0x81
to_repr f19 = 0x82
to_repr f20 = 0x83
to_repr f21 = 0x84
to_repr f22 = 0x85
to_repr f23 = 0x86
to_repr f24 = 0x87
to_repr numlock = 0x90
to_repr scroll = 0x91
to_repr left_shift = 0xA0
to_repr right_shift = 0xA1
to_repr left_control = 0xA2
to_repr right_control = 0xA3
to_repr left_alt = 0xA4
to_repr right_alt = 0xA5
to_repr semicolon = 0xBA
to_repr equal = 0xBB
to_repr comma = 0xBC
to_repr minus = 0xBD
to_repr dot = 0xBE
to_repr slash = 0xBF
to_repr grave = 0xC0
to_repr left_brace = 0xDB
to_repr backslash = 0xDC
to_repr right_brace = 0xDD
to_repr apostrophe = 0xDE
to_repr non_us_backslash = 0xE2

-- The variants, in the order of their discriminants.
abbrev pub all_keys : List Key
all_keys =
    backspace ∷ tab ∷ clear ∷ return ∷ shift ∷ control ∷ alt ∷ pause ∷ capslock ∷ katakanahiragana
    ∷ hangeul ∷ hanja ∷ katakana ∷ escape ∷ space ∷ page_up ∷ page_down ∷ end ∷ home ∷ left ∷ up
    ∷ right ∷ down ∷ select ∷ print ∷ sys_rq ∷ insert ∷ delete ∷ help ∷ num0 ∷ num1 ∷ num2 ∷ num3
    ∷ num4 ∷ num5 ∷ num6 ∷ num7 ∷ num8 ∷ num9 ∷ a ∷ b ∷ c ∷ d ∷ e ∷ f ∷ g ∷ h ∷ i ∷ j ∷ k ∷ l ∷ m
    ∷ n ∷ o ∷ p ∷ q ∷ r ∷ s ∷ t ∷ u ∷ v ∷ w ∷ x ∷ y ∷ z ∷ left_meta ∷ right_meta ∷ sleep ∷ numpad0
    ∷ numpad1 ∷ numpad2 ∷ numpad3 ∷ numpad4 ∷ numpad5 ∷ numpad6 ∷ numpad7 ∷ numpad8 ∷ numpad9
    ∷ numpad_asterisk ∷ numpad_plus ∷ numpad_comma ∷ numpad_minus ∷ numpad_dot ∷ numpad_slash ∷ f1
    ∷ f2 ∷ f3 ∷ f4 ∷ f5 ∷ f6 ∷ f7 ∷ f8 ∷ f9 ∷ f10 ∷ f11 ∷ f12 ∷ f13 ∷ f14 ∷ f15 ∷ f16 ∷ f17 ∷ f18
    ∷ f19 ∷ f20 ∷ f21 ∷ f22 ∷ f23 ∷ f24 ∷ numlock ∷ scroll ∷ left_shift ∷ right_shift ∷ left_control
    ∷ right_control ∷ left_alt ∷ right_alt ∷ semicolon ∷ equal ∷ comma ∷ minus ∷ dot ∷ slash ∷ grave
    ∷ left_brace ∷ backslash ∷ right_brace ∷ apostrophe ∷ non_us_backslash ∷ []

-- The first variant with a discriminant, which is the only one.
unfoldable pub find_repr : ℕ → List Key → Option Key
unfolding to_repr
find_repr code [] = none
find_repr code (key ∷ keys) = if to_repr key == code then some key else find_repr code keys

-- `Key::from_repr`
unfoldable pub from_repr : ℕ → Option Key
unfolding find_repr
from_repr code = find_repr code all_keys
