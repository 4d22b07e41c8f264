-- ===== src/Control/Input/Keyboard/Evdev.antt =====
-- The evdev codes of the keys.
use moonshine.Common.{ℕ, Option, none, some}
use moonshine.Control.Input.Keyboard.Codes.{
  Key, backspace, tab, return, shift, control, alt, pause, capslock, escape, space, page_up,
  page_down, end, home, left, up, right, down, insert, delete, num0, num1, num2, num3, num4, num5,
  num6, num7, num8, num9, a, b, c, d, e, f, g, h, i, j, k, l, m, n, o, p, q, r, s, t, u, v, w, x, y,
  z, left_meta, right_meta, numpad0, numpad1, numpad2, numpad3, numpad4, numpad5, numpad6, numpad7,
  numpad8, numpad9, numpad_asterisk, numpad_plus, numpad_minus, numpad_dot, numpad_slash, f1, f2,
  f3, f4, f5, f6, f7, f8, f9, f10, f11, f12, numlock, scroll, left_shift, right_shift, left_control,
  right_control, left_alt, right_alt, semicolon, equal, comma, minus, dot, slash, grave, left_brace,
  backslash, right_brace, apostrophe, non_us_backslash,
}

unfoldable pub to_linux_keycode : Key → Option ℕ
to_linux_keycode backspace = some 14
to_linux_keycode tab = some 15
to_linux_keycode return = some 28
to_linux_keycode shift = some 42
to_linux_keycode control = some 29
to_linux_keycode alt = some 56
to_linux_keycode pause = some 119
to_linux_keycode capslock = some 58
to_linux_keycode escape = some 1
to_linux_keycode space = some 57
to_linux_keycode page_up = some 104
to_linux_keycode page_down = some 109
to_linux_keycode end = some 107
to_linux_keycode home = some 102
to_linux_keycode left = some 105
to_linux_keycode up = some 103
to_linux_keycode right = some 106
to_linux_keycode down = some 108
to_linux_keycode insert = some 110
to_linux_keycode delete = some 111
to_linux_keycode num0 = some 11
to_linux_keycode num1 = some 2
to_linux_keycode num2 = some 3
to_linux_keycode num3 = some 4
to_linux_keycode num4 = some 5
to_linux_keycode num5 = some 6
to_linux_keycode num6 = some 7
to_linux_keycode num7 = some 8
to_linux_keycode num8 = some 9
to_linux_keycode num9 = some 10
to_linux_keycode a = some 30
to_linux_keycode b = some 48
to_linux_keycode c = some 46
to_linux_keycode d = some 32
to_linux_keycode e = some 18
to_linux_keycode f = some 33
to_linux_keycode g = some 34
to_linux_keycode h = some 35
to_linux_keycode i = some 23
to_linux_keycode j = some 36
to_linux_keycode k = some 37
to_linux_keycode l = some 38
to_linux_keycode m = some 50
to_linux_keycode n = some 49
to_linux_keycode o = some 24
to_linux_keycode p = some 25
to_linux_keycode q = some 16
to_linux_keycode r = some 19
to_linux_keycode s = some 31
to_linux_keycode t = some 20
to_linux_keycode u = some 22
to_linux_keycode v = some 47
to_linux_keycode w = some 17
to_linux_keycode x = some 45
to_linux_keycode y = some 21
to_linux_keycode z = some 44
to_linux_keycode left_meta = some 125
to_linux_keycode right_meta = some 126
to_linux_keycode numpad0 = some 82
to_linux_keycode numpad1 = some 79
to_linux_keycode numpad2 = some 80
to_linux_keycode numpad3 = some 81
to_linux_keycode numpad4 = some 75
to_linux_keycode numpad5 = some 76
to_linux_keycode numpad6 = some 77
to_linux_keycode numpad7 = some 71
to_linux_keycode numpad8 = some 72
to_linux_keycode numpad9 = some 73
to_linux_keycode numpad_asterisk = some 55
to_linux_keycode numpad_plus = some 78
to_linux_keycode numpad_minus = some 74
to_linux_keycode numpad_dot = some 83
to_linux_keycode numpad_slash = some 98
to_linux_keycode f1 = some 59
to_linux_keycode f2 = some 60
to_linux_keycode f3 = some 61
to_linux_keycode f4 = some 62
to_linux_keycode f5 = some 63
to_linux_keycode f6 = some 64
to_linux_keycode f7 = some 65
to_linux_keycode f8 = some 66
to_linux_keycode f9 = some 67
to_linux_keycode f10 = some 68
to_linux_keycode f11 = some 87
to_linux_keycode f12 = some 88
to_linux_keycode numlock = some 69
to_linux_keycode scroll = some 70
to_linux_keycode left_shift = some 42
to_linux_keycode right_shift = some 54
to_linux_keycode left_control = some 29
to_linux_keycode right_control = some 97
to_linux_keycode left_alt = some 56
to_linux_keycode right_alt = some 100
to_linux_keycode semicolon = some 39
to_linux_keycode equal = some 13
to_linux_keycode comma = some 51
to_linux_keycode minus = some 12
to_linux_keycode dot = some 52
to_linux_keycode slash = some 53
to_linux_keycode grave = some 41
to_linux_keycode left_brace = some 26
to_linux_keycode backslash = some 43
to_linux_keycode right_brace = some 27
to_linux_keycode apostrophe = some 40
to_linux_keycode non_us_backslash = some 86
to_linux_keycode _ = none
