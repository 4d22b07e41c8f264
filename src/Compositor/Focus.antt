-- ===== src/Compositor/Focus.antt =====
-- compositor/focus.rs: what is known of a window, its priority, and whether the focus is settled.
pub mod Select
pub mod Apply
pub mod Reevaluate
use moonshine.Common.{
  ℕ, ◌==◌, Bool, true, false, not, ◌&&◌, ◌||◌, Option, none, some, List, [], ◌∷◌, bit_and, leb, ltb,
  if◌then◌else◌,
}
use moonshine.Common.Int.{ℤ, pos, ==_ℤ}

-- `WindowFlags`
abbrev pub overlay_flag : ℕ
overlay_flag = 1

abbrev pub notification_flag : ℕ
notification_flag = 2

abbrev pub external_overlay_flag : ℕ
external_overlay_flag = 4

abbrev pub skip_focus : ℕ
skip_focus = 127

-- `contains` of a single flag, and `intersects`
unfoldable pub has_flag : ℕ → ℕ → Bool
has_flag flag flags = bit_and flags flag == flag

unfoldable pub intersects : ℕ → ℕ → Bool
intersects mask flags = not (bit_and flags mask == 0)

-- `WindowMetadata`, with the size of its geometry
pub record WindowMetadata : Type 0 where
  pub app_id : ℕ
  pub x11_window_id : Option ℕ
  pub transient_for : Option ℕ
  pub skip_taskbar : Bool
  pub skip_pager : Bool
  pub is_dialog : Bool
  pub maybe_a_dropdown : Bool
  pub disabled : Bool
  pub map_sequence : ℕ
  pub override_redirect : Bool
  pub is_x11 : Bool
  pub size : ℤ × ℤ
  pub fullscreen : Bool
  pub opacity : ℕ
  pub input_focus_mode : ℕ
  pub flags : ℕ
  pub damage_sequence : ℕ

unfoldable pub has_game_id : WindowMetadata → Bool
has_game_id w = not (w.app_id == 0)

unfoldable pub is_useless : WindowMetadata → Bool
is_useless w = ==_ℤ (w.size.0) (pos 1) && ==_ℤ (w.size.1) (pos 1)

unfoldable pub is_dropdown : WindowMetadata → Bool
is_dropdown w = w.maybe_a_dropdown || (w.override_redirect && not (is_useless w))

unfoldable pub is_steam_big_picture : WindowMetadata → Bool
is_steam_big_picture w = w.app_id == 769

unfoldable pub is_fullscreen : WindowMetadata → Bool
is_fullscreen w = w.fullscreen || is_steam_big_picture w

unfoldable pub skip_and_not_fullscreen : WindowMetadata → Bool
skip_and_not_fullscreen w = (w.skip_taskbar && w.skip_pager) && not w.fullscreen

abbrev pub bit : Bool → ℕ
bit true = 1
bit false = 0

abbrev pub is_none {ℓ} : {A : Type ℓ} → Option A → Bool
is_none none = true
is_none (some a) = false

-- The tuple of a priority key, and its `Default`; `false` is less than `true`.
abbrev pub Key : Type 0
Key = List ℕ

abbrev pub default_key : Key
default_key = 0 ∷ 0 ∷ 0 ∷ 0 ∷ 0 ∷ 0 ∷ 0 ∷ 0 ∷ 0 ∷ 0 ∷ 0 ∷ []

-- `get_window_priority_key`
unfoldable pub get_window_priority_key : WindowMetadata → Key
get_window_priority_key w =
    bit (has_game_id w)
    ∷ bit (not w.override_redirect)
    ∷ bit (not (is_useless w))
    ∷ bit (not (is_dropdown w))
    ∷ bit (not w.disabled)
    ∷ bit (not (skip_and_not_fullscreen w))
    ∷ bit (not w.is_dialog)
    ∷ bit (not w.is_x11)
    ∷ bit (is_none w.transient_for)
    ∷ w.map_sequence
    ∷ w.damage_sequence
    ∷ []

-- The order of tuples
unfoldable pub key_le : Key → Key → Bool
key_le [] b = true
key_le (x ∷ a) [] = false
key_le (x ∷ a) (y ∷ b) = ltb x y || ((x == y) && key_le a b)

-- `FocusState`
pub record FocusState : Type 0 where
  pub dirty : Bool
  pub requested_focus_window : Option ℕ

unfoldable pub mark_dirty : FocusState → FocusState
mark_dirty s = record s { dirty = true }

unfoldable pub apply : FocusState → FocusState
apply s = record s { dirty = false }

unfoldable pub set_requested_focus : ℕ → FocusState → FocusState
set_requested_focus id s = mark_dirty (record s { requested_focus_window = some id })

unfoldable pub clear_requested_focus : FocusState → FocusState
clear_requested_focus s = record s { requested_focus_window = none }
