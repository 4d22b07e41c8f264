-- ===== src/Tests/Focus.antt =====
-- The theorems of the focus at concrete inputs.
use moonshine.Common.{ℕ, ◌≡◌, refl, true, false, none, some, [], ◌∷◌, Bool, Option}
use moonshine.Common.Int.{pos, ==_ℤ}
use moonshine.Compositor.InputSerials.{contains, clear}
use moonshine.Compositor.Focus.{
  WindowMetadata, get_window_priority_key, key_le, has_game_id, is_useless, is_dropdown,
  skip_and_not_fullscreen, has_flag, intersects, mark_dirty, apply,
}
use moonshine.Compositor.Focus.Select.{
  Window, Metadata, metadata_of, ranked, key_of, sort_by, insert_by, filter, best_flagged,
  is_candidate, build_candidates, pick_best_candidate, steam_choice, promote_transient_child,
  promote_from, children_of,
}
use moonshine.Compositor.Focus.Apply.{
  Compositor, refresh_metadata, classify_special_windows, clear_dropdowns, overlay_with_input,
}
use moonshine.Compositor.Focus.Reevaluate.{
  prepared, choose, focus_candidates, apply_focus, applied_focus, move_focus, focus_stays,
  reevaluate_focus,
}
use moonshine.Compositor.Focus.Reevaluate.Priority.{
  traits, YieldsTo, is_game, IsOneOf, AllBelow, ranked-highest,
}
use moonshine.Compositor.Focus.Reevaluate.Settled.{reevaluate_focus-clears}
use moonshine.Compositor.Focus.Reevaluate.Eligible.{IsChosen, reevaluate_focus-IsChosen}

abbrev window : ℕ → Window
window id = record { id = id; x11 = some id; surface = some id; toplevel = false; unmapped = false }

abbrev of_app : ℕ → WindowMetadata
of_app id = record {
  app_id = id;
  x11_window_id = none;
  transient_for = none;
  skip_taskbar = false;
  skip_pager = false;
  is_dialog = false;
  maybe_a_dropdown = false;
  disabled = false;
  map_sequence = 0;
  override_redirect = false;
  is_x11 = true;
  size = (pos 1920, pos 1080);
  fullscreen = true;
  opacity = 255;
  input_focus_mode = 0;
  flags = 0;
  damage_sequence = 0;
}

-- A launcher and a game
abbrev known : Metadata
known = (window 1, of_app 0) ∷ (window 2, of_app 7) ∷ []

ranked-highest_example :
    IsOneOf (ranked known (window 1) (window 2 ∷ [])) (window 1 ∷ window 2 ∷ [])
    × AllBelow
        (key_of known)
        (key_of known (ranked known (window 1) (window 2 ∷ [])))
        (window 1 ∷ window 2 ∷ [])
    × ((v : Window)
        → IsOneOf v (window 1 ∷ window 2 ∷ [])
        → is_game known v ≡ true
        → is_game known (ranked known (window 1) (window 2 ∷ [])) ≡ true)
    × ((v : Window) (x y : WindowMetadata)
        → IsOneOf v (window 1 ∷ window 2 ∷ [])
        → metadata_of known v ≡ some x
        → metadata_of known (ranked known (window 1) (window 2 ∷ [])) ≡ some y
        → YieldsTo (traits x) x.map_sequence (traits y) y.map_sequence)
ranked-highest_example = ranked-highest known (window 1) (window 2 ∷ [])

-- The launcher is focused, and a click in it was recorded.
abbrev launcher_focused : Compositor
launcher_focused = record {
  windows = window 1 ∷ window 2 ∷ [];
  window_metadata = known;
  transient_children = [];
  focused_window = some (window 1);
  focused_x11_window = some 1;
  overlay_window = none;
  notification_window = none;
  external_overlay_window = none;
  override_window = none;
  pointer_focus_window = some (window 1);
  keyboard_request = some (window 1);
  last_keyboard_focus_window = some 1;
  focus_state = record { dirty = false; requested_focus_window = none };
  input_serials = record { entries = (5, some 1) ∷ [] };
}

abbrev after : Compositor
after = (reevaluate_focus (pos 1920, pos 1080) none launcher_focused).0

reevaluate_focus-IsChosen_example : IsChosen (prepared none launcher_focused) after.focused_window
reevaluate_focus-IsChosen_example =
    reevaluate_focus-IsChosen (pos 1920, pos 1080) none launcher_focused

-- The game gets the focus.
after_focus : after.focused_window ≡ some (window 2)
unfolding reevaluate_focus prepared focus_candidates build_candidates filter
    classify_special_windows refresh_metadata is_candidate metadata_of intersects apply_focus
    applied_focus move_focus focus_stays choose promote_transient_child pick_best_candidate
    best_flagged has_flag ==_ℤ clear_dropdowns overlay_with_input children_of insert_by key_of
    promote_from ranked sort_by steam_choice apply get_window_priority_key has_game_id is_dropdown
    is_useless key_le mark_dirty skip_and_not_fullscreen clear
after_focus = refl

abbrev same_client : Option ℕ → Option ℕ → Bool
same_client a b = true

reevaluate_focus-clears_example : contains same_client after.input_serials 5 (some 1) ≡ false
unfolding reevaluate_focus prepared focus_candidates build_candidates filter
    classify_special_windows refresh_metadata is_candidate metadata_of intersects apply_focus
    applied_focus move_focus focus_stays choose promote_transient_child pick_best_candidate
    best_flagged has_flag ==_ℤ clear_dropdowns overlay_with_input children_of insert_by key_of
    promote_from ranked sort_by steam_choice apply get_window_priority_key has_game_id is_dropdown
    is_useless key_le mark_dirty skip_and_not_fullscreen clear
reevaluate_focus-clears_example =
    reevaluate_focus-clears (pos 1920, pos 1080) none launcher_focused same_client 5 (some 1) refl
