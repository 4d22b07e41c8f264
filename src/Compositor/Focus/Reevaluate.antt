-- ===== src/Compositor/Focus/Reevaluate.antt =====
-- compositor/handlers.rs: `apply_focus` and `reevaluate_focus`.
pub mod Eligible
pub mod Priority
pub mod Promote
pub mod Settled
use moonshine.Common.{
  ℕ, ◌==◌, Bool, true, false, not, ◌&&◌, Option, none, some, List, [], ◌∷◌, ◌++◌, if◌then◌else◌,
}
use moonshine.Common.Int.{ℤ, ==_ℤ}
use moonshine.Compositor.InputSerials.{clear}
use moonshine.Compositor.Focus.{
  WindowMetadata, has_game_id, is_fullscreen, FocusState, mark_dirty, apply,
}
use moonshine.Compositor.Focus.Select.{
  Window, Metadata, metadata_of, build_candidates, FocusControl, pick_best_candidate, ranked,
  promote_transient_child,
}
use moonshine.Compositor.Focus.Apply.{
  Compositor, XServer, Effect, set_focused_app, clear_focused_app, clear_focusable_apps,
  clear_focusable_windows, set_focusable_apps, set_focusable_windows, dismiss_popups, set_activated,
  set_input_focus, pointer_motion, configure_full, same_window, same_number, x11_of, surface_of,
  refresh_metadata, classify_special_windows, clear_dropdowns, overlay_with_input, pointer_target,
  keyboard_target, app_of,
}

-- `focus_changed` of `apply_focus`
unfoldable pub focus_stays : Window → Compositor → Bool
focus_stays best c =
    same_number c.focused_x11_window best.x11
    && same_number (surface_of c.focused_window) best.surface

abbrev focused : Window → Compositor → Compositor
focused best c = record c { focused_window = some best; focused_x11_window = best.x11 }

-- The new focus, and what goes with the old one
unfoldable pub move_focus : Window → Compositor → Compositor
move_focus best c =
    if focus_stays best c
    then focused best c
    else clear_dropdowns (record (focused best c) { input_serials = clear c.input_serials })

abbrev kept_or : Bool → Option ℕ → Option ℕ → Option ℕ
kept_or true old new = old
kept_or false old none = old
kept_or false old (some id) = some id

-- What `apply_focus` leaves
unfoldable pub applied_focus : Window → Compositor → Compositor
applied_focus best c =
    let c' = move_focus best c in
    let overlay = overlay_with_input c' in
    let target = keyboard_target best overlay in
    record c' {
      pointer_focus_window = some (pointer_target best overlay);
      keyboard_request = some target;
      last_keyboard_focus_window =
          kept_or (same_number c.focused_x11_window best.x11) c'.last_keyboard_focus_window
            target.x11;
      focus_state = apply c'.focus_state;
    }

abbrev app_effect : ℕ → Effect
app_effect id = if id == 0 then clear_focused_app else set_focused_app id

abbrev if_server : Option XServer → List Effect → List Effect
if_server none effects = []
if_server (some x) effects = effects

abbrev deactivated : Option Window → Window → List Effect
deactivated none best = []
deactivated (some old) best =
    if old.toplevel && not (old.id == best.id) then set_activated old false ∷ [] else []

-- What `apply_focus` does outside
unfoldable pub apply_effects : Option XServer → Window → Compositor → List Effect
apply_effects x best c =
    let overlay = overlay_with_input (move_focus best c) in
    let target = keyboard_target best overlay in
    let pointed = pointer_target best overlay in
    if_server x (app_effect (app_of (metadata_of c.window_metadata best)) ∷ [])
    ++ ((if focus_stays best c then [] else dismiss_popups c.focused_window ∷ [])
        ++ (deactivated c.focused_window best
            ++ ((if best.toplevel then set_activated best true ∷ [] else [])
                ++ (if_server x (elim target.x11 [ none ↦ [] | some id ↦ set_input_focus id ∷ [] ])
                    ++ elim pointed.surface [ none ↦ [] | some _ ↦ pointer_motion pointed ∷ [] ]))))

-- `apply_focus`
unfoldable pub apply_focus : Option XServer → Window → Compositor → Compositor × List Effect
apply_focus x best c = (applied_focus best c, apply_effects x best c)

abbrev same_size : ℤ × ℤ → ℤ × ℤ → Bool
same_size (w, h) (w', h') = ==_ℤ w w' && ==_ℤ h h'

-- `enforce_fullscreen_geometry`, with the size of the output
unfoldable pub enforce_fullscreen_geometry :
    ℤ × ℤ → Option XServer → Window → Compositor → List Effect
enforce_fullscreen_geometry output none best c = []
enforce_fullscreen_geometry output (some x) best c = elim (metadata_of c.window_metadata best) [
  | none ↦ []
  | some m ↦ elim best.x11 [
    | none ↦ []
    | some id ↦
        if has_game_id m && (is_fullscreen m && not (same_size (x.size_of id) output))
        then configure_full id ∷ []
        else []
  ]
]

-- The app ids and the triplets of the candidates
unfoldable pub focusable_apps : Metadata → List Window → List ℕ
focusable_apps metadata [] = []
focusable_apps metadata (w ∷ ws) =
    let rest = focusable_apps metadata ws in
    let id = app_of (metadata_of metadata w) in if id == 0 then rest else id ∷ rest

unfoldable pub focusable_windows : XServer → Metadata → List Window → List (ℕ × (ℕ × ℕ))
focusable_windows x metadata [] = []
focusable_windows x metadata (w ∷ ws) =
    let rest = focusable_windows x metadata ws in
    elim w.x11 [
      | none ↦ rest
      | some id ↦ elim (metadata_of metadata w) [
        | none ↦ rest
        | some m ↦
            let pid : ℕ = elim m.x11_window_id [ none ↦ 0 | some _ ↦ x.window_pid id ] in
            (id, (m.app_id, pid)) ∷ rest
      ]
    ]

abbrev apps_effect : List ℕ → Effect
apps_effect [] = clear_focusable_apps
apps_effect (id ∷ ids) = set_focusable_apps (id ∷ ids)

abbrev windows_effect : List (ℕ × (ℕ × ℕ)) → Effect
windows_effect [] = clear_focusable_windows
windows_effect (t ∷ ts) = set_focusable_windows (t ∷ ts)

unfoldable pub focusable_effects : Option XServer → Metadata → List Window → List Effect
focusable_effects none metadata ws = []
focusable_effects (some x) metadata ws =
    apps_effect (focusable_apps metadata ws) ∷ windows_effect (focusable_windows x metadata ws) ∷ []

-- The branch without candidates
unfoldable pub no_focus : Compositor → Compositor
no_focus c = record c {
  input_serials = clear c.input_serials;
  focused_window = none;
  focused_x11_window = none;
  keyboard_request = none;
  focus_state = apply c.focus_state;
}

abbrev pub control_of : Option XServer → Option FocusControl
control_of none = none
control_of (some x) = x.focus_control

-- The steps before the choice
unfoldable pub prepared : Option XServer → Compositor → Compositor
prepared x c =
    classify_special_windows
      (refresh_metadata x (record c { focus_state = mark_dirty c.focus_state }))

-- The choice among candidates, of which `w` is the first, and what it leaves of the request
unfoldable pub choose : Option XServer → Compositor → Window → List Window → FocusState × Window
choose x c w ws =
    let (s, chosen) = pick_best_candidate c.window_metadata (w ∷ ws) (control_of x) c.focus_state in
    let best : Window = elim chosen [ none ↦ ranked c.window_metadata w ws | some b ↦ b ] in
    (s, promote_transient_child c.window_metadata c.transient_children best)

unfoldable pub focus_candidates :
    ℤ × ℤ → Option XServer → Compositor → List Window → Compositor × List Effect
focus_candidates output x c [] =
    (no_focus c, dismiss_popups c.focused_window ∷ if_server x (clear_focused_app ∷ []))
focus_candidates output x c (w ∷ ws) =
    let (s, best) = choose x c w ws in
    let c' = record c { focus_state = s } in
    let (c'', effects) = apply_focus x best c' in
    (c'', enforce_fullscreen_geometry output x best c' ++ effects)

-- `reevaluate_focus`
unfoldable pub reevaluate_focus : ℤ × ℤ → Option XServer → Compositor → Compositor × List Effect
reevaluate_focus output x c =
    let c' = prepared x c in
    let candidates = build_candidates c'.window_metadata c'.windows in
    let (c'', effects) = focus_candidates output x c' candidates in
    (c'', focusable_effects x c'.window_metadata candidates ++ effects)
