-- ===== src/Compositor/Focus/Reevaluate/Settled.antt =====
-- compositor/handlers.rs: what holds of the focus after `reevaluate_focus`.
use moonshine.Common.{
  not, ℕ, ◌==◌, ◌≡◌, ◌⊎◌, inl, inr, refl, ap, ◌∙◌, Bool, true, false, ◌&&◌, Option, none, some,
  List, [], ◌∷◌, arith, Bool-cases, Option-cases,
}
use moonshine.Common.Int.{ℤ}
use moonshine.Compositor.InputSerials.{contains, clear}
use moonshine.Compositor.Focus.Select.{Window, metadata_of, build_candidates}
use moonshine.Compositor.Focus.Apply.{
  Compositor, XServer, same_number, surface_of, refresh_metadata, classify_special_windows,
  clear_dropdowns, overlay_with_input,
}
use moonshine.Compositor.Focus.Reevaluate.{
  focus_stays, move_focus, applied_focus, apply_focus, no_focus, prepared, choose, focus_candidates,
  reevaluate_focus,
}

-- The keyboard is asked for the focused window or the overlay, and the pointer is on one of them;
-- without a focused window there is no X11 focus, and the keyboard is asked for no window.
abbrev pub Targets : Option Window → Compositor → Type 0
Targets none c = (c.focused_x11_window ≡ none) × (c.keyboard_request ≡ none)
Targets (some w) c =
    (c.focused_x11_window ≡ w.x11)
    × ((c.keyboard_request ≡ some w) ⊎ (c.keyboard_request ≡ c.overlay_window))
    × ((c.pointer_focus_window ≡ some w) ⊎ (c.pointer_focus_window ≡ c.overlay_window))

clear_dropdowns-overlay : (c : Compositor) → (clear_dropdowns c).overlay_window ≡ c.overlay_window
unfolding clear_dropdowns
clear_dropdowns-overlay c = ground arith

clear_dropdowns-focus :
    (c : Compositor)
    → ((clear_dropdowns c).focused_window ≡ c.focused_window)
      × ((clear_dropdowns c).focused_x11_window ≡ c.focused_x11_window)
      × ((clear_dropdowns c).input_serials ≡ c.input_serials)
unfolding clear_dropdowns
clear_dropdowns-focus c = ground arith

overlay_with_input-cases :
    (c : Compositor)
    → (overlay_with_input c ≡ none)
      ⊎ ((w : Window) × (mode : ℕ) × (overlay_with_input c ≡ some (w, mode))
          × (c.overlay_window ≡ some w))
unfolding overlay_with_input
overlay_with_input-cases c = elim (Option-cases c.overlay_window) [
  | inl e ↦ inl (rw e refl)
  | inr (w, e) ↦ elim (Option-cases (metadata_of c.window_metadata w)) [
    | inl f ↦ inl (ground (arith, e, f))
    | inr (m, f) ↦ elim (Bool-cases (m.input_focus_mode == 0)) [
      | inl zero_mode ↦ inl (ground (arith, e, f, zero_mode))
      | inr some_mode ↦ inr (w, m.input_focus_mode, ground (arith, e, f, some_mode), e)
    ]
  ]
]

move_focus-focused :
    (w : Window) (c : Compositor)
    → ((move_focus w c).focused_window ≡ some w) × ((move_focus w c).focused_x11_window ≡ w.x11)
unfolding move_focus clear_dropdowns
move_focus-focused w c = ground arith

pub applied_focus-Targets :
    (w : Window) (c : Compositor)
    → ((applied_focus w c).focused_window ≡ some w) × Targets (some w) (applied_focus w c)
unfolding applied_focus
applied_focus-Targets w c =
    let (is_focused, same_x11) = move_focus-focused w c in
    elim (overlay_with_input-cases (move_focus w c)) [
      | inl e ↦ (is_focused, (same_x11, inl (ground (arith, e)), inl (ground (arith, e))))
      | inr (o, mode, e, f) ↦ (
        is_focused,
        (
          same_x11,
          elim (Bool-cases (mode == 2)) [
            | inl two ↦ inl (ground (arith, e, two))
            | inr other ↦ inr (ground (arith, e, f, other))
          ],
          inr (ground (arith, e, f)),
        ),
      )
    ]

prepared-focus :
    (x : Option XServer) (c : Compositor)
    → ((prepared x c).focused_window ≡ c.focused_window)
      × ((prepared x c).focused_x11_window ≡ c.focused_x11_window)
unfolding prepared classify_special_windows refresh_metadata
prepared-focus none c = ground arith
prepared-focus (some x) c = ground arith

-- The comparison of `apply_focus`, of an X11 id and a window with the focus afterwards
abbrev pub has_moved : Option ℕ → Option Window → Compositor → Bool
has_moved x11 window c = not (
    same_number x11 c.focused_x11_window
    && same_number (surface_of window) (surface_of c.focused_window))

applied_focus-cleared :
    (w : Window) (c : Compositor)
    → has_moved c.focused_x11_window c.focused_window (applied_focus w c) ≡ true
    → (applied_focus w c).input_serials.entries ≡ []
unfolding applied_focus
applied_focus-cleared w c h =
    let (is_focused, same_x11) = move_focus-focused w c in
    let stays : focus_stays w c ≡ false =
      unfold focus_stays in ground (arith, rw (is_focused, same_x11) at h) in
    unfold move_focus in unfold clear_dropdowns in unfold clear in ground (arith, stays)

focus_candidates-cleared :
    (output : ℤ × ℤ) (x : Option XServer) (d : Compositor) (ws : List Window)
    → has_moved d.focused_x11_window d.focused_window (focus_candidates output x d ws).0 ≡ true
    → (focus_candidates output x d ws).0.input_serials.entries ≡ []
unfolding focus_candidates no_focus apply_focus
focus_candidates-cleared output x d [] h = unfold clear in refl
focus_candidates-cleared output x d (w ∷ ws) h =
    let (s, best) = choose x d w ws in applied_focus-cleared best (record d { focus_state = s }) h

-- Whenever `reevaluate_focus` changes the focused window's surface or its X11 id, no serial of an
-- action that a client received before authorises it any more.
pub reevaluate_focus-clears :
    (output : ℤ × ℤ) (x : Option XServer) (c : Compositor) (eq : Option ℕ → Option ℕ → Bool)
    (serial : ℕ) (client : Option ℕ)
    → let c' = (reevaluate_focus output x c).0 in
      has_moved c.focused_x11_window c.focused_window c' ≡ true
      → contains eq c'.input_serials serial client ≡ false
unfolding reevaluate_focus contains
reevaluate_focus-clears output x c eq serial client h =
    let (same_focus, same_x11) = prepared-focus x c in
    let c' = (reevaluate_focus output x c).0 in
    let cleared =
      focus_candidates-cleared output x (prepared x c)
        (build_candidates (prepared x c).window_metadata (prepared x c).windows)
        (ap (λ (old : Option ℕ). has_moved old (prepared x c).focused_window c') same_x11
          ∙ ap (λ (old : Option Window). has_moved c.focused_x11_window old c') same_focus
          ∙ h) in
    rw cleared refl
