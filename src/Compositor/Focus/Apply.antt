-- ===== src/Compositor/Focus/Apply.antt =====
-- compositor/handlers.rs and state.rs: the state that the focus reads and writes, and its steps.
use moonshine.Common.{
  ℕ, ◌==◌, Bool, true, false, not, ◌&&◌, Option, none, some, List, [], ◌∷◌, if◌then◌else◌,
}
use moonshine.Common.Int.{ℤ}
use moonshine.Compositor.InputSerials.{InputSerials}
use moonshine.Compositor.Focus.{
  WindowMetadata, overlay_flag, notification_flag, external_overlay_flag, has_flag, FocusState,
  mark_dirty,
}
use moonshine.Compositor.Focus.Select.{
  Window, Metadata, metadata_of, Children, filter, best_flagged, FocusControl,
}

-- The fields of `MoonshineCompositor` that the focus reads and writes; `windows` are those of its
-- space, `keyboard_request` is what its seat was last asked to give the keyboard to (`set_focus`), which
-- a popup that has grabbed the keyboard may keep from it, and a client of the serials is a surface.
pub record Compositor : Type 0 where
  pub windows : List Window
  pub window_metadata : Metadata
  pub transient_children : Children
  pub focused_window : Option Window
  pub focused_x11_window : Option ℕ
  pub overlay_window : Option Window
  pub notification_window : Option Window
  pub external_overlay_window : Option Window
  pub override_window : Option Window
  pub pointer_focus_window : Option Window
  pub keyboard_request : Option Window
  pub last_keyboard_focus_window : Option ℕ
  pub focus_state : FocusState
  pub input_serials : InputSerials (Option ℕ)

-- What the X server and the processes answer (`X11FocusManager`, `get_appid_from_pid`)
pub record XServer : Type 0 where
  pub input_focus_mode : ℕ → ℕ
  pub window_pid : ℕ → ℕ
  pub app_of_pid : ℕ → ℕ
  pub focus_control : Option FocusControl
  pub size_of : ℕ → ℤ × ℤ

-- What is done outside of that state.
pub data Effect : Type 0 where
  set_focused_app : ℕ → Effect
  clear_focused_app clear_focusable_apps clear_focusable_windows : Effect
  set_focusable_apps : List ℕ → Effect
  set_focusable_windows : List (ℕ × (ℕ × ℕ)) → Effect
  dismiss_popups : Option Window → Effect
  set_activated : Window → Bool → Effect
  set_input_focus : ℕ → Effect
  pointer_motion : Window → Effect
  configure_full : ℕ → Effect

abbrev pub same_window : Option Window → Option Window → Bool
same_window none none = true
same_window none (some w) = false
same_window (some v) none = false
same_window (some v) (some w) = v.id == w.id

abbrev pub same_number : Option ℕ → Option ℕ → Bool
same_number none none = true
same_number none (some n) = false
same_number (some m) none = false
same_number (some m) (some n) = m == n

abbrev pub x11_of : Option Window → Option ℕ
x11_of none = none
x11_of (some w) = w.x11

abbrev pub surface_of : Option Window → Option ℕ
surface_of none = none
surface_of (some w) = w.surface

-- The two loops of `refresh_metadata`, for one window
unfoldable pub refresh_one : XServer → Window → WindowMetadata → WindowMetadata
refresh_one x w m = elim w.x11 [
  | none ↦ m
  | some id ↦
      let m' =
        if has_flag overlay_flag m.flags
        then record m { input_focus_mode = x.input_focus_mode id }
        else m in
      let pid = x.window_pid id in
      if (m'.app_id == 0) && (not (pid == 0) && not (x.app_of_pid pid == 0))
      then record m' { app_id = x.app_of_pid pid }
      else m'
]

unfoldable pub refresh_all : XServer → Metadata → Metadata
refresh_all x [] = []
refresh_all x ((w, m) ∷ rest) = (w, refresh_one x w m) ∷ refresh_all x rest

-- `refresh_metadata`
unfoldable pub refresh_metadata : Option XServer → Compositor → Compositor
refresh_metadata none c = c
refresh_metadata (some x) c = record c { window_metadata = refresh_all x c.window_metadata }

-- `classify_special_windows`
unfoldable pub classify_special_windows : Compositor → Compositor
classify_special_windows c =
    let best = λ (flag : ℕ). (best_flagged c.window_metadata flag c.windows (none, 0)).0 in
    let overlay = best overlay_flag in
    let notification = best notification_flag in
    let external = best external_overlay_flag in
    let same =
      same_window c.overlay_window overlay
      && (same_window c.notification_window notification
          && same_window c.external_overlay_window external) in
    record c {
      overlay_window = overlay;
      notification_window = notification;
      external_overlay_window = external;
      focus_state = if same then c.focus_state else mark_dirty c.focus_state;
    }

abbrev pub without : Window → Window → Bool
without w v = not (v.id == w.id)

-- `retain` on the children of one parent, whose entry goes with its last child
unfoldable pub remove_child : ℕ → Window → Children → Children
remove_child parent w [] = []
remove_child parent w ((p, ws) ∷ rest) =
    let others = remove_child parent w rest in
    if p == parent
    then elim (filter (without w) ws) [ [] ↦ rest | v ∷ vs ↦ (p, v ∷ vs) ∷ rest ]
    else (p, ws) ∷ others

unfoldable pub remove_metadata : Window → Metadata → Metadata
remove_metadata w [] = []
remove_metadata w ((v, m) ∷ rest) =
    let others = remove_metadata w rest in if v.id == w.id then others else (v, m) ∷ others

abbrev pub parent_of : Option WindowMetadata → Option ℕ
parent_of none = none
parent_of (some m) = m.transient_for

-- `clear_dropdowns` (compositor/state.rs)
unfoldable pub clear_dropdowns : Compositor → Compositor
clear_dropdowns c = elim c.override_window [
  | none ↦ c
  | some w ↦ record c {
    override_window = none;
    focus_state = mark_dirty c.focus_state;
    windows = filter (without w) c.windows;
    transient_children = elim (parent_of (metadata_of c.window_metadata w)) [
      | none ↦ c.transient_children
      | some parent ↦ remove_child parent w c.transient_children
    ];
    window_metadata = remove_metadata w c.window_metadata;
  }
]

-- The overlay that takes the input, with its mode
unfoldable pub overlay_with_input : Compositor → Option (Window × ℕ)
overlay_with_input c = elim c.overlay_window [
  | none ↦ none
  | some w ↦ elim (metadata_of c.window_metadata w) [
    | none ↦ none
    | some m ↦ if m.input_focus_mode == 0 then none else some (w, m.input_focus_mode)
  ]
]

abbrev pub pointer_target : Window → Option (Window × ℕ) → Window
pointer_target best none = best
pointer_target best (some (overlay, mode)) = overlay

abbrev pub keyboard_target : Window → Option (Window × ℕ) → Window
keyboard_target best none = best
keyboard_target best (some (overlay, mode)) = if mode == 2 then best else overlay

abbrev pub app_of : Option WindowMetadata → ℕ
app_of none = 0
app_of (some m) = m.app_id
