-- ===== src/Compositor/Focus/Select.antt =====
-- compositor/handlers.rs: which windows can have the focus, and which of them gets it.
use mathlib.Core.List.{reverse}
use moonshine.Common.{
  ℕ, zero, suc, ◌==◌, Bool, true, false, not, ◌&&◌, Option, none, some, List, [], ◌∷◌, leb,
  if◌then◌else◌,
}
use moonshine.Compositor.InputSerials.{any}
use moonshine.Compositor.Focus.{
  WindowMetadata, skip_focus, has_flag, intersects, Key, bit, default_key, key_le,
  get_window_priority_key, is_dropdown, FocusState, clear_requested_focus,
}

-- A window: its identity, its X11 id and Wayland surface, whether it is an XDG toplevel, and whether
-- it was mapped once and is not any more.
pub record Window : Type 0 where
  pub id : ℕ
  pub x11 : Option ℕ
  pub surface : Option ℕ
  pub toplevel : Bool
  pub unmapped : Bool

-- The maps `window_metadata` and `transient_children`
abbrev pub Metadata : Type 0
Metadata = List (Window × WindowMetadata)

unfoldable pub metadata_of : Metadata → Window → Option WindowMetadata
metadata_of [] w = none
metadata_of ((v, m) ∷ rest) w =
    let found = metadata_of rest w in if v.id == w.id then some m else found

abbrev pub Children : Type 0
Children = List (ℕ × List Window)

unfoldable pub children_of : Children → ℕ → Option (List Window)
children_of [] parent = none
children_of ((p, ws) ∷ rest) parent =
    let found = children_of rest parent in if p == parent then some ws else found

-- `iter().filter`
unfoldable pub filter : (Window → Bool) → List Window → List Window
filter p [] = []
filter p (w ∷ ws) = let rest = filter p ws in if p w then w ∷ rest else rest

-- The best window of a category, which is that of the highest opacity, the last of these.
unfoldable pub best_flagged : Metadata → ℕ → List Window → Option Window × ℕ → Option Window × ℕ
best_flagged metadata flag [] best = best
best_flagged metadata flag (w ∷ ws) (best, opacity) =
    best_flagged metadata flag ws (elim (metadata_of metadata w) [
      | none ↦ (best, opacity)
      | some m ↦
          if has_flag flag m.flags && leb opacity m.opacity
          then (some w, m.opacity)
          else (best, opacity)
    ])

abbrev pub is_candidate_of : Option WindowMetadata → Bool
is_candidate_of none = false
is_candidate_of (some m) =
    not (intersects skip_focus m.flags) && not (m.override_redirect && (m.app_id == 0))

-- The tests of `build_candidates`
unfoldable pub is_candidate : Metadata → Window → Bool
is_candidate metadata w = not w.unmapped && is_candidate_of (metadata_of metadata w)

-- `build_candidates`
unfoldable pub build_candidates : Metadata → List Window → List Window
build_candidates metadata ws = filter (is_candidate metadata) ws

-- `metadata.get(w).map(get_window_priority_key).unwrap_or_default()`
unfoldable pub key_of : Metadata → Window → Key
key_of metadata w = elim (metadata_of metadata w) [
  | none ↦ default_key
  | some m ↦ get_window_priority_key m
]

-- `sort_by_cached_key`, which is stable
unfoldable pub insert_by : (Window → Key) → Window → List Window → List Window
insert_by key w [] = w ∷ []
insert_by key w (v ∷ vs) =
    let rest = insert_by key w vs in if key_le (key w) (key v) then w ∷ v ∷ vs else v ∷ rest

unfoldable pub sort_by : (Window → Key) → List Window → List Window
sort_by key [] = []
sort_by key (w ∷ ws) = insert_by key w (sort_by key ws)

abbrev pub has_x11 : ℕ → Window → Bool
has_x11 id w = elim w.x11 [ none ↦ false | some x ↦ x == id ]

-- `iter().find`
unfoldable pub find_window : (Window → Bool) → List Window → Option Window
find_window p [] = none
find_window p (w ∷ ws) = let found = find_window p ws in if p w then some w else found

-- `FocusControl`
pub record FocusControl : Type 0 where
  pub window : Option ℕ
  pub app_ids : List ℕ

abbrev pub has_app : List ℕ → Option WindowMetadata → Bool
has_app ids none = false
has_app ids (some m) = any (λ id. id == m.app_id) ids

abbrev pub is_better : Option Window → Key → Key → Bool
is_better none best_key key = true
is_better (some w) best_key key = not (key_le key best_key)

-- The loop over the windows of the apps that Steam asks for: the first of the highest key.
unfoldable pub best_of_apps : Metadata → List ℕ → List Window → Option Window → Key → Option Window
best_of_apps metadata ids [] best best_key = best
best_of_apps metadata ids (w ∷ ws) best best_key =
    let key = key_of metadata w in
    let better = best_of_apps metadata ids ws (some w) key in
    let same = best_of_apps metadata ids ws best best_key in
    if has_app ids (metadata_of metadata w) && is_better best best_key key then better else same

unfoldable pub steam_app : Metadata → List Window → List ℕ → Option Window
steam_app metadata candidates ids = best_of_apps metadata ids candidates none default_key

-- What `read_focus_control` asks for
unfoldable pub steam_choice : Metadata → List Window → Option FocusControl → Option Window
steam_choice metadata candidates none = none
steam_choice metadata candidates (some control) = elim control.window [
  | none ↦ steam_app metadata candidates control.app_ids
  | some target ↦ elim (find_window (has_x11 target) candidates) [
    | some w ↦ some w
    | none ↦ steam_app metadata candidates control.app_ids
  ]
]

-- `pick_best_candidate`: a request is only consumed if its window is a candidate.
unfoldable pub pick_best_candidate :
    Metadata → List Window → Option FocusControl → FocusState → FocusState × Option Window
pick_best_candidate metadata candidates control s = elim s.requested_focus_window [
  | none ↦ (s, steam_choice metadata candidates control)
  | some id ↦ elim (find_window (has_x11 id) candidates) [
    | some w ↦ (clear_requested_focus s, some w)
    | none ↦ (s, steam_choice metadata candidates control)
  ]
]

abbrev pub head_or : Window → List Window → Window
head_or w [] = w
head_or w (v ∷ vs) = v

-- The choice by priority: sorted by the key, reversed, the first
unfoldable pub ranked : Metadata → Window → List Window → Window
ranked metadata w ws = head_or w (reverse (sort_by (key_of metadata) (w ∷ ws)))

abbrev pub is_child : Metadata → ℕ → List ℕ → Window → Bool
is_child metadata parent visited w = elim (metadata_of metadata w) [
  | none ↦ false
  | some m ↦
      elim m.transient_for [ none ↦ false | some p ↦ p == parent ]
      && elim w.x11 [ none ↦ true | some x ↦ not (any (λ v. v == x) visited) ]
]

abbrev pub dropdown_of : Option WindowMetadata → Bool
dropdown_of none = false
dropdown_of (some m) = is_dropdown m

-- A round of `promote_transient_child`: the first of the sorted children is taken, or is a dropdown
-- and the walk goes on from it.
unfoldable pub promote_first : Metadata → List ℕ → Window → (ℕ → Window) → List Window → Window
promote_first metadata visited w deeper [] = w
promote_first metadata visited w deeper (child ∷ others) =
    if not (dropdown_of (metadata_of metadata child))
    then child
    else elim child.x11 [ none ↦ w | some x ↦ if any (λ v. v == x) visited then w else deeper x ]

-- The rounds, at the window of X11 id `current`
unfoldable pub promote_from : ℕ → Metadata → Children → ℕ → List ℕ → Window → Window
promote_from zero metadata children current visited w = w
promote_from (suc rounds) metadata children current visited w =
    elim (children_of children current) [
      | none ↦ w
      | some ws ↦
          promote_first metadata visited w
            (λ x. promote_from rounds metadata children x (x ∷ visited) w)
            (sort_by (λ v. bit (dropdown_of (metadata_of metadata v)) ∷ [])
              (filter (is_child metadata current visited) ws))
    ]

-- `promote_transient_child`
unfoldable pub promote_transient_child : Metadata → Children → Window → Window
promote_transient_child metadata children w = elim w.x11 [
  | none ↦ w
  | some x ↦ promote_from 10 metadata children x (x ∷ []) w
]
