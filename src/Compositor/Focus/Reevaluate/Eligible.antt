-- ===== src/Compositor/Focus/Reevaluate/Eligible.antt =====
-- compositor/handlers.rs: which window gets the focus.
use mathlib.Core.Path.{subst}
use moonshine.Common.{
  ℕ, ◌≡◌, ◌≢◌, ◌⊎◌, inl, inr, refl, sym, ap, ◌∙◌, Bool, true, false, Option, none, some, List, [],
  ◌∷◌, arith, Bool-cases, Option-cases,
}
use moonshine.Common.Int.{ℤ}
use moonshine.Compositor.Focus.{
  WindowMetadata, intersects, skip_focus, Key, default_key, FocusState,
}
use moonshine.Compositor.Focus.Select.{
  Window, Metadata, metadata_of, filter, is_candidate, build_candidates, has_x11, find_window,
  FocusControl, key_of, best_of_apps, steam_app, steam_choice, pick_best_candidate, ranked,
}
use moonshine.Compositor.Focus.Apply.{Compositor, XServer}
use moonshine.Compositor.Focus.Reevaluate.{
  choose, control_of, focus_candidates, no_focus, apply_focus, prepared, reevaluate_focus,
}
use moonshine.Compositor.Focus.Reevaluate.Settled.{applied_focus-Targets}
use moonshine.Compositor.Focus.Reevaluate.Priority.{IsOneOf, ranked-highest}
use moonshine.Compositor.Focus.Reevaluate.Promote.{
  filter-IsOneOf, Ends, promote_transient_child-Ends,
}

find_window-IsOneOf :
    (p : Window → Bool) (w : Window) (ws : List Window)
    → find_window p ws ≡ some w
    → (p w ≡ true) × IsOneOf w ws
unfolding find_window
find_window-IsOneOf p w [] e = cc
find_window-IsOneOf p w (v ∷ vs) e = elim (Bool-cases (p v)) [
  | inl yes_p ↦
      let same : some v ≡ some w = ground (arith, yes_p, e) in
      let found : w ≡ v = cc same in (ap p found ∙ yes_p, inl found)
  | inr no_p ↦
      let (holds, one) = find_window-IsOneOf p w vs (ground (arith, no_p, e)) in (holds, inr one)
]

best_of_apps-IsOneOf :
    (metadata : Metadata) (ids : List ℕ) (ws : List Window) (best : Option Window) (key : Key)
    (w : Window)
    → best_of_apps metadata ids ws best key ≡ some w
    → (best ≡ some w) ⊎ IsOneOf w ws
unfolding best_of_apps
best_of_apps-IsOneOf metadata ids [] best key w e = inl e
best_of_apps-IsOneOf metadata ids (v ∷ vs) best key w e = ground (
  arith,
  e,
  best_of_apps-IsOneOf metadata ids vs best key w,
  best_of_apps-IsOneOf metadata ids vs (some v) (key_of metadata v) w,
)

steam_app-IsOneOf :
    (metadata : Metadata) (ws : List Window) (ids : List ℕ) (w : Window)
    → steam_app metadata ws ids ≡ some w
    → IsOneOf w ws
unfolding steam_app
steam_app-IsOneOf metadata ws ids w e =
    elim (best_of_apps-IsOneOf metadata ids ws none default_key w e) [ inl f ↦ cc | inr one ↦ one ]

steam_choice-IsOneOf :
    (metadata : Metadata) (ws : List Window) (control : Option FocusControl) (w : Window)
    → steam_choice metadata ws control ≡ some w
    → IsOneOf w ws
unfolding steam_choice
steam_choice-IsOneOf metadata ws none w e = cc
steam_choice-IsOneOf metadata ws (some control) w e = elim (Option-cases control.window) [
  | inl f ↦ steam_app-IsOneOf metadata ws control.app_ids w (ground (arith, e, f))
  | inr (target, f) ↦ elim (Option-cases (find_window (has_x11 target) ws)) [
    | inl g ↦ steam_app-IsOneOf metadata ws control.app_ids w (ground (arith, e, f, g))
    | inr (v, g) ↦ (find_window-IsOneOf (has_x11 target) w ws (ground (arith, e, f, g))).1
  ]
]

pick_best_candidate-IsOneOf :
    (metadata : Metadata) (ws : List Window) (control : Option FocusControl) (s : FocusState)
    (w : Window)
    → (pick_best_candidate metadata ws control s).1 ≡ some w
    → IsOneOf w ws
unfolding pick_best_candidate
pick_best_candidate-IsOneOf metadata ws control s w e =
    elim (Option-cases s.requested_focus_window) [
      | inl f ↦ steam_choice-IsOneOf metadata ws control w (ground (arith, e, f))
      | inr (id, f) ↦ elim (Option-cases (find_window (has_x11 id) ws)) [
        | inl g ↦ steam_choice-IsOneOf metadata ws control w (ground (arith, e, f, g))
        | inr (v, g) ↦ (find_window-IsOneOf (has_x11 id) w ws (ground (arith, e, f, g))).1
      ]
    ]

choose-Ends :
    (x : Option XServer) (c : Compositor) (w : Window) (ws : List Window)
    → (best : Window) × IsOneOf best (w ∷ ws)
      × Ends c.window_metadata c.transient_children best (choose x c w ws).1
unfolding choose
choose-Ends x c w ws =
    let walk = promote_transient_child-Ends c.window_metadata c.transient_children in
    let metadata = c.window_metadata in
    elim (Option-cases (pick_best_candidate metadata (w ∷ ws) (control_of x) c.focus_state).1) [
      | inl e ↦ (
        ranked metadata w ws,
        (ranked-highest metadata w ws).0,
        rw (e, choose) (walk (ranked metadata w ws)),
      )
      | inr (v, e) ↦ (
        v,
        pick_best_candidate-IsOneOf metadata (w ∷ ws) (control_of x) c.focus_state v e,
        rw (e, choose) (walk v),
      )
    ]

filter-none :
    (p : Window → Bool) (ws : List Window)
    → filter p ws ≡ []
    → (v : Window) → IsOneOf v ws
    → p v ≡ false
unfolding filter
filter-none p [] e v h = absurd h
filter-none p (w ∷ ws) e v h = elim (Bool-cases (p w)) [
  | inl kept ↦ ground (arith, e, kept)
  | inr dropped ↦ elim h [
    | inl same ↦ ap p same ∙ dropped
    | inr later ↦ filter-none p ws (ground (arith, e, dropped)) v later
  ]
]

-- A window that is not unmapped and has metadata, which does not say that the focus skips it, and not
-- that it is an override-redirect window of no application
abbrev pub CanFocus : Metadata → Window → Type 0
CanFocus metadata w =
    (w.unmapped ≡ false)
    × ((m : WindowMetadata) × ((metadata_of metadata w ≡ some m)
          × ((intersects skip_focus m.flags ≡ false)
              × ((m.override_redirect ≡ false) ⊎ (m.app_id ≢ 0)))))

is_candidate-CanFocus :
    (metadata : Metadata) (w : Window) → is_candidate metadata w ≡ true → CanFocus metadata w
unfolding is_candidate
is_candidate-CanFocus metadata w e = elim (Option-cases (metadata_of metadata w)) [
  | inl f ↦ absurd (ground (arith, e, f))
  | inr (m, f) ↦ (ground (arith, e, f), (m, (f, (ground (arith, e, f), ground (arith, e, f)))))
]

CanFocus-is_candidate :
    (metadata : Metadata) (w : Window) → CanFocus metadata w → is_candidate metadata w ≢ false
unfolding is_candidate
CanFocus-is_candidate metadata w (mapped, (m, (f, (shown, managed)))) e =
    ground (arith, e, f, mapped, shown, managed)

-- What the focused window is, given the state when the choice is made
abbrev pub IsChosen : Compositor → Option Window → Type 0
IsChosen d none = (v : Window) → IsOneOf v d.windows → ¬ CanFocus d.window_metadata v
IsChosen d (some w) =
    (best : Window) × IsOneOf best d.windows
    × CanFocus d.window_metadata best
    × Ends d.window_metadata d.transient_children best w

focus_candidates-IsChosen :
    (output : ℤ × ℤ) (x : Option XServer) (d : Compositor) (ws : List Window)
    → build_candidates d.window_metadata d.windows ≡ ws
    → IsChosen d (focus_candidates output x d ws).0.focused_window
unfolding focus_candidates no_focus apply_focus
focus_candidates-IsChosen output x d [] e = λ v one able.
    CanFocus-is_candidate d.window_metadata v able
      (filter-none (is_candidate d.window_metadata) d.windows (unfold build_candidates in e) v one)
focus_candidates-IsChosen output x d (w ∷ ws) e =
    let (s, chosen) = choose x d w ws in
    let (best, among, ends) = choose-Ends x d w ws in
    let (candidate, present) =
      filter-IsOneOf (is_candidate d.window_metadata) best d.windows
        (unfold build_candidates in subst (λ (l : List Window). IsOneOf best l) (sym e) among) in
    subst (IsChosen d) (sym (applied_focus-Targets chosen (record d { focus_state = s })).0)
      (best, present, is_candidate-CanFocus d.window_metadata best candidate, ends)

-- After `reevaluate_focus` the focused window is one of the windows that can have the focus, or the
-- end of a walk from one of them: from child to child, each among the children of the one before and
-- transient for it, through dropdowns, to a child that is no dropdown. A window can have the focus if
-- it is not unmapped, and has metadata that does not say that the focus skips it, and not that it is
-- an override-redirect window of no application. Nothing is focused only if no window can have it.
-- The metadata are the refreshed ones.
pub reevaluate_focus-IsChosen :
    (output : ℤ × ℤ) (x : Option XServer) (c : Compositor)
    → IsChosen (prepared x c) (reevaluate_focus output x c).0.focused_window
unfolding reevaluate_focus
reevaluate_focus-IsChosen output x c =
    focus_candidates-IsChosen output x (prepared x c)
      (build_candidates (prepared x c).window_metadata (prepared x c).windows) refl
