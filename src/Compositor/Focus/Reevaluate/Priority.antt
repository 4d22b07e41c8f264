-- ===== src/Compositor/Focus/Reevaluate/Priority.antt =====
-- compositor/focus.rs: the order of the priority keys, and the choice by it.
use mathlib.Core.Path.{subst}
use mathlib.Core.List.{reverse_aux}
use moonshine.Common.{
  ℕ, ◌≤◌, not, ◌≡◌, ◌⊎◌, inl, inr, refl, sym, true, false, List, [], ◌∷◌, arith, ap, ◌∙◌, Bool,
  none, some, Bool-cases, Option-cases,
}
use moonshine.Compositor.Focus.{
  Key, key_le, bit, is_none, WindowMetadata, is_useless, is_dropdown, skip_and_not_fullscreen,
  has_game_id, get_window_priority_key,
}
use moonshine.Compositor.Focus.Select.{
  Window, Metadata, metadata_of, key_of, insert_by, sort_by, head_or, ranked,
}

key_le_total : (a b : Key) → key_le a b ≡ false → key_le b a ≡ true
unfolding key_le
key_le_total [] b h = cc
key_le_total (x ∷ a) [] h = refl
key_le_total (x ∷ a) (y ∷ b) h = ground (arith, key_le_total a b)

key_le_trans : (a b c : Key) → key_le a b ≡ true → key_le b c ≡ true → key_le a c ≡ true
unfolding key_le
key_le_trans [] b c h k = refl
key_le_trans (x ∷ a) [] c h k = cc
key_le_trans (x ∷ a) (y ∷ b) [] h k = cc
key_le_trans (x ∷ a) (y ∷ b) (z ∷ c) h k = ground (arith, key_le_trans a b c)

key_le_refl : (a : Key) → key_le a a ≡ true
unfolding key_le
key_le_refl [] = refl
key_le_refl (x ∷ a) = ground (arith, key_le_refl a)

abbrev pub IsOneOf : Window → List Window → Type 0
IsOneOf w [] = ⊥
IsOneOf w (v ∷ vs) = (w ≡ v) ⊎ IsOneOf w vs

module _ (key : Window → Key) where
  -- No window of a list has a higher key than `k`, and none a lower one.
  abbrev pub AllBelow : Key → List Window → Type 0
  AllBelow k [] = Unit {0}
  AllBelow k (w ∷ ws) = (key_le (key w) k ≡ true) × AllBelow k ws

  abbrev AllAbove : Key → List Window → Type 0
  AllAbove k [] = Unit {0}
  AllAbove k (w ∷ ws) = (key_le k (key w) ≡ true) × AllAbove k ws

  abbrev AllSorted : List Window → Type 0
  AllSorted [] = Unit {0}
  AllSorted (w ∷ ws) = AllAbove (key w) ws × AllSorted ws

  AllAbove-trans :
      (k l : Key) (ws : List Window) → key_le k l ≡ true → AllAbove l ws → AllAbove k ws
  AllAbove-trans k l [] h all = tt
  AllAbove-trans k l (w ∷ ws) h (first, rest) =
      (key_le_trans k l (key w) h first, AllAbove-trans k l ws h rest)

  insert_by-AllAbove :
      (k : Key) (w : Window) (vs : List Window)
      → key_le k (key w) ≡ true
      → AllAbove k vs
      → AllAbove k (insert_by key w vs)
  unfolding insert_by
  insert_by-AllAbove k w [] h all = (h, tt)
  insert_by-AllAbove k w (v ∷ vs) h (first, rest) = ground (arith, insert_by-AllAbove k w vs h rest)

  insert_by-AllSorted :
      (w : Window) (vs : List Window) → AllSorted vs → AllSorted (insert_by key w vs)
  unfolding insert_by
  insert_by-AllSorted w [] h = (tt, tt)
  insert_by-AllSorted w (v ∷ vs) (above, sorted) = elim (Bool-cases (key_le (key w) (key v))) [
    | inl low ↦ rw low ((low, AllAbove-trans (key w) (key v) vs low above), (above, sorted))
    | inr high ↦ rw high (
      insert_by-AllAbove (key v) w vs (key_le_total (key w) (key v) high) above,
      insert_by-AllSorted w vs sorted,
    )
  ]

  sort_by-AllSorted : (ws : List Window) → AllSorted (sort_by key ws)
  unfolding sort_by
  sort_by-AllSorted [] = tt
  sort_by-AllSorted (w ∷ ws) = insert_by-AllSorted w (sort_by key ws) (sort_by-AllSorted ws)

  abbrev last_or : Window → List Window → Window
  last_or d [] = d
  last_or d (w ∷ ws) = last_or w ws

  last_or-above :
      (k : Key) (d : Window) (ws : List Window)
      → key_le k (key d) ≡ true
      → AllAbove k ws
      → key_le k (key (last_or d ws)) ≡ true
  last_or-above k d [] h all = h
  last_or-above k d (w ∷ ws) h (first, rest) = last_or-above k w ws first rest

  last_or-AllBelow :
      (w : Window) (ws : List Window) → AllSorted (w ∷ ws) → AllBelow (key (last_or w ws)) (w ∷ ws)
  last_or-AllBelow w [] h = (key_le_refl (key w), tt)
  last_or-AllBelow w (v ∷ vs) ((first, rest), sorted) =
      (last_or-above (key w) v vs first rest, last_or-AllBelow v vs sorted)

  insert_by-AllBelow :
      (k : Key) (w : Window) (vs : List Window)
      → AllBelow k (insert_by key w vs)
      → (key_le (key w) k ≡ true) × AllBelow k vs
  unfolding insert_by
  insert_by-AllBelow k w [] h = h
  insert_by-AllBelow k w (v ∷ vs) h = ground (arith, insert_by-AllBelow k w vs)

  sort_by-AllBelow : (k : Key) (ws : List Window) → AllBelow k (sort_by key ws) → AllBelow k ws
  unfolding sort_by
  sort_by-AllBelow k [] h = tt
  sort_by-AllBelow k (w ∷ ws) h =
      let (first, rest) = insert_by-AllBelow k w (sort_by key ws) h in
      (first, sort_by-AllBelow k ws rest)

  insert_by-IsOneOf :
      (u w : Window) (vs : List Window) → IsOneOf u (insert_by key w vs) → (u ≡ w) ⊎ IsOneOf u vs
  unfolding insert_by
  insert_by-IsOneOf u w [] h = h
  insert_by-IsOneOf u w (v ∷ vs) h = ground (arith, insert_by-IsOneOf u w vs)

  pub sort_by-IsOneOf : (u : Window) (ws : List Window) → IsOneOf u (sort_by key ws) → IsOneOf u ws
  unfolding sort_by
  sort_by-IsOneOf u [] h = h
  sort_by-IsOneOf u (w ∷ ws) h = elim (insert_by-IsOneOf u w (sort_by key ws) h) [
    | inl first ↦ inl first
    | inr rest ↦ inr (sort_by-IsOneOf u ws rest)
  ]

  last_or-IsOneOf : (d : Window) (ws : List Window) → (last_or d ws ≡ d) ⊎ IsOneOf (last_or d ws) ws
  last_or-IsOneOf d [] = inl refl
  last_or-IsOneOf d (w ∷ ws) = elim (last_or-IsOneOf w ws) [
    | inl first ↦ inr (inl first)
    | inr later ↦ inr (inr later)
  ]

  sorted-AllBelow :
      (d : Window) (ws : List Window) → AllSorted ws → AllBelow (key (last_or d ws)) ws
  sorted-AllBelow d [] h = tt
  sorted-AllBelow d (w ∷ ws) h = last_or-AllBelow w ws h

  head_or-reverse_aux :
      (d : Window) (ws acc : List Window)
      → head_or d (reverse_aux ws acc) ≡ last_or (head_or d acc) ws
  head_or-reverse_aux d [] acc = refl
  head_or-reverse_aux d (w ∷ ws) acc = head_or-reverse_aux d ws (w ∷ acc)

ranked-last :
    (metadata : Metadata) (w : Window) (ws : List Window)
    → ranked metadata w ws ≡ last_or (key_of metadata) w (sort_by (key_of metadata) (w ∷ ws))
unfolding ranked
ranked-last metadata w ws =
    head_or-reverse_aux (key_of metadata) w (sort_by (key_of metadata) (w ∷ ws)) []

ranked-top :
    (metadata : Metadata) (w : Window) (ws : List Window)
    → IsOneOf (ranked metadata w ws) (w ∷ ws)
      × AllBelow (key_of metadata) (key_of metadata (ranked metadata w ws)) (w ∷ ws)
ranked-top metadata w ws =
    let key = key_of metadata in
    let sorted = sort_by key (w ∷ ws) in
    subst (λ (b : Window). IsOneOf b (w ∷ ws) × AllBelow key (key b) (w ∷ ws))
      (sym (ranked-last metadata w ws))
      (
        elim (last_or-IsOneOf key w sorted) [
          | inl first ↦ inl first
          | inr later ↦ sort_by-IsOneOf key (last_or key w sorted) (w ∷ ws) later
        ],
        sort_by-AllBelow key (key (last_or key w sorted)) (w ∷ ws)
            (sorted-AllBelow key w sorted (sort_by-AllSorted key (w ∷ ws))),
      )

AllBelow-one :
    (key : Window → Key) (k : Key) (v : Window) (ws : List Window)
    → AllBelow key k ws
    → IsOneOf v ws
    → key_le (key v) k ≡ true
AllBelow-one key k v [] all one = absurd one
AllBelow-one key k v (w ∷ ws) (first, rest) (inl same) =
    ap (λ (u : Window). key_le (key u) k) same ∙ first
AllBelow-one key k v (w ∷ ws) (first, rest) (inr later) = AllBelow-one key k v ws rest later

-- A window of a game
abbrev pub is_game : Metadata → Window → Bool
is_game metadata w = elim (metadata_of metadata w) [ none ↦ false | some m ↦ has_game_id m ]

is_game-key_le :
    (metadata : Metadata) (v b : Window)
    → key_le (key_of metadata v) (key_of metadata b) ≡ true
    → is_game metadata v ≡ true
    → is_game metadata b ≡ true
unfolding key_le key_of get_window_priority_key
is_game-key_le metadata v b below game = elim (Option-cases (metadata_of metadata v)) [
  | inl e ↦ absurd (ground (arith, e, game))
  | inr (m, e) ↦ elim (Option-cases (metadata_of metadata b)) [
    | inl f ↦ absurd (ground (arith, e, f, game, below))
    | inr (n, f) ↦ ground (arith, e, f, game, below)
  ]
]

-- What counts, from the first to the last: a game, no override-redirect, useful, no dropdown, enabled,
-- in the taskbar or fullscreen, no dialog, not of X11, transient for none
abbrev pub traits : WindowMetadata → List Bool
traits m =
    has_game_id m
    ∷ not m.override_redirect
    ∷ not (is_useless m)
    ∷ not (is_dropdown m)
    ∷ not m.disabled
    ∷ not (skip_and_not_fullscreen m)
    ∷ not m.is_dialog
    ∷ not m.is_x11
    ∷ is_none m.transient_for
    ∷ []

-- At the first trait where they differ, the second has it; where they agree in all, it was not mapped
-- earlier.
abbrev pub YieldsTo : List Bool → ℕ → List Bool → ℕ → Type 0
YieldsTo [] n [] m = n ≤ m
YieldsTo (a ∷ xs) n (b ∷ ys) m = (a ≡ true → b ≡ true) × (a ≡ b → YieldsTo xs n ys m)
YieldsTo xs n ys m = Unit {0}

abbrev bits : List Bool → List ℕ → Key
bits [] tail = tail
bits (a ∷ xs) tail = bit a ∷ bits xs tail

key_le-YieldsTo :
    (xs : List Bool) (n d : ℕ) (ys : List Bool) (m e : ℕ)
    → key_le (bits xs (n ∷ d ∷ [])) (bits ys (m ∷ e ∷ [])) ≡ true
    → YieldsTo xs n ys m
unfolding key_le
key_le-YieldsTo [] n d [] m e h = ground (arith, h)
key_le-YieldsTo [] n d (b ∷ ys) m e h = tt
key_le-YieldsTo (a ∷ xs) n d [] m e h = tt
key_le-YieldsTo (a ∷ xs) n d (b ∷ ys) m e h =
    (ground (arith, h), λ same. key_le-YieldsTo xs n d ys m e (ground (arith, h, same)))

key_of-traits :
    (metadata : Metadata) (v : Window) (x : WindowMetadata)
    → metadata_of metadata v ≡ some x
    → key_of metadata v ≡ bits (traits x) (x.map_sequence ∷ x.damage_sequence ∷ [])
unfolding key_of get_window_priority_key
key_of-traits metadata v x e = rw (e, key_of) refl

-- The choice by priority is one of the candidates, no candidate has a higher key, and it is a
-- window of a game if any candidate is. Every candidate with metadata yields to it: at the first
-- of these traits where the two differ, the choice has it (a game, no override-redirect, useful,
-- no dropdown, enabled, in the taskbar or fullscreen, no dialog, not of X11, transient for none),
-- and where they agree in all, the choice was not mapped earlier.
pub ranked-highest :
    (metadata : Metadata) (w : Window) (ws : List Window)
    → IsOneOf (ranked metadata w ws) (w ∷ ws)
      × AllBelow (key_of metadata) (key_of metadata (ranked metadata w ws)) (w ∷ ws)
      × ((v : Window)
          → IsOneOf v (w ∷ ws)
          → is_game metadata v ≡ true
          → is_game metadata (ranked metadata w ws) ≡ true)
      × ((v : Window) (x y : WindowMetadata)
          → IsOneOf v (w ∷ ws)
          → metadata_of metadata v ≡ some x
          → metadata_of metadata (ranked metadata w ws) ≡ some y
          → YieldsTo (traits x) x.map_sequence (traits y) y.map_sequence)
ranked-highest metadata w ws =
    let key = key_of metadata in
    let top = ranked metadata w ws in
    let (among, below) = ranked-top metadata w ws in
    let under : (v : Window) → IsOneOf v (w ∷ ws) → key_le (key v) (key top) ≡ true =
      λ v one. AllBelow-one key (key top) v (w ∷ ws) below one in
    (
      among,
      below,
      λ v one. is_game-key_le metadata v top (under v one),
      λ v x y one at_v at_top.
          key_le-YieldsTo (traits x) x.map_sequence x.damage_sequence (traits y) y.map_sequence
            y.damage_sequence
            (rw (key_of-traits metadata v x at_v, key_of-traits metadata top y at_top) at
              (under v one)),
    )
