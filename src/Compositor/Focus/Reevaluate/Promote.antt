-- ===== src/Compositor/Focus/Reevaluate/Promote.antt =====
-- compositor/handlers.rs: the walk to a transient child.
use mathlib.Core.Path.{subst}
use moonshine.Common.{
  ℕ, zero, suc, ◌==◌, ◌≡◌, ◌⊎◌, inl, inr, refl, sym, ap, ◌∙◌, Bool, true, false, some, List, [],
  ◌∷◌, arith, Bool-cases, Option-cases,
}
use moonshine.Compositor.Focus.{WindowMetadata, Key, bit}
use moonshine.Compositor.Focus.Select.{
  Window, Metadata, metadata_of, Children, children_of, filter, is_child, dropdown_of, sort_by,
  promote_first, promote_from, promote_transient_child,
}
use moonshine.Compositor.InputSerials.{any}
use moonshine.Compositor.Focus.Reevaluate.Priority.{IsOneOf, sort_by-IsOneOf}

pub filter-IsOneOf :
    (p : Window → Bool) (w : Window) (ws : List Window)
    → IsOneOf w (filter p ws)
    → (p w ≡ true) × IsOneOf w ws
unfolding filter
filter-IsOneOf p w [] h = absurd h
filter-IsOneOf p w (v ∷ vs) h = elim (Bool-cases (p v)) [
  | inl yes_p ↦ elim (rw yes_p at h) [
    | inl same ↦ (ap p same ∙ yes_p, inl same)
    | inr later ↦ let (holds, one) = filter-IsOneOf p w vs later in (holds, inr one)
  ]
  | inr no_p ↦ let (holds, one) = filter-IsOneOf p w vs (rw no_p at h) in (holds, inr one)
]

-- The window is among the children of `parent`, and its metadata has it transient for `parent`.
abbrev pub IsChildOf : Metadata → Children → ℕ → Window → Type 0
IsChildOf metadata children parent w =
    ((ws : List Window) × ((children_of children parent ≡ some ws) × IsOneOf w ws))
    × ((m : WindowMetadata) × ((metadata_of metadata w ≡ some m) × (m.transient_for ≡ some parent)))

-- A walk from child to child, through dropdowns, to a child that is none.
pub data Walk (metadata : Metadata) (children : Children) : ℕ → Window → Type 0 where
  arrives :
      {parent : ℕ} {end : Window}
      → IsChildOf metadata children parent end
      → dropdown_of (metadata_of metadata end) ≡ false
      → Walk metadata children parent end
  goes_on :
      {parent : ℕ} {end : Window} (child : Window) (x : ℕ)
      → IsChildOf metadata children parent child
      → dropdown_of (metadata_of metadata child) ≡ true
      → child.x11 ≡ some x
      → Walk metadata children x end
      → Walk metadata children parent end

-- What the rounds at `parent` can end with: the window that they started from, or the end of a walk
abbrev Ended : Metadata → Children → ℕ → Window → Window → Type 0
Ended metadata children parent w end = (end ≡ w) ⊎ Walk metadata children parent end

-- What a walk from `w` can end with
abbrev pub Ends : Metadata → Children → Window → Window → Type 0
Ends metadata children w end =
    (end ≡ w) ⊎ ((x : ℕ) × ((w.x11 ≡ some x) × Walk metadata children x end))

is_child-transient :
    (metadata : Metadata) (parent : ℕ) (visited : List ℕ) (w : Window)
    → is_child metadata parent visited w ≡ true
    → (m : WindowMetadata) × ((metadata_of metadata w ≡ some m) × (m.transient_for ≡ some parent))
is_child-transient metadata parent visited w e = elim (Option-cases (metadata_of metadata w)) [
  | inl f ↦ absurd (ground (arith, e, f))
  | inr (m, f) ↦ elim (Option-cases m.transient_for) [
    | inl g ↦ absurd (ground (arith, e, f, g))
    | inr (p, g) ↦ (m, (f, g ∙ ap (λ (n : ℕ). some n) (ground (arith, e, f, g))))
  ]
]

module _ (metadata : Metadata) (children : Children) (current : ℕ) (visited : List ℕ) (w : Window)
    (deeper : ℕ → Window) (below : (x : ℕ) → Ended metadata children x w (deeper x)) where
  promote_first-Ended :
      (ws : List Window)
      → ((v : Window) → IsOneOf v ws → IsChildOf metadata children current v)
      → Ended metadata children current w (promote_first metadata visited w deeper ws)
  unfolding promote_first
  promote_first-Ended [] own = inl refl
  promote_first-Ended (child ∷ others) own =
      let end = promote_first metadata visited w deeper (child ∷ others) in
      let its = own child (inl refl) in
      elim (Bool-cases (dropdown_of (metadata_of metadata child))) [
        | inr shown ↦
            let e : end ≡ child = ground (arith, shown) in
            subst (Ended metadata children current w) (sym e) (inr (arrives its shown))
        | inl dropdown ↦ elim (Option-cases child.x11) [
          | inl e ↦ inl (ground (arith, dropdown, e))
          | inr (x, e) ↦ elim (Bool-cases (any (λ v. v == x) visited)) [
            | inl seen ↦ inl (ground (arith, dropdown, e, seen))
            | inr fresh ↦
                let e' : end ≡ deeper x = ground (arith, dropdown, e, fresh) in
                subst (Ended metadata children current w) (sym e') (elim (below x) [
                  | inl same ↦ inl same
                  | inr walk ↦ inr (goes_on child x its dropdown e walk)
                ])
          ]
        ]
      ]

promote_from-Ended :
    (rounds : ℕ) (metadata : Metadata) (children : Children) (current : ℕ) (visited : List ℕ)
    (w : Window)
    → Ended metadata children current w (promote_from rounds metadata children current visited w)
unfolding promote_from
promote_from-Ended zero metadata children current visited w = inl refl
promote_from-Ended (suc rounds) metadata children current visited w =
    let key : Window → Key = λ v. bit (dropdown_of (metadata_of metadata v)) ∷ [] in
    let deeper : ℕ → Window = λ x. promote_from rounds metadata children x (x ∷ visited) w in
    elim (Option-cases (children_of children current)) [
      | inl e ↦ inl (ground (arith, e))
      | inr (ws, e) ↦
          let kept = filter (is_child metadata current visited) ws in
          let e' : promote_from (suc rounds) metadata children current visited w
              ≡ promote_first metadata visited w deeper (sort_by key kept) =
            rw (e, promote_from) refl in
          subst (Ended metadata children current w) (sym e') (
            promote_first-Ended metadata children current visited w deeper
              (λ x. promote_from-Ended rounds metadata children x (x ∷ visited) w)
              (sort_by key kept)
              (λ v one.
                let (holds, among) =
                  filter-IsOneOf (is_child metadata current visited) v ws
                    (sort_by-IsOneOf key v kept one) in
                ((ws, (e, among)), is_child-transient metadata current visited v holds)))
    ]

-- The walk ends at its start or at a child that is no dropdown, and that a walk from there leads to.
pub promote_transient_child-Ends :
    (metadata : Metadata) (children : Children) (w : Window)
    → Ends metadata children w (promote_transient_child metadata children w)
unfolding promote_transient_child
promote_transient_child-Ends metadata children w = elim (Option-cases w.x11) [
  | inl e ↦ inl (ground (arith, e))
  | inr (x, e) ↦
      let e' : promote_transient_child metadata children w
          ≡ promote_from 10 metadata children x (x ∷ []) w =
        ground (arith, e) in
      subst (Ends metadata children w) (sym e')
        (elim (promote_from-Ended 10 metadata children x (x ∷ []) w) [
          | inl same ↦ inl same
          | inr walk ↦ inr (x, (e, walk))
        ])
]
