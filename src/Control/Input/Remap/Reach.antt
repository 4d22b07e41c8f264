-- ===== src/Control/Input/Remap/Reach.antt =====
-- The remap over time: the states that inputs and timer calls reach, and the timer's deadlines.
use moonshine.Common.{
  ℕ, ◌≡◌, refl, Bool, true, false, not, ◌&&◌, bit_and, ◌==◌, leb, Bool-cases, inl, inr,
  Option-cases,
}
use moonshine.Control.Input.Remap.{
  State, inactive, pending, home_held, tapping, HoldToHome, new, passthrough_flags, apply_state,
  apply_with, apply, advance_state, advance_with, advance,
}

-- The states that a remap of this configuration gets into.
pub data Reach (hold_ms : ℕ) (suppress : Bool) : HoldToHome → Type 0 where
  started : Reach hold_ms suppress (new hold_ms suppress)
  applied :
      (h : HoldToHome) (flags now : ℕ)
      → Reach hold_ms suppress h
      → Reach hold_ms suppress ((apply h flags now).0)
  advanced :
      (h : HoldToHome) (now : ℕ)
      → Reach hold_ms suppress h
      → Reach hold_ms suppress ((advance h now).0)

-- A wait and a hold are of a button that was last seen pressed.
unfoldable pub Holding : State → Bool → Type 0
Holding inactive pressed = Unit {0}
Holding (pending deadline) pressed = pressed ≡ true
Holding home_held pressed = pressed ≡ true
Holding (tapping release_at) pressed = Unit {0}

apply_state-Holding :
    (s : State) (pressed : Bool) (mask p hold now : ℕ)
    → Holding ((apply_state s pressed mask p hold now).0) pressed
unfolding apply_state Holding
apply_state-Holding inactive true mask p hold now = refl
apply_state-Holding inactive false mask p hold now = tt
apply_state-Holding (pending deadline) false mask p hold now = tt
apply_state-Holding (pending deadline) true mask p hold now = elim (Bool-cases (leb deadline now)) [
  | inl due ↦ rw due refl
  | inr early ↦ rw early refl
]
apply_state-Holding home_held true mask p hold now = refl
apply_state-Holding home_held false mask p hold now = tt
apply_state-Holding (tapping release_at) pressed mask p hold now =
    elim (Bool-cases (leb release_at now)) [ inl due ↦ rw due tt | inr early ↦ rw early tt ]

advance_state-Holding :
    (s : State) (pressed : Bool) (mask p now : ℕ)
    → Holding s pressed
    → Holding ((advance_state s pressed mask p now).0) pressed
unfolding advance_state Holding
advance_state-Holding inactive pressed mask p now v = tt
advance_state-Holding (pending deadline) pressed mask p now v =
    elim (Bool-cases (leb deadline now && pressed)) [ inl due ↦ rw due v | inr early ↦ rw early v ]
advance_state-Holding home_held pressed mask p now v = v
advance_state-Holding (tapping release_at) pressed mask p now v =
    elim (Bool-cases (leb release_at now)) [ inl due ↦ rw due tt | inr early ↦ rw early tt ]

apply-Holding :
    (h : HoldToHome) (flags now : ℕ)
    → Holding h.state h.source_pressed
    → Holding (((apply h flags now).0).state) (((apply h flags now).0).source_pressed)
unfolding apply apply_with
apply-Holding h flags now v = elim (Option-cases h.source_mask) [
  | inl off ↦ rw off v
  | inr on ↦ rw (on.1) (
      apply_state-Holding h.state (not (bit_and flags (on.0) == 0)) (on.0)
        (passthrough_flags h.suppress_home (on.0) flags) h.hold now)
]

advance-Holding :
    (h : HoldToHome) (now : ℕ)
    → Holding h.state h.source_pressed
    → Holding (((advance h now).0).state) (((advance h now).0).source_pressed)
unfolding advance advance_with
advance-Holding h now v = elim (Option-cases h.source_mask) [
  | inl off ↦ rw off v
  | inr on ↦
      rw (on.1) (advance_state-Holding h.state h.source_pressed (on.0) h.last_passthrough now v)
]

-- In every state that inputs and timer calls reach, in any order and at any times, a pending or an
-- emitted hold is of a Back button that was last seen pressed.
pub Reach-Holding :
    (hold_ms : ℕ) (suppress : Bool) (h : HoldToHome)
    → Reach hold_ms suppress h
    → Holding h.state h.source_pressed
unfolding new Holding
Reach-Holding hold_ms suppress _ started = tt
Reach-Holding hold_ms suppress _ (applied h flags now r) =
    apply-Holding h flags now (Reach-Holding hold_ms suppress h r)
Reach-Holding hold_ms suppress _ (advanced h now r) =
    advance-Holding h now (Reach-Holding hold_ms suppress h r)
