-- ===== src/Control/Input/Slot/Deadlines.antt =====
-- The gamepads' timer: after a round no deadline has passed; and what the end of a rumble pulse does.
use mathlib.Core.Path.{subst}
use moonshine.Common.{
  ℕ, ◌+◌, ◌<◌, ◌≡◌, refl, sym, Bool, true, false, not, ◌&&◌, List, [], ◌∷◌, Option, none, some, leb,
  ◌==◌, arith, inl, inr, Bool-cases, Option-cases,
}
use moonshine.Control.Input.Remap.{
  HoldToHome, HoldTransition, no_transition, home_activated, State, inactive, pending, home_held,
  tapping, advance, advance_state, advance_with, next_deadline, deadline_of,
}
use moonshine.Control.Input.Remap.Reach.{Reach, Holding, Reach-Holding}
use moonshine.Control.Input.Remap.Timer.{Masked, Reach-Masked}
use moonshine.Control.Input.Slot.{
  GamepadSlot, check_rumble, fire_rumble, maybe_fire_rumble, advance_slot, sooner, slot_deadline,
  is_due, soonest, timer_round,
}

-- A deadline, if there is one, is later than now.
unfoldable pub Later : ℕ → Option ℕ → Type 0
Later now none = Unit {0}
Later now (some d) = now < d

-- The remap of a slot is one that inputs and timer calls lead to.
unfoldable pub Known : HoldToHome → Type 0
Known h = (hold_ms : ℕ) × (suppress : Bool) × Reach hold_ms suppress h

-- So are those of all the slots that are taken.
unfoldable pub AllKnown : List (Option GamepadSlot) → Type 0
AllKnown [] = Unit {0}
AllKnown (none ∷ slots) = AllKnown slots
AllKnown (some s ∷ slots) = Known s.remap × AllKnown slots

advance_state-Later :
    (s : State) (pressed : Bool) (mask p now : ℕ)
    → Holding s pressed
    → Later now (deadline_of ((advance_state s pressed mask p now).0))
unfolding advance_state deadline_of Holding Later
advance_state-Later inactive pressed mask p now v = tt
advance_state-Later (pending d) pressed mask p now v = elim (Bool-cases (leb d now)) [
  | inl due ↦ rw (due, v) tt
  | inr early ↦ rw early (ground arith)
]
advance_state-Later home_held pressed mask p now v = tt
advance_state-Later (tapping r) pressed mask p now v = elim (Bool-cases (leb r now)) [
  | inl due ↦ rw due tt
  | inr early ↦ rw early (ground arith)
]

idle-Later : (s : State) (now : ℕ) → s ≡ inactive → Later now (deadline_of s)
unfolding deadline_of Later
idle-Later inactive now e = tt
idle-Later (pending d) now e = cc
idle-Later home_held now e = tt
idle-Later (tapping r) now e = cc

advance-Later : (h : HoldToHome) (now : ℕ) → Known h → Later now (next_deadline ((advance h now).0))
unfolding Known Masked next_deadline advance advance_with
advance-Later h now (hold_ms, suppress, r) = elim (Option-cases h.source_mask) [
  | inr (m, on) ↦ rw on (
      advance_state-Later h.state h.source_pressed m h.last_passthrough now
        (Reach-Holding hold_ms suppress h r))
  | inl off ↦ elim (Reach-Masked hold_ms suppress h r) [
    | inl idle ↦ rw off (idle-Later h.state now idle)
    | inr (m, on) ↦ absurd cc
  ]
]

sooner-Later : (now : ℕ) (a b : Option ℕ) → Later now a → Later now b → Later now (sooner a b)
unfolding sooner Later
sooner-Later now (some a) (some b) h k = omega arith
sooner-Later now (some a) none h k = h
sooner-Later now none b h k = k

not_due-Later : (o : Option ℕ) (now : ℕ) → is_due o now ≡ false → Later now o
unfolding is_due Later
not_due-Later none now e = tt
not_due-Later (some d) now e = ground arith

-- The rumble's deadline is taken off once it has passed, and the remap stays.
check_rumble_lem :
    (s : GamepadSlot) (now : ℕ)
    → (((check_rumble s now).0).remap ≡ s.remap)
      × Later now (((check_rumble s now).0).home_rumble_off_at)
unfolding check_rumble Later
check_rumble_lem s now = elim (Option-cases s.home_rumble_off_at) [
  | inl idle ↦ rw idle (refl, tt)
  | inr (off_at, on) ↦ elim (Bool-cases (leb off_at now)) [
    | inl over ↦ rw (on, over) (refl, tt)
    | inr still ↦ rw (on, still) (refl, ground arith)
  ]
]

pulse_later :
    (now duration : ℕ) (positive : Bool)
    → (positive && not (duration == 0)) ≡ true
    → now < now + duration
pulse_later now duration true e = ground arith
pulse_later now duration false e = cc

fire_rumble_lem :
    (s : GamepadSlot) (now : ℕ)
    → Later now s.home_rumble_off_at
    → (((fire_rumble s now).0).remap ≡ s.remap)
      × Later now (((fire_rumble s now).0).home_rumble_off_at)
unfolding fire_rumble Later
fire_rumble_lem s now h = elim (Option-cases s.home_rumble_off_at) [
  | inr (off_at, on) ↦ rw on (refl, subst (λ o. Later now o) on h)
  | inl idle ↦ elim (Bool-cases (s.intensity_is_positive && not (s.home_rumble_duration == 0))) [
    | inl fires ↦
        rw (idle, fires)
          (refl, pulse_later now s.home_rumble_duration s.intensity_is_positive fires)
    | inr quiet ↦ rw (idle, quiet) (refl, subst (λ o. Later now o) idle h)
  ]
]

maybe_fire_rumble_lem :
    (s : GamepadSlot) (t : HoldTransition) (now : ℕ)
    → Later now s.home_rumble_off_at
    → (((maybe_fire_rumble s t now).0).remap ≡ s.remap)
      × Later now (((maybe_fire_rumble s t now).0).home_rumble_off_at)
unfolding maybe_fire_rumble
maybe_fire_rumble_lem s no_transition now h = (refl, h)
maybe_fire_rumble_lem s home_activated now h = fire_rumble_lem s now h

advance_slot-Later :
    (s : GamepadSlot) (now : ℕ) → Known s.remap → Later now (slot_deadline ((advance_slot s now).0))
unfolding slot_deadline advance_slot
advance_slot-Later s now known =
    let checked = check_rumble_lem s now in
    let held = record (check_rumble s now).0 {
      remap = (advance (((check_rumble s now).0).remap) now).0;
    } in
    let fired =
      maybe_fire_rumble_lem held ((advance (((check_rumble s now).0).remap) now).2) now
        (checked.1) in
    sooner-Later now _ _
      (subst (λ h. Later now (next_deadline h)) (sym (fired.0))
        (subst (λ h. Later now (next_deadline ((advance h now).0))) (sym (checked.0))
          (advance-Later s.remap now known)))
      (fired.1)

-- Once the timer task has gone over the gamepads, whatever their states and whichever were due, the
-- soonest deadline over all of them, if there is one, is later than the instant it ran at: the task
-- sleeps, and does not wake again for a deadline that it has handled.
pub timer_round-Later :
    (slots : List (Option GamepadSlot)) (now : ℕ)
    → AllKnown slots
    → Later now (soonest (timer_round slots now))
unfolding timer_round soonest AllKnown Later
timer_round-Later [] now known = tt
timer_round-Later (none ∷ slots) now known = timer_round-Later slots now known
timer_round-Later (some s ∷ slots) now known = elim (Bool-cases (is_due (slot_deadline s) now)) [
  | inl due ↦ rw due (
      sooner-Later now _ _ (advance_slot-Later s now (known.0))
        (timer_round-Later slots now (known.1)))
  | inr early ↦ rw early (
      sooner-Later now _ _ (not_due-Later (slot_deadline s) now early)
        (timer_round-Later slots now (known.1)))
]
