-- ===== src/Control/Input/Slot/Pulse.antt =====
-- A hold with its rumble pulse: what reaches the device when the pulse ends.
use moonshine.Common.{
  ℕ, ◌+◌, ◌≤◌, ◌<◌, ◌≡◌, refl, true, false, [], ◌∷◌, Option, none, some, leb, ◌==◌, arith, bit_and,
  pos==zero,
}
use moonshine.Control.Feedback.{rumble}
use moonshine.Control.Input.Remap.{
  HoldToHome, no_transition, home_activated, home_held, back_flag, apply, apply_with, apply_state,
  advance, advance_state, advance_with, next_deadline, deadline_of,
}
use moonshine.Control.Input.Remap.Timer.{Resting, pressed_lem, advance_pending}
use moonshine.Control.Input.Slot.{
  GamepadSlot, set_pressed, feedback, send_rumble, check_rumble, fire_rumble, maybe_fire_rumble,
  apply_buttons, advance_slot, sooner, slot_deadline,
}

module _ (index intensity duration : ℕ) where
  -- A slot whose rumble is switched on.
  unfoldable pub slot : HoldToHome → Option ℕ → GamepadSlot
  slot h off_at = record {
    remap = h;
    index = index;
    intensity_is_positive = true;
    intensity = intensity;
    home_rumble_duration = duration;
    home_rumble_off_at = off_at;
  }

  quiet_press :
      (h : HoldToHome) (flags t0 : ℕ)
      → Resting h
      → (bit_and flags back_flag == 0) ≡ false
      → (apply h flags t0).2 ≡ no_transition
  unfolding Resting apply apply_with apply_state
  quiet_press h flags t0 rest down = rw (rest.0, rest.1, down) refl

  after_press :
      (h : HoldToHome) (flags t0 : ℕ)
      → Resting h
      → (bit_and flags back_flag == 0) ≡ false
      → (apply_buttons (slot h none) flags t0).0 ≡ slot ((apply h flags t0).0) none
  unfolding slot apply_buttons check_rumble maybe_fire_rumble
  after_press h flags t0 rest down = rw (quiet_press h flags t0 rest down) refl

  after_hold :
      (h : HoldToHome) (now : ℕ)
      → (advance h now).2 ≡ home_activated
      → 0 < duration
      → (advance_slot (slot h none) now).0 ≡ slot ((advance h now).0) (some (now + duration))
  unfolding slot advance_slot check_rumble maybe_fire_rumble advance fire_rumble
  after_hold h now up long = rw (up, pos==zero duration long) refl

  held_remap :
      (h : HoldToHome) (now : ℕ)
      → h.source_mask ≡ some back_flag
      → h.state ≡ home_held
      → (((advance h now).0).state ≡ home_held)
        × ((advance h now).1 ≡ 0)
        × ((advance h now).2 ≡ no_transition)
  unfolding advance advance_with advance_state
  held_remap h now on held = rw (on, held) (refl, refl, refl)

  after_pulse :
      (h : HoldToHome) (off_at : ℕ)
      → h.source_mask ≡ some back_flag
      → h.state ≡ home_held
      → ((advance_slot (slot h (some off_at)) off_at).1
          ≡ feedback (rumble record { id = index; low_frequency = 0; high_frequency = 0 })
            ∷ set_pressed 0
            ∷ [])
        × ((((advance_slot (slot h (some off_at)) off_at).0).remap).state ≡ home_held)
  unfolding slot advance_slot check_rumble send_rumble maybe_fire_rumble
  after_pulse h off_at on held =
      let over : leb off_at off_at ≡ true = ground arith in
      let r = held_remap h off_at on held in rw (over, r.1, r.2) (refl, r.0)

  held_deadline :
      (h : HoldToHome) (off_at : ℕ)
      → h.state ≡ home_held
      → slot_deadline (slot h (some off_at)) ≡ some off_at
  unfolding slot slot_deadline next_deadline deadline_of sooner
  held_deadline h off_at held = rw held refl

  masked_after :
      (h : HoldToHome) (now : ℕ)
      → h.source_mask ≡ some back_flag
      → ((advance h now).0).source_mask ≡ some back_flag
  unfolding advance advance_with
  masked_after h now on = rw on refl

  -- Back goes down on a gamepad at rest whose rumble is switched on, and stays down: the timer call at
  -- the end of the hold, or later, sets the end of the rumble pulse as the next deadline, and the call
  -- at that deadline stops the rumble and then sets the buttons 0 on the device, Home with them,
  -- though the remap goes on holding Home.
  pub pulse_end_releases_home :
      (h : HoldToHome) (flags t0 now : ℕ)
      → Resting h
      → (bit_and flags back_flag == 0) ≡ false
      → 0 < duration
      → t0 + h.hold ≤ now
      → let held = (advance_slot ((apply_buttons (slot h none) flags t0).0) now).0 in
        (slot_deadline held ≡ some (now + duration))
        × ((advance_slot held (now + duration)).1
            ≡ feedback (rumble record { id = index; low_frequency = 0; high_frequency = 0 })
              ∷ set_pressed 0
              ∷ [])
        × ((((advance_slot held (now + duration)).0).remap).state ≡ home_held)
  pulse_end_releases_home h flags t0 now rest down long late =
      let h1 = (apply h flags t0).0 in
      let first = pressed_lem h flags t0 rest down in
      let up = advance_pending h1 (t0 + h.hold) now (first.0) (first.1) (first.2) late in
      let h2 = (advance h1 now).0 in
      let end = after_pulse h2 (now + duration) (masked_after h1 now (first.0)) (up.0) in
      rw (after_press h flags t0 rest down, after_hold h1 now (up.2) long)
        (held_deadline h2 (now + duration) (up.0), end.0, end.1)
