-- ===== src/Tests/Gamepads.antt =====
-- The gamepads' theorems at concrete inputs.
use moonshine.Common.{◌+◌, ◌≡◌, refl, List, Option, [], ◌∷◌, true, false, none, some, arith, max}
use moonshine.Common.Bits.{bit}
use moonshine.Control.Feedback.{rumble}
use moonshine.Control.Input.Remap.{
  HoldToHome, inactive, home_held, new, apply, advance, next_deadline, back_flag, deadline_of,
  apply_with, apply_state,
}
use moonshine.Control.Input.Remap.Home.{passed, emitted, apply_bits}
use moonshine.Control.Input.Remap.Reach.{Reach, started, applied, Holding, Reach-Holding}
use moonshine.Control.Input.Remap.Timer.{Resting, advance-settles}
use moonshine.Control.Input.Slot.{
  GamepadSlot, set_pressed, feedback, apply_buttons, advance_slot, slot_deadline, soonest,
  timer_round,
}
use moonshine.Control.Input.Slot.Deadlines.{Later, Known, AllKnown, timer_round-Later}
use moonshine.Control.Input.Slot.Pulse.{slot, pulse_end_releases_home}

-- A remap that holds for half a second.
abbrev half_second : HoldToHome
half_second = record {
  source_mask = some back_flag;
  hold = 500000000;
  state = inactive;
  source_pressed = false;
  suppress_home = true;
  last_passthrough = 0;
}

half_second-Resting : Resting half_second
unfolding Resting
half_second-Resting = (refl, refl)

apply_bits_example :
    bit ((apply half_second 0x0421 0).1) 0
    ≡ max (passed true 0x0421 0) (emitted (((apply half_second 0x0421 0).0).state) 0)
apply_bits_example = apply_bits half_second 0x0421 0 0 refl (omega arith)

-- Back goes down at once.
abbrev back_down : HoldToHome
back_down = (apply (new 500 true) 0x0020 0).0

back_down-Reach : Reach 500 true back_down
back_down-Reach = applied (new 500 true) 0x0020 0 started

Reach-Holding_example : Holding back_down.state back_down.source_pressed
Reach-Holding_example = Reach-Holding 500 true back_down back_down-Reach

back_down_deadline : next_deadline back_down ≡ some 500000000
unfolding new apply apply_with apply_state next_deadline deadline_of
back_down_deadline = refl

advance-settles_example : next_deadline ((advance back_down 500000000).0) ≡ none
advance-settles_example =
    advance-settles 500 true back_down 500000000 500000000 back_down-Reach back_down_deadline
      (omega arith)

-- The second of two gamepads, on which Back is down.
abbrev two_slots : List (Option GamepadSlot)
two_slots = none ∷ some (slot 1 32767 50000000 back_down none) ∷ []

two_slots-AllKnown : AllKnown two_slots
unfolding AllKnown Known slot
two_slots-AllKnown = ((500, true, back_down-Reach), tt)

timer_round-Later_example : Later 500000000 (soonest (timer_round two_slots 500000000))
timer_round-Later_example = timer_round-Later two_slots 500000000 two_slots-AllKnown

pulse_end_releases_home_example :
    let held =
      (advance_slot
        ((apply_buttons (slot 1 32767 50000000 half_second none) 0x0020 0).0)
        500000000).0 in
    (slot_deadline held ≡ some (500000000 + 50000000))
    × ((advance_slot held (500000000 + 50000000)).1
        ≡ feedback (rumble record { id = 1; low_frequency = 0; high_frequency = 0 })
          ∷ set_pressed 0
          ∷ [])
    × ((((advance_slot held (500000000 + 50000000)).0).remap).state ≡ home_held)
pulse_end_releases_home_example =
    pulse_end_releases_home 1 32767 50000000 half_second 0x0020 0 500000000 half_second-Resting refl
      (omega arith) (omega arith)
