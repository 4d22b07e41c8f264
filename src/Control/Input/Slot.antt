-- ===== src/Control/Input/Slot.antt =====
-- control/input/mod.rs: a gamepad with its remap and its rumble pulse, and the timer over all of them.
-- The device itself is not modelled: what is set on it is an output.
pub mod Deadlines
pub mod Pulse
use moonshine.Common.{
  ℕ, ◌+◌, Bool, true, false, not, ◌&&◌, List, [], ◌∷◌, ◌++◌, Option, none, some, min, leb, ◌==◌,
  if◌then◌else◌,
}
use moonshine.Control.Feedback.{FeedbackCommand, rumble}
use moonshine.Control.Input.Remap.{HoldToHome, HoldTransition, no_transition, home_activated}
use moonshine.Control.Input.Remap

-- `GamepadSlot`, without its channels. The intensity is given by whether it is positive and by
-- `(home_rumble_intensity * u16::MAX as f64) as u16`.
pub record GamepadSlot : Type 0 where
  pub remap : HoldToHome
  pub index : ℕ
  pub intensity_is_positive : Bool
  pub intensity : ℕ
  pub home_rumble_duration : ℕ
  pub home_rumble_off_at : Option ℕ

-- What a slot does outside: buttons set on the device, feedback to the client, the timer woken.
pub data SlotOutput : Type 0 where
  set_pressed : ℕ → SlotOutput
  feedback : FeedbackCommand → SlotOutput
  wake_timer : SlotOutput

-- `send_rumble`
unfoldable pub send_rumble : GamepadSlot → ℕ → ℕ → List SlotOutput
send_rumble s low high =
    feedback (rumble record { id = s.index; low_frequency = low; high_frequency = high }) ∷ []

-- `check_rumble`
unfoldable pub check_rumble : GamepadSlot → ℕ → GamepadSlot × List SlotOutput
check_rumble s now = elim s.home_rumble_off_at [
  | none ↦ (s, [])
  | some off_at ↦
      if leb off_at now
      then (record s { home_rumble_off_at = none }, send_rumble s 0 0)
      else (s, [])
]

-- The conditions of `maybe_fire_rumble` beside the transition.
unfoldable pub fire_rumble : GamepadSlot → ℕ → GamepadSlot × List SlotOutput
fire_rumble s now = elim s.home_rumble_off_at [
  | some off_at ↦ (s, [])
  | none ↦
      if s.intensity_is_positive && not (s.home_rumble_duration == 0)
      then (
        record s { home_rumble_off_at = some (now + s.home_rumble_duration) },
        send_rumble s s.intensity s.intensity,
      )
      else (s, [])
]

-- `maybe_fire_rumble`
unfoldable pub maybe_fire_rumble : GamepadSlot → HoldTransition → ℕ → GamepadSlot × List SlotOutput
maybe_fire_rumble s no_transition now = (s, [])
maybe_fire_rumble s home_activated now = fire_rumble s now

-- `GamepadSlot::apply_buttons`
unfoldable pub apply_buttons : GamepadSlot → ℕ → ℕ → GamepadSlot × List SlotOutput
apply_buttons s flags now =
    let remapped = Remap.apply s.remap flags now in
    let checked = check_rumble (record s { remap = remapped.0 }) now in
    let fired = maybe_fire_rumble (checked.0) (remapped.2) now in
    (fired.0, set_pressed (remapped.1) ∷ checked.1 ++ (wake_timer ∷ []) ++ fired.1)

-- `GamepadSlot::advance`
unfoldable pub advance_slot : GamepadSlot → ℕ → GamepadSlot × List SlotOutput
advance_slot s now =
    let checked = check_rumble s now in
    let remapped = Remap.advance (checked.0).remap now in
    let fired = maybe_fire_rumble (record checked.0 { remap = remapped.0 }) (remapped.2) now in
    (fired.0, checked.1 ++ (set_pressed (remapped.1) ∷ []) ++ fired.1)

-- The `match (remap, rumble)` of `next_deadline`; the timer takes its minimum over the slots alike.
unfoldable pub sooner : Option ℕ → Option ℕ → Option ℕ
sooner (some a) (some b) = some (min a b)
sooner (some a) none = some a
sooner none b = b

-- `GamepadSlot::next_deadline`
unfoldable pub slot_deadline : GamepadSlot → Option ℕ
slot_deadline s = sooner (Remap.next_deadline s.remap) s.home_rumble_off_at

-- `slot.next_deadline().is_some_and(|d| now >= d)`
unfoldable pub is_due : Option ℕ → ℕ → Bool
is_due none now = false
is_due (some d) now = leb d now

-- The soonest deadline over the slots that are taken.
unfoldable pub soonest : List (Option GamepadSlot) → Option ℕ
soonest [] = none
soonest (none ∷ slots) = soonest slots
soonest (some s ∷ slots) = sooner (slot_deadline s) (soonest slots)

-- What `run_timer_task` does to the slots once it wakes.
unfoldable pub timer_round : List (Option GamepadSlot) → ℕ → List (Option GamepadSlot)
timer_round [] now = []
timer_round (none ∷ slots) now = none ∷ timer_round slots now
timer_round (some s ∷ slots) now =
    (if is_due (slot_deadline s) now then some ((advance_slot s now).0) else some s)
    ∷ timer_round slots now
