-- ===== src/Control/Input/Remap.antt =====
-- control/input/remap.rs: holding Back emits Home. Instants and durations are nanoseconds.
pub mod Home
pub mod Reach
pub mod Timer
use moonshine.Common.{
  ℕ, ◌+◌, ◌*◌, Bool, true, false, not, ◌&&◌, Option, none, some, bit_and, bit_or, ◌==◌, leb,
  if◌then◌else◌,
}
use moonshine.Common.Bits.{not_32}

pub data HoldTransition : Type 0 where
  no_transition : HoldTransition
  home_activated : HoldTransition

abbrev pub back_flag : ℕ
back_flag = 0x0020

abbrev pub special_flag : ℕ
special_flag = 0x0400

abbrev pub tap_duration : ℕ
tap_duration = 100000000

pub data State : Type 0 where
  inactive : State
  pending : ℕ → State
  home_held : State
  tapping : ℕ → State

pub record HoldToHome : Type 0 where
  pub source_mask : Option ℕ
  pub hold : ℕ
  pub state : State
  pub source_pressed : Bool
  pub suppress_home : Bool
  pub last_passthrough : ℕ

-- `HoldToHome::new`, of the two fields of the configuration that it reads
unfoldable pub new : ℕ → Bool → HoldToHome
new hold_ms suppress = record {
  source_mask = if hold_ms == 0 then none else some back_flag;
  hold = hold_ms * 1000000;
  state = inactive;
  source_pressed = false;
  suppress_home = suppress;
  last_passthrough = 0;
}

-- What is left of the flags without the source bit, and without the physical Home if it is dropped.
unfoldable pub passthrough_flags : Bool → ℕ → ℕ → ℕ
passthrough_flags suppress mask flags =
    if suppress
    then bit_and (bit_and flags (not_32 mask)) (not_32 special_flag)
    else bit_and flags (not_32 mask)

-- The `match self.state` of `apply`: the next state, the flags and the transition.
unfoldable pub apply_state : State → Bool → ℕ → ℕ → ℕ → ℕ → State × ℕ × HoldTransition
apply_state inactive pressed mask passthrough hold now =
    if pressed
    then (pending (now + hold), passthrough, no_transition)
    else (inactive, passthrough, no_transition)
apply_state (pending deadline) pressed mask passthrough hold now =
    if not pressed
    then (tapping (now + tap_duration), bit_or passthrough mask, no_transition)
    else if leb deadline now
    then (home_held, bit_or passthrough special_flag, home_activated)
    else (pending deadline, passthrough, no_transition)
apply_state home_held pressed mask passthrough hold now =
    if pressed
    then (home_held, bit_or passthrough special_flag, no_transition)
    else (inactive, passthrough, no_transition)
apply_state (tapping release_at) pressed mask passthrough hold now =
    if leb release_at now
    then (inactive, passthrough, no_transition)
    else (tapping release_at, bit_or passthrough mask, no_transition)

-- The rest of `apply` once the remap is known to be on.
unfoldable pub apply_with : HoldToHome → ℕ → ℕ → ℕ → HoldToHome × ℕ × HoldTransition
apply_with h mask flags now =
    let pressed = not (bit_and flags mask == 0) in
    let passthrough = passthrough_flags h.suppress_home mask flags in
    let next = apply_state h.state pressed mask passthrough h.hold now in
    (
      record {
        source_mask = h.source_mask;
        hold = h.hold;
        state = next.0;
        source_pressed = pressed;
        suppress_home = h.suppress_home;
        last_passthrough = passthrough;
      },
      next.1,
      next.2,
    )

-- `HoldToHome::apply`
unfoldable pub apply : HoldToHome → ℕ → ℕ → HoldToHome × ℕ × HoldTransition
apply h flags now = elim h.source_mask [
  | none ↦ (h, flags, no_transition)
  | some mask ↦ apply_with h mask flags now
]

-- The `match self.state` of `advance`.
unfoldable pub advance_state : State → Bool → ℕ → ℕ → ℕ → State × ℕ × HoldTransition
advance_state (pending deadline) pressed mask passthrough now =
    if leb deadline now && pressed
    then (home_held, bit_or passthrough special_flag, home_activated)
    else (pending deadline, 0, no_transition)
advance_state (tapping release_at) pressed mask passthrough now =
    if leb release_at now
    then (inactive, passthrough, no_transition)
    else (tapping release_at, bit_or passthrough mask, no_transition)
advance_state inactive pressed mask passthrough now = (inactive, 0, no_transition)
advance_state home_held pressed mask passthrough now = (home_held, 0, no_transition)

unfoldable pub advance_with : HoldToHome → ℕ → ℕ → HoldToHome × ℕ × HoldTransition
advance_with h mask now =
    let next = advance_state h.state h.source_pressed mask h.last_passthrough now in
    (
      record {
        source_mask = h.source_mask;
        hold = h.hold;
        state = next.0;
        source_pressed = h.source_pressed;
        suppress_home = h.suppress_home;
        last_passthrough = h.last_passthrough;
      },
      next.1,
      next.2,
    )

-- `HoldToHome::advance`
unfoldable pub advance : HoldToHome → ℕ → HoldToHome × ℕ × HoldTransition
advance h now = elim h.source_mask [
  | none ↦ (h, 0, no_transition)
  | some mask ↦ advance_with h mask now
]

unfoldable pub deadline_of : State → Option ℕ
deadline_of (pending deadline) = some deadline
deadline_of (tapping release_at) = some release_at
deadline_of inactive = none
deadline_of home_held = none

-- `HoldToHome::next_deadline`
unfoldable pub next_deadline : HoldToHome → Option ℕ
next_deadline h = deadline_of h.state
