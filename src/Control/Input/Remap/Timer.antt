-- ===== src/Control/Input/Remap/Timer.antt =====
-- The remap's timer: what its calls settle, and the two gestures that it tells apart.
use moonshine.Common.{
  ℕ, ◌+◌, ◌≤◌, ◌≡◌, max, refl, ◌∙◌, Bool, true, false, none, some, bit_and, ◌==◌, leb, arith, inl,
  inr, ◌⊎◌, Option-cases,
}
use moonshine.Common.Bits.{bit}
use moonshine.Control.Input.Remap.{
  home_activated, back_flag, tap_duration, State, inactive, pending, home_held, tapping, HoldToHome,
  new, passthrough_flags, apply_state, apply_with, apply, advance_state, advance_with, advance,
  next_deadline, deadline_of,
}
use moonshine.Control.Input.Remap.Home.{or_home, or_back, one_at, passed, bit-passthrough}
use moonshine.Control.Input.Remap.Reach.{Reach, started, applied, advanced, Holding, Reach-Holding}

-- A remap that is off never leaves its first state.
unfoldable pub Masked : HoldToHome → Type 0
Masked h = (h.state ≡ inactive) ⊎ ((m : ℕ) × (h.source_mask ≡ some m))

apply-Masked : (h : HoldToHome) (flags now : ℕ) → Masked h → Masked ((apply h flags now).0)
unfolding apply apply_with Masked
apply-Masked h flags now (inr (m, on)) = rw on (inr (m, refl))
apply-Masked h flags now (inl idle) = elim (Option-cases h.source_mask) [
  | inl off ↦ rw off (inl idle)
  | inr on ↦ rw (on.1) (inr (on.0, refl))
]

advance-Masked : (h : HoldToHome) (now : ℕ) → Masked h → Masked ((advance h now).0)
unfolding advance advance_with Masked
advance-Masked h now (inr (m, on)) = rw on (inr (m, refl))
advance-Masked h now (inl idle) = elim (Option-cases h.source_mask) [
  | inl off ↦ rw off (inl idle)
  | inr on ↦ rw (on.1) (inr (on.0, refl))
]

pub Reach-Masked :
    (hold_ms : ℕ) (suppress : Bool) (h : HoldToHome) → Reach hold_ms suppress h → Masked h
unfolding new Masked
Reach-Masked hold_ms suppress _ started = inl refl
Reach-Masked hold_ms suppress _ (applied h flags now r) =
    apply-Masked h flags now (Reach-Masked hold_ms suppress h r)
Reach-Masked hold_ms suppress _ (advanced h now r) =
    advance-Masked h now (Reach-Masked hold_ms suppress h r)

idle_deadline : (s : State) (d : ℕ) → s ≡ inactive → deadline_of s ≡ some d → ⊥
unfolding deadline_of
idle_deadline inactive d idle e = cc
idle_deadline (pending t) d idle e = cc
idle_deadline home_held d idle e = cc
idle_deadline (tapping t) d idle e = cc

home_bit : (p : ℕ) → max (bit p 10) (one_at 10 10) ≡ 1
unfolding one_at
home_bit p = omega arith

-- One step of the state, where its deadline has passed.
advance_state_settles :
    (s : State) (pressed : Bool) (mask p now d : ℕ)
    → Holding s pressed
    → deadline_of s ≡ some d
    → d ≤ now
    → deadline_of ((advance_state s pressed mask p now).0) ≡ none
unfolding advance_state deadline_of Holding
advance_state_settles inactive pressed mask p now d v e h = cc
advance_state_settles (pending deadline) pressed mask p now d v e h =
    let due : leb deadline now ≡ true = ground arith in rw (due, v) refl
advance_state_settles home_held pressed mask p now d v e h = cc
advance_state_settles (tapping release_at) pressed mask p now d v e h =
    let due : leb release_at now ≡ true = ground arith in rw due refl

-- In every reachable state, one timer call at or after the deadline that `next_deadline` names
-- leaves no deadline: the timer does not fire again until the next input.
pub advance-settles :
    (hold_ms : ℕ) (suppress : Bool) (h : HoldToHome) (now d : ℕ)
    → Reach hold_ms suppress h
    → next_deadline h ≡ some d
    → d ≤ now
    → next_deadline ((advance h now).0) ≡ none
unfolding next_deadline advance advance_with Masked
advance-settles hold_ms suppress h now d r e due = elim (Reach-Masked hold_ms suppress h r) [
  | inl idle ↦ absurd (idle_deadline h.state d idle e)
  | inr on ↦ rw (on.1) (
      advance_state_settles h.state h.source_pressed (on.0) h.last_passthrough now d
        (Reach-Holding hold_ms suppress h r) e due)
]

-- A remap at rest, its source the Back button.
unfoldable pub Resting : HoldToHome → Type 0
Resting h = (h.source_mask ≡ some back_flag) × (h.state ≡ inactive)

-- The state after Back went down at `t0` with the button flags `flags`.
pub pressed_lem :
    (h : HoldToHome) (flags t0 : ℕ)
    → Resting h
    → (bit_and flags back_flag == 0) ≡ false
    → (((apply h flags t0).0).source_mask ≡ some back_flag)
      × (((apply h flags t0).0).state ≡ pending (t0 + h.hold))
      × (((apply h flags t0).0).source_pressed ≡ true)
unfolding apply apply_with apply_state Resting
pressed_lem h flags t0 rest down = rw (rest.0, rest.1, down) (refl, refl, refl)

-- What a pending remap does on the timer.
pub advance_pending :
    (h : HoldToHome) (d now : ℕ)
    → h.source_mask ≡ some back_flag
    → h.state ≡ pending d
    → h.source_pressed ≡ true
    → d ≤ now
    → ((((advance h now).0).state) ≡ home_held)
      × (bit ((advance h now).1) 10 ≡ 1)
      × ((advance h now).2 ≡ home_activated)
unfolding advance advance_with advance_state
advance_pending h d now on waiting down due =
    let late : leb d now ≡ true = ground arith in
    rw (on, waiting, down, late)
      (refl, or_home h.last_passthrough 10 (omega arith) ∙ home_bit h.last_passthrough, refl)

-- Back pressed on a remap at rest and held: the timer call at the end of the hold time, or later,
-- sets the Home bit and reports the activation.
hold_emits_home :
    (h : HoldToHome) (flags t0 now : ℕ)
    → Resting h
    → (bit_and flags back_flag == 0) ≡ false
    → t0 + h.hold ≤ now
    → let held = advance ((apply h flags t0).0) now in
      ((held.0).state ≡ home_held) × (bit (held.1) 10 ≡ 1) × (held.2 ≡ home_activated)
hold_emits_home h flags t0 now rest down late =
    let after = pressed_lem h flags t0 rest down in
    advance_pending ((apply h flags t0).0) (t0 + h.hold) now (after.0) (after.1) (after.2) late

tap_bit : (p : ℕ) → max (bit p 5) (one_at 5 5) ≡ 1
unfolding one_at
tap_bit p = omega arith

no_back : (suppress : Bool) (flags : ℕ) → passed suppress flags 5 ≡ 0
unfolding passed
no_back suppress flags = refl

released_lem :
    (h : HoldToHome) (d up t1 : ℕ)
    → h.source_mask ≡ some back_flag
    → h.state ≡ pending d
    → (bit_and up back_flag == 0) ≡ true
    → (bit ((apply h up t1).1) 5 ≡ 1)
      × (((apply h up t1).0).source_mask ≡ some back_flag)
      × (((apply h up t1).0).state ≡ tapping (t1 + tap_duration))
      × (bit (((apply h up t1).0).last_passthrough) 5 ≡ 0)
unfolding apply apply_with apply_state
released_lem h d up t1 on waiting released =
    rw (on, waiting, released)
      (
        or_back (passthrough_flags h.suppress_home back_flag up) 5 (omega arith)
            ∙ tap_bit (passthrough_flags h.suppress_home back_flag up),
        refl,
        refl,
        bit-passthrough h.suppress_home up 5 (omega arith) ∙ no_back h.suppress_home up,
      )

tap_over :
    (h : HoldToHome) (r now : ℕ)
    → h.source_mask ≡ some back_flag
    → h.state ≡ tapping r
    → bit h.last_passthrough 5 ≡ 0
    → r ≤ now
    → (bit ((advance h now).1) 5 ≡ 0) × (((advance h now).0).state ≡ inactive)
unfolding advance advance_with advance_state
tap_over h r now on tapped clean over =
    let late : leb r now ≡ true = ground arith in rw (on, tapped, late) (clean, refl)

tap_deadline : (h : HoldToHome) (r : ℕ) → h.state ≡ tapping r → next_deadline h ≡ some r
unfolding next_deadline deadline_of
tap_deadline h r e = rw e refl

-- Back pressed on a remap at rest and released again before any timer call: the release emits Back
-- and sets a deadline 100 ms later, and the first timer call from then on takes Back away again.
tap_emits_back :
    (h : HoldToHome) (flags up t0 t1 now : ℕ)
    → Resting h
    → (bit_and flags back_flag == 0) ≡ false
    → (bit_and up back_flag == 0) ≡ true
    → t1 + tap_duration ≤ now
    → let released = apply ((apply h flags t0).0) up t1 in
      (bit (released.1) 5 ≡ 1)
      × (next_deadline (released.0) ≡ some (t1 + tap_duration))
      × (bit ((advance (released.0) now).1) 5 ≡ 0)
      × ((((advance (released.0) now).0).state) ≡ inactive)
tap_emits_back h flags up t0 t1 now rest down released late =
    let first = pressed_lem h flags t0 rest down in
    let second =
      released_lem ((apply h flags t0).0) (t0 + h.hold) up t1 (first.0) (first.1) released in
    let after = (apply ((apply h flags t0).0) up t1).0 in
    let over = tap_over after (t1 + tap_duration) now (second.1) (second.2) (second.3) late in
    (second.0, tap_deadline after (t1 + tap_duration) (second.2), over.0, over.1)
