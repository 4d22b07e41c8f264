-- ===== src/Control/Message/Reading.antt =====
-- Reading a control packet: what the four bytes of its header decide, and which packets panic.
use moonshine.Common.{
  ℕ, ◌+◌, ◌-◌, ◌*◌, ◌≡◌, refl, List, ◌∷◌, ◌==◌, if◌then◌else◌, arith, length, ltb-false, leb-true,
  ==_iff, Bool-cases, inl, inr,
}
use moonshine.Common.Results.{ok, err, ◌>>=◌}
use moonshine.Control.Message.{
  input_data_type, type_code, try_from, match_type, read_body, from_bytes, ControlMessageType,
}

-- A word of two bytes.
abbrev pub word : ℕ → ℕ → ℕ
word low high = low + 256 * (high + 256 * 0)

-- A packet of four bytes or more is dropped unless its length field counts the rest of it and its
-- type is known, and is then read by the arm of that type.
pub from_bytes_lem :
    (c0 c1 l0 l1 : ℕ) (rest : List ℕ)
    → from_bytes (c0 ∷ c1 ∷ l0 ∷ l1 ∷ rest) ≡ (
        if word l0 l1 == length rest
        then (try_from (word c0 c1) >>= λ kind. read_body kind (c0 ∷ c1 ∷ l0 ∷ l1 ∷ rest))
        else err)
unfolding from_bytes
from_bytes_lem c0 c1 l0 l1 rest =
    let buffer = c0 ∷ c1 ∷ l0 ∷ l1 ∷ rest in
    let size : length buffer - 4 ≡ length rest = omega arith in
    rw
      (
        ltb-false (length buffer) 4 (omega arith),
        leb-true 4 (length buffer) (omega arith),
        leb-true 2 (length buffer) (omega arith),
        size,
      )
      (elim (Bool-cases (word l0 l1 == length rest)) [
        | inl agrees ↦ rw agrees refl
        | inr differs ↦ rw differs refl
      ])

-- The arms that cannot fail.
try_from-type_code : (t : ControlMessageType) → try_from (type_code t) ≡ ok t
unfolding try_from match_type type_code
try_from-type_code ControlMessageType.encrypted_type = refl
try_from-type_code ControlMessageType.termination_extended_type = refl
try_from-type_code ControlMessageType.rumble_data_type = refl
try_from-type_code ControlMessageType.hdr_mode_type = refl
try_from-type_code ControlMessageType.ping_type = refl
try_from-type_code ControlMessageType.loss_stats_type = refl
try_from-type_code ControlMessageType.frame_stats_type = refl
try_from-type_code ControlMessageType.input_data_type = refl
try_from-type_code ControlMessageType.request_idr_frame_type = refl
try_from-type_code ControlMessageType.invalidate_reference_frames_type = refl
try_from-type_code ControlMessageType.start_b_type = refl
try_from-type_code ControlMessageType.rumble_triggers_type = refl
try_from-type_code ControlMessageType.set_motion_event_type = refl
try_from-type_code ControlMessageType.set_rgb_led_type = refl
try_from-type_code ControlMessageType.set_trigger_effect_type = refl

-- The packet of a known type with the right length is read by the arm of that type.
pub from_bytes_typed :
    (t : ControlMessageType) (c0 c1 l0 l1 : ℕ) (rest : List ℕ)
    → word c0 c1 ≡ type_code t
    → word l0 l1 ≡ length rest
    → from_bytes (c0 ∷ c1 ∷ l0 ∷ l1 ∷ rest) ≡ read_body t (c0 ∷ c1 ∷ l0 ∷ l1 ∷ rest)
from_bytes_typed t c0 c1 l0 l1 rest code size =
    rw
      (
        from_bytes_lem c0 c1 l0 l1 rest,
        (==_iff (word l0 l1) (length rest)).1 size,
        code,
        try_from-type_code t,
      )
      refl
