-- ===== src/Tests/Control.antt =====
-- The control stream's theorems at concrete inputs.
use moonshine.Common.{
  ℕ, ◌^◌, ◌<◌, ◌≡◌, ◌⊎◌, refl, List, [], ◌∷◌, true, false, ◌&&◌, none, some, arith, replicate, ◌==◌,
}
use moonshine.Common.Results.{ok, err}
use moonshine.Compositor.InputSerials.{
  InputSerials, record_all, contains, clear, any, last_64, contains-record_all,
}
use moonshine.Control.Message.{encrypted, from_bytes}
use moonshine.Control.Encrypted.{
  Encrypt, message, encode_control, encode_control-readable, as_bytes,
}
use moonshine.Control.Feedback.{FeedbackCommand, rumble, TriggerEffectCommand, as_packet}
use moonshine.Control.Feedback.Packets.{gamepad_id}
use moonshine.Control.Hdr.{HdrModeState, build_termination_payload, server_terminated_closed}
use moonshine.Control.Loop.{Round, Output, Decrypt, connected, nothing, host_failed, packet}
use moonshine.Control.Input.Event.{InputEvent, from_bytes as event_from_bytes}
use moonshine.Control.Input.Event.Total.{event_from_bytes_total}

-- A cipher that changes nothing and an empty tag.
abbrev no_cipher : Encrypt
no_cipher = λ payload key iv. ok (payload, replicate 16 0)

abbrev no_decipher : Decrypt
no_decipher = λ payload key iv tag. some payload

abbrev buzz : FeedbackCommand
buzz = rumble (record { id = 1; low_frequency = 2; high_frequency = 3 })

abbrev sdr : HdrModeState
sdr = record { enabled = false; metadata = none }

abbrev quiet_round : Round
quiet_round = record {
  now = 1;
  event_time = 1;
  feedback = none;
  event = nothing;
  key = replicate 16 0;
  is_connected = (λ peer. true);
  initial_state = sdr;
  changed = false;
  update_state = sdr;
}

-- A peer connects, a feedback command comes, and the host fails.
abbrev three_rounds : List Round
three_rounds =
    record quiet_round { event = connected 4 }
    ∷ record quiet_round { feedback = some buzz }
    ∷ record quiet_round { event = host_failed }
    ∷ []

-- What is sent: the rumble under number 0, the termination under number 1.
outputs : List Output
outputs =
    packet 4 0 (as_bytes (message 0 (replicate 16 0) (as_packet buzz)))
    ∷ packet 4 1
        (as_bytes (message 1 (replicate 16 0) (build_termination_payload server_terminated_closed)))
    ∷ []

abbrev plain : List ℕ
plain = 14 ∷ 1 ∷ 0 ∷ 0 ∷ []

encode_control-readable_example :
    (bytes : List ℕ) × (encode_control no_cipher (replicate 16 0) 7 plain ≡ ok bytes)
    × (from_bytes bytes ≡ ok (encrypted (message 7 (replicate 16 0) plain)))
encode_control-readable_example =
    encode_control-readable no_cipher (replicate 16 0) 7 plain plain (replicate 16 0) refl refl
      (omega arith) refl (omega arith) (omega arith)

event_from_bytes_total_example :
    (event_from_bytes (λ b. true) (3 ∷ 0 ∷ 0 ∷ 0 ∷ []) ≡ err)
    ⊎ ((event : InputEvent) × (event_from_bytes (λ b. true) (3 ∷ 0 ∷ 0 ∷ 0 ∷ []) ≡ ok event))
event_from_bytes_total_example = event_from_bytes_total (λ b. true) (3 ∷ 0 ∷ 0 ∷ 0 ∷ [])

buzz_id : gamepad_id buzz < 2 ^ 16
unfolding gamepad_id
buzz_id = omega arith

abbrev effect : TriggerEffectCommand
effect = record {
  id = 0;
  trigger_event_flags = 4;
  type_left = 1;
  type_right = 2;
  left = replicate 10 5;
  right = replicate 10 6;
}

abbrev no_serials : InputSerials ℕ
no_serials = record { entries = [] }

contains-record_all_example :
    contains (λ a b. a == b) (record_all (clear no_serials) ((7, 1) ∷ (8, 2) ∷ [])) 7 1
    ≡ any (λ (e : ℕ × ℕ). (e.0 == 7) && (e.1 == 1)) (last_64 ((7, 1) ∷ (8, 2) ∷ []))
contains-record_all_example =
    contains-record_all (λ a b. a == b) no_serials ((7, 1) ∷ (8, 2) ∷ []) 7 1
