-- ===== src/Control/Loop/Events.antt =====
-- control/mod.rs: handling an event, whatever it is, sends no packet and leaves the number.
use moonshine.Common.{ℕ, ◌≡◌, refl, Bool, List, [], ◌==◌, Option-cases, Bool-cases, inl, inr}
use moonshine.Control.Message.{ControlMessage, EncryptedControlMessage, from_bytes}
use moonshine.Control.Encrypted.{Encrypt}
use moonshine.Control.Loop.{
  HostEvent, connected, disconnected, received, nothing, host_failed, Round, Loop, Handled,
  on_to_hdr, next_round, broken, crashed, Decrypt, handle_message, handle_decrypted,
  handle_encrypted, open_message, handle_packet, handle_event, client_iv,
}
use moonshine.Control.Loop.Numbers.{numbers, Result-cases}

-- The handling of an event sends no packet.
unfoldable pub Unnumbered : Loop → Handled → Type 0
Unnumbered l (on_to_hdr l' out) = (l'.sequence_number ≡ l.sequence_number) × (numbers out ≡ [])
Unnumbered l (next_round l') = l'.sequence_number ≡ l.sequence_number
Unnumbered l (broken l') = l'.sequence_number ≡ l.sequence_number
Unnumbered l crashed = Unit {0}

module _ (encrypt : Encrypt) (decrypt : Decrypt) (stream_timeout : ℕ) (hdr : Bool) where
  message-Unnumbered :
      (r : Round) (l : Loop) (m : ControlMessage)
      → Unnumbered l (handle_message encrypt decrypt stream_timeout hdr r l m)
  unfolding handle_message Unnumbered numbers
  message-Unnumbered r l (ControlMessage.encrypted m) = tt
  message-Unnumbered r l ControlMessage.request_idr_frame = (refl, refl)
  message-Unnumbered r l (ControlMessage.invalidate_reference_frames first last) = (refl, refl)
  message-Unnumbered r l ControlMessage.start_b = elim (Bool-cases l.audio_triggered) [
    | inl again ↦ (refl, rw again refl)
    | inr first ↦ (refl, rw first refl)
  ]
  message-Unnumbered r l ControlMessage.ping = (refl, refl)
  message-Unnumbered r l (ControlMessage.input_data event) = (refl, refl)
  message-Unnumbered r l ControlMessage.hdr_mode = (refl, refl)
  message-Unnumbered r l ControlMessage.termination_extended = (refl, refl)
  message-Unnumbered r l ControlMessage.rumble_data = (refl, refl)
  message-Unnumbered r l ControlMessage.loss_stats = (refl, refl)
  message-Unnumbered r l ControlMessage.frame_stats = (refl, refl)
  message-Unnumbered r l ControlMessage.rumble_triggers = (refl, refl)
  message-Unnumbered r l ControlMessage.set_motion_event = (refl, refl)
  message-Unnumbered r l ControlMessage.set_rgb_led = (refl, refl)
  message-Unnumbered r l ControlMessage.set_trigger_effect = (refl, refl)

  decrypted-Unnumbered :
      (r : Round) (l : Loop) (plain : List ℕ)
      → Unnumbered l (handle_decrypted encrypt decrypt stream_timeout hdr r l plain)
  unfolding handle_decrypted Unnumbered
  decrypted-Unnumbered r l plain = elim (Result-cases (from_bytes plain)) [
    | inl (message, read) ↦ rw (read, Unnumbered, handle_decrypted) (message-Unnumbered r l message)
    | inr (inl failed) ↦ rw (failed, Unnumbered, handle_decrypted) refl
    | inr (inr fault) ↦ rw (fault, Unnumbered, handle_decrypted) tt
  ]

  encrypted-Unnumbered :
      (r : Round) (l : Loop) (m : EncryptedControlMessage)
      → Unnumbered l (handle_encrypted encrypt decrypt stream_timeout hdr r l m)
  unfolding handle_encrypted Unnumbered
  encrypted-Unnumbered r l m =
      elim (Option-cases (decrypt m.payload r.key (client_iv m.sequence_number) m.tag)) [
        | inl refused ↦ rw (refused, Unnumbered, handle_encrypted) refl
        | inr (plain, opened) ↦
            rw (opened, Unnumbered, handle_encrypted) (decrypted-Unnumbered r l plain)
      ]

  open-Unnumbered :
      (r : Round) (l : Loop) (m : ControlMessage)
      → Unnumbered l (open_message encrypt decrypt stream_timeout hdr r l m)
  unfolding open_message
  open-Unnumbered r l (ControlMessage.encrypted m) = encrypted-Unnumbered r l m
  open-Unnumbered r l m = message-Unnumbered r l m

  pub event-Unnumbered :
      (r : Round) (l : Loop) (e : HostEvent)
      → Unnumbered l (handle_event encrypt decrypt stream_timeout hdr r l e)
  unfolding handle_event handle_packet Unnumbered numbers
  event-Unnumbered r l (connected peer) = (refl, refl)
  event-Unnumbered r l (disconnected peer) = elim (Option-cases l.connected_peer) [
    | inl alone ↦ rw alone (refl, refl)
    | inr (current, there) ↦ elim (Bool-cases (current == peer)) [
      | inl same ↦ rw (there, same) (refl, refl)
      | inr other ↦ rw (there, other) (refl, refl)
    ]
  ]
  event-Unnumbered r l (received bytes) = elim (Result-cases (from_bytes bytes)) [
    | inl (message, read) ↦ rw (read, Unnumbered, handle_packet) (open-Unnumbered r l message)
    | inr (inl failed) ↦ rw (failed, Unnumbered, handle_packet) refl
    | inr (inr fault) ↦ rw (fault, Unnumbered, handle_packet) tt
  ]
  event-Unnumbered r l nothing = (refl, refl)
  event-Unnumbered r l host_failed = refl
