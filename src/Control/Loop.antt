-- ===== src/Control/Loop.antt =====
-- control/mod.rs: `run_control_loop`, one round of it at a time.
pub mod Numbers
pub mod Events
pub mod Nonces
use moonshine.Common.{
  ℕ, ◌+◌, ◌*◌, ◌%◌, ◌^◌, Bool, true, false, not, ◌&&◌, List, [], ◌∷◌, ◌++◌, Option, none, some, ltb,
  ◌==◌, copy_at, replicate, if◌then◌else◌,
}
use moonshine.Common.Bytes.{le32}
use moonshine.Common.Results.{Result, ok, err, panic}
use moonshine.Control.Message.{
  ControlMessage, EncryptedControlMessage, encrypted, request_idr_frame,
  invalidate_reference_frames, start_b, ping, input_data, from_bytes, termination_extended,
  rumble_data, hdr_mode, loss_stats, frame_stats, rumble_triggers, set_motion_event, set_rgb_led,
  set_trigger_effect,
}
use moonshine.Control.Encrypted.{Encrypt, encode_control}
use moonshine.Control.Feedback.{FeedbackCommand, as_packet}
use moonshine.Control.Hdr.{
  HdrModeState, hdr_state_payload, build_termination_payload, server_terminated_closed,
}

-- What `host.service` gives.
pub data HostEvent : Type 0 where
  connected : ℕ → HostEvent
  disconnected : ℕ → HostEvent
  received : List ℕ → HostEvent
  nothing : HostEvent
  host_failed : HostEvent

-- What the loop reads from outside in one round: the clock before and after the wait, the next
-- feedback command, the event, the session key, the peers that are connected, and the HDR state at
-- its two reads with whether it had changed at the second.
pub record Round : Type 0 where
  pub now : ℕ
  pub event_time : ℕ
  pub feedback : Option FeedbackCommand
  pub event : HostEvent
  pub key : List ℕ
  pub is_connected : ℕ → Bool
  pub initial_state : HdrModeState
  pub changed : Bool
  pub update_state : HdrModeState

-- What the loop does outside.
pub data Output : Type 0 where
  packet : ℕ → ℕ → List ℕ → Output
  request_idr : Output
  invalidate : ℕ → ℕ → Output
  trigger_video : Output
  trigger_audio : Output
  input_event : List ℕ → Output

-- The loop's variables.
pub record Loop : Type 0 where
  pub stop_deadline : ℕ
  pub sequence_number : ℕ
  pub send_hdr_mode : Bool
  pub audio_triggered : Bool
  pub connected_peer : Option ℕ

-- How the handling of an event ends: on to the HDR sends, the next round at once (`continue`), out
-- of the loop (`break`), or in `unreachable!` or an index out of range.
pub data Handled : Type 0 where
  on_to_hdr : Loop → List Output → Handled
  next_round : Loop → Handled
  broken : Loop → Handled
  crashed : Handled

-- How a round ends.
pub data Next : Type 0 where
  running : Loop → List Output → Next
  stopped : Loop → List Output → Next
  panicked : Next

-- The vector of the messages that the client sends.
unfoldable pub client_iv : ℕ → List ℕ
client_iv sequence_number =
    copy_at (copy_at (replicate 12 0) 0 (le32 sequence_number)) 10 (0x43 ∷ 0x43 ∷ [])

-- `decrypt` of crypto.rs: payload, key, vector and tag
abbrev pub Decrypt : Type 0
Decrypt = List ℕ → List ℕ → List ℕ → List ℕ → Option (List ℕ)

module _ (encrypt : Encrypt) (decrypt : Decrypt) (stream_timeout : ℕ) (hdr : Bool) where
  -- `send_to_peer`, with the number that the packet is sealed under
  unfoldable pub send_to_peer : Round → ℕ → ℕ → List ℕ → List Output
  send_to_peer r peer number payload = elim (encode_control encrypt r.key number payload) [
    | ok bytes ↦ if r.is_connected peer then packet peer number bytes ∷ [] else []
    | err ↦ []
    | panic ↦ []
  ]

  -- `sequence_number += 1`, in 32 bits
  unfoldable pub advance_number : Loop → Loop
  advance_number l = record l { sequence_number = (l.sequence_number + 1) % 2 ^ 32 }

  -- A message to the connected peer, if there is one, and the number behind it.
  unfoldable pub send : Round → List ℕ → Loop → Loop × List Output
  send r payload l = elim l.connected_peer [
    | none ↦ (l, [])
    | some peer ↦ (advance_number l, send_to_peer r peer l.sequence_number payload)
  ]

  -- The check for feedback; a command without a peer is taken and lost.
  unfoldable pub send_feedback : Round → Loop → Loop × List Output
  send_feedback r l = elim r.feedback [
    | none ↦ (l, [])
    | some command ↦ send r (as_packet command) l
  ]

  -- The `match control_message`.
  unfoldable pub handle_message : Round → Loop → ControlMessage → Handled
  handle_message r l (encrypted m) = crashed
  handle_message r l request_idr_frame = on_to_hdr l (request_idr ∷ [])
  handle_message r l (invalidate_reference_frames first last) =
      on_to_hdr l (invalidate first last ∷ [])
  handle_message r l start_b =
      on_to_hdr (record l { audio_triggered = true; send_hdr_mode = hdr })
        (if l.audio_triggered then trigger_video ∷ [] else trigger_video ∷ trigger_audio ∷ [])
  handle_message r l ping =
      on_to_hdr (record l { stop_deadline = r.event_time + stream_timeout }) []
  handle_message r l (input_data event) = on_to_hdr l (input_event event ∷ [])
  handle_message r l hdr_mode = on_to_hdr l []
  handle_message r l termination_extended = on_to_hdr l []
  handle_message r l rumble_data = on_to_hdr l []
  handle_message r l loss_stats = on_to_hdr l []
  handle_message r l frame_stats = on_to_hdr l []
  handle_message r l rumble_triggers = on_to_hdr l []
  handle_message r l set_motion_event = on_to_hdr l []
  handle_message r l set_rgb_led = on_to_hdr l []
  handle_message r l set_trigger_effect = on_to_hdr l []

  -- What an encrypted message holds, once decrypted.
  unfoldable pub handle_decrypted : Round → Loop → List ℕ → Handled
  handle_decrypted r l plain = elim (from_bytes plain) [
    | ok message ↦ handle_message r l message
    | err ↦ next_round l
    | panic ↦ crashed
  ]

  unfoldable pub handle_encrypted : Round → Loop → EncryptedControlMessage → Handled
  handle_encrypted r l m = elim (decrypt m.payload r.key (client_iv m.sequence_number) m.tag) [
    | none ↦ next_round l
    | some plain ↦ handle_decrypted r l plain
  ]

  -- A message in the clear is handled as it is.
  unfoldable pub open_message : Round → Loop → ControlMessage → Handled
  open_message r l (encrypted m) = handle_encrypted r l m
  open_message r l message = handle_message r l message

  unfoldable pub handle_packet : Round → Loop → List ℕ → Handled
  handle_packet r l data_bytes = elim (from_bytes data_bytes) [
    | ok message ↦ open_message r l message
    | err ↦ broken l
    | panic ↦ crashed
  ]

  -- The `match host.service(..)`.
  unfoldable pub handle_event : Round → Loop → HostEvent → Handled
  handle_event r l (connected peer) = on_to_hdr (record l { connected_peer = some peer }) []
  handle_event r l (disconnected peer) = elim l.connected_peer [
    | none ↦ on_to_hdr l []
    | some current ↦
        if current == peer
        then on_to_hdr (record l { connected_peer = none }) []
        else on_to_hdr l []
  ]
  handle_event r l (received bytes) = handle_packet r l bytes
  handle_event r l nothing = on_to_hdr l []
  handle_event r l host_failed = broken l

  -- The HDR state that a client gets once it has started the streams.
  unfoldable pub send_initial : Round → Loop → Loop × List Output
  send_initial r l =
      if l.send_hdr_mode
      then send r (hdr_state_payload r.initial_state) (record l { send_hdr_mode = false })
      else (l, [])

  -- The HDR state again, where the video pipeline has changed it.
  unfoldable pub send_update : Round → Loop → Loop × List Output
  send_update r l =
      if hdr && r.changed then send r (hdr_state_payload r.update_state) l else (l, [])

  unfoldable pub finish_round : Round → List Output → Handled → Next
  finish_round r before (on_to_hdr l out) =
      let initial = send_initial r l in
      let update = send_update r (initial.0) in
      running (update.0) (before ++ out ++ initial.1 ++ update.1)
  finish_round r before (next_round l) = running l before
  finish_round r before (broken l) = stopped l before
  finish_round r before crashed = panicked

  -- One round of the `while`.
  unfoldable pub round : Loop → Round → Next
  round l r =
      if ltb l.stop_deadline r.now
      then stopped l []
      else let fed = send_feedback r l in finish_round r (fed.1) (handle_event r (fed.0) r.event)

  -- What is sent when the loop has ended.
  unfoldable pub terminate : Round → Loop → List Output
  terminate r l = (send r (build_termination_payload server_terminated_closed) l).1

  -- The loop over the rounds that come, with the last message where it stops: `none` is a panic. The
  -- check for a shutdown before each round is not modelled.
  unfoldable pub run : Loop → List Round → Option (List Output)
  run l [] = some []
  run l (r ∷ rs) = elim (round l r) [
    | running l' out ↦ elim (run l' rs) [ none ↦ none | some later ↦ some (out ++ later) ]
    | stopped l' out ↦ some (out ++ terminate r l')
    | panicked ↦ none
  ]

-- The variables before the first round.
unfoldable pub start : ℕ → ℕ → Loop
start now stream_timeout = record {
  stop_deadline = now + stream_timeout;
  sequence_number = 0;
  send_hdr_mode = false;
  audio_triggered = false;
  connected_peer = none;
}
