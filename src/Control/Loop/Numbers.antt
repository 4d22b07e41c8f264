-- ===== src/Control/Loop/Numbers.antt =====
-- The numbers that the loop seals its packets under: never one twice.
use moonshine.Common.{
  ℕ, suc, ◌+◌, ◌%◌, ◌^◌, ◌<◌, ◌≤◌, ◌≡◌, refl, Bool, false, ◌&&◌, List, [], ◌∷◌, ◌++◌, arith,
  Option-cases, Bool-cases, inl, inr, ◌⊎◌,
}
use moonshine.Common.Results.{Result, ok, err, panic}
use moonshine.Control.Encrypted.{Encrypt, encode_control}
use moonshine.Control.Feedback.{as_packet}
use moonshine.Control.Hdr.{hdr_state_payload}
use moonshine.Control.Loop.{
  Round, Output, packet, request_idr, invalidate, trigger_video, trigger_audio, input_event, Loop,
  Decrypt, send_to_peer, advance_number, send, send_feedback, send_initial, send_update,
}

-- The numbers of the packets among the outputs, in the order in which they are sent.
unfoldable pub numbers : List Output → List ℕ
numbers [] = []
numbers (packet peer number bytes ∷ out) = number ∷ numbers out
numbers (request_idr ∷ out) = numbers out
numbers (invalidate first last ∷ out) = numbers out
numbers (trigger_video ∷ out) = numbers out
numbers (trigger_audio ∷ out) = numbers out
numbers (input_event event ∷ out) = numbers out

-- Strictly ascending numbers, from `lo` on and below `hi`.
unfoldable pub Within : ℕ → ℕ → List ℕ → Type 0
Within lo hi [] = lo ≤ hi
Within lo hi (n ∷ ns) = (lo ≤ n) × Within (suc n) hi ns

pub Within-lower : (lo mid hi : ℕ) (ns : List ℕ) → lo ≤ mid → Within mid hi ns → Within lo hi ns
unfolding Within
Within-lower lo mid hi [] h k = omega arith
Within-lower lo mid hi (n ∷ ns) h k = (omega arith, k.1)

pub Within-append :
    (lo mid hi : ℕ) (xs ys : List Output)
    → Within lo mid (numbers xs)
    → Within mid hi (numbers ys)
    → Within lo hi (numbers (xs ++ ys))
unfolding numbers Within
Within-append lo mid hi [] ys h k = Within-lower lo mid hi (numbers ys) h k
Within-append lo mid hi (packet peer number bytes ∷ xs) ys h k =
    (h.0, Within-append (suc number) mid hi xs ys (h.1) k)
Within-append lo mid hi (request_idr ∷ xs) ys h k = Within-append lo mid hi xs ys h k
Within-append lo mid hi (invalidate first last ∷ xs) ys h k = Within-append lo mid hi xs ys h k
Within-append lo mid hi (trigger_video ∷ xs) ys h k = Within-append lo mid hi xs ys h k
Within-append lo mid hi (trigger_audio ∷ xs) ys h k = Within-append lo mid hi xs ys h k
Within-append lo mid hi (input_event event ∷ xs) ys h k = Within-append lo mid hi xs ys h k

pub Result-cases : {A : Type 0} (m : Result A) → ((a : A) × (m ≡ ok a)) ⊎ ((m ≡ err) ⊎ (m ≡ panic))
Result-cases (ok a) = inl (a, refl)
Result-cases err = inr (inl refl)
Result-cases panic = inr (inr refl)

-- A stage that uses at most `k` numbers.
unfoldable pub Stage : ℕ → Loop → Loop × List Output → Type 0
Stage k l next =
    (next.0.sequence_number ≤ l.sequence_number + k)
    × Within l.sequence_number (next.0.sequence_number) (numbers (next.1))

module _ (encrypt : Encrypt) (decrypt : Decrypt) (stream_timeout : ℕ) (hdr : Bool) where
  send_to_peer-Within :
      (r : Round) (peer n : ℕ) (payload : List ℕ)
      → Within n
          (n + 1)
          (numbers (send_to_peer encrypt decrypt stream_timeout hdr r peer n payload))
  unfolding send_to_peer numbers Within
  send_to_peer-Within r peer n payload =
      elim (Result-cases (encode_control encrypt r.key n payload)) [
        | inl (bytes, sealed) ↦ elim (Bool-cases (r.is_connected peer)) [
          | inl there ↦ rw (sealed, there, send_to_peer) (omega arith, omega arith)
          | inr gone ↦ rw (sealed, gone, send_to_peer) (omega arith)
        ]
        | inr (inl failed) ↦ rw (failed, send_to_peer) (omega arith)
        | inr (inr fault) ↦ rw (fault, send_to_peer) (omega arith)
      ]

  pub send-Stage :
      (r : Round) (payload : List ℕ) (l : Loop)
      → l.sequence_number + 1 < 2 ^ 32
      → Stage 1 l (send encrypt decrypt stream_timeout hdr r payload l)
  unfolding send advance_number Stage numbers Within
  send-Stage r payload l h = elim (Option-cases l.connected_peer) [
    | inl alone ↦ rw alone (omega arith, omega arith)
    | inr (peer, there) ↦
        let small : (l.sequence_number + 1) % 4294967296 ≡ l.sequence_number + 1 = omega arith in
        rw (there, small) (omega arith, send_to_peer-Within r peer l.sequence_number payload)
  ]

  pub feedback-Stage :
      (r : Round) (l : Loop)
      → l.sequence_number + 1 < 2 ^ 32
      → Stage 1 l (send_feedback encrypt decrypt stream_timeout hdr r l)
  unfolding send_feedback Stage numbers Within send send_to_peer
  feedback-Stage r l h = elim (Option-cases r.feedback) [
    | inl quiet ↦ rw quiet (omega arith, omega arith)
    | inr (command, asked) ↦ rw asked (send-Stage r (as_packet command) l h)
  ]

  pub initial-Stage :
      (r : Round) (l : Loop)
      → l.sequence_number + 1 < 2 ^ 32
      → Stage 1 l (send_initial encrypt decrypt stream_timeout hdr r l)
  unfolding send_initial Stage numbers Within
  initial-Stage r l h = elim (Bool-cases l.send_hdr_mode) [
    | inl due ↦
        rw due
          (send-Stage r (hdr_state_payload r.initial_state) (record l { send_hdr_mode = false }) h)
    | inr quiet ↦ rw quiet (omega arith, omega arith)
  ]

  pub update-Stage :
      (r : Round) (l : Loop)
      → l.sequence_number + 1 < 2 ^ 32
      → Stage 1 l (send_update encrypt decrypt stream_timeout hdr r l)
  unfolding send_update Stage numbers Within
  update-Stage r l h = elim (Bool-cases (hdr && r.changed)) [
    | inl due ↦ rw due (send-Stage r (hdr_state_payload r.update_state) l h)
    | inr quiet ↦ rw quiet (omega arith, omega arith)
  ]
