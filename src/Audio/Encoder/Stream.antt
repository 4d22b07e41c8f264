-- ===== src/Audio/Encoder/Stream.antt =====
-- moonshine-core/src/session/stream/audio/encoder.rs: a run of the loop, from its start.
use moonshine.Common.{
  ℕ, ◌≤◌, ◌≡◌, refl, ap, ◌∙◌, Bool, true, false, Option, none, some, List, [], ◌∷◌, ◌++◌, length,
  arith,
}
use mathlib.Core.Path.{subst}
use moonshine.Common.Results.{Result, ok}
use moonshine.Video.Packetizer.State.{SessionKeyData}
use moonshine.Audio.Encoder.{Crates, Round, AudioEncoder, new, payload_of, round, go_on, run}
use moonshine.Audio.Encoder.Shards.{Returns, bind-Returns}
use moonshine.Audio.Encoder.Group.{
  StaysInBuffer, payload_of-IsPassable, IsReady, IsStep, IsHeard, IsAnswer, round_payload,
}
use moonshine.Audio.Encoder.Rounds.{round-Returns}
use moonshine.Audio.Encoder.Numbers.{IsNumbered, heard, append-heard}

-- What Opus makes of a frame fits into the buffer that it is lent.
abbrev pub IsShort : Option (List ℕ) → Type 0
IsShort none = Unit
IsShort (some encoded) = length encoded ≤ 1400

abbrev pub AllShort : List Round → Type 0
AllShort [] = Unit
AllShort (r ∷ rs) = IsShort r.encoded × AllShort rs

-- The channel takes every packet.
abbrev pub AllAccepted : List Round → Type 0
AllAccepted [] = Unit
AllAccepted (r ∷ rs) = ((k : ℕ) → r.accepts k ≡ true) × AllAccepted rs

abbrev frame_of : Option (List ℕ) → List (List ℕ)
frame_of none = []
frame_of (some encoded) = encoded ∷ []

-- What Opus makes of the frames
abbrev pub frames : List Round → List (List ℕ)
frames [] = []
frames (r ∷ rs) = frame_of r.encoded ++ frames rs

short_le : (encoded : List ℕ) → length encoded ≤ 1400 → length encoded ≤ 1416
short_le encoded h = omega arith

module _ (c : Crates) where
  go_on-Returns :
      (n : ℕ) (answer : AudioEncoder c × (List (List ℕ) × Bool)) (later : Result (List (List ℕ)))
      → IsStep c n answer
      → (IsReady c answer.0 → Returns (IsNumbered answer.0.sequence_number) later)
      → Returns (IsNumbered n) (go_on answer.1.1 answer.1.0 later)
  unfolding go_on
  go_on-Returns n (e, (ps, true)) later (ready, numbered) h =
      bind-Returns (IsNumbered e.sequence_number) (IsNumbered n) later (λ rest. ok (ps ++ rest))
        (h ready) numbered
  go_on-Returns n (e, (ps, false)) later numbered h = numbered

  run-Returns :
      (encrypt : Bool) (rounds : List Round) (e : AudioEncoder c)
      → StaysInBuffer c
      → AllShort rounds
      → IsReady c e
      → Returns (IsNumbered e.sequence_number) (run c encrypt rounds e)
  unfolding run
  run-Returns encrypt [] e stays short ready = tt
  run-Returns encrypt (r ∷ rs) e stays (first, short) ready =
      bind-Returns
        (IsAnswer c e.sequence_number (r.accepts 0)
          (round_payload c encrypt r.keys e.sequence_number r.encoded))
        (IsNumbered e.sequence_number) (round c encrypt r e) _
        (round-Returns c encrypt r e
          (λ encoded made.
            payload_of-IsPassable c encrypt r.keys e.sequence_number encoded stays
              (subst IsShort made first))
          ready)
        (λ answer (step, _).
          go_on-Returns e.sequence_number answer (run c encrypt rs answer.0) step
            (λ ready'. run-Returns encrypt rs answer.0 stays short ready'))

  go_on-heard :
      (n : ℕ) (fs gs : List (List ℕ)) (answer : AudioEncoder c × (List (List ℕ) × Bool))
      (later : Result (List (List ℕ)))
      → IsStep c n answer
      → IsHeard c fs answer
      → (IsReady c answer.0 → Returns (λ ps. heard ps ≡ gs) later)
      → Returns (λ ps. heard ps ≡ fs ++ gs) (go_on answer.1.1 answer.1.0 later)
  unfolding go_on
  go_on-heard n fs gs (e, (ps, true)) later (ready, _) (_, sent) h =
      bind-Returns (λ rest. heard rest ≡ gs) (λ all. heard all ≡ fs ++ gs) later
        (λ rest. ok (ps ++ rest)) (h ready)
        (λ rest got. append-heard ps rest ∙ ap (λ t. t ++ heard rest) sent ∙ ap (λ t. fs ++ t) got)
  go_on-heard n fs gs (e, (ps, false)) later step (stops, _) h = absurd cc

  plain_payload :
      (keys : SessionKeyData) (n : ℕ) (encoded : Option (List ℕ))
      → round_payload c false keys n encoded ≡ frame_of encoded
  unfolding payload_of
  plain_payload keys n none = refl
  plain_payload keys n (some encoded) = refl

  heard-run_ready :
      (rounds : List Round) (e : AudioEncoder c)
      → AllShort rounds
      → AllAccepted rounds
      → IsReady c e
      → Returns (λ ps. heard ps ≡ frames rounds) (run c false rounds e)
  unfolding run
  heard-run_ready [] e short open_ ready = unfold heard in refl
  heard-run_ready (r ∷ rs) e (first, short) (accepted, open_) ready =
      let n = e.sequence_number in
      bind-Returns (IsAnswer c n (r.accepts 0) (round_payload c false r.keys n r.encoded))
        (λ ps. heard ps ≡ frames (r ∷ rs)) (round c false r e) _
        (round-Returns c false r e
          (λ encoded made. unfold payload_of in short_le encoded (subst IsShort made first)) ready)
        (λ answer (step, sent).
          (let (goes_on, got) = sent (accepted 0) in
            go_on-heard n (frame_of r.encoded) (frames rs) answer (run c false rs answer.0) step
              (goes_on, got ∙ plain_payload r.keys n r.encoded)
              (λ ready'. heard-run_ready rs answer.0 short open_ ready')))

  new-IsReady : IsReady c (new c)
  unfolding new
  new-IsReady = (
    omega arith,
    ((λ k h. absurd (omega arith)), (refl, (refl, (refl, (refl, (refl, (refl, (refl, tt)))))))),
  )

  -- A run of the audio encoder from its start never panics, whatever the crates, the clock and the
  -- channel do, if Opus keeps to its buffer of 1400 bytes and the cipher to the buffer that it is
  -- lent. Every packet that it sends is a data packet of type 97 or a parity packet of type 127. The
  -- data packets carry the consecutive numbers 0, 1, … modulo 2^16, also when frames are passed over
  -- between them. A parity packet comes only after a whole group of four; its number goes on from
  -- the group by its index, 0 or 1, and it names the number of the group's first packet.
  pub run-IsNumbered :
      (encrypt : Bool) (rounds : List Round)
      → StaysInBuffer c
      → AllShort rounds
      → Returns (IsNumbered 0) (run c encrypt rounds (new c))
  unfolding new
  run-IsNumbered encrypt rounds stays short =
      run-Returns encrypt rounds (new c) stays short new-IsReady

  -- Without encryption, and while the channel takes every packet, the data packets of a run carry
  -- what Opus makes of the frames, in order, whole, and none twice or left out; only the frames that
  -- Opus fails on are missing. The run does not panic, whatever the parity shards come to.
  pub heard-run :
      (rounds : List Round)
      → AllShort rounds
      → AllAccepted rounds
      → Returns (λ ps. heard ps ≡ frames rounds) (run c false rounds (new c))
  heard-run rounds short open_ = heard-run_ready rounds (new c) short open_ new-IsReady
