-- ===== src/Tests/Audio.antt =====
-- The audio encoder at concrete inputs.
use moonshine.Common.{
  ℕ, ◌≡◌, ◌≤◌, refl, true, false, Option, none, some, List, [], ◌∷◌, length, replicate, map, arith,
}
use mathlib.Core.Path.{subst}
use moonshine.Common.Int.{pos}
use moonshine.Common.Results.{ok, ◌>>=◌}
use moonshine.Video.Packetizer.State.{SessionKeyData}
use moonshine.Audio.Encoder.{
  Crates, Round, new, run, round, send_payload, send_frame, sent_data, send_parity, encode_shards,
  store, payload_of, go_on, parity_shards, write_back, fits, crop, shard_at, write_parity_packet,
  fec_header, parity_rtp_fields, write_data_packet, rtp_header,
}
use moonshine.Audio.Encoder.Shards.{Returns}
use moonshine.Audio.Encoder.Numbers.{IsNumbered, heard, number}
use moonshine.Audio.Encoder.Group.{StaysInBuffer}
use moonshine.Audio.Encoder.Stream.{frames, run-IsNumbered, heard-run}

-- A code that leaves the shards as they are, and a cipher that encrypts nothing
abbrev toy : Crates
toy = record {
  Fec = ℕ;
  new_fec = λ d p matrix. 0;
  encode = λ f views. (f, views);
  reset = λ f. (f, true);
  reset_force = λ f. f;
  encrypt_padded = λ key iv buffer n. some buffer;
}

abbrev keys : SessionKeyData
keys = record { remote_input_key = replicate 16 7; remote_input_key_id = pos 3 }

abbrev frame : Option (List ℕ) → ℕ → Round
frame encoded elapsed = record {
  encoded = encoded;
  elapsed = elapsed;
  keys = keys;
  accepts = λ k. true;
}

-- Five frames, of which Opus fails on the second
abbrev five_frames : List Round
five_frames =
    frame (some (1 ∷ 2 ∷ [])) 100
    ∷ frame none 5100
    ∷ frame (some (3 ∷ [])) 10100
    ∷ frame (some (4 ∷ 5 ∷ 6 ∷ [])) 15100
    ∷ frame (some (7 ∷ [])) 20100
    ∷ []

numbers_sent :
    (run toy false five_frames (new toy) >>= λ ps. ok (map number ps))
    ≡ ok (0 ∷ 1 ∷ 2 ∷ 3 ∷ 4 ∷ 5 ∷ [])
unfolding run round send_payload send_frame sent_data send_parity encode_shards store payload_of
    go_on parity_shards write_back fits crop shard_at write_parity_packet fec_header
    parity_rtp_fields write_data_packet rtp_header new
numbers_sent = refl

toy-StaysInBuffer : StaysInBuffer toy
toy-StaysInBuffer key iv buffer out n e =
    let same : buffer ≡ out = cc in
    subst (λ (o : List ℕ). length o ≤ length buffer) same (omega arith)

run-IsNumbered_example : Returns (IsNumbered 0) (run toy true five_frames (new toy))
run-IsNumbered_example =
    run-IsNumbered toy true five_frames toy-StaysInBuffer
      (omega arith, (tt, (omega arith, (omega arith, (omega arith, tt)))))

heard-run_example :
    Returns (λ ps. heard ps ≡ frames five_frames) (run toy false five_frames (new toy))
heard-run_example =
    heard-run toy five_frames (omega arith, (tt, (omega arith, (omega arith, (omega arith, tt)))))
      ((λ k. refl), ((λ k. refl), ((λ k. refl), ((λ k. refl), ((λ k. refl), tt)))))
