-- ===== src/Tests/Frames.antt =====
-- Whole frames through the packetizer at concrete inputs.
use moonshine.Common.{refl, [], ◌∷◌, false, replicate, arith}
use moonshine.Common.Int.{pos}
use moonshine.Tests.Video.{plain_crates}
use moonshine.Video.Packetizer.Layout.{requested_shard_payload_size}
use moonshine.Video.Packetizer.State.{SessionKeyData, new}
use moonshine.Video.Packetizer.Frame.{Request}
use moonshine.Video.Packetizer.Frame.Coded.{MakesCodes}
use moonshine.Video.Packetizer.Frame.Laid.{IsSized}
use moonshine.Video.Packetizer.Frame.Whole.{Delivers, packetize-Delivers}

-- Three bytes of data in shards that hold four.
abbrev request : Request
request = record {
  encoded_data = 1 ∷ 2 ∷ 3 ∷ [];
  is_key_frame = false;
  requested_packet_size = 20;
  minimum_fec_packets = 1;
  fec_percentage = 20;
  frame_number = 5;
  rtp_timestamp = 90;
  frame_processing_latency = 0;
}

request-IsSized : IsSized request
unfolding requested_shard_payload_size
request-IsSized = record {
  some_payload = omega arith;
  fits = omega arith;
  percentage = omega arith;
}

plain_crates-MakesCodes : MakesCodes plain_crates
plain_crates-MakesCodes n m some_data some_parity within =
    ((n, m), (refl, λ slices size e long. (slices, (refl, (refl, (long, λ k s lt at_k. at_k))))))

abbrev keys : SessionKeyData
keys = record { remote_input_key = replicate 16 0; remote_input_key_id = pos 0 }

-- Another frame, of no data, follows.
abbrev no_data : Request
no_data = record request { encoded_data = []; frame_number = 6 }

no_data-IsSized : IsSized no_data
unfolding requested_shard_payload_size
no_data-IsSized = record {
  some_payload = omega arith;
  fits = omega arith;
  percentage = omega arith;
}

packetize-Delivers_example :
    Delivers plain_crates
      ((keys, request) ∷ (keys, no_data) ∷ [])
      (record { packetizer = new plain_crates false; sequence_number = 4294967294 })
packetize-Delivers_example =
    packetize-Delivers plain_crates ((keys, request) ∷ (keys, no_data) ∷ []) (4294967294)
      plain_crates-MakesCodes (request-IsSized, (no_data-IsSized, tt)) (omega arith)
