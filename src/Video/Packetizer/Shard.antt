-- ===== src/Video/Packetizer/Shard.antt =====
-- The bytes of one shard: the headers and the payload that `packetize` writes into it.
pub mod Payload
use moonshine.Common.{
  ℕ, ◌+◌, ◌-◌, ◌*◌, ◌^◌, ◌%◌, List, [], ◌∷◌, ◌++◌, min, ltb, leb, ◌==◌, if◌then◌else◌, Bool, true,
  false, ◌&&◌, length, slice, take, copy_at, replicate, bit_or,
}
use moonshine.Common.Bits.{shl}
use moonshine.Common.Bytes.{le16, le32, be16, be32}
use moonshine.Common.Results.{Result, ok, panic, ◌>>=◌, ◌>>◌, assert}
use moonshine.Video.Packetizer.Layout.{
  video_frame_header_size, nv_packet_offset, nv_video_packet_size, payload_offset, multi_fec_blocks,
  fec_info,
}

-- `VideoFrameHeader`
pub record VideoFrameHeader : Type 0 where
  pub header_type : ℕ
  pub frame_processing_latency : ℕ
  pub frame_type : ℕ
  pub last_payload_len : ℕ

-- `serialize` writes all eight bytes.
unfoldable pub serialize : VideoFrameHeader → List ℕ → List ℕ
serialize h buffer =
    copy_at
      (copy_at (copy_at (copy_at buffer 0 (h.header_type ∷ [])) 1 (le16 h.frame_processing_latency))
        3 (h.frame_type ∷ []))
      4 (le32 h.last_payload_len)

unfoldable pub write_rtp_header : List ℕ → ℕ → ℕ → List ℕ
write_rtp_header buf sequence_number timestamp =
    copy_at
      (copy_at (copy_at (copy_at buf 0 (0x90 ∷ 0 ∷ [])) 2 (be16 sequence_number)) 4
        (be32 timestamp))
      8 (be32 0)

-- `write_nv_video_packet` into the part of `buf` that begins at `at`.
unfoldable pub write_nv_video_packet : List ℕ → ℕ → ℕ → ℕ → ℕ → ℕ → ℕ → List ℕ
write_nv_video_packet buf at stream_packet_index frame_index flags multi_fec_blocks fec_info =
    copy_at
      (copy_at (copy_at (copy_at buf at (le32 stream_packet_index)) (at + 4) (le32 frame_index))
        (at + 8) (flags ∷ 0 ∷ 0x10 ∷ multi_fec_blocks ∷ []))
      (at + 12) (le32 fec_info)

-- `copy_header_and_data`, into the part of `dst` that begins at `at`. A slice that leaves its
-- buffer is a panic.
unfoldable pub copy_header_and_data : List ℕ → ℕ → List ℕ → List ℕ → ℕ → ℕ → Result (List ℕ)
copy_header_and_data dst at header encoded_data offset len =
    let total = video_frame_header_size + length encoded_data in
    let end = min (offset + len) total in
    if ltb offset video_frame_header_size
    then (let header_end = min video_frame_header_size end in
        let n = header_end - offset in
        let rest = end - video_frame_header_size in
        do
          assert (leb (at + n + rest) (length dst))
          let dst' = copy_at dst at (slice header offset n)
          ok (copy_at dst' (at + n) (take rest encoded_data)))
    else (let n = end - offset in
        do
          assert (leb offset total && leb (at + n) (length dst))
          ok (copy_at dst at (slice encoded_data (offset - video_frame_header_size) n)))
