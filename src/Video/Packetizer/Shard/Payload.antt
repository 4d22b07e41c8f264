-- ===== src/Video/Packetizer/Shard/Payload.antt =====
-- The payload of a shard is a slice of the header and the data one after the other.
use moonshine.Common.{
  ℕ, ◌+◌, ◌-◌, ◌≤◌, ◌<◌, ◌≡◌, List, ◌++◌, min, arith, leb-true, ltb-true, ltb-false, length, slice,
  take, drop, copy_at, length-drop, length-take, copy_at-append, take_append_left,
  take_append_right, drop_append_left, drop_append_right, take_past, take_all, dec_lt,
}
use mathlib.Core.List.{append-nil}
use moonshine.Common.Results.{ok}
use moonshine.Video.Packetizer.Shard.{copy_header_and_data}

module _ (dst header encoded_data : List ℕ) (at offset len : ℕ) (eight : length header ≡ 8)
    (starts : offset ≤ 8 + length encoded_data) (fits : at + len ≤ length dst) where
  end : ℕ
  end = min (offset + len) (8 + length encoded_data)

  -- From inside the header: a part of the header, and a part of the data if it goes on so far.
  from_header :
      offset < 8
      → slice (header ++ encoded_data) offset len
        ≡ slice header offset (min 8 end - offset) ++ take (end - 8) encoded_data
  unfolding end
  from_header h =
      rw (drop_append_left offset header encoded_data (omega arith))
        (split (dec_lt 8 (offset + len)))
    where
      split :
          Dec (8 < offset + len)
          → take len (drop offset header ++ encoded_data)
            ≡ slice header offset (min 8 end - offset) ++ take (end - 8) encoded_data
      split (yes long) =
          let all : min 8 end - offset ≡ 8 - offset = omega arith in
          rw (
            all,
            take_append_right len (offset + len - 8) (drop offset header) encoded_data
                (omega (arith, length-drop offset header)),
            take_all (8 - offset) (drop offset header) (omega (arith, length-drop offset header)),
            take_past (offset + len - 8) (end - 8) encoded_data (omega arith),
          )
      split (no short) =
          let part : min 8 end - offset ≡ len = omega arith in
          let nothing : end - 8 ≡ 0 = omega arith in
          rw (
            part,
            nothing,
            take_append_left len (drop offset header) encoded_data
                (omega (arith, length-drop offset header)),
            append-nil,
          )

  behind_header :
      8 ≤ offset
      → slice (header ++ encoded_data) offset len ≡ slice encoded_data (offset - 8) (end - offset)
  unfolding end
  behind_header h = rw (
    drop_append_right offset (offset - 8) header encoded_data (omega arith),
    take_past len (end - offset) (drop (offset - 8) encoded_data)
        (omega (arith, length-drop (offset - 8) encoded_data)),
  )

  -- What `copy_header_and_data` writes, where the slice fits.
  pub copy_header_and_data_lem :
      copy_header_and_data dst at header encoded_data offset len
      ≡ ok (copy_at dst at (slice (header ++ encoded_data) offset len))
  unfolding copy_header_and_data end
  copy_header_and_data_lem = elim (dec_lt offset 8) [
    | yes h ↦ rw (
      ltb-true offset 8 h,
      leb-true (at + (min 8 end - offset) + (end - 8)) (length dst) (omega arith),
      from_header h,
      copy_at-append dst at (at + (min 8 end - offset)) (slice header offset (min 8 end - offset))
          (take (end - 8) encoded_data)
          (omega (
            arith,
            length-take (min 8 end - offset) (drop offset header),
            length-drop offset header,
          )),
    )
    | no h ↦ rw (
      ltb-false offset 8 (omega arith),
      leb-true offset (8 + length encoded_data) starts,
      leb-true (at + (end - offset)) (length dst) (omega arith),
      behind_header (omega arith),
    )
  ]
