-- ===== src/Video/HdrSei.antt =====
-- moonshine-core/src/session/stream/video/pipeline/hdr_sei.rs: HDR metadata put into an encoded
-- key frame, as SEI NAL units (H.264 and H.265) or as metadata OBUs (AV1).
pub mod Escape
pub mod Sei
pub mod Nals
pub mod Leb128
pub mod Obus
pub mod Units
pub mod Inject
use moonshine.Common.{
  ℕ, zero, suc, ◌+◌, ◌-◌, ◌*◌, ◌/◌, ◌%◌, ◌^◌, Bool, true, false, ◌&&◌, ◌||◌, List, [], ◌∷◌, ◌++◌,
  none, some, length, get_elem?, take, drop, ltb, leb, ◌==◌, if◌then◌else◌, bit_and, bit_or, min,
}
use moonshine.Common.Bits.{shl}
use moonshine.Common.Bytes.{be16, be32}
use moonshine.Control.Hdr.{HdrMetadata}
use moonshine.Video.Context.{VideoFormat, h264, hevc, av1}

abbrev coordinates : ℕ × ℕ → List ℕ
coordinates (x, y) = be16 x ++ be16 y

-- `build_mdcv_sei_payload`
unfoldable pub build_mdcv_sei_payload : HdrMetadata → Bool → List ℕ
build_mdcv_sei_payload m is_hevc =
    (if is_hevc
      then coordinates m.green ++ coordinates m.blue ++ coordinates m.red
      else coordinates m.red ++ coordinates m.green ++ coordinates m.blue)
    ++ coordinates m.white_point
    ++ be32 m.max_luminance
    ++ be32 m.min_luminance

-- `build_clli_sei_payload`
unfoldable pub build_clli_sei_payload : HdrMetadata → List ℕ
build_clli_sei_payload m = be16 m.max_cll ++ be16 m.max_fall

-- The loop of `rbsp_escape`, with the number of zero bytes just written. It stays at 2 or less.
unfoldable pub escape_from : ℕ → List ℕ → List ℕ
escape_from consecutive_zeros [] = []
escape_from consecutive_zeros (byte ∷ bytes) =
    let guarded = leb 2 consecutive_zeros && leb byte 3 in
    let zeros = if guarded then 0 else consecutive_zeros in
    let rest = escape_from (if byte == 0 then zeros + 1 else 0) bytes in
    if guarded then 3 ∷ byte ∷ rest else byte ∷ rest

-- `rbsp_escape`
unfoldable pub rbsp_escape : List ℕ → List ℕ
rbsp_escape bytes = escape_from 0 bytes

-- `while n >= 255 { push(0xff); n -= 255 } push(n)`; a round takes something away from `n`, so `n`
-- rounds are enough.
unfoldable pub push_long : ℕ → ℕ → List ℕ
push_long zero n = n ∷ []
push_long (suc rounds) n =
    let rest = push_long rounds (n - 255) in if leb 255 n then 0xff ∷ rest else n ∷ []

-- The SEI message, before it is escaped.
unfoldable pub sei_msg : ℕ → List ℕ → List ℕ
sei_msg payload_type payload =
    push_long payload_type payload_type
    ++ (push_long (length payload) (length payload) ++ (payload ++ 0x80 ∷ []))

abbrev pub nal_header : Bool → List ℕ
nal_header is_hevc = if is_hevc then 0x4e ∷ 0x01 ∷ [] else 0x06 ∷ []

-- `build_sei_nal`
unfoldable pub build_sei_nal : ℕ → List ℕ → Bool → List ℕ
build_sei_nal payload_type payload is_hevc =
    0 ∷ 0 ∷ 0 ∷ 1 ∷ nal_header is_hevc ++ rbsp_escape (sei_msg payload_type payload)

-- `leb128_encode`: a round takes seven bits, so ten rounds are enough for a u64.
unfoldable pub encode_groups : ℕ → ℕ → List ℕ
encode_groups zero value = []
encode_groups (suc rounds) value =
    let byte = bit_and value 0x7f in
    let rest = encode_groups rounds (value / 2 ^ 7) in
    if value / 2 ^ 7 == 0 then byte ∷ [] else bit_or byte 0x80 ∷ rest

unfoldable pub leb128_encode : ℕ → List ℕ
leb128_encode value = encode_groups 10 value

-- `leb128_decode`; the shift of a u64 is taken modulo 64, as release builds do.
unfoldable pub decode_from : List ℕ → ℕ → ℕ → ℕ → ℕ × ℕ
decode_from [] value shift i = (value, i)
decode_from (byte ∷ bytes) value shift i =
    let value' = bit_or value (shl (bit_and byte 0x7f) (shift % 64) % 2 ^ 64) in
    let rest = decode_from bytes value' (shift + 7) (i + 1) in
    if bit_and byte 0x80 == 0 then (value', i + 1) else rest

unfoldable pub leb128_decode : List ℕ → ℕ × ℕ
leb128_decode bytes = decode_from bytes 0 0 0

-- `build_av1_metadata_obu`
abbrev pub obu_metadata_header : ℕ
obu_metadata_header = 0x2a

unfoldable pub build_av1_metadata_obu : List ℕ → List ℕ
build_av1_metadata_obu payload =
    obu_metadata_header ∷ (leb128_encode (length payload + 1) ++ (payload ++ 0x80 ∷ []))

-- The payload of `build_av1_cll_obu`, and the OBU.
unfoldable pub av1_cll : HdrMetadata → List ℕ
av1_cll m = 1 ∷ be16 m.max_cll ++ be16 m.max_fall

unfoldable pub build_av1_cll_obu : HdrMetadata → List ℕ
build_av1_cll_obu m = build_av1_metadata_obu (av1_cll m)

-- `av1_chromaticity`, `av1_luminance_max` and `av1_luminance_min`, with their casts.
unfoldable pub av1_chromaticity : ℕ → ℕ
av1_chromaticity value = min ((value * 65536 + 25000) / 50000) (2 ^ 16 - 1) % 2 ^ 16

unfoldable pub av1_luminance_max : ℕ → ℕ
av1_luminance_max value = (value * 256 + 5000) / 10000 % 2 ^ 32

unfoldable pub av1_luminance_min : ℕ → ℕ
av1_luminance_min value = min ((value * 16384 + 5000) / 10000) (2 ^ 32 - 1) % 2 ^ 32

abbrev av1_coordinates : ℕ × ℕ → List ℕ
av1_coordinates (x, y) = be16 (av1_chromaticity x) ++ be16 (av1_chromaticity y)

-- The payload of `build_av1_mdcv_obu`, and the OBU.
unfoldable pub av1_mdcv : HdrMetadata → List ℕ
av1_mdcv m =
    2 ∷ av1_coordinates m.red
    ++ av1_coordinates m.green
    ++ av1_coordinates m.blue
    ++ av1_coordinates m.white_point
    ++ be32 (av1_luminance_max m.max_luminance)
    ++ be32 (av1_luminance_min m.min_luminance)

unfoldable pub build_av1_mdcv_obu : HdrMetadata → List ℕ
build_av1_mdcv_obu m = build_av1_metadata_obu (av1_mdcv m)

abbrev pub starts_with : List ℕ → List ℕ → Bool
starts_with [] rest = true
starts_with (c ∷ code) [] = false
starts_with (c ∷ code) (b ∷ rest) = (b == c) && starts_with code rest

-- The type of the NAL unit with this first byte is one of a coded slice.
unfoldable pub is_vcl : Bool → ℕ → Bool
is_vcl is_hevc header =
    if is_hevc
    then leb (bit_and (header / 2) 0x3f) 31
    else leb 1 (bit_and header 0x1f) && leb (bit_and header 0x1f) 5

-- The loop of `find_first_vcl_nal` from `i` on, where `rest` is `data[i..]`.
unfoldable pub scan_nals : Bool → ℕ → List ℕ → ℕ → ℕ
scan_nals is_hevc zero rest i = i
scan_nals is_hevc (suc rounds) [] i = i
scan_nals is_hevc (suc rounds) (b ∷ rest) i =
    let four = scan_nals is_hevc rounds (drop 3 rest) (i + 4) in
    let three = scan_nals is_hevc rounds (drop 2 rest) (i + 3) in
    let one = scan_nals is_hevc rounds rest (i + 1) in
    if starts_with (0 ∷ 0 ∷ 0 ∷ 1 ∷ []) (b ∷ rest)
    then elim (get_elem? rest 3) [
      | none ↦ i
      | some header ↦ if is_vcl is_hevc header then i else four
    ]
    else if starts_with (0 ∷ 0 ∷ 1 ∷ []) (b ∷ rest)
    then elim (get_elem? rest 2) [
      | none ↦ i
      | some header ↦ if is_vcl is_hevc header then i else three
    ]
    else one

-- `find_first_vcl_nal`: a round takes a byte at least.
unfoldable pub find_first_vcl_nal : List ℕ → Bool → ℕ
find_first_vcl_nal bytes is_hevc = scan_nals is_hevc (length bytes) bytes 0

abbrev pub obu_type : ℕ → ℕ
obu_type header = bit_and (header / 8) 0x0f

-- The loop of `find_first_frame_obu` from `i` on.
unfoldable pub scan_obus : ℕ → List ℕ → ℕ → ℕ
scan_obus zero bytes i = length bytes
scan_obus (suc rounds) bytes i = elim (get_elem? bytes i) [
  | none ↦ length bytes
  | some header ↦
      let offset = if bit_and (header / 4) 1 == 1 then i + 2 else i + 1 in
      let (size, bytes_read) = leb128_decode (drop offset bytes) in
      let next = scan_obus rounds bytes (min (offset + bytes_read + size) (2 ^ 64 - 1)) in
      if (obu_type header == 6) || (obu_type header == 3)
      then i
      else if ltb (length bytes) offset
      then length bytes
      else if bit_and (header / 2) 1 == 1
      then next
      else length bytes
]

-- `find_first_frame_obu`: a round takes a byte at least.
unfoldable pub find_first_frame_obu : List ℕ → ℕ
find_first_frame_obu bytes = scan_obus (length bytes) bytes 0

-- `inject_h264_sei` and `inject_h265_sei`, which differ in `is_hevc` alone.
unfoldable pub inject_sei : Bool → List ℕ → HdrMetadata → List ℕ
inject_sei is_hevc bytes m =
    let insert_pos = find_first_vcl_nal bytes is_hevc in
    take insert_pos bytes
    ++ (build_sei_nal 137 (build_mdcv_sei_payload m is_hevc) is_hevc
        ++ (build_sei_nal 144 (build_clli_sei_payload m) is_hevc ++ drop insert_pos bytes))

-- `inject_av1_metadata`
unfoldable pub inject_av1_metadata : List ℕ → HdrMetadata → List ℕ
inject_av1_metadata bytes m =
    let insert_pos = find_first_frame_obu bytes in
    take insert_pos bytes
    ++ (build_av1_mdcv_obu m ++ (build_av1_cll_obu m ++ drop insert_pos bytes))

-- `inject_hdr_metadata`
unfoldable pub inject_hdr_metadata : List ℕ → HdrMetadata → VideoFormat → List ℕ
inject_hdr_metadata bytes metadata h264 = inject_sei false bytes metadata
inject_hdr_metadata bytes metadata hevc = inject_sei true bytes metadata
inject_hdr_metadata bytes metadata av1 = inject_av1_metadata bytes metadata
