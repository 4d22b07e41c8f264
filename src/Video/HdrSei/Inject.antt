-- ===== src/Video/HdrSei/Inject.antt =====
-- hdr_sei.rs, `inject_h264_sei` and `inject_h265_sei`: what is added, and where.
use moonshine.Common.{
  ℕ, ◌*◌, ◌≡◌, refl, Bool, true, false, List, [], ◌∷◌, ◌++◌, some, length, take, drop, arith,
  take-append-drop, length-take,
}
use mathlib.Core.Path.{subst}
use moonshine.Control.Hdr.{HdrMetadata}
use moonshine.Video.HdrSei.{
  inject_sei, find_first_vcl_nal, build_mdcv_sei_payload, build_clli_sei_payload, build_sei_nal,
}
use moonshine.Common.Bytes.{be16, be32}
use moonshine.Video.HdrSei.Nals.{IsFirst, find_first_vcl_nal-IsFirst}
use moonshine.Video.HdrSei.Sei.{read_sei, build_sei_nal-readable}

-- A start code and the header of an SEI NAL unit: type 6 in H.264, type 39 (prefix SEI) of layer 0 and
-- temporal id 0 in H.265.
abbrev pub sei_start : Bool → List ℕ
sei_start true = 0 ∷ 0 ∷ 0 ∷ 1 ∷ 39 * 2 ∷ 1 ∷ []
sei_start false = 0 ∷ 0 ∷ 0 ∷ 1 ∷ 6 ∷ []

-- The NAL unit is an SEI NAL unit, and read behind that start, a message with this payload.
abbrev pub IsSei : Bool → List ℕ → ℕ → List ℕ → Type 0
IsSei is_hevc nal payload_type payload =
    (take (length (sei_start is_hevc)) nal ≡ sei_start is_hevc)
    × (read_sei (drop (length (sei_start is_hevc)) nal)
        ≡ some (record { payload_type = payload_type; payload = payload; trailing = 0x80 ∷ [] }))

build_sei_nal-IsSei :
    (is_hevc : Bool) (payload_type : ℕ) (payload : List ℕ)
    → IsSei is_hevc (build_sei_nal payload_type payload is_hevc) payload_type payload
unfolding build_sei_nal
build_sei_nal-IsSei true payload_type payload =
    (refl, build_sei_nal-readable payload_type payload true)
build_sei_nal-IsSei false payload_type payload =
    (refl, build_sei_nal-readable payload_type payload false)

abbrev pub words : List ℕ → List ℕ
words [] = []
words (w ∷ ws) = be16 w ++ words ws

-- The primaries, green, blue and red in H.265 and red, green and blue in H.264, the white point, and
-- the luminance.
abbrev pub mastering_display : Bool → HdrMetadata → List ℕ
mastering_display true m =
    words (m.green.0 ∷ m.green.1 ∷ m.blue.0 ∷ m.blue.1 ∷ m.red.0 ∷ m.red.1 ∷ [])
    ++ (words (m.white_point.0 ∷ m.white_point.1 ∷ [])
        ++ (be32 m.max_luminance ++ be32 m.min_luminance))
mastering_display false m =
    words (m.red.0 ∷ m.red.1 ∷ m.green.0 ∷ m.green.1 ∷ m.blue.0 ∷ m.blue.1 ∷ [])
    ++ (words (m.white_point.0 ∷ m.white_point.1 ∷ [])
        ++ (be32 m.max_luminance ++ be32 m.min_luminance))

build_mdcv_sei_payload_lem :
    (is_hevc : Bool) (m : HdrMetadata)
    → build_mdcv_sei_payload m is_hevc ≡ mastering_display is_hevc m
unfolding build_mdcv_sei_payload
build_mdcv_sei_payload_lem true m = refl
build_mdcv_sei_payload_lem false m = refl

-- How a bitstream is cut: the bytes before the first coded slice and from it on, with two SEI NAL
-- units between them.
pub record Cut (is_hevc : Bool) (bytes : List ℕ) (m : HdrMetadata) (result : List ℕ) : Type 0 where
  pub before : List ℕ
  pub mdcv : List ℕ
  pub clli : List ℕ
  pub after : List ℕ
  pub original : before ++ after ≡ bytes
  pub combined : result ≡ before ++ (mdcv ++ (clli ++ after))
  pub first : IsFirst is_hevc bytes (length before)
  pub mdcv_reads : IsSei is_hevc mdcv 137 (mastering_display is_hevc m)
  pub clli_reads : IsSei is_hevc clli 144 (words (m.max_cll ∷ m.max_fall ∷ []))

-- For any bytes, the injected bitstream is these bytes with two SEI NAL units added before the first
-- coded slice (types 1 to 5 in H.264, below 32 in H.265), or before a start code that ends them, or
-- at the end. Each has a start code and the header of an SEI NAL unit, and a reader that drops the
-- emulation prevention bytes reads a message of type 137 with the primaries in the codec's order, the
-- white point and the luminance, and one of type 144 with the light levels.
pub inject_sei-Cut :
    (is_hevc : Bool) (bytes : List ℕ) (m : HdrMetadata)
    → Cut is_hevc bytes m (inject_sei is_hevc bytes m)
unfolding inject_sei build_clli_sei_payload
inject_sei-Cut is_hevc bytes m =
    let k = find_first_vcl_nal bytes is_hevc in
    let first = find_first_vcl_nal-IsFirst bytes is_hevc in
    let size : k ≡ length (take k bytes) = omega (arith, length-take k bytes, first.inside) in
    record {
      before = take k bytes;
      mdcv = build_sei_nal 137 (build_mdcv_sei_payload m is_hevc) is_hevc;
      clli = build_sei_nal 144 (build_clli_sei_payload m) is_hevc;
      after = drop k bytes;
      original = take-append-drop k bytes;
      combined = refl;
      first = subst (λ (j : ℕ). IsFirst is_hevc bytes j) size first;
      mdcv_reads =
          subst
            (λ (payload : List ℕ).
              IsSei is_hevc (build_sei_nal 137 (build_mdcv_sei_payload m is_hevc) is_hevc) 137
                payload)
            (build_mdcv_sei_payload_lem is_hevc m)
            (build_sei_nal-IsSei is_hevc 137 (build_mdcv_sei_payload m is_hevc));
      clli_reads = build_sei_nal-IsSei is_hevc 144 (build_clli_sei_payload m);
    }
