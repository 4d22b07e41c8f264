-- ===== src/Video/HdrSei/Obus.antt =====
-- hdr_sei.rs, `find_first_frame_obu` and `inject_av1_metadata`: where the metadata goes.
use moonshine.Common.{
  ℕ, zero, suc, ◌+◌, ◌-◌, ◌*◌, ◌/◌, ◌^◌, ◌≤◌, ◌<◌, ◌≡◌, refl, ap, ◌∙◌, sym, Bool, true, false, ◌||◌,
  List, [], ◌∷◌, ◌++◌, some, length, drop, get_elem?, ◌==◌, ltb, if◌then◌else◌, arith, bit_and, min,
  ltb-false, length-append, drop-append,
}
use mathlib.Core.List.{append_assoc}
use mathlib.Core.Path.{subst}
use moonshine.Common.Bytes.{be16, be32}
use moonshine.Control.Hdr.{HdrMetadata}
use moonshine.Video.HdrSei.{
  obu_type, av1_chromaticity, av1_luminance_max, av1_luminance_min, leb128_encode, leb128_decode,
  scan_obus, find_first_frame_obu,
}
use moonshine.Video.HdrSei.Leb128.{leb128_decode-encode}

-- An OBU with a size field, and with an extension byte where its header says so.
pub record Obu : Type 0 where
  pub header : ℕ
  pub extension : ℕ
  pub payload : List ℕ

abbrev has_extension : ℕ → Bool
has_extension header = bit_and (header / 4) 1 == 1

unfoldable pub obu_bytes : Obu → List ℕ
obu_bytes o =
    o.header
    ∷ ((if has_extension o.header then o.extension ∷ [] else [])
        ++ (leb128_encode (length o.payload) ++ o.payload))

unfoldable pub all_bytes : List Obu → List ℕ
all_bytes [] = []
all_bytes (o ∷ obus) = obu_bytes o ++ all_bytes obus

abbrev pub is_frame : ℕ → Bool
is_frame header = (obu_type header == 6) || (obu_type header == 3)

-- The OBU has a size field and is no frame.
abbrev pub IsSkipped : Obu → Type 0
IsSkipped o = (is_frame o.header ≡ false) × ((bit_and (o.header / 2) 1 == 1) ≡ true)

abbrev pub AllSkipped : List Obu → Type 0
AllSkipped [] = Unit {0}
AllSkipped (o ∷ obus) = IsSkipped o × AllSkipped obus

get_elem-append :
    (before : List ℕ) (x : ℕ) (after : List ℕ)
    → get_elem? (before ++ x ∷ after) (length before) ≡ some x
get_elem-append [] x after = refl
get_elem-append (b ∷ before) x after = get_elem-append before x after

scan_obus-round :
    (rounds : ℕ) (bytes : List ℕ) (i header offset size read : ℕ)
    → get_elem? bytes i ≡ some header
    → is_frame header ≡ false
    → (bit_and (header / 2) 1 == 1) ≡ true
    → (if has_extension header then i + 2 else i + 1) ≡ offset
    → offset ≤ length bytes
    → leb128_decode (drop offset bytes) ≡ (size, read)
    → offset + read + size < 2 ^ 64
    → scan_obus (suc rounds) bytes i ≡ scan_obus rounds bytes (offset + read + size)
unfolding scan_obus
scan_obus-round rounds bytes i header offset size read found no_frame sized at_size inside decoded
      small =
    let within : ltb (length bytes) offset ≡ false = ltb-false (length bytes) offset inside in
    let next : min (offset + read + size) (2 ^ 64 - 1) ≡ offset + read + size = omega arith in
    rw (found, scan_obus, at_size, decoded, no_frame, within, sized, next) refl

-- A size field with the payload that it counts.
abbrev with_size : List ℕ → List ℕ
with_size payload = leb128_encode (length payload) ++ payload

sized_part :
    (front payload after : List ℕ)
    → length payload < 2 ^ 64
    → leb128_decode (drop (length front) (front ++ (with_size payload ++ after)))
      ≡ (length payload, length (leb128_encode (length payload)))
sized_part front payload after small =
    rw
      (
        drop-append front (with_size payload ++ after),
        append_assoc (leb128_encode (length payload)) payload after,
      )
      (leb128_decode-encode (length payload) (payload ++ after) small)

-- One round steps over an OBU that is no frame.
module _ (before : List ℕ) (header : ℕ) (extension payload after : List ℕ) where
  abbrev whole : List ℕ
  whole = before ++ (header ∷ (extension ++ with_size payload) ++ after)

  abbrev front : List ℕ
  front = before ++ header ∷ extension

  regroup : whole ≡ front ++ (with_size payload ++ after)
  regroup =
      rw (append_assoc extension (with_size payload) after)
        (sym (append_assoc before (header ∷ extension) (with_size payload ++ after)))

  sizes :
      length (extension ++ with_size payload)
      ≡ length extension + (length (leb128_encode (length payload)) + length payload)
  sizes =
      rw
        (
          length-append extension (with_size payload),
          length-append (leb128_encode (length payload)) payload,
        )
        refl

  skip_sized :
      (rounds : ℕ)
      → is_frame header ≡ false
      → (bit_and (header / 2) 1 == 1) ≡ true
      → (if has_extension header then 2 else 1) ≡ suc (length extension)
      → length before + suc (length (extension ++ with_size payload)) < 2 ^ 64
      → scan_obus (suc rounds) whole (length before)
        ≡ scan_obus rounds whole (length before + suc (length (extension ++ with_size payload)))
  skip_sized rounds no_frame sized top small =
      let at_front : length front ≡ length before + suc (length extension) =
        length-append before (header ∷ extension) in
      let inside : length front ≤ length whole =
        omega (arith, ap length regroup, length-append front (with_size payload ++ after)) in
      let decoded : leb128_decode (drop (length front) whole)
          ≡ (length payload, length (leb128_encode (length payload))) =
        subst
          (λ (l : List ℕ).
            leb128_decode (drop (length front) l)
            ≡ (length payload, length (leb128_encode (length payload))))
          (sym regroup) (sized_part front payload after (omega (arith, sizes))) in
      scan_obus-round rounds whole (length before) header (length front) (length payload) _
        (get_elem-append before header _) no_frame sized (ground (arith, at_front, top)) inside
        decoded (omega (arith, sizes, at_front))
      ∙ ap (λ (j : ℕ). scan_obus rounds whole j) (omega (arith, sizes, at_front))

scan_obus-skip :
    (rounds : ℕ) (before : List ℕ) (o : Obu) (after : List ℕ)
    → IsSkipped o
    → length before + length (obu_bytes o) < 2 ^ 64
    → scan_obus (suc rounds) (before ++ (obu_bytes o ++ after)) (length before)
      ≡ scan_obus rounds (before ++ (obu_bytes o ++ after)) (length before + length (obu_bytes o))
unfolding obu_bytes
scan_obus-skip rounds before o after (no_frame, sized) small =
    skip_sized before o.header (if has_extension o.header then o.extension ∷ [] else []) o.payload
      after rounds no_frame sized (ground arith) small

scan_obus-frame :
    (rounds : ℕ) (before : List ℕ) (header : ℕ) (frame : List ℕ)
    → is_frame header ≡ true
    → scan_obus (suc rounds) (before ++ header ∷ frame) (length before) ≡ length before
unfolding scan_obus
scan_obus-frame rounds before header frame is_one =
    rw (get_elem-append before header frame, scan_obus, is_one) refl

obu_bytes-pos : (o : Obu) → 0 < length (obu_bytes o)
unfolding obu_bytes
obu_bytes-pos o = omega arith

scan_obus-all :
    (obus : List Obu) (rounds : ℕ) (before : List ℕ) (header : ℕ) (frame : List ℕ)
    → AllSkipped obus
    → is_frame header ≡ true
    → length (all_bytes obus) < rounds
    → length before + length (all_bytes obus) < 2 ^ 64
    → scan_obus rounds (before ++ (all_bytes obus ++ header ∷ frame)) (length before)
      ≡ length before + length (all_bytes obus)
unfolding all_bytes
scan_obus-all obus zero before header frame skipped is_one fuel small = absurd (omega arith)
scan_obus-all [] (suc rounds) before header frame skipped is_one fuel small =
    scan_obus-frame rounds before header frame is_one ∙ omega arith
scan_obus-all (o ∷ obus) (suc rounds) before header frame (skip, skipped) is_one fuel small =
    let both = length-append (obu_bytes o) (all_bytes obus) in
    let front = length-append before (obu_bytes o) in
    rw (append_assoc (obu_bytes o) (all_bytes obus) (header ∷ frame)) (
      scan_obus-skip rounds before o (all_bytes obus ++ header ∷ frame) skip (omega arith)
      ∙ rw (← append_assoc before (obu_bytes o) (all_bytes obus ++ header ∷ frame), ← front)
          (scan_obus-all obus rounds (before ++ obu_bytes o) header frame skipped is_one
              (omega (arith, obu_bytes-pos o)) (omega arith)
            ∙ omega arith))

-- In a bitstream of OBUs with size fields, `find_first_frame_obu` steps over all that are no frame
-- and gives the place of the first frame, however many there are and whatever they hold.
pub find_first_frame_obu-all :
    (obus : List Obu) (header : ℕ) (frame : List ℕ)
    → AllSkipped obus
    → is_frame header ≡ true
    → length (all_bytes obus) < 2 ^ 64
    → find_first_frame_obu (all_bytes obus ++ header ∷ frame) ≡ length (all_bytes obus)
unfolding find_first_frame_obu
find_first_frame_obu-all obus header frame skipped is_one small =
    scan_obus-all obus (length (all_bytes obus ++ header ∷ frame)) [] header frame skipped is_one
      (omega (arith, length-append (all_bytes obus) (header ∷ frame))) (omega arith)
    ∙ omega arith

-- A metadata OBU: type 5, without an extension and with a size field; a stop bit ends it.
unfoldable pub metadata_obu : List ℕ → Obu
metadata_obu payload = record { header = 5 * 8 + 2; extension = 0; payload = payload ++ 0x80 ∷ [] }

abbrev pub words : List ℕ → List ℕ
words [] = []
words (w ∷ ws) = be16 w ++ words ws

-- Metadata of type 2: the primaries and the white point, then the luminance, in AV1's units.
unfoldable pub mastering_display : HdrMetadata → Obu
mastering_display m = metadata_obu (
    2
      ∷ words (
          av1_chromaticity m.red.0
          ∷ av1_chromaticity m.red.1
          ∷ av1_chromaticity m.green.0
          ∷ av1_chromaticity m.green.1
          ∷ av1_chromaticity m.blue.0
          ∷ av1_chromaticity m.blue.1
          ∷ av1_chromaticity m.white_point.0
          ∷ av1_chromaticity m.white_point.1
          ∷ [])
    ++ (be32 (av1_luminance_max m.max_luminance) ++ be32 (av1_luminance_min m.min_luminance)))

-- Metadata of type 1: the light levels.
unfoldable pub light_level : HdrMetadata → Obu
light_level m = metadata_obu (1 ∷ words (m.max_cll ∷ m.max_fall ∷ []))
