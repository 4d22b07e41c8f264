-- ===== src/Tests/HdrSei.antt =====
-- The theorems on HDR metadata at concrete inputs.
use moonshine.Common.{ℕ, ◌-◌, ◌^◌, ◌<◌, ◌≡◌, ◌⊎◌, refl, false, List, [], ◌∷◌, ◌++◌, length, arith}
use moonshine.Control.Hdr.{fallback}
use moonshine.Video.HdrSei.{
  rbsp_escape, escape_from, leb128_encode, leb128_decode, av1_chromaticity, av1_luminance_max,
  av1_luminance_min, inject_sei,
}
use moonshine.Video.HdrSei.Escape.{rbsp_escape-no_start_code}
use moonshine.Video.HdrSei.Leb128.{leb128_decode-encode}
use moonshine.Video.HdrSei.Inject.{Cut, inject_sei-Cut}
use moonshine.Video.HdrSei.Obus.{Obu}
use moonshine.Video.HdrSei.Units.{IsRounded, av1_units-IsRounded}

rbsp_escape-no_start_code_example : 2 < 3
unfolding rbsp_escape escape_from
rbsp_escape-no_start_code_example =
    rbsp_escape-no_start_code (5 ∷ 0 ∷ 0 ∷ 1 ∷ []) (5 ∷ []) (1 ∷ []) 3 refl

leb128_decode-encode_example :
    leb128_decode (leb128_encode 300 ++ (9 ∷ [])) ≡ (300, length (leb128_encode 300))
leb128_decode-encode_example = leb128_decode-encode 300 (9 ∷ []) (omega arith)

-- A parameter set, then a key frame.
abbrev key_frame : List ℕ
key_frame = 0 ∷ 0 ∷ 0 ∷ 1 ∷ 0x67 ∷ 0x42 ∷ 0 ∷ 0 ∷ 1 ∷ 0x65 ∷ 0x88 ∷ []

inject_sei-Cut_example : Cut false key_frame fallback (inject_sei false key_frame fallback)
inject_sei-Cut_example = inject_sei-Cut false key_frame fallback

-- A sequence header of three bytes.
abbrev sequence : Obu
sequence = record { header = 0x0a; extension = 0; payload = 1 ∷ 2 ∷ 3 ∷ [] }

av1_units-IsRounded_example :
    (IsRounded 65536 50000 34000 (av1_chromaticity 34000) ⊎ (av1_chromaticity 34000 ≡ 2 ^ 16 - 1))
    × (IsRounded 256 10000 10000000 (av1_luminance_max 10000000)
        × (IsRounded 16384 10000 10000000 (av1_luminance_min 10000000)
            ⊎ (av1_luminance_min 10000000 ≡ 2 ^ 32 - 1)))
av1_units-IsRounded_example = av1_units-IsRounded 34000 10000000 (omega arith) (omega arith)
