-- ===== src/Video/HdrSei/Escape.antt =====
-- hdr_sei.rs, `rbsp_escape`: no start code in the output, and a decoder gets the input back.
use moonshine.Common.{
  ℕ, ◌+◌, ◌≤◌, ◌<◌, ◌≡◌, refl, ◌&&◌, List, [], ◌∷◌, ◌++◌, leb, ◌==◌, if◌then◌else◌, arith,
  Bool-cases, inl, inr,
}
use moonshine.Video.HdrSei.{escape_from, rbsp_escape}

-- A byte behind two zeros is above 2, counting the zeros before the list.
abbrev Guarded : ℕ → List ℕ → Type 0
Guarded seen [] = Unit {0}
Guarded seen (b ∷ bytes) = (2 ≤ seen → 2 < b) × Guarded (if b == 0 then seen + 1 else 0) bytes

escape_from-Guarded : (seen : ℕ) (bytes : List ℕ) → Guarded seen (escape_from seen bytes)
unfolding escape_from
escape_from-Guarded seen [] = tt
escape_from-Guarded seen (b ∷ bytes) = elim (Bool-cases (leb 2 seen && leb b 3)) [
  | inl e ↦ rw e (
    (λ h. omega arith),
    ((λ h. absurd (omega arith)), escape_from-Guarded (if b == 0 then 1 else 0) bytes),
  )
  | inr e ↦ rw e ((λ h. ground arith), escape_from-Guarded (if b == 0 then seen + 1 else 0) bytes)
]

Guarded-at :
    (before after : List ℕ) (seen b : ℕ) → Guarded seen (before ++ 0 ∷ 0 ∷ b ∷ after) → 2 < b
Guarded-at [] after seen b g = (g.1).1.0 (omega arith)
Guarded-at (x ∷ before) after seen b g = Guarded-at before after _ b g.1

-- Wherever the output of `rbsp_escape` has two zero bytes in a row, the byte after them is above 2:
-- the output contains neither a start code nor three zeros.
pub rbsp_escape-no_start_code :
    (bytes before after : List ℕ) (b : ℕ) → rbsp_escape bytes ≡ before ++ 0 ∷ 0 ∷ b ∷ after → 2 < b
unfolding rbsp_escape
rbsp_escape-no_start_code bytes before after b e =
    Guarded-at before after 0 b (rw e at (escape_from-Guarded 0 bytes))

-- A decoder drops each 3 that comes behind two zeros.
unfoldable pub unescape_from : ℕ → List ℕ → List ℕ
unescape_from seen [] = []
unescape_from seen (b ∷ bytes) =
    let dropped = unescape_from 0 bytes in
    let rest = unescape_from (if b == 0 then seen + 1 else 0) bytes in
    if leb 2 seen && (b == 3) then dropped else b ∷ rest

unescape-escape_from :
    (seen : ℕ) (bytes : List ℕ) → unescape_from seen (escape_from seen bytes) ≡ bytes
unfolding escape_from unescape_from
unescape-escape_from seen [] = refl
unescape-escape_from seen (b ∷ bytes) = ground (
  arith,
  unescape-escape_from (if b == 0 then 1 else 0) bytes,
  unescape-escape_from (if b == 0 then seen + 1 else 0) bytes,
)

-- A decoder that drops the emulation prevention bytes gets back what `rbsp_escape` was given.
pub unescape-rbsp_escape : (bytes : List ℕ) → unescape_from 0 (rbsp_escape bytes) ≡ bytes
unfolding rbsp_escape
unescape-rbsp_escape bytes = unescape-escape_from 0 bytes
