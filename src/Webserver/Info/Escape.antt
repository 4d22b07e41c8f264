-- ===== src/Webserver/Info/Escape.antt =====
-- webserver/mod.rs: texts of clients and applications inside of documents.
use moonshine.Common.{
  ℕ, zero, suc, ◌≡◌, ◌++◌, ◌==◌, ◌≤◌, ◌<◌, true, false, ◌||◌, Option, none, some, List, [], ◌∷◌,
  if◌then◌else◌, arith, length,
}
use moonshine.Common.Text.{codes, same_text}
use moonshine.Webserver.Info.{is_hex_digit, hex_digits, pin_id}

-- What each character becomes, in one pass.
unfoldable pub entity : ℕ → List ℕ
entity c =
    if c == b'&'
    then codes "&amp;"
    else if c == b'<'
    then codes "&lt;"
    else if c == b'>'
    then codes "&gt;"
    else if c == b'"'
    then codes "&quot;"
    else if c == b'\''
    then codes "&apos;"
    else c ∷ []

unfoldable pub entities : List ℕ → List ℕ
entities [] = []
entities (c ∷ s) = entity c ++ entities s

-- How a client reads a document back: `name` is that of an entity under way.
unfoldable pub named : List ℕ → ℕ
named name =
    if same_text name (codes "amp")
    then b'&'
    else if same_text name (codes "lt")
    then b'<'
    else if same_text name (codes "gt")
    then b'>'
    else if same_text name (codes "quot")
    then b'"'
    else b'\''

unfoldable pub unescape : Option (List ℕ) → List ℕ → List ℕ
unescape name [] = []
unescape none (c ∷ s) =
    let entity = unescape (some []) s in
    let rest = unescape none s in if c == b'&' then entity else c ∷ rest
unescape (some name) (c ∷ s) =
    let rest = unescape none s in
    let more = unescape (some (name ++ c ∷ [])) s in if c == b';' then named name ∷ rest else more

-- No character that could end a text or a quoted value of a document
abbrev pub IsInert : List ℕ → Type 0
IsInert [] = Unit {0}
IsInert (c ∷ s) = ((c == b'<') || (c == b'>') || (c == b'"') || (c == b'\'') ≡ false) × IsInert s

abbrev pub AllHex : List ℕ → Type 0
AllHex [] = Unit {0}
AllHex (c ∷ s) = (is_hex_digit c ≡ true) × AllHex s

hex_digits-AllHex : (n : ℕ) (s : List ℕ) → AllHex (hex_digits n s) × (length (hex_digits n s) ≤ n)
unfolding hex_digits
hex_digits-AllHex zero s = ground arith
hex_digits-AllHex (suc n) [] = ground arith
hex_digits-AllHex (suc n) (c ∷ s) =
    ground (arith, hex_digits-AllHex n s, hex_digits-AllHex (suc n) s)

-- Whatever id a request has, the PIN page gets one of hexadecimal digits, one at least and sixteen
-- at most.
pin_id-AllHex :
    (id : Option (List ℕ))
    → AllHex (pin_id id) × (0 < length (pin_id id)) × (length (pin_id id) ≤ 16)
unfolding pin_id
pin_id-AllHex none = ground arith
pin_id-AllHex (some id) = ground (arith, hex_digits-AllHex 16 id)
