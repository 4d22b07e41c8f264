-- ===== src/Webserver/Query.antt =====
-- moonshine-core/src/webserver/mod.rs: the query of a request, and what is answered. A text is its
-- UTF-8 bytes.
use moonshine.Common.{ℕ, ◌++◌, Bool, Option, none, some, List, [], ◌∷◌, if◌then◌else◌}
use moonshine.Common.Text.{codes}
use moonshine.Clients.{same_bytes}

-- The crate hex, and the validation of `String::from_utf8`
pub record Codecs : Type 0 where
  pub hex_encode : List ℕ → List ℕ
  pub hex_decode : List ℕ → Option (List ℕ)
  pub valid_utf8 : List ℕ → Bool

abbrev pub Params : Type 0
Params = List (List ℕ × List ℕ)

-- `contains_key` and `remove`: a handler reads each key once, so the map is left as it is.
unfoldable pub get_param : List ℕ → Params → Option (List ℕ)
get_param key [] = none
get_param key ((k, value) ∷ rest) =
    let found = get_param key rest in if same_bytes k key then some value else found

-- A response with its status, without the texts of errors. An `xml_error` has the HTTP status 200 and
-- its own in the body.
pub data Response : Type 0 where
  bad_request unauthorized not_found : Response
  xml_error : ℕ → Response
  plain html xml png : List ℕ → Response

abbrev pub element : List ℕ → List ℕ → List ℕ
element name text =
    codes "<" ++ (name ++ (codes ">" ++ (text ++ (codes "</" ++ (name ++ codes ">")))))

-- A document of the status 200
abbrev pub root : List ℕ → Response
root inner = xml (codes "<root status_code=\"200\">" ++ (inner ++ codes "</root>"))
