-- ===== src/Webserver/Info.antt =====
-- moonshine-core/src/webserver/mod.rs: what the host tells of itself and its applications.
pub mod Escape
use moonshine.Common.{
  ℕ, suc, zero, ◌++◌, ◌&&◌, ◌||◌, ◌==◌, leb, Bool, true, false, Option, none, some, List, [], ◌∷◌,
  if◌then◌else◌,
}
use moonshine.Common.Int.{ℤ, pos}
use moonshine.Common.Text.{codes, parse_signed, to_string, int_to_string}
use moonshine.Common.Results.{ok, err, panic}
use moonshine.Clients.{ClientManager, is_paired}
use moonshine.Session.Manager.{ApplicationConfig, SessionContext, Manager, get_session_context}
use moonshine.Webserver.Query.{
  Params, get_param, Response, bad_request, html, xml, png, root, element,
}
use moonshine.Webserver.Launch.{Config, IpAddr, v4, v6, find_application}

-- `str::replace` of one character
unfoldable pub replace : ℕ → List ℕ → List ℕ → List ℕ
replace c by [] = []
replace c by (d ∷ s) = (if d == c then by else d ∷ []) ++ replace c by s

-- `escape_xml`
unfoldable pub escape_xml : List ℕ → List ℕ
escape_xml input = replace b'\'' (codes "&apos;") (
    replace b'"' (codes "&quot;") (
      replace b'>' (codes "&gt;")
        (replace b'<' (codes "&lt;") (replace b'&' (codes "&amp;") input))))

abbrev pub flag : Bool → List ℕ
flag true = codes "1"
flag false = codes "0"

-- The loop of `app_list`
unfoldable pub app_entries : Config → List ApplicationConfig → List ℕ
app_entries config [] = []
app_entries config (a ∷ rest) =
    element (codes "App") (
      element (codes "IsHdrSupported") (flag config.hdr_supported)
      ++ (element (codes "AppTitle") (escape_xml a.title)
          ++ element (codes "ID") (int_to_string (config.id_of a.title))))
    ++ app_entries config rest

-- `app_list`
unfoldable pub app_list : Config → Response
app_list config = root (app_entries config config.applications)

-- `app_asset`; `image` is the box art of an application, read, fitted and encoded, if that succeeds.
unfoldable pub app_asset : Config → (List ℕ → Option (List ℕ)) → Params → Response
app_asset config image params = elim (get_param (codes "appid") params) [
  | none ↦ bad_request
  | some text ↦ elim (parse_signed 2147483648 text) [
    | err ↦ bad_request
    | panic ↦ bad_request
    | ok id ↦ elim (find_application config.id_of id config.applications) [
      | none ↦ bad_request
      | some application ↦ elim application.boxart [
        | none ↦ bad_request
        | some path ↦ elim (image path) [ none ↦ bad_request | some bytes ↦ png bytes ]
      ]
    ]
  ]
]

abbrev pub paired_status : Bool → Option (List ℕ) → ClientManager → Bool
paired_status false id clients = false
paired_status true none clients = false
paired_status true (some id) clients = is_paired id clients

abbrev pub ip_text : Option IpAddr → List ℕ
ip_text none = []
ip_text (some (v4 text)) = text
ip_text (some (v6 text)) = text

abbrev pub current_game : Option SessionContext → ℤ
current_game none = pos 0
current_game (some context) = context.application_id

abbrev pub busy_state : Option SessionContext → List ℕ
busy_state none = codes "MOONSHINE_SERVER_FREE"
busy_state (some context) = codes "MOONSHINE_SERVER_BUSY"

abbrev pub or_empty : Option (List ℕ) → List ℕ
or_empty none = []
or_empty (some text) = text

-- `server_info`
unfoldable pub server_info :
    Config → Params → Option IpAddr → Option (List ℕ) → Bool → ClientManager → Manager → Response
server_info config params local_address mac_address https clients m =
    let context = get_session_context m in
    root (
      element (codes "hostname") (escape_xml config.name)
      ++ (element (codes "appversion") (codes "7.1.431.-1")
          ++ (element (codes "GfeVersion") (codes "3.23.0.74")
              ++ (element (codes "uniqueid") config.unique_id
                  ++ (element (codes "HttpsPort") (to_string config.port_https)
                      ++ (element (codes "ExternalPort") (to_string config.port)
                          ++ (element (codes "mac") (or_empty mac_address)
                              ++ (codes "<MaxLumaPixelsHEVC>1869449984</MaxLumaPixelsHEVC>"
                                  ++ (element (codes "LocalIP") (escape_xml (ip_text local_address))
                                      ++ (element (codes "ServerCodecModeSupport")
                                            (to_string config.supported_codecs)
                                          ++ (codes "<SupportedDisplayMode></SupportedDisplayMode>"
                                              ++ (element (codes "PairStatus") (
                                                    flag (
                                                      paired_status https
                                                        (get_param (codes "uniqueid") params)
                                                        clients))
                                                  ++ (element (codes "currentgame")
                                                        (int_to_string (current_game context))
                                                      ++ element (codes "state")
                                                          (busy_state context))))))))))))))

-- `is_ascii_hexdigit`
abbrev pub is_hex_digit : ℕ → Bool
is_hex_digit c =
    (leb b'0' c && leb c b'9') || (leb b'a' c && leb c b'f') || (leb b'A' c && leb c b'F')

-- `filter(is_ascii_hexdigit).take(n)`
unfoldable pub hex_digits : ℕ → List ℕ → List ℕ
hex_digits zero s = []
hex_digits (suc n) [] = []
hex_digits (suc n) (c ∷ s) =
    let taken = c ∷ hex_digits n s in
    let rest = hex_digits (suc n) s in if is_hex_digit c then taken else rest

abbrev or_default : List ℕ → List ℕ
or_default [] = codes "0123456789ABCDEF"
or_default (c ∷ s) = c ∷ s

-- The id that `pin` puts into its page
unfoldable pub pin_id : Option (List ℕ) → List ℕ
pin_id none = codes "0123456789ABCDEF"
pin_id (some id) = or_default (hex_digits 16 id)

-- `pin`
unfoldable pub pin : Config → Params → Response
pin config params = html (config.pin_page (pin_id (get_param (codes "uniqueid") params)))

-- `unpair`
unfoldable pub unpair : Response
unpair = xml (codes "<root status_code=\"200\"/>")
