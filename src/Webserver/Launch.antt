-- ===== src/Webserver/Launch.antt =====
-- moonshine-core/src/webserver/mod.rs: `launch`, `resume` and `cancel`, and what they do to the session.
pub mod Mode
pub mod Phases
use moonshine.Common.{
  ℕ, ◌%◌, ◌/◌, ◌^◌, bit_and, ◌++◌, ◌==◌, Bool, true, false, not, Option, none, some, List, [], ◌∷◌,
  if◌then◌else◌,
}
use moonshine.Common.Int.{ℤ, ==_ℤ}
use moonshine.Common.Text.{codes, parse, parse_signed, split, to_string}
use moonshine.Common.Results.{Result, ok, err, panic, ◌>>=◌, ok_or}
use moonshine.Audio.Config.{channels_from}
use moonshine.Video.Packetizer.State.{SessionKeyData}
use moonshine.Session.Manager.{
  ApplicationConfig, SessionContext, keys, Creation, Manager, Answer, initialize_session,
  stop_session, update_keys,
}
use moonshine.Session.Manager.Commands.{launch_session, launch_given_up}
use moonshine.Webserver.Query.{
  Codecs, Params, get_param, Response, bad_request, xml_error, root, element,
}

-- An address, with the text that the standard library prints for it
pub data IpAddr : Type 0 where
  v4 v6 : List ℕ → IpAddr

-- The fields of `Webserver` that the handlers read, without the managers and the shutdown.
pub record Config : Type 0 where
  pub name : List ℕ
  pub rtsp_port : ℕ
  pub port : ℕ
  pub port_https : ℕ
  pub enable_pairing : Bool
  pub applications : List ApplicationConfig
  pub unique_id : List ℕ
  pub supported_codecs : ℕ
  pub hdr_supported : Bool
  -- `ApplicationConfig::id`, the standard library's hash of a title as an i32
  pub id_of : List ℕ → ℤ
  -- assets/pin.html, around the client's id
  pub pin_page : List ℕ → List ℕ

-- How the launch of a session ends before the handler's timeout, or that it does not.
pub data Outcome : Type 0 where
  launches fails times_out : Outcome

-- What the session manager meets: whether a session can be created, how its launch ends, and whether
-- a stop ends in time.
pub record Host : Type 0 where
  pub created : Creation
  pub outcome : Outcome
  pub completes : Bool

-- `applications.iter().find`
unfoldable pub find_application :
    (List ℕ → ℤ) → ℤ → List ApplicationConfig → Option ApplicationConfig
find_application id_of id [] = none
find_application id_of id (a ∷ rest) =
    let later = find_application id_of id rest in if ==_ℤ (id_of a.title) id then some a else later

-- `mode`, cut at each x
unfoldable pub read_mode : List (List ℕ) → Result ((ℕ × ℕ) × ℕ)
read_mode (w ∷ h ∷ r ∷ []) = do
  width ← parse (2 ^ 32) w
  height ← parse (2 ^ 32) h
  refresh_rate ← parse (2 ^ 32) r
  ok ((width, height), refresh_rate)
read_mode parts = err

-- `and_then(|s| s.parse().ok()).unwrap_or(default)`
unfoldable pub parsed_or : ℕ → Option (List ℕ) → ℕ
parsed_or default none = default
parsed_or default (some text) = elim (parse (2 ^ 32) text) [
  | ok n ↦ n
  | err ↦ default
  | panic ↦ default
]

-- `rtsp_host`
unfoldable pub rtsp_host : IpAddr → List ℕ
rtsp_host (v4 text) = text
rtsp_host (v6 text) = codes "[" ++ (text ++ codes "]")

unfoldable pub session_url : ℕ → Option IpAddr → List ℕ
session_url port none = []
session_url port (some address) =
    element (codes "sessionUrl0")
      (codes "rtsp://" ++ (rtsp_host address ++ (codes ":" ++ to_string port)))

-- What `launch` does with a session that was initialized, and whether that is a success. A launch
-- that takes too long is dropped after it took the session out, and the session with it; both
-- failures stop the session that is left.
unfoldable pub after_launch : Bool → Answer → Manager × Bool
after_launch completes (m, (ok _, _)) = (m, true)
after_launch completes (m, (err, _)) = ((stop_session completes m).0, false)
after_launch completes (m, (panic, _)) = ((stop_session completes m).0, false)

unfoldable pub launch_in_time : Outcome → Bool → Manager → Manager × Bool
launch_in_time launches completes m = after_launch completes (launch_session true m)
launch_in_time fails completes m = after_launch completes (launch_session false m)
launch_in_time times_out completes m = ((stop_session completes (launch_given_up m)).0, false)

module _ (codecs : Codecs) (config : Config) where
  open codecs use {hex_decode}

  -- The key of the session, which `launch` and `resume` read
  unfoldable pub read_keys : Params → Result SessionKeyData
  read_keys params = do
    text ← ok_or (get_param (codes "rikey") params)
    key ← ok_or (hex_decode text)
    id_text ← ok_or (get_param (codes "rikeyid") params)
    id ← parse_signed (2 ^ 63) id_text
    ok (record { remote_input_key = key; remote_input_key_id = id })

  -- The context that `launch` reads; every error is an answer with the status 400.
  unfoldable pub read_launch : Params → Result (SessionContext × SessionKeyData)
  read_launch params = do
    id_text ← ok_or (get_param (codes "appid") params)
    id ← parse_signed (2 ^ 31) id_text
    mode ← ok_or (get_param (codes "mode") params)
    resolution_and_rate ← read_mode (split b'x' mode)
    session_keys ← read_keys params
    application ← ok_or (find_application config.id_of id config.applications)
    ok (
      record {
        application = application;
        application_id = id;
        resolution = resolution_and_rate.0;
        refresh_rate = resolution_and_rate.1;
        audio_channels = channels_from (
            bit_and (parsed_or 196610 (get_param (codes "surroundAudioInfo") params)) 0xffff
            % 2 ^ 8);
        audio_channel_mask =
            parsed_or 196610 (get_param (codes "surroundAudioInfo") params) / 2 ^ 16;
        hdr = not (parsed_or 0 (get_param (codes "hdrMode") params) == 0);
      },
      session_keys,
    )

  abbrev pub launch_answer : Option IpAddr → Response
  launch_answer local_address =
      root (element (codes "gamesession") (codes "1") ++ session_url config.rtsp_port local_address)

  -- `launch`
  unfoldable pub launch : Params → Option IpAddr → Host → Manager → Manager × Response
  launch params local_address host m = elim (read_launch params) [
    | err ↦ (m, xml_error 400)
    | panic ↦ (m, xml_error 400)
    | ok (context, session_keys) ↦
        let (m', (answer, _)) = initialize_session context (keys session_keys) host.created m in
        elim answer [
          | err ↦ (m', xml_error 400)
          | panic ↦ (m', xml_error 400)
          | ok _ ↦
              let (m'', success) = launch_in_time host.outcome host.completes m' in
              (m'', if success then launch_answer local_address else xml_error 503)
        ]
  ]

  -- `resume`
  unfoldable pub resume : Params → Option IpAddr → Manager → Manager × Response
  resume params local_address m = elim (read_keys params) [
    | err ↦ (m, xml_error 400)
    | panic ↦ (m, xml_error 400)
    | ok session_keys ↦
        let (m', (answer, _)) = update_keys session_keys m in
        elim answer [
          | err ↦ (m', xml_error 400)
          | panic ↦ (m', xml_error 400)
          | ok _ ↦ (
            m',
            root (
                session_url config.rtsp_port local_address ++ element (codes "resume") (codes "1")),
          )
        ]
  ]

-- `cancel`
unfoldable pub cancel : Host → Manager → Manager × Response
cancel host m =
    let (m', (answer, _)) = stop_session host.completes m in
    elim answer [
      | ok _ ↦ (m', root (element (codes "cancel") (codes "1")))
      | err ↦ (m', bad_request)
      | panic ↦ (m', bad_request)
    ]
