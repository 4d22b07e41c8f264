-- ===== src/Tests/Webserver.antt =====
-- The theorems of the web server at concrete inputs.
use moonshine.Common.{◌≡◌, ◌⊎◌, refl, true, false, none, some, List, [], ◌∷◌, ◌++◌, take, replicate}
use moonshine.Common.Results.{ok}
use moonshine.Common.Int.{pos, ==_ℤ}
use moonshine.Common.Text.{
  codes, split, parse, parse_signed, parse_digits, parse_nonempty, trim, trim_start,
}
use moonshine.Audio.Config.{channels_from}
use moonshine.Video.Context.{format_try_from, range_try_from, chroma_try_from}
use moonshine.Session.Manager.{
  new, initialize_session, launch_finish, launch_take, made, watchdog_reset, spawn_session_watchdog,
}
use moonshine.Session.Manager.Refine.{streaming, running, phase}
use moonshine.Rtsp.Announce.{
  video_context, audio_context, number, attribute, number_or, client_encryption_flags,
  announced_channels,
}
use moonshine.Rtsp.Requests.{announce, play, done, handle_request}
use moonshine.Webserver.Query.{Params, get_param}
use moonshine.Webserver.Launch.{
  Config, v4, launches, Host, launch, launch_answer, after_launch, launch_in_time, read_launch,
  read_keys, read_mode, parsed_or, find_application,
}
use moonshine.Webserver.Launch.Phases.{
  Launched, watched_phase, launch-requested_phase, launch-announce-play,
}
use moonshine.Clients.{
  is_cert_paired, check_client_pairing_secret, find, server_challenge_response, client_challenge,
  register_pin, add_client, add_paired_cert, aes_decrypt_ecb, aes_encrypt_ecb, ecb, ecb_blocks,
  hashed, insert, persist_cert, start_pairing, verify_pairing_secret,
}
use moonshine.Webserver.Pairing.{
  handle_pair_request, client_pairing_secret, pair_server_challenge_response, pair_client_challenge,
  submit_pin, get_server_cert,
}
use moonshine.Session.Manager.Commands.{launch_session}
use moonshine.Webserver.Serve.{
  get, post, Request, Outside, Managers, serve, serve_all, handle, https_route, http_route,
  verify_paired_client,
}
use moonshine.Webserver.Serve.History.{OneTrusted, serve_all-OneTrusted}
use moonshine.Tests.Clients.{toy, nobody, plain, around}
use moonshine.Tests.Session.{ones, ones_video, ones_audio, host, first_keys, desktop}

abbrev server : Config
server = record {
  name = codes "host";
  rtsp_port = 48010;
  port = 47989;
  port_https = 47984;
  enable_pairing = true;
  applications = desktop.application ∷ [];
  unique_id = codes "1";
  supported_codecs = 1;
  hdr_supported = false;
  id_of = λ title. pos 1;
  pin_page = λ id. id;
}

abbrev wanted : Params
wanted =
    (codes "appid", codes "1")
    ∷ (codes "mode", codes "1920x1080x60")
    ∷ (codes "rikey", replicate 16 1)
    ∷ (codes "rikeyid", codes "7")
    ∷ (codes "surroundAudioInfo", codes "196610")
    ∷ []

abbrev ready : Host
ready = record { created = made; outcome = launches; completes = true }

read_wanted : read_launch plain server wanted ≡ ok (desktop, first_keys)
unfolding read_launch read_keys read_mode get_param split parse parse_signed parse_digits
    parse_nonempty parsed_or find_application channels_from ==_ℤ
read_wanted = refl

launch-requested_phase_example :
    let (m', response) = launch plain server wanted none ready new in
    (◌≡◌ {A = Launched}
      (phase m', (m'.stop_triggered, response))
      (running desktop none, (false, launch_answer plain server none)))
    × (phase (watchdog_reset m') ≡ watched_phase (phase m') m'.stop_triggered)
unfolding phase new
launch-requested_phase_example =
    launch-requested_phase plain server wanted none ready new desktop first_keys
      (record { keyed = tt; announced = tt; owned = tt; watched = tt; ended = tt }) read_wanted

launch-announce-play_example :
    let (m1, first) = launch plain server wanted (some (v4 (codes "10.0.0.1"))) ready new in
    let (m2, second) = handle_request host true (announce (some ones)) m1 in
    let (m3, third) = handle_request host true play m2 in
    (first ≡ launch_answer plain server (some (v4 (codes "10.0.0.1"))))
    × (second ≡ done)
    × (third ≡ done)
    × (phase m3 ≡ streaming desktop)
unfolding new video_context audio_context number attribute number_or client_encryption_flags
    announced_channels trim trim_start parse parse_digits parse_nonempty format_try_from
    range_try_from chroma_try_from channels_from phase
launch-announce-play_example =
    launch-announce-play plain server wanted (some (v4 (codes "10.0.0.1"))) host true true ones new
      desktop first_keys ones_video ones_audio
      (record { keyed = tt; announced = tt; owned = tt; watched = tt; ended = tt }) refl read_wanted
      refl refl

-- A pairing, and then a launch with the certificate that it proved.
abbrev by_http : Params → Request
by_http params = record {
  https = false;
  method = get;
  path = codes "/pair";
  params = (codes "uniqueid", 7 ∷ []) ∷ params;
  form = none;
  peer_cert_fingerprint = none;
  local_address = none;
  mac_address = none;
}

abbrev outside : Outside
outside = record { pairing = around; host = ready; image = λ path. none }

abbrev history : List (Request × Outside)
history =
    (
      by_http (
          (codes "phrase", codes "getservercert")
          ∷ (codes "clientcert", 8 ∷ [])
          ∷ (codes "salt", replicate 16 4)
          ∷ []),
      outside,
    )
    ∷ (
      record (by_http []) {
        method = post;
        path = codes "/submit-pin";
        form = some ((codes "uniqueid", 7 ∷ []) ∷ (codes "pin", 1 ∷ 2 ∷ 3 ∷ 4 ∷ []) ∷ []);
      },
      outside,
    )
    ∷ (by_http ((codes "clientchallenge", replicate 16 5) ∷ []), outside)
    ∷ (
      by_http (
          (codes "serverchallengeresp", take 32 (replicate 16 2 ++ (9 ∷ 8 ∷ []) ++ replicate 16 6))
          ∷ []),
      outside,
    )
    ∷ (by_http ((codes "clientpairingsecret", replicate 16 6 ++ 1 ∷ []) ∷ []), outside)
    ∷ (
      record (by_http wanted) {
        https = true;
        path = codes "/launch";
        peer_cert_fingerprint = some (8 ∷ []);
      },
      outside,
    )
    ∷ []

abbrev untouched : Managers
untouched = record { clients = nobody; sessions = new }

serve_all-OneTrusted_example :
    ((serve_all toy plain server history untouched).sessions ≡ new)
    ⊎ OneTrusted toy plain server history untouched
serve_all-OneTrusted_example = serve_all-OneTrusted toy plain server history untouched tt

-- The history gets the application running.
history_runs : phase (serve_all toy plain server history untouched).sessions ≡ running desktop none
unfolding serve_all phase new serve handle https_route http_route verify_paired_client
    is_cert_paired handle_pair_request get_param client_pairing_secret check_client_pairing_secret
    find pair_server_challenge_response server_challenge_response pair_client_challenge
    client_challenge submit_pin register_pin channels_from add_client add_paired_cert
    aes_decrypt_ecb aes_encrypt_ecb ecb ecb_blocks hashed insert persist_cert start_pairing
    verify_pairing_secret ==_ℤ parse parse_digits parse_nonempty parse_signed split launch_session
    initialize_session launch_finish launch_take spawn_session_watchdog after_launch
    find_application launch launch_in_time parsed_or read_keys read_launch read_mode get_server_cert
history_runs = refl
