-- ===== src/Rtsp/Requests.antt =====
-- rtsp.rs: the requests of a connection and what they do to the session.
use moonshine.Common.{
  ℕ, ◌≡◌, refl, ap, ◌∙◌, ◌==◌, Bool, true, Option, none, some, List, [], ◌∷◌, if◌then◌else◌, arith,
}
use moonshine.Common.Results.{Result, ok, err, panic}
use moonshine.Common.Text.{same_text, codes}
use moonshine.Audio.Config.{AudioStreamContext}
use moonshine.Video.Context.{VideoStreamContext}
use moonshine.Session.Manager.{SessionContext, Manager, set_stream_context, get_session_context}
use moonshine.Session.Manager.Commands.{Command, start_session, run, set_context, start}
use moonshine.Session.Manager.Refine.{
  Phase, After, running, streaming, phase, next_phase, IsSound, run_phase, run-IsSound,
}
use moonshine.Rtsp.Announce.{Sdp, video_context, audio_context}

-- The status of a response. The body of DESCRIBE and the port of SETUP come with it.
pub data Response : Type 0 where
  done : Response
  described : List ℕ → Response
  server_port : ℕ → Response
  bad_request internal_server_error : Response

-- What the rtsp_types crate finds in a SETUP request: the transports, of which only the first counts,
-- and the first query pair of the URI.
pub data Transport : Type 0 where
  rtp other : Transport

-- The methods, with what the crates rtsp_types and sdp_types read from the request.
pub data Request : Type 0 where
  options describe play unsupported : Request
  setup : Result (Option (List Transport)) → Option (Option (List ℕ × List ℕ)) → Request
  announce : Option Sdp → Request

-- `RtspServer`'s configuration, with the text of `description`
pub record Config : Type 0 where
  pub encrypt : Bool
  pub video_port : ℕ
  pub audio_port : ℕ
  pub control_port : ℕ
  pub description : List ℕ

-- `split('/').next()`
unfoldable pub first_segment : List ℕ → List ℕ
first_segment [] = []
first_segment (c ∷ s) = let rest = first_segment s in if c == b'/' then [] else c ∷ rest

-- The port for the first segment of the query's value
unfoldable pub stream_port : Config → List ℕ → Response
stream_port config stream =
    if same_text stream (codes "video")
    then server_port config.video_port
    else if same_text stream (codes "audio")
    then server_port config.audio_port
    else if same_text stream (codes "control")
    then server_port config.control_port
    else bad_request

unfoldable pub setup_query : Config → Option (Option (List ℕ × List ℕ)) → Response
setup_query config none = bad_request
setup_query config (some none) = bad_request
setup_query config (some (some (key, value))) =
    if same_text key (codes "streamid")
    then stream_port config (first_segment value)
    else bad_request

-- `handle_setup_request`
unfoldable pub handle_setup_request :
    Config → Result (Option (List Transport)) → Option (Option (List ℕ × List ℕ)) → Response
handle_setup_request config (ok (some (other ∷ transports))) query = setup_query config query
handle_setup_request config transports query = bad_request

-- `handle_announce_request`: the audio context is only built if there is a video context.
unfoldable pub handle_announce_request : Config → Option Sdp → Manager → Manager × Response
handle_announce_request config none m = (m, bad_request)
handle_announce_request config (some sdp) m = elim (video_context config.encrypt sdp) [
  | err ↦ (m, bad_request)
  | panic ↦ (m, bad_request)
  | ok video ↦ elim (audio_context sdp (get_session_context m)) [
    | err ↦ (m, bad_request)
    | panic ↦ (m, bad_request)
    | ok audio ↦
        let (m', (answer, effects)) = set_stream_context video audio m in
        elim answer [
          | ok _ ↦ (m', done)
          | err ↦ (m', internal_server_error)
          | panic ↦ (m', internal_server_error)
        ]
  ]
]

-- `handle_play_request`; `success` tells whether the streams start.
unfoldable pub handle_play_request : Bool → Manager → Manager × Response
handle_play_request success m =
    let (m', (answer, effects)) = start_session success m in
    elim answer [
      | ok _ ↦ (m', done)
      | err ↦ (m', internal_server_error)
      | panic ↦ (m', internal_server_error)
    ]

-- The dispatch of `handle_connection`, behind its check that there is a session; a connection without
-- one gets no response.
unfoldable pub handle_request : Config → Bool → Request → Manager → Manager × Response
handle_request config success options m = (m, done)
handle_request config success describe m = (m, described config.description)
handle_request config success play m = handle_play_request success m
handle_request config success unsupported m = (m, bad_request)
handle_request config success (setup transports query) m =
    (m, handle_setup_request config transports query)
handle_request config success (announce sdp) m = handle_announce_request config sdp m

unfoldable pub handle_connection : Config → Bool → Request → Manager → Manager × Option Response
handle_connection config success request m = elim (get_session_context m) [
  | none ↦ (m, none)
  | some context ↦
      let (m', response) = handle_request config success request m in (m', some response)
]

-- A command's phase and answer, one by one.
moves :
    (m : Manager) (p q : Phase) (c : Command) (answer : Result (Unit {0}))
    → IsSound m
    → phase m ≡ p
    → (t : Bool) → ◌≡◌ {A = After} (next_phase c p m.stop_triggered) (q, (t, answer))
    → (phase (run c m).0 ≡ q) × ((run c m).1.0 ≡ answer)
moves m p q c answer sound at_phase t next =
    let both =
      run_phase c m sound ∙ ap (λ (x : Phase). next_phase c x m.stop_triggered) at_phase ∙ next in
    (ap (λ (x : After). x.0) both, ap (λ (x : After). x.1.1) both)

announced :
    (config : Config) (success : Bool) (sdp : Sdp) (m : Manager) (c : SessionContext)
    (video : VideoStreamContext) (audio : AudioStreamContext)
    (before : Option (VideoStreamContext × AudioStreamContext))
    → IsSound m
    → phase m ≡ running c before
    → video_context config.encrypt sdp ≡ ok video
    → audio_context sdp (get_session_context m) ≡ ok audio
    → handle_request config success (announce (some sdp)) m
      ≡ ((run (set_context video audio) m).0, done)
unfolding handle_request handle_announce_request run
announced config success sdp m c video audio before sound at_phase v a =
    let (_, answer) =
      moves m (running c before) (running c (some (video, audio))) (set_context video audio) (ok tt)
        sound at_phase m.stop_triggered (unfold next_phase in refl) in
    ground (arith, v, a, answer)

played :
    (config : Config) (m : Manager) (c : SessionContext)
    (contexts : VideoStreamContext × AudioStreamContext)
    → IsSound m
    → phase m ≡ running c (some contexts)
    → handle_request config true play m ≡ ((run (start true) m).0, done)
unfolding handle_request handle_play_request run
played config m c contexts sound at_phase =
    let (_, answer) =
      moves m (running c (some contexts)) (streaming c) (start true) (ok tt) sound at_phase
        m.stop_triggered (unfold next_phase in refl) in
    ground (arith, answer)

-- If a launched session gets an ANNOUNCE whose attributes give both contexts, and then a PLAY, and
-- the streams start, then both requests are answered with success and the session is streaming.
pub announce-play_streams :
    (config : Config) (success : Bool) (sdp : Sdp) (m : Manager) (c : SessionContext)
    (video : VideoStreamContext) (audio : AudioStreamContext)
    (before : Option (VideoStreamContext × AudioStreamContext))
    → IsSound m
    → phase m ≡ running c before
    → video_context config.encrypt sdp ≡ ok video
    → audio_context sdp (get_session_context m) ≡ ok audio
    → let (m', first) = handle_request config success (announce (some sdp)) m in
      let (m'', second) = handle_request config true play m' in
      (first ≡ done) × (second ≡ done) × (phase m'' ≡ streaming c)
announce-play_streams config success sdp m c video audio before sound at_phase v a =
    let sound' = run-IsSound (set_context video audio) m sound in
    let (at_phase', _) =
      moves m (running c before) (running c (some (video, audio))) (set_context video audio) (ok tt)
        sound at_phase m.stop_triggered (unfold next_phase in refl) in
    let (at_phase'', _) =
      moves (run (set_context video audio) m).0 (running c (some (video, audio))) (streaming c)
        (start true) (ok tt) sound' at_phase' (run (set_context video audio) m).0.stop_triggered
        (unfold next_phase in refl) in
    rw
      (
        announced config success sdp m c video audio before sound at_phase v a,
        played config (run (set_context video audio) m).0 c (video, audio) sound' at_phase',
      )
      (refl, refl, at_phase'')
