-- ===== src/Webserver/Launch/Phases.antt =====
-- webserver/mod.rs, `launch`, `resume` and `cancel`: the phases of the session, with every answer.
use moonshine.Common.{◌≡◌, ap, ◌∙◌, Bool, true, false, Option, none, some, arith, if◌then◌else◌}
use moonshine.Common.Results.{ok}
use moonshine.Video.Packetizer.State.{SessionKeyData}
use moonshine.Session.Manager.{
  SessionContext, Manager, initialize_session, launch_take, launch_finish, stop_session,
  spawn_session_watchdog, reset_session, get_session_context, made, failed, drop_session,
  watchdog_reset,
}
use moonshine.Session.Manager.Commands.{launch_session, launch_given_up}
use moonshine.Session.Manager.Refine.{Phase, idle, ending, running, streaming, phase, IsSound}
use moonshine.Audio.Config.{AudioStreamContext}
use moonshine.Video.Context.{VideoStreamContext}
use moonshine.Rtsp.Announce.{Sdp, video_context, audio_context}
use moonshine.Rtsp.Requests.{
  Config as RtspConfig, announce, play, done, handle_request, announce-play_streams,
}
use moonshine.Webserver.Query.{Codecs, Params, Response, xml_error}
use moonshine.Webserver.Launch.{
  IpAddr, Config, Outcome, launches, fails, times_out, Host, after_launch, launch_in_time,
  read_launch, launch_answer, launch,
}

-- The phase that a launch leaves, whether the shutdown is triggered then, and the answer.
abbrev pub Launched : Type 0
Launched = Phase × (Bool × Response)

-- A launch that was accepted runs the application, fails, or drops the session when it is given up.
abbrev pub launched_phase : Outcome → SessionContext → Bool → Response → Launched
launched_phase launches c t success = (running c none, (t, success))
launched_phase fails c t success = (idle, (false, xml_error 503))
launched_phase times_out c t success = (ending, (true, xml_error 503))

-- Only an idle host accepts a launch.
abbrev pub requested_phase : Host → SessionContext → Response → Phase → Bool → Launched
requested_phase host c success idle t = elim host.created [
  | made ↦ launched_phase host.outcome c t success
  | failed drops ↦ (idle, (if drops then true else t, xml_error 400))
]
requested_phase host c success p t = (p, (t, xml_error 400))

-- The phase once the watchdog had its turn.
abbrev pub watched_phase : Phase → Bool → Phase
watched_phase p true = idle
watched_phase p false = p

watchdog-watched_phase :
    (m : Manager) → IsSound m → phase (watchdog_reset m) ≡ watched_phase (phase m) m.stop_triggered
unfolding phase watchdog_reset reset_session
watchdog-watched_phase m h = ground arith

phase-running :
    (m : Manager) (c : SessionContext)
    (announced : Option (VideoStreamContext × AudioStreamContext))
    → phase m ≡ running c announced
    → get_session_context m ≡ some c
unfolding phase get_session_context
phase-running m c announced e = ground arith

module _ (codecs : Codecs) (config : Config) where
  launch-IsSound :
      (params : Params) (address : Option IpAddr) (host : Host) (m : Manager)
      → IsSound m
      → (c : SessionContext) (k : SessionKeyData) → read_launch codecs config params ≡ ok (c, k)
      → IsSound (launch codecs config params address host m).0
  unfolding launch launch_in_time after_launch initialize_session launch_session launch_take
      launch_given_up drop_session launch_finish stop_session spawn_session_watchdog reset_session
  launch-IsSound params address host m h c k e = ground (arith, e)

  launch_phase :
      (params : Params) (address : Option IpAddr) (host : Host) (m : Manager) (c : SessionContext)
      (k : SessionKeyData)
      → IsSound m
      → read_launch codecs config params ≡ ok (c, k)
      → let (m', response) = launch codecs config params address host m in
        ◌≡◌ {A = Launched}
          (phase m', (m'.stop_triggered, response))
          (requested_phase host c (launch_answer codecs config address) (phase m) m.stop_triggered)
  unfolding launch launch_in_time after_launch initialize_session launch_session launch_take
      launch_given_up drop_session launch_finish stop_session spawn_session_watchdog reset_session
      phase
  launch_phase params address host m c k h e = ground (arith, e)

  -- A launch that is read gets an application running on an idle host that can create a session, if
  -- the launch ends well and in time. If it fails, the host is idle again; if it takes too long, the
  -- session is dropped, which triggers the shutdown, and its keys stay; both are answered with the
  -- status 503. A host that is not idle, or that cannot create the session, keeps its phase and
  -- answers with 400. The watchdog's next turn then leaves the host idle where the shutdown is
  -- triggered, as after a launch that took too long, and in its phase otherwise.
  pub launch-requested_phase :
      (params : Params) (address : Option IpAddr) (host : Host) (m : Manager) (c : SessionContext)
      (k : SessionKeyData)
      → IsSound m
      → read_launch codecs config params ≡ ok (c, k)
      → let (m', response) = launch codecs config params address host m in
        (◌≡◌ {A = Launched}
          (phase m', (m'.stop_triggered, response))
          (requested_phase host c (launch_answer codecs config address) (phase m) m.stop_triggered))
        × (phase (watchdog_reset m') ≡ watched_phase (phase m') m'.stop_triggered)
  launch-requested_phase params address host m c k h e =
      let m' = (launch codecs config params address host m).0 in
      (
        launch_phase params address host m c k h e,
        watchdog-watched_phase m' (launch-IsSound params address host m h c k e),
      )

  -- From the launch to the stream: on an idle host, a launch that is read and ends well, then an
  -- ANNOUNCE whose attributes give both contexts for that session, then a PLAY whose streams start,
  -- are each answered with success, and the session streams what was launched.
  pub launch-announce-play :
      (params : Params) (address : Option IpAddr) (rtsp : RtspConfig) (completes success : Bool)
      (sdp : Sdp) (m : Manager) (c : SessionContext) (k : SessionKeyData)
      (video : VideoStreamContext) (audio : AudioStreamContext)
      → IsSound m
      → phase m ≡ idle
      → read_launch codecs config params ≡ ok (c, k)
      → video_context rtsp.encrypt sdp ≡ ok video
      → audio_context sdp (some c) ≡ ok audio
      → let host : Host = record { created = made; outcome = launches; completes = completes } in
        let (m1, first) = launch codecs config params address host m in
        let (m2, second) = handle_request rtsp success (announce (some sdp)) m1 in
        let (m3, third) = handle_request rtsp true play m2 in
        (first ≡ launch_answer codecs config address)
        × (second ≡ done)
        × (third ≡ done)
        × (phase m3 ≡ streaming c)
  launch-announce-play params address rtsp completes success sdp m c k video audio h at_idle e v a =
      let host : Host = record { created = made; outcome = launches; completes = completes } in
      let m1 = (launch codecs config params address host m).0 in
      let both =
        launch_phase params address host m c k h e
        ∙ ap
            (λ (p : Phase).
              requested_phase host c (launch_answer codecs config address) p m.stop_triggered)
            at_idle in
      let at_running : phase m1 ≡ running c none = ap (λ (x : Launched). x.0) both in
      let heard : audio_context sdp (get_session_context m1) ≡ ok audio =
        rw (phase-running m1 c none at_running) a in
      let (second, third, streams) =
        announce-play_streams rtsp success sdp m1 c video audio none
          (launch-IsSound params address host m h c k e) at_running v heard in
      (ap (λ (x : Launched). x.1.1) both, second, third, streams)
