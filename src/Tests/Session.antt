-- ===== src/Tests/Session.antt =====
-- The theorems of the session manager and of RTSP at concrete inputs.
use moonshine.Common.{◌≡◌, true, false, none, some, List, [], ◌∷◌, replicate}
use moonshine.Common.Results.{ok, err, Ensures}
use moonshine.Common.Int.{pos}
use moonshine.Common.Text.{codes}
use moonshine.Audio.Config.{AudioStreamContext, stereo, from_channels}
use moonshine.Video.Context.{VideoStreamContext, hevc, sdr, hdr, yuv420, yuv444}
use moonshine.Video.Packetizer.State.{SessionKeyData}
use moonshine.Session.Manager.{SessionContext, keys, made, new}
use moonshine.Session.Manager.Commands.{
  Command, initialize, launch, set_context, start, stop, update, watchdog,
}
use moonshine.Session.Manager.Refine.{
  AfterAll, next_phase, idle, phase, phases, run_all, run_all-refines,
}
use moonshine.Rtsp.Announce.{Sdp, video_context, audio_context, IsVideo, IsAudio, contexts-IsValid}
use moonshine.Rtsp.Requests.{Config}

abbrev pub desktop : SessionContext
desktop = record {
  application = record {
    title = codes "Desktop";
    boxart = none;
    command = codes "true" ∷ [];
    pre_command = [];
    post_command = [];
    stdout = none;
    stderr = none;
    launch_timeout_secs = 30;
  };
  application_id = pos 1;
  resolution = (1920, 1080);
  refresh_rate = 60;
  audio_channels = stereo;
  audio_channel_mask = 3;
  hdr = false;
}

abbrev pub first_keys : SessionKeyData
first_keys = record { remote_input_key = replicate 16 1; remote_input_key_id = pos 7 }

abbrev some_video : VideoStreamContext
some_video = record {
  width = 1920;
  height = 1080;
  fps = 60;
  packet_size = 1024;
  bitrate = 20000000;
  minimum_fec_packets = 2;
  qos = true;
  video_format = hevc;
  dynamic_range = sdr;
  chroma_sampling_type = yuv420;
  max_reference_frames = 1;
  full_range = false;
  encrypt_video = true;
}

abbrev some_audio : AudioStreamContext
some_audio = record {
  packet_duration_ms = 5;
  qos = true;
  audio_config = from_channels stereo 3 true;
  encrypt_audio = true;
}

-- A PLAY without contexts drops the session, the keys stop a new one until the watchdog had its turn,
-- and then a session lives to its end.
abbrev life : List Command
life =
    initialize desktop (keys first_keys) made
    ∷ start true
    ∷ launch true
    ∷ start true
    ∷ stop true
    ∷ initialize desktop (keys first_keys) made
    ∷ watchdog
    ∷ initialize desktop (keys first_keys) made
    ∷ launch true
    ∷ set_context some_video some_audio
    ∷ start true
    ∷ update first_keys
    ∷ stop true
    ∷ []

run_all-refines_example :
    ◌≡◌ {A = AfterAll}
      (phase (run_all life new).0, ((run_all life new).0.stop_triggered, (run_all life new).1))
      (
        idle,
        (
          false,
          ok tt
              ∷ err
              ∷ ok tt
              ∷ err
              ∷ ok tt
              ∷ err
              ∷ ok tt
              ∷ ok tt
              ∷ ok tt
              ∷ ok tt
              ∷ ok tt
              ∷ ok tt
              ∷ ok tt
              ∷ [],
        ),
      )
unfolding phases next_phase
run_all-refines_example = run_all-refines life

-- Every attribute is there, and is 1.
abbrev pub ones : Sdp
ones = λ name. ok (some (codes " 1 "))

contexts-IsValid_example :
    Ensures (IsVideo true ones) (video_context true ones)
    × Ensures (IsAudio ones) (audio_context ones none)
contexts-IsValid_example = contexts-IsValid true ones none

abbrev pub host : Config
host = record {
  encrypt = true;
  video_port = 47998;
  audio_port = 48000;
  control_port = 47999;
  description = [];
}

abbrev pub ones_video : VideoStreamContext
ones_video = record {
  width = 1;
  height = 1;
  fps = 1;
  packet_size = 1;
  bitrate = 1000;
  minimum_fec_packets = 1;
  qos = true;
  video_format = hevc;
  dynamic_range = hdr;
  chroma_sampling_type = yuv444;
  max_reference_frames = 1;
  full_range = true;
  encrypt_video = false;
}

abbrev pub ones_audio : AudioStreamContext
ones_audio = record {
  packet_duration_ms = 1;
  qos = true;
  audio_config = from_channels stereo 1 true;
  encrypt_audio = false;
}
