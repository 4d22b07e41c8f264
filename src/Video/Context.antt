-- ===== src/Video/Context.antt =====
-- moonshine-core/src/session/stream/video/mod.rs: what a client asks of the video stream.
use moonshine.Common.{ℕ, ◌==◌, Bool, if◌then◌else◌}
use moonshine.Common.Results.{Result, ok, err}

-- `VideoFormat`
pub data VideoFormat : Type 0 where
  h264 hevc av1 : VideoFormat

-- `VideoDynamicRange`
pub data VideoDynamicRange : Type 0 where
  sdr hdr : VideoDynamicRange

-- `VideoChromaSampling`
pub data VideoChromaSampling : Type 0 where
  yuv420 yuv444 : VideoChromaSampling

-- `try_from` of the three
unfoldable pub format_try_from : ℕ → Result VideoFormat
format_try_from value =
    if value == 0
    then ok h264
    else if value == 1
    then ok hevc
    else if value == 2
    then ok av1
    else err

unfoldable pub range_try_from : ℕ → Result VideoDynamicRange
range_try_from value = if value == 0 then ok sdr else if value == 1 then ok hdr else err

unfoldable pub chroma_try_from : ℕ → Result VideoChromaSampling
chroma_try_from value = if value == 0 then ok yuv420 else if value == 1 then ok yuv444 else err

-- `VideoStreamContext`
pub record VideoStreamContext : Type 0 where
  pub width : ℕ
  pub height : ℕ
  pub fps : ℕ
  pub packet_size : ℕ
  pub bitrate : ℕ
  pub minimum_fec_packets : ℕ
  pub qos : Bool
  pub video_format : VideoFormat
  pub dynamic_range : VideoDynamicRange
  pub chroma_sampling_type : VideoChromaSampling
  pub max_reference_frames : ℕ
  pub full_range : Bool
  pub encrypt_video : Bool
