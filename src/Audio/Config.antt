-- ===== src/Audio/Config.antt =====
-- moonshine-core/src/session/stream/audio/mod.rs: channels, the Opus layouts and what a client asks of
-- the audio stream.
use moonshine.Common.{ℕ, ◌==◌, Bool, true, false, List, [], ◌∷◌, if◌then◌else◌}

-- `AudioChannels`
pub data AudioChannels : Type 0 where
  stereo surround51 surround71 : AudioChannels

-- `AudioChannels as u8`
abbrev pub channel_count : AudioChannels → ℕ
channel_count stereo = 2
channel_count surround51 = 6
channel_count surround71 = 8

-- `AudioChannels::from`
unfoldable pub channels_from : ℕ → AudioChannels
channels_from value = if value == 6 then surround51 else if value == 8 then surround71 else stereo

-- `OpusStreamConfig`
pub record OpusStreamConfig : Type 0 where
  pub channels : AudioChannels
  pub streams : ℕ
  pub coupled_streams : ℕ
  pub mapping : List ℕ
  pub bitrate : ℕ

abbrev pub opus_stereo : OpusStreamConfig
opus_stereo = record {
  channels = stereo;
  streams = 1;
  coupled_streams = 1;
  mapping = 0 ∷ 1 ∷ 0 ∷ 0 ∷ 0 ∷ 0 ∷ 0 ∷ 0 ∷ [];
  bitrate = 96000;
}

abbrev pub opus_high_stereo : OpusStreamConfig
opus_high_stereo = record {
  channels = stereo;
  streams = 1;
  coupled_streams = 1;
  mapping = 0 ∷ 1 ∷ 0 ∷ 0 ∷ 0 ∷ 0 ∷ 0 ∷ 0 ∷ [];
  bitrate = 512000;
}

abbrev pub opus_surround51 : OpusStreamConfig
opus_surround51 = record {
  channels = surround51;
  streams = 4;
  coupled_streams = 2;
  mapping = 0 ∷ 1 ∷ 4 ∷ 5 ∷ 2 ∷ 3 ∷ 0 ∷ 0 ∷ [];
  bitrate = 256000;
}

abbrev pub opus_high_surround51 : OpusStreamConfig
opus_high_surround51 = record {
  channels = surround51;
  streams = 6;
  coupled_streams = 0;
  mapping = 0 ∷ 1 ∷ 2 ∷ 3 ∷ 4 ∷ 5 ∷ 0 ∷ 0 ∷ [];
  bitrate = 1536000;
}

abbrev pub opus_surround71 : OpusStreamConfig
opus_surround71 = record {
  channels = surround71;
  streams = 5;
  coupled_streams = 3;
  mapping = 0 ∷ 1 ∷ 4 ∷ 5 ∷ 6 ∷ 7 ∷ 2 ∷ 3 ∷ [];
  bitrate = 450000;
}

abbrev pub opus_high_surround71 : OpusStreamConfig
opus_high_surround71 = record {
  channels = surround71;
  streams = 8;
  coupled_streams = 0;
  mapping = 0 ∷ 1 ∷ 2 ∷ 3 ∷ 4 ∷ 5 ∷ 6 ∷ 7 ∷ [];
  bitrate = 2048000;
}

-- `ALL_AUDIO_CONFIGS`
abbrev pub all_audio_configs : List OpusStreamConfig
all_audio_configs =
    opus_stereo ∷ opus_high_stereo ∷ opus_surround51 ∷ opus_high_surround51 ∷ opus_surround71
    ∷ opus_high_surround71 ∷ []

-- `AudioConfig`
pub record AudioConfig : Type 0 where
  pub channels : AudioChannels
  pub channel_mask : ℕ
  pub high_quality : Bool
  pub stream_config : OpusStreamConfig

abbrev pub stream_config_of : AudioChannels → Bool → OpusStreamConfig
stream_config_of surround51 false = opus_surround51
stream_config_of surround51 true = opus_high_surround51
stream_config_of surround71 false = opus_surround71
stream_config_of surround71 true = opus_high_surround71
stream_config_of stereo false = opus_stereo
stream_config_of stereo true = opus_high_stereo

-- `AudioConfig::from_channels`
unfoldable pub from_channels : AudioChannels → ℕ → Bool → AudioConfig
from_channels channels channel_mask high_quality = record {
  channels = channels;
  channel_mask = channel_mask;
  high_quality = high_quality;
  stream_config = stream_config_of channels high_quality;
}

-- `AudioStreamContext`
pub record AudioStreamContext : Type 0 where
  pub packet_duration_ms : ℕ
  pub qos : Bool
  pub audio_config : AudioConfig
  pub encrypt_audio : Bool
