-- ===== src/Rtsp/Announce.antt =====
-- rtsp.rs, ANNOUNCE: the contexts of the streams from the attributes of an SDP session.
use Prim.Native.String.{String}
use moonshine.Common.{
  ℕ, ◌*◌, ◌%◌, ◌^◌, ◌<◌, ◌≡◌, ◌≢◌, refl, bit_and, ◌==◌, Bool, true, false, ◌&&◌, not, Option, none,
  some, List, inl, inr, if◌then◌else◌, arith,
}
use moonshine.Common.Results.{Result, ok, err, panic, ◌>>=◌, Result-cases, Ensures}
use moonshine.Common.Text.{same_text, codes, trim, parse, parse-lt}
use moonshine.Audio.Config.{
  AudioChannels, stereo, surround51, surround71, channels_from, from_channels, AudioStreamContext,
}
use moonshine.Video.Context.{
  sdr, yuv420, VideoStreamContext, format_try_from, range_try_from, chroma_try_from,
}
use moonshine.Session.Manager.{SessionContext}

-- What sdp_types' `get_first_attribute_value` gives for each name: an error, or a value if there is one.
abbrev pub Sdp : Type 0
Sdp = String → Result (Option (List ℕ))

-- `get_sdp_attribute`, before the value is parsed
unfoldable pub attribute : Sdp → String → Result (List ℕ)
attribute sdp name = sdp name >>= λ found. elim found [ none ↦ err | some value ↦ ok (trim value) ]

-- `get_sdp_attribute` of an unsigned integer below `limit`
unfoldable pub number : Sdp → ℕ → String → Result ℕ
number sdp limit name = attribute sdp name >>= λ value. parse limit value

abbrev pub unwrap_or {ℓ} : {A : Type ℓ} → Result A → A → A
unwrap_or (ok a) b = a
unwrap_or err b = b
unwrap_or panic b = b

-- `get_optional_sdp_attribute`, with what stands for a value that is missing or not a number
unfoldable pub number_or : Sdp → ℕ → String → ℕ → ℕ
number_or sdp limit name default = unwrap_or (number sdp limit name) default

-- a QoS type other than "0"
abbrev pub is_qos : List ℕ → Bool
is_qos value = not (same_text value (codes "0"))

-- `EncryptionFlags`
abbrev pub control_v2_flag : ℕ
control_v2_flag = 1

abbrev pub video_flag : ℕ
video_flag = 2

abbrev pub audio_flag : ℕ
audio_flag = 4

-- `u8`, `u32` and `usize`
abbrev pub u8_limit : ℕ
u8_limit = 2 ^ 8

abbrev pub u32_limit : ℕ
u32_limit = 2 ^ 32

abbrev pub usize_limit : ℕ
usize_limit = 2 ^ 64

unfoldable pub client_encryption_flags : Sdp → ℕ
client_encryption_flags sdp = number_or sdp u8_limit "x-ss-general.encryptionEnabled" 0

-- The video context of an announcement; `encrypt` is the configuration's.
unfoldable pub video_context : Bool → Sdp → Result VideoStreamContext
video_context encrypt sdp = do
  width ← number sdp u32_limit "x-nv-video[0].clientViewportWd"
  height ← number sdp u32_limit "x-nv-video[0].clientViewportHt"
  fps ← number sdp u32_limit "x-nv-video[0].maxFPS"
  packet_size ← number sdp usize_limit "x-nv-video[0].packetSize"
  bitrate ← number sdp usize_limit "x-ml-video.configuredBitrateKbps"
  minimum_fec_packets ← number sdp u32_limit "x-nv-vqos[0].fec.minRequiredFecPackets"
  video_qos_type ← attribute sdp "x-nv-vqos[0].qosTrafficType"
  format_value ← number sdp u32_limit "x-nv-vqos[0].bitStreamFormat"
  video_format ← format_try_from format_value
  ok (record {
    width = width;
    height = height;
    fps = fps;
    packet_size = packet_size;
    bitrate = bitrate * 1000 % usize_limit;
    minimum_fec_packets = minimum_fec_packets;
    qos = is_qos video_qos_type;
    video_format = video_format;
    dynamic_range =
        unwrap_or (range_try_from (number_or sdp u32_limit "x-nv-video[0].dynamicRangeMode" 0)) sdr;
    chroma_sampling_type =
        unwrap_or (chroma_try_from (number_or sdp u32_limit "x-ss-video[0].chromaSamplingType" 0))
          yuv420;
    max_reference_frames = number_or sdp u32_limit "x-nv-video[0].maxNumReferenceFrames" 1;
    full_range = not (bit_and (number_or sdp u32_limit "x-nv-video[0].encoderCscMode" 0) 1 == 0);
    encrypt_video = encrypt && not (bit_and (client_encryption_flags sdp) video_flag == 0);
  })

-- The channels: those of the announcement, or those of the launch.
unfoldable pub announced_channels : Sdp → Option SessionContext → AudioChannels × ℕ
announced_channels sdp context =
    let surround_channels = number_or sdp u8_limit "x-nv-audio.surround.numChannels" 2 in
    let surround_mask = number_or sdp u32_limit "x-nv-audio.surround.channelMask" 3 in
    let surround_enable = number_or sdp u8_limit "x-nv-audio.surround.enable" 0 in
    if surround_enable == 0
    then elim context [ none ↦ (stereo, 3) | some c ↦ (c.audio_channels, c.audio_channel_mask) ]
    else (channels_from surround_channels, surround_mask)

-- The audio context of an announcement; `context` is that of the session.
unfoldable pub audio_context : Sdp → Option SessionContext → Result AudioStreamContext
audio_context sdp context = do
  packet_duration ← number sdp u32_limit "x-nv-aqos.packetDuration"
  audio_qos_type ← attribute sdp "x-nv-aqos.qosTrafficType"
  ok (
      let (channels, channel_mask) = announced_channels sdp context in
      let audio_quality = number_or sdp u8_limit "x-nv-audio.surround.AudioQuality" 1 in
      record {
        packet_duration_ms = packet_duration;
        qos = is_qos audio_qos_type;
        audio_config = from_channels channels channel_mask (not (audio_quality == 0));
        encrypt_audio = not (bit_and (client_encryption_flags sdp) audio_flag == 0);
      })

number-lt :
    (sdp : Sdp) (limit : ℕ) (name : String) (n : ℕ)
    → 0 < limit
    → number sdp limit name ≡ ok n
    → n < limit
unfolding number
number-lt sdp limit name n h e = elim (Result-cases (attribute sdp name)) [
  | inl (value, a) ↦ parse-lt limit n value h (rw a at e)
  | inr failed ↦ absurd (ground (arith, failed))
]

-- The number is that of the attribute, and fits its type.
abbrev pub Reads : Sdp → ℕ → String → ℕ → Type 0
Reads sdp limit name n = (number sdp limit name ≡ ok n) × (n < limit)

-- The rest of a chain may use what was read.
number_then :
    {B : Type 0} (Q : B → Type 0) (sdp : Sdp) (limit : ℕ) (name : String) (f : ℕ → Result B)
    → 0 < limit
    → ((n : ℕ) → Reads sdp limit name n → Ensures Q (f n))
    → Ensures Q (number sdp limit name >>= f)
number_then Q sdp limit name f h rest = elim (Result-cases (number sdp limit name)) [
  | inl (n, e) ↦ rw e (rest n (e, number-lt sdp limit name n h e))
  | inr (inl e) ↦ rw e tt
  | inr (inr e) ↦ rw e tt
]

number_or-lt :
    (sdp : Sdp) (limit : ℕ) (name : String) (default : ℕ)
    → default < limit
    → number_or sdp limit name default < limit
unfolding number_or
number_or-lt sdp limit name default h = elim (Result-cases (number sdp limit name)) [
  | inl (n, e) ↦ rw e (number-lt sdp limit name n (omega arith) e)
  | inr (inl e) ↦ rw e h
  | inr (inr e) ↦ rw e h
]

any_then :
    {A B : Type 0} (Q : B → Type 0) (r : Result A) (f : A → Result B)
    → ((a : A) → Ensures Q (f a))
    → Ensures Q (r >>= f)
any_then Q (ok a) f rest = rest a
any_then Q err f rest = tt
any_then Q panic f rest = tt

-- The numbers are those of their attributes and fit their types, and the video is encrypted only where
-- the host allows it and the client asks for it.
abbrev pub IsVideo : Bool → Sdp → VideoStreamContext → Type 0
IsVideo encrypt sdp v =
    Reads sdp (2 ^ 32) "x-nv-video[0].clientViewportWd" v.width
    × Reads sdp (2 ^ 32) "x-nv-video[0].clientViewportHt" v.height
    × Reads sdp (2 ^ 32) "x-nv-video[0].maxFPS" v.fps
    × Reads sdp (2 ^ 64) "x-nv-video[0].packetSize" v.packet_size
    × ((kbps : ℕ) × (Reads sdp (2 ^ 64) "x-ml-video.configuredBitrateKbps" kbps
          × (v.bitrate ≡ kbps * 1000 % 2 ^ 64)))
    × Reads sdp (2 ^ 32) "x-nv-vqos[0].fec.minRequiredFecPackets" v.minimum_fec_packets
    × (v.max_reference_frames < 2 ^ 32)
    × (v.encrypt_video ≡ true → (encrypt ≡ true) × (bit_and (client_encryption_flags sdp) 2 ≢ 0))

video_context-Ensures :
    (encrypt : Bool) (sdp : Sdp) → Ensures (IsVideo encrypt sdp) (video_context encrypt sdp)
unfolding video_context
video_context-Ensures encrypt sdp =
    let Q = IsVideo encrypt sdp in
    let next = number_then Q sdp in
    let frames = number_or-lt sdp u32_limit "x-nv-video[0].maxNumReferenceFrames" 1 (omega arith) in
    next u32_limit "x-nv-video[0].clientViewportWd" _ (omega arith) (λ width w.
      next u32_limit "x-nv-video[0].clientViewportHt" _ (omega arith) (λ height h.
        next u32_limit "x-nv-video[0].maxFPS" _ (omega arith) (λ fps f.
          next usize_limit "x-nv-video[0].packetSize" _ (omega arith) (λ size s.
            next usize_limit "x-ml-video.configuredBitrateKbps" _ (omega arith) (λ bitrate b.
              next u32_limit "x-nv-vqos[0].fec.minRequiredFecPackets" _ (omega arith) (λ fec m.
                any_then Q (attribute sdp "x-nv-vqos[0].qosTrafficType") _ (λ qos.
                  next u32_limit "x-nv-vqos[0].bitStreamFormat" _ (omega arith) (λ value n.
                    any_then Q (format_try_from value) _ (λ format. (
                      w,
                      h,
                      f,
                      s,
                      (bitrate, (b, refl)),
                      m,
                      frames,
                      (λ e. (ground (arith, e), ground (arith, e))),
                    ))))))))))

-- The duration is that of its attribute and fits its type, and the Opus layout is one for the channels.
abbrev pub IsAudio : Sdp → AudioStreamContext → Type 0
IsAudio sdp a =
    Reads sdp (2 ^ 32) "x-nv-aqos.packetDuration" a.packet_duration_ms
    × (a.audio_config.stream_config.channels ≡ a.audio_config.channels)

layout_channels :
    (channels : AudioChannels) (mask : ℕ) (high : Bool)
    → (from_channels channels mask high).stream_config.channels
      ≡ (from_channels channels mask high).channels
unfolding from_channels
layout_channels stereo mask true = refl
layout_channels stereo mask false = refl
layout_channels surround51 mask true = refl
layout_channels surround51 mask false = refl
layout_channels surround71 mask true = refl
layout_channels surround71 mask false = refl

audio_context-Ensures :
    (sdp : Sdp) (context : Option SessionContext)
    → Ensures (IsAudio sdp) (audio_context sdp context)
unfolding audio_context
audio_context-Ensures sdp context =
    let (channels, mask) = announced_channels sdp context in
    number_then (IsAudio sdp) sdp u32_limit "x-nv-aqos.packetDuration" _ (omega arith)
      (λ duration d. any_then (IsAudio sdp) (attribute sdp "x-nv-aqos.qosTrafficType") _ (λ qos. (
        d,
        layout_channels channels mask
            (not (number_or sdp u8_limit "x-nv-audio.surround.AudioQuality" 1 == 0)),
      )))

-- Whatever an announcement holds, if it gives a video context, then its width, height, frame rate,
-- packet size and minimum of FEC packets are the numbers of their attributes and fit their types, the
-- bitrate is that of its attribute times 1000 modulo 2^64, the number of reference frames fits its
-- type, and the video is encrypted only where the host allows it and the client's flags ask for it. If
-- it gives an audio context, then its duration is that of its attribute and fits its type, and the
-- Opus layout is one for its channels.
pub contexts-IsValid :
    (encrypt : Bool) (sdp : Sdp) (context : Option SessionContext)
    → Ensures (IsVideo encrypt sdp) (video_context encrypt sdp)
      × Ensures (IsAudio sdp) (audio_context sdp context)
contexts-IsValid encrypt sdp context =
    (video_context-Ensures encrypt sdp, audio_context-Ensures sdp context)
