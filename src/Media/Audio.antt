-- ===== src/Media/Audio.antt =====
-- SvcKit/subsystems/media/src/codec/g711_audio_codec.cpp: the audio encoder and decoder. A buffer is its bytes, a
-- null buffer `none`; memory that runs out is an argument.
use dark_os_svc_kit.Common.{
  ℕ, zero, suc, ◌+◌, ◌-◌, ◌*◌, ◌/◌, ◌%◌, Bool, true, false, not, ◌&&◌, ◌||◌, Option, none, some,
  is_none, List, [], ◌∷◌, map, length, ltb, ◌==◌, if◌then◌else◌, Reply, Rc, ok, err, einval, enomem,
  epipe, ealready, eoverflow,
}
use dark_os_svc_kit.Common.Words.{u32, u32_mod}
use dark_os_svc_kit.Common.Int.{ℤ, pos, negsuc}
use dark_os_svc_kit.Media.G711.{linear_to_ulaw, ulaw_to_linear, linear_to_alaw, alaw_to_linear}
pub mod Laws
pub mod Tests

-- AudioCodec
pub data Codec : Type 0 where
  pcm g711a g711u aac opus : Codec

abbrev pub same_codec : Codec → Codec → Bool
same_codec pcm pcm = true
same_codec g711a g711a = true
same_codec g711u g711u = true
same_codec aac aac = true
same_codec opus opus = true
same_codec c d = false

-- AudioFrame; sample format 0 is PcmS16Le, the only one.
pub record Frame : Type 0 where
  pub buffer : Option (List ℕ)
  pub timestamp_ns : ℕ
  pub sample_rate : ℕ
  pub channel_count : ℕ
  pub frame_count : ℕ
  pub sample_format : ℕ

-- AudioPacket
pub record Packet : Type 0 where
  pub buffer : Option (List ℕ)
  pub timestamp_ns : ℕ
  pub codec : Codec
  pub sample_rate : ℕ
  pub channel_count : ℕ

-- What an encoder or a decoder is made for: AudioCaptureConfig.
pub record Format : Type 0 where
  pub sample_rate : ℕ
  pub channel_count : ℕ
  pub sample_format : ℕ

-- The members of G711AudioEncoder, and of G711AudioDecoder.
pub record Coder : Type 0 where
  pub codec : Codec
  pub format : Format
  pub running : Bool

pub start : Coder → Coder × Rc
start c = if c.running then (c, err ealready) else (record c { running = true }, ok tt)

pub stop : Coder → Coder × Rc
stop c = (record c { running = false }, ok tt)

-- The 16-bit sample of two bytes, the low one first.
pub sample_of : ℕ → ℕ → ℤ
sample_of low high = let n = low + high * 256 in if ltb n 32768 then pos n else negsuc (65535 - n)

pub bytes_of : ℤ → ℕ × ℕ
bytes_of (pos n) = (n % 256, n / 256 % 256)
bytes_of (negsuc n) = ((65535 - n) % 256, (65535 - n) / 256 % 256)

-- The loop of encode over the samples.
pub encode_bytes : (ℤ → ℕ) → List ℕ → List ℕ
unfolding sample_of
encode_bytes code [] = []
encode_bytes code (low ∷ []) = []
encode_bytes code (low ∷ high ∷ bs) = code (sample_of low high) ∷ encode_bytes code bs

-- The loop of decode over the codes.
pub decode_bytes : (ℕ → ℤ) → List ℕ → List ℕ
unfolding bytes_of
decode_bytes sample [] = []
decode_bytes sample (b ∷ bs) =
    let (low, high) = bytes_of (sample b) in low ∷ high ∷ decode_bytes sample bs

abbrev pub packet_of : Coder → Frame → List ℕ → Packet
packet_of c f bs = record {
  buffer = some bs;
  timestamp_ns = f.timestamp_ns;
  codec = c.codec;
  sample_rate = f.sample_rate;
  channel_count = f.channel_count;
}

pub encode : Bool → Coder → Frame → Reply Packet
unfolding encode_bytes
encode memory c f = if not c.running then err epipe else elim (f.buffer) [
  | none ↦ err einval
  | some bs ↦
      if not (length bs % 2 == 0)
        || not (f.sample_format == 0)
        || not (f.sample_rate == c.format.sample_rate)
        || not (f.channel_count == c.format.channel_count)
      then err einval
      else if not memory
      then err enomem
      else elim (c.codec) [
        | pcm ↦ ok (packet_of c f bs)
        | g711a ↦ ok (packet_of c f (encode_bytes linear_to_alaw bs))
        | _ ↦ ok (packet_of c f (encode_bytes linear_to_ulaw bs))
      ]
]

abbrev pub frame_of : Coder → Packet → List ℕ → ℕ → Frame
frame_of c p bs n = record {
  buffer = some bs;
  timestamp_ns = p.timestamp_ns;
  sample_rate = c.format.sample_rate;
  channel_count = c.format.channel_count;
  frame_count = u32 n;
  sample_format = 0;
}

-- The branch of decode for the two codes of G.711.
abbrev pub expanded : Bool → Coder → Packet → (ℕ → ℤ) → List ℕ → Option (Reply Frame)
expanded memory c p sample bs =
    if ltb 9223372036854775807 (length bs)
    then some (err eoverflow)
    else if not memory
    then some (err enomem)
    else if c.format.channel_count == 0
    then none
    else some (ok (frame_of c p (decode_bytes sample bs) (length bs / c.format.channel_count)))

-- `none` is the division by zero that the processor traps.
pub decode : Bool → Coder → Packet → Option (Reply Frame)
unfolding decode_bytes
decode memory c p =
    let bytes_per_frame = u32 (c.format.channel_count * 2) in
    if not c.running then some (err epipe) else elim (p.buffer) [
      | none ↦ some (err einval)
      | some bs ↦
          if not (same_codec p.codec c.codec)
            || not (p.sample_rate == c.format.sample_rate)
            || not (p.channel_count == c.format.channel_count)
          then some (err einval)
          else elim (c.codec) [
            | pcm ↦
                if bytes_per_frame == 0
                then none
                else if not memory
                then some (err enomem)
                else some (ok (frame_of c p bs (length bs / bytes_per_frame)))
            | g711a ↦ expanded memory c p alaw_to_linear bs
            | _ ↦ expanded memory c p ulaw_to_linear bs
          ]
    ]

abbrev pub supported : Codec → Bool
supported pcm = true
supported g711a = true
supported g711u = true
supported c = false

-- createAudioEncoder and createAudioDecoder, which check the same.
pub create_audio_coder : Codec → Format → Option Coder
create_audio_coder c f =
    if not (supported c)
    then none
    else if not (f.sample_format == 0) || f.sample_rate == 0 || f.channel_count == 0
    then none
    else some (record { codec = c; format = f; running = false })
