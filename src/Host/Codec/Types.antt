-- ===== src/Host/Codec/Types.antt =====
-- The data of the host's codec (platform/interfaces/codec/types.h and codec_host_x86.c). The x264 library
-- is a parameter: what opening an encoder and encoding a picture give.
use dark_os_svc_kit.Common.{ℕ, Bool, Option, List}

abbrev pub codec_h264 : ℕ
codec_h264 = 0

abbrev pub codec_raw : ℕ
codec_raw = 3

-- The fourcc of NV12.
abbrev pub nv12 : ℕ
nv12 = 0x3231564e

-- codec_format_t
pub record Format : Type 0 where
  pub codec : ℕ
  pub width : ℕ
  pub height : ℕ
  pub pixel_format : ℕ
  pub bitrate_bps : ℕ
  pub fps : ℕ
  pub gop : ℕ

-- codec_caps_t
pub record Caps : Type 0 where
  pub supported_codecs : ℕ
  pub min_width : ℕ
  pub min_height : ℕ
  pub max_width : ℕ
  pub max_height : ℕ

-- The bits of codec_buffer_t's flags that the code reads and writes.
pub record Flags : Type 0 where
  pub keyframe : Bool
  pub eos : Bool

-- An input buffer: `bytes` is what its `size` bytes hold, `none` a null `data`.
pub record Input : Type 0 where
  pub bytes : Option (List ℕ)
  pub timestamp_ns : ℕ
  pub eos : Bool

-- An output buffer: before the call `size` is its capacity. `bytes` is what was written.
pub record Output : Type 0 where
  pub has_data : Bool
  pub bytes : List ℕ
  pub size : ℕ
  pub offset : ℕ
  pub timestamp_ns : ℕ
  pub flags : Flags

-- What x264_encoder_encode gives: a negative result, or its size, its NAL units and whether the
-- picture is a keyframe.
pub data Encoded : Type 0 where
  failed : Encoded
  packet : ℕ → List (List ℕ) → Bool → Encoded

-- The parameters of x264 that follow from the format.
pub record Param : Type 0 where
  pub width : ℕ
  pub height : ℕ
  pub fps_num : ℕ
  pub keyint_max : ℕ
  pub keyint_min : ℕ
  pub bitrate : ℕ

-- x264_encoder_open and x264_encoder_encode. An encoder is known by a number, and its answer may
-- depend on the presentation time, which counts the pictures.
pub record X264 : Type 0 where
  pub encoder_open : Param → Option ℕ
  pub encoder_encode : ℕ → ℕ → List ℕ → Encoded

-- host_codec_priv_t
pub record Priv : Type 0 where
  pub fmt : Format
  pub encoding : Bool
  pub seq : ℕ
  pub enc : Option ℕ
  pub pts : ℕ

-- The device together with the number of encoders that are open in the x264 library.
pub record State : Type 0 where
  pub priv : Priv
  pub encoders : ℕ
