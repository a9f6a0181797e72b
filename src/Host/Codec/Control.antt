-- ===== src/Host/Codec/Control.antt =====
-- Formats, starting, stopping, opening and closing in platform/ubuntu_x86_64/codec/codec_host_x86.c.
use dark_os_svc_kit.Common.{
  ℕ, ◌+◌, ◌-◌, ◌/◌, Bool, true, false, not, ◌&&◌, ◌||◌, Option, none, some, [], ltb, leb, ◌==◌,
  if◌then◌else◌, take, drop, Text, codes, str_eq, Reply, Rc, ok, err, einval, ebusy, enomem,
}
use dark_os_svc_kit.Common.Int.{ℤ, pos, negsuc}
use dark_os_svc_kit.Hardware.Version.{Device, api_version_1_0}
use dark_os_svc_kit.Hal.{Allocs, open_device, close_device}
use dark_os_svc_kit.Host.Codec.Types.{
  codec_h264, codec_raw, nv12, Format, Caps, Param, X264, Priv, State,
}

unfoldable pub host_codec_get_capabilities : Bool → Reply Caps
host_codec_get_capabilities caps =
    if not caps
    then err einval
    else ok (record {
      supported_codecs = 8 + 1;
      min_width = 160;
      min_height = 120;
      max_width = 3840;
      max_height = 2160;
    })

unfoldable pub host_codec_set_format : Priv → Option Format → Priv × Rc
host_codec_set_format p none = (p, err einval)
host_codec_set_format p (some fmt) =
    if not (fmt.codec == codec_raw) && not (fmt.codec == codec_h264)
    then (p, err einval)
    else if ltb fmt.width 160 || ltb fmt.height 120 || ltb 3840 fmt.width || ltb 2160 fmt.height
    then (p, err einval)
    else if fmt.codec == codec_h264 && not (fmt.pixel_format == nv12)
    then (p, err einval)
    else (record p { fmt = fmt }, ok tt)

unfoldable pub host_codec_get_format : Priv → Bool → Reply Format
host_codec_get_format p fmt = if not fmt then err einval else ok p.fmt

-- v ? v : d
abbrev pub or_default : ℕ → ℕ → ℕ
or_default v d = if v == 0 then d else v

unfoldable pub param_of : Format → Param
param_of f = record {
  width = f.width;
  height = f.height;
  fps_num = or_default f.fps 30;
  keyint_max = or_default f.gop 30;
  keyint_min = or_default f.gop 30;
  bitrate = if f.bitrate_bps == 0 then 2000 else f.bitrate_bps / 1000;
}

unfoldable pub start_h264 : State → Option ℕ → State × Rc
start_h264 s none = (record s { priv = record (s.priv) { enc = none } }, err enomem)
start_h264 s (some e) = (
  record {
    priv = record (s.priv) { enc = some e; pts = 0; encoding = true; seq = 0 };
    encoders = s.encoders + 1;
  },
  ok tt,
)

unfoldable pub host_codec_start : X264 → State → State × Rc
unfolding start_h264
host_codec_start x s =
    if s.priv.encoding
    then (s, err ebusy)
    else if s.priv.fmt.codec == codec_h264
    then start_h264 s (x.encoder_open (param_of s.priv.fmt))
    else (record s { priv = record (s.priv) { encoding = true; seq = 0 } }, ok tt)

abbrev close_encoder : Option ℕ → ℕ → ℕ
close_encoder none encoders = encoders
close_encoder (some e) encoders = encoders - 1

unfoldable pub host_codec_stop : State → State
host_codec_stop s = record {
  priv = record (s.priv) { enc = none; encoding = false };
  encoders = close_encoder s.priv.enc s.encoders;
}

unfoldable pub host_codec_flush : Priv → Priv
host_codec_flush p = record p { seq = 0 }

unfoldable pub host_codec_set_rc_param : Priv → ℕ → Priv
host_codec_set_rc_param p bitrate_bps = record p {
  fmt = record (p.fmt) { bitrate_bps = bitrate_bps };
}

abbrev pub initial : Priv
initial = record {
  fmt = record {
    codec = codec_raw;
    width = 1920;
    height = 1080;
    pixel_format = nv12;
    bitrate_bps = 4000000;
    fps = 30;
    gop = 30;
  };
  encoding = false;
  seq = 0;
  enc = none;
  pts = 0;
}

abbrev in_range : ℤ → Bool
in_range (pos n) = leb n 15
in_range (negsuc n) = false

-- The id is "codec", or "codec" with a number up to 15 behind it; `strtol` is the C library's, with
-- the text that it leaves.
unfoldable pub valid_id : (Text → ℤ × Text) → Text → Bool
valid_id strtol id =
    let prefix = codes "codec" in
    if not (str_eq (take 5 id) prefix)
    then false
    else if str_eq (drop 5 id) []
    then true
    else (let (idx, rest) = strtol (drop 5 id) in str_eq rest [] && in_range idx)

unfoldable pub host_codec_open :
    (Text → ℤ × Text) → Bool → Option Text → Allocs → ℕ → ℕ × Reply (Device Priv)
host_codec_open strtol out none a live = (live, err einval)
host_codec_open strtol out (some id) a live =
    if not out
    then (live, err einval)
    else if not (valid_id strtol id)
    then (live, err einval)
    else open_device api_version_1_0 initial out a live

-- Closing frees both blocks; an encoder that is open stays open.
unfoldable pub host_codec_close : Option (Device Priv) → ℕ → ℕ → (ℕ × ℕ) × Rc
host_codec_close d live encoders = let (live', rc) = close_device d live in ((live', encoders), rc)
