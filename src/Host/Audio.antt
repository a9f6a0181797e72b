-- ===== src/Host/Audio.antt =====
-- platform/ubuntu_x86_64/audio/audio_host_x86.c: two PCM streams, one of them a sine. Floating point,
-- the clock and whether a pointer is null are arguments; a sleep is the time that a call reports.
use dark_os_svc_kit.Common.{
  ℕ, zero, suc, ◌+◌, ◌*◌, ◌/◌, Bool, true, false, not, ◌&&◌, ◌||◌, Option, none, some, List, [],
  ◌∷◌, ◌++◌, ltb, ◌==◌, if◌then◌else◌, is_ok, replicate, Reply, Rc, ok, err, einval, ebusy, enospc,
}
use dark_os_svc_kit.Common.Words.{u32, u64}
use dark_os_svc_kit.Common.Int.{ℤ, pos}
use dark_os_svc_kit.Common.Float.{Float}
use dark_os_svc_kit.Hardware.Version.{Device, api_version_1_0}
use dark_os_svc_kit.Hal.{Allocs, open_device, close_device}
pub mod Laws
pub mod Tests

-- AUDIO_DIRECTION_INPUT and AUDIO_DIRECTION_OUTPUT; an enum argument may hold any other number.
abbrev pub input : ℕ
input = 0

abbrev pub output : ℕ
output = 1

abbrev pub pcm_s16le : ℕ
pcm_s16le = 1

-- audio_format_t
pub record Format : Type 0 where
  pub sample_rate : ℕ
  pub channel_count : ℕ
  pub format : ℕ

-- audio_caps_t
pub record Caps : Type 0 where
  pub supported_directions : ℕ
  pub supported_formats : ℕ
  pub supported_rates : ℕ
  pub max_channels : ℕ

-- audio_buffer_t: whether `data` is not null, and the size that the caller wrote.
pub record Buffer : Type 0 where
  pub has_data : Bool
  pub size : ℕ

-- What a read leaves in the buffer, and the microseconds that it slept.
pub record Read : Type 0 where
  pub pcm : List ℤ
  pub size : ℕ
  pub timestamp_ns : ℕ
  pub slept_us : ℕ

pub check_direction : ℕ → Rc
check_direction dir = if dir == input || dir == output then ok tt else err einval

pub check_format : Option Format → Rc
check_format none = err einval
check_format (some fmt) =
    if not (fmt.format == pcm_s16le)
    then err einval
    else if not (fmt.sample_rate == 8000)
        && not (fmt.sample_rate == 16000)
        && not (fmt.sample_rate == 48000)
    then err einval
    else if ltb fmt.channel_count 1 || ltb 2 fmt.channel_count
    then err einval
    else ok tt

-- The microseconds of sleep_for_frames, which takes 64-bit products and a 32-bit `useconds_t`.
pub sleep_for_frames : ℕ → ℕ → ℕ
sleep_for_frames frames sample_rate = u32 (u64 (frames * 1000000) / sample_rate)

pub host_audio_get_capabilities : Bool → Reply Caps
host_audio_get_capabilities caps =
    if not caps
    then err einval
    else ok (record {
      supported_directions = 1 + 2;
      supported_formats = pcm_s16le;
      supported_rates = 1 + 2 + 32;
      max_channels = 2;
    })

abbrev pub default_format : Format
default_format = record { sample_rate = 16000; channel_count = 1; format = pcm_s16le }

abbrev pub ctrl_volume : ℕ
ctrl_volume = 1

abbrev pub ctrl_mute : ℕ
ctrl_mute = 2

abbrev pub ctrl_mic_gain : ℕ
ctrl_mic_gain = 3

-- The bytes of one frame. A valid format has a channel, so no division by it meets 0.
pub frame_bytes : Format → ℕ
frame_bytes fmt = u32 (fmt.channel_count * 2)

module _ (fl : Float) where
  open fl use {Value, literal, of_ℕ, neg, add, sub, mul, div, below, to_int}

  -- host_audio_stream_t
  pub record Stream : Type 0 where
    pub fmt : Format
    pub running : Bool
    pub sample_index : ℕ
    pub phase : Value

  -- host_audio_priv_t; `inp` is its field `in`.
  pub record Priv : Type 0 where
    pub inp : Stream
    pub out : Stream
    pub volume : ℤ
    pub mute : ℤ
    pub mic_gain : ℤ

  abbrev pub zero_phase : Value
  zero_phase = literal 0 0

  abbrev pub pi : Value
  pi = literal 314159265358979323846 20

  abbrev pub two_pi : Value
  two_pi = mul (literal 2 0) pi

  -- The rounds n .. n + k - 1 of the Taylor loop.
  pub sin_terms : ℕ → ℕ → Value → Value → Value → Value
  sin_terms zero n x2 term sum = sum
  sin_terms (suc k) n x2 term sum =
      let term' = mul term (div (neg x2) (mul (of_ℕ (2 * n)) (of_ℕ (2 * n + 1)))) in
      sin_terms k (n + 1) x2 term' (add sum term')

  pub host_sin : Value → Value
  host_sin x = sin_terms 6 1 (mul x x) x x

  abbrev pub stream_of : Priv → ℕ → Stream
  stream_of p dir = if dir == input then p.inp else p.out

  abbrev pub put_stream : Priv → ℕ → Stream → Priv
  put_stream p dir s = if dir == input then record p { inp = s } else record p { out = s }

  pub host_audio_set_format : Priv → ℕ → Option Format → Priv × Rc
  host_audio_set_format p dir none = (p, err einval)
  host_audio_set_format p dir (some fmt) =
      if not (is_ok (check_direction dir))
      then (p, err einval)
      else if not (is_ok (check_format (some fmt)))
      then (p, err einval)
      else if (stream_of p dir).running
      then (p, err ebusy)
      else (
        put_stream p dir
            (record (stream_of p dir) { fmt = fmt; sample_index = 0; phase = zero_phase }),
        ok tt,
      )

  pub host_audio_get_format : Priv → ℕ → Bool → Reply Format
  host_audio_get_format p dir fmt =
      if not (is_ok (check_direction dir)) || not fmt then err einval else ok (stream_of p dir).fmt

  pub host_audio_start : Priv → ℕ → Priv × Rc
  host_audio_start p dir =
      if not (is_ok (check_direction dir))
      then (p, err einval)
      else if (stream_of p dir).running
      then (p, err ebusy)
      else (
        put_stream p dir
            (record (stream_of p dir) { running = true; sample_index = 0; phase = zero_phase }),
        ok tt,
      )

  pub host_audio_stop : Priv → ℕ → Priv × Rc
  host_audio_stop p dir =
      if not (is_ok (check_direction dir))
      then (p, err einval)
      else (put_stream p dir (record (stream_of p dir) { running = false }), ok tt)

  -- The sample loop: each frame holds its sample once for each channel. The last phase comes with it.
  pub generate : ℕ → ℕ → Value → Value → List ℤ × Value
  generate zero channels phase_step phase = ([], phase)
  generate (suc frames) channels phase_step phase =
      let moved = add phase phase_step in
      let (rest, last) =
        generate frames channels phase_step (if below pi moved then sub moved two_pi else moved) in
      (replicate channels (to_int (mul (literal 98300 1) (host_sin phase))) ++ rest, last)

  -- The samples of `frames` frames of the input stream, and the phase behind them.
  pub sine_of : Stream → ℕ → List ℤ × Value
  sine_of s frames =
      generate frames s.fmt.channel_count
        (div (mul two_pi (literal 4400 1)) (of_ℕ s.fmt.sample_rate)) s.phase

  -- The part of the read behind its guards.
  pub read_frames : Priv → ℕ → ℕ → Priv × Reply Read
  read_frames p frames now = if frames == 0 then (p, err enospc) else (
    record p {
      inp = record (p.inp) {
        phase = (sine_of p.inp frames).1;
        sample_index = u64 (p.inp.sample_index + frames);
      };
    },
    ok (record {
      pcm = (sine_of p.inp frames).0;
      size = u32 (frames * frame_bytes p.inp.fmt);
      timestamp_ns = now;
      slept_us = sleep_for_frames frames p.inp.fmt.sample_rate;
    }),
  )

  pub host_audio_read : Priv → Option Buffer → ℕ → Priv × Reply Read
  unfolding read_frames
  host_audio_read p none now = (p, err einval)
  host_audio_read p (some buf) now =
      if not buf.has_data
      then (p, err einval)
      else if not p.inp.running
      then (p, err einval)
      else read_frames p (buf.size / frame_bytes p.inp.fmt) now

  -- The data is dropped; what is left is the time that playing it takes.
  pub host_audio_write : Priv → Option Buffer → Reply ℕ
  host_audio_write p none = err einval
  host_audio_write p (some buf) =
      if not buf.has_data
      then err einval
      else if not p.out.running
      then err einval
      else ok (sleep_for_frames (buf.size / frame_bytes p.out.fmt) p.out.fmt.sample_rate)

  pub host_audio_set_control : Priv → ℕ → ℤ → Priv × Rc
  host_audio_set_control p id value =
      if id == ctrl_volume
      then (record p { volume = value }, ok tt)
      else if id == ctrl_mute
      then (record p { mute = value }, ok tt)
      else if id == ctrl_mic_gain
      then (record p { mic_gain = value }, ok tt)
      else (p, err einval)

  pub host_audio_get_control : Priv → ℕ → Bool → Reply ℤ
  host_audio_get_control p id value =
      if not value
      then err einval
      else if id == ctrl_volume
      then ok p.volume
      else if id == ctrl_mute
      then ok p.mute
      else if id == ctrl_mic_gain
      then ok p.mic_gain
      else err einval

  abbrev pub initial_stream : Stream
  initial_stream = record {
    fmt = default_format;
    running = false;
    sample_index = 0;
    phase = zero_phase;
  }

  abbrev pub initial : Priv
  initial = record {
    inp = initial_stream;
    out = initial_stream;
    volume = pos 50;
    mute = pos 0;
    mic_gain = pos 50;
  }

  pub host_audio_open : Bool → Allocs → ℕ → ℕ × Reply (Device Priv)
  host_audio_open = open_device api_version_1_0 initial

  pub host_audio_close : Option (Device Priv) → ℕ → ℕ × Rc
  host_audio_close = close_device
