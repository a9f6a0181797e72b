-- ===== src/Host/Audio/Tests.antt =====
-- The audio theorems at concrete calls. The arithmetic of whole numbers stands in for floating point.
use dark_os_svc_kit.Common.{◌<◌, ◌≡◌, refl, true, some, List, [], ◌∷◌, ok}
use dark_os_svc_kit.Common.Float.{whole}
use dark_os_svc_kit.Host.Audio.{
  Format, Buffer, Read, Priv, check_direction, frame_bytes, initial, host_audio_start,
  host_audio_read, sine_of, sleep_for_frames,
}
use dark_os_svc_kit.Host.Audio.Laws.{Inv, Call, sets_format, starts, run, run_formats}

abbrev stereo : Format
stereo = record { sample_rate = 48000; channel_count = 2; format = 1 }

abbrev recording : Priv whole
recording = (host_audio_start whole (initial whole) 0).0

recording_started : host_audio_start whole (initial whole) 0 ≡ (recording, ok tt)
unfolding host_audio_start check_direction
recording_started = refl

abbrev five_bytes : Buffer
five_bytes = record { has_data = true; size = 5 }

abbrev listening : Priv whole
listening = record (initial whole) { inp = record ((initial whole).inp) { running = true } }

abbrev after_read : Priv whole × Read
after_read = (
  record listening {
    inp = record (listening.inp) { phase = (sine_of whole (listening.inp) 2).1; sample_index = 2 };
  },
  record { pcm = (sine_of whole (listening.inp) 2).0; size = 4; timestamp_ns = 77; slept_us = 125 },
)

two_frames : host_audio_read whole listening (some five_bytes) 77 ≡ (after_read.0, ok after_read.1)
unfolding host_audio_read frame_bytes sleep_for_frames
two_frames = refl

abbrev session : List (Call whole)
session = sets_format 0 (some stereo) ∷ starts 0 ∷ []

run_formats_example :
    Inv whole (run whole session (initial whole))
    × (0 < frame_bytes (run whole session (initial whole)).inp.fmt)
    × (0 < frame_bytes (run whole session (initial whole)).out.fmt)
run_formats_example = run_formats whole session
