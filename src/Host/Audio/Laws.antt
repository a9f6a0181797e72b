-- ===== src/Host/Audio/Laws.antt =====
-- Formats, buffers and controls of the host's audio device.
use native.Mathlib.Nat.{
  div-add-mod', mod-lt, mod-eq_of_lt, mul-mod_left, mul-le-mul, le_refl, mul-div_cancel,
}
use dark_os_svc_kit.Common.{
  ℕ, zero, suc, ◌+◌, ◌*◌, ◌/◌, ◌%◌, ◌≤◌, ◌<◌, ◌≡◌, sym, ap, ◌∙◌, ◌↔◌, ◌⊎◌, true, false, ◌&&◌,
  Option, none, some, List, [], ◌∷◌, arith, ◌==◌, if◌then◌else◌, is_ok, length, length-append,
  length-replicate, ok, err, ebusy,
}
use dark_os_svc_kit.Common.Words.{u32, u64}
use dark_os_svc_kit.Common.Int.{ℤ}
use dark_os_svc_kit.Common.Float.{Float}
use dark_os_svc_kit.Host.Audio.{
  input, output, pcm_s16le, Format, Buffer, Read, check_direction, check_format, frame_bytes, Priv,
  stream_of, generate, sine_of, host_audio_set_format, host_audio_get_format, host_audio_start,
  host_audio_stop, host_audio_read, host_audio_set_control, host_audio_get_control, initial,
  default_format,
}

-- What a format has to be to be accepted.
pub record IsValid (f : Format) : Type 0 where
  pub coded : f.format ≡ pcm_s16le
  pub rated : (f.sample_rate ≡ 8000) ⊎ (f.sample_rate ≡ 16000) ⊎ (f.sample_rate ≡ 48000)
  pub mono_or_stereo : (1 ≤ f.channel_count) × (f.channel_count ≤ 2)

-- The check accepts exactly the formats that the capabilities announce: 16-bit samples at 8, 16 or
-- 48 kHz in one or two channels.
pub check_format_iff : (f : Format) → (check_format (some f) ≡ ok tt) ↔ IsValid f
unfolding check_format
check_format_iff f = (λ h. ground arith, λ v. ground arith)

pub default_IsValid : IsValid default_format
default_IsValid = ground arith

module _ (fl : Float) where
  pub record Inv (p : Priv fl) : Type 0 where
    pub in_valid : IsValid p.inp.fmt
    pub out_valid : IsValid p.out.fmt

  -- A format that is accepted is what `get_format` gives for its direction from then on, and the other
  -- direction keeps its own; a format that is refused changes nothing that can be read.
  pub get_format-set_format :
      (p : Priv fl) (dir other : ℕ) (f : Format)
      → host_audio_get_format fl (host_audio_set_format fl p dir (some f)).0 other true ≡ (
          if is_ok (host_audio_set_format fl p dir (some f)).1 && other == dir
          then ok f
          else host_audio_get_format fl p other true)
  unfolding host_audio_set_format host_audio_get_format check_direction
  get_format-set_format p dir other f = ground arith

  -- A format is accepted exactly when the direction is one of the two, the format is valid and the
  -- direction's stream is not running.
  pub set_format_iff :
      (p : Priv fl) (dir : ℕ) (f : Format)
      → ((host_audio_set_format fl p dir (some f)).1 ≡ ok tt)
        ↔ (((dir ≡ input) ⊎ (dir ≡ output)) × IsValid f × ((stream_of fl p dir).running ≡ false))
  unfolding host_audio_set_format check_direction
  set_format_iff p dir f = (
    λ h. (ground arith, (check_format_iff f).0 (ground arith), ground arith),
    λ v. rw ((check_format_iff f).1 v.1, v.2) (ground arith),
  )

  set_format-Inv :
      (p : Priv fl) (dir : ℕ) (o : Option Format) → Inv p → Inv (host_audio_set_format fl p dir o).0
  unfolding host_audio_set_format
  set_format-Inv p dir none inv = inv
  set_format-Inv p dir (some f) inv = ground (arith, (check_format_iff f).0)

  -- What a successful read has computed.
  record Done (p : Priv fl) (frames now : ℕ) (q : Priv fl) (r : Read) : Type 0 where
    some_frames : 0 < frames
    pcm : r.pcm ≡ (sine_of fl p.inp frames).0
    size : r.size ≡ u32 (frames * frame_bytes p.inp.fmt)
    other : q.out ≡ p.out
    fmt : q.inp.fmt ≡ p.inp.fmt
    index : q.inp.sample_index ≡ u64 (p.inp.sample_index + frames)

  read-Done :
      (p : Priv fl) (buf : Buffer) (now : ℕ) (q : Priv fl) (r : Read)
      → host_audio_read fl p (some buf) now ≡ (q, ok r)
      → Done p (buf.size / frame_bytes p.inp.fmt) now q r
  unfolding host_audio_read
  read-Done p buf now q r h = ground arith

  length-generate :
      (frames channels : ℕ) (step phase : fl.Value)
      → length (generate fl frames channels step phase).0 ≡ frames * channels
  unfolding generate
  length-generate zero channels step phase = omega arith
  length-generate (suc n) channels step phase =
      rw (length-append, length-replicate, length-generate n channels step) (omega arith)

  frame_bytes_lem : (f : Format) → IsValid f → frame_bytes f ≡ f.channel_count * 2
  unfolding frame_bytes
  frame_bytes_lem f v = mod-eq_of_lt (omega (arith, v.mono_or_stereo))

  -- A read gives whole frames, at least one and as many as fit: its size is a multiple of the frame, not
  -- above the capacity and less than a frame below it, and two bytes for each sample. It keeps both
  -- formats and the other stream, and counts its frames.
  pub read_lem :
      (p : Priv fl) (buf : Buffer) (now : ℕ) (q : Priv fl) (r : Read)
      → Inv p
      → buf.size < 4294967296
      → host_audio_read fl p (some buf) now ≡ (q, ok r)
      → (r.size % frame_bytes p.inp.fmt ≡ 0)
        × (0 < r.size)
        × (r.size ≤ buf.size)
        × (buf.size < r.size + frame_bytes p.inp.fmt)
        × (length r.pcm * 2 ≡ r.size)
        × (q.out ≡ p.out)
        × (q.inp.fmt ≡ p.inp.fmt)
        × (q.inp.sample_index ≡ u64 (p.inp.sample_index + r.size / frame_bytes p.inp.fmt))
  read_lem p buf now q r inv small h =
      let fb = frame_bytes p.inp.fmt in
      let frames = buf.size / fb in
      let bytes : fb ≡ p.inp.fmt.channel_count * 2 = frame_bytes_lem p.inp.fmt inv.in_valid in
      let solid : 0 < fb = omega (arith, inv.in_valid.mono_or_stereo) in
      let done = read-Done p buf now q r h in
      let part = div-add-mod' buf.size fb in
      let over : buf.size % fb < fb = mod-lt buf.size solid in
      let size : r.size ≡ frames * fb = done.size ∙ mod-eq_of_lt (omega (arith, part)) in
      let least : 1 * fb ≤ frames * fb =
        mul-le-mul {n₁ = 1} {m₁ = fb} {n₂ = frames} {m₂ = fb} done.some_frames (le_refl fb) in
      let count : length r.pcm ≡ frames * p.inp.fmt.channel_count =
        ap length done.pcm ∙ unfold sine_of in length-generate frames _ _ _ in
      (
        rw size (mul-mod_left frames fb),
        omega arith,
        omega (arith, part),
        omega (arith, part, over),
        omega (arith, count, size, ap (λ (n : ℕ). frames * n) bytes),
        done.other,
        done.fmt,
        done.index
            ∙ ap (λ n. u64 (p.inp.sample_index + n)) (sym (rw size (mul-div_cancel frames solid))),
      )

  -- One call of the device.
  pub data Call : Type 0 where
    sets_format : ℕ → Option Format → Call
    starts stops : ℕ → Call
    reads : Option Buffer → ℕ → Call
    sets_control : ℕ → ℤ → Call

  pub apply : Call → Priv fl → Priv fl
  apply (sets_format dir f) p = (host_audio_set_format fl p dir f).0
  apply (starts dir) p = (host_audio_start fl p dir).0
  apply (stops dir) p = (host_audio_stop fl p dir).0
  apply (reads buf now) p = (host_audio_read fl p buf now).0
  apply (sets_control id value) p = (host_audio_set_control fl p id value).0

  pub run : List Call → Priv fl → Priv fl
  run [] p = p
  run (c ∷ cs) p = run cs (apply c p)

  -- Only `set_format` writes a format.
  apply-fmt : (c : Call) (p : Priv fl) → Inv p → Inv (apply c p)
  unfolding apply host_audio_start host_audio_stop host_audio_read host_audio_set_control
  apply-fmt (sets_format dir f) p inv = set_format-Inv p dir f inv
  apply-fmt (starts dir) p inv = ground arith
  apply-fmt (stops dir) p inv = ground arith
  apply-fmt (reads none now) p inv = inv
  apply-fmt (reads (some buf) now) p inv = ground arith
  apply-fmt (sets_control id value) p inv = ground arith

  run-Inv : (cs : List Call) (p : Priv fl) → Inv p → Inv (run cs p)
  unfolding run
  run-Inv [] p inv = inv
  run-Inv (c ∷ cs) p inv = run-Inv cs (apply c p) (apply-fmt c p inv)

  -- After any sequence of calls on a fresh device both streams have a format that passes the check, so
  -- a frame is never empty and no read or write divides by 0.
  pub run_formats :
      (cs : List Call)
      → Inv (run cs (initial fl))
        × (0 < frame_bytes (run cs (initial fl)).inp.fmt)
        × (0 < frame_bytes (run cs (initial fl)).out.fmt)
  run_formats cs =
      let inv =
        run-Inv cs (initial fl)
          (record { in_valid = default_IsValid; out_valid = default_IsValid }) in
      (
        inv,
        omega (arith, frame_bytes_lem _ inv.in_valid, inv.in_valid.mono_or_stereo),
        omega (arith, frame_bytes_lem _ inv.out_valid, inv.out_valid.mono_or_stereo),
      )

  -- A direction that was started is busy: a second start is refused and changes nothing. It can be
  -- stopped, and then started again.
  pub start_stop :
      (p q : Priv fl) (dir : ℕ)
      → host_audio_start fl p dir ≡ (q, ok tt)
      → (host_audio_start fl q dir ≡ (q, err ebusy))
        × ((host_audio_stop fl q dir).1 ≡ ok tt)
        × ((host_audio_start fl (host_audio_stop fl q dir).0 dir).1 ≡ ok tt)
  unfolding host_audio_start host_audio_stop check_direction
  start_stop p q dir h = (ground arith, ground arith, ground arith)

  -- A control that is set reads back, and the other controls keep their values; an id that is refused
  -- changes nothing that can be read.
  pub get_control-set_control :
      (p : Priv fl) (id other : ℕ) (value : ℤ)
      → host_audio_get_control fl (host_audio_set_control fl p id value).0 other true ≡ (
          if is_ok (host_audio_set_control fl p id value).1 && other == id
          then ok value
          else host_audio_get_control fl p other true)
  unfolding host_audio_set_control host_audio_get_control
  get_control-set_control p id other value = ground arith
