-- ===== src/Media/G711/Laws.antt =====
-- SvcKit/subsystems/media/src/codec/g711_audio_codec.cpp: the codes against the samples.
use dark_os_svc_kit.Common.{ℕ, ◌<◌, ◌≡◌, refl, ◌==◌, if◌then◌else◌}
use dark_os_svc_kit.Common.Bytes.{agree_below}
use dark_os_svc_kit.Media.G711.{
  linear_to_ulaw, ulaw_to_linear, linear_to_alaw, alaw_to_linear, ulaw_segment, alaw_segment,
}

-- Every A-law code that is decoded and encoded again is the same code.
pub linear_to_alaw-alaw_to_linear :
    (code : ℕ) → code < 256 → linear_to_alaw (alaw_to_linear code) ≡ code
unfolding linear_to_alaw alaw_to_linear alaw_segment
linear_to_alaw-alaw_to_linear =
    agree_below 256 (λ c. linear_to_alaw (alaw_to_linear c)) (λ c. c) refl

-- Every µ-law code but that of the negative zero, 127, is the same after decoding and encoding; 127 becomes the
-- positive zero, 255.
pub linear_to_ulaw-ulaw_to_linear :
    (code : ℕ)
    → code < 256
    → linear_to_ulaw (ulaw_to_linear code) ≡ (if code == 127 then 255 else code)
unfolding linear_to_ulaw ulaw_to_linear ulaw_segment
linear_to_ulaw-ulaw_to_linear =
    agree_below 256 (λ c. linear_to_ulaw (ulaw_to_linear c)) (λ c. if c == 127 then 255 else c) refl
