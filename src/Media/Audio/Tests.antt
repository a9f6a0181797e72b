-- ===== src/Media/Audio/Tests.antt =====
-- Runs of the audio codecs.
use dark_os_svc_kit.Common.{ℕ, ◌≡◌, ◌↔◌, inr, refl, true, none, some, [], ◌∷◌, ok, arith}
use dark_os_svc_kit.Common.Int.{pos}
use dark_os_svc_kit.Media.G711.{ulaw_to_linear, linear_to_alaw, alaw_segment}
use dark_os_svc_kit.Media.Audio.{
  Codec, pcm, g711u, Frame, Packet, Coder, encode, decode, decode_bytes,
}
use dark_os_svc_kit.Media.Audio.Laws.{Fits, encode-decode, decode-none}

abbrev telephone : Codec → ℕ → Coder
telephone x channels = record {
  codec = x;
  format = record { sample_rate = 8000; channel_count = channels; sample_format = 0 };
  running = true;
}

abbrev three_codes : Codec → ℕ → Packet
three_codes x channels = record {
  buffer = some (0 ∷ 127 ∷ 200 ∷ []);
  timestamp_ns = 40;
  codec = x;
  sample_rate = 8000;
  channel_count = channels;
}

abbrev three_samples : Frame
three_samples = record {
  buffer = some (decode_bytes ulaw_to_linear (0 ∷ 127 ∷ 200 ∷ []));
  timestamp_ns = 40;
  sample_rate = 8000;
  channel_count = 1;
  frame_count = 3;
  sample_format = 0;
}

loudest : linear_to_alaw (pos 32767) ≡ 170
unfolding linear_to_alaw alaw_segment
loudest = refl

encode-decode_example :
    encode true (telephone g711u 1) three_samples
    ≡ ok (record (three_codes g711u 1) { buffer = some (0 ∷ 255 ∷ 200 ∷ []) })
unfolding decode
encode-decode_example =
    encode-decode (telephone g711u 1) (three_codes g711u 1) (0 ∷ 127 ∷ 200 ∷ []) three_samples
      (inr refl) refl (omega arith, (omega arith, (omega arith, tt))) refl

decode-none_example :
    (decode true (telephone pcm 2147483648) (three_codes pcm 2147483648) ≡ none)
    ↔ ((pcm ≡ pcm) × (◌≡◌ {A = ℕ} 2147483648 2147483648))
unfolding Fits
decode-none_example =
    decode-none true (telephone pcm 2147483648) (three_codes pcm 2147483648) (0 ∷ 127 ∷ 200 ∷ [])
      (refl, refl, refl, refl) refl (omega arith) (omega arith)
