-- ===== src/Media/Audio/Laws.antt =====
-- SvcKit/subsystems/media/src/codec/g711_audio_codec.cpp: the decoder and the encoder against each other.
use dark_os_svc_kit.Common.{
  ℕ, ◌*◌, ◌/◌, ◌%◌, ◌<◌, ◌≡◌, ◌↔◌, ◌⊎◌, inl, inr, refl, ap, ◌∙◌, Bool, true, Option, none, some,
  List, [], ◌∷◌, map, length, All, ◌==◌, if◌then◌else◌, ok, arith,
}
use dark_os_svc_kit.Common.Bytes.{agree_below}
use dark_os_svc_kit.Common.Int.{ℤ}
use dark_os_svc_kit.Media.G711.{
  linear_to_ulaw, ulaw_to_linear, linear_to_alaw, alaw_to_linear, ulaw_segment, alaw_segment,
}
use dark_os_svc_kit.Media.Audio.{
  Codec, pcm, g711a, g711u, aac, opus, same_codec, Frame, Packet, Coder, sample_of, bytes_of,
  encode_bytes, decode_bytes, encode, decode, frame_of, packet_of,
}

-- A code after decoding and encoding: µ-law has two zeros, of which the encoder makes one.
abbrev pub canonical : Codec → ℕ → ℕ
canonical g711a code = code
canonical c code = if code == 127 then 255 else code

again_alaw :
    (code : ℕ)
    → code < 256
    → linear_to_alaw
        (sample_of (bytes_of (alaw_to_linear code)).0 (bytes_of (alaw_to_linear code)).1)
      ≡ code
unfolding linear_to_alaw alaw_to_linear alaw_segment sample_of bytes_of
again_alaw =
    agree_below 256
      (λ c.
        linear_to_alaw (sample_of (bytes_of (alaw_to_linear c)).0 (bytes_of (alaw_to_linear c)).1))
      (λ c. c) refl

again_ulaw :
    (code : ℕ)
    → code < 256
    → linear_to_ulaw
        (sample_of (bytes_of (ulaw_to_linear code)).0 (bytes_of (ulaw_to_linear code)).1)
      ≡ (if code == 127 then 255 else code)
unfolding linear_to_ulaw ulaw_to_linear ulaw_segment sample_of bytes_of
again_ulaw =
    agree_below 256
      (λ c.
        linear_to_ulaw (sample_of (bytes_of (ulaw_to_linear c)).0 (bytes_of (ulaw_to_linear c)).1))
      (λ c. if c == 127 then 255 else c) refl

encode_bytes-decode_bytes :
    (code : ℤ → ℕ) (sample : ℕ → ℤ) (same : ℕ → ℕ)
    → ((c : ℕ)
        → c < 256
        → code (sample_of (bytes_of (sample c)).0 (bytes_of (sample c)).1) ≡ same c)
    → (bs : List ℕ) → All (λ b. b < 256) bs
    → encode_bytes code (decode_bytes sample bs) ≡ map same bs
unfolding encode_bytes decode_bytes
encode_bytes-decode_bytes code sample same h [] k = refl
encode_bytes-decode_bytes code sample same h (b ∷ bs) (l, k) =
    cc (h b l, encode_bytes-decode_bytes code sample same h bs k)

length-decode_bytes :
    (sample : ℕ → ℤ) (bs : List ℕ) → length (decode_bytes sample bs) ≡ 2 * length bs
unfolding decode_bytes
length-decode_bytes sample [] = refl
length-decode_bytes sample (b ∷ bs) = omega (arith, length-decode_bytes sample bs)

same_codec→eq : (x y : Codec) → same_codec x y ≡ true → x ≡ y
same_codec→eq pcm pcm h = refl
same_codec→eq g711a g711a h = refl
same_codec→eq g711u g711u h = refl
same_codec→eq aac aac h = refl
same_codec→eq opus opus h = refl
same_codec→eq x y h = absurd cc

-- A packet that fits the decoder.
unfoldable pub Fits : Coder → Packet → Type 0
Fits c p =
    (c.running ≡ true)
    × (p.codec ≡ c.codec)
    × (p.sample_rate ≡ c.format.sample_rate)
    × (p.channel_count ≡ c.format.channel_count)

abbrev sample_from : Codec → ℕ → ℤ
sample_from g711a code = alaw_to_linear code
sample_from c code = ulaw_to_linear code

-- What the decoder has found true of a packet when it returns a frame, and the frame.
decode-Fits :
    (c : Coder) (p : Packet) (bs : List ℕ) (f : Frame)
    → (c.codec ≡ g711a) ⊎ (c.codec ≡ g711u)
    → p.buffer ≡ some bs
    → decode true c p ≡ some (ok f)
    → Fits c p
      × (f
          ≡ frame_of c p
              (decode_bytes (sample_from c.codec) bs)
              (length bs / c.format.channel_count))
unfolding decode Fits
decode-Fits c p bs f (inl x) b d = ground (arith, same_codec→eq p.codec c.codec)
decode-Fits c p bs f (inr x) b d = ground (arith, same_codec→eq p.codec c.codec)

abbrev coded_by : Codec → ℤ → ℕ
coded_by g711a sample = linear_to_alaw sample
coded_by c sample = linear_to_ulaw sample

==_refl : (a : ℕ) → (a == a) ≡ true
==_refl a = ground arith

encode_ok :
    (c : Coder) (f : Frame) (bs : List ℕ)
    → (c.codec ≡ g711a) ⊎ (c.codec ≡ g711u)
    → c.running ≡ true
    → f.buffer ≡ some bs
    → length bs % 2 ≡ 0
    → f.sample_format ≡ 0
    → f.sample_rate ≡ c.format.sample_rate
    → f.channel_count ≡ c.format.channel_count
    → encode true c f ≡ ok (packet_of c f (encode_bytes (coded_by c.codec) bs))
unfolding encode
encode_ok c f bs (inl x) r b e s t u = simp (r, b, e, s, t, u, x, ==_refl)
encode_ok c f bs (inr x) r b e s t u = simp (r, b, e, s, t, u, x, ==_refl)

packet_eq :
    (p : Packet) (b : Option (List ℕ)) (x : Codec) (r n : ℕ)
    → p.codec ≡ x
    → p.sample_rate ≡ r
    → p.channel_count ≡ n
    → record {
      buffer = b;
      timestamp_ns = p.timestamp_ns;
      codec = x;
      sample_rate = r;
      channel_count = n;
    }
      ≡ record p { buffer = b }
packet_eq p b x r n h k l = cc

again-coded_by :
    (x : Codec) (bs : List ℕ)
    → (x ≡ g711a) ⊎ (x ≡ g711u)
    → All (λ b. b < 256) bs
    → encode_bytes (coded_by x) (decode_bytes (sample_from x) bs) ≡ map (canonical x) bs
again-coded_by g711a bs w k =
    encode_bytes-decode_bytes linear_to_alaw alaw_to_linear (canonical g711a) again_alaw bs k
again-coded_by g711u bs w k =
    encode_bytes-decode_bytes linear_to_ulaw ulaw_to_linear (canonical g711u) again_ulaw bs k
again-coded_by x bs (inl w) k = absurd cc
again-coded_by x bs (inr w) k = absurd cc

encode-frame_of :
    (c : Coder) (p : Packet) (bs : List ℕ) (n : ℕ)
    → (c.codec ≡ g711a) ⊎ (c.codec ≡ g711u)
    → Fits c p
    → All (λ b. b < 256) bs
    → encode true c (frame_of c p (decode_bytes (sample_from c.codec) bs) n)
      ≡ ok (record p { buffer = some (map (canonical c.codec) bs) })
unfolding Fits
encode-frame_of c p bs n w h k =
    encode_ok c (frame_of c p (decode_bytes (sample_from c.codec) bs) n) _ w h.0 refl
      (omega (arith, length-decode_bytes (sample_from c.codec) bs)) refl refl refl
    ∙ ap (λ x. ok (packet_of c (frame_of c p (decode_bytes (sample_from c.codec) bs) n) x))
        (again-coded_by c.codec bs w k)
    ∙ ap (λ x. ok x) (packet_eq p _ c.codec c.format.sample_rate c.format.channel_count h.1 h.2 h.3)

-- A frame that a running decoder of A-law or µ-law made of a packet of bytes, given to a running encoder of the
-- same codec and format, is a packet like the first: the same codes, but the one negative zero of µ-law as the
-- positive one.
pub encode-decode :
    (c : Coder) (p : Packet) (bs : List ℕ) (f : Frame)
    → ((c.codec ≡ g711a) ⊎ (c.codec ≡ g711u))
    → p.buffer ≡ some bs
    → All (λ b. b < 256) bs
    → decode true c p ≡ some (ok f)
    → encode true c f ≡ ok (record p { buffer = some (map (canonical c.codec) bs) })
encode-decode c p bs f w b k d =
    let (fits, made) = decode-Fits c p bs f w b d in
    ap (encode true c) made ∙ encode-frame_of c p bs (length bs / c.format.channel_count) w fits k

-- For a running decoder of at least one channel, in 32 bits, and a packet that fits it, decoding traps exactly when
-- the codec is PCM and the bytes of a frame, twice the channels, are 0 in 32 bits.
pub decode-none :
    (memory : Bool) (c : Coder) (p : Packet) (bs : List ℕ)
    → Fits c p
    → p.buffer ≡ some bs
    → 0 < c.format.channel_count
    → c.format.channel_count < 4294967296
    → (decode memory c p ≡ none) ↔ ((c.codec ≡ pcm) × (c.format.channel_count ≡ 2147483648))
unfolding decode Fits
decode-none memory c p bs h b l m = (λ d. ground arith, λ e. ground arith)
