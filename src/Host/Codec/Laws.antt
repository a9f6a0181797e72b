-- ===== src/Host/Codec/Laws.antt =====
-- What the copying codec does to frames, and where an encoder's packets end up.
use mathlib.Core.Option.{some-injective}
use dark_os_svc_kit.Common.{
  ℕ, zero, suc, ◌+◌, ◌%◌, ◌≤◌, ◌<◌, ◌≡◌, refl, ap, subst, sym, ◌∙◌, Bool, true, Option, none, some,
  List, [], ◌∷◌, arith, ◌==◌, take, take_all, length, get_elem?, ok,
}
use dark_os_svc_kit.Common.Words.{u32}
use dark_os_svc_kit.Host.Codec.Types.{codec_raw, Input, Output, X264, Priv}
use dark_os_svc_kit.Host.Codec.Control.{or_default}
use dark_os_svc_kit.Host.Codec.Encode.{
  encode_raw, finish_encode, host_codec_encode, host_codec_decode,
}

-- The copying codec, running.
pub record Copies (p : Priv) : Type 0 where
  pub raw : p.fmt.codec ≡ codec_raw
  pub running : p.encoding ≡ true

abbrev pub frame : List ℕ → ℕ → Bool → Input
frame bytes timestamp_ns eos = record { bytes = some bytes; timestamp_ns = timestamp_ns; eos = eos }

-- A frame that fits is copied whole, with its time and its end-of-stream mark, and is a keyframe exactly
-- when its number is a multiple of the interval (30 where the format gives none).
pub encode_raw_lem :
    (x : X264) (p : Priv) (bytes : List ℕ) (time : ℕ) (eos : Bool) (out : Output)
    → Copies p
    → out.has_data ≡ true
    → length bytes ≤ out.size
    → host_codec_encode x p (frame bytes time eos) out
      ≡ some (
        record p { seq = u32 (p.seq + 1) },
        record out {
          bytes = bytes;
          size = length bytes;
          offset = 0;
          timestamp_ns = time;
          flags = record { keyframe = p.seq % or_default p.fmt.gop 30 == 0; eos = eos };
        },
        ok tt,
      )
unfolding host_codec_encode encode_raw finish_encode
encode_raw_lem x p bytes time eos out copies writable fits = ground arith

-- On a running device whose codec is RAW, a frame that was encoded with success is
-- `coded.size` bytes, as many as it had, and decoding it into a buffer that can hold it gives the frame and its time
-- back.
pub decode-encode :
    (x : X264) (p q : Priv) (bytes : List ℕ) (time : ℕ) (eos : Bool) (out coded plain : Output)
    → Copies p
    → plain.has_data ≡ true
    → length bytes ≤ plain.size
    → host_codec_encode x p (frame bytes time eos) out ≡ some (q, coded, ok tt)
    → (coded.size ≡ length bytes)
      × (host_codec_decode q
            (frame (take coded.size coded.bytes) coded.timestamp_ns coded.flags.eos)
            plain
          ≡ (
            record plain { bytes = bytes; size = length bytes; offset = 0; timestamp_ns = time },
            ok tt,
          ))
unfolding host_codec_encode encode_raw finish_encode host_codec_decode
decode-encode x p q bytes time eos out coded plain copies writable fits h =
    ground (arith, take_all (length bytes) bytes)

-- A client that encodes frames one after another, all of them with success: the buffers, the keyframe
-- flags that it got and the states before and behind.
pub data Encodes (x : X264) : Priv → List Bool → Priv → Type 0 where
  nothing : {p : Priv} → Encodes x p [] p
  encoded :
      {p q r : Priv} {flags : List Bool} (inp : Input) (out coded : Output)
      → host_codec_encode x p inp out ≡ some (q, coded, ok tt)
      → Encodes x q flags r
      → Encodes x p (coded.flags.keyframe ∷ flags) r

encode_step :
    (x : X264) (p q : Priv) (inp : Input) (o : Option (List ℕ)) (out coded : Output)
    → Copies p
    → inp.bytes ≡ o
    → host_codec_encode x p inp out ≡ some (q, coded, ok tt)
    → (coded.flags.keyframe ≡ (p.seq % or_default p.fmt.gop 30 == 0))
      × (q ≡ record p { seq = u32 (p.seq + 1) })
unfolding host_codec_encode encode_raw finish_encode
encode_step x p q inp none out coded copies e h = ground arith
encode_step x p q inp (some bytes) out coded copies e h = ground arith

-- On a running device whose codec is RAW, in any run of successful encodings from a number of frames within 32
-- bits, frame `i` is a keyframe exactly when its number, counted on from
-- the state's and taken as a 32-bit word, is a multiple of the interval.
pub keyframe_every_gop :
    (x : X264) (p r : Priv) (flags : List Bool)
    → Copies p
    → p.seq < 4294967296
    → Encodes x p flags r
    → (i : ℕ) (b : Bool) → get_elem? flags i ≡ some b
    → b ≡ ((p.seq + i) % 4294967296 % or_default p.fmt.gop 30 == 0)
keyframe_every_gop x p r flags copies small nothing i b e = cc
keyframe_every_gop x p r _ copies small (encoded {q = q} inp out coded h more) zero b e =
    let wrap : (p.seq + 0) % 4294967296 ≡ p.seq = omega arith in
    some-injective _ _ (sym e)
    ∙ (encode_step x p q inp inp.bytes out coded copies refl h).0
    ∙ ap (λ n. n % or_default p.fmt.gop 30 == 0) (sym wrap)
keyframe_every_gop x p r _ copies small (encoded {q = q} inp out coded h more) (suc i) b e =
    let moved = (encode_step x p q inp inp.bytes out coded copies refl h).1 in
    let number : q.seq ≡ u32 (p.seq + 1) = ap (λ (s : Priv). s.seq) moved in
    let gop : q.fmt.gop ≡ p.fmt.gop = ap (λ (s : Priv). s.fmt.gop) moved in
    let later =
      keyframe_every_gop x q r _
        (subst Copies (sym moved) (record { raw = copies.raw; running = copies.running }))
        (omega (arith, number)) more i b e in
    let same : (q.seq + i) % 4294967296 ≡ (p.seq + suc i) % 4294967296 = omega (arith, number) in
    later ∙ (λ k. same k % or_default (gop k) 30 == 0)
