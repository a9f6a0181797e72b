-- ===== src/Host/Codec/Tests.antt =====
-- The codec's theorems at concrete calls.
use dark_os_svc_kit.Common.{
  ℕ, zero, suc, length, List, replicate, ◌+◌, ◌%◌, ◌≡◌, refl, true, false, some, [], ◌∷◌, arith,
  ◌==◌, ok,
}
use dark_os_svc_kit.Host.Codec.Types.{codec_h264, Format, Input, Output, packet, X264, Priv, State}
use dark_os_svc_kit.Host.Codec.Control.{
  or_default, host_codec_set_format, host_codec_start, host_codec_stop, initial,
}
use dark_os_svc_kit.Host.Codec.Encode.{host_codec_encode, host_codec_decode}
use dark_os_svc_kit.Host.Codec.Laws.{
  Copies, frame, Encodes, nothing, encoded, decode-encode, keyframe_every_gop,
}
use dark_os_svc_kit.Host.Codec.Safety.{
  Returns, here, next, starts, sets_format, Sized, Covers, fresh, encode-Returns,
}

length-replicate : (n a : ℕ) → length (replicate n a) ≡ n
length-replicate zero a = refl
length-replicate (suc n) a = omega (arith, length-replicate n a)

-- An encoder library with one encoder, which cuts each frame into a packet of two units.
abbrev library : X264
library = record {
  encoder_open = λ param. some 1;
  encoder_encode = λ e pts bytes. packet 3 ((1 ∷ []) ∷ (2 ∷ 3 ∷ []) ∷ []) (pts == 0);
}

abbrev copying : Priv
copying = record initial { encoding = true }

copying-Copies : Copies copying
copying-Copies = record { raw = refl; running = refl }

abbrev room : Output
room = record {
  has_data = true;
  bytes = [];
  size = 8;
  offset = 0;
  timestamp_ns = 0;
  flags = record { keyframe = false; eos = false };
}

abbrev copied : Output
copied = record room {
  bytes = 9 ∷ 8 ∷ [];
  size = 2;
  timestamp_ns = 40;
  flags = record { keyframe = true; eos = true };
}

abbrev counted : Priv
counted = record copying { seq = 1 }

encode_copies :
    host_codec_encode library copying (frame (9 ∷ 8 ∷ []) 40 true) room
    ≡ some (counted, copied, ok tt)
unfolding host_codec_encode
encode_copies = refl

decode-encode_example :
    (copied.size ≡ 2)
    × (host_codec_decode counted (frame (9 ∷ 8 ∷ []) 40 true) room
        ≡ (record room { bytes = 9 ∷ 8 ∷ []; size = 2; offset = 0; timestamp_ns = 40 }, ok tt))
decode-encode_example =
    decode-encode library copying counted (9 ∷ 8 ∷ []) 40 true room copied room copying-Copies refl
      (omega arith) encode_copies

one_frame : Encodes library copying (true ∷ []) counted
one_frame = encoded (frame (9 ∷ 8 ∷ []) 40 true) room copied encode_copies nothing

keyframe_every_gop_example : true ≡ ((0 + 0) % 4294967296 % or_default 30 30 == 0)
keyframe_every_gop_example =
    keyframe_every_gop library copying counted (true ∷ []) copying-Copies (omega arith) one_frame 0
      true refl

abbrev small : Format
small = record initial.fmt { codec = codec_h264; width = 160; height = 120 }

abbrev chosen : State
chosen = record (fresh 2) { priv = (host_codec_set_format (fresh 2).priv (some small)).0 }

abbrev started : State
started = (host_codec_start library chosen).0

library-Sized : (e pts : ℕ) (bytes : List ℕ) → Sized (library.encoder_encode e pts bytes)
library-Sized e pts bytes = refl

abbrev picture : Input
picture = frame (replicate 28800 7) 0 false

picture-Covers : started.priv.fmt.codec ≡ codec_h264 → Covers started.priv.fmt picture.bytes
unfolding host_codec_start host_codec_set_format
picture-Covers e = omega (arith, length-replicate 28800 7)

encode-Returns_example :
    Returns started.priv (host_codec_encode library started.priv picture room)
    × ((host_codec_stop started).encoders ≡ 2)
encode-Returns_example =
    encode-Returns library 2 started picture room library-Sized picture-Covers
      (next (next here (sets_format (some small) refl)) starts)
