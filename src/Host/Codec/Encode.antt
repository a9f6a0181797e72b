-- ===== src/Host/Codec/Encode.antt =====
-- Encoding and decoding in platform/ubuntu_x86_64/codec/codec_host_x86.c.
use dark_os_svc_kit.Common.{
  ℕ, ◌+◌, ◌*◌, ◌/◌, ◌%◌, Bool, true, false, not, Option, none, some, List, [], ◌∷◌, ◌++◌, ltb, ◌==◌,
  if◌then◌else◌, length, Rc, ok, err, einval, enospc, enotsup, eio,
}
use dark_os_svc_kit.Common.Words.{u32}
use dark_os_svc_kit.Host.Codec.Control.{or_default}
use dark_os_svc_kit.Host.Codec.Types.{
  codec_h264, codec_raw, Flags, Format, Input, Output, Encoded, failed, packet, X264, Priv,
}

abbrev pub key_flags : Bool → Flags
key_flags keyframe = record { keyframe = keyframe; eos = false }

unfoldable pub encode_raw : Priv → List ℕ → Output → Output × Rc
encode_raw p bytes out = if ltb out.size (length bytes) then (out, err enospc) else (
  record out {
    bytes = bytes;
    size = length bytes;
    flags = key_flags (p.seq % or_default p.fmt.gop 30 == 0);
  },
  ok tt,
)

abbrev pub concat : List (List ℕ) → List ℕ
concat [] = []
concat (n ∷ ns) = n ++ concat ns

-- Behind the two tests, the memory that is copied is the units'; `none` is a fault, a copy beyond the buffer.
unfoldable pub store_packet : Encoded → Output → Option (Output × Rc)
store_packet failed out = some (out, err eio)
store_packet (packet size nals keyframe) out =
    if size == 0
    then some (record out { size = 0 }, ok tt)
    else if ltb out.size size
    then some (out, err enospc)
    else if ltb out.size (length (concat nals))
    then none
    else some (record out { bytes = concat nals; size = size; flags = key_flags keyframe }, ok tt)

-- The bytes of one NV12 picture: the plane of the brightness, and half as many lines of the colours.
abbrev pub picture_bytes : Format → ℕ
picture_bytes f = f.width * f.height + f.width * (f.height / 2)

abbrev pub with_pts : Priv → Option (Output × Rc) → Option (Priv × Output × Rc)
with_pts p none = none
with_pts p (some (out, rc)) = some (p, out, rc)

-- The encoder's answer is for the presentation time before the increment. `none` is a fault: the encoder reads a
-- whole picture from the input, which may be shorter.
unfoldable pub encode_h264 : X264 → Priv → ℕ → List ℕ → Output → Option (Priv × Output × Rc)
unfolding store_packet
encode_h264 x p e bytes out =
    if ltb (length bytes) (picture_bytes p.fmt)
    then none
    else with_pts (record p { pts = p.pts + 1 }) (store_packet (x.encoder_encode e p.pts bytes) out)

-- What follows an encoding, by its result.
unfoldable pub finish_encode : Input → Priv × Output × Rc → Priv × Output × Rc
finish_encode inp (p, out, err e) = (p, out, err e)
finish_encode inp (p, out, ok _) = (
  record p { seq = u32 (p.seq + 1) },
  record out {
    offset = 0;
    timestamp_ns = inp.timestamp_ns;
    flags = (if inp.eos then record (out.flags) { eos = true } else out.flags);
  },
  ok tt,
)

abbrev pub finished : Input → Option (Priv × Output × Rc) → Option (Priv × Output × Rc)
unfolding finish_encode
finished inp none = none
finished inp (some r) = some (finish_encode inp r)

-- `none` is a fault: the null encoder is handed to x264, or one of encode_h264.
unfoldable pub encode_with :
    X264 → Priv → Input → List ℕ → Output → Option ℕ → Option (Priv × Output × Rc)
unfolding finish_encode encode_h264
encode_with x p inp bytes out none = none
encode_with x p inp bytes out (some e) = finished inp (encode_h264 x p e bytes out)

unfoldable pub encode_bytes : X264 → Priv → Input → List ℕ → Output → Option (Priv × Output × Rc)
unfolding finish_encode encode_with encode_raw
encode_bytes x p inp bytes out =
    if p.fmt.codec == codec_h264
    then encode_with x p inp bytes out p.enc
    else (let (out', rc) = encode_raw p bytes out in some (finish_encode inp (p, out', rc)))

unfoldable pub encode_data :
    X264 → Priv → Input → Option (List ℕ) → Output → Option (Priv × Output × Rc)
unfolding encode_bytes
encode_data x p inp none out = some (p, out, err einval)
encode_data x p inp (some bytes) out =
    if not out.has_data
    then some (p, out, err einval)
    else if not p.encoding
    then some (p, out, err einval)
    else encode_bytes x p inp bytes out

-- The buffers themselves are given; their data may be null.
unfoldable pub host_codec_encode : X264 → Priv → Input → Output → Option (Priv × Output × Rc)
unfolding encode_data
host_codec_encode x p inp out = encode_data x p inp inp.bytes out

unfoldable pub decode_data : Priv → Input → Option (List ℕ) → Output → Output × Rc
decode_data p inp none out = (out, err einval)
decode_data p inp (some bytes) out =
    if not out.has_data
    then (out, err einval)
    else if not p.encoding
    then (out, err einval)
    else if not (p.fmt.codec == codec_raw)
    then (out, err enotsup)
    else if ltb out.size (length bytes)
    then (out, err enospc)
    else (
      record out {
        bytes = bytes;
        size = length bytes;
        offset = 0;
        timestamp_ns = inp.timestamp_ns;
      },
      ok tt,
    )

unfoldable pub host_codec_decode : Priv → Input → Output → Output × Rc
unfolding decode_data
host_codec_decode p inp out = decode_data p inp inp.bytes out
