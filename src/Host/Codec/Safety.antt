-- ===== src/Host/Codec/Safety.antt =====
-- When an encoder is open, and what happens when the format changes under a running device.
use dark_os_svc_kit.Common.{
  ltb, length, ◌≤◌, le→ltb_false, ℕ, ◌+◌, ◌≡◌, refl, subst, Bool, true, false, not, Option, none,
  some, List, arith, ◌==◌, if◌then◌else◌, is_none, Rc, ok, err, einval,
}
use dark_os_svc_kit.Hardware.Version.{Device}
use dark_os_svc_kit.Host.Codec.Types.{
  codec_h264, Encoded, failed, packet, Format, Input, Output, X264, Priv, State,
}
use dark_os_svc_kit.Host.Codec.Control.{
  host_codec_set_format, host_codec_start, host_codec_stop, host_codec_flush,
  host_codec_set_rc_param, host_codec_close, initial,
}
use dark_os_svc_kit.Host.Codec.Encode.{
  concat, picture_bytes, with_pts, finished, store_packet, encode_h264, encode_raw, finish_encode,
  encode_with, encode_bytes, encode_data, host_codec_encode,
}

-- A device that encodes H.264 has an encoder, one that is stopped has none, and the library holds this
-- one at most, beside `others` of other devices.
pub record Inv (others : ℕ) (s : State) : Type 0 where
  pub ready : s.priv.encoding ≡ true → s.priv.fmt.codec ≡ codec_h264 → is_none s.priv.enc ≡ false
  pub idle : s.priv.encoding ≡ false → s.priv.enc ≡ none
  pub counted : s.encoders ≡ others + (if is_none s.priv.enc then 0 else 1)

start-Inv : (others : ℕ) (x : X264) (s : State) → Inv others s → Inv others (host_codec_start x s).0
unfolding host_codec_start
start-Inv others x s inv = ground arith

stop-Inv : (others : ℕ) (s : State) → Inv others s → Inv others (host_codec_stop s)
unfolding host_codec_stop
stop-Inv others s inv = ground arith

-- The format is only replaced while the device is stopped.
set_format-Inv :
    (others : ℕ) (s : State) (o : Option Format)
    → s.priv.encoding ≡ false
    → Inv others s
    → Inv others (record s { priv = (host_codec_set_format s.priv o).0 })
unfolding host_codec_set_format
set_format-Inv others s none off inv = record {
  ready = inv.ready;
  idle = inv.idle;
  counted = inv.counted;
}
set_format-Inv others s (some f) off inv = ground arith

-- What an encoding leaves alone in the device's state.
pub record Keeps (p q : Priv) : Type 0 where
  pub enc : q.enc ≡ p.enc
  pub encoding : q.encoding ≡ p.encoding
  pub fmt : q.fmt ≡ p.fmt

-- A call that returns keeps what an encoding leaves alone.
abbrev Kept : Priv → Option (Priv × Output × Rc) → Type 0
Kept p none = Unit
Kept p (some (q, out, rc)) = Keeps p q

-- A call that returns, and keeps what an encoding leaves alone.
abbrev pub Returns : Priv → Option (Priv × Output × Rc) → Type 0
Returns p none = ⊥
Returns p (some (q, out, rc)) = Keeps p q

Kept-Returns :
    (p : Priv) (o : Option (Priv × Output × Rc)) → Kept p o → is_none o ≡ false → Returns p o
Kept-Returns p none k e = absurd cc
Kept-Returns p (some r) k e = k

same : (p : Priv) → Keeps p p
same p = record { enc = refl; encoding = refl; fmt = refl }

finish_encode-Kept :
    (p q : Priv) (inp : Input) (out : Output) (rc : Rc)
    → Keeps p q
    → Kept p (some (finish_encode inp (q, out, rc)))
unfolding finish_encode
finish_encode-Kept p q inp out (ok _) k = record { enc = k.enc; encoding = k.encoding; fmt = k.fmt }
finish_encode-Kept p q inp out (err e) k = k

encode_with-Kept :
    (x : X264) (p : Priv) (inp : Input) (bytes : List ℕ) (out : Output) (enc : Option ℕ)
    → Kept p (encode_with x p inp bytes out enc)
unfolding encode_with encode_h264
encode_with-Kept x p inp bytes out none = tt
encode_with-Kept x p inp bytes out (some c) =
    go (ltb (length bytes) (picture_bytes p.fmt))
      (store_packet (x.encoder_encode c p.pts bytes) out)
  where
    go :
        (b : Bool) (o : Option (Output × Rc))
        → Kept p (finished inp (if b then none else with_pts (record p { pts = p.pts + 1 }) o))
    go true o = tt
    go false none = tt
    go false (some (out', rc)) =
        finish_encode-Kept p (record p { pts = p.pts + 1 }) inp out' rc
          (record { enc = refl; encoding = refl; fmt = refl })

encode_bytes-Kept :
    (x : X264) (p : Priv) (inp : Input) (bytes : List ℕ) (out : Output)
    → Kept p (encode_bytes x p inp bytes out)
unfolding encode_bytes
encode_bytes-Kept x p inp bytes out = go (p.fmt.codec == codec_h264)
  where
    go :
        (h264 : Bool)
        → Kept p (
            if h264
            then encode_with x p inp bytes out p.enc
            else some
                (finish_encode inp (p, (encode_raw p bytes out).0, (encode_raw p bytes out).1)))
    go true = encode_with-Kept x p inp bytes out p.enc
    go false =
        finish_encode-Kept p p inp (encode_raw p bytes out).0 (encode_raw p bytes out).1 (same p)

encode_data-Kept :
    (x : X264) (p : Priv) (inp : Input) (o : Option (List ℕ)) (out : Output)
    → Kept p (encode_data x p inp o out)
unfolding encode_data
encode_data-Kept x p inp none out = same p
encode_data-Kept x p inp (some bytes) out = go out.has_data p.encoding
  where
    go :
        (writable running : Bool)
        → Kept p (
            if not writable
            then some (p, out, err einval)
            else if not running
            then some (p, out, err einval)
            else encode_bytes x p inp bytes out)
    go false running = same p
    go true false = same p
    go true true = encode_bytes-Kept x p inp bytes out

-- What x264 documents: the size it gives is that of its units together.
abbrev pub Sized : Encoded → Type 0
Sized failed = Unit
Sized (packet size nals keyframe) = length (concat nals) ≡ size

-- The input holds a whole picture.
abbrev pub Covers : Format → Option (List ℕ) → Type 0
Covers f none = Unit
Covers f (some bytes) = picture_bytes f ≤ length bytes

store_packet-stored : (e : Encoded) (out : Output) → Sized e → is_none (store_packet e out) ≡ false
unfolding store_packet
store_packet-stored failed out h = refl
store_packet-stored (packet size nals keyframe) out h = ground arith

encode_with-returned :
    (x : X264) (p : Priv) (inp : Input) (bytes : List ℕ) (out : Output) (enc : Option ℕ)
    → ((e pts : ℕ) (bs : List ℕ) → Sized (x.encoder_encode e pts bs))
    → Covers p.fmt (some bytes)
    → is_none enc ≡ false
    → is_none (encode_with x p inp bytes out enc) ≡ false
unfolding encode_with encode_h264
encode_with-returned x p inp bytes out none sized covers e = cc
encode_with-returned x p inp bytes out (some c) sized covers e = rw (le→ltb_false _ _ covers) (
    go (store_packet (x.encoder_encode c p.pts bytes) out)
      (store_packet-stored (x.encoder_encode c p.pts bytes) out (sized c p.pts bytes)))
  where
    go :
        (o : Option (Output × Rc))
        → is_none o ≡ false
        → is_none (finished inp (with_pts (record p { pts = p.pts + 1 }) o)) ≡ false
    go none h = cc
    go (some r) h = refl

encode_data-returned :
    (x : X264) (p : Priv) (inp : Input) (o : Option (List ℕ)) (out : Output)
    → ((e pts : ℕ) (bs : List ℕ) → Sized (x.encoder_encode e pts bs))
    → (p.fmt.codec ≡ codec_h264 → Covers p.fmt o)
    → (p.encoding ≡ true → p.fmt.codec ≡ codec_h264 → is_none p.enc ≡ false)
    → is_none (encode_data x p inp o out) ≡ false
unfolding encode_data encode_bytes
encode_data-returned x p inp none out sized covers ready = refl
encode_data-returned x p inp (some bytes) out sized covers ready =
    ground (arith, encode_with-returned x p inp bytes out p.enc sized)

-- A client that changes the format of a stopped device alone; its other calls come in any order and
-- with any arguments.
pub data Step (x : X264) : State → State → Type 0 where
  starts : {s : State} → Step x s (host_codec_start x s).0
  stops : {s : State} → Step x s (host_codec_stop s)
  sets_format :
      {s : State} (o : Option Format)
      → s.priv.encoding ≡ false
      → Step x s (record s { priv = (host_codec_set_format s.priv o).0 })
  flushes : {s : State} → Step x s (record s { priv = host_codec_flush s.priv })
  sets_rate :
      {s : State} (rate : ℕ) → Step x s (record s { priv = host_codec_set_rc_param s.priv rate })
  encodes :
      {s : State} {q : Priv} (inp : Input) (out out' : Output) (rc : Rc)
      → host_codec_encode x s.priv inp out ≡ some (q, out', rc)
      → Step x s (record s { priv = q })

pub data Reach (x : X264) (s : State) : State → Type 0 where
  here : Reach x s s
  next : {t u : State} → Reach x s t → Step x t u → Reach x s u

encode-Keeps :
    (x : X264) (s : State) (inp : Input) (out : Output)
    → Kept s.priv (host_codec_encode x s.priv inp out)
unfolding host_codec_encode
encode-Keeps x s inp out = encode_data-Kept x s.priv inp inp.bytes out

Keeps-Inv :
    (others : ℕ) (s : State) (q : Priv)
    → Inv others s
    → Keeps s.priv q
    → Inv others (record s { priv = q })
Keeps-Inv others s q inv k = ground arith

Step-Inv : {x : X264} {s t : State} (others : ℕ) → Step x s t → Inv others s → Inv others t
unfolding host_codec_flush host_codec_set_rc_param
Step-Inv {x} {s} others starts inv = start-Inv others x s inv
Step-Inv {x} {s} others stops inv = stop-Inv others s inv
Step-Inv {x} {s} others (sets_format o off) inv = set_format-Inv others s o off inv
Step-Inv {x} {s} others flushes inv =
    Keeps-Inv others s _ inv (record { enc = refl; encoding = refl; fmt = refl })
Step-Inv {x} {s} others (sets_rate rate) inv = record {
  ready = inv.ready;
  idle = inv.idle;
  counted = inv.counted;
}
Step-Inv {x} {s} others (encodes {q = q} inp out out' rc h) inv =
    Keeps-Inv others s q inv (subst (Kept s.priv) h (encode-Keeps x s inp out))

Reach-Inv : {x : X264} {s t : State} (others : ℕ) → Reach x s t → Inv others s → Inv others t
Reach-Inv others here inv = inv
Reach-Inv others (next r st) inv = Step-Inv others st (Reach-Inv others r inv)

abbrev pub fresh : ℕ → State
fresh others = record { priv = initial; encoders = others }

fresh-Inv : (others : ℕ) → Inv others (fresh others)
fresh-Inv others = ground arith

-- From a fresh device, for a client that changes the format only while the device is stopped: when x264's sizes are
-- those of its units, an encoding whose input holds a whole picture, if the codec is H.264, always returns, without a
-- null encoder, a read beyond the input or a write beyond the output. And stopping gives every encoder back to the
-- library.
pub encode-Returns :
    (x : X264) (others : ℕ) (s : State) (inp : Input) (out : Output)
    → ((e pts : ℕ) (bs : List ℕ) → Sized (x.encoder_encode e pts bs))
    → (s.priv.fmt.codec ≡ codec_h264 → Covers s.priv.fmt inp.bytes)
    → Reach x (fresh others) s
    → Returns s.priv (host_codec_encode x s.priv inp out) × ((host_codec_stop s).encoders ≡ others)
unfolding host_codec_stop host_codec_encode
encode-Returns x others s inp out sized covers r =
    let inv = Reach-Inv others r (fresh-Inv others) in
    (
      Kept-Returns s.priv _ (encode_data-Kept x s.priv inp inp.bytes out)
          (encode_data-returned x s.priv inp inp.bytes out sized covers inv.ready),
      ground (arith, inv.counted),
    )

-- The format of a running device can be replaced all the same: a device that copies frames and is given
-- a valid H.264 format passes the null encoder to x264 at the next frame.
pub set_format_while_running :
    (x : X264) (p : Priv) (f : Format) (inp : Input) (bytes : List ℕ) (out : Output)
    → p.encoding ≡ true
    → p.enc ≡ none
    → f.codec ≡ codec_h264
    → (host_codec_set_format p (some f)).1 ≡ ok tt
    → inp.bytes ≡ some bytes
    → out.has_data ≡ true
    → host_codec_encode x (host_codec_set_format p (some f)).0 inp out ≡ none
unfolding host_codec_encode encode_bytes encode_with host_codec_set_format
set_format_while_running x p f inp bytes out running no_encoder h264 accepted given writable =
    ground arith

-- Closing a device that was started for H.264 and not stopped frees its blocks and leaves its encoder
-- open in the library.
pub close_leaks_encoder :
    (x : X264) (s t : State) (d : Device Priv) (live : ℕ)
    → s.priv.fmt.codec ≡ codec_h264
    → host_codec_start x s ≡ (t, ok tt)
    → d.priv ≡ t.priv
    → (host_codec_close (some d) live t.encoders).0.1 ≡ s.encoders + 1
unfolding host_codec_start host_codec_close
close_leaks_encoder x s t d live h264 started same_state = ground arith
