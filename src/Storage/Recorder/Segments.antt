-- ===== src/Storage/Recorder/Segments.antt =====
-- SvcKit/subsystems/storage/src/core/storage_manager.cpp: the segments of a recorder.
use dark_os_svc_kit.Common.{
  ℕ, ◌<◌, ◌≡◌, refl, Bool, true, false, not, ◌&&◌, ◌||◌, ◌==◌, if◌then◌else◌, some, List, [], ◌∷◌,
  length, All, Text, ◌≢◌, ◌⊎◌, inl, inr, subst, sym, ◌∙◌, Rc, Errno, err, einval, eproto, eshutdown,
  is_ok, ok, arith,
}
use dark_os_svc_kit.Storage.{Codec, same_codec, State, cleanup}
use dark_os_svc_kit.Storage.Recorder.{
  Packet, Recorder, Disk, finish_segment, open_segment, write_packet, continue_with, consume,
  needs_keyframe,
}

-- The packets of the file that is open, the last one first, seen from outside: a file begins when the manager's sequence
-- number moves on, and a packet is of it when it is accepted while a file is open.
abbrev pub logged : State → Packet → Recorder × State × Rc → List Packet → List Packet
logged before p x log =
    let file = (if x.1.sequence == before.sequence then log else []) in
    if is_ok x.2 && x.0.is_open then p ∷ file else file

-- The first packet of a file is a key frame or of a codec that needs none.
abbrev pub begins_with_key : List Packet → Bool
begins_with_key [] = true
begins_with_key (p ∷ []) = p.keyframe || not (needs_keyframe p.codec)
begins_with_key (p ∷ q ∷ ps) = begins_with_key (q ∷ ps)

-- A file that is open: all its packets are of its codec, the first one is a key frame if it must be, and there is one
-- unless a write has failed.
abbrev pub OneFile : Recorder → List Packet → Type 0
OneFile r log =
    All (λ (q : Packet). same_codec r.current.codec q.codec ≡ true) log
    × (begins_with_key log ≡ true)
    × (r.failed ≡ false → 0 < length log)

abbrev pub InFile : Recorder → List Packet → Type 0
InFile r log = r.is_open ≡ true → OneFile r log

same_codec_refl : (c : Codec) → same_codec c c ≡ true
same_codec_refl c = ground arith

-- A packet behind those of a file, if it is accepted.
abbrev behind : Packet → Recorder × State × Rc → List Packet → List Packet
behind p x file = if is_ok x.2 && x.0.is_open then p ∷ file else file

abbrev AllOf : Codec → List Packet → Type 0
AllOf c file = All (λ (q : Packet). same_codec c q.codec ≡ true) file

-- What a write leaves alone, and how it ends.
Written : Recorder → State → Recorder × State × Rc → Type 0
Written r s x =
    (x.0.is_open ≡ r.is_open)
    × (x.0.current.codec ≡ r.current.codec)
    × (x.1.sequence ≡ s.sequence)
    × (((is_ok x.2 ≡ true) × (r.failed ≡ false)) ⊎ ((is_ok x.2 ≡ false) × (x.0.failed ≡ true)))

write_packet-Written :
    (d : Disk) (p : Packet) (r : Recorder) (s : State) → Written r s (write_packet d p r s)
unfolding write_packet Written
write_packet-Written d p r s = ground arith

Written-OneFile :
    (p : Packet) (r : Recorder) (s : State) (file : List Packet) (x : Recorder × State × Rc)
    → Written r s x
    → r.is_open ≡ true
    → same_codec r.current.codec p.codec ≡ true
    → AllOf r.current.codec file
    → begins_with_key file ≡ true
    → (r.failed ≡ false → begins_with_key (p ∷ file) ≡ true)
    → OneFile x.0 (behind p x file)
unfolding Written
Written-OneFile p r s file (r', s', rc) (open', codec, seq, how) o e all key first =
    subst
      (λ c.
        (AllOf c (behind p (r', s', rc) file))
        × (begins_with_key (behind p (r', s', rc) file) ≡ true)
        × (r'.failed ≡ false → 0 < length (behind p (r', s', rc) file)))
      (sym codec)
      (elim how [
        | inl (fine, sound) ↦ rw fine (rw (open' ∙ o) ((e, all), first sound, λ g. omega arith))
        | inr (bad, broken) ↦ rw bad (all, key, λ g. absurd cc)
      ])

logged-same :
    (before : State) (p : Packet) (x : Recorder × State × Rc) (log : List Packet)
    → x.1.sequence ≡ before.sequence
    → logged before p x log ≡ behind p x log
logged-same before p x log e = ground (arith, e)

logged-new :
    (before : State) (p : Packet) (x : Recorder × State × Rc) (log : List Packet)
    → x.1.sequence ≢ before.sequence
    → logged before p x log ≡ behind p x []
logged-new before p x log n = ground (arith, n)

begins-cons :
    (p : Packet) (log : List Packet)
    → begins_with_key log ≡ true
    → 0 < length log
    → begins_with_key (p ∷ log) ≡ true
begins-cons p [] e l = absurd (omega arith)
begins-cons p (q ∷ log) e l = e

-- A write to a file that was open before, and one to a file that was just opened.
write_open :
    (d : Disk) (p : Packet) (r : Recorder) (before s : State) (log : List Packet)
    → s.sequence ≡ before.sequence
    → same_codec r.current.codec p.codec ≡ true
    → r.is_open ≡ true
    → OneFile r log
    → OneFile (write_packet d p r s).0 (logged before p (write_packet d p r s) log)
unfolding Written
write_open d p r before s log e c o h =
    let w = write_packet-Written d p r s in
    subst (OneFile (write_packet d p r s).0)
      (sym (logged-same before p (write_packet d p r s) log (w.2 ∙ e)))
      (Written-OneFile p r s log (write_packet d p r s) w o c h.0 h.1
        (λ g. begins-cons p log h.1 (h.2 g)))

write_new :
    (d : Disk) (p : Packet) (r : Recorder) (before s : State) (log : List Packet)
    → s.sequence ≢ before.sequence
    → same_codec r.current.codec p.codec ≡ true
    → r.is_open ≡ true
    → (p.keyframe || not (needs_keyframe p.codec)) ≡ true
    → OneFile (write_packet d p r s).0 (logged before p (write_packet d p r s) log)
unfolding Written
write_new d p r before s log n c o k =
    let w = write_packet-Written d p r s in
    subst (OneFile (write_packet d p r s).0)
      (sym (logged-new before p (write_packet d p r s) log (λ g. n (sym w.2 ∙ g))))
      (Written-OneFile p r s [] (write_packet d p r s) w o c tt refl (λ g. k))

key_of : (k n : Bool) → (not k && n) ≡ false → (k || not n) ≡ true
key_of true n f = refl
key_of false true f = absurd cc
key_of false false f = refl

-- What opening a file gives.
Opened : Packet → State → Recorder × State × Rc → Type 0
Opened p before x =
    (x.1.sequence ≢ before.sequence)
    × (same_codec x.0.current.codec p.codec ≡ true)
    × (x.0.is_open ≡ is_ok x.2)

open_segment-Opened :
    (decimal : ℕ → Text) (d : Disk) (p : Packet) (r : Recorder) (before s : State)
    → s.sequence ≡ before.sequence
    → Opened p before (open_segment decimal d p r s)
unfolding open_segment Opened
open_segment-Opened decimal d p r before s e =
    (λ f. ground (arith, e, f), same_codec_refl p.codec, ground arith)

continue_with-InFile :
    (decimal : ℕ → Text) (d : Disk) (p : Packet) (r : Recorder) (before s : State)
    (log : List Packet)
    → s.sequence ≡ before.sequence
    → (r.is_open ≡ true → same_codec r.current.codec p.codec ≡ true)
    → InFile r log
    → (let x = continue_with decimal d p r s in InFile x.0 (logged before p x log))
unfolding continue_with Opened
continue_with-InFile decimal d p r before s log e c h =
    go r.is_open refl (not p.keyframe && needs_keyframe p.codec) refl (open_segment decimal d p r s)
      (open_segment-Opened decimal d p r before s e)
  where
    go :
        (o : Bool)
        → r.is_open ≡ o
        → (skips : Bool) → (not p.keyframe && needs_keyframe p.codec) ≡ skips
        → (opened : Recorder × State × Rc) → Opened p before opened
        → (let x : Recorder × State × Rc =
              (if o
                then write_packet d p r s
                else if skips
                then (r, s, ok tt)
                else elim (opened.2) [
                  | err q ↦ (opened.0, opened.1, err q)
                  | ok u ↦ write_packet d p opened.0 opened.1
                ]) in
            InFile x.0 (logged before p x log))
    go true f skips g opened w = λ t. write_open d p r before s log e (c f) f (h f)
    go false f true g opened w = λ t. absurd cc
    go false f false g (r', s', err q) (n, same, w) = λ t. absurd cc
    go false f false g (r', s', ok u) (n, same, w) =
        λ t. write_new d p r' before s' log n same w (key_of p.keyframe (needs_keyframe p.codec) g)

-- What the end of a segment leaves: no file is open, and the sequence number is the same.
unfoldable pub Ended : State → Recorder × State × Rc → Type 0
Ended s x = (x.0.is_open ≡ false) × (x.1.sequence ≡ s.sequence)

pub finish_segment-Ended : (d : Disk) (r : Recorder) (s : State) → Ended s (finish_segment d r s)
unfolding finish_segment Ended cleanup
finish_segment-Ended d r s = ground arith

pub consume-InFile :
    (decimal : ℕ → Text) (d : Disk) (p : Packet) (r : Recorder) (s : State) (log : List Packet)
    → InFile r log
    → (let x = consume decimal d (some p) r s in InFile x.0 (logged s p x log))
unfolding consume Ended
consume-InFile decimal d p r s log h =
    go (p.size == 0) r.running (r.is_open && not (same_codec r.current.codec p.codec)) refl
      (r.is_open && r.rotate_pending && p.keyframe) (finish_segment d r s)
      (finish_segment-Ended d r s)
  where
    refused : (e : Errno) → InFile r (logged s p (r, s, err e) log)
    refused e = subst (InFile r) (sym (logged-same s p (r, s, err e) log refl)) h

    agrees : (o c : Bool) → (o && not c) ≡ false → o ≡ true → c ≡ true
    agrees true true f g = refl
    agrees true false f g = absurd cc
    agrees false c f g = absurd cc

    go :
        (empty running mixed : Bool)
        → (r.is_open && not (same_codec r.current.codec p.codec)) ≡ mixed
        → (rotates : Bool) (ended : Recorder × State × Rc) → Ended s ended
        → (let x : Recorder × State × Rc =
              (if empty
                then (r, s, err einval)
                else if not running
                then (r, s, err eshutdown)
                else if mixed
                then (r, s, err eproto)
                else if rotates
                then elim (ended.2) [
                  | err e ↦ (ended.0, ended.1, err e)
                  | ok x ↦ continue_with decimal d p ended.0 ended.1
                ]
                else continue_with decimal d p r s) in
            InFile x.0 (logged s p x log))
    go true running mixed f rotates ended w = refused einval
    go false false mixed f rotates ended w = refused eshutdown
    go false true true f rotates ended w = refused eproto
    go false true false f true (r', s', err e) w = λ t. absurd cc
    go false true false f true (r', s', ok u) w =
        continue_with-InFile decimal d p r' s s' log w.1 (λ t. absurd cc) (λ t. absurd cc)
    go false true false f false ended w =
        continue_with-InFile decimal d p r s s log refl
          (agrees r.is_open (same_codec r.current.codec p.codec) f) h
