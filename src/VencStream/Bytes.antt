-- ===== src/VencStream/Bytes.antt =====
-- platform/vendors/visinextek/common/vs_venc_stream.c: which bytes the copying loops write.
use mathlib.Core.List.{append_assoc, append-nil}
use dark_os_svc_kit.Common.{
  ℕ, ◌+◌, ◌-◌, ◌≤◌, ◌<◌, ◌≡◌, refl, ap, sym, ◌∙◌, Bool, true, false, ◌||◌, Option, none, some, List,
  [], ◌∷◌, ◌++◌, ltb, if◌then◌else◌, take, arith,
}
use dark_os_svc_kit.Common.Words.{u32}
use dark_os_svc_kit.VencStream.{
  Info, Pack, Write, slice, copy_segments, copy_rest, copy_pack, copy_packs,
}
use dark_os_svc_kit.VencStream.Copy.{total}

-- The bytes of some writes, one after another.
abbrev pub written : List Write → List ℕ
written [] = []
written (w ∷ ws) = w.bytes ++ written ws

-- The bytes that a pack hands out: its segments, and the rest of its length from its own offset on.
abbrev pub segments_bytes : (ℕ → ℕ) → List Info → List ℕ
segments_bytes memory [] = []
segments_bytes memory (i ∷ is) = slice memory i.pack_offset i.pack_len ++ segments_bytes memory is

abbrev pub segments_length : List Info → ℕ
segments_length [] = 0
segments_length (i ∷ is) = i.pack_len + segments_length is

abbrev pub pack_bytes : Pack → List ℕ
pack_bytes p =
    let is = take p.data_num p.infos in
    segments_bytes p.memory is ++ slice p.memory p.offset (p.length - segments_length is)

abbrev pub stream_bytes : List Pack → List ℕ
stream_bytes [] = []
stream_bytes (p ∷ ps) = pack_bytes p ++ stream_bytes ps

written-append : (ws us : List Write) → written (ws ++ us) ≡ written ws ++ written us
written-append [] us = refl
written-append (w ∷ ws) us =
    ap (λ x. w.bytes ++ x) (written-append ws us)
    ∙ sym (append_assoc w.bytes (written ws) (written us))

copy_segments-written :
    (p : Pack) (copied segmented end : ℕ) (is : List Info)
    → p.length < 4294967296
    → segmented ≤ p.length
    → (copy_segments p copied segmented is).2 ≡ some end
    → (written (copy_segments p copied segmented is).0 ≡ segments_bytes p.memory is)
      × (end ≡ segmented + segments_length is)
unfolding copy_segments
copy_segments-written p copied segmented end [] l s e = (refl, ground arith)
copy_segments-written p copied segmented end (i ∷ is) l s e =
    ground (arith, copy_segments-written p copied (u32 (segmented + i.pack_len)) end is l)

copy_rest-written :
    (p : Pack) (copied n : ℕ) (bs : List ℕ) (r : List Write × Bool × Option ℕ)
    → ((end : ℕ) → r.2 ≡ some end → (written r.0 ≡ bs) × (end ≡ n))
    → (copy_rest p copied r).2 ≡ true
    → written (copy_rest p copied r).0 ≡ bs ++ slice p.memory p.offset (p.length - n)
unfolding copy_rest
copy_rest-written p copied n bs (ws, key, none) h e = absurd cc
copy_rest-written p copied n bs (ws, key, some s) h e =
    let (same, ends) = h s refl in
    written-append ws _
    ∙ (λ i. same i ++ append-nil (slice p.memory p.offset (p.length - ends i)) i)

pub copy_packs-written :
    (m : ℕ) (ps : List Pack) (copied : ℕ)
    → total ps < 4294967296
    → (copy_packs m ps copied).2 ≡ true
    → written (copy_packs m ps copied).0 ≡ stream_bytes ps
unfolding copy_packs copy_pack
copy_packs-written m [] copied l e = refl
copy_packs-written m (p ∷ ps) copied l e =
    go (ltb m p.data_num) (copy_rest p copied (copy_segments p copied 0 (take p.data_num p.infos)))
      (copy_packs m ps (u32 (copied + p.length)))
      (copy_rest-written p copied (segments_length (take p.data_num p.infos))
        (segments_bytes p.memory (take p.data_num p.infos))
        (copy_segments p copied 0 (take p.data_num p.infos))
        (λ end f.
          let (same, ends) =
            copy_segments-written p copied 0 end (take p.data_num p.infos) (omega arith)
              (omega arith) f in
          (same, omega (arith, ends))))
      (copy_packs-written m ps (u32 (copied + p.length)) (omega arith)) e
  where
    go :
        (b : Bool) (r q : List Write × Bool × Bool)
        → (r.2 ≡ true → written r.0 ≡ pack_bytes p)
        → (q.2 ≡ true → written q.0 ≡ stream_bytes ps)
        → (let x : List Write × Bool × Bool = (if b then ([], false, false) else r) in
            (let y : List Write × Bool × Bool =
                (if x.2 then (x.0 ++ q.0, x.1 || q.1, q.2) else (x.0, x.1, false)) in
              y.2 ≡ true → written y.0 ≡ pack_bytes p ++ stream_bytes ps))
    go true r q h k f = absurd cc
    go false (ws, key, false) q h k f = absurd cc
    go false (ws, key, true) (us, key', went) h k f =
        written-append ws us ∙ (λ i. h refl i ++ k f i)
