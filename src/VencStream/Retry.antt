-- ===== src/VencStream/Retry.antt =====
-- platform/vendors/visinextek/common/vs_venc_stream.c: the packet that success and ENOSPC leave, seen from the
-- stream that the vendor's library handed out.
use dark_os_svc_kit.Common.{
  ℕ, ◌+◌, ◌<◌, ltb→lt, sym, subst, ap, ◌∙◌, ◌≡◌, ◌≢◌, refl, Bool, true, false, ◌||◌, Option, none,
  some, List, [], ◌∷◌, ltb, if◌then◌else◌, Errno, Rc, ok, err, enospc, einval, eio, eoverflow,
  arith, take,
}
use dark_os_svc_kit.Common.Int.{ℤ}
use dark_os_svc_kit.Common.Words.{u32}
use dark_os_svc_kit.VencStream.{
  Pack, Packet, Write, Vendor, Info, sum_lengths, copy_segments, copy_rest, copy_pack, copy_packs,
  copied_behind, copy_stream, take_stream, refused, checked_vendor, vs_venc_packet_acquire,
}
use dark_os_svc_kit.VencStream.Copy.{total, sum_lengths-total, copied_behind-total}
use dark_os_svc_kit.VencStream.Bytes.{written, stream_bytes, copy_packs-written}
use dark_os_svc_kit.VencStream.Laws.{checked_vendor-≢, Outcome, vs_venc_packet_acquire-Outcome}

any_info : List Info → Bool
any_info [] = false
any_info (i ∷ is) = i.key || any_info is

-- One of the packs is a key slice by itself or has such a segment.
pub any_key : List Pack → Bool
unfolding any_info
any_key [] = false
any_key (p ∷ ps) = (any_info (take p.data_num p.infos) || p.key) || any_key ps

from_stream :
    (v : Vendor) (p p' : Packet) (timeout_ms : ℤ) (ws : List Write) (rc : Rc)
    → vs_venc_packet_acquire v (some p) timeout_ms ≡ (some p', ws, rc)
    → rc ≢ err einval
    → ((e : Errno) → checked_vendor v ≡ err e → rc ≢ err e)
    → take_stream v p v.stream ≡ (p', ws, rc)
unfolding vs_venc_packet_acquire
from_stream v p p' timeout_ms ws rc h n m =
    go (refused p timeout_ms) (checked_vendor v) refl (take_stream v p v.stream) h
  where
    go :
        (b : Bool) (c : Rc)
        → checked_vendor v ≡ c
        → (r : Packet × List Write × Rc)
        → ◌≡◌ {A = Option Packet × List Write × Rc}
            (if b
              then (some p, [], err einval)
              else elim c [ err e ↦ (some p, [], err e) | ok t ↦ (some r.0, r.1, r.2) ])
            (some p', ws, rc)
        → r ≡ (p', ws, rc)
    go true c e r k = absurd (n cc)
    go false (err x) e r k = absurd (m x e cc)
    go false (ok t) e r k = cc

-- What the stream was, when the packet is asked to grow.
Grown : Vendor → Packet → Packet → Type 0
Grown v p p' =
    (ps : List Pack) × (v.stream ≡ some ps) × (sum_lengths ps 0 ≡ some p'.size) × (p.size < p'.size)

take_stream-Grown :
    (v : Vendor) (p p' : Packet) (ws : List Write) (stream : Option (List Pack))
    → v.stream ≡ stream
    → take_stream v p stream ≡ (p', ws, err enospc)
    → Grown v p p'
unfolding take_stream copy_stream Grown
take_stream-Grown v p p' ws none e h = cc
take_stream-Grown v p p' ws (some ps) e h = go (sum_lengths ps 0) refl h
  where
    copied :
        (b : Bool) (n : ℕ) (r : List Write × Bool × Bool) (a c : Packet)
        → ltb p.size n ≡ b
        → sum_lengths ps 0 ≡ some n
        → ◌≡◌ {A = Packet × List Write × Rc}
            (if b
              then (record p { size = n }, [], err enospc)
              else (if r.2 then (a, r.0, ok tt) else (c, r.0, err eio)))
            (p', ws, err enospc)
        → Grown v p p'
    copied true n r a c f g k =
        let size : p'.size ≡ n = sym (ap (λ (x : Packet × List Write × Rc). x.0.size) k) in
        (ps, e, g ∙ ap some (sym size), subst (λ x. p.size < x) (sym size) (ltb→lt _ _ f))
    copied false n (us, q, true) a c f g k = cc
    copied false n (us, q, false) a c f g k = cc

    go :
        (o : Option ℕ)
        → sum_lengths ps 0 ≡ o
        → ◌≡◌ {A = Packet × List Write × Rc}
            (elim o [
              | none ↦ (p, [], err eoverflow)
              | some required ↦ copy_stream v.max_nalu_num ps p required
            ])
            (p', ws, err enospc)
        → Grown v p p'
    go none f k = cc
    go (some n) f k = copied (ltb p.size n) n (copy_packs v.max_nalu_num ps 0) _ _ refl f k

acquire-Grown :
    (v : Vendor) (p p' : Packet) (timeout_ms : ℤ) (ws : List Write)
    → vs_venc_packet_acquire v (some p) timeout_ms ≡ (some p', ws, err enospc)
    → Grown v p p'
acquire-Grown v p p' timeout_ms ws h = take_stream-Grown v p p' ws v.stream refl (
    from_stream v p p' timeout_ms ws (err enospc) h (λ k. cc)
      (λ e f g. checked_vendor-≢ v (f ∙ sym g)))

-- When a packet was too small and the caller tries again, with the same answers of the vendor's library, with a
-- packet of the size that the first call asked for, the second call does not ask for more.
pub enospc-retry :
    (v : Vendor) (p p' q : Packet) (timeout_ms timeout_ms' : ℤ) (ws : List Write)
    → vs_venc_packet_acquire v (some p) timeout_ms ≡ (some p', ws, err enospc)
    → q.size ≡ p'.size
    → (vs_venc_packet_acquire v (some q) timeout_ms').2 ≢ err enospc
unfolding Grown Outcome
enospc-retry v p p' q timeout_ms timeout_ms' ws h s k =
    go (vs_venc_packet_acquire v (some q) timeout_ms') refl
      (vs_venc_packet_acquire-Outcome v q timeout_ms') k
  where
    again : (q' : Packet) → Grown v p p' → Grown v q q' → ⊥
    again q' (ps, e, g, l) (ps', e', g', l') =
        let same : ps ≡ ps' = cc in
        let sizes : p'.size ≡ q'.size = cc in omega (arith, sizes, l', s)

    go :
        (r : Option Packet × List Write × Rc)
        → vs_venc_packet_acquire v (some q) timeout_ms' ≡ r
        → Outcome q r
        → r.2 ≡ err enospc
        → ⊥
    go (none, ws', rc) e o f = o
    go (some q', ws', rc) e o f =
        again q' (acquire-Grown v p p' timeout_ms ws h)
          (acquire-Grown v q q' timeout_ms' ws' (e ∙ ap (λ x. (some q', ws', x)) f))

-- The keyframe mark of the copying loops.
segments_key :
    (p : Pack) (copied segmented : ℕ) (is : List Info) (end : ℕ)
    → (copy_segments p copied segmented is).2 ≡ some end
    → (copy_segments p copied segmented is).1 ≡ any_info is
unfolding copy_segments any_info
segments_key p copied segmented [] end h = refl
segments_key p copied segmented (i ∷ is) end h =
    ground (arith, segments_key p copied (u32 (segmented + i.pack_len)) is end)

rest_key :
    (p : Pack) (copied : ℕ) (r : List Write × Bool × Option ℕ) (k : Bool)
    → ((end : ℕ) → r.2 ≡ some end → r.1 ≡ k)
    → (copy_rest p copied r).2 ≡ true
    → (copy_rest p copied r).1 ≡ (k || p.key)
unfolding copy_rest
rest_key p copied (ws, b, none) k h e = cc
rest_key p copied (ws, b, some s) k h e = ap (λ x. x || p.key) (h s refl)

pack_key :
    (m : ℕ) (p : Pack) (copied : ℕ)
    → (copy_pack m p copied).2 ≡ true
    → (copy_pack m p copied).1 ≡ (any_info (take p.data_num p.infos) || p.key)
unfolding copy_pack
pack_key m p copied h = ground (
  arith,
  rest_key p copied (copy_segments p copied 0 (take p.data_num p.infos))
      (any_info (take p.data_num p.infos)) (segments_key p copied 0 (take p.data_num p.infos)),
)

packs_key :
    (m : ℕ) (ps : List Pack) (copied : ℕ)
    → (copy_packs m ps copied).2 ≡ true
    → (copy_packs m ps copied).1 ≡ any_key ps
unfolding copy_packs any_key
packs_key m [] copied h = refl
packs_key m (p ∷ ps) copied h =
    ground (arith, pack_key m p copied, packs_key m ps (u32 (copied + p.length)))

take_stream-Filled :
    (v : Vendor) (p p' : Packet) (ws : List Write) (stream : Option (List Pack))
    → v.stream ≡ stream
    → take_stream v p stream ≡ (p', ws, ok tt)
    → (ps : List Pack) × (v.stream ≡ some ps)
      × (written ws ≡ stream_bytes ps)
      × (p'.size ≡ total ps)
      × (p'.keyframe ≡ any_key ps)
unfolding take_stream copy_stream
take_stream-Filled v p p' ws none e h = cc
take_stream-Filled v p p' ws (some ps) e h =
    let both = go (sum_lengths ps 0) refl h in (ps, e, both.0, both.1, both.2)
  where
    fits : (n : ℕ) → sum_lengths ps 0 ≡ some n → total ps < 4294967296
    fits n g = let sum = sum_lengths-total ps 0 n (omega arith) g in omega (arith, sum.0, sum.1)

    copied :
        (b : Bool) (n : ℕ) (r : List Write × Bool × Bool) (a : ℕ)
        → sum_lengths ps 0 ≡ some n
        → (r.2 ≡ true → r.1 ≡ any_key ps)
        → (r.2 ≡ true → total ps < 4294967296 → written r.0 ≡ stream_bytes ps)
        → ◌≡◌ {A = Packet × List Write × Rc}
            (if b
              then (record p { size = n }, [], err enospc)
              else (if r.2
                  then (
                    record p {
                      keyframe = r.1;
                      timestamp_ns = a;
                      offset = 0;
                      size = copied_behind ps 0;
                    },
                    r.0,
                    ok tt,
                  )
                  else (record p { keyframe = r.1; timestamp_ns = a }, r.0, err eio)))
            (p', ws, ok tt)
        → (written ws ≡ stream_bytes ps) × (p'.size ≡ total ps) × (p'.keyframe ≡ any_key ps)
    copied true n r a g m w k = cc
    copied false n (us, q, false) a g m w k = cc
    copied false n (us, q, true) a g m w k = (
      subst (λ x. written x ≡ stream_bytes ps) (ap (λ (x : Packet × List Write × Rc). x.1) k)
          (w refl (fits n g)),
      sym (ap (λ (x : Packet × List Write × Rc). x.0.size) k)
          ∙ omega (arith, copied_behind-total ps 0 (omega (arith, fits n g))),
      sym (ap (λ (x : Packet × List Write × Rc). x.0.keyframe) k) ∙ m refl,
    )

    go :
        (o : Option ℕ)
        → sum_lengths ps 0 ≡ o
        → ◌≡◌ {A = Packet × List Write × Rc}
            (elim o [
              | none ↦ (p, [], err eoverflow)
              | some required ↦ copy_stream v.max_nalu_num ps p required
            ])
            (p', ws, ok tt)
        → (written ws ≡ stream_bytes ps) × (p'.size ≡ total ps) × (p'.keyframe ≡ any_key ps)
    go none f k = cc
    go (some n) f k =
        copied (ltb p.size n) n (copy_packs v.max_nalu_num ps 0) _ f (packs_key v.max_nalu_num ps 0)
          (λ g l. copy_packs-written v.max_nalu_num ps 0 l g) k

-- On success there is a stream that the vendor's library handed out, and what is written, one write after another, is
-- its bytes: of each pack its segments and then the rest of its length from its own offset on. The packet's size is the
-- sum of the packs' lengths, and it is marked as a keyframe exactly if a pack, or one of a pack's segments, is a key
-- slice.
pub vs_venc_packet_acquire-Filled :
    (v : Vendor) (p p' : Packet) (timeout_ms : ℤ) (ws : List Write)
    → vs_venc_packet_acquire v (some p) timeout_ms ≡ (some p', ws, ok tt)
    → (ps : List Pack) × (v.stream ≡ some ps)
      × (written ws ≡ stream_bytes ps)
      × (p'.size ≡ total ps)
      × (p'.keyframe ≡ any_key ps)
vs_venc_packet_acquire-Filled v p p' timeout_ms ws h =
    take_stream-Filled v p p' ws v.stream refl
      (from_stream v p p' timeout_ms ws (ok tt) h (λ k. cc) (λ e f g. cc))
