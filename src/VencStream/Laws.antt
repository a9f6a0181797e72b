-- ===== src/VencStream/Laws.antt =====
-- platform/vendors/visinextek/common/vs_venc_stream.c: what vs_venc_packet_acquire promises its caller.
use dark_os_svc_kit.Common.{
  ℕ, ◌≤◌, ◌<◌, ◌≡◌, ◌≢◌, refl, Bool, true, false, Option, none, some, List, [], ltb, if◌then◌else◌,
  All, Errno, Rc, ok, err, enospc, eio, eintr, einval, eoverflow, arith, ltb→lt, ltb_false→le,
  subst, sym,
}
use dark_os_svc_kit.Common.Int.{ℤ}
use dark_os_svc_kit.VencStream.{
  Pack, Packet, Write, Vendor, Poll, timeout, failed, ready, sum_lengths, copy_packs, copied_behind,
  copy_stream, take_stream, stamp, refused, checked_poll, checked_status, checked_vendor,
  vs_venc_packet_acquire,
}
use dark_os_svc_kit.VencStream.Copy.{
  Within, Contiguous, Copied, All-Within-le, total, copy_packs-Copied, sum_lengths-total,
  copied_behind-total,
}

-- What a call with a packet leaves: success has filled the packet without a gap, the lack of room has
-- written nothing and asks for more, and any other error has stayed within the packet.
unfoldable pub Outcome : Packet → Option Packet × List Write × Rc → Type 0
Outcome p (none, ws, rc) = ⊥
Outcome p (some p', ws, ok t) = (p'.offset ≡ 0) × (Contiguous 0 ws p'.size × (p'.size ≤ p.size))
Outcome p (some p', ws, err enospc) = (ws ≡ []) × (p.size < p'.size)
Outcome p (some p', ws, err e) = (p'.size ≡ p.size) × All (Within p.size) ws

with_packet : Packet × List Write × Rc → Option Packet × List Write × Rc
with_packet (p, ws, rc) = (some p, ws, rc)

copy_stream-Outcome :
    (m : ℕ) (ps : List Pack) (p : Packet)
    → total ps < 4294967296
    → Outcome p (with_packet (copy_stream m ps p (total ps)))
unfolding Outcome with_packet copy_stream
copy_stream-Outcome m ps p l = go (ltb p.size (total ps)) refl
  where
    written :
        (r : List Write × Bool × Bool) (p' p'' : Packet)
        → p'.offset ≡ 0
        → p'.size ≡ total ps
        → p''.size ≡ p.size
        → total ps ≤ p.size
        → Copied 0 (total ps) r
        → Outcome p (with_packet (if r.2 then (p', r.0, ok tt) else (p'', r.0, err eio)))
    written (ws, k, true) p' p'' e f g le h =
        (e, (subst (λ x. Contiguous 0 ws x) (sym f) h, omega arith))
    written (ws, k, false) p' p'' e f g le h = (g, All-Within-le (total ps) p.size ws le h)

    go :
        (b : Bool)
        → ltb p.size (total ps) ≡ b
        → Outcome p (
            with_packet (
              let r = copy_packs m ps 0 in
              let stamped = record p { keyframe = r.1; timestamp_ns = stamp m ps p.timestamp_ns } in
              if b
              then (record p { size = total ps }, [], err enospc)
              else (if r.2
                  then (record stamped { offset = 0; size = copied_behind ps 0 }, r.0, ok tt)
                  else (stamped, r.0, err eio))))
    go true e = (refl, ltb→lt _ _ e)
    go false e =
        written (copy_packs m ps 0) _ _ refl (omega (arith, copied_behind-total ps 0 (omega arith)))
          refl (ltb_false→le _ _ e)
          (subst (λ x. Copied 0 x (copy_packs m ps 0)) (omega arith)
            (copy_packs-Copied m ps 0 (omega arith)))

take_stream-Outcome :
    (v : Vendor) (p : Packet) (stream : Option (List Pack))
    → Outcome p (with_packet (take_stream v p stream))
unfolding Outcome with_packet take_stream
take_stream-Outcome v p none = (refl, tt)
take_stream-Outcome v p (some ps) = go (sum_lengths ps 0) refl
  where
    go :
        (o : Option ℕ)
        → sum_lengths ps 0 ≡ o
        → Outcome p (
            with_packet (elim o [
              | none ↦ (p, [], err eoverflow)
              | some required ↦ copy_stream v.max_nalu_num ps p required
            ]))
    go none e = (refl, tt)
    go (some n) e =
        let sum = sum_lengths-total ps 0 n (omega arith) e in
        subst (λ x. Outcome p (with_packet (copy_stream v.max_nalu_num ps p x)))
          (omega (arith, sum.0))
          (copy_stream-Outcome v.max_nalu_num ps p (omega (arith, sum.0, sum.1)))

-- The errors of the vendor's calls are not the one for a small packet.
checked_poll-≢ : (q : Poll) → checked_poll q ≢ err enospc
unfolding checked_poll
checked_poll-≢ timeout h = cc
checked_poll-≢ (failed e) h =
    elim e as (λ k. checked_poll (failed k) ≢ err enospc) [ eintr ↦ λ q. cc | _ ↦ λ q. cc ] h
checked_poll-≢ (ready true) h = cc
checked_poll-≢ (ready false) h = cc

checked_status-≢ : (s : Option (ℕ × ℕ)) (memory : Bool) → checked_status s memory ≢ err enospc
unfolding checked_status
checked_status-≢ none memory h = cc
checked_status-≢ (some (f, n)) memory h = ground arith

pub checked_vendor-≢ : (v : Vendor) → checked_vendor v ≢ err enospc
unfolding checked_vendor
checked_vendor-≢ v h = ground (arith, checked_poll-≢ v.poll, checked_status-≢ v.status v.memory)

failure :
    (p : Packet) (e : Errno) → ◌≢◌ {A = Rc} (err e) (err enospc) → Outcome p (some p, [], err e)
unfolding Outcome
failure p e h =
    elim e as (λ k. ◌≢◌ {A = Rc} (err k) (err enospc) → Outcome p (some p, [], err k)) [
      | enospc ↦ λ g. absurd (g refl)
      | _ ↦ λ g. (refl, tt)
    ]
      h

-- Whatever the vendor's library, `poll` and `calloc` answer, a call with a packet either fills it from its
-- start to its new size without a gap, an overlap or a byte beyond the old size; or asks with ENOSPC for
-- more than the old size and writes nothing; or fails with another error, has written only within the
-- packet and leaves its size.
pub vs_venc_packet_acquire-Outcome :
    (v : Vendor) (p : Packet) (timeout_ms : ℤ)
    → Outcome p (vs_venc_packet_acquire v (some p) timeout_ms)
unfolding Outcome vs_venc_packet_acquire with_packet
vs_venc_packet_acquire-Outcome v p timeout_ms = go (refused p timeout_ms)
  where
    took :
        (r : Packet × List Write × Rc) → Outcome p (with_packet r) → Outcome p (some r.0, r.1, r.2)
    took (p', ws, rc) h = h

    asked :
        (rc : Rc)
        → rc ≢ err enospc
        → Outcome p (elim rc [
          | err e ↦ (some p, [], err e)
          | ok t ↦ (let (p', ws, rc') = take_stream v p v.stream in (some p', ws, rc'))
        ])
    asked (err e) h = failure p e h
    asked (ok t) h = took (take_stream v p v.stream) (take_stream-Outcome v p v.stream)

    go :
        (b : Bool)
        → Outcome p (
            if b then (some p, [], err einval) else elim (checked_vendor v) [
              | err e ↦ (some p, [], err e)
              | ok t ↦ (let (p', ws, rc) = take_stream v p v.stream in (some p', ws, rc))
            ])
    go true = (refl, tt)
    go false = asked (checked_vendor v) (checked_vendor-≢ v)
