-- ===== src/VencStream.antt =====
-- platform/vendors/visinextek/common/vs_venc_stream.c: an access unit of the vendor's encoder is copied
-- into one packet. The answers of the vendor library, of `poll` and of `calloc` are arguments; each
-- memcpy is recorded with its place in the packet's buffer and its bytes.
use dark_os_svc_kit.Common.{
  ℕ, zero, suc, ◌+◌, ◌-◌, ◌*◌, Bool, true, false, not, ◌&&◌, ◌||◌, Option, none, some, List, [],
  ◌∷◌, ◌++◌, ltb, ◌==◌, if◌then◌else◌, take, length, Errno, Rc, ok, err, einval, eio, etimedout,
  eintr, eagain, enomem, eoverflow, enospc,
}
use dark_os_svc_kit.Common.Words.{u32, u64}
use dark_os_svc_kit.Common.Int.{ℤ, pos, negsuc, is_negative}
pub mod Copy
pub mod Bytes
pub mod Laws
pub mod Retry
pub mod Tests

-- vs_venc_pack_info_s: a segment of a pack, and whether its NAL unit is an IDR or I slice.
pub record Info : Type 0 where
  pub pack_offset : ℕ
  pub pack_len : ℕ
  pub key : Bool

-- vs_venc_pack_s: `memory` is what stands at `virt_addr`.
pub record Pack : Type 0 where
  pub memory : ℕ → ℕ
  pub offset : ℕ
  pub length : ℕ
  pub data_num : ℕ
  pub infos : List Info
  pub key : Bool
  pub pts : ℕ

-- codec_buffer_t, as far as the function reads and writes it.
pub record Packet : Type 0 where
  pub has_data : Bool
  pub size : ℕ
  pub offset : ℕ
  pub timestamp_ns : ℕ
  pub keyframe : Bool

-- One memcpy into the packet's data.
pub record Write : Type 0 where
  pub place : ℕ
  pub bytes : List ℕ

-- What `poll` reports.
pub data Poll : Type 0 where
  timeout : Poll
  failed : Errno → Poll
  ready : Bool → Poll

-- The answers that one call meets: the channel's descriptor, `poll`, the frames and packs that the
-- status shows, `calloc`, and the packs of the stream, if it can be acquired.
pub record Vendor : Type 0 where
  pub fd : ℤ
  pub poll : Poll
  pub status : Option (ℕ × ℕ)
  pub memory : Bool
  pub stream : Option (List Pack)
  pub max_nalu_num : ℕ

-- `len` bytes of a memory from `offset` on.
unfoldable pub slice : (ℕ → ℕ) → ℕ → ℕ → List ℕ
slice memory offset zero = []
slice memory offset (suc len) = memory offset ∷ slice memory (offset + 1) len

-- The loop that adds up the lengths; `none` is the overflow of 32 bits.
pub sum_lengths : List Pack → ℕ → Option ℕ
sum_lengths [] required = some required
sum_lengths (p ∷ ps) required =
    if ltb (4294967295 - required) p.length then none else sum_lengths ps (required + p.length)

-- The loop over a pack's segments: the copies, whether one of them is a key slice, and the bytes
-- behind the last one, or `none` for a segment that runs over the pack.
pub copy_segments : Pack → ℕ → ℕ → List Info → List Write × Bool × Option ℕ
unfolding slice
copy_segments p copied segmented [] = ([], false, some segmented)
copy_segments p copied segmented (i ∷ is) =
    let (ws, key, end) = copy_segments p copied (u32 (segmented + i.pack_len)) is in
    if ltb (p.length - segmented) i.pack_len then ([], false, none) else (
      record { place = u32 (copied + segmented); bytes = slice p.memory i.pack_offset i.pack_len }
          ∷ ws,
      i.key || key,
      end,
    )

-- What stands behind the last segment is the pack's own data.
pub copy_rest : Pack → ℕ → List Write × Bool × Option ℕ → List Write × Bool × Bool
copy_rest p copied (ws, key, none) = (ws, key, false)
copy_rest p copied (ws, key, some segmented) = (
  ws
      ++ record {
        place = u32 (copied + segmented);
        bytes = slice p.memory p.offset (p.length - segmented);
      }
        ∷ [],
  key || p.key,
  true,
)

-- One round of the copying loop, and whether it went well.
pub copy_pack : ℕ → Pack → ℕ → List Write × Bool × Bool
unfolding copy_rest
copy_pack max_nalu_num p copied =
    if ltb max_nalu_num p.data_num
    then ([], false, false)
    else copy_rest p copied (copy_segments p copied 0 (take p.data_num p.infos))

pub copy_packs : ℕ → List Pack → ℕ → List Write × Bool × Bool
copy_packs max_nalu_num [] copied = ([], false, true)
copy_packs max_nalu_num (p ∷ ps) copied =
    let (ws, key, went) = copy_pack max_nalu_num p copied in
    let (ws', key', went') = copy_packs max_nalu_num ps (u32 (copied + p.length)) in
    if went then (ws ++ ws', key || key', went') else (ws, key, false)

-- The variable `copied` behind the loop over the packs.
pub copied_behind : List Pack → ℕ → ℕ
copied_behind [] copied = copied
copied_behind (p ∷ ps) copied = copied_behind ps (u32 (copied + p.length))

-- The time of the first pack, if its round went well.
pub stamp : ℕ → List Pack → ℕ → ℕ
stamp max_nalu_num [] old = old
stamp max_nalu_num (p ∷ ps) old = if (copy_pack max_nalu_num p 0).2 then u64 (p.pts * 1000) else old

pub copy_stream : ℕ → List Pack → Packet → ℕ → Packet × List Write × Rc
unfolding copy_packs copied_behind
copy_stream max_nalu_num ps packet required =
    if ltb packet.size required
    then (record packet { size = required }, [], err enospc)
    else (let (ws, key, went) = copy_packs max_nalu_num ps 0 in
        let stamped = record packet {
          keyframe = key;
          timestamp_ns = stamp max_nalu_num ps packet.timestamp_ns;
        } in
        if went
        then (record stamped { offset = 0; size = copied_behind ps 0 }, ws, ok tt)
        else (stamped, ws, err eio))

pub take_stream : Vendor → Packet → Option (List Pack) → Packet × List Write × Rc
unfolding copy_stream sum_lengths
take_stream v packet none = (packet, [], err eagain)
take_stream v packet (some ps) = elim (sum_lengths ps 0) [
  | none ↦ (packet, [], err eoverflow)
  | some required ↦ copy_stream v.max_nalu_num ps packet required
]

-- What stands between the check of the arguments and the stream: the descriptor, `poll`, the status and
-- `calloc`, with the error of the first that fails.
pub checked_poll : Poll → Rc
checked_poll timeout = err etimedout
checked_poll (failed eintr) = err eintr
checked_poll (failed e) = err eio
checked_poll (ready pollin) = if pollin then ok tt else err eio

pub checked_status : Option (ℕ × ℕ) → Bool → Rc
checked_status none memory = err eio
checked_status (some (left_stream_frame_num, cur_pack_num)) memory =
    if left_stream_frame_num == 0 || cur_pack_num == 0
    then err eagain
    else (if memory then ok tt else err enomem)

pub checked_vendor : Vendor → Rc
unfolding checked_poll checked_status is_negative
checked_vendor v =
    if is_negative v.fd
    then err eio
    else elim (checked_poll v.poll) [ err e ↦ err e | ok t ↦ checked_status v.status v.memory ]

-- `timeout_ms < -1`
pub below_minus_one : ℤ → Bool
below_minus_one (pos n) = false
below_minus_one (negsuc n) = ltb 0 n

-- Whether the arguments are refused.
pub refused : Packet → ℤ → Bool
unfolding below_minus_one
refused packet timeout_ms = not packet.has_data || packet.size == 0 || below_minus_one timeout_ms

pub vs_venc_packet_acquire : Vendor → Option Packet → ℤ → Option Packet × List Write × Rc
unfolding refused checked_vendor take_stream
vs_venc_packet_acquire v none timeout_ms = (none, [], err einval)
vs_venc_packet_acquire v (some packet) timeout_ms =
    if refused packet timeout_ms then (some packet, [], err einval) else elim (checked_vendor v) [
      | err e ↦ (some packet, [], err e)
      | ok t ↦ (let (packet', ws, rc) = take_stream v packet v.stream in (some packet', ws, rc))
    ]
