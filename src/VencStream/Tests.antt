-- ===== src/VencStream/Tests.antt =====
-- Concrete runs of vs_venc_packet_acquire.
use dark_os_svc_kit.Common.{ℕ, ◌≡◌, refl, true, false, some, List, [], ◌∷◌, ok, err, enospc}
use dark_os_svc_kit.Common.Int.{pos}
use dark_os_svc_kit.VencStream.{
  Info, Pack, Packet, Vendor, Write, ready, vs_venc_packet_acquire, slice, sum_lengths,
  copy_segments, copy_rest, copy_pack, copy_packs, copy_stream, take_stream, refused,
  checked_vendor,
}
use dark_os_svc_kit.VencStream.Copy.{total}
use dark_os_svc_kit.VencStream.Bytes.{written, stream_bytes}
use dark_os_svc_kit.VencStream.Laws.{Outcome, vs_venc_packet_acquire-Outcome}
use dark_os_svc_kit.VencStream.Retry.{any_key, vs_venc_packet_acquire-Filled}

-- A pack with a parameter set and an IDR slice, and one with two bytes of its own.
abbrev packs : List Pack
packs =
    record {
      memory = λ i. i;
      offset = 5;
      length = 7;
      data_num = 2;
      infos =
          record { pack_offset = 0; pack_len = 3; key = false }
          ∷ record { pack_offset = 3; pack_len = 2; key = true }
          ∷ [];
      key = false;
      pts = 40;
    }
    ∷ record {
      memory = λ i. 9;
      offset = 0;
      length = 2;
      data_num = 0;
      infos = [];
      key = false;
      pts = 80;
    }
    ∷ []

abbrev vendor : Vendor
vendor = record {
  fd = pos 4;
  poll = ready true;
  status = some (1, 2);
  memory = true;
  stream = some packs;
  max_nalu_num = 8;
}

abbrev packet_of : ℕ → Packet
packet_of n = record { has_data = true; size = n; offset = 0; timestamp_ns = 0; keyframe = false }

abbrev filled : Packet
filled = record { has_data = true; size = 9; offset = 0; timestamp_ns = 40000; keyframe = true }

abbrev writes : List Write
writes =
    record { place = 0; bytes = 0 ∷ 1 ∷ 2 ∷ [] }
    ∷ record { place = 3; bytes = 3 ∷ 4 ∷ [] }
    ∷ record { place = 5; bytes = 5 ∷ 6 ∷ [] }
    ∷ record { place = 7; bytes = 9 ∷ 9 ∷ [] }
    ∷ []

acquire_packs :
    vs_venc_packet_acquire vendor (some (packet_of 16)) (pos 10) ≡ (some filled, writes, ok tt)
unfolding vs_venc_packet_acquire copy_pack copy_segments dark_os_svc_kit.VencStream.stamp
acquire_packs = refl

acquire_small :
    vs_venc_packet_acquire vendor (some (packet_of 8)) (pos 10)
    ≡ (some (packet_of 9), [], err enospc)
unfolding vs_venc_packet_acquire copy_pack copy_segments dark_os_svc_kit.VencStream.stamp
acquire_small = refl

vs_venc_packet_acquire-Outcome_example :
    Outcome (packet_of 16) (vs_venc_packet_acquire vendor (some (packet_of 16)) (pos 10))
vs_venc_packet_acquire-Outcome_example =
    vs_venc_packet_acquire-Outcome vendor (packet_of 16) (pos 10)

vs_venc_packet_acquire-Filled_example :
    (ps : List Pack) × (vendor.stream ≡ some ps)
    × (written writes ≡ stream_bytes ps)
    × (filled.size ≡ total ps)
    × (filled.keyframe ≡ any_key ps)
vs_venc_packet_acquire-Filled_example =
    vs_venc_packet_acquire-Filled vendor (packet_of 16) filled (pos 10) writes acquire_packs
