-- ===== src/Storage/Recorder.antt =====
-- SvcKit/subsystems/storage/src/core/storage_manager.cpp: RecorderImpl, which writes packets in segments.
use dark_os_svc_kit.Common.{
  ℕ, ◌+◌, Bool, true, false, not, ◌&&◌, ◌||◌, Option, none, some, List, [], ◌∷◌, ◌++◌, leb, ◌==◌,
  if◌then◌else◌, Text, codes, Reply, Rc, ok, err, Errno, einval, eio, ealready, eshutdown, eproto,
}
use dark_os_svc_kit.Common.Words.{u64}
use dark_os_svc_kit.Storage.{
  Codec, h264, h265, mjpeg, same_codec, Recording, State, safe_label, extension, cleanup, no_text,
}
pub mod Segments
pub mod Files
pub mod Tests

-- VideoPacket: its bytes count by their number.
pub record Packet : Type 0 where
  pub codec : Codec
  pub timestamp_ns : ℕ
  pub keyframe : Bool
  pub size : ℕ

-- The members of RecorderImpl; the file is open or not, and has failed or not.
pub record Recorder : Type 0 where
  pub label : Text
  pub alarm_id : Text
  pub is_open : Bool
  pub failed : Bool
  pub current : Recording
  pub bytes_written : ℕ
  pub running : Bool
  pub rotate_pending : Bool

-- What the disk answers to one call: whether the file opens, takes a write, closes, whether the index can be
-- written, in the two places, and what cleanup sees; and the clock.
pub record Disk : Type 0 where
  pub opens : Bool
  pub writes : Bool
  pub closes : Bool
  pub persists : Bool
  pub persists_after : Bool
  pub available : List Recording → Option ℕ
  pub removes : Text → Option Errno
  pub now : ℕ

abbrev pub no_recording : Recording
no_recording = record {
  id = [];
  label = [];
  alarm_id = [];
  path = [];
  codec = h264;
  start_timestamp_ns = 0;
  end_timestamp_ns = 0;
  bytes = 0;
  packets = 0;
}

pub start : Recorder → Recorder × Rc
start r = if r.running then (r, err ealready) else (record r { running = true }, ok tt)

-- finishSegmentLocked
pub finish_segment : Disk → Recorder → State → Recorder × State × Rc
finish_segment d r s =
    let closed = record r { is_open = false; failed = r.failed || not d.closes } in
    let kept = record s { recordings = s.recordings ++ r.current ∷ [] } in
    let (cleaned, answer) = cleanup d.available d.removes d.persists_after kept in
    let done = record closed { current = no_recording; rotate_pending = false } in
    if not r.is_open
    then (r, s, ok tt)
    else if r.failed || not d.closes
    then (closed, record s { write_errors = u64 (s.write_errors + 1) }, err eio)
    else if not d.persists
    then (closed, record kept { write_errors = u64 (s.write_errors + 1) }, err eio)
    else elim answer [ err e ↦ (closed, cleaned, err e) | ok x ↦ (done, cleaned, ok x) ]

pub stop : Disk → Recorder → State → Recorder × State × Rc
unfolding finish_segment
stop d r s =
    if not r.running && not r.is_open
    then (r, s, ok tt)
    else finish_segment d (record r { running = false }) s

-- openSegmentLocked; `decimal` is to_string.
pub open_segment : (ℕ → Text) → Disk → Packet → Recorder → State → Recorder × State × Rc
open_segment decimal d p r s =
    let id = decimal d.now ++ (codes "-" ++ decimal s.sequence) in
    let current : Recording = record {
      id = id;
      label = r.label;
      alarm_id = r.alarm_id;
      path = id ++ (codes "-" ++ (safe_label r.label ++ extension p.codec));
      codec = p.codec;
      start_timestamp_ns = p.timestamp_ns;
      end_timestamp_ns = p.timestamp_ns;
      bytes = 0;
      packets = 0;
    } in
    (
      record r { current = current; is_open = d.opens; failed = not d.opens },
      record s { sequence = u64 (s.sequence + 1) },
      if d.opens then ok tt else err eio,
    )

-- The end of consume, on an open file.
pub write_packet : Disk → Packet → Recorder → State → Recorder × State × Rc
write_packet d p r s =
    let bytes = u64 (r.current.bytes + p.size) in
    if r.failed || not d.writes
    then (record r { failed = true }, record s { write_errors = u64 (s.write_errors + 1) }, err eio)
    else (
      record r {
        current = record (r.current) {
          bytes = bytes;
          packets = u64 (r.current.packets + 1);
          end_timestamp_ns = p.timestamp_ns;
        };
        bytes_written = u64 (r.bytes_written + p.size);
        rotate_pending =
            not (s.config.segment_max_bytes == 0) && leb s.config.segment_max_bytes bytes;
      },
      s,
      ok tt,
    )

abbrev pub needs_keyframe : Codec → Bool
needs_keyframe mjpeg = false
needs_keyframe c = true

-- consume after a segment that was full has ended, which opens the next one where none is open.
pub continue_with : (ℕ → Text) → Disk → Packet → Recorder → State → Recorder × State × Rc
unfolding open_segment write_packet
continue_with decimal d p r s =
    let (opened, counted, answer) = open_segment decimal d p r s in
    if r.is_open
    then write_packet d p r s
    else if not p.keyframe && needs_keyframe p.codec
    then (r, s, ok tt)
    else elim answer [ err e ↦ (opened, counted, err e) | ok x ↦ write_packet d p opened counted ]

-- consume; `none` is a packet without bytes.
pub consume : (ℕ → Text) → Disk → Option Packet → Recorder → State → Recorder × State × Rc
unfolding finish_segment continue_with
consume decimal d none r s = (r, s, err einval)
consume decimal d (some p) r s =
    let (finished, s', answer) = finish_segment d r s in
    if p.size == 0
    then (r, s, err einval)
    else if not r.running
    then (r, s, err eshutdown)
    else if r.is_open && not (same_codec r.current.codec p.codec)
    then (r, s, err eproto)
    else if r.is_open && r.rotate_pending && p.keyframe
    then elim answer [
      | err e ↦ (finished, s', err e)
      | ok x ↦ continue_with decimal d p finished s'
    ]
    else continue_with decimal d p r s

pub create_recorder : Text → Text → Option Recorder
create_recorder label alarm_id =
    if no_text label
    then none
    else some (record {
      label = label;
      alarm_id = alarm_id;
      is_open = false;
      failed = false;
      current = no_recording;
      bytes_written = 0;
      running = false;
      rotate_pending = false;
    })
