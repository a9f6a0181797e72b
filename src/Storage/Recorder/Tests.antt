-- ===== src/Storage/Recorder/Tests.antt =====
-- Runs of a recorder and of cleanup.
use dark_os_svc_kit.Common.{ℕ, ◌+◌, ◌≡◌, refl, true, false, none, List, [], ◌∷◌, Text, codes, arith}
use dark_os_svc_kit.Storage.{
  h264, Config, Recording, State, cleanup_loop, managed_bytes, needs_cleanup, oldest, erase_first,
}
use dark_os_svc_kit.Storage.Cleanup.{Done, cleanup_loop-Done}
use dark_os_svc_kit.Storage.Recorder.{
  Packet, Recorder, Disk, no_recording, consume, continue_with, open_segment, write_packet,
}
use dark_os_svc_kit.Storage.Recorder.Segments.{OneFile}
use dark_os_svc_kit.Storage.Recorder.Files.{Move, takes, Session, session, run, run-OneFile}

abbrev small : Config
small = record { root = codes "r"; max_bytes = 10; minimum_free_bytes = 0; segment_max_bytes = 8 }

abbrev recording_at : ℕ → ℕ → Recording
recording_at start bytes = record no_recording { start_timestamp_ns = start; bytes = bytes }

abbrev three : List Recording
three = recording_at 5 6 ∷ recording_at 2 6 ∷ recording_at 9 4 ∷ []

cleanup_loop-Done_example :
    Done small (λ rs. none) three (cleanup_loop small (λ rs. none) (λ p. none) 3 three)
cleanup_loop-Done_example = cleanup_loop-Done small (λ rs. none) (λ p. none) 3 three (omega arith)

oldest_leaves :
    (cleanup_loop small (λ rs. none) (λ p. none) 3 three).0
    ≡ recording_at 5 6 ∷ recording_at 9 4 ∷ []
unfolding cleanup_loop needs_cleanup managed_bytes oldest erase_first
oldest_leaves = refl

abbrev disk : Disk
disk = record {
  opens = true;
  writes = true;
  closes = true;
  persists = true;
  persists_after = true;
  available = λ rs. none;
  removes = λ p. none;
  now = 4;
}

abbrev idle : Recorder
idle = record {
  label = codes "gate";
  alarm_id = [];
  is_open = false;
  failed = false;
  current = no_recording;
  bytes_written = 0;
  running = true;
  rotate_pending = false;
}

abbrev empty_store : State
empty_store = record {
  config = small;
  recordings = [];
  sequence = 1;
  deleted = 0;
  write_errors = 0;
}

abbrev digits : ℕ → Text
digits n = (n + 48) ∷ []

abbrev key_packet : Packet
key_packet = record { codec = h264; timestamp_ns = 7; keyframe = true; size = 5 }

abbrev later_packet : Packet
later_packet = record { codec = h264; timestamp_ns = 8; keyframe = false; size = 2 }

-- A recording that goes on for two packets.
abbrev moves : List Move
moves = takes disk key_packet ∷ takes disk later_packet ∷ []

abbrev after : Session
after = run digits moves (session idle empty_store)

after_open : (after.recorder.is_open ≡ true) × (after.file ≡ later_packet ∷ key_packet ∷ [])
unfolding run consume continue_with open_segment write_packet
after_open = (refl, refl)

run-OneFile_example : OneFile after.recorder after.file
run-OneFile_example = run-OneFile digits moves idle empty_store refl after_open.0
