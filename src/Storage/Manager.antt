-- ===== src/Storage/Manager.antt =====
-- SvcKit/subsystems/storage/src/core/storage_manager.cpp: StorageManagerImpl, which reads, finds and removes recordings.
use dark_os_svc_kit.Common.{
  ℕ, zero, suc, ◌+◌, ◌-◌, min, Bool, not, ◌&&◌, ◌||◌, Option, none, some, List, [], ◌∷◌, reverse,
  length, ltb, ◌==◌, if◌then◌else◌, Text, str_eq, Reply, Rc, ok, err, Errno, einval, eio, enoent,
}
use dark_os_svc_kit.Common.Words.{u64}
use dark_os_svc_kit.Storage.{Config, Recording, State, load_index, managed_bytes, no_text}

pub find_recording : Text → List Recording → Option Recording
find_recording id [] = none
find_recording id (r ∷ rs) = if str_eq r.id id then some r else find_recording id rs

pub erase_recording : Text → List Recording → List Recording
erase_recording id [] = []
erase_recording id (r ∷ rs) = if str_eq r.id id then rs else r ∷ erase_recording id rs

-- read, with the bytes that the file gives from an offset on for a count.
pub read : (Text → ℕ → ℕ → List ℕ) → Text → ℕ → ℕ → State → Reply (List ℕ)
unfolding find_recording
read file id offset maximum_bytes s = elim (find_recording id s.recordings) [
  | none ↦ err enoent
  | some r ↦
      let count = min (r.bytes - offset) maximum_bytes in
      let output = file r.path offset count in
      if ltb r.bytes offset
      then err einval
      else if length output == count
      then ok output
      else err eio
]

pub remove : (Text → Option Errno) → Bool → Text → State → State × Rc
unfolding find_recording erase_recording
remove removes persists id s = elim (find_recording id s.recordings) [
  | none ↦ (s, err enoent)
  | some r ↦
      let s' = record s {
        recordings = erase_recording id s.recordings;
        deleted = u64 (s.deleted + 1);
      } in
      elim (removes r.path) [
        | some e ↦ (s, err e)
        | none ↦ if persists then (s', ok tt) else (s', err eio)
      ]
]

-- StorageManager::create, with the entries of the index that an earlier process left.
pub create : Config → Bool → Bool → (Text → Option ℕ) → List Recording → Option State
unfolding load_index
create config directories memory file_size index =
    if no_text config.root
    then none
    else if not directories || not memory
    then none
    else some (record {
      config = config;
      recordings = load_index file_size index;
      sequence = 1;
      deleted = 0;
      write_errors = 0;
    })

-- RecordingQuery
pub record Filter : Type 0 where
  pub label : Text
  pub alarm_id : Text
  pub from_timestamp_ns : ℕ
  pub to_timestamp_ns : ℕ
  pub limit : ℕ

pub wanted : Filter → Recording → Bool
wanted f r =
    (no_text f.label || str_eq r.label f.label)
    && (no_text f.alarm_id || str_eq r.alarm_id f.alarm_id)
    && (f.from_timestamp_ns == 0 || not (ltb r.end_timestamp_ns f.from_timestamp_ns))
    && (f.to_timestamp_ns == 0 || not (ltb f.to_timestamp_ns r.start_timestamp_ns))

-- The loop of query from the newest recording on; `room` is what the limit leaves.
pub collect : Filter → ℕ → List Recording → List Recording
unfolding wanted
collect f zero rs = []
collect f (suc room) [] = []
collect f (suc room) (r ∷ rs) =
    let skipped = collect f (suc room) rs in
    let others = collect f room rs in if wanted f r then r ∷ others else skipped

pub query : Filter → State → List Recording
unfolding collect
query f s = collect f f.limit (reverse s.recordings)

-- StorageStats
pub record Stats : Type 0 where
  pub recording_count : ℕ
  pub managed_bytes : ℕ
  pub deleted_recordings : ℕ
  pub write_errors : ℕ

pub stats : State → Stats
stats s = record {
  recording_count = length s.recordings;
  managed_bytes = managed_bytes s.recordings;
  deleted_recordings = s.deleted;
  write_errors = s.write_errors;
}
