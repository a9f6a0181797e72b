-- ===== src/Storage.antt =====
-- SvcKit/subsystems/storage/src/core/storage_manager.cpp: recordings on a disk, and the recorders that write them.
-- The file system's answers, the clock and the decimal text of a number are arguments; a packet's bytes count by
-- their number.
use dark_os_svc_kit.Common.{
  ℕ, zero, suc, ◌+◌, ◌-◌, min, Bool, true, false, not, ◌&&◌, ◌||◌, Option, none, some, is_none,
  List, [], ◌∷◌, ◌++◌, map, reverse, take, length, ltb, leb, ◌==◌, if◌then◌else◌, Text, codes,
  str_eq, Reply, Rc, ok, err, Errno, einval, eio, enoent, ealready, eshutdown, eproto,
}
use dark_os_svc_kit.Common.Words.{u64}
pub mod Manager
pub mod Recorder
pub mod Cleanup

-- VideoCodec
pub data Codec : Type 0 where
  h264 h265 mjpeg : Codec

abbrev pub same_codec : Codec → Codec → Bool
same_codec h264 h264 = true
same_codec h265 h265 = true
same_codec mjpeg mjpeg = true
same_codec c d = false

-- StorageConfig
pub record Config : Type 0 where
  pub root : Text
  pub max_bytes : ℕ
  pub minimum_free_bytes : ℕ
  pub segment_max_bytes : ℕ

-- RecordingInfo; the path is the name of its file under the root.
pub record Recording : Type 0 where
  pub id : Text
  pub label : Text
  pub alarm_id : Text
  pub path : Text
  pub codec : Codec
  pub start_timestamp_ns : ℕ
  pub end_timestamp_ns : ℕ
  pub bytes : ℕ
  pub packets : ℕ

-- The shared state.
pub record State : Type 0 where
  pub config : Config
  pub recordings : List Recording
  pub sequence : ℕ
  pub deleted : ℕ
  pub write_errors : ℕ

abbrev pub is_plain : ℕ → Bool
is_plain c =
    leb 97 c && leb c 122 || leb 65 c && leb c 90 || leb 48 c && leb c 57 || c == 45 || c == 95

abbrev pub no_text : Text → Bool
no_text [] = true
no_text (c ∷ cs) = false

pub safe_label : Text → Text
safe_label input =
    let output = map (λ c. if is_plain c then c else 95) (take 48 input) in
    if no_text output then codes "recording" else output

pub extension : Codec → Text
extension h265 = codes ".h265"
extension mjpeg = codes ".mjpg"
extension h264 = codes ".h264"

-- loadIndex on the entries that parse, with what the file system says of the size of each file.
pub load_index : (Text → Option ℕ) → List Recording → List Recording
load_index file_size [] = []
load_index file_size (r ∷ rs) =
    let rest = load_index file_size rs in
    elim (file_size r.path) [ none ↦ rest | some n ↦ record r { bytes = n } ∷ rest ]

pub managed_bytes : List Recording → ℕ
managed_bytes [] = 0
managed_bytes (r ∷ rs) = u64 (r.bytes + managed_bytes rs)

-- min_element by the start: the first of the oldest recordings.
pub oldest : Recording → List Recording → Recording
oldest r [] = r
oldest r (s ∷ rs) = oldest (if ltb s.start_timestamp_ns r.start_timestamp_ns then s else r) rs

-- erase of the first recording that begins with the oldest one.
pub erase_first : ℕ → List Recording → List Recording
erase_first start [] = []
erase_first start (r ∷ rs) = if r.start_timestamp_ns == start then rs else r ∷ erase_first start rs

-- needsCleanup; `available` is what the file system says is free with these recordings, `none` if it fails.
pub needs_cleanup : Config → (List Recording → Option ℕ) → List Recording → Bool
unfolding managed_bytes
needs_cleanup c available rs =
    if not (c.max_bytes == 0) && ltb c.max_bytes (managed_bytes rs)
    then true
    else if c.minimum_free_bytes == 0
    then false
    else elim (available rs) [ none ↦ false | some n ↦ ltb n c.minimum_free_bytes ]

-- The loop of cleanupLocked, whose fuel is the number of recordings; `removes` is the error of a removal. The
-- result has the recordings, how many were deleted, and the error.
pub cleanup_loop :
    Config
    → (List Recording → Option ℕ)
    → (Text → Option Errno)
    → ℕ
    → List Recording
    → List Recording × ℕ × Option Errno
unfolding needs_cleanup oldest erase_first
cleanup_loop c available removes fuel [] = ([], 0, none)
cleanup_loop c available removes zero (r ∷ rs) = (r ∷ rs, 0, none)
cleanup_loop c available removes (suc fuel) (r ∷ rs) =
    let victim = oldest r rs in
    let (rest, n, failure) =
      cleanup_loop c available removes fuel (erase_first victim.start_timestamp_ns (r ∷ rs)) in
    if not (needs_cleanup c available (r ∷ rs))
    then (r ∷ rs, 0, none)
    else elim (removes victim.path) [ some e ↦ (r ∷ rs, 0, some e) | none ↦ (rest, n + 1, failure) ]

-- cleanupLocked; `persists` says whether the index can be written.
pub cleanup : (List Recording → Option ℕ) → (Text → Option Errno) → Bool → State → State × Rc
unfolding cleanup_loop
cleanup available removes persists s =
    let (rs, n, failure) =
      cleanup_loop s.config available removes (length s.recordings) s.recordings in
    let s' = record s { recordings = rs; deleted = u64 (s.deleted + n) } in
    elim failure [
      | some e ↦ (s', err e)
      | none ↦ if not (n == 0) && not persists then (s', err eio) else (s', ok tt)
    ]
