-- ===== src/Storage/Recorder/Files.antt =====
-- SvcKit/subsystems/storage/src/core/storage_manager.cpp: the files that a recorder writes, over any run of packets.
use dark_os_svc_kit.Common.{
  ℕ, ◌≡◌, Bool, true, false, if◌then◌else◌, arith, some, List, [], ◌∷◌, Text, Rc, ok, err, ealready,
}
use dark_os_svc_kit.Storage.{State}
use dark_os_svc_kit.Storage.Recorder.{Packet, Recorder, Disk, consume, start, stop}
use dark_os_svc_kit.Storage.Recorder.Segments.{
  logged, OneFile, InFile, Ended, finish_segment-Ended, consume-InFile,
}

-- What a client does to a recorder, with what the disk answers.
pub data Move : Type 0 where
  takes : Disk → Packet → Move
  stops : Disk → Move
  starts : Move

-- The recorder with its manager, and the packets of the file that is open.
pub record Session : Type 0 where
  pub recorder : Recorder
  pub manager : State
  pub file : List Packet

abbrev pub session : Recorder → State → Session
session r s = record { recorder = r; manager = s; file = [] }

abbrev pub move : (ℕ → Text) → Move → Session → Session
move decimal (takes d p) t =
    let x = consume decimal d (some p) t.recorder t.manager in
    record { recorder = x.0; manager = x.1; file = logged t.manager p x t.file }
move decimal (stops d) t =
    let x = stop d t.recorder t.manager in record t { recorder = x.0; manager = x.1 }
move decimal starts t = record t { recorder = (start t.recorder).0 }

unfoldable pub run : (ℕ → Text) → List Move → Session → Session
run decimal [] t = t
run decimal (m ∷ ms) t = run decimal ms (move decimal m t)

move-InFile :
    (decimal : ℕ → Text) (m : Move) (t : Session)
    → InFile t.recorder t.file
    → InFile (move decimal m t).recorder (move decimal m t).file
unfolding stop start Ended
move-InFile decimal (takes d p) t h = consume-InFile decimal d p t.recorder t.manager t.file h
move-InFile decimal (stops d) t h =
    let w = finish_segment-Ended d (record (t.recorder) { running = false }) t.manager in
    ground (arith, w)
move-InFile decimal starts t h = go t.recorder.running
  where
    go :
        (b : Bool)
        → InFile
            (if◌then◌else◌ {A = Recorder × Rc} b
              (t.recorder, err ealready)
              (record (t.recorder) { running = true }, ok tt)).0
            t.file
    go true = h
    go false = h

run-InFile :
    (decimal : ℕ → Text) (ms : List Move) (t : Session)
    → InFile t.recorder t.file
    → InFile (run decimal ms t).recorder (run decimal ms t).file
unfolding run
run-InFile decimal [] t h = h
run-InFile decimal (m ∷ ms) t h =
    run-InFile decimal ms (move decimal m t) (move-InFile decimal m t h)

-- From a recorder with no open file, whatever packets it is given between starts and stops and whatever the disk
-- answers: while a file is open, all packets that were accepted since it was begun are of the file's codec, the first
-- of them is a key frame or of a codec that needs none, and there is one unless a write has failed.
pub run-OneFile :
    (decimal : ℕ → Text) (ms : List Move) (r : Recorder) (s : State)
    → r.is_open ≡ false
    → (run decimal ms (session r s)).recorder.is_open ≡ true
    → OneFile (run decimal ms (session r s)).recorder (run decimal ms (session r s)).file
run-OneFile decimal ms r s e o = run-InFile decimal ms (session r s) (λ f. absurd cc) o
