-- ===== src/Host/Bluetooth.antt =====
-- platform/ubuntu_x86_64/bluetooth/bluetooth_host_x86.c: an adapter whose discovery runs in a thread. The
-- thread is a program counter that steps on its own, between the client's calls and while the client
-- waits in pthread_join; the callback's answers and pthread_create's result are arguments.
use dark_os_svc_kit.Common.{
  ℕ, zero, suc, ◌+◌, ◌-◌, ◌%◌, Bool, true, false, not, ◌&&◌, ◌||◌, Option, none, some, List, [],
  ◌∷◌, ◌++◌, ltb, ◌==◌, if◌then◌else◌, take, length, Text, codes, Errno, Reply, Rc, ok, err, einval,
  ebusy,
}
use dark_os_svc_kit.Common.Int.{ℤ, negsuc}
use dark_os_svc_kit.Hardware.Version.{Device, api_version_1_0}
use dark_os_svc_kit.Hal.{Allocs, open_device, close_device}
pub mod Laws
pub mod Names
pub mod Reach
pub mod Tests

abbrev pub name_max_len : ℕ
name_max_len = 248

-- bt_device_info_t
pub record Peer : Type 0 where
  pub addr : List ℕ
  pub name : Text
  pub rssi : ℤ
  pub flags : ℕ

abbrev pub fake_devices : List Peer
fake_devices =
    record {
      addr = 0x24 ∷ 0x6f ∷ 0x28 ∷ 0x11 ∷ 0x22 ∷ 0x33 ∷ [];
      name = codes "DarkOS-Phone";
      rssi = negsuc 47;
      flags = 1;
    }
    ∷ record {
      addr = 0xc4 ∷ 0x7c ∷ 0x8d ∷ 0x44 ∷ 0x55 ∷ 0x66 ∷ [];
      name = codes "BLE-Temp-Sensor";
      rssi = negsuc 71;
      flags = 1;
    }
    ∷ record {
      addr = 0x00 ∷ 0x1a ∷ 0x7d ∷ 0x77 ∷ 0x88 ∷ 0x99 ∷ [];
      name = codes "BT-Speaker";
      rssi = negsuc 59;
      flags = 0;
    }
    ∷ []

-- bt_state_t
pub data Power : Type 0 where
  off on : Power

-- Where discovery_thread stands, `idx` being its variable: at the loop's test, before the callback, in
-- round `i` of sleep_ms_interruptible, behind the loop, or at its end.
pub data Thread : Type 0 where
  checking calling : ℕ → Thread
  sleeping : ℕ → ℕ → Thread
  leaving ended : Thread

-- host_bt_priv_t and the thread that its handle names, with two things that no code reads: the number of
-- threads whose handle was overwritten before they were joined, and the devices that the running
-- discovery has reported, as indices, the last one first.
pub record Priv : Type 0 where
  pub state : Power
  pub name : Text
  pub has_cb : Bool
  pub discovering : Bool
  pub thread_started : Bool
  pub thread : Option Thread
  pub lost : ℕ
  pub reported : List ℕ

-- One step of the thread; `answer` says whether a callback that it calls asks for the end.
pub thread_step : Bool → Priv → Thread → Priv
thread_step answer p (checking idx) =
    if p.discovering
    then record p { thread = some (calling idx) }
    else record p { thread = some leaving }
thread_step answer p (calling idx) =
    let called = if p.has_cb then record p { reported = idx ∷ p.reported } else p in
    if p.has_cb && answer
    then record called { thread = some leaving }
    else record called { thread = some (sleeping ((idx + 1) % length fake_devices) 0) }
thread_step answer p (sleeping idx i) =
    if ltb i 300 && p.discovering
    then record p { thread = some (sleeping idx (i + 1)) }
    else record p { thread = some (checking idx) }
thread_step answer p leaving = record p { discovering = false; thread = some ended }
thread_step answer p ended = p

pub step : Bool → Priv → Priv
unfolding thread_step
step answer p = elim p.thread [ none ↦ p | some t ↦ thread_step answer p t ]

abbrev pub has_ended : Option Thread → Bool
has_ended none = true
has_ended (some ended) = true
has_ended (some _) = false

-- What happens while the client waits in pthread_join: the thread runs on. `none` is a thread that has not ended yet.
pub run_to_end : ℕ → (ℕ → Bool) → Priv → Option Priv
unfolding step
run_to_end zero answers p = if has_ended p.thread then some p else none
run_to_end (suc fuel) answers p =
    let rest = run_to_end fuel (λ k. answers (k + 1)) (step (answers 0) p) in
    if has_ended p.thread then some p else rest

-- A thread that was asked to stop ends within four steps.
abbrev pub join_fuel : ℕ
join_fuel = 4

pub host_bt_get_capabilities : Bool → Reply ℕ
host_bt_get_capabilities caps = if not caps then err einval else ok (1 + 2)

pub host_bt_enable : Priv → Priv
host_bt_enable p = record p { state = on }

-- The end of stop_discovery, when the thread was joined.
abbrev pub joined : Priv → Priv
joined p = record p { thread = none; thread_started = false }

-- `none` is a call that does not return, or joins a handle that names no thread.
pub host_bt_stop_discovery : (ℕ → Bool) → Priv → Option Priv
unfolding run_to_end
host_bt_stop_discovery answers p =
    let asked = record p { discovering = false } in
    let waited = run_to_end join_fuel answers asked in
    if not p.discovering && not p.thread_started
    then some p
    else if p.thread_started
    then elim (p.thread) [
      | none ↦ none
      | some t ↦ elim waited [ none ↦ none | some q ↦ some (joined q) ]
    ]
    else some asked

pub host_bt_disable : (ℕ → Bool) → Priv → Option Priv
unfolding host_bt_stop_discovery
host_bt_disable answers p =
    let stopped = host_bt_stop_discovery answers p in
    elim (if p.discovering then stopped else some p) [
      | none ↦ none
      | some q ↦ some (record q { state = off })
    ]

pub host_bt_get_state : Priv → Bool → Reply Power
host_bt_get_state p state = if not state then err einval else ok p.state

pub host_bt_set_name : Priv → Option Text → Priv × Rc
host_bt_set_name p none = (p, err einval)
host_bt_set_name p (some name) = (record p { name = take name_max_len name }, ok tt)

-- `name` says whether the client's buffer of `size` bytes is not null; the reply is what stands before
-- the NUL.
pub host_bt_get_name : Priv → Bool → ℕ → Reply Text
host_bt_get_name p name size =
    let len = length p.name in
    let shown = if ltb size (len + 1) then size - 1 else len in
    if not name || size == 0 then err einval else ok (take shown p.name)

abbrev pub is_on : Power → Bool
is_on on = true
is_on off = false

-- A handle that is overwritten names a thread that nobody can join any more.
abbrev pub overwritten : Option Thread → ℕ
overwritten none = 0
overwritten (some t) = 1

-- `create` is pthread_create's error, if it fails; what the handle holds then is undefined, so no thread is named by it.
pub host_bt_start_discovery : Option Errno → Bool → Priv → Priv × Rc
host_bt_start_discovery create cb p =
    if not cb
    then (p, err einval)
    else if not (is_on p.state)
    then (p, err einval)
    else if p.discovering
    then (p, err ebusy)
    else elim create [
      | some e ↦ (
        record p {
          has_cb = true;
          discovering = false;
          thread = none;
          lost = p.lost + overwritten p.thread;
        },
        err e,
      )
      | none ↦ (
        record p {
          has_cb = true;
          discovering = true;
          thread_started = true;
          thread = some (checking 0);
          lost = p.lost + overwritten p.thread;
          reported = [];
        },
        ok tt,
      )
    ]

abbrev pub initial : Priv
initial = record {
  state = off;
  name = codes "DarkOS-IPC";
  has_cb = false;
  discovering = false;
  thread_started = false;
  thread = none;
  lost = 0;
  reported = [];
}

pub host_bt_open : Bool → Allocs → ℕ → ℕ × Reply (Device Priv)
host_bt_open = open_device api_version_1_0 initial

-- `close` stops the discovery and frees the blocks.
pub host_bt_close : (ℕ → Bool) → Option (Device Priv) → ℕ → Option (ℕ × Rc)
unfolding host_bt_stop_discovery
host_bt_close answers none live = some (live, ok tt)
host_bt_close answers (some d) live =
    let stopped = host_bt_stop_discovery answers d.priv in
    let p = if d.priv.discovering || d.priv.thread_started then stopped else some d.priv in
    elim p [ none ↦ none | some q ↦ some (close_device (some d) live) ]
