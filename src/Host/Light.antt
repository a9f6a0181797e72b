-- ===== src/Host/Light.antt =====
-- platform/ubuntu_x86_64/light/light_host_x86.c: the lamps of the host, kept in memory. What `set_light`
-- prints is left out.
use dark_os_svc_kit.Common.{
  ℕ, ◌+◌, Bool, true, false, not, Option, none, some, List, [], ◌∷◌, ltb, if◌then◌else◌, get_or,
  set, replicate, is_ok, Reply, Rc, ok, err, einval,
}
use dark_os_svc_kit.Hardware.Version.{Device, api_version_1_0}
use dark_os_svc_kit.Hal.{Allocs, open_device, close_device}
pub mod Laws

abbrev pub light_count : ℕ
light_count = 3

-- light_state_t
pub record LightState : Type 0 where
  pub color_rgb : ℕ
  pub brightness : ℕ
  pub flash_mode : ℕ
  pub flash_on_ms : ℕ
  pub flash_off_ms : ℕ

-- What `calloc` leaves in a state: off, and steady.
abbrev pub zero_state : LightState
zero_state = record {
  color_rgb = 0;
  brightness = 0;
  flash_mode = 0;
  flash_on_ms = 0;
  flash_off_ms = 0;
}

-- host_light_priv_t: one state for each lamp.
pub record Priv : Type 0 where
  pub states : List LightState

pub host_light_check_id : ℕ → Rc
host_light_check_id id = if ltb id light_count then ok tt else err einval

-- LIGHT_CAPS_STATUS | LIGHT_CAPS_IR | LIGHT_CAPS_WHITE, if the output pointer is not null.
pub host_light_get_capabilities : Bool → Reply ℕ
host_light_get_capabilities caps = if not caps then err einval else ok (1 + 2 + 4)

pub clamp_brightness : LightState → LightState
clamp_brightness s = if ltb 255 s.brightness then record s { brightness = 255 } else s

-- `none` is a null pointer.
pub host_light_set_light : Priv → ℕ → Option LightState → Priv × Rc
host_light_set_light p id none = (p, err einval)
host_light_set_light p id (some s) =
    if not (is_ok (host_light_check_id id))
    then (p, err einval)
    else (record p { states = set p.states id (clamp_brightness s) }, ok tt)

pub host_light_get_light : Priv → ℕ → Bool → Reply LightState
host_light_get_light p id state =
    if not state
    then err einval
    else if not (is_ok (host_light_check_id id))
    then err einval
    else ok (get_or p.states id zero_state)

pub host_light_open : Bool → Allocs → ℕ → ℕ × Reply (Device Priv)
host_light_open = open_device api_version_1_0 (record { states = replicate light_count zero_state })

pub host_light_close : Option (Device Priv) → ℕ → ℕ × Rc
host_light_close = close_device
