-- ===== src/Host/Wifi.antt =====
-- platform/ubuntu_x86_64/wifi/wifi_host_x86.c: a station among three access points. The time that has
-- passed at each check of the scan, and the client's callback, are arguments.
use dark_os_svc_kit.Common.{
  ℕ, ◌+◌, Bool, true, false, not, ◌&&◌, ◌||◌, Option, none, some, List, [], ◌∷◌, ◌==◌, leb,
  if◌then◌else◌, take, Text, codes, str_eq, Reply, Rc, ok, err, einval, enoent, enetdown,
}
use dark_os_svc_kit.Common.Int.{ℤ, pos, negsuc}
use dark_os_svc_kit.Hardware.Version.{Device, api_version_1_0}
use dark_os_svc_kit.Hal.{Allocs, open_device, close_device}
pub mod Laws
pub mod Scan
pub mod Tests

abbrev pub ssid_max_len : ℕ
ssid_max_len = 32

abbrev pub security_open : ℕ
security_open = 0

abbrev pub security_wpa2_psk : ℕ
security_wpa2_psk = 1

-- wifi_state_t
pub data LinkState : Type 0 where
  disconnected connecting connected : LinkState

-- wifi_ap_info_t
pub record AccessPoint : Type 0 where
  pub ssid : Text
  pub bssid : List ℕ
  pub rssi : ℤ
  pub frequency_mhz : ℕ
  pub security : ℕ

-- wifi_config_t; its security field is not read.
pub record Config : Type 0 where
  pub ssid : Text
  pub psk : Text

-- wifi_status_t
pub record Status : Type 0 where
  pub state : LinkState
  pub ssid : Text
  pub rssi : ℤ
  pub frequency_mhz : ℕ
  pub ip_addr : Text

-- wifi_caps_t
pub record Caps : Type 0 where
  pub supported_modes : ℕ
  pub supported_bands : ℕ

-- host_wifi_priv_t
pub record Priv : Type 0 where
  pub enabled : Bool
  pub state : LinkState
  pub ssid : Text
  pub rssi : ℤ
  pub frequency_mhz : ℕ

abbrev pub fake_ip : Text
fake_ip = codes "192.168.1.100"

-- host_wifi_fake_aps
abbrev pub fake_aps : List AccessPoint
fake_aps =
    record {
      ssid = codes "DarkOS-Office";
      bssid = 0x02 ∷ 0x11 ∷ 0x22 ∷ 0x33 ∷ 0x44 ∷ 0x01 ∷ [];
      rssi = negsuc 44;
      frequency_mhz = 2437;
      security = security_wpa2_psk;
    }
    ∷ record {
      ssid = codes "DarkOS-Guest";
      bssid = 0x02 ∷ 0x11 ∷ 0x22 ∷ 0x33 ∷ 0x44 ∷ 0x02 ∷ [];
      rssi = negsuc 59;
      frequency_mhz = 2437;
      security = security_wpa2_psk;
    }
    ∷ record {
      ssid = codes "CMCC-Free";
      bssid = 0x02 ∷ 0x11 ∷ 0x22 ∷ 0x33 ∷ 0x44 ∷ 0x03 ∷ [];
      rssi = negsuc 74;
      frequency_mhz = 5180;
      security = security_open;
    }
    ∷ []

pub host_wifi_get_capabilities : Bool → Reply Caps
host_wifi_get_capabilities caps =
    if not caps then err einval else ok (record { supported_modes = 1; supported_bands = 1 })

-- timeout_ms >= 0 && now_ms() - start >= timeout_ms
abbrev pub timed_out : ℤ → ℕ → Bool
timed_out (pos timeout_ms) elapsed_ms = leb timeout_ms elapsed_ms
timed_out (negsuc n) elapsed_ms = false

module _ {C : Type 0} (cb : C → AccessPoint → C × Bool) where
  -- The scan loop from access point `i` on. The callback takes its context to a new one, and says
  -- whether it returned something other than 0.
  pub scan_from : (ℕ → ℕ) → ℤ → ℕ → List AccessPoint → C → C
  scan_from elapsed timeout_ms i [] ctx = ctx
  scan_from elapsed timeout_ms i (ap ∷ aps) ctx =
      if timed_out timeout_ms (elapsed i)
      then ctx
      else (let (ctx', stop) = cb ctx ap in
          if stop then ctx' else scan_from elapsed timeout_ms (i + 1) aps ctx')

  -- `given` says whether the callback is not null.
  pub host_wifi_scan : Priv → Bool → (ℕ → ℕ) → ℤ → C → C × Rc
  unfolding scan_from
  host_wifi_scan p given elapsed timeout_ms ctx =
      if not given
      then (ctx, err einval)
      else if not p.enabled
      then (ctx, err enetdown)
      else (scan_from elapsed timeout_ms 0 fake_aps ctx, ok tt)

-- strncmp(a, b, WIFI_SSID_MAX_LEN) == 0
pub same_ssid : Text → Text → Bool
same_ssid a b = str_eq (take ssid_max_len a) (take ssid_max_len b)

-- The loop of `connect` over the rest of the table.
pub connect_in : List AccessPoint → Priv → Config → Priv × Rc
connect_in [] p cfg = (p, err enoent)
connect_in (ap ∷ aps) p cfg =
    if not (same_ssid cfg.ssid ap.ssid)
    then connect_in aps p cfg
    else if not (ap.security == security_open) && str_eq cfg.psk []
    then (p, err enoent)
    else (
      record p {
        state = connected;
        ssid = take ssid_max_len ap.ssid;
        rssi = ap.rssi;
        frequency_mhz = ap.frequency_mhz;
      },
      ok tt,
    )

pub host_wifi_connect : Priv → Option Config → Priv × Rc
host_wifi_connect p none = (p, err einval)
host_wifi_connect p (some cfg) =
    if not p.enabled then (p, err enetdown) else connect_in fake_aps p cfg

pub host_wifi_disconnect : Priv → Priv
host_wifi_disconnect p = record p {
  state = disconnected;
  ssid = [];
  rssi = pos 0;
  frequency_mhz = 0;
}

pub host_wifi_enable : Priv → Priv
host_wifi_enable p = record p { enabled = true }

pub host_wifi_disable : Priv → Priv
unfolding host_wifi_disconnect
host_wifi_disable p = record (host_wifi_disconnect p) { enabled = false }

abbrev pub is_connected : LinkState → Bool
is_connected connected = true
is_connected _ = false

pub host_wifi_get_status : Priv → Bool → Reply Status
host_wifi_get_status p status =
    if not status
    then err einval
    else if is_connected p.state
    then ok (record {
      state = p.state;
      ssid = take ssid_max_len p.ssid;
      rssi = p.rssi;
      frequency_mhz = p.frequency_mhz;
      ip_addr = take 15 fake_ip;
    })
    else ok (record { state = p.state; ssid = []; rssi = pos 0; frequency_mhz = 0; ip_addr = [] })

abbrev pub initial : Priv
initial = record {
  enabled = false;
  state = disconnected;
  ssid = [];
  rssi = pos 0;
  frequency_mhz = 0;
}

pub host_wifi_open : Bool → Allocs → ℕ → ℕ × Reply (Device Priv)
host_wifi_open = open_device api_version_1_0 initial

pub host_wifi_close : Option (Device Priv) → ℕ → ℕ × Rc
host_wifi_close = close_device
