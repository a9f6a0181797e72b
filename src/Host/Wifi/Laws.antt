-- ===== src/Host/Wifi/Laws.antt =====
-- The link of the host's station.
use mathlib.Core.Option.{some-injective}
use dark_os_svc_kit.Common.{
  ℕ, zero, suc, ◌≤◌, ◌≡◌, refl, sym, subst, ◌∙◌, ◌⊎◌, inl, inr, Bool, true, false, not, Option,
  none, some, List, [], ◌∷◌, arith, if◌then◌else◌, Bool-cases, length, get_elem?, take, take_all,
  str_eq, ok, err, enoent, enetdown,
}
use dark_os_svc_kit.Common.Int.{pos}
use dark_os_svc_kit.Host.Wifi.{
  ssid_max_len, security_open, disconnected, connected, AccessPoint, Config, Status, Priv, fake_aps,
  same_ssid, connect_in, host_wifi_connect, host_wifi_disconnect, host_wifi_enable,
  host_wifi_disable, host_wifi_get_status, initial, fake_ip,
}

-- What the device holds of the access point that it is connected to.
pub record Holds (p : Priv) (a : AccessPoint) : Type 0 where
  pub ssid : p.ssid ≡ take ssid_max_len a.ssid
  pub rssi : p.rssi ≡ a.rssi
  pub frequency : p.frequency_mhz ≡ a.frequency_mhz

-- An access point of the table.
abbrev pub Listed : AccessPoint → Type 0
Listed a = (i : ℕ) × (get_elem? fake_aps i ≡ some a)

-- The device is connected, enabled and holds an access point of the table; or it holds nothing.
pub data Inv (p : Priv) : Type 0 where
  linked : (a : AccessPoint) → p.state ≡ connected → p.enabled ≡ true → Listed a → Holds p a → Inv p
  cleared : p.state ≡ disconnected → p.ssid ≡ [] → p.rssi ≡ pos 0 → p.frequency_mhz ≡ 0 → Inv p

-- What a successful connection shows: the name asked for is that of the table's access point, which is
-- open or was given a passphrase, and the device holds it.
pub record Joined (p q : Priv) (cfg : Config) (a : AccessPoint) : Type 0 where
  pub named : same_ssid cfg.ssid a.ssid ≡ true
  pub admitted : (a.security ≡ security_open) ⊎ (str_eq cfg.psk [] ≡ false)
  pub state : q.state ≡ connected
  pub enabled : q.enabled ≡ p.enabled
  pub holds : Holds q a

connect_in-Joined :
    (aps : List AccessPoint) (p q : Priv) (cfg : Config)
    → connect_in aps p cfg ≡ (q, ok tt)
    → (i : ℕ) × (a : AccessPoint) × (get_elem? aps i ≡ some a) × Joined p q cfg a
unfolding connect_in
connect_in-Joined [] p q cfg h = cc
connect_in-Joined (a ∷ aps) p q cfg h = elim (Bool-cases (same_ssid cfg.ssid a.ssid)) [
  | inl hit ↦ (0, a, refl, ground arith)
  | inr miss ↦
      let rest : connect_in aps p cfg ≡ (q, ok tt) = ground arith in
      let (i, b, e, joined) = connect_in-Joined aps p q cfg rest in (suc i, b, e, joined)
]

connect_in_error :
    (aps : List AccessPoint) (p : Priv) (cfg : Config)
    → (connect_in aps p cfg ≡ (p, err enoent)) ⊎ ((connect_in aps p cfg).1 ≡ ok tt)
unfolding connect_in
connect_in_error [] p cfg = inl refl
connect_in_error (a ∷ aps) p cfg = ground (arith, connect_in_error aps p cfg)

Listed-short : (a : AccessPoint) → Listed a → length a.ssid ≤ ssid_max_len
Listed-short a (zero, e) =
    subst (λ x. length x.ssid ≤ ssid_max_len) (some-injective _ _ e) (omega arith)
Listed-short a (suc zero, e) =
    subst (λ x. length x.ssid ≤ ssid_max_len) (some-injective _ _ e) (omega arith)
Listed-short a (suc (suc zero), e) =
    subst (λ x. length x.ssid ≤ ssid_max_len) (some-injective _ _ e) (omega arith)
Listed-short a (suc (suc (suc i)), e) = cc

-- What the status of a device shows that is connected to an access point.
abbrev pub status_of : AccessPoint → Status
status_of a = record {
  state = connected;
  ssid = a.ssid;
  rssi = a.rssi;
  frequency_mhz = a.frequency_mhz;
  ip_addr = fake_ip;
}

abbrev pub no_link : Status
no_link = record { state = disconnected; ssid = []; rssi = pos 0; frequency_mhz = 0; ip_addr = [] }

get_status_linked :
    (q : Priv) (a : AccessPoint)
    → Listed a
    → q.state ≡ connected
    → Holds q a
    → host_wifi_get_status q true ≡ ok (status_of a)
unfolding host_wifi_get_status
get_status_linked q a listed on holds =
    ground (arith, take_all ssid_max_len a.ssid (Listed-short a listed))

-- A connection that succeeds is to an access point of the table by the asked name, which is open or was
-- given a passphrase, on an enabled device; the status then shows that access point and an address.
pub connect-get_status :
    (p q : Priv) (cfg : Config)
    → host_wifi_connect p (some cfg) ≡ (q, ok tt)
    → (a : AccessPoint) × Listed a
      × Joined p q cfg a
      × (p.enabled ≡ true)
      × (host_wifi_get_status q true ≡ ok (status_of a))
unfolding host_wifi_connect
connect-get_status p q cfg h =
    let on : p.enabled ≡ true = ground arith in
    let loop : connect_in fake_aps p cfg ≡ (q, ok tt) = ground arith in
    let (i, a, e, joined) = connect_in-Joined fake_aps p q cfg loop in
    (a, (i, e), joined, on, get_status_linked q a (i, e) joined.state joined.holds)

-- One call of the device that may change its state.
pub data Call : Type 0 where
  connects : Option Config → Call
  disconnects enables disables : Call

pub apply : Call → Priv → Priv
apply (connects cfg) p = (host_wifi_connect p cfg).0
apply disconnects p = host_wifi_disconnect p
apply enables p = host_wifi_enable p
apply disables p = host_wifi_disable p

connect_in-Inv :
    (p : Priv) (cfg : Config) → p.enabled ≡ true → Inv p → Inv (connect_in fake_aps p cfg).0
connect_in-Inv p cfg on inv = elim (connect_in_error fake_aps p cfg) [
  | inl refused ↦ subst (λ o. Inv o.0) (sym refused) inv
  | inr accepted ↦
      let q = (connect_in fake_aps p cfg).0 in
      let whole : connect_in fake_aps p cfg ≡ (q, ok tt) = λ k. (q, accepted k) in
      let (i, a, e, joined) = connect_in-Joined fake_aps p q cfg whole in
      linked a joined.state (joined.enabled ∙ on) (i, e) joined.holds
]

apply-Inv : (c : Call) (p : Priv) → Inv p → Inv (apply c p)
unfolding apply host_wifi_connect host_wifi_disconnect host_wifi_enable host_wifi_disable
apply-Inv (connects none) p inv = inv
apply-Inv (connects (some cfg)) p inv = go p.enabled refl
  where
    go :
        (on : Bool)
        → p.enabled ≡ on
        → Inv (if not on then (p, err enetdown) else connect_in fake_aps p cfg).0
    go true on = connect_in-Inv p cfg on inv
    go false on = inv
apply-Inv disconnects p inv = cleared refl refl refl refl
apply-Inv enables p (linked a s on listed holds) =
    linked a s refl listed
      (record { ssid = holds.ssid; rssi = holds.rssi; frequency = holds.frequency })
apply-Inv enables p (cleared s n r f) = cleared s n r f
apply-Inv disables p inv = cleared refl refl refl refl

pub run : List Call → Priv → Priv
run [] p = p
run (c ∷ cs) p = run cs (apply c p)

run-Inv : (cs : List Call) (p : Priv) → Inv p → Inv (run cs p)
unfolding run
run-Inv [] p inv = inv
run-Inv (c ∷ cs) p inv = run-Inv cs (apply c p) (apply-Inv c p inv)

-- The status of a device that holds an access point of the table, and of one that holds none.
get_status-Inv :
    (p : Priv)
    → Inv p
    → ((a : AccessPoint) × Listed a
        × (p.enabled ≡ true)
        × (host_wifi_get_status p true ≡ ok (status_of a)))
      ⊎ (host_wifi_get_status p true ≡ ok no_link)
get_status-Inv p (linked a s on listed holds) =
    inl (a, listed, on, get_status_linked p a listed s holds)
get_status-Inv p (cleared s n r f) = inr (unfold host_wifi_get_status in rw s)

-- After any sequence of calls on a fresh device its status shows an access point of the table, with all
-- of that one's data, and the device is enabled; or it shows no link at all, with every field empty.
pub run-get_status :
    (cs : List Call)
    → ((a : AccessPoint) × Listed a
        × ((run cs initial).enabled ≡ true)
        × (host_wifi_get_status (run cs initial) true ≡ ok (status_of a)))
      ⊎ (host_wifi_get_status (run cs initial) true ≡ ok no_link)
run-get_status cs =
    get_status-Inv (run cs initial) (run-Inv cs initial (cleared refl refl refl refl))
