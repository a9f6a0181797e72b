-- ===== src/Host/Wifi/Tests.antt =====
-- The station's theorems at concrete calls.
use dark_os_svc_kit.Common.{◌≡◌, refl, ◌⊎◌, true, some, List, [], ◌∷◌, codes, str_eq, ok}
use dark_os_svc_kit.Host.Wifi.{
  AccessPoint, Config, Priv, initial, same_ssid, connect_in, host_wifi_connect,
  host_wifi_get_status,
}
use dark_os_svc_kit.Host.Wifi.Laws.{
  Listed, Call, connects, enables, run, status_of, no_link, run-get_status,
}

abbrev office : Config
office = record { ssid = codes "DarkOS-Office"; psk = codes "secret" }

abbrev switched_on : Priv
switched_on = record initial { enabled = true }

abbrev at_office : Priv
at_office = (host_wifi_connect switched_on (some office)).0

office_answers : host_wifi_connect switched_on (some office) ≡ (at_office, ok tt)
unfolding host_wifi_connect connect_in same_ssid str_eq
office_answers = refl

abbrev history : List Call
history = enables ∷ connects (some office) ∷ []

run-get_status_example :
    ((a : AccessPoint) × Listed a
      × ((run history initial).enabled ≡ true)
      × (host_wifi_get_status (run history initial) true ≡ ok (status_of a)))
    ⊎ (host_wifi_get_status (run history initial) true ≡ ok no_link)
run-get_status_example = run-get_status history
