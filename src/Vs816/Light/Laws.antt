-- ===== src/Vs816/Light/Laws.antt =====
-- platform/vendors/visinextek/socs/vs816/light/light_vs816.c: what a lamp keeps and what its pin shows.
use dark_os_svc_kit.Common.{ℕ, ◌≡◌, ◌≢◌, true, false, [], Text, ok, arith}
use dark_os_svc_kit.Common.Int.{is_negative}
use dark_os_svc_kit.Linux.Gpio.{Kernel}
use dark_os_svc_kit.Host.Light.{LightState}
use dark_os_svc_kit.Vs816.Light.{Lamp, show_state, set_lamp}

module _ (k : Kernel) (decimal : ℕ → Text) where
  -- Setting a lamp has the reply of the pin: it keeps the new state exactly when the level was written, and its old
  -- one after every error; a lamp without a pin is refused and nothing is written.
  pub set_lamp_lem :
      (state : LightState) (l : Lamp)
      → (let x = set_lamp k decimal state l in
          (x.2 ≡ ok tt → (x.0.state ≡ state) × (x.0.prepared ≡ true) × (is_negative l.pin ≡ false))
          × (x.2 ≢ ok tt → x.0.state ≡ l.state)
          × (is_negative l.pin ≡ true → x.1 ≡ [])
          × (x.0.pin ≡ l.pin))
  unfolding set_lamp show_state
  set_lamp_lem state l = (λ h. ground arith, λ h. ground arith, λ h. ground arith, ground arith)
