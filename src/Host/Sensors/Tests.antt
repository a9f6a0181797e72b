-- ===== src/Host/Sensors/Tests.antt =====
-- The sensor theorems at concrete calls. The arithmetic of whole numbers stands in for floating point.
use dark_os_svc_kit.Common.{ℕ, ◌≢◌, true, none, List, [], ◌∷◌, ◌++◌, arith}
use dark_os_svc_kit.Common.Float.{whole}
use dark_os_svc_kit.Host.Sensors.{Slot, poll_round, poll_loop, host_sensors_activate, initial}
use dark_os_svc_kit.Host.Sensors.Poll.{Outcome, poll_round-Outcome, poll_loop-returns}

abbrev lux : ℕ → ℕ
lux ts = 500

-- Both sensors are enabled at time 0.
abbrev both : List (Slot whole lux)
both =
    (host_sensors_activate whole lux 0 2 true
      (host_sensors_activate whole lux 0 1 true (initial whole lux)).0).0

poll_round-Outcome_example :
    Outcome whole lux 4 900000000 700000000 both (poll_round whole lux 4 900000000 700000000 both)
poll_round-Outcome_example = poll_round-Outcome whole lux 3 900000000 700000000 both (omega arith)

poll_loop-returns_example :
    poll_loop whole lux 4 2000000 1000 both ((1500, both) ∷ [] ++ (2000500, both) ∷ []) ≢ none
poll_loop-returns_example =
    poll_loop-returns whole lux 3 2000000 1000 2000500 both both ((1500, both) ∷ []) (omega arith)
      (omega arith)
