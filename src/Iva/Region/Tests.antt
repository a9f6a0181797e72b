-- ===== src/Iva/Region/Tests.antt =====
-- Runs of the region rules.
use dark_os_svc_kit.Common.{ℕ, ◌≡◌, refl, Bool, true, false, none, List, [], ◌∷◌, map, arith}
use dark_os_svc_kit.Iva.Region.{intruding}
use dark_os_svc_kit.Iva.Region.Stays.{observe_all, is_intrusion, alarms, observe_all-alarms}

-- In from 10 on, out at 40, in from 50 on.
abbrev two_stays : List (ℕ × Bool)
two_stays =
    (10, true) ∷ (20, true) ∷ (25, true) ∷ (40, false) ∷ (50, true) ∷ (55, true) ∷ (61, true) ∷ []

observe_all-alarms_example :
    map is_intrusion (observe_all intruding 10 two_stays none) ≡ alarms 10 none false two_stays
observe_all-alarms_example = observe_all-alarms 10 two_stays none (omega arith)

two_alarms :
    alarms 10 none false two_stays ≡ false ∷ true ∷ false ∷ false ∷ false ∷ false ∷ true ∷ []
unfolding alarms
two_alarms = refl
