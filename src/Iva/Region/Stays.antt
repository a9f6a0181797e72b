-- ===== src/Iva/Region/Stays.antt =====
-- SvcKit/subsystems/iva/src/perimeter/intrusion_rule.cpp: when an intrusion is reported.
use dark_os_svc_kit.Common.{
  ℕ, ◌+◌, ◌<◌, ◌≡◌, refl, Bool, true, false, not, ◌&&◌, ◌||◌, Option, none, some, List, [], ◌∷◌,
  map, leb, ◌==◌, if◌then◌else◌, arith,
}
use dark_os_svc_kit.Iva.{EventType, intrusion}
use dark_os_svc_kit.Iva.Region.{Mode, intruding, State, move_target, observe}

-- What the rule appends for one target over its frames: each frame has its time and whether the target is inside.
pub observe_all : Mode → ℕ → List (ℕ × Bool) → Option State → List (Option EventType)
observe_all mode dwell [] s = []
observe_all mode dwell ((now, inside) ∷ fs) s =
    let (s', event) = observe mode dwell now inside s in event ∷ observe_all mode dwell fs (some s')

abbrev pub is_intrusion : Option EventType → Bool
is_intrusion (some intrusion) = true
is_intrusion e = false

-- When the stay began that goes on at a time.
abbrev pub start_of : Option ℕ → ℕ → ℕ
start_of none now = now
start_of (some since) now = since

abbrev pub is_due : ℕ → ℕ → ℕ → Bool → Bool
is_due dwell now since reported = not reported && not (since == 0) && leb (since + dwell) now

-- Which frames are to be reported: the first one of each stay that is as long as the dwell time. A stay that
-- begins at time 0 is never reported.
unfoldable pub alarms : ℕ → Option ℕ → Bool → List (ℕ × Bool) → List Bool
alarms dwell stay reported [] = []
alarms dwell stay reported ((now, false) ∷ fs) = false ∷ alarms dwell none false fs
alarms dwell stay reported ((now, true) ∷ fs) =
    let since = start_of stay now in
    let due = is_due dwell now since reported in
    due ∷ alarms dwell (some since) (reported || due) fs

abbrev pub stay_of : Option State → Option ℕ
stay_of none = none
stay_of (some s) = if s.inside then some s.entered_at_ns else none

abbrev pub reported_of : Option State → Bool
reported_of none = false
reported_of (some s) = s.inside && s.triggered

observe-inside :
    (dwell now : ℕ) (o : Option State)
    → 0 < dwell
    → (let r = observe intruding dwell now true o in
        let due = is_due dwell now (start_of (stay_of o) now) (reported_of o) in
        (is_intrusion r.1 ≡ due)
        × (stay_of (some r.0) ≡ some (start_of (stay_of o) now))
        × (reported_of (some r.0) ≡ (reported_of o || due)))
unfolding observe move_target
observe-inside dwell now none h = ground arith
observe-inside dwell now (some s) h = ground arith

observe-outside :
    (dwell now : ℕ) (o : Option State)
    → (let r = observe intruding dwell now false o in
        (is_intrusion r.1 ≡ false) × (stay_of (some r.0) ≡ none) × (reported_of (some r.0) ≡ false))
unfolding observe move_target
observe-outside dwell now none = ground arith
observe-outside dwell now (some s) = ground arith

-- With a dwell time above 0, an intrusion rule reports a target in exactly the frames that are to be reported: once
-- in each stay, when it has been as long as the dwell time. This holds from any state of the target on.
pub observe_all-alarms :
    (dwell : ℕ) (fs : List (ℕ × Bool)) (o : Option State)
    → 0 < dwell
    → map is_intrusion (observe_all intruding dwell fs o)
      ≡ alarms dwell (stay_of o) (reported_of o) fs
unfolding observe_all alarms
observe_all-alarms dwell [] o h = refl
observe_all-alarms dwell ((now, true) ∷ fs) o h =
    let step = observe-inside dwell now o h in
    let rest = observe_all-alarms dwell fs (some (observe intruding dwell now true o).0) h in
    cc (step.0, step.1, step.2, rest)
observe_all-alarms dwell ((now, false) ∷ fs) o h =
    let step = observe-outside dwell now o in
    let rest = observe_all-alarms dwell fs (some (observe intruding dwell now false o).0) h in
    cc (step.0, step.1, step.2, rest)
