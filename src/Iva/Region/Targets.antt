-- ===== src/Iva/Region/Targets.antt =====
-- SvcKit/subsystems/iva/src/perimeter/intrusion_rule.cpp: the targets of a rule do not touch each other.
use dark_os_svc_kit.Common.{
  ℕ, ◌≡◌, refl, ap, ◌∙◌, Option, some, List, [], ◌∷◌, ◌==◌, if◌then◌else◌, arith,
}
use dark_os_svc_kit.Common.Float.{Float}
use dark_os_svc_kit.Iva.{Point, Track}
use dark_os_svc_kit.Iva.Region.{
  Mode, State, Region, observe, lookup, store, contains, evaluate_region,
}

lookup-store :
    (id i : ℕ) (s : State) (m : List (ℕ × State))
    → lookup id (store i s m) ≡ (if i == id then some s else lookup id m)
unfolding lookup store
lookup-store id i s [] = refl
lookup-store id i s ((j, t) ∷ m) = ground (arith, lookup-store id i s m)

-- The state that a track's own entry gives, read under any id.
same_target :
    (f : Option State → State) (i id : ℕ) (m : List (ℕ × State))
    → (if i == id then some (f (lookup i m)) else lookup id m)
      ≡ (if i == id then some (f (lookup id m)) else lookup id m)
same_target f i id m = ground arith

module _ (fl : Float) where
  -- What a rule knows of one target after the tracks of a frame: only the tracks of that target matter.
  abbrev pub followed :
      List (Point fl.Value) → Mode → ℕ → ℕ → ℕ → List (Track fl.Value) → Option State → Option State
  followed polygon mode dwell now id [] o = o
  followed polygon mode dwell now id (t ∷ ts) o =
      let next = some (observe mode dwell now (contains fl polygon t.center) o).0 in
      followed polygon mode dwell now id ts (if t.id == id then next else o)

  -- Evaluating a region rule on a frame leaves for each target what following that target alone would, whatever
  -- other tracks the frame has.
  pub evaluate_region-followed :
      (now id : ℕ) (ts : List (Track fl.Value)) (r : Region fl.Value)
      → lookup id (evaluate_region fl now ts r).0.states
        ≡ followed r.polygon r.mode r.dwell_time_ns now id ts (lookup id r.states)
  unfolding evaluate_region
  evaluate_region-followed now id [] r = refl
  evaluate_region-followed now id (t ∷ ts) r =
      let next = λ (o : Option State).
        (observe r.mode r.dwell_time_ns now (contains fl r.polygon t.center) o).0 in
      evaluate_region-followed now id ts
        (record r { states = store t.id (next (lookup t.id r.states)) r.states })
      ∙ ap (followed r.polygon r.mode r.dwell_time_ns now id ts) (
          lookup-store id t.id (next (lookup t.id r.states)) r.states
          ∙ same_target next t.id id r.states)
