-- ===== src/Alarm/Counts.antt =====
-- SvcKit/subsystems/alarm/src/core/alarm_manager.cpp: how many records the manager keeps, and what it counts.
use dark_os_svc_kit.Common.{
  ℕ, ◌+◌, ◌≤◌, ◌≡◌, refl, ap, Bool, Option, none, some, List, [], ◌∷◌, ◌++◌, length, length-append,
  length-drop, Text, arith,
}
use dark_os_svc_kit.Common.Words.{u64}
use dark_os_svc_kit.Alarm.{
  Event, Record, MatchRule, State, counted, outcomes, fresh_record, trim_front, acknowledge_first,
  begin_event, finish_event, run_one, run_on, add_rule, add_action, publish, acknowledge,
}

-- What the clients and the loop do to a manager: publishing with the two readings of the clock and the loop's
-- answer, the two locked sections for an event of the loop, between which the others may come, acknowledging at a time, and adding rules and actions.
pub data Step {ℓ} (Action : Type ℓ) : Type ℓ where
  publishing : ℕ → ℕ → Bool → Event → Step Action
  running : Step Action
  finishing : Bool → Step Action
  acknowledging : ℕ → Bool → Text → Step Action
  adding_rule : Option MatchRule → Step Action
  adding_action : Option Action → Step Action

module _ {ℓ} {Action : Type ℓ} (execute : Action → Event → Bool) (decimal : ℕ → Text) where
  unfoldable pub step : Step Action → State Action → State Action
  unfolding publish run_one run_on acknowledge add_rule add_action
  step (publishing now now' posts e) s = (publish execute decimal now now' posts e s).0
  step running s = run_one execute s
  step (finishing writable) s = run_on execute writable s
  step (acknowledging now writable id) s = (acknowledge execute now writable id s).0
  step (adding_rule r) s = (add_rule execute r s).0
  step (adding_action a) s = (add_action execute a s).0

  unfoldable pub steps : List (Step Action) → State Action → State Action
  unfolding step
  steps [] s = s
  steps (c ∷ cs) s = steps cs (step c s)

abbrev pub in_hand {ℓ} : {A : Type ℓ} → Option A → ℕ
in_hand none = 0
in_hand (some a) = 1

-- The manager keeps at most its maximum, and has counted each event that it received as accepted or as suppressed, but
-- for the one that is in hand.
abbrev pub Counted {ℓ} : {Action : Type ℓ} → State Action → Type 0
Counted s =
    (length s.records ≤ s.maximum_records)
    × (s.stats.received ≡ u64 (s.stats.accepted + s.stats.suppressed + in_hand s.in_flight))

length-trim_front :
    (m : ℕ) (rs : List Record) (r : Record)
    → length rs ≤ m
    → length (trim_front m (rs ++ r ∷ [])) ≤ m
unfolding trim_front
length-trim_front m rs r l = ground (arith, length-append rs (r ∷ []), length-drop 1 (rs ++ r ∷ []))

pub length-acknowledge_first :
    (id : Text) (now : ℕ) (rs : List Record) → length (acknowledge_first id now rs) ≡ length rs
unfolding acknowledge_first
length-acknowledge_first id now [] = refl
length-acknowledge_first id now (r ∷ rs) = ground (arith, length-acknowledge_first id now rs)

module _ {ℓ} {Action : Type ℓ} (execute : Action → Event → Bool) (decimal : ℕ → Text) where
  begin_event-Counted :
      (e : Event) (s : State Action)
      → s.in_flight ≡ none
      → Counted s
      → Counted (begin_event execute e s)
  unfolding begin_event
  begin_event-Counted e s free (l, k) =
      let idle : in_hand s.in_flight ≡ 0 = ap in_hand free in ground (arith, idle)

  finish_event-Counted :
      (writable : Bool) (e : Event) (actions as' : List Action) (s : State Action)
      → s.in_flight ≡ some (e, as')
      → Counted s
      → Counted (finish_event execute writable e actions s)
  unfolding finish_event
  finish_event-Counted writable e actions as' s held (l, k) = (
    length-trim_front s.maximum_records s.records
        (counted (outcomes execute actions e) (fresh_record e)) l,
    let one : in_hand s.in_flight ≡ 1 = ap in_hand held in omega (arith, k, one),
  )

  step-Counted :
      (c : Step Action) (s : State Action) → Counted s → Counted (step execute decimal c s)
  unfolding step publish run_one run_on acknowledge add_rule add_action
  step-Counted (publishing now now' posts e) s h = ground arith
  step-Counted running s h = go s.in_flight refl s.pending
    where
      go :
          (o : Option (Event × List Action))
          → s.in_flight ≡ o
          → (es : List Event)
          → Counted (elim o [
            | some f ↦ s
            | none ↦ elim es [
              | [] ↦ s
              | e ∷ rest ↦ begin_event execute e (record s { pending = rest })
            ]
          ])
      go (some f) p es = h
      go none p [] = h
      go none p (e ∷ rest) = begin_event-Counted e (record s { pending = rest }) p h
  step-Counted (finishing writable) s h = go s.in_flight refl
    where
      go :
          (o : Option (Event × List Action))
          → s.in_flight ≡ o
          → Counted
              (elim o [ none ↦ s | some (e, actions) ↦ finish_event execute writable e actions s ])
      go none p = h
      go (some (e, actions)) p = finish_event-Counted writable e actions actions s p h
  step-Counted (acknowledging now writable id) s h =
      ground (arith, length-acknowledge_first id now s.records)
  step-Counted (adding_rule none) s h = h
  step-Counted (adding_rule (some r)) s h = h
  step-Counted (adding_action none) s h = h
  step-Counted (adding_action (some a)) s h = h

  -- Whatever clients and the loop do to a manager, each locked section a step of its own: if it keeps at most its
  -- maximum of records, and the number of received events is, in 64 bits, that of the accepted and of the suppressed
  -- ones and one more for an event that is in hand between the two sections, that stays so.
  pub steps-Counted :
      (cs : List (Step Action)) (s : State Action)
      → Counted s
      → Counted (steps execute decimal cs s)
  unfolding steps
  steps-Counted [] s h = h
  steps-Counted (c ∷ cs) s h = steps-Counted cs (step execute decimal c s) (step-Counted c s h)
