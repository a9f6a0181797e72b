-- ===== src/Alarm/Journal.antt =====
-- SvcKit/subsystems/alarm/src/core/alarm_manager.cpp: the journal, read again by a later process.
use dark_os_svc_kit.Common.{
  ℕ, ◌≡◌, refl, ap, sym, subst, ◌∙◌, Bool, true, false, Option, none, some, List, [], ◌∷◌, ◌++◌,
  Text, mentions, Distinct, Distinct-snoc, arith,
}
use dark_os_svc_kit.Alarm.Counts.{
  Step, publishing, running, finishing, acknowledging, adding_rule, adding_action, step, steps,
}
use dark_os_svc_kit.Alarm.{
  Event, Record, Line, event_line, acknowledgement, State, counted, outcomes, fresh_record,
  trim_front, append_line, acknowledge_first, find_record, replay, newest, load_journal,
  begin_event, finish_event, run_on, acknowledge, publish, run_one, add_rule, add_action,
}
use dark_os_svc_kit.Alarm.Replay.{
  ids, Unbroken, replay-append, Unbroken-append, newest-append, acknowledge_first-ids,
  acknowledge_first-newest, find_record-mentions,
}

-- The journal gives back the records: it parses, and the ids of all its records differ.
pub Recorded : ℕ → List Record → List Line → Type 0
Recorded m rs ls = (rs ≡ load_journal m ls) × Unbroken ls × Distinct (ids (replay ls []))

abbrev Kept {ℓ} : {Action : Type ℓ} → State Action → Type 0
Kept s = Recorded s.maximum_records s.records s.journal

ids-append : (xs ys : List Record) → ids (xs ++ ys) ≡ ids xs ++ ids ys
ids-append [] ys = refl
ids-append (x ∷ xs) ys = ap (λ l. x.event.id ∷ l) (ids-append xs ys)

-- What a record is when the manager makes it: what the journal's reading makes of it.
counted-fresh :
    (os : List Bool) (r : Record)
    → record (counted os r) {
      acknowledged = r.acknowledged;
      acknowledged_timestamp_ns = r.acknowledged_timestamp_ns;
    }
      ≡ counted os r
unfolding counted
counted-fresh [] r = refl
counted-fresh (true ∷ os) r = counted-fresh os (record r { successful_actions = _ })
counted-fresh (false ∷ os) r = counted-fresh os (record r { failed_actions = _ })

counted-event : (os : List Bool) (r : Record) → (counted os r).event ≡ r.event
unfolding counted
counted-event [] r = refl
counted-event (true ∷ os) r = counted-event os (record r { successful_actions = _ })
counted-event (false ∷ os) r = counted-event os (record r { failed_actions = _ })

Recorded-event :
    (m : ℕ) (rs : List Record) (ls : List Line) (r : Record)
    → record r { acknowledged = false; acknowledged_timestamp_ns = 0 } ≡ r
    → mentions r.event.id (ids (replay ls [])) ≡ false
    → Recorded m rs ls
    → Recorded m (trim_front m (rs ++ r ∷ [])) (ls ++ event_line r ∷ [])
unfolding Recorded load_journal
Recorded-event m rs ls r fresh f (k, u, d) =
    let now : replay (ls ++ event_line r ∷ []) [] ≡ replay ls [] ++ r ∷ [] =
      replay-append ls (event_line r) [] u ∙ ap (λ x. replay ls [] ++ x ∷ []) fresh in
    (
      ap (λ x. trim_front m (x ++ r ∷ [])) k
          ∙ sym (newest-append m (replay ls []) r)
          ∙ ap (newest m) (sym now),
      Unbroken-append ls (event_line r) u tt,
      subst Distinct (sym (ap ids now ∙ ids-append (replay ls []) (r ∷ [])))
          (Distinct-snoc (ids (replay ls [])) r.event.id d f),
    )

Recorded-acknowledgement :
    (m now : ℕ) (id : Text) (rs : List Record) (ls : List Line)
    → mentions id (ids rs) ≡ true
    → Recorded m rs ls
    → Recorded m (acknowledge_first id now rs) (ls ++ acknowledgement id now ∷ [])
unfolding Recorded load_journal
Recorded-acknowledgement m now id rs ls f (k, u, d) =
    let read = replay-append ls (acknowledgement id now) [] u in
    (
      ap (acknowledge_first id now) k
          ∙ acknowledge_first-newest id now m (replay ls []) d
              (ap (λ x. mentions id (ids x)) (sym k) ∙ f)
          ∙ ap (newest m) (sym read),
      Unbroken-append ls (acknowledgement id now) u tt,
      subst Distinct (sym (ap ids read ∙ acknowledge_first-ids id now (replay ls []))) d,
    )

module _ {ℓ} {Action : Type ℓ} (execute : Action → Event → Bool) where
  begin_event-Recorded : (e : Event) (s : State Action) → Kept s → Kept (begin_event execute e s)
  unfolding begin_event
  begin_event-Recorded e s h = ground arith

  finish_event-Recorded :
      (e : Event) (actions : List Action) (s : State Action)
      → Kept s
      → mentions e.id (ids (replay s.journal [])) ≡ false
      → Kept (finish_event execute true e actions s)
  unfolding finish_event append_line
  finish_event-Recorded e actions s h f =
      let os = outcomes execute actions e in
      let made = counted os (fresh_record e) in
      let added =
        Recorded-event s.maximum_records s.records s.journal made
          (counted-fresh os (fresh_record e))
          (ap (λ (x : Event). mentions x.id (ids (replay s.journal [])))
              (counted-event os (fresh_record e))
            ∙ f)
          h in
      added

  acknowledge-Recorded :
      (now : ℕ) (id : Text) (s : State Action)
      → Kept s
      → Kept ((acknowledge execute now true id s).0)
  unfolding acknowledge append_line
  acknowledge-Recorded now id s h = go (find_record id s.records) refl
    where
      go :
          (o : Option Record)
          → find_record id s.records ≡ o
          → Kept ((acknowledge execute now true id s).0)
      go none k = ground arith
      go (some r) k =
          let changed =
            Recorded-acknowledgement s.maximum_records now id s.records s.journal
              (find_record-mentions id s.records r k) h in
          ground (arith, changed)

abbrev pub FreshIn {ℓ} : {Action : Type ℓ} → Option (Event × List Action) → List Line → Type 0
FreshIn none ls = Unit
FreshIn (some (e, actions)) ls = mentions e.id (ids (replay ls [])) ≡ false

-- What a step does is written to the journal, and the event that is in hand has an id that no record of the journal has.
abbrev pub Fresh {ℓ} : {Action : Type ℓ} → Step Action → State Action → Type 0
Fresh (publishing now now' posts e) s = Unit
Fresh running s = Unit
Fresh (finishing writable) s = (writable ≡ true) × FreshIn s.in_flight s.journal
Fresh (acknowledging now writable id) s = writable ≡ true
Fresh (adding_rule r) s = Unit
Fresh (adding_action a) s = Unit

module _ {ℓ} {Action : Type ℓ} (execute : Action → Event → Bool) (decimal : ℕ → Text) where
  abbrev pub AllFresh : List (Step Action) → State Action → Type 0
  AllFresh [] s = Unit
  AllFresh (c ∷ cs) s = Fresh c s × AllFresh cs (step execute decimal c s)

  step-Recorded :
      (c : Step Action) (s : State Action) → Fresh c s → Kept s → Kept (step execute decimal c s)
  unfolding step publish run_one run_on add_rule add_action
  step-Recorded (publishing now now' posts e) s f h = ground arith
  step-Recorded running s f h = go s.in_flight s.pending
    where
      go :
          (o : Option (Event × List Action)) (es : List Event)
          → Kept (elim o [
            | some f' ↦ s
            | none ↦ elim es [
              | [] ↦ s
              | e ∷ rest ↦ begin_event execute e (record s { pending = rest })
            ]
          ])
      go (some f') es = h
      go none [] = h
      go none (e ∷ rest) = begin_event-Recorded execute e (record s { pending = rest }) h
  step-Recorded (finishing writable) s (w, f) h = go writable s.in_flight w f
    where
      go :
          (b : Bool) (o : Option (Event × List Action))
          → b ≡ true
          → FreshIn o s.journal
          → Kept (elim o [ none ↦ s | some (e, actions) ↦ finish_event execute b e actions s ])
      go b none k m = h
      go true (some (e, actions)) k m = finish_event-Recorded execute e actions s h m
      go false (some (e, actions)) k m = absurd cc
  step-Recorded (acknowledging now true id) s f h = acknowledge-Recorded execute now id s h
  step-Recorded (acknowledging now false id) s f h = absurd cc
  step-Recorded (adding_rule none) s f h = h
  step-Recorded (adding_rule (some r)) s f h = h
  step-Recorded (adding_action none) s f h = h
  step-Recorded (adding_action (some a)) s f h = h

  steps-Recorded :
      (cs : List (Step Action)) (s : State Action)
      → AllFresh cs s
      → Kept s
      → Kept (steps execute decimal cs s)
  unfolding steps
  steps-Recorded [] s f h = h
  steps-Recorded (c ∷ cs) s f h =
      steps-Recorded cs (step execute decimal c s) f.1 (step-Recorded c s f.0 h)

  -- After any steps from a manager whose journal parses and names each record once, as long as every write succeeds
  -- and every event that is recorded has a fresh id, a later process that loads the journal has exactly the records that
  -- the manager keeps, their acknowledgements included.
  pub load_journal-steps :
      (cs : List (Step Action)) (s : State Action)
      → s.records ≡ load_journal s.maximum_records s.journal
      → Unbroken s.journal
      → Distinct (ids (replay s.journal []))
      → AllFresh cs s
      → (let t = steps execute decimal cs s in load_journal t.maximum_records t.journal ≡ t.records)
  unfolding Recorded
  load_journal-steps cs s k u d f = sym (steps-Recorded cs s f (k, u, d)).0
