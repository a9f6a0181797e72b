-- ===== src/Host/Sensors/Delays.antt =====
-- platform/ubuntu_x86_64/sensors/sensors_host_x86.c: the sampling intervals under any sequence of calls.
use dark_os_svc_kit.Common.{
  ℕ, ◌≤◌, ◌≡◌, refl, ap, subst, Bool, true, false, Option, none, some, List, [], ◌∷◌, ◌==◌,
  if◌then◌else◌, All, arith,
}
use dark_os_svc_kit.Common.Float.{Float}
use dark_os_svc_kit.Host.Sensors.{
  Slot, Event, Round, Info, finished, waits, fill_due, update_slot, activated, delayed, replied,
  host_sensors_activate, host_sensors_set_delay, poll_round, initial,
}
use dark_os_svc_kit.Host.Sensors.Laws.{Served, done, skip, serve, fill_due-Served}

module _ (fl : Float) (lux : ℕ → fl.Value) where
  -- Calls that change the slots: a poll does so in its last round.
  pub data Call : Type 0 where
    activates : ℕ → ℕ → Bool → Call
    sets_delay : ℕ → ℕ → ℕ → Call
    polls : ℕ → ℕ → ℕ → Call

  abbrev pub after_round : List (Slot fl lux) → Round fl lux → List (Slot fl lux)
  after_round ss (finished ss' es) = ss'
  after_round ss (waits target) = ss

  pub apply : Call → List (Slot fl lux) → List (Slot fl lux)
  apply (activates now handle enabled) ss = (host_sensors_activate fl lux now handle enabled ss).0
  apply (sets_delay now handle delay_us) ss =
      (host_sensors_set_delay fl lux now handle delay_us ss).0
  apply (polls max_count deadline_ns now) ss =
      after_round ss (poll_round fl lux max_count deadline_ns now ss)

  pub run : List Call → List (Slot fl lux) → List (Slot fl lux)
  unfolding apply
  run [] ss = ss
  run (c ∷ cs) ss = run cs (apply c ss)

  -- The slot samples no faster than its sensor allows.
  abbrev pub Allowed : Slot fl lux → Type 0
  Allowed s = s.info.min_delay_us ≤ s.delay_us

  update_slot-Allowed :
      (f : Slot fl lux → Option (Slot fl lux)) (handle : ℕ) (ss ss' : List (Slot fl lux))
      → ((s s' : Slot fl lux) → f s ≡ some s' → Allowed s → Allowed s')
      → update_slot fl lux f handle ss ≡ some ss'
      → All Allowed ss
      → All Allowed ss'
  unfolding update_slot
  update_slot-Allowed f handle [] ss' k e h = absurd cc
  update_slot-Allowed f handle (s ∷ ss) ss' k e h =
      go (s.info.handle == handle) (f s) refl (update_slot fl lux f handle ss) refl
        (λ t g. update_slot-Allowed f handle ss t k g h.1) e
    where
      go :
          (b : Bool) (o : Option (Slot fl lux))
          → f s ≡ o
          → (r : Option (List (Slot fl lux))) → update_slot fl lux f handle ss ≡ r
          → ((t : List (Slot fl lux)) → update_slot fl lux f handle ss ≡ some t → All Allowed t)
          → ◌≡◌ {A = Option (List (Slot fl lux))}
              (if b
                then elim o [ none ↦ none | some s' ↦ some (s' ∷ ss) ]
                else elim r [ none ↦ none | some t ↦ some (s ∷ t) ])
              (some ss')
          → All Allowed ss'
      go true none g r q ih x = absurd cc
      go true (some s') g r q ih x =
          let same : s' ∷ ss ≡ ss' = cc in subst (All Allowed) same (k s s' g h.0, h.1)
      go false o g none q ih x = absurd cc
      go false o g (some t) q ih x =
          let same : s ∷ t ≡ ss' = cc in subst (All Allowed) same (h.0, ih t q)

  replied-Allowed :
      (f : Slot fl lux → Option (Slot fl lux)) (handle : ℕ) (ss : List (Slot fl lux))
      → ((s s' : Slot fl lux) → f s ≡ some s' → Allowed s → Allowed s')
      → All Allowed ss
      → All Allowed (replied fl lux ss (update_slot fl lux f handle ss)).0
  replied-Allowed f handle ss k h = go (update_slot fl lux f handle ss) refl
    where
      go :
          (o : Option (List (Slot fl lux)))
          → update_slot fl lux f handle ss ≡ o
          → All Allowed (replied fl lux ss o).0
      go none e = h
      go (some ss') e = update_slot-Allowed f handle ss ss' k e h

  activated-Allowed :
      (now : ℕ) (enabled : Bool) (s s' : Slot fl lux)
      → activated fl lux now enabled s ≡ some s'
      → Allowed s
      → Allowed s'
  unfolding activated
  activated-Allowed now true s s' e h = ground arith
  activated-Allowed now false s s' e h = ground arith

  delayed-Allowed :
      (now delay_us : ℕ) (s s' : Slot fl lux)
      → delayed fl lux now delay_us s ≡ some s'
      → Allowed s
      → Allowed s'
  unfolding delayed
  delayed-Allowed now delay_us s s' e h = ground arith

  Served-Allowed :
      (now : ℕ) (ss ss' : List (Slot fl lux)) (es : List (Event fl lux))
      → Served fl lux now ss ss' es
      → All Allowed ss
      → All Allowed ss'
  Served-Allowed now ss ss' es done h = tt
  Served-Allowed now ss ss' es (skip d) h = (h.0, Served-Allowed now _ _ _ d h.1)
  Served-Allowed now ss ss' es (serve {s = s} {s' = s'} a b c e k f d) h = (
    omega (arith, h.0, ap (λ (i : Info). i.min_delay_us) k.0, k.2),
    Served-Allowed now _ _ _ d h.1,
  )

  polled-Allowed :
      (max_count deadline_ns now : ℕ) (ss : List (Slot fl lux))
      → All Allowed ss
      → All Allowed (after_round ss (poll_round fl lux max_count deadline_ns now ss))
  unfolding poll_round
  polled-Allowed max_count deadline_ns now ss h =
      go _ _ _ _ _ _ (fill_due fl lux now max_count ss)
        (Served-Allowed now ss _ _ (fill_due-Served fl lux now max_count ss) h)
    where
      go :
          (a b c d : Bool) (t t' : Option ℕ) (r : List (Slot fl lux) × List (Event fl lux))
          → All Allowed r.0
          → All Allowed (
              after_round ss (
                if a
                then (if b then finished ss [] else waits t)
                else if c
                then finished r.0 r.1
                else if d
                then finished ss []
                else waits t'))
      go true true c d t t' r k = h
      go true false c d t t' r k = h
      go false b true d t t' r k = k
      go false b false true t t' r k = h
      go false b false false t t' r k = h

  apply-Allowed : (c : Call) (ss : List (Slot fl lux)) → All Allowed ss → All Allowed (apply c ss)
  unfolding apply host_sensors_activate host_sensors_set_delay
  apply-Allowed (activates now handle enabled) ss h =
      replied-Allowed (activated fl lux now enabled) handle ss (activated-Allowed now enabled) h
  apply-Allowed (sets_delay now handle delay_us) ss h =
      replied-Allowed (delayed fl lux now delay_us) handle ss (delayed-Allowed now delay_us) h
  apply-Allowed (polls max_count deadline_ns now) ss h =
      polled-Allowed max_count deadline_ns now ss h

  run-Allowed :
      (cs : List Call) (ss : List (Slot fl lux)) → All Allowed ss → All Allowed (run cs ss)
  unfolding run
  run-Allowed [] ss h = h
  run-Allowed (c ∷ cs) ss h = run-Allowed cs (apply c ss) (apply-Allowed c ss h)

  -- After any sequence of activations, changes of delays and polls on a fresh device, no sensor's sampling interval
  -- is below the least one that it announces.
  pub run_delays : (cs : List Call) → All Allowed (run cs (initial fl lux))
  run_delays cs = run-Allowed cs (initial fl lux) (omega arith, (omega arith, tt))
