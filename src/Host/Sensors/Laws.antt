-- ===== src/Host/Sensors/Laws.antt =====
-- platform/ubuntu_x86_64/sensors/sensors_host_x86.c: which events a poll gives, and when it waits.
use dark_os_svc_kit.Common.{
  ℕ, zero, suc, ◌+◌, ◌*◌, ◌≤◌, ◌<◌, ◌≡◌, refl, ap, Bool, true, false, not, ◌&&◌, ◌||◌, List, [],
  ◌∷◌, ltb, if◌then◌else◌, length, All, arith, ltb_false→le, ltb→lt, or_false, not-false,
}
use dark_os_svc_kit.Common.Words.{u64}
use dark_os_svc_kit.Common.Float.{Float}
use dark_os_svc_kit.Host.Sensors.{
  Slot, Event, earliest, fill_event, fill_due, simulate_temperature_c, due_after,
}

module _ (fl : Float) (lux : ℕ → fl.Value) where
  -- What filling events makes of the slots: a slot is left as it was, or, if it was enabled and due, it gives one
  -- event with its handle and the time, and is next due a delay later.
  pub data Served (now : ℕ)
      : List (Slot fl lux) → List (Slot fl lux) → List (Event fl lux) → Type 0 where
    done : Served now [] [] []
    skip :
        {s : Slot fl lux} {ss ss' : List (Slot fl lux)} {es : List (Event fl lux)}
        → Served now ss ss' es
        → Served now (s ∷ ss) (s ∷ ss') es
    serve :
        {s s' : Slot fl lux} {e : Event fl lux} {ss ss' : List (Slot fl lux)}
        {es : List (Event fl lux)}
        → s.enabled ≡ true
        → s.next_due_ns ≤ now
        → e.handle ≡ s.info.handle
        → e.timestamp_ns ≡ now
        → (s'.info ≡ s.info) × (s'.enabled ≡ s.enabled) × (s'.delay_us ≡ s.delay_us)
        → s'.next_due_ns ≡ u64 (now + s.delay_us * 1000)
        → Served now ss ss' es
        → Served now (s ∷ ss) (s' ∷ ss') (e ∷ es)

  pub untouched : (now : ℕ) (ss : List (Slot fl lux)) → Served now ss ss []
  untouched now [] = done
  untouched now (s ∷ ss) = skip (untouched now ss)

  fill_event-kept :
      (s : Slot fl lux) (now : ℕ)
      → ((fill_event fl lux s now).1.handle ≡ s.info.handle)
        × ((fill_event fl lux s now).1.timestamp_ns ≡ now)
        × ((fill_event fl lux s now).0.info ≡ s.info)
        × ((fill_event fl lux s now).0.enabled ≡ s.enabled)
        × ((fill_event fl lux s now).0.delay_us ≡ s.delay_us)
  unfolding fill_event simulate_temperature_c
  fill_event-kept s now = ground arith

  pub fill_due-Served :
      (now room : ℕ) (ss : List (Slot fl lux))
      → Served now ss (fill_due fl lux now room ss).0 (fill_due fl lux now room ss).1
  unfolding fill_due
  fill_due-Served now zero ss = untouched now ss
  fill_due-Served now (suc room) [] = done
  fill_due-Served now (suc room) (s ∷ ss) =
      go (not s.enabled || ltb now s.next_due_ns) refl (fill_due fl lux now (suc room) ss)
        (fill_due fl lux now room ss) (fill_event fl lux s now) (fill_event-kept s now)
        (fill_due-Served now (suc room) ss) (fill_due-Served now room ss)
    where
      go :
          (b : Bool)
          → (not s.enabled || ltb now s.next_due_ns) ≡ b
          → (r r' : List (Slot fl lux) × List (Event fl lux)) (f : Slot fl lux × Event fl lux)
          → (f.1.handle ≡ s.info.handle)
            × (f.1.timestamp_ns ≡ now)
            × (f.0.info ≡ s.info)
            × (f.0.enabled ≡ s.enabled)
            × (f.0.delay_us ≡ s.delay_us)
          → Served now ss r.0 r.1
          → Served now ss r'.0 r'.1
          → (let out : List (Slot fl lux) × List (Event fl lux) = if b then (s ∷ r.0, r.1) else (
            record (f.0) { next_due_ns = due_after fl lux now f.0.delay_us } ∷ r'.0,
            f.1 ∷ r'.1,
          ) in
              Served now (s ∷ ss) out.0 out.1)
      go true e r r' f k h h' = skip h
      go false e r r' f k h h' =
          let both = or_false _ _ e in
          serve (not-false _ both.0) (ltb_false→le _ _ both.1) k.0 k.1 (k.2, k.3, k.4)
            (ap (λ d. u64 (now + d * 1000)) k.4) h'

  pub fill_due-bound :
      (now room : ℕ) (ss : List (Slot fl lux)) → length (fill_due fl lux now room ss).1 ≤ room
  unfolding fill_due
  fill_due-bound now zero ss = omega arith
  fill_due-bound now (suc room) [] = omega arith
  fill_due-bound now (suc room) (s ∷ ss) =
      go (not s.enabled || ltb now s.next_due_ns) (fill_due fl lux now (suc room) ss)
        (fill_due fl lux now room ss) (fill_due-bound now (suc room) ss)
        (fill_due-bound now room ss)
    where
      go :
          (b : Bool) (r r' : List (Slot fl lux) × List (Event fl lux))
          → length r.1 ≤ suc room
          → length r'.1 ≤ room
          → (let out : List (Slot fl lux) × List (Event fl lux) = if b then (s ∷ r.0, r.1) else (
            record ((fill_event fl lux s now).0) {
              next_due_ns = due_after fl lux now (fill_event fl lux s now).0.delay_us;
            }
                ∷ r'.0,
            (fill_event fl lux s now).1 ∷ r'.1,
          ) in
              length out.1 ≤ suc room)
      go true r r' h h' = h
      go false r r' h h' = omega arith

  -- The earliest due time is above `now` if no enabled slot is due.
  earliest-le : (ss : List (Slot fl lux)) (w : ℕ) → earliest fl lux ss w ≤ w
  unfolding earliest
  earliest-le [] w = omega arith
  earliest-le (s ∷ ss) w = go (ltb s.next_due_ns w) refl s.enabled (λ x. earliest-le ss x)
    where
      go :
          (b : Bool)
          → ltb s.next_due_ns w ≡ b
          → (e : Bool) → ((x : ℕ) → earliest fl lux ss x ≤ x)
          → earliest fl lux ss (if e && b then s.next_due_ns else w) ≤ w
      go true h true ih = omega (arith, ih s.next_due_ns, ltb→lt _ _ h)
      go true h false ih = ih w
      go false h true ih = ih w
      go false h false ih = ih w

  -- No slot that is enabled is due.
  abbrev pub Waiting : ℕ → Slot fl lux → Type 0
  Waiting now s = s.enabled ≡ true → now < s.next_due_ns

  pub earliest-Waiting :
      (now : ℕ) (ss : List (Slot fl lux)) (w : ℕ)
      → now < earliest fl lux ss w
      → All (Waiting now) ss
  unfolding earliest
  earliest-Waiting now [] w h = tt
  earliest-Waiting now (s ∷ ss) w h =
      (λ e. go (ltb s.next_due_ns w) refl s.enabled e h, earliest-Waiting now ss _ h)
    where
      go :
          (b : Bool)
          → ltb s.next_due_ns w ≡ b
          → (e : Bool) → e ≡ true
          → now < earliest fl lux ss (if e && b then s.next_due_ns else w)
          → now < s.next_due_ns
      go true k true e l = omega (arith, earliest-le ss s.next_due_ns)
      go false k true e l = omega (arith, earliest-le ss w, ltb_false→le _ _ k)
      go b k false e l = absurd cc

  pub fill_due-nonempty :
      (now room : ℕ) (ss : List (Slot fl lux)) (w : ℕ)
      → now < w
      → earliest fl lux ss w ≤ now
      → 0 < length (fill_due fl lux now (suc room) ss).1
  unfolding fill_due earliest
  fill_due-nonempty now room [] w l h = absurd (omega arith)
  fill_due-nonempty now room (s ∷ ss) w l h =
      go s.enabled (ltb now s.next_due_ns) (ltb s.next_due_ns w) refl
        (λ x. fill_due-nonempty now room ss x) h
    where
      go :
          (e b c : Bool)
          → ltb now s.next_due_ns ≡ b
          → ((x : ℕ)
              → now < x
              → earliest fl lux ss x ≤ now
              → 0 < length (fill_due fl lux now (suc room) ss).1)
          → earliest fl lux ss (if e && c then s.next_due_ns else w) ≤ now
          → (let r = fill_due fl lux now (suc room) ss in
              let r' = fill_due fl lux now room ss in
              let out : List (Slot fl lux) × List (Event fl lux) =
                if not e || b then (s ∷ r.0, r.1) else (
                  record ((fill_event fl lux s now).0) {
                    next_due_ns = due_after fl lux now (fill_event fl lux s now).0.delay_us;
                  }
                      ∷ r'.0,
                  (fill_event fl lux s now).1 ∷ r'.1,
                ) in
              0 < length out.1)
      go false b c k ih q = ih w l q
      go true true true k ih q = ih s.next_due_ns (ltb→lt _ _ k) q
      go true true false k ih q = ih w l q
      go true false c k ih q = omega arith
