-- ===== src/Host/Sensors/Poll.antt =====
-- platform/ubuntu_x86_64/sensors/sensors_host_x86.c: what a round of poll's loop comes to.
use dark_os_svc_kit.Common.{
  ℕ, suc, ◌≤◌, ◌<◌, ◌≡◌, ◌≢◌, refl, ap, subst, ◌⊎◌, inl, inr, Bool, true, false, Option, none, some,
  List, [], ◌∷◌, ◌++◌, ltb, leb, ◌==◌, if◌then◌else◌, length, All, arith, leb→le, leb_false→lt,
  ==_iff,
}
use dark_os_svc_kit.Common.Float.{Float}
use dark_os_svc_kit.Host.Sensors.{
  uint64_max, Slot, Event, Round, finished, waits, earliest, fill_due, poll_round, poll_loop,
}
use dark_os_svc_kit.Host.Sensors.Laws.{
  Served, untouched, Waiting, earliest-Waiting, fill_due-nonempty, fill_due-Served, fill_due-bound,
}

module _ (fl : Float) (lux : ℕ → fl.Value) where
  -- What a round comes to.
  pub Outcome : ℕ → ℕ → ℕ → List (Slot fl lux) → Round fl lux → Type 0
  Outcome max_count deadline_ns now ss (finished ss' es) =
      Served fl lux now ss ss' es × (length es ≤ max_count) × ((es ≡ []) → deadline_ns ≤ now)
  Outcome max_count deadline_ns now ss (waits none) =
      All (Waiting fl lux now) ss × (deadline_ns ≡ uint64_max)
  Outcome max_count deadline_ns now ss (waits (some target)) =
      All (Waiting fl lux now) ss × (now < deadline_ns) × (now < target) × (target ≤ deadline_ns)

  -- One round of poll's loop, at any time before the clock's last one, with room for an event: it finishes with
  -- events of enabled slots that are due, no more than asked for, and with none only at the deadline; or it waits,
  -- with no slot due and the deadline ahead, to a time that is ahead and not behind the deadline.
  pub poll_round-Outcome :
      (room deadline_ns now : ℕ) (ss : List (Slot fl lux))
      → now < 18446744073709551615
      → Outcome (suc room) deadline_ns now ss (poll_round fl lux (suc room) deadline_ns now ss)
  unfolding poll_round Outcome
  poll_round-Outcome room deadline_ns now ss h =
      go (earliest fl lux ss uint64_max) refl (fill_due fl lux now (suc room) ss) refl
    where
      idle :
          (b c : Bool)
          → leb deadline_ns now ≡ b
          → (deadline_ns == uint64_max) ≡ c
          → All (Waiting fl lux now) ss
          → Outcome
              (suc room)
              deadline_ns
              now
              ss
              (if b then finished ss [] else waits (if c then none else some deadline_ns))
      idle true c e f w = (untouched fl lux now ss, omega arith, λ x. leb→le _ _ e)
      idle false true e f w = (w, (==_iff _ _).0 f)
      idle false false e f w = (w, leb_false→lt _ _ e, leb_false→lt _ _ e, omega arith)

      late :
          (wake target : ℕ) (b : Bool)
          → now < wake
          → target ≤ deadline_ns
          → (target ≡ wake) ⊎ (target ≡ deadline_ns)
          → leb target now ≡ b
          → All (Waiting fl lux now) ss
          → Outcome
              (suc room)
              deadline_ns
              now
              ss
              (if b then finished ss [] else waits (some target))
      late wake target true l le (inl e) f w = absurd (omega (arith, leb→le _ _ f))
      late wake target true l le (inr e) f w =
          (untouched fl lux now ss, omega arith, λ x. omega (arith, leb→le _ _ f))
      late wake target false l le e f w =
          let ahead : now < target = leb_false→lt _ _ f in (w, omega arith, ahead, le)

      min-lem :
          (wake : ℕ)
          → ((if ltb wake deadline_ns then wake else deadline_ns) ≤ deadline_ns)
            × (((if ltb wake deadline_ns then wake else deadline_ns) ≡ wake)
                ⊎ ((if ltb wake deadline_ns then wake else deadline_ns) ≡ deadline_ns))
      min-lem wake = ground arith

      branch :
          (wake : ℕ) (b c : Bool)
          → (wake == uint64_max) ≡ b
          → leb wake now ≡ c
          → earliest fl lux ss uint64_max ≡ wake
          → (r : List (Slot fl lux) × List (Event fl lux)) → fill_due fl lux now (suc room) ss ≡ r
          → Outcome (suc room) deadline_ns now ss (
              if b
              then (if leb deadline_ns now
                  then finished ss []
                  else waits (if deadline_ns == uint64_max then none else some deadline_ns))
              else if c
              then finished r.0 r.1
              else if leb (if ltb wake deadline_ns then wake else deadline_ns) now
              then finished ss []
              else waits (some (if ltb wake deadline_ns then wake else deadline_ns)))
      branch wake true c e f g r q =
          let all : wake ≡ uint64_max = (==_iff _ _).0 e in
          idle (leb deadline_ns now) (deadline_ns == uint64_max) refl refl
            (earliest-Waiting fl lux now ss uint64_max (omega (arith, g, all)))
      branch wake false true e f g r q =
          let some_due : 0 < length (fill_due fl lux now (suc room) ss).1 =
            fill_due-nonempty fl lux now room ss uint64_max h (omega (arith, g, leb→le _ _ f)) in
          (
            subst (λ x. Served fl lux now ss x.0 x.1) q (fill_due-Served fl lux now (suc room) ss),
            subst (λ x. length x.1 ≤ suc room) q (fill_due-bound fl lux now (suc room) ss),
            λ x. absurd (omega (arith, subst (λ y. 0 < length y.1) q some_due, ap length x)),
          )
      branch wake false false e f g r q =
          let ahead : now < wake = leb_false→lt _ _ f in
          late wake _ (leb (if ltb wake deadline_ns then wake else deadline_ns) now) ahead
            (min-lem wake).0 (min-lem wake).1 refl
            (earliest-Waiting fl lux now ss uint64_max (omega (arith, g, ahead)))

      go :
          (wake : ℕ)
          → earliest fl lux ss uint64_max ≡ wake
          → (r : List (Slot fl lux) × List (Event fl lux)) → fill_due fl lux now (suc room) ss ≡ r
          → Outcome (suc room) deadline_ns now ss (
              if wake == uint64_max
              then (if leb deadline_ns now
                  then finished ss []
                  else waits (if deadline_ns == uint64_max then none else some deadline_ns))
              else if leb wake now
              then finished r.0 r.1
              else if leb (if ltb wake deadline_ns then wake else deadline_ns) now
              then finished ss []
              else waits (some (if ltb wake deadline_ns then wake else deadline_ns)))
      go wake g r q = branch wake (wake == uint64_max) (leb wake now) refl refl g r q

  -- A poll returns at the latest at its first wake-up at or after the deadline, whatever other threads did to the
  -- slots during its waits.
  pub poll_loop-returns :
      (room deadline_ns now later : ℕ) (ss late : List (Slot fl lux))
      (wakes : List (ℕ × List (Slot fl lux)))
      → deadline_ns ≤ later
      → later < 18446744073709551615
      → poll_loop fl lux (suc room) deadline_ns now ss (wakes ++ (later, late) ∷ []) ≢ none
  unfolding poll_loop Outcome
  poll_loop-returns room deadline_ns now later ss late [] l h =
      first (poll_round fl lux (suc room) deadline_ns now ss) (
        last (poll_round fl lux (suc room) deadline_ns later late)
          (poll_round-Outcome room deadline_ns later late h))
    where
      last :
          (r : Round fl lux)
          → Outcome (suc room) deadline_ns later late r
          → ◌≢◌ {A = Option (List (Slot fl lux) × List (Event fl lux))}
              (elim r [ finished ss' es ↦ some (ss', es) | waits target ↦ none ])
              none
      last (finished ss' es) o e = cc
      last (waits none) o e = omega (arith, o.1)
      last (waits (some t)) o e = omega (arith, o.1)

      first :
          (r : Round fl lux) {x : Option (List (Slot fl lux) × List (Event fl lux))}
          → x ≢ none
          → ◌≢◌ {A = Option (List (Slot fl lux) × List (Event fl lux))}
              (elim r [ finished ss' es ↦ some (ss', es) | waits target ↦ x ])
              none
      first (finished ss' es) k e = cc
      first (waits t) k e = k e
  poll_loop-returns room deadline_ns now later ss late ((t, s) ∷ wakes) l h =
      first (poll_round fl lux (suc room) deadline_ns now ss)
        (poll_loop-returns room deadline_ns t later s late wakes l h)
    where
      first :
          (r : Round fl lux) {x : Option (List (Slot fl lux) × List (Event fl lux))}
          → x ≢ none
          → ◌≢◌ {A = Option (List (Slot fl lux) × List (Event fl lux))}
              (elim r [ finished ss' es ↦ some (ss', es) | waits target ↦ x ])
              none
      first (finished ss' es) k e = cc
      first (waits t') k e = k e
