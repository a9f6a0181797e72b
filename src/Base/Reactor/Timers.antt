-- ===== src/Base/Reactor/Timers.antt =====
-- SvcKit/base/runtime/src/EventLoop.cpp: which timers run, and which stay.
use dark_os_svc_kit.Common.{
  ℕ, ◌+◌, ◌<◌, ◌≡◌, ◌≢◌, refl, ap, Bool-cases, inl, inr, min, Bool, true, false, not, ◌||◌, ◌==◌,
  ltb, if◌then◌else◌, List, [], ◌∷◌, map, filter, All, arith,
}
use dark_os_svc_kit.Base.Reactor.{Loop, Timer, saturating_add, erase_timer, cancel, collect_due}

saturated :
    (now interval : ℕ)
    → now < 18446744073709551615
    → saturating_add now interval ≡ min (now + interval) 18446744073709551615
unfolding saturating_add
saturated now interval h = ground arith

module _ {ℓ} {Task : Type ℓ} where
  -- The timers whose deadline is not ahead, those that stay after a pass, and how they stay.
  abbrev pub is_due : ℕ → Timer Task → Bool
  is_due now t = not (ltb now t.deadline_ns)

  abbrev pub stays : ℕ → Timer Task → Bool
  stays now t = not (is_due now t) || not (t.interval_ns == 0)

  abbrev pub moved : ℕ → Timer Task → Timer Task
  moved now t =
      if is_due now t
      then record t { deadline_ns = min (now + t.interval_ns) 18446744073709551615 }
      else t

  kept_ahead :
      (now : ℕ) (ts : List (Timer Task))
      → now < 18446744073709551615
      → All (λ (t : Timer Task). now < t.deadline_ns) (collect_due now ts).0
  unfolding collect_due saturating_add
  kept_ahead now [] h = tt
  kept_ahead now (t ∷ ts) h = ground (arith, kept_ahead now ts h)

  moved_due :
      (now : ℕ) (t : Timer Task)
      → ltb now t.deadline_ns ≡ false
      → now < 18446744073709551615
      → record t { deadline_ns = saturating_add now t.interval_ns } ≡ moved now t
  moved_due now t e h = go (ltb now t.deadline_ns) e
    where
      go :
          (b : Bool)
          → b ≡ false
          → record t { deadline_ns = saturating_add now t.interval_ns } ≡ (
              if not b
              then record t { deadline_ns = min (now + t.interval_ns) 18446744073709551615 }
              else t)
      go true k = absurd cc
      go false k = ap (λ d. record t { deadline_ns = d }) (saturated now t.interval_ns h)

  moved_ahead : (now : ℕ) (t : Timer Task) → ltb now t.deadline_ns ≡ true → t ≡ moved now t
  moved_ahead now t e = go (ltb now t.deadline_ns) e
    where
      go :
          (b : Bool)
          → b ≡ true
          → t ≡ (
              if not b
              then record t { deadline_ns = min (now + t.interval_ns) 18446744073709551615 }
              else t)
      go true k = refl
      go false k = absurd cc

  kept_moved :
      (now : ℕ) (ts : List (Timer Task))
      → now < 18446744073709551615
      → (collect_due now ts).0 ≡ map (moved now) (filter (stays now) ts)
  unfolding collect_due
  kept_moved now [] h = refl
  kept_moved now (t ∷ ts) h = elim (Bool-cases (ltb now t.deadline_ns)) [
    | inl e ↦ rw e (both (moved_ahead now t e) (kept_moved now ts h))
    | inr e ↦ elim (Bool-cases (t.interval_ns == 0)) [
      | inl i ↦ rw e (rw i (kept_moved now ts h))
      | inr i ↦ rw e (rw i (both (moved_due now t e h) (kept_moved now ts h)))
    ]
  ]
    where
      both : {x y : Timer Task} {xs ys : List (Timer Task)} → x ≡ y → xs ≡ ys → (x ∷ xs) ≡ (y ∷ ys)
      both p q = λ i. p i ∷ q i

  due_ready :
      (now : ℕ) (ts : List (Timer Task))
      → (collect_due now ts).1 ≡ map (λ t. (t.id, t.task)) (filter (is_due now) ts)
  unfolding collect_due
  due_ready now [] = refl
  due_ready now (t ∷ ts) = elim (Bool-cases (ltb now t.deadline_ns)) [
    | inl e ↦ rw e (due_ready now ts)
    | inr e ↦ elim (Bool-cases (t.interval_ns == 0)) [
      | inl i ↦ rw e (rw i (ap (λ r. (t.id, t.task) ∷ r) (due_ready now ts)))
      | inr i ↦ rw e (rw i (ap (λ r. (t.id, t.task) ∷ r) (due_ready now ts)))
    ]
  ]

  -- One pass at a time that is below the largest number of 64 bits: the tasks that run are those of the timers whose
  -- deadline is not ahead, each once and in order; of these the ones without an interval are gone, and the others have
  -- their deadline an interval from now, at most the largest number of 64 bits; all other timers stay as they are.
  -- Every deadline that stays is ahead.
  pub collect_due-All :
      (now : ℕ) (ts : List (Timer Task))
      → now < 18446744073709551615
      → All (λ (t : Timer Task). now < t.deadline_ns) (collect_due now ts).0
        × ((collect_due now ts).0 ≡ map (moved now) (filter (stays now) ts))
        × ((collect_due now ts).1 ≡ map (λ t. (t.id, t.task)) (filter (is_due now) ts))
  collect_due-All now ts h = (kept_ahead now ts h, kept_moved now ts h, due_ready now ts)

  erased :
      (now id : ℕ) (ts : List (Timer Task))
      → All (λ (r : ℕ × Task). r.0 ≢ id) (collect_due now (erase_timer id ts)).1
  unfolding collect_due erase_timer
  erased now id [] = tt
  erased now id (t ∷ ts) = ground (arith, erased now id ts)

  -- Once a timer is cancelled, no later pass runs it.
  pub collect_due-cancel :
      (now id : ℕ) (l : Loop Task)
      → id ≢ 0
      → All (λ (r : ℕ × Task). r.0 ≢ id) (collect_due now (cancel id l).0.timers).1
  unfolding cancel
  collect_due-cancel now id l h = ground (arith, erased now id l.timers)
