-- ===== src/Base/Reactor/Timeouts.antt =====
-- SvcKit/base/runtime/src/EventLoop.cpp: how long the reactor waits.
use dark_os_svc_kit.Common.{
  length, refl, ℕ, ◌+◌, ◌-◌, ◌*◌, ◌/◌, ◌≤◌, ◌<◌, ◌≡◌, ◌⊎◌, min, true, List, [], ◌∷◌, All, arith,
}
use dark_os_svc_kit.Common.Words.{u64}
use dark_os_svc_kit.Common.Int.{ℤ, pos, negsuc}
use dark_os_svc_kit.Base.Reactor.{Loop, Timer, saturating_add, earliest, no_tasks, wait_timeout_ms}

-- A deadline is the sum, or the largest number of 64 bits where the sum does not fit.
pub saturating_add-min :
    (left right : ℕ)
    → left < 18446744073709551616
    → right < 18446744073709551616
    → saturating_add left right ≡ min (left + right) 18446744073709551615
unfolding saturating_add
saturating_add-min left right l r = ground arith

rounded_le : (x : ℕ) → u64 x / 1000000 * 1000000 ≤ x
rounded_le x = omega arith

module _ {ℓ} {Task : Type ℓ} where
  earliest-le : (e : ℕ) (ts : List (Timer Task)) → earliest e ts ≤ e
  unfolding earliest
  earliest-le e [] = omega arith
  earliest-le e (t ∷ ts) = omega (arith, earliest-le (min e t.deadline_ns) ts)

  earliest-All :
      (e : ℕ) (ts : List (Timer Task)) → All (λ (t : Timer Task). earliest e ts ≤ t.deadline_ns) ts
  unfolding earliest
  earliest-All e [] = tt
  earliest-All e (t ∷ ts) =
      (omega (arith, earliest-le (min e t.deadline_ns) ts), earliest-All (min e t.deadline_ns) ts)

  wait_timeout_ms_lem :
      (now n : ℕ) (l : Loop Task)
      → wait_timeout_ms now l ≡ pos n
      → n * 1000000 < earliest 18446744073709551615 l.timers - now + 1000000
  unfolding wait_timeout_ms
  wait_timeout_ms_lem now n l h =
      ground (arith, rounded_le (earliest 18446744073709551615 l.timers - now + 999999))

  -- What a wait must be: in milliseconds it is an int, 0 if a task is posted, and less than a millisecond longer than to
  -- any deadline; without an end it is -1, and there are no tasks and no timers.
  abbrev pub Waits : ℕ → Loop Task → ℤ → Type 0
  Waits now l (pos n) =
      (n ≤ 2147483647)
      × ((n ≡ 0) ⊎ (length l.tasks ≡ 0))
      × All (λ (t : Timer Task). n * 1000000 < t.deadline_ns - now + 1000000) l.timers
  Waits now l (negsuc k) = (k ≡ 0) × (length l.tasks ≡ 0) × (length l.timers ≡ 0)

  not_later :
      (now n first : ℕ) (ts : List (Timer Task))
      → n * 1000000 < first - now + 1000000
      → All (λ (t : Timer Task). first ≤ t.deadline_ns) ts
      → All (λ (t : Timer Task). n * 1000000 < t.deadline_ns - now + 1000000) ts
  not_later now n first [] k a = tt
  not_later now n first (t ∷ ts) k a = (omega (arith, a.0), not_later now n first ts k a.1)

  wait_timeout_ms-pos :
      (now n : ℕ) (l : Loop Task)
      → wait_timeout_ms now l ≡ pos n
      → (n ≤ 2147483647) × ((n ≡ 0) ⊎ (length l.tasks ≡ 0))
  unfolding wait_timeout_ms
  wait_timeout_ms-pos now n l h = ground arith

  wait_timeout_ms-negsuc :
      (now k : ℕ) (l : Loop Task)
      → wait_timeout_ms now l ≡ negsuc k
      → (k ≡ 0) × (length l.tasks ≡ 0) × (length l.timers ≡ 0)
  unfolding wait_timeout_ms
  wait_timeout_ms-negsuc now k l h = ground arith

  -- The reactor waits for at most the milliseconds of an int, not at all if a task is posted, and for less than a
  -- millisecond longer than to the deadline of any timer, so not at all if one is overdue. It waits without an end only
  -- when there is no task and no timer, and then the number is -1.
  pub wait_timeout_ms-Waits : (now : ℕ) (l : Loop Task) → Waits now l (wait_timeout_ms now l)
  wait_timeout_ms-Waits now l = go (wait_timeout_ms now l) refl
    where
      go : (w : ℤ) → wait_timeout_ms now l ≡ w → Waits now l w
      go (pos n) e = (
        (wait_timeout_ms-pos now n l e).0,
        (wait_timeout_ms-pos now n l e).1,
        not_later now n (earliest 18446744073709551615 l.timers) l.timers
            (wait_timeout_ms_lem now n l e) (earliest-All 18446744073709551615 l.timers),
      )
      go (negsuc k) e = wait_timeout_ms-negsuc now k l e

  -- When no task waits, the clock and a millisecond are within 64 bits and the milliseconds within an int, a wait
  -- lasts until the earliest deadline: the reactor does not turn for nothing before it.
  pub wait_timeout_ms-earliest :
      (now n : ℕ) (l : Loop Task)
      → no_tasks l.tasks ≡ true
      → wait_timeout_ms now l ≡ pos n
      → n < 2147483647
      → earliest 18446744073709551615 l.timers - now + 999999 < 18446744073709551616
      → earliest 18446744073709551615 l.timers ≤ now + n * 1000000
  unfolding wait_timeout_ms
  wait_timeout_ms-earliest now n l e h k m = ground arith
