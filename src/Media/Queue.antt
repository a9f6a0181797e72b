-- ===== src/Media/Queue.antt =====
-- SvcKit/subsystems/media/src/core/media_pipeline.cpp: the bounded queue between two threads of a pipeline. Each
-- call is one step, since the mutex is held throughout; a pop that has to wait is not a step.
use dark_os_svc_kit.Common.{
  ℕ, Bool, true, false, ◌&&◌, Option, none, some, List, [], ◌∷◌, ◌++◌, drop, length, leb, ◌==◌,
  if◌then◌else◌,
}
pub mod Order
pub mod Tests

pub data Policy : Type 0 where
  drop_oldest drop_newest : Policy

pub data PushResult : Type 0 where
  queued dropped_oldest dropped_newest was_closed : PushResult

-- MediaQueueConfig
pub record Config : Type 0 where
  pub capacity : ℕ
  pub policy : Policy

-- BoundedQueue, the front first.
pub record Queue {ℓ} (A : Type ℓ) : Type ℓ where
  pub values : List A
  pub closed : Bool

module _ {ℓ} {A : Type ℓ} where
  pub reset : Queue A → Queue A
  reset q = record { values = []; closed = false }

  pub close : Queue A → Queue A
  close q = record q { closed = true }

  pub push : A → Config → Queue A → Queue A × PushResult
  push value config q =
      if q.closed
      then (q, was_closed)
      else if config.capacity == 0
      then (q, dropped_newest)
      else if leb config.capacity (length q.values)
      then elim (config.policy) [
        | drop_oldest ↦ (record q { values = drop 1 q.values ++ value ∷ [] }, dropped_oldest)
        | drop_newest ↦ (q, dropped_newest)
      ]
      else (record q { values = q.values ++ value ∷ [] }, queued)

  -- What pop gives when it returns: `some none` is its `false`, and `none` a wait.
  pub pop : Queue A → Queue A × Option (Option A)
  pop q = elim (q.values) [
    | [] ↦ if q.closed then (q, some none) else (q, none)
    | v ∷ vs ↦ (record q { values = vs }, some (some v))
  ]
