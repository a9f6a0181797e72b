-- ===== src/Media/Queue/Order.antt =====
-- SvcKit/subsystems/media/src/core/media_pipeline.cpp: what passes through the bounded queue, and in what order.
use dark_os_svc_kit.Common.{
  ◌≤◌, ◌≡◌, refl, ap, sym, subst, Bool, true, false, Option, none, some, List, [], ◌∷◌, ◌++◌, drop,
  length, length-append, length-drop, leb, ◌==◌, if◌then◌else◌, arith,
}
use mathlib.Core.List.{append_assoc, append-nil}
use dark_os_svc_kit.Media.Queue.{
  Policy, drop_oldest, drop_newest, PushResult, queued, dropped_oldest, dropped_newest, was_closed,
  Config, Queue, close, push, pop,
}

-- The calls of the threads, in the order in which they get the mutex.
pub data Step {ℓ} (A : Type ℓ) : Type ℓ where
  pushing : A → Step A
  popping : Step A
  closing : Step A

-- One list is the other with values left out, in the same order.
pub data Within {ℓ} {A : Type ℓ} : List A → List A → Type ℓ where
  within_nil : Within [] []
  within_skip : {x : A} {xs ys : List A} → Within xs ys → Within xs (x ∷ ys)
  within_keep : {x : A} {xs ys : List A} → Within xs ys → Within (x ∷ xs) (x ∷ ys)

module _ {ℓ} {A : Type ℓ} (config : Config) where
  -- The queue after the steps, with what was taken out.
  pub steps : List (Step A) → Queue A → Queue A × List A
  unfolding push pop close
  steps [] q = (q, [])
  steps (pushing v ∷ ss) q = steps ss (push v config q).0
  steps (popping ∷ ss) q =
      let (q', taken) = pop q in
      let (last, more) = steps ss q' in (last, elim taken [ some (some v) ↦ v ∷ more | _ ↦ more ])
  steps (closing ∷ ss) q = steps ss (close q)

abbrev pub pushed {ℓ} : {A : Type ℓ} → List (Step A) → List A
pushed [] = []
pushed (pushing v ∷ ss) = v ∷ pushed ss
pushed (popping ∷ ss) = pushed ss
pushed (closing ∷ ss) = pushed ss

module _ {ℓ} {A : Type ℓ} where
  Within-refl : (xs : List A) → Within xs xs
  Within-refl [] = within_nil
  Within-refl (x ∷ xs) = within_keep (Within-refl xs)

  Within-nil : (ys : List A) → Within [] ys
  Within-nil [] = within_nil
  Within-nil (y ∷ ys) = within_skip (Within-nil ys)

  Within-append_skip :
      (xs : List A) (v : A) (zs : List A) {ws : List A}
      → Within ws (xs ++ zs)
      → Within ws (xs ++ v ∷ zs)
  Within-append_skip [] v zs h = within_skip h
  Within-append_skip (x ∷ xs) v zs (within_skip h) = within_skip (Within-append_skip xs v zs h)
  Within-append_skip (x ∷ xs) v zs (within_keep h) = within_keep (Within-append_skip xs v zs h)

  Within-drop : (xs zs : List A) {ws : List A} → Within ws (drop 1 xs ++ zs) → Within ws (xs ++ zs)
  Within-drop [] zs h = h
  Within-drop (x ∷ xs) zs h = within_skip h

  -- A push leaves the values, or adds one at the back, or does so after the front one left.
  push-Within :
      (v : A) (config : Config) (q : Queue A) (zs : List A) {ws : List A}
      → Within ws ((push v config q).0.values ++ zs)
      → Within ws (q.values ++ v ∷ zs)
  unfolding push
  push-Within v config q zs {ws = ws} h =
      go q.closed (config.capacity == 0) (leb config.capacity (length q.values)) config.policy h
    where
      added : Within ws ((q.values ++ v ∷ []) ++ zs) → Within ws (q.values ++ v ∷ zs)
      added k = subst (Within ws) (append_assoc q.values (v ∷ []) zs) k

      go :
          (a b c : Bool) (p : Policy)
          → (let r : Queue A × PushResult =
                (if a
                  then (q, was_closed)
                  else if b
                  then (q, dropped_newest)
                  else if c
                  then elim p [
                    | drop_oldest ↦
                        (record q { values = drop 1 q.values ++ v ∷ [] }, dropped_oldest)
                    | drop_newest ↦ (q, dropped_newest)
                  ]
                  else (record q { values = q.values ++ v ∷ [] }, queued)) in
              Within ws (r.0.values ++ zs))
          → Within ws (q.values ++ v ∷ zs)
      go true b c p k = Within-append_skip q.values v zs k
      go false true c p k = Within-append_skip q.values v zs k
      go false false true drop_oldest k =
          Within-drop q.values (v ∷ zs)
            (subst (Within ws) (append_assoc (drop 1 q.values) (v ∷ []) zs) k)
      go false false true drop_newest k = Within-append_skip q.values v zs k
      go false false false p k = added k

  -- A pop gives nothing, or the front value.
  pop-elim {κ} :
      (q : Queue A) (P : Queue A × Option (Option A) → Type κ)
      → P (q, none)
      → P (q, some none)
      → ((v : A) (vs : List A) → q.values ≡ v ∷ vs → P (record q { values = vs }, some (some v)))
      → P (pop q)
  unfolding pop
  pop-elim q P waits ends takes = go q.values refl q.closed
    where
      go :
          (vs : List A)
          → q.values ≡ vs
          → (b : Bool)
          → P (elim vs as (λ x. Queue A × Option (Option A)) [
            | [] ↦ if b then (q, some none) else (q, none)
            | w ∷ ws ↦ (record q { values = ws }, some (some w))
          ])
      go [] e true = ends
      go [] e false = waits
      go (v ∷ vs) e b = takes v vs e

  -- Whatever the threads do, what was taken out, followed by what is still queued, is what was queued before and
  -- pushed since, in that order and with some values left out: nothing is reordered, repeated or made up.
  pub steps-Within :
      (config : Config) (ss : List (Step A)) (q : Queue A)
      → Within ((steps config ss q).1 ++ (steps config ss q).0.values) (q.values ++ pushed ss)
  unfolding steps pop close
  steps-Within config [] q =
      subst (Within q.values) (sym (append-nil q.values)) (Within-refl q.values)
  steps-Within config (pushing v ∷ ss) q =
      push-Within v config q (pushed ss) (steps-Within config ss (push v config q).0)
  steps-Within config (closing ∷ ss) q = steps-Within config ss (close q)
  steps-Within config (popping ∷ ss) q =
      pop-elim q
        (λ r.
          Within
            (elim r.1 as (λ x. List A) [
              | some (some v) ↦ v ∷ (steps config ss r.0).1
              | _ ↦ (steps config ss r.0).1
            ]
              ++ (steps config ss r.0).0.values)
            (q.values ++ pushed ss))
        (steps-Within config ss q) (steps-Within config ss q)
        (λ v vs e.
          let later = steps config ss (record q { values = vs }) in
          subst (λ xs. Within ((v ∷ later.1) ++ later.0.values) (xs ++ pushed ss)) (sym e)
            (within_keep (steps-Within config ss (record q { values = vs }))))

  length-push :
      (v : A) (config : Config) (q : Queue A)
      → length q.values ≤ config.capacity
      → length (push v config q).0.values ≤ config.capacity
  unfolding push
  length-push v config q l = ground (
    arith,
    length-append q.values (v ∷ []),
    length-append (drop 1 q.values) (v ∷ []),
    length-drop 1 q.values,
  )

  -- The queue never holds more than its capacity.
  pub length-steps :
      (config : Config) (ss : List (Step A)) (q : Queue A)
      → length q.values ≤ config.capacity
      → length (steps config ss q).0.values ≤ config.capacity
  unfolding steps close
  length-steps config [] q l = l
  length-steps config (pushing v ∷ ss) q l =
      length-steps config ss (push v config q).0 (length-push v config q l)
  length-steps config (closing ∷ ss) q l = length-steps config ss (close q) l
  length-steps config (popping ∷ ss) q l = length-steps config ss (pop q).0 (
      pop-elim q (λ r. length r.0.values ≤ config.capacity) l l
        (λ v vs e. omega (arith, l, ap length e)))
