-- ===== src/Alarm/Rule.antt =====
-- SvcKit/subsystems/alarm/src/rule/filter_rule.cpp: the cooldown between the events that a rule accepts.
use dark_os_svc_kit.Common.{
  ℕ, ◌+◌, ◌≤◌, ◌<◌, ◌≡◌, ◌≢◌, refl, ap, sym, subst, ◌∙◌, Bool, true, false, List, [], ◌∷◌,
  if◌then◌else◌, arith,
}
use dark_os_svc_kit.Alarm.{Event, MatchRule, accept}

-- The times of the events that a rule accepts, in their order.
abbrev pub accepted_times : MatchRule → List Event → List ℕ
accepted_times r [] = []
accepted_times r (e ∷ es) =
    let rest = accepted_times (accept r e).0 es in
    if (accept r e).1 then e.timestamp_ns ∷ rest else rest

-- No event is earlier than the one before it, the first not than `from`.
abbrev pub InOrder : ℕ → List Event → Type 0
InOrder from [] = Unit
InOrder from (e ∷ es) = (from ≤ e.timestamp_ns) × InOrder e.timestamp_ns es

-- Each time is at least the gap after the one before it.
abbrev pub Spaced : ℕ → List ℕ → Type 0
Spaced gap [] = Unit
Spaced gap (t ∷ []) = Unit
Spaced gap (t ∷ u ∷ ts) = (t + gap ≤ u) × Spaced gap (u ∷ ts)

accept_refused : (r : MatchRule) (e : Event) → (accept r e).1 ≡ false → (accept r e).0 ≡ r
unfolding accept
accept_refused r e h = ground arith

accept_taken :
    (r : MatchRule) (e : Event)
    → (accept r e).1 ≡ true
    → ((accept r e).0.last_accepted_ns ≡ e.timestamp_ns)
      × ((accept r e).0.cooldown_ns ≡ r.cooldown_ns)
      × (r.last_accepted_ns ≢ 0
          → r.last_accepted_ns ≤ e.timestamp_ns
          → r.last_accepted_ns + r.cooldown_ns ≤ e.timestamp_ns)
unfolding accept
accept_taken r e h = ground arith

abbrev AtLeast : ℕ → List ℕ → Type 0
AtLeast bound [] = Unit
AtLeast bound (t ∷ ts) = bound ≤ t

Spaced-cons : (gap t : ℕ) (ts : List ℕ) → AtLeast (t + gap) ts → Spaced gap ts → Spaced gap (t ∷ ts)
Spaced-cons gap t [] h k = tt
Spaced-cons gap t (u ∷ ts) h k = (h, k)

AtLeast-le : (a b : ℕ) (ts : List ℕ) → a ≤ b → AtLeast b ts → AtLeast a ts
AtLeast-le a b [] l h = tt
AtLeast-le a b (t ∷ ts) l h = omega arith

accepted_times_lem :
    (gap from : ℕ) (r : MatchRule) (es : List Event)
    → r.cooldown_ns ≡ gap
    → 0 < from
    → InOrder from es
    → r.last_accepted_ns ≤ from
    → Spaced gap (accepted_times r es)
      × (r.last_accepted_ns ≢ 0 → AtLeast (r.last_accepted_ns + gap) (accepted_times r es))
accepted_times_lem gap from r [] c p o l = (tt, λ h. tt)
accepted_times_lem gap from r (e ∷ es) c p o l =
    go (accept r e) refl
      (λ k m. accepted_times_lem gap e.timestamp_ns (accept r e).0 es k (omega (arith, o.0)) o.1 m)
  where
    go :
        (a : MatchRule × Bool)
        → accept r e ≡ a
        → (a.0.cooldown_ns ≡ gap
            → a.0.last_accepted_ns ≤ e.timestamp_ns
            → Spaced gap (accepted_times a.0 es)
              × (a.0.last_accepted_ns ≢ 0
                  → AtLeast (a.0.last_accepted_ns + gap) (accepted_times a.0 es)))
        → Spaced gap (if a.1 then e.timestamp_ns ∷ accepted_times a.0 es else accepted_times a.0 es)
          × (r.last_accepted_ns ≢ 0
              → AtLeast
                  (r.last_accepted_ns + gap)
                  (if a.1 then e.timestamp_ns ∷ accepted_times a.0 es else accepted_times a.0 es))
    go (r', false) k again =
        let same : r' ≡ r =
          sym (ap (λ (x : MatchRule × Bool). x.0) k)
          ∙ accept_refused r e (ap (λ (x : MatchRule × Bool). x.1) k) in
        let rest =
          again (ap (λ (x : MatchRule). x.cooldown_ns) same ∙ c)
            (omega (arith, ap (λ (x : MatchRule). x.last_accepted_ns) same, o.0)) in
        (
          rest.0,
          λ n.
              subst (λ (x : MatchRule). AtLeast (x.last_accepted_ns + gap) (accepted_times r' es))
                same (rest.1 (λ z. n (ap (λ (x : MatchRule). x.last_accepted_ns) (sym same) ∙ z))),
        )
    go (r', true) k again =
        let facts = accept_taken r e (ap (λ (x : MatchRule × Bool). x.1) k) in
        let last : r'.last_accepted_ns ≡ e.timestamp_ns =
          ap (λ (x : MatchRule × Bool). x.0.last_accepted_ns) (sym k) ∙ facts.0 in
        let cool : r'.cooldown_ns ≡ gap =
          ap (λ (x : MatchRule × Bool). x.0.cooldown_ns) (sym k) ∙ facts.1 ∙ c in
        let rest = again cool (omega (arith, last)) in
        (
          Spaced-cons gap e.timestamp_ns (accepted_times r' es)
              (AtLeast-le _ _ (accepted_times r' es) (omega (arith, last))
                (rest.1 (λ z. omega (arith, z, last, o.0))))
              rest.0,
          λ n. omega (arith, facts.2 n (omega (arith, o.0)), c),
        )

-- A fresh rule that sees events in the order of their times, none of which is 0, accepts no two of them that are
-- closer than its cooldown.
pub accepted_times-Spaced :
    (r : MatchRule) (from : ℕ) (es : List Event)
    → r.last_accepted_ns ≡ 0
    → 0 < from
    → InOrder from es
    → Spaced r.cooldown_ns (accepted_times r es)
accepted_times-Spaced r from es z p o =
    (accepted_times_lem r.cooldown_ns from r es refl p o (omega arith)).0
