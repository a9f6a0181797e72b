-- ===== src/Storage/Cleanup.antt =====
-- SvcKit/subsystems/storage/src/core/storage_manager.cpp: what cleanup leaves.
use dark_os_svc_kit.Common.{
  ℕ, zero, suc, ◌+◌, ◌≤◌, ◌≡◌, ◌⊎◌, inl, inr, refl, Bool, true, false, not, ◌&&◌, ◌||◌, Option,
  none, some, List, [], ◌∷◌, length, ltb, ◌==◌, if◌then◌else◌, Text, Errno, arith,
}
use dark_os_svc_kit.Storage.{
  Config, Recording, managed_bytes, oldest, erase_first, needs_cleanup, cleanup_loop,
}

abbrev begins : ℕ → List Recording → Bool
begins start [] = false
begins start (r ∷ rs) = r.start_timestamp_ns == start || begins start rs

begins-oldest :
    (r : Recording) (rs : List Recording) → begins (oldest r rs).start_timestamp_ns (r ∷ rs) ≡ true
unfolding oldest
begins-oldest r [] = ground arith
begins-oldest r (s ∷ rs) =
    go (ltb s.start_timestamp_ns r.start_timestamp_ns) (begins-oldest s rs) (begins-oldest r rs)
  where
    go :
        (b : Bool)
        → begins (oldest s rs).start_timestamp_ns (s ∷ rs) ≡ true
        → begins (oldest r rs).start_timestamp_ns (r ∷ rs) ≡ true
        → begins (oldest (if b then s else r) rs).start_timestamp_ns (r ∷ s ∷ rs) ≡ true
    go true h k = ground (arith, h)
    go false h k = ground (arith, k)

oldest-le :
    (r : Recording) (rs : List Recording) → (oldest r rs).start_timestamp_ns ≤ r.start_timestamp_ns
unfolding oldest
oldest-le r [] = omega arith
oldest-le r (s ∷ rs) = ground (arith, oldest-le s rs, oldest-le r rs)

length-erase_first :
    (start : ℕ) (rs : List Recording)
    → begins start rs ≡ true
    → suc (length (erase_first start rs)) ≡ length rs
unfolding erase_first
length-erase_first start [] h = absurd cc
length-erase_first start (r ∷ rs) h = ground (arith, length-erase_first start rs)

-- The bytes of the recordings are within the limit, if there is one.
abbrev pub Small : Config → List Recording → Type 0
Small c rs = (c.max_bytes ≡ 0) ⊎ (managed_bytes rs ≤ c.max_bytes)

-- What the file system says is free is as much as is asked for; an answer that fails asks for nothing.
abbrev pub Enough : ℕ → Option ℕ → Type 0
Enough wanted none = Unit
Enough wanted (some free) = wanted ≤ free

needs_cleanup-Small :
    (c : Config) (available : List Recording → Option ℕ) (rs : List Recording)
    → needs_cleanup c available rs ≡ false
    → Small c rs × Enough c.minimum_free_bytes (available rs)
unfolding needs_cleanup
needs_cleanup-Small c available rs h = go (available rs) h
  where
    go :
        (o : Option ℕ)
        → (if not (c.max_bytes == 0) && ltb c.max_bytes (managed_bytes rs)
            then true
            else if c.minimum_free_bytes == 0
            then false
            else elim o [ none ↦ false | some n ↦ ltb n c.minimum_free_bytes ])
          ≡ false
        → Small c rs × Enough c.minimum_free_bytes o
    go none k = ground arith
    go (some n) k = ground arith

-- What the loop of cleanup on some recordings has come to: the recordings that are kept, how many it deleted, and
-- its error.
abbrev pub Done :
    Config
    → (List Recording → Option ℕ)
    → List Recording
    → List Recording × ℕ × Option Errno
    → Type 0
Done c available rs x =
    (length x.0 + x.1 ≡ length rs)
    × (x.2 ≡ none → (x.0 ≡ []) ⊎ (Small c x.0 × Enough c.minimum_free_bytes (available x.0)))

-- Cleanup, with fuel for as many rounds as there are recordings, has deleted one recording for each that is missing.
-- When it ends with no error, either no recording is left, or both limits are met for what is left: there is no limit
-- on the bytes or they are within it, and the file system's answer is at least the space that is asked for, where an
-- answer that fails counts as enough.
pub cleanup_loop-Done :
    (c : Config) (available : List Recording → Option ℕ) (removes : Text → Option Errno) (fuel : ℕ)
    (rs : List Recording)
    → length rs ≤ fuel
    → Done c available rs (cleanup_loop c available removes fuel rs)
unfolding cleanup_loop
cleanup_loop-Done c available removes fuel [] l = (omega arith, λ f. inl refl)
cleanup_loop-Done c available removes zero (r ∷ rs) l = absurd (omega arith)
cleanup_loop-Done c available removes (suc fuel) (r ∷ rs) l =
    let victim = oldest r rs in
    let left = length-erase_first victim.start_timestamp_ns (r ∷ rs) (begins-oldest r rs) in
    let fewer = erase_first victim.start_timestamp_ns (r ∷ rs) in
    go (needs_cleanup c available (r ∷ rs)) refl (removes victim.path)
      (cleanup_loop c available removes fuel fewer) fewer left
      (cleanup_loop-Done c available removes fuel fewer (omega (arith, left)))
  where
    go :
        (b : Bool)
        → needs_cleanup c available (r ∷ rs) ≡ b
        → (o : Option Errno) (x : List Recording × ℕ × Option Errno) (fewer : List Recording)
        → suc (length fewer) ≡ length (r ∷ rs)
        → Done c available fewer x
        → Done c available (r ∷ rs) (
            if not b
            then (r ∷ rs, 0, none)
            else elim o [ some e ↦ (r ∷ rs, 0, some e) | none ↦ (x.0, x.1 + 1, x.2) ])
    go false e o x fewer k d = (omega arith, λ f. inr (needs_cleanup-Small c available (r ∷ rs) e))
    go true e (some m) x fewer k d = (omega arith, λ f. absurd cc)
    go true e none x fewer k d = (omega (arith, k, d.0), d.1)
