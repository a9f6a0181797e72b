-- ===== src/Common/Bytes.antt =====
-- Bytes: the native bit operations, and facts about every byte by evaluation.
use Prim.Native.Nat.{ℕ, zero, suc, ◌<◌}
use mathlib.Core.Path.{◌≡◌}
use mathlib.Core.Bool.{Bool, true, ◌&&◌}
use native.Mathlib.Omega.{arith}
use dark_os_svc_kit.Common.Tests.{◌==◌, ==_iff}
pub use Prim.Native.Nat.{bit_and, bit_or, bit_xor}

-- A test holds for all numbers below `n`.
abbrev pub every_below : ℕ → (ℕ → Bool) → Bool
every_below zero p = true
every_below (suc n) p = p n && every_below n p

pub every_below-at : (n : ℕ) (p : ℕ → Bool) (x : ℕ) → every_below n p ≡ true → x < n → p x ≡ true
every_below-at zero p x h lt = absurd (omega arith)
every_below-at (suc n) p x h lt = ground (arith, every_below-at n p x)

-- Two functions that agree by evaluation below `n`.
pub agree_below :
    (n : ℕ) (f g : ℕ → ℕ) → every_below n (λ x. f x == g x) ≡ true → (x : ℕ) → x < n → f x ≡ g x
agree_below n f g h x lt = (==_iff (f x) (g x)).0 (every_below-at n (λ y. f y == g y) x h lt)
