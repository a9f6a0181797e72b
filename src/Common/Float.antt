-- ===== src/Common/Float.antt =====
-- Floating-point arithmetic, which the code takes from the compiler: a type with its operations, and
-- no law, since nothing that is proved rests on a rounded value.
use Prim.Native.Nat.{ℕ, ◌+◌, ◌-◌, ◌*◌, ◌/◌}
use mathlib.Core.Bool.{Bool}
use dark_os_svc_kit.Common.Tests.{ltb, leb}
use dark_os_svc_kit.Common.Int.{ℤ, pos}

pub record Float : Type 1 where
  pub Value : Type 0
  -- The literal n / 10 ^ k.
  pub literal : ℕ → ℕ → Value
  pub of_ℕ : ℕ → Value
  pub neg : Value → Value
  pub add : Value → Value → Value
  pub sub : Value → Value → Value
  pub mul : Value → Value → Value
  pub div : Value → Value → Value
  pub below : Value → Value → Bool
  pub at_most : Value → Value → Bool
  pub to_int : Value → ℤ

-- Whole numbers in their place, for runs.
abbrev pub whole : Float
whole = record {
  Value = ℕ;
  literal = λ n k. n;
  of_ℕ = λ n. n;
  neg = λ a. a;
  add = λ a b. a + b;
  sub = λ a b. a - b;
  mul = λ a b. a * b;
  div = λ a b. a / b;
  below = ltb;
  at_most = leb;
  to_int = pos;
}
