-- ===== src/Base/Floats.antt =====
-- The machine's floats as an interface, and `max` and `min` of numbers.
use Prim.Native.Nat.{ℕ}
use mathlib.Core.Bool.{Bool}
use gpuopt.Base.Tests.{if◌then◌else◌, ltb}

-- A whole number: not below 0, or below it by so much.
pub data Whole : Type 0 where
  nonnegative : ℕ → Whole
  negative : ℕ → Whole

-- The machine's floats, which the code only computes with and compares: `literal n k` is the
-- decimal n / 10 ^ k, `round k` keeps k digits
-- after the point and `truncate` is `int`.
pub record Floats (F : Type 0) : Type 0 where
  pub of_nat : ℕ → F
  pub literal : ℕ → ℕ → F
  pub plus : F → F → F
  pub minus : F → F → F
  pub times : F → F → F
  pub over : F → F → F
  pub negate : F → F
  pub less : F → F → Bool
  pub round : ℕ → F → F
  pub truncate : F → Whole

abbrev pub max : ℕ → ℕ → ℕ
max a b = if ltb a b then b else a

abbrev pub min : ℕ → ℕ → ℕ
min a b = if ltb b a then b else a
