-- ===== src/Prelude/Float.antt =====
-- Go's float64 as a parameter: its operations, and what IEEE 754 says of them where the program's
-- theorems need it.
use Prim.Native.Nat.{ℕ, suc, ◌+◌, ◌*◌, ◌^◌, ◌<◌, ◌≤◌}
use mathlib.Core.Path.{◌≡◌}
use mathlib.Core.Bool.{Bool, false}
use custom_mcps.Prelude.Tests.{ltb}
use custom_mcps.Prelude.Int.{ℤ, pos}

-- `of_int` converts an integer, and `seconds` is `Duration.Seconds` of a number of nanoseconds, an int64.
pub record Float64 (F : Type 0) : Type 0 where
  pub of_int : ℤ → F
  pub seconds : ℤ → F
  pub add : F → F → F
  pub sub : F → F → F
  pub mul : F → F → F
  pub div : F → F → F
  pub less : F → F → Bool

-- Integers up to 2 ^ 53 are exact, and so are sums and products of them that stay there and durations
-- of whole seconds, which are below 2 ^ 63 nanoseconds; no number is less than itself, and taking 1 away from a number
-- that is not below 1 does not make it greater than a bound.
pub record Ieee {F : Type 0} (f : Float64 F) : Type 0 where
  pub less_exact :
      (a b : ℕ) → a ≤ 2 ^ 53 → b ≤ 2 ^ 53 → f.less (f.of_int (pos a)) (f.of_int (pos b)) ≡ ltb a b
  pub pred_exact :
      (a : ℕ) → a < 2 ^ 53 → f.sub (f.of_int (pos (suc a))) (f.of_int (pos 1)) ≡ f.of_int (pos a)
  pub add_nothing :
      (a r : ℕ)
      → a ≤ 2 ^ 53
      → r ≤ 2 ^ 53
      → f.add (f.of_int (pos a)) (f.mul (f.seconds (pos 0)) (f.of_int (pos r))) ≡ f.of_int (pos a)
  pub less_irrefl : (x : F) → f.less x x ≡ false
  pub pred-not-above :
      (x bound : F)
      → f.less bound x ≡ false
      → f.less x (f.of_int (pos 1)) ≡ false
      → f.less bound (f.sub x (f.of_int (pos 1))) ≡ false
  pub add_exact :
      (a b : ℕ)
      → a + b ≤ 2 ^ 53
      → f.add (f.of_int (pos a)) (f.of_int (pos b)) ≡ f.of_int (pos (a + b))
  pub mul_exact :
      (a b : ℕ)
      → a ≤ 2 ^ 53
      → b ≤ 2 ^ 53
      → a * b ≤ 2 ^ 53
      → f.mul (f.of_int (pos a)) (f.of_int (pos b)) ≡ f.of_int (pos (a * b))
  pub seconds_exact :
      (k : ℕ) → k * 1000000000 < 2 ^ 63 → f.seconds (pos (k * 1000000000)) ≡ f.of_int (pos k)
