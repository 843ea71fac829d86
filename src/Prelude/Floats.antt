-- ===== src/Prelude/Floats.antt =====
-- Go's float64. Its arithmetic is a parameter: a type `F` with the operations that the controller
-- uses. A theorem that needs a law of them names it as a hypothesis.
use Prim.Native.Nat.{ℕ}
use mathlib.Core.Bool.{Bool}
use project_constellation.Prelude.Int.{ℤ}

pub record Float (F : Type 0) : Type 0 where
  -- float64(n), and the conversion back, int(x)
  pub of_int : ℤ → F
  pub to_int : F → ℤ
  -- `decimal m k` is the literal m / 10^k
  pub decimal : ℕ → ℕ → F
  pub add : F → F → F
  pub sub : F → F → F
  pub mul : F → F → F
  pub div : F → F → F
  -- math.Min
  pub min : F → F → F
  -- a < b
  pub lt : F → F → Bool
