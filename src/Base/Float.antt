-- ===== src/Base/Float.antt =====
-- float64 as an interface: the type and the operations that the program applies to it. There is no
-- model of IEEE arithmetic here; a theorem that needs a law names it as a hypothesis.
use Prim.Native.Nat.{ℕ}
use mathlib.Core.Bool.{Bool}
use elliptics_go.Base.Int.{ℤ}

pub record Floats (F : Type 0) : Type 0 where
  -- float64(n) for an unsigned n
  pub of_uint64 : ℕ → F
  -- the literal n / 10 ^ d
  pub literal : ℕ → ℕ → F
  -- Duration.Seconds of a number of nanoseconds
  pub seconds : ℤ → F
  pub add : F → F → F
  pub sub : F → F → F
  pub mul : F → F → F
  pub div : F → F → F
  pub le : F → F → Bool
