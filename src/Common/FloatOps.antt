-- ===== src/Common/FloatOps.antt =====
-- Go's float64, as the operations that the program uses. The arithmetic is a parameter of the model:
-- what a theorem needs of it is a hypothesis of that theorem.
use Prim.Native.Nat.{ℕ}
use mathlib.Core.Bool.{Bool}
use neurosentry.Common.Clock.{Duration}

pub record Floats : Type 1 where
  pub Float : Type 0
  -- x < y; false if either is NaN
  pub lt : Float → Float → Bool
  pub le : Float → Float → Bool
  pub add : Float → Float → Float
  pub minus : Float → Float → Float
  pub mul : Float → Float → Float
  -- a constant of the source
  pub lit : ℕ → Float
  -- d.Seconds()
  pub seconds : Duration → Float
