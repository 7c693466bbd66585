-- ===== src/Base/Floats.antt =====
-- Python's floats, which the program computes budgets, weights and scores with: a type with the
-- operations that the code calls. No law of rounding is assumed.
use Prim.Native.Nat.{ℕ}
use mathlib.Core.Path.{◌≡◌}
use mathlib.Core.Bool.{Bool, true, false}
use dext.Base.Tests.{if◌then◌else◌}

pub record Floats : Type 1 where
  pub Float : Type 0
  -- The value of an `int`, and of a literal `n / 100`.
  pub of_ℕ : ℕ → Float
  pub hundredths : ℕ → Float
  pub add : Float → Float → Float
  pub mul : Float → Float → Float
  pub div : Float → Float → Float
  -- `a > b` and `a <= b`, which are both false at a NaN
  pub gt : Float → Float → Bool
  pub le : Float → Float → Bool
  -- `round(a)` of a number that is not negative
  pub round : Float → ℕ

-- `>` is irreflexive and asymmetric, also where a NaN is compared.
pub record IsStrict (fl : Floats) : Type 0 where
  pub irrefl : (a : fl.Float) → fl.gt a a ≡ false
  pub asymm : (a b : fl.Float) → fl.gt a b ≡ true → fl.gt b a ≡ false

-- `max(a, b)`, which returns the first of its largest arguments
abbrev pub fmax : (fl : Floats) → fl.Float → fl.Float → fl.Float
fmax fl a b = if fl.gt b a then b else a
