-- ===== src/Common/Int.antt =====
-- Python's integers, and its floats where a value is read from outside. A finite float is a whole
-- number of clock ticks, so that rounding is left out.
use josu.Common.{ℕ, zero, suc, Bool, true, false}

-- `negsuc n` is -(n + 1).
pub data ℤ : Type 0 where
  pos : ℕ → ℤ
  negsuc : ℕ → ℤ

-- `n <= 0`
abbrev pub is_nonpositive : ℤ → Bool
is_nonpositive (pos zero) = true
is_nonpositive (pos (suc n)) = false
is_nonpositive (negsuc n) = true

pub data Float : Type 0 where
  finite : ℤ → Float
  inf neg_inf nan : Float

-- `math.isfinite(x)`
abbrev pub is_finite : Float → Bool
is_finite (finite x) = true
is_finite _ = false

-- `x <= 0`, which is false of a NaN.
abbrev pub float_nonpositive : Float → Bool
float_nonpositive (finite x) = is_nonpositive x
float_nonpositive inf = false
float_nonpositive neg_inf = true
float_nonpositive nan = false
