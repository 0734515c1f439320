-- ===== src/Golang/Float.antt =====
-- float64, as far as the program computes with it: it tests, compares and copies.
use speedtest_go.Base.{ℕ, ◌+◌, ◌*◌, ◌^◌, Bool, true, false, if◌then◌else◌, ltb}

-- A finite value is a sign and a magnitude in units of the least float64, 2^-1074: every finite
-- float64 is such a value, and -0 differs from 0.
pub data Float : Type 0 where
  nan : Float
  inf : Bool → Float
  finite : Bool → ℕ → Float

-- The number `n`; the unit is written out as a power of two.
unfoldable pub unit : ℕ
unit = 2 ^ 1074

unfoldable pub of_ℕ : ℕ → Float
of_ℕ n = finite false (n * unit)

unfoldable pub is_nan : Float → Bool
is_nan nan = true
is_nan (inf s) = false
is_nan (finite s m) = false

-- `math.IsInf(v, 0)`
unfoldable pub is_inf : Float → Bool
is_inf nan = false
is_inf (inf s) = true
is_inf (finite s m) = false

-- `v < w`: false where either is NaN, and -0 is not below 0.
unfoldable pub ltf : Float → Float → Bool
ltf nan w = false
ltf (inf s) nan = false
ltf (inf true) (inf t) = if t then false else true
ltf (inf false) (inf t) = false
ltf (inf s) (finite t n) = s
ltf (finite s m) nan = false
ltf (finite s m) (inf t) = if t then false else true
ltf (finite false m) (finite false n) = ltb m n
ltf (finite false m) (finite true n) = false
ltf (finite true m) (finite false n) = ltb 0 (m + n)
ltf (finite true m) (finite true n) = ltb n m
