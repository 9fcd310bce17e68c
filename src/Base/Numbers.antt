-- ===== src/Base/Numbers.antt =====
-- Division of native numbers.
use Prim.Native.Nat.{ℕ, ◌+◌, ◌*◌, ◌/◌, ◌≤◌, ◌<◌}
use native.Mathlib.Omega.{arith}

-- `q` is the quotient of `a` by `n`, rounded down.
abbrev pub IsQuotient : ℕ → ℕ → ℕ → Type 0
IsQuotient q a n = (q * n ≤ a) × (a < (q + 1) * n)

pub div-IsQuotient : (a n : ℕ) → 0 < n → IsQuotient (a / n) a n
div-IsQuotient a n h = (grind arith, grind arith)

pub div-le_of_le : (a n k : ℕ) → 0 < n → a ≤ k * n → a / n ≤ k
div-le_of_le a n k h e = grind arith
