-- ===== src/Base/Int.antt =====
-- Go's `int` and `int64` where a value may be negative, as integers over the native numbers.
use Prim.Native.Nat.{ℕ, suc, ◌+◌, ◌-◌, ◌≤◌}
use mathlib.Core.Path.{◌≡◌}
use mathlib.Core.Bool.{Bool, true, false}
use mathlib.Core.Option.{Option, none, some}
use native.Mathlib.Omega.{arith}
use torrcli.Base.Text.{leb, ltb}

-- `negsuc n` is -(n + 1).
pub data ℤ : Type 0 where
  pos : ℕ → ℤ
  negsuc : ℕ → ℤ

-- `n < 0`.
abbrev pub is_negative : ℤ → Bool
is_negative (pos n) = false
is_negative (negsuc n) = true

-- `n > 0`.
abbrev pub is_positive : ℤ → Bool
is_positive (pos n) = ltb 0 n
is_positive (negsuc n) = false

-- `n <= m`, for a number `m` that counts something.
abbrev pub at_most : ℤ → ℕ → Bool
at_most (pos n) m = leb n m
at_most (negsuc n) m = true

-- `i + offset` for an index `i`: none where it is negative.
unfoldable pub shift : ℕ → ℤ → Option ℕ
shift i (pos n) = some (i + n)
shift i (negsuc n) = elim (leb (suc n) i) [ true ↦ some (i - suc n) | false ↦ none ]

pub to_ℕ : ℤ → ℕ
to_ℕ (pos n) = n
to_ℕ (negsuc n) = 0

-- A positive limit is a positive number.
pub to_ℕ-at_most : (l : ℤ) (m : ℕ) → is_positive l ≡ true → at_most l m ≡ false → suc m ≤ to_ℕ l
unfolding to_ℕ
to_ℕ-at_most (pos n) m p h = ground arith
to_ℕ-at_most (negsuc n) m p h = ground arith
