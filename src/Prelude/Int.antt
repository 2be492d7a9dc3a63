-- ===== src/Prelude/Int.antt =====
-- Go's `int`: the integers, of which the program only asks whether they lie below 0 or 1.
use Prim.Native.Nat.{ℕ}
use mathlib.Core.Bool.{Bool, true, false}

-- `negsuc n` is -(n + 1).
pub data ℤ : Type 0 where
  pos : ℕ → ℤ
  negsuc : ℕ → ℤ

-- n < 0
abbrev pub is_negative : ℤ → Bool
is_negative (pos n) = false
is_negative (negsuc n) = true

-- n < 1
abbrev pub below_one : ℤ → Bool
below_one (pos n) = elim n [ ℕ.zero ↦ true | ℕ.suc m ↦ false ]
below_one (negsuc n) = true

-- The rounds of `for i := 0; i < n; i++`.
abbrev pub rounds : ℤ → ℕ
rounds (pos n) = n
rounds (negsuc n) = 0

-- n == 0
abbrev pub is_zero : ℤ → Bool
is_zero (pos n) = elim n [ ℕ.zero ↦ true | ℕ.suc m ↦ false ]
is_zero (negsuc n) = false
