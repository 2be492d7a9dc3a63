-- ===== src/Text/Saturated.antt =====
-- The number that `strconv.Atoi` returns, also beside an error.
use klab.Prelude.{
  ℕ, zero, suc, ◌+◌, ◌-◌, ◌*◌, ◌^◌, Bool, true, false, [], ◌∷◌, Option, none, some, leb, ltb, ◌==◌,
  if◌then◌else◌,
}
use klab.Prelude.Int.{ℤ, pos, negsuc}
use klab.Text.Defs.{Text}
use klab.Text.Decimal.{is_digit, max_int}

abbrev pub max_uint : ℕ
max_uint = 2 ^ 64 - 1

-- The digits, up to the one that leaves 64 bits; `none` at a byte before that which is no digit.
unfoldable pub uint_value : ℕ → Text → Option ℕ
uint_value n [] = some n
uint_value n (c ∷ s) =
    let m = n * 10 + (c - b'0') in
    let rest = uint_value m s in
    if is_digit c then (if ltb max_uint m then some max_uint else rest) else none

-- A number past the range is the bound that it passed, and a text that is none is 0.
unfoldable pub int_value : Bool → Option ℕ → ℤ
int_value neg none = pos 0
int_value false (some n) = pos (if leb n max_int then n else max_int)
int_value true (some zero) = pos 0
int_value true (some (suc n)) = negsuc (if leb n max_int then n else max_int)

unfoldable pub digits_value : Text → Option ℕ
digits_value [] = none
digits_value (c ∷ s) = uint_value 0 (c ∷ s)

-- `n, _ = strconv.Atoi(s)`
unfoldable pub atoi_value : Text → ℤ
atoi_value [] = pos 0
atoi_value (c ∷ s) =
    if c == b'-'
    then int_value true (digits_value s)
    else if c == b'+'
    then int_value false (digits_value s)
    else int_value false (digits_value (c ∷ s))
