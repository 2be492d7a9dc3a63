-- ===== src/Text/Decimal.antt =====
-- `strconv.Itoa`, `strconv.Atoi` and `%d`: decimal numbers.
use native.Mathlib.Nat.{pow-suc}
use klab.Prelude.{
  ℕ, zero, suc, ◌+◌, ◌-◌, ◌*◌, ◌/◌, ◌%◌, ◌^◌, ◌≤◌, ◌<◌, ◌≡◌, ap, ◌∙◌, Bool, true, false, ◌&&◌, [],
  ◌∷◌, ◌++◌, Option, none, some, arith, ltb, leb, ◌==◌, if◌then◌else◌, All, All-append, All-imp,
  ◌≢◌, Bool-cases, inl, inr, length, length-append, ltb→lt,
}
use klab.Prelude.Int.{ℤ, pos, negsuc}
use klab.Text.Defs.{Text}

-- The digits of `n`, with fuel for as many.
digits : ℕ → ℕ → Text
digits zero n = []
digits (suc f) n =
    let more = digits f (n / 10) ++ (b'0' + n % 10) ∷ [] in
    if ltb n 10 then (b'0' + n) ∷ [] else more

-- `strconv.Itoa` of a number that is not negative. A number has no more digits than its value,
-- so the fuel is enough.
unfoldable pub itoa_ℕ : ℕ → Text
unfolding digits
itoa_ℕ n = digits (suc n) n

-- strconv.Itoa
unfoldable pub itoa : ℤ → Text
itoa (pos n) = itoa_ℕ n
itoa (negsuc n) = b'-' ∷ itoa_ℕ (suc n)

abbrev pub is_digit : ℕ → Bool
is_digit c = leb b'0' c && leb c b'9'

-- The digits read behind `n`, with no bound; `none` at a byte that is no digit.
unfoldable pub read_digits : ℕ → Text → Option ℕ
read_digits n [] = some n
read_digits n (c ∷ s) = if is_digit c then read_digits (n * 10 + (c - b'0')) s else none

-- One digit or more.
unfoldable pub read_nat : Text → Option ℕ
unfolding read_digits
read_nat [] = none
read_nat (c ∷ s) = read_digits 0 (c ∷ s)

abbrev pub max_int : ℕ
max_int = 2 ^ 63 - 1

signed : Bool → ℕ → Option ℤ
signed false n = if leb n max_int then some (pos n) else none
signed true zero = some (pos 0)
signed true (suc n) = if leb n max_int then some (negsuc n) else none

with_sign : Bool → Option ℕ → Option ℤ
unfolding signed
with_sign neg none = none
with_sign neg (some n) = signed neg n

-- `strconv.Atoi`: an optional sign and one digit or more, within 64 bits.
unfoldable pub atoi : Text → Option ℤ
unfolding read_nat with_sign
atoi [] = none
atoi (c ∷ s) =
    if c == b'-'
    then with_sign true (read_nat s)
    else if c == b'+'
    then with_sign false (read_nat s)
    else with_sign false (read_nat (c ∷ s))

read_digits-append :
    (s t : Text) (n m : ℕ) → read_digits n s ≡ some m → read_digits n (s ++ t) ≡ read_digits m t
unfolding read_digits
read_digits-append [] t n m h = ground arith
read_digits-append (c ∷ s) t n m h = ground (arith, read_digits-append s t (n * 10 + (c - b'0')) m)

read_digit : (m d : ℕ) → d < 10 → read_digits m ((b'0' + d) ∷ []) ≡ some (m * 10 + d)
unfolding read_digits
read_digit m d h = ground arith

digits_small : (f n : ℕ) → ltb n 10 ≡ true → digits (suc f) n ≡ (b'0' + n) ∷ []
unfolding digits
digits_small f n h = rw h

digits_big :
    (f n : ℕ) → ltb n 10 ≡ false → digits (suc f) n ≡ digits f (n / 10) ++ (b'0' + n % 10) ∷ []
unfolding digits
digits_big f n h = rw h

tenth_lt : (f n : ℕ) → n < suc f → ltb n 10 ≡ false → n / 10 < f
tenth_lt f n h big = ground arith

read_digits-digits : (f n : ℕ) → n < f → read_digits 0 (digits f n) ≡ some n
read_digits-digits zero n h = elim h [ ]
read_digits-digits (suc f) n h = elim (Bool-cases (ltb n 10)) [
  | inl small ↦
      rw (digits_small f n small) (read_digit 0 n (ltb→lt n 10 small) ∙ ap some (omega arith))
  | inr big ↦ rw (digits_big f n big) (
      read_digits-append (digits f (n / 10)) ((b'0' + n % 10) ∷ []) 0 (n / 10)
        (read_digits-digits f (n / 10) (tenth_lt f n h big))
      ∙ read_digit (n / 10) (n % 10) (omega arith)
      ∙ ap some (omega arith))
]

digits_first : (f n : ℕ) → n < f → (c : ℕ) × (s : Text) × (digits f n ≡ c ∷ s) × (is_digit c ≡ true)
digits_first zero n h = elim h [ ]
digits_first (suc f) n h = elim (Bool-cases (ltb n 10)) [
  | inl small ↦ (b'0' + n, [], digits_small f n small, ground arith)
  | inr big ↦
      let (c, s, e, d) = digits_first f (n / 10) (tenth_lt f n h big) in
      (c, s ++ (b'0' + n % 10) ∷ [], rw (digits_big f n big, e), d)
]

-- The first byte of a printed number is a digit.
pub itoa_ℕ_first : (n : ℕ) → (c : ℕ) × (s : Text) × (itoa_ℕ n ≡ c ∷ s) × (is_digit c ≡ true)
unfolding itoa_ℕ
itoa_ℕ_first n = digits_first (suc n) n (omega arith)

pub read_digits-itoa_ℕ : (n : ℕ) → read_digits 0 (itoa_ℕ n) ≡ some n
unfolding itoa_ℕ
read_digits-itoa_ℕ n = read_digits-digits (suc n) n (omega arith)

pub read_nat-itoa_ℕ : (n : ℕ) → read_nat (itoa_ℕ n) ≡ some n
unfolding read_nat
read_nat-itoa_ℕ n = let (c, s, e, d) = itoa_ℕ_first n in rw e (rw e at (read_digits-itoa_ℕ n))

-- Two numbers that print alike are equal.
pub itoa_ℕ-injective : (m n : ℕ) → itoa_ℕ m ≡ itoa_ℕ n → m ≡ n
itoa_ℕ-injective m n e = cc (read_digits-itoa_ℕ m, read_digits-itoa_ℕ n, ap (read_digits 0) e)

-- The 64-bit integers.
abbrev pub IsInt : ℤ → Type 0
IsInt (pos n) = n ≤ max_int
IsInt (negsuc n) = n ≤ max_int

-- Every 64-bit integer is read back from its decimal print.
pub atoi-itoa : (z : ℤ) → IsInt z → atoi (itoa z) ≡ some z
unfolding atoi itoa
atoi-itoa (pos n) h =
    let (c, s, e, d) = itoa_ℕ_first n in rw e (ground (arith, rw e at (read_nat-itoa_ℕ n)))
atoi-itoa (negsuc n) h = rw (read_nat-itoa_ℕ (suc n)) (ground arith)

-- A number below a power of ten has at most as many digits.
length-digits : (f n k : ℕ) → n < f → n < 10 ^ suc k → length (digits f n) ≤ suc k
length-digits zero n k h b = elim h [ ]
length-digits (suc f) n zero h b = rw (digits_small f n (ground arith)) (omega arith)
length-digits (suc f) n (suc k) h b = elim (Bool-cases (ltb n 10)) [
  | inl small ↦ rw (digits_small f n small) (omega arith)
  | inr big ↦ rw (digits_big f n big) (
      omega (
        arith,
        length-append (digits f (n / 10)) ((b'0' + n % 10) ∷ []),
        length-digits f (n / 10) k (tenth_lt f n h big) (omega (arith, pow-suc 10 (suc k))),
      ))
]

pub length-itoa_ℕ : (n k : ℕ) → n < 10 ^ suc k → length (itoa_ℕ n) ≤ suc k
unfolding itoa_ℕ
length-itoa_ℕ n k h = length-digits (suc n) n k (omega arith) h

digits-All : (f n : ℕ) → n < f → All (λ c. is_digit c ≡ true) (digits f n)
digits-All zero n h = elim h [ ]
digits-All (suc f) n h = elim (Bool-cases (ltb n 10)) [
  | inl small ↦ rw (digits_small f n small) (ground arith, tt)
  | inr big ↦ rw (digits_big f n big) (
      All-append _ (digits f (n / 10)) ((b'0' + n % 10) ∷ [])
        (digits-All f (n / 10) (tenth_lt f n h big)) (ground arith, tt))
]

pub itoa_ℕ-digits : (n : ℕ) → All (λ c. is_digit c ≡ true) (itoa_ℕ n)
unfolding itoa_ℕ
itoa_ℕ-digits n = digits-All (suc n) n (omega arith)

no_digit : (b c : ℕ) → is_digit b ≡ false → is_digit c ≡ true → c ≡ b → ⊥
no_digit b c h d e = ground arith

-- A printed number holds no byte but digits.
pub itoa_ℕ-lacks : (b n : ℕ) → is_digit b ≡ false → All (λ c. c ≢ b) (itoa_ℕ n)
unfolding itoa_ℕ
itoa_ℕ-lacks b n h =
    All-imp (digits (suc n) n) (λ c d e. no_digit b c h d e) (digits-All (suc n) n (omega arith))
