-- ===== src/Net/Mask/Tables.antt =====
-- Facts on masks that are checked at every byte.
use Prim.Native.Nat.{bit_and}
use native.Mathlib.Nat.{pow-suc}
use klab.Prelude.{
  ℕ, zero, suc, ◌-◌, ◌*◌, ◌/◌, ◌^◌, ◌<◌, ◌≡◌, refl, Bool, true, false, if◌then◌else◌, arith, ◌==◌,
  ==_iff,
}
use klab.Net.Mask.{mask_byte}

-- A test that holds of every number below a bound, found by evaluating it at each.
true_below : (ℕ → Bool) → ℕ → Bool
true_below test zero = true
true_below test (suc bound) = if test bound then true_below test bound else false

true_below-at :
    (test : ℕ → Bool) (bound k : ℕ) → k < bound → true_below test bound ≡ true → test k ≡ true
unfolding true_below
true_below-at test zero k below h = absurd (omega arith)
true_below-at test (suc bound) k below h = ground (arith, true_below-at test bound k)

-- Masking a byte by its `k` upper bits drops the rest, at every byte and every `k`.
masks_agree : ℕ → ℕ → Bool
unfolding mask_byte
masks_agree k x = bit_and x (mask_byte k) == x / 2 ^ (8 - k) * 2 ^ (8 - k)

mask_table : true_below (λ k. true_below (masks_agree k) 256) 9 ≡ true
unfolding true_below masks_agree
mask_table = refl

pub masked_byte :
    (k x : ℕ) → k < 9 → x < 256 → bit_and x (mask_byte k) ≡ x / 2 ^ (8 - k) * 2 ^ (8 - k)
masked_byte k x hk hx = (==_iff _ _).0 (
    unfold masks_agree in
    true_below-at (masks_agree k) 256 x hx
      (true_below-at (λ j. true_below (masks_agree j) 256) 9 k hk mask_table))

-- 2 ^ (8 - k) * w ≡ 2 ^ (8 - k + bits), at every `k`.
abbrev pub shifts_agree : ℕ → ℕ → ℕ → Bool
shifts_agree w bits k = 2 ^ (8 - k) * w == 2 ^ (bits - k)

shift_table :
    (true_below (shifts_agree 1 8) 9 ≡ true)
    × (true_below (shifts_agree 256 16) 9 ≡ true)
    × (true_below (shifts_agree 65536 24) 9 ≡ true)
    × (true_below (shifts_agree 16777216 32) 9 ≡ true)
unfolding true_below
shift_table = (refl, refl, refl, refl)

complement_table : true_below (λ k. 2 ^ (8 - k) * 2 ^ k == 256) 9 ≡ true
unfolding true_below
complement_table = refl

pub complement : (k : ℕ) → k < 9 → 2 ^ (8 - k) * 2 ^ k ≡ 256
complement k h = (==_iff _ _).0 (true_below-at _ 9 k h complement_table)

pub pow_pos : (k : ℕ) → 0 < 2 ^ k
pow_pos zero = omega arith
pow_pos (suc k) = omega (arith, pow-suc 2 k, pow_pos k)

pub shifts :
    (k : ℕ)
    → k < 9
    → (shifts_agree 1 8 k ≡ true)
      × (shifts_agree 256 16 k ≡ true)
      × (shifts_agree 65536 24 k ≡ true)
      × (shifts_agree 16777216 32 k ≡ true)
shifts k h = (
  true_below-at (shifts_agree 1 8) 9 k h shift_table.0,
  true_below-at (shifts_agree 256 16) 9 k h shift_table.1,
  true_below-at (shifts_agree 65536 24) 9 k h shift_table.2,
  true_below-at (shifts_agree 16777216 32) 9 k h shift_table.3,
)

whole_table : true_below (λ n. 2 ^ n * 2 ^ (32 - n) == 2 ^ 32) 33 ≡ true
unfolding true_below
whole_table = refl

pub whole : (n : ℕ) → n < 33 → 2 ^ n * 2 ^ (32 - n) ≡ 2 ^ 32
whole n h = (==_iff _ _).0 (true_below-at (λ m. 2 ^ m * 2 ^ (32 - m) == 2 ^ 32) 33 n h whole_table)
