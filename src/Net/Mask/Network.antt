-- ===== src/Net/Mask/Network.antt =====
-- Masking an IPv4 address by `n` ones leaves the number of its network.
use Prim.Native.Nat.{bit_and}
use mathlib.Core.Path.{ap₂, subst}
use native.Mathlib.Nat.{mul-add-div_right, div-lt_iff_lt-mul, div-eq_of_lt, add-zero, div-add-mod'}
use klab.Prelude.{
  ℕ, ◌+◌, ◌-◌, ◌*◌, ◌/◌, ◌%◌, ◌^◌, ◌≤◌, ◌<◌, ◌≡◌, true, List, [], ◌∷◌, arith, ==_iff, ◌∙◌, ap, sym,
}
use klab.Net.Mask.{mask_byte, mask_bytes, address, network, IsIpv4}
use native.Mathlib.Decide.{dec_le}
use klab.Net.Mask.Tables.{masked_byte, shifts_agree, shifts, complement, pow_pos, whole}

remainder_fits : (c l w p : ℕ) → 0 < p → l < w → c % p * w + l < p * w
remainder_fits c l w p hp hl = grind arith

regroup :
    (h l w p f q r : ℕ) → (h * (p * f) + (q * p + r)) * w + l ≡ (h * f + q) * (p * w) + (r * w + l)
regroup h l w p f q r = omega arith

spread : (h w p f q : ℕ) → (h * f + q) * (p * w) ≡ (h * (p * f) + q * p) * w
spread h w p f q = omega arith

-- Cutting a number at a place inside the digit `c` of its base-256 form.
cut_inside :
    (h c l w p f : ℕ)
    → 0 < p
    → p * f ≡ 256
    → l < w
    → ((h * 256 + c) * w + l) / (p * w) * (p * w) ≡ (h * 256 + c / p * p) * w
cut_inside h c l w p f hp e hl =
    ap (λ n. n / (p * w) * (p * w)) whole
    ∙ ap (λ n. n * (p * w))
        (mul-add-div_right pw (h * f + c / p) (c % p * w + l)
          ∙ ap (λ n. h * f + c / p + n) (div-eq_of_lt (remainder_fits c l w p hp hl))
          ∙ add-zero _)
    ∙ spread h w p f (c / p)
    ∙ ap (λ n. (h * n + c / p * p) * w) e
  where
    pw : 0 < p * w
    pw = grind arith

    whole : (h * 256 + c) * w + l ≡ (h * f + c / p) * (p * w) + (c % p * w + l)
    whole =
        ap₂ (λ n m. (h * n + m) * w + l) (sym e) (sym (div-add-mod' c p))
        ∙ regroup h l w p f (c / p) (c % p)

full_mask : (m : ℕ) → 8 ≤ m → mask_byte m ≡ mask_byte 8
unfolding mask_byte
full_mask m hm = ground arith

full_byte : (m x : ℕ) → 8 ≤ m → x < 256 → bit_and x (mask_byte m) ≡ x
full_byte m x hm hx =
    ap (bit_and x) (full_mask m hm) ∙ masked_byte 8 x (omega arith) hx ∙ omega arith

no_byte : (m x : ℕ) → m ≡ 0 → x < 256 → bit_and x (mask_byte m) ≡ 0
no_byte m x e hx = rw e (masked_byte 0 x (omega arith) hx ∙ omega arith)

-- The cut at `k` bits of the byte `c`, behind `h` and before `l`.
masked_block :
    (w bits k h c l : ℕ)
    → k < 9
    → l < w
    → shifts_agree w bits k ≡ true
    → (h * 256 + c / 2 ^ (8 - k) * 2 ^ (8 - k)) * w
      ≡ ((h * 256 + c) * w + l) / 2 ^ (bits - k) * 2 ^ (bits - k)
masked_block w bits k h c l hk hl e =
    let width : 2 ^ (8 - k) * w ≡ 2 ^ (bits - k) = (==_iff _ _).0 e in
    rw (← width)
      (sym (cut_inside h c l w (2 ^ (8 - k)) (2 ^ k) (pow_pos (8 - k)) (complement k hk) hl))

module _ (n a b c d : ℕ) (ha : a < 256) (hb : b < 256) (hc : c < 256) (hd : d < 256) where
  abbrev Masked : Type 0
  Masked = address (mask_bytes n (a ∷ b ∷ c ∷ d ∷ [])) ≡ network n (address (a ∷ b ∷ c ∷ d ∷ []))

  in_first : n ≤ 8 → Masked
  unfolding mask_bytes
  in_first hi =
      rw
        (
          masked_byte n a (omega arith) ha,
          no_byte (n - 8) b (omega arith) hb,
          no_byte (n - 8 - 8) c (omega arith) hc,
          no_byte (n - 8 - 8 - 8) d (omega arith) hd,
        )
        (omega arith
          ∙ masked_block 16777216 32 n 0 a (b * 65536 + c * 256 + d) (omega arith) (omega arith)
              (shifts n (omega arith)).3
          ∙ ap (network n) (omega arith))

  in_second : 8 ≤ n → n ≤ 16 → Masked
  unfolding mask_bytes
  in_second lo hi =
      let k = n - 8 in
      let e : 32 - n ≡ 24 - k = omega arith in
      rw
        (
          full_byte n a (omega arith) ha,
          masked_byte k b (omega arith) hb,
          no_byte (k - 8) c (omega arith) hc,
          no_byte (k - 8 - 8) d (omega arith) hd,
          e,
        )
        (omega arith
          ∙ masked_block 65536 24 k a b (c * 256 + d) (omega arith) (omega arith)
              (shifts k (omega arith)).2
          ∙ ap (λ x. x / 2 ^ (24 - k) * 2 ^ (24 - k)) (omega arith))

  in_third : 16 ≤ n → n ≤ 24 → Masked
  unfolding mask_bytes
  in_third lo hi =
      let k = n - 8 - 8 in
      let e : 32 - n ≡ 16 - k = omega arith in
      rw
        (
          full_byte n a (omega arith) ha,
          full_byte (n - 8) b (omega arith) hb,
          masked_byte k c (omega arith) hc,
          no_byte (k - 8) d (omega arith) hd,
          e,
        )
        (add-zero _
          ∙ masked_block 256 16 k (a * 256 + b) c d (omega arith) hd (shifts k (omega arith)).1)

  in_fourth : 24 ≤ n → n ≤ 32 → Masked
  unfolding mask_bytes
  in_fourth lo hi =
      let k = n - 8 - 8 - 8 in
      let e : 32 - n ≡ 8 - k = omega arith in
      rw
        (
          full_byte n a (omega arith) ha,
          full_byte (n - 8) b (omega arith) hb,
          full_byte (n - 8 - 8) c (omega arith) hc,
          masked_byte k d (omega arith) hd,
          e,
        )
        (omega arith
          ∙ masked_block 1 8 k ((a * 256 + b) * 256 + c) d 0 (omega arith) (omega arith)
              (shifts k (omega arith)).0
          ∙ ap (λ x. x / 2 ^ (8 - k) * 2 ^ (8 - k)) (omega arith))

-- Masking an address by at most 32 ones leaves the number of its network.
pub address-mask_bytes :
    (n : ℕ) (ip : List ℕ) → n ≤ 32 → IsIpv4 ip → address (mask_bytes n ip) ≡ network n (address ip)
address-mask_bytes n (a ∷ b ∷ c ∷ d ∷ []) hi (ha, hb, hc, hd) = elim (dec_le n 8) [
  | yes h1 ↦ in_first n a b c d ha hb hc hd h1
  | no h1 ↦ elim (dec_le n 16) [
    | yes h2 ↦ in_second n a b c d ha hb hc hd (omega arith) h2
    | no h2 ↦ elim (dec_le n 24) [
      | yes h3 ↦ in_third n a b c d ha hb hc hd (omega arith) h3
      | no h3 ↦ in_fourth n a b c d ha hb hc hd (omega arith) hi
    ]
  ]
]
address-mask_bytes n [] hi h = absurd h
address-mask_bytes n (a ∷ []) hi h = absurd h
address-mask_bytes n (a ∷ b ∷ []) hi h = absurd h
address-mask_bytes n (a ∷ b ∷ c ∷ []) hi h = absurd h
address-mask_bytes n (a ∷ b ∷ c ∷ d ∷ e ∷ s) hi h = absurd h

-- An address less than a block's size behind the start of its network stays in the network.
pub network-add : (n x k : ℕ) → k < 2 ^ (32 - n) → network n (network n x + k) ≡ network n x
network-add n x k h =
    ap (λ q. q * 2 ^ (32 - n))
      (mul-add-div_right (pow_pos (32 - n)) (x / 2 ^ (32 - n)) k
        ∙ ap (λ q. x / 2 ^ (32 - n) + q) (div-eq_of_lt h)
        ∙ add-zero _)

-- Masking leaves four bytes.
div_mul_bound : (x p : ℕ) → x < 256 → x / p * p < 256
div_mul_bound x p h = omega (arith, div-add-mod' x p)

byte_bound : (m x : ℕ) → x < 256 → bit_and x (mask_byte m) < 256
byte_bound m x h = elim (dec_le m 8) [
  | yes small ↦ rw (masked_byte m x (omega arith) h) (div_mul_bound x (2 ^ (8 - m)) h)
  | no big ↦ rw (full_byte m x (omega arith) h) h
]

pub mask_bytes-IsIpv4 : (n : ℕ) (ip : List ℕ) → IsIpv4 ip → IsIpv4 (mask_bytes n ip)
unfolding mask_bytes
mask_bytes-IsIpv4 n (a ∷ b ∷ c ∷ d ∷ []) (ha, hb, hc, hd) = (
  byte_bound n a ha,
  byte_bound (n - 8) b hb,
  byte_bound (n - 8 - 8) c hc,
  byte_bound (n - 8 - 8 - 8) d hd,
)
mask_bytes-IsIpv4 n [] h = absurd h
mask_bytes-IsIpv4 n (a ∷ []) h = absurd h
mask_bytes-IsIpv4 n (a ∷ b ∷ []) h = absurd h
mask_bytes-IsIpv4 n (a ∷ b ∷ c ∷ []) h = absurd h
mask_bytes-IsIpv4 n (a ∷ b ∷ c ∷ d ∷ e ∷ s) h = absurd h

pub address-lt : (ip : List ℕ) → IsIpv4 ip → address ip < 2 ^ 32
address-lt (a ∷ b ∷ c ∷ d ∷ []) (ha, hb, hc, hd) = omega arith
address-lt [] h = absurd h
address-lt (a ∷ []) h = absurd h
address-lt (a ∷ b ∷ []) h = absurd h
address-lt (a ∷ b ∷ c ∷ []) h = absurd h
address-lt (a ∷ b ∷ c ∷ d ∷ e ∷ s) h = absurd h

next_block : (q m p : ℕ) → q < m → q * p + p ≤ m * p
next_block q m p h = grind arith

-- A network ends within 32 bits.
pub network_bound : (n x : ℕ) → n ≤ 32 → x < 2 ^ 32 → network n x + 2 ^ (32 - n) ≤ 2 ^ 32
network_bound n x hn hx =
    let w = whole n (omega arith) in
    let q = x / 2 ^ (32 - n) in
    let below : q < 2 ^ n = (div-lt_iff_lt-mul (pow_pos (32 - n))).1 (rw w hx) in
    subst (λ k. q * 2 ^ (32 - n) + 2 ^ (32 - n) ≤ k) w (next_block q (2 ^ n) (2 ^ (32 - n)) below)
