-- ===== src/Net/Mask.antt =====
pub mod Tables
pub mod Network
-- `net.CIDRMask` and `IP.Mask` on bytes, and what they do to an IPv4 address as a number.
use Prim.Native.Nat.{bit_and}
use mathlib.Core.Path.{ap₂}
use native.Mathlib.Nat.{mul-add-div_right, div-eq_of_lt, add-zero, pow-suc, div-add-mod'}
use klab.Prelude.{
  ℕ, zero, suc, ◌+◌, ◌-◌, ◌*◌, ◌/◌, ◌%◌, ◌^◌, ◌≤◌, ◌<◌, ◌≡◌, refl, Bool, true, false, ◌&&◌, List,
  [], ◌∷◌, arith, leb, ◌==◌, ==_iff, if◌then◌else◌, All, ◌∙◌, ap, sym,
}

-- The byte of a mask of which `n` bits are left to set.
unfoldable pub mask_byte : ℕ → ℕ
mask_byte n = if leb 8 n then 255 else 255 - 255 / 2 ^ n

-- An address under a mask of `n` ones.
unfoldable pub mask_bytes : ℕ → List ℕ → List ℕ
unfolding mask_byte
mask_bytes n [] = []
mask_bytes n (b ∷ bs) = bit_and b (mask_byte n) ∷ mask_bytes (n - 8) bs

-- The number that four bytes spell.
abbrev pub address : List ℕ → ℕ
address (a ∷ b ∷ c ∷ d ∷ []) = ((a * 256 + b) * 256 + c) * 256 + d
address s = 0

-- The number of the network of `n` upper bits in which an address lies.
abbrev pub network : ℕ → ℕ → ℕ
network n x = x / 2 ^ (32 - n) * 2 ^ (32 - n)

abbrev pub IsIpv4 : List ℕ → Type 0
IsIpv4 (a ∷ b ∷ c ∷ d ∷ []) = (a < 256) × (b < 256) × (c < 256) × (d < 256)
IsIpv4 s = ⊥
