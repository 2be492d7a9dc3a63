-- ===== src/Kernel/Key.antt =====
-- `CacheKey`: the length prefixes keep the fields apart, so two keys that agree name the same build.
use mathlib.Core.Path.{ap₂}
use klab.Prelude.{
  ℕ, ◌≡◌, ◌≢◌, ◌⊎◌, ◌<◌, refl, ap, inl, inr, List, [], ◌∷◌, ◌++◌, arith, length, All, Bool-cases,
}
use klab.Text.{Text, text_eq, text_eq_sound, text_eq_iff}
use klab.Text.Decimal.{itoa_ℕ, itoa_ℕ-injective, itoa_ℕ-lacks}
use klab.Text.Hex.{hex-injective}
use klab.Text.Split.{cut-injective}
use klab.Kernel.{preimage, cache_key}

first_or : ℕ → Text → ℕ
first_or c [] = c
first_or c (d ∷ s) = d

tail_of : Text → Text
tail_of [] = []
tail_of (c ∷ s) = s

same_length : (a a' b b' : Text) → length a ≡ length a' → a ++ b ≡ a' ++ b' → (a ≡ a') × (b ≡ b')
unfolding tail_of first_or
same_length [] [] b b' h e = (refl, e)
same_length [] (c ∷ a') b b' h e = absurd (omega (arith, h))
same_length (c ∷ a) [] b b' h e = absurd (omega (arith, h))
same_length (c ∷ a) (d ∷ a') b b' h e =
    let (p, q) = same_length a a' b b' (omega (arith, h)) (ap tail_of e) in
    (ap₂ (λ x xs. x ∷ xs) (ap (first_or c) e) p, q)

-- What the hash is fed determines the fields, where there are as many.
pub preimage-injective :
    (xs ys : List Text) → length xs ≡ length ys → preimage xs ≡ preimage ys → xs ≡ ys
unfolding preimage
preimage-injective [] [] h e = refl
preimage-injective [] (y ∷ ys) h e = absurd (omega (arith, h))
preimage-injective (x ∷ xs) [] h e = absurd (omega (arith, h))
preimage-injective (x ∷ xs) (y ∷ ys) h e =
    let (n, rest) =
      cut-injective b':' (itoa_ℕ (length x)) (x ++ preimage xs) (itoa_ℕ (length y))
        (y ++ preimage ys) (itoa_ℕ-lacks b':' (length x) refl) (itoa_ℕ-lacks b':' (length y) refl)
        e in
    let (p, q) = same_length x y (preimage xs) (preimage ys) (itoa_ℕ-injective _ _ n) rest in
    cc (p, preimage-injective xs ys (omega (arith, h)) q)

pub cache_key_collision :
    (sum : Text → Text)
    → ((s : Text) → All (λ b. b < 256) (sum s))
    → (ref arch toolchain config ref' arch' toolchain' config' : Text)
    → cache_key sum ref arch toolchain config ≡ cache_key sum ref' arch' toolchain' config'
    → ((ref ≡ ref') × (arch ≡ arch') × (toolchain ≡ toolchain') × (config ≡ config'))
      ⊎ ((s : Text) × (t : Text) × (s ≢ t) × (sum s ≡ sum t))
unfolding cache_key
cache_key_collision sum bytes ref arch toolchain config ref' arch' toolchain' config' e =
    let s = preimage (ref ∷ arch ∷ toolchain ∷ config ∷ []) in
    let t = preimage (ref' ∷ arch' ∷ toolchain' ∷ config' ∷ []) in
    let same = hex-injective (sum s) (sum t) (bytes s) (bytes t) e in
    elim (Bool-cases (text_eq s t)) [
      | inl h ↦
          let q =
            preimage-injective (ref ∷ arch ∷ toolchain ∷ config ∷ [])
              (ref' ∷ arch' ∷ toolchain' ∷ config' ∷ []) refl (text_eq_sound s t h) in
          inl (cc q, cc q, cc q, cc q)
      | inr n ↦ inr (s, t, (λ h. ground (arith, (text_eq_iff s t).1 h)), same)
    ]
