-- ===== src/Text/Plain.antt =====
-- Texts of visible ASCII bytes, which trimming leaves alone.
use mathlib.Core.List.{reverse_aux}
use klab.Prelude.{ℕ, ◌≤◌, ◌<◌, ◌≡◌, refl, [], ◌∷◌, none, true, arith, reverse, All, All-imp}
use klab.Prelude.Int.{ℤ, pos, negsuc}
use klab.Text.Defs.{Text}
use klab.Text.Decimal.{itoa_ℕ, itoa, itoa_ℕ-digits, is_digit}
use klab.Text.Space.{space1, space2, space3, back2, back3, after_space, trim_space, trim_space_id}

abbrev pub IsPlain : ℕ → Type 0
IsPlain c = (33 ≤ c) × (c < 128)

front : (s : Text) → All IsPlain s → after_space space2 space3 s ≡ none
unfolding after_space space1 space2 space3
front [] h = refl
front (a ∷ []) (ha, h) = ground arith
front (a ∷ b ∷ []) (ha, h) = ground arith
front (a ∷ b ∷ c ∷ s) (ha, h) = ground arith

back : (s : Text) → All IsPlain s → after_space back2 back3 s ≡ none
unfolding after_space space1 space2 space3 back2 back3
back [] h = refl
back (a ∷ []) (ha, h) = ground arith
back (a ∷ b ∷ []) (ha, h) = ground arith
back (a ∷ b ∷ c ∷ s) (ha, h) = ground arith

All-reverse_aux : (s t : Text) → All IsPlain s → All IsPlain t → All IsPlain (reverse_aux s t)
All-reverse_aux [] t hs ht = ht
All-reverse_aux (c ∷ s) t (hc, hs) ht = All-reverse_aux s (c ∷ t) hs (hc, ht)

pub trim_space-plain : (s : Text) → All IsPlain s → trim_space s ≡ s
trim_space-plain s h =
    trim_space_id s
      (record { front = front s h; back = back (reverse s) (All-reverse_aux s [] h tt) })

IsPlain-digit : (c : ℕ) → is_digit c ≡ true → IsPlain c
IsPlain-digit c h = ground arith

pub itoa_ℕ-IsPlain : (n : ℕ) → All IsPlain (itoa_ℕ n)
itoa_ℕ-IsPlain n = All-imp (itoa_ℕ n) (λ c d. IsPlain-digit c d) (itoa_ℕ-digits n)

pub itoa-IsPlain : (z : ℤ) → All IsPlain (itoa z)
unfolding itoa
itoa-IsPlain (pos n) = itoa_ℕ-IsPlain n
itoa-IsPlain (negsuc n) = ((omega arith, omega arith), itoa_ℕ-IsPlain _)
