-- ===== src/Text/Split.antt =====
-- `strings.Split` and `strings.Cut` at one byte.
use klab.Prelude.{
  ℕ, refl, ◌≡◌, ◌≢◌, sym, ◌∙◌, ap, true, false, List, [], ◌∷◌, ◌++◌, Option, none, some, arith,
  ◌==◌, if◌then◌else◌, All, Bool-cases, inl, inr,
}
use klab.Text.Defs.{Text}

-- A byte in front of the first part.
unfoldable pub push : ℕ → List Text → List Text
push c [] = (c ∷ []) ∷ []
push c (p ∷ ps) = (c ∷ p) ∷ ps

-- strings.Split(s, sep)
unfoldable pub split : ℕ → Text → List Text
unfolding push
split sep [] = [] ∷ []
split sep (c ∷ s) = if c == sep then [] ∷ split sep s else push c (split sep s)

prefix_first : ℕ → Option (Text × Text) → Option (Text × Text)
prefix_first c none = none
prefix_first c (some (a, b)) = some (c ∷ a, b)

-- `strings.Cut(s, sep)`: what stands before and behind the first `sep`, if there is one.
unfoldable pub cut : ℕ → Text → Option (Text × Text)
unfolding prefix_first
cut sep [] = none
cut sep (c ∷ s) = if c == sep then some ([], s) else prefix_first c (cut sep s)

-- strings.SplitN(s, sep, 2)[0]
unfoldable pub first_part : ℕ → Text → Text
first_part sep s = elim (cut sep s) [ none ↦ s | some (a, b) ↦ a ]

abbrev pub Lacks : ℕ → Text → Type 0
Lacks b = All (λ c. c ≢ b)

pub cut-append : (sep : ℕ) (a b : Text) → Lacks sep a → cut sep (a ++ sep ∷ b) ≡ some (a, b)
unfolding cut
cut-append sep [] b h = ground arith
cut-append sep (c ∷ a) b (hc, h) = ground (arith, cut-append sep a b h)

-- A text up to a separator is one part.
pub split-append : (sep : ℕ) (a b : Text) → Lacks sep a → split sep (a ++ sep ∷ b) ≡ a ∷ split sep b
unfolding split
split-append sep [] b h = ground arith
split-append sep (c ∷ a) b (hc, h) = ground (arith, split-append sep a b h)

split_nil : (sep : ℕ) → split sep [] ≡ [] ∷ []
unfolding split
split_nil sep = refl

split_at_sep : (sep c : ℕ) (s : Text) → (c == sep) ≡ true → split sep (c ∷ s) ≡ [] ∷ split sep s
unfolding split
split_at_sep sep c s e = rw e

split_inside :
    (sep c : ℕ) (s : Text) → (c == sep) ≡ false → split sep (c ∷ s) ≡ push c (split sep s)
unfolding split
split_inside sep c s e = rw e

-- No part holds the separator.
push-Lacks :
    (sep c : ℕ) (ps : List Text) → c ≢ sep → All (Lacks sep) ps → All (Lacks sep) (push c ps)
unfolding push
push-Lacks sep c [] h k = ((h, tt), tt)
push-Lacks sep c (p ∷ ps) h (kp, k) = ((h, kp), k)

pub split-Lacks : (sep : ℕ) (s : Text) → All (Lacks sep) (split sep s)
split-Lacks sep [] = unfold split in (tt, tt)
split-Lacks sep (c ∷ s) = elim (Bool-cases (c == sep)) [
  | inl e ↦ rw (split_at_sep sep c s e) (tt, split-Lacks sep s)
  | inr n ↦ rw (split_inside sep c s n) (push-Lacks sep c _ (ground arith) (split-Lacks sep s))
]

-- A text has a part at least.
split_first : (sep : ℕ) (s : Text) → (p : Text) × (ps : List Text) × (split sep s ≡ p ∷ ps)
unfolding split push
split_first sep [] = ([], [], refl)
split_first sep (c ∷ s) = elim (Bool-cases (c == sep)) [
  | inl e ↦ ([], split sep s, split_at_sep sep c s e)
  | inr n ↦
      let (p, ps, e) = split_first sep s in (c ∷ p, ps, split_inside sep c s n ∙ ap (push c) e)
]

push-append :
    (c : ℕ) (p : Text) (ps qs : List Text) → push c ((p ∷ ps) ++ qs) ≡ push c (p ∷ ps) ++ qs
unfolding push
push-append c p ps qs = refl

-- The parts around a separator are those of the two sides.
pub split-append_any :
    (sep : ℕ) (a b : Text) → split sep (a ++ sep ∷ b) ≡ split sep a ++ split sep b
split-append_any sep [] b =
    split_at_sep sep sep b (ground arith) ∙ ap (λ ps. ps ++ split sep b) (sym (split_nil sep))
split-append_any sep (c ∷ a) b = elim (Bool-cases (c == sep)) [
  | inl e ↦
      split_at_sep sep c _ e
      ∙ (ap (λ ps. [] ∷ ps) (split-append_any sep a b)
          ∙ ap (λ ps. ps ++ split sep b) (sym (split_at_sep sep c a e)))
  | inr n ↦
      let (p, ps, e) = split_first sep a in
      split_inside sep c _ n
      ∙ (ap (push c) (split-append_any sep a b ∙ ap (λ qs. qs ++ split sep b) e)
          ∙ (push-append c p ps (split sep b)
              ∙ ap (λ qs. qs ++ split sep b) (sym (split_inside sep c a n ∙ ap (push c) e))))
]

-- What stands before and behind the first separator is determined.
pub cut-injective :
    (sep : ℕ) (a b a' b' : Text)
    → Lacks sep a
    → Lacks sep a'
    → a ++ sep ∷ b ≡ a' ++ sep ∷ b'
    → (a ≡ a') × (b ≡ b')
cut-injective sep a b a' b' h h' e =
    let q : ◌≡◌ {A = Option (Text × Text)} (some (a, b)) (some (a', b')) =
      sym (cut-append sep a b h) ∙ ap (cut sep) e ∙ cut-append sep a' b' h' in
    (cc, cc)
