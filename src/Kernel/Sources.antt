-- ===== src/Kernel/Sources.antt =====
-- The config that is built is fixed by what its sources say, and it fixes that: a base and its
-- fragments up to what they say are a quotient, which `MergeConfig` embeds into the texts.
pub mod Configured
pub mod Keyed
use mathlib.Core.Path.{subst, ap₂}
use mathlib.Core.Quot
use mathlib.Core.Quot.{Quot, Quot-set}
use klab.Prelude.{
  ◌≡◌, ◌≢◌, ◌↔◌, refl, sym, ap, ◌∙◌, true, List, [], ◌∷◌, Option, none, some, arith, All, All-imp,
  All-at, Any, Distinct, Option-cases, inl, inr,
}
use klab.Text.{Text}
use klab.Text.Order.{
  sort, sort-Any, sort-Distinct, sort-IsSorted, IsSorted, text_leb, text_leb_refl,
  text_leb_antisymm,
}
use klab.Kernel.{Values, value, merged, symbols, print_config, merge_config}
use klab.Kernel.Symbols.{merged-Distinct, symbols-value, value-symbols}
use klab.Kernel.Merge.{last_says, lines_of, value-merged}
use klab.Kernel.Again.{
  entries, symbols-entries, value-entries, merged-IsSaid, merged-merge_config, print_config-same,
  merge_config_parts, All-Any,
}

some_apart : (v : Text) → ◌≡◌ {A = Option Text} (some v) none → ⊥
some_apart v e = cc

-- Each element of the first list is in the second.
abbrev Covers : List Text → List Text → Type 0
Covers xs ys = (s : Text) → Any (λ r. r ≡ s) xs → Any (λ r. r ≡ s) ys

first_least :
    (x s : Text) (xs : List Text)
    → IsSorted (x ∷ xs)
    → Any (λ r. r ≡ s) (x ∷ xs)
    → text_leb x s ≡ true
first_least x s xs (hx, h) m = All-at (λ b. text_leb x b ≡ true) s (x ∷ xs) m (text_leb_refl x, hx)

-- The elements behind the first one, where the first ones agree.
Covers-tail :
    (x y : Text) (xs ys : List Text)
    → x ≡ y
    → Distinct (x ∷ xs)
    → Covers (x ∷ xs) (y ∷ ys)
    → Covers xs ys
Covers-tail x y xs ys e (dx, d) f s m = elim (f s (inr m)) [
  | inl k ↦ absurd (All-at (λ b. x ≢ b) s xs m dx (e ∙ k))
  | inr rest ↦ rest
]

-- Two sorted lists of the same elements, none twice, are equal.
same_sorted :
    (xs ys : List Text)
    → IsSorted xs
    → IsSorted ys
    → Distinct xs
    → Distinct ys
    → Covers xs ys
    → Covers ys xs
    → xs ≡ ys
same_sorted [] [] hx hy dx dy f g = refl
same_sorted [] (y ∷ ys) hx hy dx dy f g = absurd (g y (inl refl))
same_sorted (x ∷ xs) [] hx hy dx dy f g = absurd (f x (inl refl))
same_sorted (x ∷ xs) (y ∷ ys) hx hy dx dy f g =
    let e =
      text_leb_antisymm x y (first_least x y xs hx (g y (inl refl)))
        (first_least y x ys hy (f x (inl refl))) in
    ap₂ (λ a l. a ∷ l) e
      (same_sorted xs ys hx.1 hy.1 dx.1 dy.1 (Covers-tail x y xs ys e dx f)
        (Covers-tail y x ys xs (sym e) dy g))

value-none :
    (t : Text) (xs ys : Values)
    → (value t xs ≢ none → value t xs ≡ value t ys)
    → (value t ys ≢ none → value t xs ≢ none)
    → value t xs ≡ value t ys
value-none t xs ys f g = elim (Option-cases (value t xs)) [
  | inl e ↦ elim (Option-cases (value t ys)) [
    | inl k ↦ e ∙ sym k
    | inr (v, k) ↦ absurd (g (λ n. some_apart v (sym k ∙ n)) e)
  ]
  | inr (v, e) ↦ f (λ n. some_apart v (sym e ∙ n))
]

-- A merged config is read as the values that it was printed from.
value-merge_config :
    (t base : Text) (fs : List Text)
    → value t (merged (merge_config base fs) []) ≡ value t (merged base fs)
value-merge_config t base fs =
    let vals = merged base fs in
    let syms = sort (symbols vals) in
    ap (value t) (merged-merge_config base fs)
    ∙ value-none t (entries syms vals) vals
        (λ h. value-entries t syms vals (merged-IsSaid base fs) (
          subst (Any (λ r. r ≡ t)) (symbols-entries syms vals)
            (value-symbols t (entries syms vals) h)))
        (λ h. symbols-value t (entries syms vals) (
          subst (Any (λ r. r ≡ t)) (sym (symbols-entries syms vals))
            ((sort-Any (λ r. r ≡ t) (symbols vals)).1 (value-symbols t vals h))))

symbols_same :
    (xs ys : Values)
    → Distinct (symbols xs)
    → Distinct (symbols ys)
    → ((t : Text) → value t xs ≡ value t ys)
    → sort (symbols xs) ≡ sort (symbols ys)
symbols_same xs ys dx dy h =
    same_sorted _ _ (sort-IsSorted _) (sort-IsSorted _) (sort-Distinct _ dx) (sort-Distinct _ dy)
      (covered xs ys h) (covered ys xs (λ t. sym (h t)))
  where
    covered :
        (vs ws : Values)
        → ((t : Text) → value t vs ≡ value t ws)
        → Covers (sort (symbols vs)) (sort (symbols ws))
    covered vs ws k s m = (sort-Any (λ r. r ≡ s) (symbols ws)).1 (
        value-symbols s ws
          (λ n. symbols-value s vs ((sort-Any (λ r. r ≡ s) (symbols vs)).0 m) (k s ∙ n)))

-- A base and its fragments.
abbrev pub Sources : Type 0
Sources = Text × List Text

-- What the sources say of a symbol: the last directive for it.
abbrev pub said_by : Sources → Text → Option Text
said_by (base, fs) t = last_says t (lines_of (base ∷ fs))

abbrev pub SaySame : Sources → Sources → Type 0
SaySame x y = (t : Text) → said_by x t ≡ said_by y t

-- Two bases with fragments merge to the same config, byte for byte, exactly if the last directives
-- of both agree for every symbol.
pub merge_config_iff :
    (base base' : Text) (fs fs' : List Text)
    → ((t : Text) → last_says t (lines_of (base ∷ fs)) ≡ last_says t (lines_of (base' ∷ fs')))
      ↔ (merge_config base fs ≡ merge_config base' fs')
merge_config_iff base base' fs fs' = (same, λ e t. said t e)
  where
    same :
        ((t : Text) → last_says t (lines_of (base ∷ fs)) ≡ last_says t (lines_of (base' ∷ fs')))
        → merge_config base fs ≡ merge_config base' fs'
    same h =
        let values : (t : Text) → value t (merged base fs) ≡ value t (merged base' fs') =
          λ t. value-merged t base fs ∙ h t ∙ sym (value-merged t base' fs') in
        merge_config_parts base fs
        ∙ print_config-same (sort (symbols (merged base fs))) (merged base fs) (merged base' fs')
            (All-imp (sort (symbols (merged base fs))) (λ t m. values t) (All-Any _))
        ∙ ap (λ ss. print_config ss (merged base' fs'))
            (symbols_same _ _ (merged-Distinct base fs) (merged-Distinct base' fs') values)
        ∙ sym (merge_config_parts base' fs')

    said :
        (t : Text)
        → merge_config base fs ≡ merge_config base' fs'
        → last_says t (lines_of (base ∷ fs)) ≡ last_says t (lines_of (base' ∷ fs'))
    said t e =
        sym (value-merged t base fs)
        ∙ sym (value-merge_config t base fs)
        ∙ ap (λ c. value t (merged c [])) e
        ∙ value-merge_config t base' fs'
        ∙ value-merged t base' fs'
