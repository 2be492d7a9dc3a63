-- ===== src/Kernel/Lines.antt =====
-- The lines of what `MergeConfig` prints.
use klab.Prelude.{
  ◌⊎◌, ◌≡◌, ◌≢◌, refl, sym, ap, ◌∙◌, List, [], ◌∷◌, ◌++◌, append_assoc, Option, none, some, arith,
  All, All-append, Bool-cases, inl, inr, if◌then◌else◌,
}
use klab.Text.{Text, str, text_eq}
use klab.Text.Order.{sort, sort-All}
use klab.Text.Split.{split, split-append}
use klab.Kernel.{Values, value, merged, symbols, directive, print_config, merge_config}
use klab.Kernel.Flat.{
  lacks-Lacks, OfSome, IsFlat, AreFlat, symbols-IsFlat, value-IsFlat, merged-AreFlat,
}

-- The line of a symbol.
unfoldable pub line_of : Text → Option Text → Text
line_of s none = str "CONFIG_" ++ (s ++ str "=")
line_of s (some v) =
    if text_eq v (str "n")
    then str "# CONFIG_" ++ (s ++ str " is not set")
    else str "CONFIG_" ++ (s ++ (b'=' ∷ v))

directive-line_of : (s : Text) (o : Option Text) → directive s o ≡ line_of s o ++ 10 ∷ []
unfolding directive line_of str
directive-line_of s none = ap (λ t. str "CONFIG_" ++ t) (sym (append_assoc s (str "=") (10 ∷ [])))
directive-line_of s (some v) = elim (Bool-cases (text_eq v (str "n"))) [
  | inl e ↦
      rw e (ap (λ t. str "# CONFIG_" ++ t) (sym (append_assoc s (str " is not set") (10 ∷ []))))
  | inr n ↦ rw n (ap (λ t. str "CONFIG_" ++ t) (sym (append_assoc s (b'=' ∷ v) (10 ∷ []))))
]

IsFlat-append : (a b : Text) → IsFlat a → IsFlat b → IsFlat (a ++ b)
IsFlat-append a b ha hb = All-append (λ c. c ≢ 10) a b ha hb

line_of-IsFlat : (s : Text) (o : Option Text) → IsFlat s → OfSome IsFlat o → IsFlat (line_of s o)
unfolding line_of str
line_of-IsFlat s none hs ho =
    IsFlat-append (str "CONFIG_") _ (lacks-Lacks 10 (str "CONFIG_") refl)
      (IsFlat-append s _ hs (lacks-Lacks 10 (str "=") refl))
line_of-IsFlat s (some v) hs hv = elim (Bool-cases (text_eq v (str "n"))) [
  | inl e ↦ rw e (
      IsFlat-append (str "# CONFIG_") (s ++ str " is not set")
        (lacks-Lacks 10 (str "# CONFIG_") refl)
        (IsFlat-append s (str " is not set") hs (lacks-Lacks 10 (str " is not set") refl)))
  | inr n ↦ rw n (
      IsFlat-append (str "CONFIG_") (s ++ b'=' ∷ v) (lacks-Lacks 10 (str "CONFIG_") refl)
        (IsFlat-append s (b'=' ∷ v) hs (omega arith, hv)))
]

-- A line that switches a symbol on or off.
abbrev pub IsDirective : Text → Type 0
IsDirective l = (t : Text) × ((l ≡ str "CONFIG_" ++ t) ⊎ (l ≡ str "# CONFIG_" ++ t))

line_of-IsDirective : (s : Text) (o : Option Text) → IsDirective (line_of s o)
unfolding line_of
line_of-IsDirective s none = (_, inl refl)
line_of-IsDirective s (some v) = elim (Bool-cases (text_eq v (str "n"))) [
  | inl e ↦ rw e (_, inr refl)
  | inr n ↦ rw n (_, inl refl)
]

unfoldable pub lines_of : List Text → Values → List Text
lines_of [] vals = []
lines_of (s ∷ syms) vals = line_of s (value s vals) ∷ lines_of syms vals

pub lines_of-IsDirective : (syms : List Text) (vals : Values) → All IsDirective (lines_of syms vals)
unfolding lines_of
lines_of-IsDirective [] vals = tt
lines_of-IsDirective (s ∷ syms) vals = (line_of-IsDirective s _, lines_of-IsDirective syms vals)

pub split-print_config :
    (syms : List Text) (vals : Values)
    → All IsFlat syms
    → All AreFlat vals
    → split 10 (print_config syms vals) ≡ lines_of syms vals ++ [] ∷ []
unfolding print_config lines_of split
split-print_config [] vals h k = refl
split-print_config (s ∷ syms) vals (hs, h) k =
    ap (λ l. split 10 (l ++ print_config syms vals)) (directive-line_of s (value s vals))
    ∙ (ap (split 10) (append_assoc (line_of s (value s vals)) (10 ∷ []) (print_config syms vals))
        ∙ (split-append 10 _ _ (line_of-IsFlat s _ hs (value-IsFlat s vals k))
            ∙ ap (λ ls. line_of s (value s vals) ∷ ls) (split-print_config syms vals h k)))

-- The lines of a merged config: directives, and nothing behind the last newline.
pub split-merge_config :
    (base : Text) (fs : List Text)
    → (ls : List Text) × (split 10 (merge_config base fs) ≡ ls ++ [] ∷ []) × All IsDirective ls
unfolding merge_config
split-merge_config base fs =
    let vals = merged base fs in
    (
      lines_of (sort (symbols vals)) vals,
      split-print_config (sort (symbols vals)) vals
          (sort-All IsFlat (symbols vals) (symbols-IsFlat vals (merged-AreFlat base fs)))
          (merged-AreFlat base fs),
      lines_of-IsDirective (sort (symbols vals)) vals,
    )
