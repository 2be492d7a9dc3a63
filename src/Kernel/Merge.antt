-- ===== src/Kernel/Merge.antt =====
-- `MergeConfig`: the last directive wins, and the output has one directive for each symbol, in order.
use klab.Prelude.{
  ◌≡◌, ◌≢◌, refl, sym, ap, ◌∙◌, ◌↔◌, inl, inr, Bool, true, false, List, [], ◌∷◌, ◌++◌, Option, none,
  some, arith, if◌then◌else◌, Bool-cases, Any, Distinct,
}
use klab.Text.{Text, str, text_eq, text_eq_sound, text_eq_iff}
use klab.Text.Order.{sort, IsSorted, sort-IsSorted, sort-Distinct, sort-Any}
use klab.Text.Split.{split}
use klab.Text.Space.{trim_space}
use klab.Kernel.Symbols.{merged-Distinct, symbols-value, value-symbols}
use klab.Kernel.{
  config_set, config_off, Values, assign, value, set_off, set_or_off, apply_line, apply_lines,
  apply, apply_all, merged, symbols, directive, print_config, merge_config,
}

unfoldable pub or_else : {A : Type 0} → Option A → Option A → Option A
or_else none o = o
or_else (some a) o = some a

-- What a directive says of a symbol.
unfoldable pub says_off : Text → Option Text → Option Text
says_off t none = none
says_off t (some s) = if text_eq s t then some (str "n") else none

unfoldable pub says_directive : Text → Option (Text × Text) → Option Text → Option Text
says_directive t (some (s, v)) off = if text_eq s t then some v else none
says_directive t none off = says_off t off

-- What one line says of a symbol, and what the last line that says anything of it says.
unfoldable pub says : Text → Text → Option Text
says t l = says_directive t (config_set (trim_space l)) (config_off (trim_space l))

unfoldable pub last_says : Text → List Text → Option Text
last_says t [] = none
last_says t (l ∷ ls) = or_else (last_says t ls) (says t l)

unfoldable pub lines_of : List Text → List Text
lines_of [] = []
lines_of (f ∷ fs) = split 10 f ++ lines_of fs

if_twice :
    (b : Bool) (v : Text) (o p : Option Text)
    → (if b then some v else p) ≡ (if b then some v else if b then o else p)
if_twice true v o p = refl
if_twice false v o p = refl

-- Two texts that are not equal are not both equal to a third.
text_eq_apart : (r s t : Text) → text_eq r s ≡ false → text_eq r t ≡ true → text_eq s t ≡ false
text_eq_apart r s t n h = elim (Bool-cases (text_eq s t)) [
  | inl e ↦ ground (arith, (text_eq_iff r s).1 (text_eq_sound r t h ∙ sym (text_eq_sound s t e)))
  | inr e ↦ e
]

value-assign :
    (t s v : Text) (vals : Values)
    → value t (assign s v vals) ≡ (if text_eq s t then some v else value t vals)
unfolding value assign
value-assign t s v [] = refl
value-assign t s v ((r, w) ∷ vals) = elim (Bool-cases (text_eq r s)) [
  | inl e ↦ rw (e, text_eq_sound r s e) (if_twice (text_eq s t) v (some w) (value t vals))
  | inr n ↦ elim (Bool-cases (text_eq r t)) [
    | inl e ↦ rw (n, e, text_eq_apart r s t n e) refl
    | inr m ↦ rw (n, m) (value-assign t s v vals)
  ]
]

or_else_assoc : {A : Type 0} (a b c : Option A) → or_else (or_else a b) c ≡ or_else a (or_else b c)
unfolding or_else
or_else_assoc none b c = refl
or_else_assoc (some a) b c = refl

or_else_if :
    (b : Bool) (v : Text) (o : Option Text)
    → (if b then some v else o) ≡ or_else (if b then some v else none) o
unfolding or_else
or_else_if true v o = refl
or_else_if false v o = refl

value-set_off :
    (t : Text) (off : Option Text) (vals : Values)
    → value t (set_off off vals) ≡ or_else (says_off t off) (value t vals)
unfolding set_off says_off or_else
value-set_off t none vals = refl
value-set_off t (some s) vals =
    value-assign t s (str "n") vals ∙ or_else_if (text_eq s t) (str "n") (value t vals)

value-set_or_off :
    (t : Text) (set : Option (Text × Text)) (off : Option Text) (vals : Values)
    → value t (set_or_off set off vals) ≡ or_else (says_directive t set off) (value t vals)
unfolding set_or_off says_directive
value-set_or_off t none off vals = value-set_off t off vals
value-set_or_off t (some (s, v)) off vals =
    value-assign t s v vals ∙ or_else_if (text_eq s t) v (value t vals)

value-apply_line :
    (t l : Text) (vals : Values) → value t (apply_line l vals) ≡ or_else (says t l) (value t vals)
unfolding apply_line says
value-apply_line t l vals =
    value-set_or_off t (config_set (trim_space l)) (config_off (trim_space l)) vals

value-apply_lines :
    (t : Text) (ls : List Text) (vals : Values)
    → value t (apply_lines ls vals) ≡ or_else (last_says t ls) (value t vals)
unfolding apply_lines last_says
value-apply_lines t [] vals = unfold or_else in refl
value-apply_lines t (l ∷ ls) vals =
    value-apply_lines t ls (apply_line l vals)
    ∙ ap (or_else (last_says t ls)) (value-apply_line t l vals)
    ∙ sym (or_else_assoc (last_says t ls) (says t l) (value t vals))

or_else-none : {A : Type 0} (o : Option A) → or_else o none ≡ o
unfolding or_else
or_else-none none = refl
or_else-none (some a) = refl

last_says-append :
    (t : Text) (ks ls : List Text)
    → last_says t (ks ++ ls) ≡ or_else (last_says t ls) (last_says t ks)
unfolding last_says
last_says-append t [] ls = sym (or_else-none (last_says t ls))
last_says-append t (k ∷ ks) ls =
    ap (λ o. or_else o (says t k)) (last_says-append t ks ls) ∙ or_else_assoc _ _ _

value-apply_all :
    (t : Text) (fs : List Text) (vals : Values)
    → value t (apply_all fs vals) ≡ or_else (last_says t (lines_of fs)) (value t vals)
unfolding apply_all lines_of apply
value-apply_all t [] vals = unfold last_says or_else in refl
value-apply_all t (f ∷ fs) vals =
    value-apply_all t fs (apply f vals)
    ∙ ap (or_else (last_says t (lines_of fs))) (value-apply_lines t (split 10 f) vals)
    ∙ sym (or_else_assoc (last_says t (lines_of fs)) (last_says t (split 10 f)) (value t vals))
    ∙ ap (λ o. or_else o (value t vals)) (sym (last_says-append t (split 10 f) (lines_of fs)))

merged_all : (base : Text) (fs : List Text) → merged base fs ≡ apply_all (base ∷ fs) []
unfolding merged apply_all
merged_all base fs = refl

value_nil : (t : Text) → value t [] ≡ none
unfolding value
value_nil t = refl

pub value-merged :
    (t base : Text) (fs : List Text) → value t (merged base fs) ≡ last_says t (lines_of (base ∷ fs))
value-merged t base fs =
    ap (value t) (merged_all base fs)
    ∙ value-apply_all t (base ∷ fs) []
    ∙ ap (or_else (last_says t (lines_of (base ∷ fs)))) (value_nil t)
    ∙ or_else-none (last_says t (lines_of (base ∷ fs)))

-- What `MergeConfig` prints, of symbols and what is said of each.
unfoldable pub directives : (Text → Option Text) → List Text → Text
directives said [] = []
directives said (s ∷ syms) = directive s (said s) ++ directives said syms

directives-print :
    (base : Text) (fs syms : List Text)
    → print_config syms (merged base fs) ≡ directives (λ t. last_says t (lines_of (base ∷ fs))) syms
unfolding directives print_config
directives-print base fs [] = refl
directives-print base fs (s ∷ syms) =
    rw (directives-print base fs syms, value-merged s base fs) refl

symbols_said :
    (t base : Text) (fs : List Text)
    → Any (λ s. s ≡ t) (sort (symbols (merged base fs)))
      ↔ (last_says t (lines_of (base ∷ fs)) ≢ none)
symbols_said t base fs =
    let v = value-merged t base fs in
    let (from, into) = sort-Any (λ s. s ≡ t) (symbols (merged base fs)) in
    (
      λ h e. symbols-value t (merged base fs) (from h) (v ∙ e),
      λ h. into (value-symbols t (merged base fs) (λ e. h (sym v ∙ e))),
    )

-- The symbols of the output are sorted and each listed once; a symbol is listed exactly if a line
-- of the base or of a fragment is a directive for it; and its directive is that of the last such
-- line in the order of the base and the fragments.
pub merge_config_lem :
    (base : Text) (fs : List Text)
    → (syms : List Text) × IsSorted syms
      × Distinct syms
      × ((t : Text) → Any (λ s. s ≡ t) syms ↔ (last_says t (lines_of (base ∷ fs)) ≢ none))
      × (merge_config base fs ≡ directives (λ t. last_says t (lines_of (base ∷ fs))) syms)
unfolding merge_config
merge_config_lem base fs = (
  sort (symbols (merged base fs)),
  sort-IsSorted _,
  sort-Distinct _ (merged-Distinct base fs),
  (λ t. symbols_said t base fs),
  directives-print base fs _,
)
