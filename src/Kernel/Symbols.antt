-- ===== src/Kernel/Symbols.antt =====
-- The symbols of the map `vals` of `MergeConfig`.
use klab.Prelude.{
  ◌≡◌, ◌≢◌, refl, inl, inr, List, [], ◌∷◌, Option, none, some, arith, Bool-cases, Any, All,
  Distinct,
}
use klab.Text.{Text, str, text_eq, text_eq_sound, text_eq_iff}
use klab.Text.Split.{split}
use klab.Text.Space.{trim_space}
use klab.Kernel.{
  config_set, config_off, Values, assign, value, set_off, set_or_off, apply_line, apply_lines,
  apply, apply_all, merged, symbols,
}

-- The symbols of the output, each of them once.
assign-All :
    (P : Text → Type 0) (s v : Text) (vals : Values)
    → P s
    → All P (symbols vals)
    → All P (symbols (assign s v vals))
unfolding assign symbols
assign-All P s v [] h k = (h, tt)
assign-All P s v ((r, w) ∷ vals) h (kr, k) = elim (Bool-cases (text_eq r s)) [
  | inl e ↦ rw e (kr, k)
  | inr n ↦ rw n (kr, assign-All P s v vals h k)
]

assign-Distinct :
    (s v : Text) (vals : Values) → Distinct (symbols vals) → Distinct (symbols (assign s v vals))
unfolding assign symbols
assign-Distinct s v [] h = (tt, tt)
assign-Distinct s v ((r, w) ∷ vals) (hr, h) = elim (Bool-cases (text_eq r s)) [
  | inl e ↦ rw e (hr, h)
  | inr n ↦ rw n (
    assign-All (λ y. r ≢ y) s v vals (λ e. ground (arith, (text_eq_iff r s).1 e)) hr,
    assign-Distinct s v vals h,
  )
]

set_or_off-Distinct :
    (set : Option (Text × Text)) (off : Option Text) (vals : Values)
    → Distinct (symbols vals)
    → Distinct (symbols (set_or_off set off vals))
unfolding set_or_off set_off
set_or_off-Distinct none none vals h = h
set_or_off-Distinct none (some s) vals h = assign-Distinct s (str "n") vals h
set_or_off-Distinct (some (s, v)) off vals h = assign-Distinct s v vals h

apply_line-Distinct :
    (l : Text) (vals : Values) → Distinct (symbols vals) → Distinct (symbols (apply_line l vals))
unfolding apply_line
apply_line-Distinct l vals h =
    set_or_off-Distinct (config_set (trim_space l)) (config_off (trim_space l)) vals h

apply_lines-Distinct :
    (ls : List Text) (vals : Values)
    → Distinct (symbols vals)
    → Distinct (symbols (apply_lines ls vals))
unfolding apply_lines
apply_lines-Distinct [] vals h = h
apply_lines-Distinct (l ∷ ls) vals h =
    apply_lines-Distinct ls (apply_line l vals) (apply_line-Distinct l vals h)

apply_all-Distinct :
    (fs : List Text) (vals : Values)
    → Distinct (symbols vals)
    → Distinct (symbols (apply_all fs vals))
unfolding apply_all apply
apply_all-Distinct [] vals h = h
apply_all-Distinct (f ∷ fs) vals h =
    apply_all-Distinct fs _ (apply_lines-Distinct (split 10 f) vals h)

pub merged-Distinct : (base : Text) (fs : List Text) → Distinct (symbols (merged base fs))
unfolding merged apply
merged-Distinct base fs =
    apply_all-Distinct fs _ (apply_lines-Distinct (split 10 base) [] (unfold symbols in tt))

-- A symbol is listed exactly if it has a value.
pub symbols-value :
    (t : Text) (vals : Values) → Any (λ s. s ≡ t) (symbols vals) → value t vals ≢ none
unfolding symbols value
symbols-value t [] h = absurd h
symbols-value t ((r, w) ∷ vals) (inl e) = λ k. ground (arith, (text_eq_iff r t).1 e)
symbols-value t ((r, w) ∷ vals) (inr m) = λ k. ground (arith, symbols-value t vals m)

pub value-symbols :
    (t : Text) (vals : Values) → value t vals ≢ none → Any (λ s. s ≡ t) (symbols vals)
unfolding symbols value
value-symbols t [] h = absurd (h refl)
value-symbols t ((r, w) ∷ vals) h = elim (Bool-cases (text_eq r t)) [
  | inl e ↦ inl (text_eq_sound r t e)
  | inr n ↦ inr (value-symbols t vals (λ e. h (rw n e)))
]
