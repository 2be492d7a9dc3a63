-- ===== src/Kernel/Again.antt =====
-- What a merged config merges to.
use klab.Prelude.{
  ◌≡◌, ◌≢◌, refl, sym, ap, ◌∙◌, true, List, [], ◌∷◌, ◌++◌, append_assoc, Option, none, some, arith,
  All, All-imp, Any, Distinct, Bool-cases, inl, inr,
}
use klab.Text.{Text, strip_prefix, str, text_eq, text_eq_sound, text_eq_iff}
use klab.Text.Order.{sort, sort-All, sort-Distinct, sort-IsSorted, IsSorted, insert, text_leb}
use klab.Text.Space.{trim_space}
use klab.Kernel.{
  config_set, config_off, Values, assign, value, set_off, set_or_off, apply_line, apply_lines,
  apply, apply_all, merged, symbols, directive, print_config, merge_config,
}
use klab.Kernel.Symbols.{merged-Distinct, symbols-value}
use klab.Kernel.Flat.{symbols-IsFlat, merged-AreFlat}
use klab.Kernel.Lines.{line_of, lines_of, split-print_config}
use klab.Kernel.Said.{IsEntry, apply_line-line_of, merged-IsEntry, IsSaid, value-IsSaid}

unfoldable pub text_or : Option Text → Text
text_or none = []
text_or (some s) = s

unfoldable pub entries : List Text → Values → Values
entries [] vals = []
entries (s ∷ syms) vals = (s, text_or (value s vals)) ∷ entries syms vals

pub symbols-entries : (syms : List Text) (vals : Values) → symbols (entries syms vals) ≡ syms
unfolding symbols entries
symbols-entries [] vals = refl
symbols-entries (s ∷ syms) vals = ap (λ r. s ∷ r) (symbols-entries syms vals)

-- No entry for a symbol.
abbrev IsFresh : Values → Text → Type 0
IsFresh vals s = All (λ r. r ≢ s) (symbols vals)

assign-IsFresh :
    (s v : Text) (vals : Values) → IsFresh vals s → assign s v vals ≡ vals ++ (s, v) ∷ []
unfolding assign symbols
assign-IsFresh s v [] h = refl
assign-IsFresh s v ((t, w) ∷ vals) (ht, h) = elim (Bool-cases (text_eq t s)) [
  | inl e ↦ absurd (ht (text_eq_sound t s e))
  | inr n ↦ rw (n, assign-IsFresh s v vals h) refl
]

IsFresh-append :
    (s v t : Text) (vals : Values) → s ≢ t → IsFresh vals t → IsFresh (vals ++ (s, v) ∷ []) t
unfolding symbols
IsFresh-append s v t [] n h = (n, tt)
IsFresh-append s v t ((r, w) ∷ vals) n (hr, h) = (hr, IsFresh-append s v t vals n h)

All-IsFresh :
    (s v : Text) (syms : List Text) (acc : Values)
    → All (λ t. s ≢ t) syms
    → All (IsFresh acc) syms
    → All (IsFresh (acc ++ (s, v) ∷ [])) syms
All-IsFresh s v [] acc n h = tt
All-IsFresh s v (t ∷ syms) acc (nt, n) (ht, h) =
    (IsFresh-append s v t acc nt ht, All-IsFresh s v syms acc n h)

blank_line : (acc : Values) → apply_lines ([] ∷ []) acc ≡ acc
unfolding apply_lines apply_line set_or_off set_off config_set config_off trim_space
    klab.Kernel.◌>>=◌ strip_prefix str
blank_line acc = refl

append_nil : (acc : Values) → acc ++ [] ≡ acc
append_nil [] = refl
append_nil (e ∷ acc) = ap (λ r. e ∷ r) (append_nil acc)

said_line :
    (s v : Text) (vals acc : Values)
    → value s vals ≡ some v
    → IsEntry (s, v)
    → IsFresh acc s
    → apply_line (line_of s (value s vals)) acc ≡ acc ++ (s, v) ∷ []
said_line s v vals acc e entry fresh =
    rw e (apply_line-line_of s v acc entry ∙ assign-IsFresh s v acc fresh)

-- The lines that are printed are read as their entries.
apply_lines-lines_of :
    (syms : List Text) (vals acc : Values)
    → All (IsSaid vals) syms
    → Distinct syms
    → All (IsFresh acc) syms
    → apply_lines (lines_of syms vals ++ [] ∷ []) acc ≡ acc ++ entries syms vals
unfolding lines_of entries text_or apply_lines
apply_lines-lines_of [] vals acc said differ fresh = blank_line acc ∙ sym (append_nil acc)
apply_lines-lines_of (s ∷ syms) vals acc ((v, e, entry), said) (ns, differ) (fs, fresh) =
    ap (apply_lines (lines_of syms vals ++ [] ∷ [])) (said_line s v vals acc e entry fs)
    ∙ (apply_lines-lines_of syms vals (acc ++ (s, v) ∷ []) said differ
          (All-IsFresh s v syms acc ns fresh)
        ∙ (append_assoc acc ((s, v) ∷ []) (entries syms vals)
            ∙ ap (λ o. acc ++ (s, text_or o) ∷ entries syms vals) (sym e)))

elsewhere :
    (s r : Text) (syms : List Text) → Any (λ t. t ≡ s) (r ∷ syms) → r ≢ s → Any (λ t. t ≡ s) syms
elsewhere s r syms (inl e) n = absurd (n e)
elsewhere s r syms (inr h) n = h

pub value-entries :
    (s : Text) (syms : List Text) (vals : Values)
    → All (IsSaid vals) syms
    → Any (λ r. r ≡ s) syms
    → value s (entries syms vals) ≡ value s vals
unfolding entries value text_or
value-entries s [] vals said h = absurd h
value-entries s (r ∷ syms) vals ((v, e, entry), said) h = elim (Bool-cases (text_eq r s)) [
  | inl same ↦ rw (same, e) (sym e ∙ ap (λ t. value t vals) (text_eq_sound r s same))
  | inr n ↦ rw n (
      value-entries s syms vals said
        (elsewhere s r syms h (λ k. ground (arith, n, (text_eq_iff r s).1 k))))
]

pub print_config-same :
    (syms : List Text) (xs ys : Values)
    → All (λ s. value s xs ≡ value s ys) syms
    → print_config syms xs ≡ print_config syms ys
unfolding print_config
print_config-same [] xs ys h = refl
print_config-same (s ∷ syms) xs ys (e, h) = rw (e, print_config-same syms xs ys h) refl

-- All elements of a list are in it.
pub All-Any : (syms : List Text) → All (λ s. Any (λ r. r ≡ s) syms) syms
All-Any [] = tt
All-Any (s ∷ syms) = (inl refl, All-imp syms (λ t h. inr h) (All-Any syms))

insert_first : (a : Text) (l : List Text) → All (λ b. text_leb a b ≡ true) l → insert a l ≡ a ∷ l
unfolding insert
insert_first a [] h = refl
insert_first a (b ∷ l) (hb, h) = rw hb refl

IsSorted-sort : (l : List Text) → IsSorted l → sort l ≡ l
unfolding sort
IsSorted-sort [] h = refl
IsSorted-sort (a ∷ l) (ha, h) = ap (insert a) (IsSorted-sort l h) ∙ insert_first a l ha

pub merged-IsSaid :
    (base : Text) (fs : List Text) → All (IsSaid (merged base fs)) (sort (symbols (merged base fs)))
merged-IsSaid base fs =
    let vals = merged base fs in
    sort-All (IsSaid vals) (symbols vals) (
      All-imp (symbols vals)
        (λ s h. value-IsSaid s vals (merged-IsEntry base fs) (symbols-value s vals h))
        (All-Any (symbols vals)))

IsFresh-nil : (syms : List Text) → All (IsFresh []) syms
unfolding symbols
IsFresh-nil [] = tt
IsFresh-nil (s ∷ syms) = (tt, IsFresh-nil syms)

-- The values that a merged config is read as.
pub merged-merge_config :
    (base : Text) (fs : List Text)
    → merged (merge_config base fs) [] ≡ entries (sort (symbols (merged base fs))) (merged base fs)
unfolding merged apply_all apply merge_config
merged-merge_config base fs =
    let vals = merged base fs in
    let syms = sort (symbols vals) in
    ap (λ ls. apply_lines ls [])
      (split-print_config syms vals
        (sort-All _ (symbols vals) (symbols-IsFlat vals (merged-AreFlat base fs)))
        (merged-AreFlat base fs))
    ∙ apply_lines-lines_of syms vals [] (merged-IsSaid base fs)
        (sort-Distinct (symbols vals) (merged-Distinct base fs)) (IsFresh-nil syms)

pub merge_config_parts :
    (base : Text) (fs : List Text)
    → merge_config base fs ≡ print_config (sort (symbols (merged base fs))) (merged base fs)
unfolding merge_config
merge_config_parts base fs = refl

-- Merging is idempotent: a merged config, merged with no fragments, is itself, byte for byte.
pub merge_config-merge_config :
    (base : Text) (fs : List Text) → merge_config (merge_config base fs) [] ≡ merge_config base fs
merge_config-merge_config base fs =
    let vals = merged base fs in
    let syms = sort (symbols vals) in
    merge_config_parts (merge_config base fs) []
    ∙ (ap (λ es. print_config (sort (symbols es)) es) (merged-merge_config base fs)
        ∙ (ap (λ ss. print_config (sort ss) (entries syms vals)) (symbols-entries syms vals)
            ∙ (ap (λ ss. print_config ss (entries syms vals))
                  (IsSorted-sort syms (sort-IsSorted (symbols vals)))
                ∙ (print_config-same syms (entries syms vals) vals (
                      All-imp syms (λ s h. value-entries s syms vals (merged-IsSaid base fs) h)
                        (All-Any syms))
                    ∙ sym (merge_config_parts base fs)))))
