-- ===== src/Kernel/Said.antt =====
-- That the entries of the map are read again from the lines that are printed for them.
use klab.Prelude.{
  ◌≡◌, ◌≢◌, refl, sym, true, false, List, [], ◌∷◌, ◌++◌, Option, none, some, All, Bool-cases, inl,
  inr,
}
use mathlib.Core.Path.{subst}
use klab.Text.{Text, str, text_eq, text_eq_sound, text_eq_refl}
use klab.Text.Split.{split}
use klab.Text.Space.{trim_space, trim_space_id, trim_space-IsTrimmed}
use klab.Kernel.{
  Values, assign, value, set_off, set_or_off, apply_line, apply_lines, apply, apply_all, merged,
}
use klab.Kernel.Flat.{OfSome}
use klab.Kernel.Lines.{line_of}
use klab.Kernel.Entries.{
  IsSymbol, IsSetLine, config_set_inv, config_off_inv, config_set_line, config_set_off,
  config_off_line, off_line-IsTrimmed,
}

-- A symbol and a value whose line is read as it is printed.
pub IsEntry : Text × Text → Type 0
IsEntry (s, v) = IsSymbol s × (trim_space (line_of s (some v)) ≡ line_of s (some v))

line_off :
    (s v : Text)
    → text_eq v (str "n") ≡ true
    → line_of s (some v) ≡ str "# CONFIG_" ++ (s ++ str " is not set")
unfolding line_of
line_off s v e = rw e refl

line_set :
    (s v : Text)
    → text_eq v (str "n") ≡ false
    → line_of s (some v) ≡ str "CONFIG_" ++ (s ++ b'=' ∷ v)
unfolding line_of
line_set s v n = rw n refl

off-IsEntry : (s v : Text) → text_eq v (str "n") ≡ true → IsSymbol s → IsEntry (s, v)
unfolding IsEntry
off-IsEntry s v e h = (h, rw (line_off s v e) (trim_space_id _ (off_line-IsTrimmed s)))

set-IsEntry : (l s v : Text) → IsSetLine (trim_space l) (s, v) → IsEntry (s, v)
unfolding IsEntry
set-IsEntry l s v (e, h) = elim (Bool-cases (text_eq v (str "n"))) [
  | inl off ↦ (h, rw (line_off s v off) (trim_space_id _ (off_line-IsTrimmed s)))
  | inr n ↦ (
    h,
    rw (line_set s v n)
        (subst (λ t. trim_space t ≡ t) e (trim_space_id _ (trim_space-IsTrimmed l))),
  )
]

-- A line that is printed is read as the entry that it was printed for.
pub apply_line-line_of :
    (s v : Text) (vals : Values)
    → IsEntry (s, v)
    → apply_line (line_of s (some v)) vals ≡ assign s v vals
unfolding apply_line set_or_off set_off IsEntry
apply_line-line_of s v vals (h, trimmed) = elim (Bool-cases (text_eq v (str "n"))) [
  | inl off ↦
      rw
        (
          trimmed,
          line_off s v off,
          config_set_off (s ++ str " is not set"),
          config_off_line s h,
          text_eq_sound v (str "n") off,
        )
        refl
  | inr n ↦ rw (trimmed, line_set s v n, config_set_line s v h) refl
]

assign-IsEntry :
    (s v : Text) (vals : Values) → IsEntry (s, v) → All IsEntry vals → All IsEntry (assign s v vals)
unfolding assign
assign-IsEntry s v [] e h = (e, tt)
assign-IsEntry s v ((t, w) ∷ vals) e (ht, h) = elim (Bool-cases (text_eq t s)) [
  | inl same ↦ rw same (subst (λ r. IsEntry (r, v)) (sym (text_eq_sound t s same)) e, h)
  | inr n ↦ rw n (ht, assign-IsEntry s v vals e h)
]

set_or_off-IsEntry :
    (l : Text) (set : Option (Text × Text)) (off : Option Text) (vals : Values)
    → OfSome (IsSetLine (trim_space l)) set
    → OfSome IsSymbol off
    → All IsEntry vals
    → All IsEntry (set_or_off set off vals)
unfolding set_or_off set_off
set_or_off-IsEntry l none none vals hs ho h = h
set_or_off-IsEntry l none (some s) vals hs ho h =
    assign-IsEntry s (str "n") vals (off-IsEntry s (str "n") (text_eq_refl (str "n")) ho) h
set_or_off-IsEntry l (some (s, v)) off vals hs ho h =
    assign-IsEntry s v vals (set-IsEntry l s v hs) h

apply_lines-IsEntry :
    (ls : List Text) (vals : Values) → All IsEntry vals → All IsEntry (apply_lines ls vals)
unfolding apply_lines apply_line
apply_lines-IsEntry [] vals h = h
apply_lines-IsEntry (l ∷ ls) vals h = apply_lines-IsEntry ls _ (
    set_or_off-IsEntry l _ _ vals (config_set_inv (trim_space l)) (config_off_inv (trim_space l)) h)

apply_all-IsEntry :
    (fs : List Text) (vals : Values) → All IsEntry vals → All IsEntry (apply_all fs vals)
unfolding apply_all apply
apply_all-IsEntry [] vals h = h
apply_all-IsEntry (f ∷ fs) vals h = apply_all-IsEntry fs _ (apply_lines-IsEntry (split 10 f) vals h)

pub merged-IsEntry : (base : Text) (fs : List Text) → All IsEntry (merged base fs)
unfolding merged apply
merged-IsEntry base fs = apply_all-IsEntry fs _ (apply_lines-IsEntry (split 10 base) [] tt)

-- A symbol that has a value, in an entry that is read as it is printed.
abbrev pub IsSaid : Values → Text → Type 0
IsSaid vals s = (v : Text) × (value s vals ≡ some v) × IsEntry (s, v)

pub value-IsSaid :
    (s : Text) (vals : Values) → All IsEntry vals → value s vals ≢ none → IsSaid vals s
unfolding value
value-IsSaid s [] h k = absurd (k refl)
value-IsSaid s ((t, w) ∷ vals) (ht, h) k = elim (Bool-cases (text_eq t s)) [
  | inl e ↦ (w, rw e refl, subst (λ r. IsEntry (r, w)) (text_eq_sound t s e) ht)
  | inr n ↦ let (v, same, entry) = value-IsSaid s vals h (λ e. k (rw n e)) in (v, rw n same, entry)
]
