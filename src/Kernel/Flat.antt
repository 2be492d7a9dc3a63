-- ===== src/Kernel/Flat.antt =====
-- That no entry of the map of `MergeConfig` holds a newline.
use klab.Prelude.{
  ℕ, ◌≡◌, ◌≢◌, refl, Bool, true, false, List, [], ◌∷◌, Option, none, some, arith, All, Bool-cases,
  inl, inr, ◌==◌, if◌then◌else◌,
}
use klab.Text.{Text, str, text_eq, is_empty, strip_prefix}
use klab.Text.Split.{split, Lacks, split-Lacks}
use klab.Text.Space.{trim_space, trim_space-All}
use klab.Kernel.{
  is_symbol_byte, symbol_run, read_symbol, after_equals, off_suffix, ◌>>=◌, config_set, config_off,
  Values, assign, value, set_off, set_or_off, apply_line, apply_lines, apply, apply_all, merged,
  symbols,
}

-- No newline.
abbrev pub IsFlat : Text → Type 0
IsFlat = Lacks 10

-- The test of it.
abbrev pub lacks : ℕ → Text → Bool
lacks b [] = true
lacks b (c ∷ s) = if c == b then false else lacks b s

pub lacks-Lacks : (b : ℕ) (s : Text) → lacks b s ≡ true → Lacks b s
lacks-Lacks b [] h = tt
lacks-Lacks b (c ∷ s) h = elim (Bool-cases (c == b)) [
  | inl e ↦ absurd (ground (arith, e, h))
  | inr n ↦ (ground arith, lacks-Lacks b s (ground (arith, n, h)))
]

-- Of a result, if there is one.
abbrev pub OfSome : {A : Type 0} → (A → Type 0) → Option A → Type 0
OfSome P none = Unit {0}
OfSome P (some a) = P a

pub AreFlat : Text × Text → Type 0
AreFlat (s, t) = IsFlat s × IsFlat t

strip_prefix-IsFlat : (p s : Text) → IsFlat s → OfSome IsFlat (strip_prefix p s)
unfolding strip_prefix
strip_prefix-IsFlat [] s h = h
strip_prefix-IsFlat (c ∷ p) [] h = tt
strip_prefix-IsFlat (c ∷ p) (d ∷ s) (hd, h) = elim (Bool-cases (c == d)) [
  | inl e ↦ rw e (strip_prefix-IsFlat p s h)
  | inr n ↦ rw n tt
]

symbol_run-IsFlat : (s : Text) → IsFlat s → IsFlat (symbol_run s).0 × IsFlat (symbol_run s).1
unfolding symbol_run
symbol_run-IsFlat [] h = (tt, tt)
symbol_run-IsFlat (c ∷ s) (hc, h) =
    let (run, rest) = symbol_run-IsFlat s h in
    elim (Bool-cases (is_symbol_byte c)) [
      | inl e ↦ rw e ((hc, run), rest)
      | inr n ↦ rw n (tt, (hc, h))
    ]

read_symbol-AreFlat : (s : Text) → IsFlat s → OfSome AreFlat (read_symbol s)
unfolding read_symbol AreFlat
read_symbol-AreFlat s h = elim (Bool-cases (is_empty (symbol_run s).0)) [
  | inl e ↦ rw e tt
  | inr n ↦ rw n (symbol_run-IsFlat s h)
]

after_equals-AreFlat : (m : Text × Text) → AreFlat m → OfSome AreFlat (after_equals m)
unfolding after_equals AreFlat
after_equals-AreFlat (s, []) h = tt
after_equals-AreFlat (s, c ∷ v) (hs, (hc, hv)) = elim (Bool-cases (c == b'=')) [
  | inl e ↦ rw e (hs, hv)
  | inr n ↦ rw n tt
]

off_suffix-IsFlat : (m : Text × Text) → AreFlat m → OfSome IsFlat (off_suffix m)
unfolding off_suffix AreFlat
off_suffix-IsFlat (s, t) (hs, ht) = elim (Bool-cases (text_eq t (str " is not set"))) [
  | inl e ↦ rw e hs
  | inr n ↦ rw n tt
]

pub bind-OfSome :
    {A B : Type 0} (P : A → Type 0) (Q : B → Type 0) (m : Option A) (f : A → Option B)
    → OfSome P m
    → ((a : A) → P a → OfSome Q (f a))
    → OfSome Q (m >>= f)
unfolding ◌>>=◌
bind-OfSome P Q none f h k = tt
bind-OfSome P Q (some a) f h k = k a h

config_set-AreFlat : (line : Text) → IsFlat line → OfSome AreFlat (config_set line)
unfolding config_set
config_set-AreFlat line h =
    bind-OfSome IsFlat AreFlat _ _ (strip_prefix-IsFlat (str "CONFIG_") line h)
      (λ s hs. bind-OfSome AreFlat AreFlat _ _ (read_symbol-AreFlat s hs) after_equals-AreFlat)

config_off-IsFlat : (line : Text) → IsFlat line → OfSome IsFlat (config_off line)
unfolding config_off
config_off-IsFlat line h =
    bind-OfSome IsFlat IsFlat _ _ (strip_prefix-IsFlat (str "# CONFIG_") line h)
      (λ s hs. bind-OfSome AreFlat IsFlat _ _ (read_symbol-AreFlat s hs) off_suffix-IsFlat)

assign-AreFlat :
    (s v : Text) (vals : Values)
    → IsFlat s
    → IsFlat v
    → All AreFlat vals
    → All AreFlat (assign s v vals)
unfolding assign AreFlat
assign-AreFlat s v [] hs hv h = ((hs, hv), tt)
assign-AreFlat s v ((t, w) ∷ vals) hs hv ((ht, hw), h) = elim (Bool-cases (text_eq t s)) [
  | inl e ↦ rw e ((ht, hv), h)
  | inr n ↦ rw n ((ht, hw), assign-AreFlat s v vals hs hv h)
]

no_newline_n : IsFlat (str "n")
unfolding str
no_newline_n = lacks-Lacks 10 (str "n") refl

set_or_off-AreFlat :
    (set : Option (Text × Text)) (off : Option Text) (vals : Values)
    → OfSome AreFlat set
    → OfSome IsFlat off
    → All AreFlat vals
    → All AreFlat (set_or_off set off vals)
unfolding set_or_off set_off AreFlat
set_or_off-AreFlat none none vals hs ho h = h
set_or_off-AreFlat none (some s) vals hs ho h = assign-AreFlat s (str "n") vals ho no_newline_n h
set_or_off-AreFlat (some (s, v)) off vals (hs, hv) ho h = assign-AreFlat s v vals hs hv h

apply_line-AreFlat :
    (l : Text) (vals : Values) → IsFlat l → All AreFlat vals → All AreFlat (apply_line l vals)
unfolding apply_line
apply_line-AreFlat l vals hl h =
    let flat = trim_space-All (λ c. c ≢ 10) l hl in
    set_or_off-AreFlat _ _ vals (config_set-AreFlat (trim_space l) flat)
      (config_off-IsFlat (trim_space l) flat) h

apply_lines-AreFlat :
    (ls : List Text) (vals : Values)
    → All IsFlat ls
    → All AreFlat vals
    → All AreFlat (apply_lines ls vals)
unfolding apply_lines
apply_lines-AreFlat [] vals hl h = h
apply_lines-AreFlat (l ∷ ls) vals (hl, hls) h =
    apply_lines-AreFlat ls _ hls (apply_line-AreFlat l vals hl h)

apply_all-AreFlat :
    (fs : List Text) (vals : Values) → All AreFlat vals → All AreFlat (apply_all fs vals)
unfolding apply_all apply
apply_all-AreFlat [] vals h = h
apply_all-AreFlat (f ∷ fs) vals h =
    apply_all-AreFlat fs _ (apply_lines-AreFlat (split 10 f) vals (split-Lacks 10 f) h)

pub merged-AreFlat : (base : Text) (fs : List Text) → All AreFlat (merged base fs)
unfolding merged apply
merged-AreFlat base fs =
    apply_all-AreFlat fs _ (apply_lines-AreFlat (split 10 base) [] (split-Lacks 10 base) tt)

pub symbols-IsFlat : (vals : Values) → All AreFlat vals → All IsFlat (symbols vals)
unfolding symbols AreFlat
symbols-IsFlat [] h = tt
symbols-IsFlat ((s, v) ∷ vals) ((hs, hv), h) = (hs, symbols-IsFlat vals h)

pub value-IsFlat : (s : Text) (vals : Values) → All AreFlat vals → OfSome IsFlat (value s vals)
unfolding value AreFlat
value-IsFlat s [] h = tt
value-IsFlat s ((t, v) ∷ vals) ((ht, hv), h) = elim (Bool-cases (text_eq t s)) [
  | inl e ↦ rw e hv
  | inr n ↦ rw n (value-IsFlat s vals h)
]
