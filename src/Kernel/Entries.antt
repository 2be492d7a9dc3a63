-- ===== src/Kernel/Entries.antt =====
-- The entries of the map `vals` of `MergeConfig`, and the lines that say the same.
use klab.Prelude.{
  ℕ, ◌≡◌, refl, sym, ap, ◌∙◌, true, false, [], ◌∷◌, ◌++◌, Option, none, some, arith, All,
  Bool-cases, inl, inr, ◌==◌, if◌then◌else◌, reverse,
}
use mathlib.Core.Path.{subst}
use mathlib.Core.List.{reverse-append}
use klab.Text.{Text, str, text_eq, text_eq_refl, is_empty, strip_prefix, strip_prefix-append}
use klab.Text.Space.{after_space, space1, space2, space3, back2, back3, IsTrimmed}
use klab.Kernel.{
  is_symbol_byte, symbol_run, read_symbol, after_equals, off_suffix, ◌>>=◌, config_set, config_off,
}
use klab.Kernel.Flat.{OfSome, bind-OfSome}

OfSome-imp :
    {A : Type 0} (P Q : A → Type 0) (m : Option A) → ((a : A) → P a → Q a) → OfSome P m → OfSome Q m
OfSome-imp P Q none f h = tt
OfSome-imp P Q (some a) f h = f a h

-- One symbol byte or more.
abbrev pub IsSymbol : Text → Type 0
IsSymbol s = All (λ c. is_symbol_byte c ≡ true) s × (is_empty s ≡ false)

strip_prefix_inv : (p s : Text) → OfSome (λ t. s ≡ p ++ t) (strip_prefix p s)
unfolding strip_prefix
strip_prefix_inv [] s = refl
strip_prefix_inv (c ∷ p) [] = tt
strip_prefix_inv (c ∷ p) (d ∷ s) = elim (Bool-cases (c == d)) [
  | inl e ↦ rw e (
      OfSome-imp _ (λ t. d ∷ s ≡ c ∷ (p ++ t)) (strip_prefix p s) (λ t h. step (ground arith) h)
        (strip_prefix_inv p s))
  | inr n ↦ rw n tt
]
  where
    step : {t : Text} → d ≡ c → s ≡ t → d ∷ s ≡ c ∷ t
    step e h = cc

symbol_run_split : (s : Text) → s ≡ (symbol_run s).0 ++ (symbol_run s).1
unfolding symbol_run
symbol_run_split [] = refl
symbol_run_split (c ∷ s) = elim (Bool-cases (is_symbol_byte c)) [
  | inl e ↦ rw e (ap (λ r. c ∷ r) (symbol_run_split s))
  | inr n ↦ rw n refl
]

run_on :
    (c : ℕ) (s : Text) → is_symbol_byte c ≡ true → (symbol_run (c ∷ s)).0 ≡ c ∷ (symbol_run s).0
unfolding symbol_run
run_on c s e = rw e refl

run_off : (c : ℕ) (s : Text) → is_symbol_byte c ≡ false → (symbol_run (c ∷ s)).0 ≡ []
unfolding symbol_run
run_off c s n = rw n refl

no_run : (symbol_run []).0 ≡ []
unfolding symbol_run
no_run = refl

symbol_run-All : (s : Text) → All (λ c. is_symbol_byte c ≡ true) (symbol_run s).0
symbol_run-All [] = subst (All (λ b. is_symbol_byte b ≡ true)) (sym no_run) tt
symbol_run-All (c ∷ s) = elim (Bool-cases (is_symbol_byte c)) [
  | inl e ↦ subst (All (λ b. is_symbol_byte b ≡ true)) (sym (run_on c s e)) (e, symbol_run-All s)
  | inr n ↦ subst (All (λ b. is_symbol_byte b ≡ true)) (sym (run_off c s n)) tt
]

symbol_run-append :
    (s : Text) (c : ℕ) (t : Text)
    → All (λ b. is_symbol_byte b ≡ true) s
    → is_symbol_byte c ≡ false
    → symbol_run (s ++ c ∷ t) ≡ (s, c ∷ t)
unfolding symbol_run
symbol_run-append [] c t h n = rw n refl
symbol_run-append (b ∷ s) c t (hb, h) n = rw (hb, symbol_run-append s c t h n) refl

read_symbol_inv : (s : Text) → OfSome (λ m. (s ≡ m.0 ++ m.1) × IsSymbol m.0) (read_symbol s)
unfolding read_symbol
read_symbol_inv s = elim (Bool-cases (is_empty (symbol_run s).0)) [
  | inl e ↦ rw e tt
  | inr n ↦
      subst
        (λ b.
          OfSome (λ (m : Text × Text). (s ≡ m.0 ++ m.1) × IsSymbol m.0)
            (if b then none else some (symbol_run s)))
        (sym n) (symbol_run_split s, (symbol_run-All s, n))
]

read_symbol-append :
    (s : Text) (c : ℕ) (t : Text)
    → IsSymbol s
    → is_symbol_byte c ≡ false
    → read_symbol (s ++ c ∷ t) ≡ some (s, c ∷ t)
unfolding read_symbol
read_symbol-append s c t (h, full) n = rw (symbol_run-append s c t h n, full) refl

after_equals_inv :
    (m : Text × Text) → OfSome (λ r. (m.0 ≡ r.0) × (m.1 ≡ b'=' ∷ r.1)) (after_equals m)
unfolding after_equals
after_equals_inv (s, []) = tt
after_equals_inv (s, c ∷ v) = elim (Bool-cases (c == b'=')) [
  | inl e ↦ rw e (refl, ap (λ b. b ∷ v) (ground arith))
  | inr n ↦ rw n tt
]

off_suffix_inv : (m : Text × Text) → OfSome (λ s. m.0 ≡ s) (off_suffix m)
unfolding off_suffix
off_suffix_inv (s, t) = elim (Bool-cases (text_eq t (str " is not set"))) [
  | inl e ↦ rw e refl
  | inr n ↦ rw n tt
]

-- A text that was read, in parts.
abbrev InParts : Text → Text × Text → Type 0
InParts s m = (s ≡ m.0 ++ m.1) × IsSymbol m.0

abbrev pub IsSetLine : Text → Text × Text → Type 0
IsSetLine line m = (line ≡ str "CONFIG_" ++ (m.0 ++ b'=' ∷ m.1)) × IsSymbol m.0

set_parts :
    (line t : Text) (m r : Text × Text)
    → line ≡ str "CONFIG_" ++ t
    → InParts t m
    → (m.0 ≡ r.0) × (m.1 ≡ b'=' ∷ r.1)
    → IsSetLine line r
set_parts line t m r e (parts, symbol) (e3, e4) = (
  e
      ∙ (ap (λ x. str "CONFIG_" ++ x) parts
          ∙ (ap (λ x. str "CONFIG_" ++ (x ++ m.1)) e3 ∙ ap (λ x. str "CONFIG_" ++ (r.0 ++ x)) e4)),
  subst IsSymbol e3 symbol,
)

pub config_set_inv : (line : Text) → OfSome (IsSetLine line) (config_set line)
unfolding config_set
config_set_inv line =
    bind-OfSome (λ t. line ≡ str "CONFIG_" ++ t) (IsSetLine line) _ _
      (strip_prefix_inv (str "CONFIG_") line)
      (λ t e. bind-OfSome (InParts t) (IsSetLine line) _ _ (read_symbol_inv t) (λ m parts.
        OfSome-imp (λ r. (m.0 ≡ r.0) × (m.1 ≡ b'=' ∷ r.1)) (IsSetLine line) (after_equals m)
          (λ r h. set_parts line t m r e parts h) (after_equals_inv m)))

pub config_off_inv : (line : Text) → OfSome IsSymbol (config_off line)
unfolding config_off
config_off_inv line =
    bind-OfSome (λ t. line ≡ str "# CONFIG_" ++ t) IsSymbol _ _
      (strip_prefix_inv (str "# CONFIG_") line)
      (λ t e. bind-OfSome (InParts t) IsSymbol _ _ (read_symbol_inv t) (λ m parts.
        OfSome-imp (λ s. m.0 ≡ s) IsSymbol (off_suffix m) (λ s h. subst IsSymbol h parts.1)
          (off_suffix_inv m)))

pub config_set_line :
    (s v : Text) → IsSymbol s → config_set (str "CONFIG_" ++ (s ++ b'=' ∷ v)) ≡ some (s, v)
unfolding config_set ◌>>=◌ after_equals is_symbol_byte
config_set_line s v h =
    rw (strip_prefix-append (str "CONFIG_") (s ++ b'=' ∷ v), read_symbol-append s b'=' v h refl)
      refl

pub config_set_off : (t : Text) → config_set (str "# CONFIG_" ++ t) ≡ none
unfolding config_set ◌>>=◌ strip_prefix str
config_set_off t = refl

read_off :
    (s : Text) → IsSymbol s → read_symbol (s ++ str " is not set") ≡ some (s, str " is not set")
unfolding str is_symbol_byte
read_off s h = read_symbol-append s b' ' (str "is not set") h refl

pub config_off_line :
    (s : Text) → IsSymbol s → config_off (str "# CONFIG_" ++ (s ++ str " is not set")) ≡ some s
unfolding config_off ◌>>=◌ off_suffix
config_off_line s h =
    rw
      (
        strip_prefix-append (str "# CONFIG_") (s ++ str " is not set"),
        read_off s h,
        text_eq_refl (str " is not set"),
      )
      refl

-- The line that switches a symbol off stands without white space around it.
pub off_line-IsTrimmed : (s : Text) → IsTrimmed (str "# CONFIG_" ++ (s ++ str " is not set"))
unfolding str after_space space1 space2 space3 back2 back3
off_line-IsTrimmed s = record {
  front = refl;
  back =
      ap (after_space back2 back3) (
        reverse-append (str "# CONFIG_") (s ++ str " is not set")
        ∙ ap (λ t. t ++ reverse (str "# CONFIG_")) (reverse-append s (str " is not set")))
      ∙ refl;
}
