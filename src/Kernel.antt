-- ===== src/Kernel.antt =====
-- internal/kernel/kernel.go: merging kconfig texts and the key of the build cache. The Go map
-- `vals` is an association list with one entry for a key, whose order is forgotten by the sort.
-- SHA-256 is a library's and stands as the parameter `sum`.
pub mod Flat
pub mod Lines
pub mod Entries
pub mod Symbols
pub mod Merge
pub mod Said
pub mod Again
pub mod Sources
pub mod Key
pub mod Store
pub mod Builder
use klab.Prelude.{
  ℕ, suc, ◌+◌, Bool, true, false, List, [], ◌∷◌, ◌++◌, map, Option, none, some, leb, ◌==◌, ◌&&◌,
  ◌||◌, if◌then◌else◌, length,
}
use klab.Text.{Text, str, text_eq, is_empty, strip_prefix}
use klab.Text.Decimal.{itoa_ℕ}
use klab.Text.Hex.{hex}
use klab.Text.Order.{sort}
use klab.Text.Split.{split}
use klab.Text.Space.{trim_space}

-- [A-Za-z0-9_]
unfoldable pub is_symbol_byte : ℕ → Bool
is_symbol_byte c =
    (leb b'A' c && leb c b'Z')
    || (leb b'a' c && leb c b'z')
    || (leb b'0' c && leb c b'9')
    || c == b'_'

-- [A-Za-z0-9_]* from the start of the text: the longest run, and what stands behind it.
unfoldable pub symbol_run : Text → Text × Text
symbol_run [] = ([], [])
symbol_run (c ∷ s) =
    let (run, rest) = symbol_run s in if is_symbol_byte c then (c ∷ run, rest) else ([], c ∷ s)

-- A submatch of `CONFIG_([A-Za-z0-9_]+)`, and what stands behind it. Neither `=` nor a blank is a
-- byte of a symbol, so the greedy match is the only one.
unfoldable pub read_symbol : Text → Option (Text × Text)
read_symbol s = let (run, rest) = symbol_run s in if is_empty run then none else some (run, rest)

-- The text behind `=`. A line holds no newline, so `.*` takes all of it.
unfoldable pub after_equals : Text × Text → Option (Text × Text)
after_equals (sym, []) = none
after_equals (sym, c ∷ v) = if c == b'=' then some (sym, v) else none

unfoldable pub off_suffix : Text × Text → Option Text
off_suffix (sym, s) = if text_eq s (str " is not set") then some sym else none

infixl 5 ◌>>=◌
unfoldable pub ◌>>=◌ : {A B : Type 0} → Option A → (A → Option B) → Option B
none >>= f = none
some a >>= f = f a

-- ^CONFIG_([A-Za-z0-9_]+)=(.*)$
unfoldable pub config_set : Text → Option (Text × Text)
config_set line = do s ← strip_prefix (str "CONFIG_") line; m ← read_symbol s; after_equals m

-- ^# CONFIG_([A-Za-z0-9_]+) is not set$
unfoldable pub config_off : Text → Option Text
config_off line = do s ← strip_prefix (str "# CONFIG_") line; m ← read_symbol s; off_suffix m

-- `vals`: at most one entry for a key.
abbrev pub Values : Type 0
Values = List (Text × Text)

-- vals[sym] = v
unfoldable pub assign : Text → Text → Values → Values
assign sym v [] = (sym, v) ∷ []
assign sym v ((s, w) ∷ vals) = if text_eq s sym then (s, v) ∷ vals else (s, w) ∷ assign sym v vals

-- vals[sym]
unfoldable pub value : Text → Values → Option Text
value sym [] = none
value sym ((s, w) ∷ vals) = if text_eq s sym then some w else value sym vals

unfoldable pub set_off : Option Text → Values → Values
set_off none vals = vals
set_off (some sym) vals = assign sym (str "n") vals

unfoldable pub set_or_off : Option (Text × Text) → Option Text → Values → Values
set_or_off (some (sym, v)) off vals = assign sym v vals
set_or_off none off vals = set_off off vals

-- The body of the loop over the lines of `apply`.
unfoldable pub apply_line : Text → Values → Values
apply_line l vals = let line = trim_space l in set_or_off (config_set line) (config_off line) vals

unfoldable pub apply_lines : List Text → Values → Values
apply_lines [] vals = vals
apply_lines (l ∷ ls) vals = apply_lines ls (apply_line l vals)

-- apply
unfoldable pub apply : Text → Values → Values
apply text vals = apply_lines (split 10 text) vals

unfoldable pub apply_all : List Text → Values → Values
apply_all [] vals = vals
apply_all (f ∷ fs) vals = apply_all fs (apply f vals)

unfoldable pub merged : Text → List Text → Values
merged base fragments = apply_all fragments (apply base [])

unfoldable pub symbols : Values → List Text
symbols [] = []
symbols ((s, w) ∷ vals) = s ∷ symbols vals

-- The body of the loop that prints. A symbol of the loop is a key of the map; Go reads "" for
-- another.
unfoldable pub directive : Text → Option Text → Text
directive s none = str "CONFIG_" ++ (s ++ str "=\n")
directive s (some v) =
    if text_eq v (str "n")
    then str "# CONFIG_" ++ (s ++ str " is not set\n")
    else str "CONFIG_" ++ (s ++ (b'=' ∷ (v ++ str "\n")))

unfoldable pub print_config : List Text → Values → Text
print_config [] vals = []
print_config (s ∷ syms) vals = directive s (value s vals) ++ print_config syms vals

-- MergeConfig
unfoldable pub merge_config : Text → List Text → Text
merge_config base fragments =
    let vals = merged base fragments in print_config (sort (symbols vals)) vals

-- The loop over the fields: what it writes to the hash.
unfoldable pub preimage : List Text → Text
preimage [] = []
preimage (field ∷ fields) = itoa_ℕ (length field) ++ (b':' ∷ (field ++ preimage fields))

-- CacheKey
unfoldable pub cache_key : (Text → Text) → Text → Text → Text → Text → Text
cache_key sum ref arch toolchain resolved_config =
    hex (sum (preimage (ref ∷ arch ∷ toolchain ∷ resolved_config ∷ [])))
