-- ===== src/Tests/Kernels.antt =====
-- Merged configs and keys of concrete inputs, and the theorems on internal/kernel at them.
use klab.Prelude.{◌≡◌, ◌≢◌, ◌↔◌, ◌<◌, refl, List, [], ◌∷◌, arith, none, All, Any, Distinct}
use klab.Text.{Text, str, strip_prefix, is_empty, text_eq}
use klab.Text.Order.{IsSorted, sort, insert, text_leb}
use klab.Text.Split.{split}
use klab.Text.Space.{trim_space}
use klab.Kernel.{
  merge_config, cache_key, print_config, symbols, merged, apply_all, apply, apply_lines, apply_line,
  set_or_off, config_set, ◌>>=◌, set_off, config_off, read_symbol, after_equals, assign, directive,
  is_symbol_byte, off_suffix, symbol_run, value,
}
use klab.Kernel.Merge.{last_says, lines_of, directives, merge_config_lem}
use klab.Kernel.Sources.{merge_config_iff}
use klab.Kernel.Sources.Keyed.{cache_key-said}

abbrev base : Text
base = str "CONFIG_B=y\n# a comment\nCONFIG_A=m\n"

abbrev fragment : Text
fragment = str "# CONFIG_B is not set\n  CONFIG_C=n  \nCONFIG_A=y\n"

merged_example :
    merge_config base (fragment ∷ [])
    ≡ str "CONFIG_A=y\n# CONFIG_B is not set\n# CONFIG_C is not set\n"
unfolding merge_config str print_config sort symbols merged apply_all apply apply_lines split
    apply_line set_or_off config_set ◌>>=◌ strip_prefix trim_space set_off config_off read_symbol
    after_equals assign directive is_symbol_byte off_suffix symbol_run value is_empty text_eq insert
    text_leb
merged_example = refl

merge_config_lem_example :
    (syms : List Text) × IsSorted syms
    × Distinct syms
    × ((t : Text) → Any (λ s. s ≡ t) syms ↔ (last_says t (lines_of (base ∷ fragment ∷ [])) ≢ none))
    × (merge_config base (fragment ∷ [])
        ≡ directives (λ t. last_says t (lines_of (base ∷ fragment ∷ []))) syms)
merge_config_lem_example = merge_config_lem base (fragment ∷ [])

-- A hash of one byte: whatever the text, 7.
abbrev constant_sum : Text → Text
constant_sum s = 7 ∷ []

constant_bytes : (s : Text) → All (λ b. b < 256) (constant_sum s)
constant_bytes s = (omega arith, tt)

-- The same config from other sources: the fragment first overwritten, and then written again.
abbrev fragments_again : List Text
fragments_again = base ∷ fragment ∷ []

merge_config_iff_example :
    ((t : Text)
      → last_says t (lines_of (base ∷ fragment ∷ []))
        ≡ last_says t (lines_of (fragment ∷ fragments_again)))
    ↔ (merge_config base (fragment ∷ []) ≡ merge_config fragment fragments_again)
merge_config_iff_example = merge_config_iff base fragment (fragment ∷ []) fragments_again

same_config : merge_config base (fragment ∷ []) ≡ merge_config fragment fragments_again
unfolding merge_config str print_config sort symbols merged apply_all apply apply_lines split
    apply_line set_or_off config_set ◌>>=◌ strip_prefix trim_space set_off config_off read_symbol
    after_equals assign directive is_symbol_byte off_suffix symbol_run value is_empty text_eq insert
    text_leb
same_config = refl

-- Of the overwritten sources and the plain ones, the keys are the same, whatever the hash.
cache_key-said_example :
    cache_key constant_sum
      (str "v6.12")
      (str "arm64")
      (str "clang")
      (merge_config base (fragment ∷ []))
    ≡ cache_key constant_sum
        (str "v6.12")
        (str "arm64")
        (str "clang")
        (merge_config fragment fragments_again)
cache_key-said_example =
    (cache_key-said constant_sum constant_bytes (str "v6.12") (str "arm64") (str "clang") base
        fragment (fragment ∷ []) fragments_again).0
      (merge_config_iff_example.1 same_config)
