-- ===== src/Tests/Stores.antt =====
-- A machine whose files are a list, and the theorems on the store at it.
use klab.Prelude.{
  ◌≡◌, refl, ap, sym, ◌∙◌, Bool, true, false, List, [], ◌∷◌, Option, none, some, ok, if◌then◌else◌,
}
use klab.Text.{Text, str, text_eq, text_eq_refl, strip_prefix, is_empty}
use klab.Kernel.Store.{
  Spec, Artifact, Contents, found, not_exist, Machine, key_of, meta_of, config_of, meta_written,
  encoded, built, config_written, dir_made, looked_up, get,
}
use klab.Kernel.Store.Cached.{IsFaithful}
use klab.Kernel.Sources.{merge_config_iff}
use klab.Kernel.Sources.Keyed.{get-said}
use klab.Text.Order.{sort, insert, text_leb}
use klab.Text.Split.{split}
use klab.Text.Space.{trim_space}
use klab.Kernel.{
  merge_config, print_config, symbols, merged, apply_all, apply, apply_lines, apply_line,
  set_or_off, config_set, ◌>>=◌, set_off, config_off, read_symbol, after_equals, assign, directive,
  is_symbol_byte, off_suffix, symbol_run, value,
}
use mathlib.Core.Path.{subst}

pub data File : Type 0 where
  plain : Text → File
  marker : Artifact → File

abbrev pub Files : Type 0
Files = List (Text × File)

unfoldable pub read_file : Text → Files → Contents File
read_file path [] = not_exist
read_file path ((p, f) ∷ fs) = if text_eq p path then found f else read_file path fs

unfoldable pub decode : File → Option Artifact
decode (plain s) = none
decode (marker a) = some a

abbrev pub image : Artifact
image = record { image = str "Image"; vmlinux = str "vmlinux"; config = []; hash = [] }

abbrev pub machine : Machine Files File (Unit {0})
machine = record {
  read_file = read_file;
  mkdir_all = λ path fs. (fs, true);
  write_file = λ path f fs. ((path, f) ∷ fs, true);
  of_text = plain;
  marshal = λ a. some (marker a);
  unmarshal = decode;
  build = λ spec config dir fs. (fs, ok image);
  sum = λ s. 7 ∷ [];
}

pub read_first : (path : Text) (f : File) (fs : Files) → read_file path ((path, f) ∷ fs) ≡ found f
unfolding read_file
read_first path f fs = rw (text_eq_refl path) refl

-- Files by their first part.
files_of : Files × Bool → Files
files_of (fs, b) = fs

file_or : File → Option File → File
file_or d none = d
file_or d (some f) = f

pub machine-IsFaithful : IsFaithful machine
unfolding decode files_of file_or
machine-IsFaithful = record {
  read-write = λ path f w w' h. ap (read_file path) (sym (ap files_of h)) ∙ read_first path f w;
  unmarshal-marshal = λ a f h. ap (λ g. decode (file_or (marker a) g)) (sym h);
}

abbrev pub spec : Spec
spec = record {
  name = str "lts";
  ref = str "v6.12";
  arch = str "arm64";
  base_config = str "defconfig";
  fragments = [];
}

abbrev pub built_image : Artifact
built_image = record image {
  config = config_of machine (str "/cache") (str "clang") spec (str "CONFIG_A=y\n");
  hash = key_of machine (str "/cache") (str "clang") spec (str "CONFIG_A=y\n");
}

abbrev pub cached : Files
cached =
    (meta_of machine (str "/cache") (str "clang") spec (str "CONFIG_A=y\n"), marker built_image)
    ∷ (
      config_of machine (str "/cache") (str "clang") spec (str "CONFIG_A=y\n"),
      plain (str "CONFIG_A=y\n"),
    )
    ∷ []

first_get :
    get machine (str "/cache") (str "clang") spec (str "CONFIG_A=y\n") []
    ≡ (cached, ok (built_image, false))
unfolding get looked_up dir_made config_written built encoded meta_written read_file
first_get = refl

-- Two ways to say the same.
abbrev plain_base : Text
plain_base = str "CONFIG_A=y\n"

abbrev other_base : Text
other_base = str "# CONFIG_A is not set\n"

plain_merged : merge_config plain_base [] ≡ plain_base
unfolding merge_config str print_config sort symbols merged apply_all apply apply_lines split
    apply_line set_or_off config_set ◌>>=◌ strip_prefix trim_space set_off config_off read_symbol
    after_equals assign directive is_symbol_byte off_suffix symbol_run value is_empty text_eq insert
    text_leb
plain_merged = refl

other_merged : merge_config plain_base [] ≡ merge_config other_base (plain_base ∷ [])
unfolding merge_config str print_config sort symbols merged apply_all apply apply_lines split
    apply_line set_or_off config_set ◌>>=◌ strip_prefix trim_space set_off config_off read_symbol
    after_equals assign directive is_symbol_byte off_suffix symbol_run value is_empty text_eq insert
    text_leb
other_merged = refl

get_merged :
    get machine (str "/cache") (str "clang") spec (merge_config plain_base []) []
    ≡ (cached, ok (built_image, false))
get_merged =
    subst
      (λ c. get machine (str "/cache") (str "clang") spec c [] ≡ (cached, ok (built_image, false)))
      (sym plain_merged) first_get

get-said_example :
    get machine (str "/cache") (str "clang") spec (merge_config other_base (plain_base ∷ [])) cached
    ≡ (cached, ok (built_image, true))
get-said_example =
    get-said machine (str "/cache") (str "clang") machine-IsFaithful spec plain_base other_base []
      (plain_base ∷ []) [] cached built_image false get_merged
      ((merge_config_iff plain_base other_base [] (plain_base ∷ [])).1 other_merged)
