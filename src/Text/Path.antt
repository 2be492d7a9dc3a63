-- ===== src/Text/Path.antt =====
-- `path.Join` and `filepath.Join`, which agree on Unix.
pub mod Kept
pub mod Join
pub mod Last
pub mod Parent
use klab.Prelude.{Bool, false, List, [], ◌∷◌, ◌==◌, if◌then◌else◌, reverse}
use klab.Text.Defs.{Text, str, text_eq, is_empty, join}
use klab.Text.Split.{split}

-- One more component behind those that are kept, the last of which stands first.
unfoldable pub step_up : Bool → List Text → List Text
step_up rooted [] = if rooted then [] else str ".." ∷ []
step_up rooted (k ∷ kept) = if text_eq k (str "..") then str ".." ∷ k ∷ kept else kept

unfoldable pub keep_component : Bool → Text → List Text → List Text
keep_component rooted c kept =
    if is_empty c
    then kept
    else if text_eq c (str ".")
    then kept
    else if text_eq c (str "..")
    then step_up rooted kept
    else c ∷ kept

unfoldable pub keep_components : Bool → List Text → List Text → List Text
keep_components rooted [] kept = reverse kept
keep_components rooted (c ∷ cs) kept = keep_components rooted cs (keep_component rooted c kept)

unfoldable pub is_rooted : Text → Bool
is_rooted [] = false
is_rooted (c ∷ s) = c == b'/'

-- path.Clean
unfoldable pub clean : Text → Text
clean s =
    let rooted = is_rooted s in
    let rest = join (keep_components rooted (split b'/' s) []) (str "/") in
    if rooted then b'/' ∷ rest else if is_empty rest then str "." else rest

unfoldable pub not_empty : List Text → List Text
not_empty [] = []
not_empty (p ∷ ps) = let rest = not_empty ps in if is_empty p then rest else p ∷ rest

-- `path.Join`: nothing, if all parts are empty.
unfoldable pub path_join : List Text → Text
path_join ps = elim (not_empty ps) [ [] ↦ [] | q ∷ qs ↦ clean (join (q ∷ qs) (str "/")) ]

-- The text up to and with its last slash.
unfoldable pub through_slash : Text → Text
through_slash [] = []
through_slash (c ∷ s) =
    let rest = through_slash s in
    if is_empty rest then (if c == b'/' then c ∷ [] else []) else c ∷ rest

-- path.Dir
unfoldable pub path_dir : Text → Text
path_dir s = clean (through_slash s)
