-- ===== src/Text/Path/Last.antt =====
-- The last component of a joined path, and what stands in front of it.
use klab.Prelude.{
  ◌≡◌, refl, sym, ap, ◌∙◌, Bool, true, false, List, [], ◌∷◌, ◌++◌, ◌<◌, All, All-imp, Bool-cases,
  inl, inr, arith,
}
use klab.Text.Defs.{Text, str, text_eq, is_empty, join}
use klab.Text.Split.{split, Lacks, split-append_any}
use klab.Text.Path.{keep_component, is_rooted, not_empty, path_join}
use klab.Text.Path.Kept.{kept_of, kept_of-append, split-join}
use klab.Text.Path.Join.{
  Renders, clean-Renders, is_rooted-append, joined, path_join_lem, two_full, one_full,
}

-- The components of a path that is cleaned, the last of which stands first.
unfoldable pub parts : Text → List Text
parts s = kept_of (is_rooted s) (split b'/' s) []

-- A component that cleaning keeps.
pub record IsName (c : Text) : Type 0 where
  pub full : is_empty c ≡ false
  pub lacks : Lacks b'/' c
  pub not_dot : text_eq c (str ".") ≡ false
  pub not_up : text_eq c (str "..") ≡ false

keep_name :
    (rooted : Bool) (c : Text) (kept : List Text)
    → IsName c
    → keep_component rooted c kept ≡ c ∷ kept
unfolding keep_component
keep_name rooted c kept h = rw (h.full, h.not_dot, h.not_up) refl

name_parts :
    (rooted : Bool) (c : Text) (kept : List Text)
    → IsName c
    → kept_of rooted (split b'/' c) kept ≡ c ∷ kept
unfolding kept_of join
name_parts rooted c kept h =
    ap (λ cs. kept_of rooted cs kept) (split-join [] c (h.lacks, tt)) ∙ keep_name rooted c kept h

unrooted : (c : Text) → IsName c → is_rooted c ≡ false
unfolding is_rooted
unrooted [] h = refl
unrooted (b ∷ c) h = let (hb, rest) = h.lacks in ground arith

nil_of : (a : Text) → is_empty a ≡ true → a ≡ []
unfolding is_empty
nil_of [] h = refl
nil_of (c ∷ a) h = cc

Renders-same :
    (r r' : Bool) (k k' : List Text) (s s' : Text)
    → r ≡ r'
    → k ≡ k'
    → s ≡ s'
    → Renders r k s
    → Renders r' k' s'
Renders-same r r' k k' s s' p q e (x, y, z) = (cc, cc, cc)

parts-append : (a m : Text) → is_empty a ≡ false → IsName m → parts (a ++ b'/' ∷ m) ≡ m ∷ parts a
unfolding parts
parts-append a m full h =
    ap (λ r. kept_of r (split b'/' (a ++ b'/' ∷ m)) []) (is_rooted-append a (b'/' ∷ m) full)
    ∙ (ap (λ cs. kept_of (is_rooted a) cs []) (split-append_any b'/' a m)
        ∙ (kept_of-append (is_rooted a) (split b'/' a) (split b'/' m) []
            ∙ name_parts (is_rooted a) m _ h))

below_full :
    (a m : Text)
    → is_empty a ≡ false
    → IsName m
    → Renders (is_rooted a) (m ∷ parts a) (joined (not_empty (a ∷ m ∷ [])))
unfolding parts kept_of
below_full a m full h =
    Renders-same _ _ _ _ _ _ (is_rooted-append a (b'/' ∷ m) full) (parts-append a m full h)
      (sym (two_full a m full h.full)) (clean-Renders (a ++ b'/' ∷ m))

below_none : (m : Text) → IsName m → Renders false (m ∷ []) (joined (not_empty ([] ∷ m ∷ [])))
unfolding joined join
below_none m h =
    Renders-same _ _ _ _ _ _ (unrooted m h)
      (ap (λ r. kept_of r (split b'/' m) []) (unrooted m h) ∙ name_parts false m [] h)
      (sym (one_full m h.full)) (clean-Renders m)

parts_nil : parts [] ≡ []
unfolding parts kept_of is_rooted split keep_component is_empty
parts_nil = refl

-- A path, and one more component.
below : (a m : Text) → IsName m → Renders (is_rooted a) (m ∷ parts a) (path_join (a ∷ m ∷ []))
unfolding is_rooted
below a m h = elim (Bool-cases (is_empty a)) [
  | inl e ↦
      Renders-same _ _ _ _ _ _ (ap is_rooted (sym (nil_of a e)))
        (ap (λ ks. m ∷ ks) (sym (ap parts (nil_of a e) ∙ parts_nil)))
        (sym (ap (λ b. path_join (b ∷ m ∷ [])) (nil_of a e) ∙ path_join_lem ([] ∷ m ∷ [])))
        (below_none m h)
  | inr full ↦
      Renders-same _ _ _ _ _ _ refl refl (sym (path_join_lem (a ∷ m ∷ []))) (below_full a m full h)
]

pub parts-path_join : (a m : Text) → IsName m → parts (path_join (a ∷ m ∷ [])) ≡ m ∷ parts a
unfolding parts
parts-path_join a m h =
    let (same, root, full) = below a m h in
    ap (λ r. kept_of r (split b'/' (path_join (a ∷ m ∷ []))) []) root ∙ same

first_part_of : List Text → Text
first_part_of [] = []
first_part_of (k ∷ ks) = k

other_parts : List Text → List Text
other_parts [] = []
other_parts (k ∷ ks) = ks

-- Two paths, each with one more component, that have the same components.
pub path_join-parts :
    (a a' m m' : Text)
    → IsName m
    → IsName m'
    → parts (path_join (a ∷ m ∷ [])) ≡ parts (path_join (a' ∷ m' ∷ []))
    → (m ≡ m') × (parts a ≡ parts a')
unfolding first_part_of other_parts
path_join-parts a a' m m' h h' e =
    let same = sym (parts-path_join a m h) ∙ e ∙ parts-path_join a' m' h' in
    (ap first_part_of same, ap other_parts same)

-- A text of bytes behind the slash, as letters and digits are.
pub All-IsName : (c : Text) → is_empty c ≡ false → All (λ b. b'/' < b) c → IsName c
unfolding is_empty text_eq str
All-IsName [] full h = cc
All-IsName (b ∷ c) full (hb, h) = record {
  full = refl;
  lacks = All-imp (b ∷ c) (λ d p. ground arith) (hb, h);
  not_dot = ground arith;
  not_up = ground arith;
}
