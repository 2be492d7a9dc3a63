-- ===== src/Text/Path/Join.antt =====
-- A path that is joined twice.
use klab.Prelude.{
  ◌≡◌, refl, sym, ap, ◌∙◌, Bool, true, false, List, [], ◌∷◌, ◌++◌, append_assoc, All, All-append,
  All-imp, Bool-cases, inl, inr, arith, reverse, if◌then◌else◌,
}
use mathlib.Core.Path.{subst}
use mathlib.Core.List.{reverse-append}
use klab.Text.Defs.{Text, str, text_eq, is_empty, join}
use klab.Text.Split.{split, Lacks, split-Lacks, split-append_any}
use klab.Text.Path.{keep_component, is_rooted, clean, not_empty, path_join}
use klab.Text.Path.Kept.{
  kept_of, kept_of-append, IsStable, kept_of-IsStable, split-join, keep_components_lem,
}

-- A component of a path.
abbrev IsPart : Text → Type 0
IsPart c = (is_empty c ≡ false) × Lacks b'/' c

reverse-step : (k : Text) (kept : List Text) → reverse (k ∷ kept) ≡ reverse kept ++ k ∷ []
reverse-step k kept = reverse-append (k ∷ []) kept

kept_again :
    (rooted : Bool) (kept : List Text)
    → IsStable rooted kept
    → kept_of rooted (reverse kept) [] ≡ kept
unfolding kept_of
kept_again rooted [] h = refl
kept_again rooted (k ∷ kept) (again, full, lacks, h) =
    ap (λ cs. kept_of rooted cs []) (reverse-step k kept)
    ∙ (kept_of-append rooted (reverse kept) (k ∷ []) []
        ∙ (ap (keep_component rooted k) (kept_again rooted kept h) ∙ again))

parts_of : (rooted : Bool) (kept : List Text) → IsStable rooted kept → All IsPart (reverse kept)
parts_of rooted [] h = tt
parts_of rooted (k ∷ kept) (again, full, lacks, h) =
    rw (reverse-step k kept)
      (All-append IsPart (reverse kept) (k ∷ []) (parts_of rooted kept h) ((full, lacks), tt))

All-Lacks : (cs : List Text) → All IsPart cs → All (Lacks b'/') cs
All-Lacks cs h = All-imp cs (λ c p. p.1) h

joined_again :
    (rooted : Bool) (cs kept : List Text)
    → All IsPart cs
    → kept_of rooted (split b'/' (join cs (str "/"))) kept ≡ kept_of rooted cs kept
unfolding join split kept_of keep_component is_empty
joined_again rooted [] kept h = refl
joined_again rooted (c ∷ cs) kept h =
    ap (λ ds. kept_of rooted ds kept) (split-join cs c (All-Lacks (c ∷ cs) h))

-- The text of a path that is not rooted.
unfoldable pub text_of : List Text → Text
text_of cs = let rest = join cs (str "/") in if is_empty rest then str "." else rest

unfoldable pub render : Bool → List Text → Text
render true kept = b'/' ∷ join (reverse kept) (str "/")
render false kept = text_of (reverse kept)

pub clean_lem :
    (s : Text) → clean s ≡ render (is_rooted s) (kept_of (is_rooted s) (split b'/' s) [])
unfolding clean render text_of
clean_lem s = elim (Bool-cases (is_rooted s)) [
  | inl e ↦ rw (e, keep_components_lem true (split b'/' s) []) refl
  | inr n ↦ rw (n, keep_components_lem false (split b'/' s) []) refl
]

first_byte :
    (c : Text) (cs : List Text)
    → IsPart c
    → (is_empty (join (c ∷ cs) (str "/")) ≡ false) × (is_rooted (join (c ∷ cs) (str "/")) ≡ false)
unfolding join is_empty is_rooted
first_byte [] cs (full, lacks) = cc
first_byte (b ∷ c) [] (full, (hb, lacks)) = (refl, ground arith)
first_byte (b ∷ c) (d ∷ cs) (full, (hb, lacks)) = (refl, ground arith)

text_full : (c : Text) (cs : List Text) → IsPart c → text_of (c ∷ cs) ≡ join (c ∷ cs) (str "/")
unfolding text_of
text_full c cs h = rw (first_byte c cs h).0 refl

-- A text that cleans to itself: the same components, rooted as it is asked, and not empty.
abbrev pub Renders : Bool → List Text → Text → Type 0
Renders rooted kept s =
    (kept_of rooted (split b'/' s) [] ≡ kept) × (is_rooted s ≡ rooted) × (is_empty s ≡ false)

text_again : (cs : List Text) → All IsPart cs → Renders false (kept_of false cs []) (text_of cs)
unfolding text_of join split kept_of keep_component is_empty is_rooted str text_eq
text_again [] h = (refl, refl, refl)
text_again (c ∷ cs) (hc, h) =
    subst (Renders false (kept_of false (c ∷ cs) [])) (sym (text_full c cs hc))
      (joined_again false (c ∷ cs) [] (hc, h), (first_byte c cs hc).1, (first_byte c cs hc).0)

render_again :
    (rooted : Bool) (kept : List Text)
    → IsStable rooted kept
    → Renders rooted kept (render rooted kept)
unfolding render split kept_of keep_component is_empty is_rooted
render_again true kept h = (
  joined_again true (reverse kept) [] (parts_of true kept h) ∙ kept_again true kept h,
  refl,
  refl,
)
render_again false kept h =
    let (again, unrooted, full) = text_again (reverse kept) (parts_of false kept h) in
    (again ∙ kept_again false kept h, unrooted, full)

pub clean-Renders :
    (s : Text) → Renders (is_rooted s) (kept_of (is_rooted s) (split b'/' s) []) (clean s)
clean-Renders s =
    subst (Renders (is_rooted s) (kept_of (is_rooted s) (split b'/' s) [])) (sym (clean_lem s)) (
      render_again (is_rooted s) _
        (kept_of-IsStable (is_rooted s) (split b'/' s) [] (split-Lacks b'/' s) tt))

pub is_rooted-append : (s m : Text) → is_empty s ≡ false → is_rooted (s ++ m) ≡ is_rooted s
unfolding is_rooted is_empty
is_rooted-append [] m h = cc
is_rooted-append (c ∷ s) m h = refl

pub Renders-append :
    (rooted : Bool) (kept : List Text) (s m : Text)
    → Renders rooted kept s
    → clean (s ++ b'/' ∷ m) ≡ render rooted (kept_of rooted (split b'/' m) kept)
Renders-append rooted kept s m (same, root, full) =
    clean_lem (s ++ b'/' ∷ m)
    ∙ (ap (λ r. render r (kept_of r (split b'/' (s ++ b'/' ∷ m)) []))
          (is_rooted-append s (b'/' ∷ m) full ∙ root)
        ∙ ap (render rooted) (
            ap (λ cs. kept_of rooted cs []) (split-append_any b'/' s m)
            ∙ (kept_of-append rooted (split b'/' s) (split b'/' m) []
                ∙ ap (kept_of rooted (split b'/' m)) same)))

-- Cleaning what stands in front of a slash changes nothing.
pub clean-append :
    (s m : Text) → is_empty s ≡ false → clean (clean s ++ b'/' ∷ m) ≡ clean (s ++ b'/' ∷ m)
clean-append s m full =
    Renders-append _ _ (clean s) m (clean-Renders s)
    ∙ sym (Renders-append _ _ s m (refl, refl, full))

not_empty-append :
    (ps : List Text) (m : Text)
    → is_empty m ≡ false
    → not_empty (ps ++ m ∷ []) ≡ not_empty ps ++ m ∷ []
unfolding not_empty
not_empty-append [] m h = rw h refl
not_empty-append (p ∷ ps) m h = elim (Bool-cases (is_empty p)) [
  | inl e ↦ rw (e, not_empty-append ps m h) refl
  | inr n ↦ rw (n, not_empty-append ps m h) refl
]

join-append :
    (q : Text) (qs : List Text) (m : Text)
    → join ((q ∷ qs) ++ m ∷ []) (str "/") ≡ join (q ∷ qs) (str "/") ++ b'/' ∷ m
unfolding join str
join-append q [] m = append_assoc q (b'/' ∷ []) m
join-append q (r ∷ qs) m =
    ap (λ t. (q ++ b'/' ∷ []) ++ t) (join-append r qs m)
    ∙ sym (append_assoc (q ++ b'/' ∷ []) (join (r ∷ qs) (str "/")) (b'/' ∷ m))

abbrev pub IsFull : Text → Type 0
IsFull s = is_empty s ≡ false

not_empty-All : (ps : List Text) → All IsFull (not_empty ps)
unfolding not_empty
not_empty-All [] = tt
not_empty-All (p ∷ ps) = elim (Bool-cases (is_empty p)) [
  | inl e ↦ rw e (not_empty-All ps)
  | inr n ↦ rw n (n, not_empty-All ps)
]

pub join-IsFull : (q : Text) (qs : List Text) → IsFull q → IsFull (join (q ∷ qs) (str "/"))
unfolding join is_empty
join-IsFull [] qs h = cc
join-IsFull (c ∷ q) [] h = refl
join-IsFull (c ∷ q) (r ∷ qs) h = refl

unfoldable pub joined : List Text → Text
joined [] = []
joined (q ∷ qs) = clean (join (q ∷ qs) (str "/"))

joined_lem :
    (qs : List Text)
    → ◌≡◌ {A = Text} (elim qs [ [] ↦ [] | q ∷ rs ↦ clean (join (q ∷ rs) (str "/")) ]) (joined qs)
unfolding joined
joined_lem [] = refl
joined_lem (q ∷ qs) = refl

pub path_join_lem : (ps : List Text) → path_join ps ≡ joined (not_empty ps)
unfolding path_join
path_join_lem ps = joined_lem (not_empty ps)

pub two_full :
    (a m : Text)
    → IsFull a
    → is_empty m ≡ false
    → joined (not_empty (a ∷ m ∷ [])) ≡ clean (a ++ b'/' ∷ m)
unfolding joined not_empty join str
two_full a m ha hm = rw (ha, hm, append_assoc a (b'/' ∷ []) m) refl

pub one_full : (m : Text) → is_empty m ≡ false → joined (not_empty ([] ∷ m ∷ [])) ≡ joined (m ∷ [])
unfolding not_empty is_empty
one_full m h = rw h refl

join_again :
    (qs : List Text) (m : Text)
    → All IsFull qs
    → is_empty m ≡ false
    → joined (not_empty (joined qs ∷ m ∷ [])) ≡ joined (qs ++ m ∷ [])
unfolding joined
join_again [] m h hm = one_full m hm
join_again (q ∷ qs) m (hq, h) hm =
    two_full _ m (clean-Renders (join (q ∷ qs) (str "/"))).2 hm
    ∙ (clean-append (join (q ∷ qs) (str "/")) m (join-IsFull q qs hq)
        ∙ ap clean (sym (join-append q qs m)))

-- path.Join of a path that was joined, and one more component.
pub path_join-path_join :
    (ps : List Text) (m : Text)
    → is_empty m ≡ false
    → path_join (path_join ps ∷ m ∷ []) ≡ path_join (ps ++ m ∷ [])
path_join-path_join ps m h =
    path_join_lem (path_join ps ∷ m ∷ [])
    ∙ (ap (λ a. joined (not_empty (a ∷ m ∷ []))) (path_join_lem ps)
        ∙ (join_again (not_empty ps) m (not_empty-All ps) h
            ∙ (ap joined (sym (not_empty-append ps m h)) ∙ sym (path_join_lem (ps ++ m ∷ [])))))
