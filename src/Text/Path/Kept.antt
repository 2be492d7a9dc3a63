-- ===== src/Text/Path/Kept.antt =====
-- The components that `path.Clean` keeps are kept again.
use klab.Prelude.{
  ◌≡◌, refl, ap, ◌∙◌, Bool, true, false, List, [], ◌∷◌, ◌++◌, append_assoc, All, Bool-cases, inl,
  inr, ◌==◌, arith, reverse,
}
use klab.Text.Defs.{Text, str, text_eq, is_empty, join}
use klab.Text.Split.{split, push, Lacks, split-append}
use klab.Text.Path.{step_up, keep_component, keep_components}

-- The components that are kept, the last of which stands first.
unfoldable pub kept_of : Bool → List Text → List Text → List Text
kept_of rooted [] kept = kept
kept_of rooted (c ∷ cs) kept = kept_of rooted cs (keep_component rooted c kept)

pub keep_components_lem :
    (rooted : Bool) (cs kept : List Text)
    → keep_components rooted cs kept ≡ reverse (kept_of rooted cs kept)
unfolding keep_components kept_of
keep_components_lem rooted [] kept = refl
keep_components_lem rooted (c ∷ cs) kept = keep_components_lem rooted cs _

pub kept_of-append :
    (rooted : Bool) (cs ds kept : List Text)
    → kept_of rooted (cs ++ ds) kept ≡ kept_of rooted ds (kept_of rooted cs kept)
unfolding kept_of
kept_of-append rooted [] ds kept = refl
kept_of-append rooted (c ∷ cs) ds kept = kept_of-append rooted cs ds _

-- Kept components that are kept again.
abbrev pub IsStable : Bool → List Text → Type 0
IsStable rooted [] = Unit {0}
IsStable rooted (k ∷ kept) =
    (keep_component rooted k kept ≡ k ∷ kept)
    × (is_empty k ≡ false)
    × Lacks b'/' k
    × IsStable rooted kept

kept_empty :
    (rooted : Bool) (c : Text) (kept : List Text)
    → is_empty c ≡ true
    → keep_component rooted c kept ≡ kept
unfolding keep_component
kept_empty rooted c kept e = rw e refl

kept_dot :
    (rooted : Bool) (c : Text) (kept : List Text)
    → is_empty c ≡ false
    → text_eq c (str ".") ≡ true
    → keep_component rooted c kept ≡ kept
unfolding keep_component
kept_dot rooted c kept full e = rw (full, e) refl

kept_up :
    (rooted : Bool) (c : Text) (kept : List Text)
    → is_empty c ≡ false
    → text_eq c (str ".") ≡ false
    → text_eq c (str "..") ≡ true
    → keep_component rooted c kept ≡ step_up rooted kept
unfolding keep_component
kept_up rooted c kept full n e = rw (full, n, e) refl

kept_plain :
    (rooted : Bool) (c : Text) (kept : List Text)
    → is_empty c ≡ false
    → text_eq c (str ".") ≡ false
    → text_eq c (str "..") ≡ false
    → keep_component rooted c kept ≡ c ∷ kept
unfolding keep_component
kept_plain rooted c kept full n k = rw (full, n, k) refl

-- ".." is kept where there is nothing to go up from.
up_kept :
    (rooted : Bool) (kept : List Text) → keep_component rooted (str "..") kept ≡ step_up rooted kept
unfolding keep_component str is_empty text_eq
up_kept rooted kept = refl

no_slash_up : Lacks b'/' (str "..")
unfolding str
no_slash_up = (omega arith, (omega arith, tt))

up_full : is_empty (str "..") ≡ false
unfolding str is_empty
up_full = refl

step_again :
    (rooted : Bool) (k : Text) (kept : List Text)
    → text_eq k (str "..") ≡ true
    → step_up rooted (k ∷ kept) ≡ str ".." ∷ k ∷ kept
unfolding step_up
step_again rooted k kept e = rw e refl

step_back :
    (rooted : Bool) (k : Text) (kept : List Text)
    → text_eq k (str "..") ≡ false
    → step_up rooted (k ∷ kept) ≡ kept
unfolding step_up
step_back rooted k kept n = rw n refl

step_up-IsStable :
    (rooted : Bool) (kept : List Text)
    → IsStable rooted kept
    → IsStable rooted (step_up rooted kept)
unfolding step_up
step_up-IsStable true [] h = tt
step_up-IsStable false [] h = (up_kept false [], up_full, no_slash_up, tt)
step_up-IsStable rooted (k ∷ kept) (again, full, lacks, h) =
    elim (Bool-cases (text_eq k (str ".."))) [
      | inl e ↦ rw (step_again rooted k kept e) (
        up_kept rooted (k ∷ kept) ∙ step_again rooted k kept e,
        up_full,
        no_slash_up,
        (again, full, lacks, h),
      )
      | inr n ↦ rw (step_back rooted k kept n) h
    ]

keep_component-IsStable :
    (rooted : Bool) (c : Text) (kept : List Text)
    → Lacks b'/' c
    → IsStable rooted kept
    → IsStable rooted (keep_component rooted c kept)
keep_component-IsStable rooted c kept lacks h = elim (Bool-cases (is_empty c)) [
  | inl e ↦ rw (kept_empty rooted c kept e) h
  | inr full ↦ elim (Bool-cases (text_eq c (str "."))) [
    | inl e ↦ rw (kept_dot rooted c kept full e) h
    | inr n ↦ elim (Bool-cases (text_eq c (str ".."))) [
      | inl e ↦ rw (kept_up rooted c kept full n e) (step_up-IsStable rooted kept h)
      | inr k ↦
          rw (kept_plain rooted c kept full n k) (kept_plain rooted c kept full n k, full, lacks, h)
    ]
  ]
]

split_plain : (c : Text) → Lacks b'/' c → split b'/' c ≡ c ∷ []
unfolding split push
split_plain [] h = refl
split_plain (b ∷ c) (hb, h) = elim (Bool-cases (b == b'/')) [
  | inl e ↦ absurd (hb (ground arith))
  | inr n ↦ rw (n, split_plain c h) refl
]

pub split-join :
    (cs : List Text) (c : Text)
    → All (Lacks b'/') (c ∷ cs)
    → split b'/' (join (c ∷ cs) (str "/")) ≡ c ∷ cs
unfolding join str
split-join [] c (h, t) = split_plain c h
split-join (d ∷ cs) c (h, t) =
    rw
      (
        append_assoc c (b'/' ∷ []) (join (d ∷ cs) (str "/")),
        split-append b'/' c (join (d ∷ cs) (str "/")) h,
      )
      (ap (λ ps. c ∷ ps) (split-join cs d t))

pub kept_of-IsStable :
    (rooted : Bool) (cs kept : List Text)
    → All (Lacks b'/') cs
    → IsStable rooted kept
    → IsStable rooted (kept_of rooted cs kept)
unfolding kept_of
kept_of-IsStable rooted [] kept l h = h
kept_of-IsStable rooted (c ∷ cs) kept (lc, l) h =
    kept_of-IsStable rooted cs _ l (keep_component-IsStable rooted c kept lc h)
