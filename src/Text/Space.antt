-- ===== src/Text/Space.antt =====
-- `strings.TrimSpace` and `strings.Fields`: white space is what `unicode.IsSpace` accepts, in its
-- UTF-8 form of one, two or three bytes. None of these forms overlaps another, so it is found at
-- any place of a text by the bytes that stand there.
use klab.Prelude.{
  ℕ, zero, suc, ◌+◌, ◌≤◌, ◌≡◌, refl, sym, ap, ◌∙◌, Bool, ◌&&◌, ◌||◌, List, [], ◌∷◌, ◌++◌,
  append_assoc, Option, none, some, arith, leb, ◌==◌, if◌then◌else◌, length, reverse, Option-cases,
  Bool-cases, inl, inr, All, All-append_left, All-append_right,
}
use mathlib.Core.Path.{subst}
use mathlib.Core.List.{reverse_aux, reverse-append, reverse-reverse}
use klab.Text.Defs.{Text}

-- \t \n \v \f \r and the blank
unfoldable pub space1 : ℕ → Bool
space1 a = leb 9 a && leb a 13 || a == 32

-- U+0085, U+00A0
unfoldable pub space2 : ℕ → ℕ → Bool
space2 a b = a == 0xc2 && (b == 0x85 || b == 0xa0)

-- U+1680, U+2000 to U+200A, U+2028, U+2029, U+202F, U+205F, U+3000
unfoldable pub space3 : ℕ → ℕ → ℕ → Bool
space3 a b c =
    a == 0xe1 && b == 0x9a && c == 0x80
    || a == 0xe2 && b == 0x80 && (leb 0x80 c && leb c 0x8a || c == 0xa8 || c == 0xa9 || c == 0xaf)
    || a == 0xe2 && b == 0x81 && c == 0x9f
    || a == 0xe3 && b == 0x80 && c == 0x80

module _ (two : ℕ → ℕ → Bool) (three : ℕ → ℕ → ℕ → Bool) where
  -- What follows a white space at the front, if there is one.
  unfoldable pub after_space : Text → Option Text
  after_space [] = none
  after_space (a ∷ []) = if space1 a then some [] else none
  after_space (a ∷ b ∷ []) = if space1 a then some (b ∷ []) else if two a b then some [] else none
  after_space (a ∷ b ∷ c ∷ s) =
      if space1 a
      then some (b ∷ c ∷ s)
      else if two a b
      then some (c ∷ s)
      else if three a b c
      then some s
      else none

  -- At most as many rounds as there are bytes.
  drop_spaces : ℕ → Text → Text
  drop_spaces zero s = s
  drop_spaces (suc f) s = elim (after_space s) [ none ↦ s | some r ↦ drop_spaces f r ]

  shorter : (s r : Text) → after_space s ≡ some r → suc (length r) ≤ length s
  unfolding after_space
  shorter [] r h = ground arith
  shorter (a ∷ []) r h = ground arith
  shorter (a ∷ b ∷ []) r h = ground arith
  shorter (a ∷ b ∷ c ∷ s) r h = ground arith

  drop_spaces-none : (f : ℕ) (s : Text) → after_space s ≡ none → drop_spaces f s ≡ s
  unfolding drop_spaces
  drop_spaces-none zero s h = refl
  drop_spaces-none (suc f) s h = rw (h, drop_spaces)

  drop_spaces-some :
      (f : ℕ) (s r : Text) → after_space s ≡ some r → drop_spaces (suc f) s ≡ drop_spaces f r
  unfolding drop_spaces
  drop_spaces-some f s r h = rw (h, drop_spaces)

  after_space-drop_spaces : (f : ℕ) (s : Text) → length s ≤ f → after_space (drop_spaces f s) ≡ none
  after_space-drop_spaces zero [] h = unfold drop_spaces after_space in refl
  after_space-drop_spaces zero (a ∷ s) h = absurd (omega arith)
  after_space-drop_spaces (suc f) s h = elim (Option-cases (after_space s)) [
    | inl e ↦ rw (drop_spaces-none (suc f) s e) e
    | inr (r, e) ↦
        rw (drop_spaces-some f s r e) (after_space-drop_spaces f r (omega (arith, shorter s r e)))
  ]

  after_space_suffix : (s r : Text) → after_space s ≡ some r → (u : Text) × (s ≡ u ++ r)
  unfolding after_space
  after_space_suffix [] r h = ([], ground arith)
  after_space_suffix (a ∷ []) r h = (a ∷ [], ground arith)
  after_space_suffix (a ∷ b ∷ []) r h = elim (Bool-cases (space1 a)) [
    | inl e ↦ (a ∷ [], ground arith)
    | inr n ↦ (a ∷ b ∷ [], ground arith)
  ]
  after_space_suffix (a ∷ b ∷ c ∷ s) r h = elim (Bool-cases (space1 a)) [
    | inl e ↦ (a ∷ [], ground arith)
    | inr n ↦ elim (Bool-cases (two a b)) [
      | inl e ↦ (a ∷ b ∷ [], ground arith)
      | inr m ↦ (a ∷ b ∷ c ∷ [], ground arith)
    ]
  ]

  -- A front part of a text that starts with no white space starts with none.
  after_space-front : (p u : Text) → after_space (p ++ u) ≡ none → after_space p ≡ none
  unfolding after_space
  after_space-front [] u h = refl
  after_space-front (a ∷ []) [] h = h
  after_space-front (a ∷ []) (b ∷ []) h = ground arith
  after_space-front (a ∷ []) (b ∷ c ∷ u) h = ground arith
  after_space-front (a ∷ b ∷ []) [] h = h
  after_space-front (a ∷ b ∷ []) (c ∷ u) h = ground arith
  after_space-front (a ∷ b ∷ c ∷ p) u h = ground arith

  drop_spaces_suffix : (f : ℕ) (s : Text) → (u : Text) × (s ≡ u ++ drop_spaces f s)
  drop_spaces_suffix zero s = ([], unfold drop_spaces in refl)
  drop_spaces_suffix (suc f) s = elim (Option-cases (after_space s)) [
    | inl e ↦ ([], sym (drop_spaces-none (suc f) s e))
    | inr (r, e) ↦
        let (u, p) = after_space_suffix s r e in
        let (v, q) = drop_spaces_suffix f r in
        (u ++ v, rw (drop_spaces-some f s r e) (p ∙ ap (λ t. u ++ t) q ∙ sym (append_assoc u v _)))
  ]

-- The bytes of a form, read from behind.
unfoldable pub back2 : ℕ → ℕ → Bool
back2 b a = space2 a b

unfoldable pub back3 : ℕ → ℕ → ℕ → Bool
back3 c b a = space3 a b c

trim_left : Text → Text
trim_left s = drop_spaces space2 space3 (length s) s

trim_right : Text → Text
trim_right s = reverse (drop_spaces back2 back3 (length s) (reverse s))

-- strings.TrimSpace
unfoldable pub trim_space : Text → Text
unfolding trim_left trim_right drop_spaces after_space space1 space2 space3 back2 back3
trim_space s = trim_right (trim_left s)

-- No white space stands at either end.
pub record IsTrimmed (s : Text) : Type 0 where
  pub front : after_space space2 space3 s ≡ none
  pub back : after_space back2 back3 (reverse s) ≡ none

length-reverse_aux : (s t : Text) → length (reverse_aux s t) ≡ length s + length t
length-reverse_aux [] t = omega arith
length-reverse_aux (c ∷ s) t = omega (arith, length-reverse_aux s (c ∷ t))

length-reverse : (s : Text) → length (reverse s) ≤ length s
length-reverse s = omega (arith, length-reverse_aux s [])

trim_left_id : (s : Text) → after_space space2 space3 s ≡ none → trim_left s ≡ s
unfolding trim_left
trim_left_id s h = drop_spaces-none space2 space3 (length s) s h

trim_right_id : (s : Text) → after_space back2 back3 (reverse s) ≡ none → trim_right s ≡ s
unfolding trim_right
trim_right_id s h =
    ap reverse (drop_spaces-none back2 back3 (length s) (reverse s) h) ∙ reverse-reverse s

trim_right-back : (s : Text) → after_space back2 back3 (reverse (trim_right s)) ≡ none
unfolding trim_right
trim_right-back s =
    rw reverse-reverse
      (after_space-drop_spaces back2 back3 (length s) (reverse s) (length-reverse s))

-- What is left after trimming behind is a front part.
trim_right_prefix : (s : Text) → (u : Text) × (s ≡ trim_right s ++ u)
unfolding trim_right
trim_right_prefix s =
    let (u, p) = drop_spaces_suffix back2 back3 (length s) (reverse s) in
    (reverse u, sym (reverse-reverse s) ∙ ap reverse p ∙ reverse-append u _)

trim_left-front : (s : Text) → after_space space2 space3 (trim_left s) ≡ none
unfolding trim_left
trim_left-front s = after_space-drop_spaces space2 space3 (length s) s (omega arith)

trim_space_parts : (s : Text) → trim_space s ≡ trim_right (trim_left s)
trim_space_parts s = unfold trim_space in refl

-- A trimmed text is left as it is.
pub trim_space_id : (s : Text) → IsTrimmed s → trim_space s ≡ s
trim_space_id s h =
    trim_space_parts s ∙ ap trim_right (trim_left_id s h.front) ∙ trim_right_id s h.back

-- Trimming leaves no white space at either end.
pub trim_space-IsTrimmed : (s : Text) → IsTrimmed (trim_space s)
trim_space-IsTrimmed s =
    let (u, p) = trim_right_prefix (trim_left s) in
    rw trim_space_parts (record {
      front =
          after_space-front space2 space3 (trim_right (trim_left s)) u
            (subst (λ t. after_space space2 space3 t ≡ none) p (trim_left-front s));
      back = trim_right-back (trim_left s);
    })

-- What holds of all bytes still does.
pub trim_space-All : (P : ℕ → Type 0) (s : Text) → All P s → All P (trim_space s)
trim_space-All P s h =
    let (u, p) = drop_spaces_suffix space2 space3 (length s) s in
    let (v, q) = trim_right_prefix (trim_left s) in
    let left = All-append_right P u _ (subst (All P) p h) in
    rw trim_space_parts (All-append_left P _ v (subst (All P) q (unfold trim_left in left)))

-- `strings.Fields`: `word` is the current word, read so far; `skip` counts the bytes of a white
-- space that are still to be passed over.
space_width : Text → ℕ
space_width [] = 0
space_width (a ∷ []) = if space1 a then 1 else 0
space_width (a ∷ b ∷ []) = if space1 a then 1 else if space2 a b then 2 else 0
space_width (a ∷ b ∷ c ∷ s) =
    if space1 a then 1 else if space2 a b then 2 else if space3 a b c then 3 else 0

end_word : Text → List Text → List Text
end_word [] ws = ws
end_word (c ∷ w) ws = (c ∷ w) ∷ ws

fields_from : Text → ℕ → Text → List Text
fields_from word skip [] = end_word word []
fields_from word (suc skip) (c ∷ s) = fields_from word skip s
fields_from word zero (c ∷ s) =
    let inside = fields_from (word ++ c ∷ []) 0 s in
    elim (space_width (c ∷ s)) [ zero ↦ inside | suc w ↦ end_word word (fields_from [] w s) ]

-- strings.Fields
unfoldable pub fields : Text → List Text
unfolding fields_from end_word space_width space1 space2 space3
fields s = fields_from [] 0 s
