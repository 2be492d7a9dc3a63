-- ===== src/Text/Order.antt =====
-- `sort.Strings`: the order of texts by their bytes, and the sorted list. A sorted list over a
-- total order is unique, so it does not matter by which algorithm it is found.
use mathlib.Core.List.{Permᴰ}
use mathlib.Core.Path.{ap₂}
use klab.Prelude.{
  ◌≡◌, refl, sym, ◌∙◌, inl, inr, Bool, true, false, List, [], ◌∷◌, arith, ltb, if◌then◌else◌,
  Bool-cases, All, Any, ◌↔◌, ◌≢◌, Distinct, All-imp,
}
use klab.Text.Defs.{Text}

-- a <= b
unfoldable pub text_leb : Text → Text → Bool
text_leb [] b = true
text_leb (a ∷ as') [] = false
text_leb (a ∷ as') (b ∷ bs) = if ltb a b then true else if ltb b a then false else text_leb as' bs

pub text_leb_refl : (a : Text) → text_leb a a ≡ true
unfolding text_leb
text_leb_refl [] = refl
text_leb_refl (a ∷ as') = ground (arith, text_leb_refl as')

pub text_leb_total : (a b : Text) → text_leb a b ≡ false → text_leb b a ≡ true
unfolding text_leb
text_leb_total [] b h = ground arith
text_leb_total (a ∷ as') [] h = refl
text_leb_total (a ∷ as') (b ∷ bs) h = ground (arith, text_leb_total as' bs)

pub text_leb_antisymm : (a b : Text) → text_leb a b ≡ true → text_leb b a ≡ true → a ≡ b
unfolding text_leb
text_leb_antisymm [] [] h k = refl
text_leb_antisymm [] (b ∷ bs) h k = ground arith
text_leb_antisymm (a ∷ as') [] h k = ground arith
text_leb_antisymm (a ∷ as') (b ∷ bs) h k = ground (arith, text_leb_antisymm as' bs)

pub text_leb_trans :
    (a b c : Text) → text_leb a b ≡ true → text_leb b c ≡ true → text_leb a c ≡ true
unfolding text_leb
text_leb_trans [] b c h k = refl
text_leb_trans (a ∷ as') [] c h k = ground arith
text_leb_trans (a ∷ as') (b ∷ bs) [] h k = ground arith
text_leb_trans (a ∷ as') (b ∷ bs) (c ∷ cs) h k = ground (arith, text_leb_trans as' bs cs)

unfoldable pub insert : Text → List Text → List Text
insert a [] = a ∷ []
insert a (b ∷ l) = if text_leb a b then a ∷ b ∷ l else b ∷ insert a l

-- sort.Strings
unfoldable pub sort : List Text → List Text
unfolding insert
sort [] = []
sort (a ∷ l) = insert a (sort l)

insert_comm : (a b : Text) (l : List Text) → insert a (insert b l) ≡ insert b (insert a l)
unfolding insert
insert_comm a b [] = ground (arith, text_leb_total a b, text_leb_total b a, text_leb_antisymm a b)
insert_comm a b (c ∷ l) = ground (
  arith,
  insert_comm a b l,
  text_leb_total a b,
  text_leb_total b a,
  text_leb_total a c,
  text_leb_total b c,
  text_leb_antisymm a b,
  text_leb_trans a b c,
  text_leb_trans b a c,
  text_leb_trans a c b,
  text_leb_trans b c a,
)

-- Sorting forgets the order in which the texts were listed.
pub sort-Perm : {xs ys : List Text} → Permᴰ xs ys → sort xs ≡ sort ys
unfolding sort
sort-Perm Permᴰ.nil = refl
sort-Perm (Permᴰ.cons e p) = ap₂ insert e (sort-Perm p)
sort-Perm (Permᴰ.swap {l = l} e f) =
    ap₂ (λ a b. insert a (insert b (sort l))) e f ∙ insert_comm _ _ (sort l)
sort-Perm (Permᴰ.trans p q) = sort-Perm p ∙ sort-Perm q

-- Every text is at most those behind it.
abbrev pub IsSorted : List Text → Type 0
IsSorted [] = Unit
IsSorted (a ∷ l) = All (λ b. text_leb a b ≡ true) l × IsSorted l

insert-All : (P : Text → Type 0) (a : Text) (l : List Text) → P a → All P l → All P (insert a l)
unfolding insert
insert-All P a [] h k = (h, tt)
insert-All P a (b ∷ l) h (kb, k) = elim (Bool-cases (text_leb a b)) [
  | inl le ↦ rw le (h, (kb, k))
  | inr gt ↦ rw gt (kb, insert-All P a l h k)
]

insert-IsSorted : (a : Text) (l : List Text) → IsSorted l → IsSorted (insert a l)
unfolding insert
insert-IsSorted a [] h = (tt, tt)
insert-IsSorted a (b ∷ l) (hb, h) = elim (Bool-cases (text_leb a b)) [
  | inl le ↦ rw le ((le, All-imp l (λ c. text_leb_trans a b c le) hb), (hb, h))
  | inr gt ↦
      rw gt (
        insert-All (λ c. text_leb b c ≡ true) a l (text_leb_total a b gt) hb,
        insert-IsSorted a l h,
      )
]

pub sort-IsSorted : (l : List Text) → IsSorted (sort l)
unfolding sort
sort-IsSorted [] = tt
sort-IsSorted (a ∷ l) = insert-IsSorted a (sort l) (sort-IsSorted l)

pub sort-All : (P : Text → Type 0) (l : List Text) → All P l → All P (sort l)
unfolding sort
sort-All P [] h = tt
sort-All P (a ∷ l) (ha, h) = insert-All P a (sort l) ha (sort-All P l h)

insert-Distinct :
    (a : Text) (l : List Text) → All (λ b. a ≢ b) l → Distinct l → Distinct (insert a l)
unfolding insert
insert-Distinct a [] h k = (tt, tt)
insert-Distinct a (b ∷ l) (hb, h) (kb, k) = elim (Bool-cases (text_leb a b)) [
  | inl le ↦ rw le ((hb, h), (kb, k))
  | inr gt ↦ rw gt (insert-All (λ c. b ≢ c) a l (λ e. hb (sym e)) kb, insert-Distinct a l h k)
]

pub sort-Distinct : (l : List Text) → Distinct l → Distinct (sort l)
unfolding sort
sort-Distinct [] h = tt
sort-Distinct (a ∷ l) (ha, h) =
    insert-Distinct a (sort l) (sort-All (λ b. a ≢ b) l ha) (sort-Distinct l h)

Any-insert : (P : Text → Type 0) (a : Text) (l : List Text) → Any P (a ∷ l) → Any P (insert a l)
unfolding insert
Any-insert P a [] h = h
Any-insert P a (b ∷ l) h = elim (Bool-cases (text_leb a b)) [
  | inl le ↦ rw le h
  | inr gt ↦ rw gt elim h [
    | inl p ↦ inr (Any-insert P a l (inl p))
    | inr (inl p) ↦ inl p
    | inr (inr p) ↦ inr (Any-insert P a l (inr p))
  ]
]

insert-Any : (P : Text → Type 0) (a : Text) (l : List Text) → Any P (insert a l) → Any P (a ∷ l)
unfolding insert
insert-Any P a [] h = h
insert-Any P a (b ∷ l) h =
    elim (Bool-cases (text_leb a b)) as (λ _. Any P (insert a (b ∷ l)) → Any P (a ∷ b ∷ l)) [
      | inl le ↦ rw le (λ k. k)
      | inr gt ↦ rw gt (λ k. elim k [
        | inl p ↦ inr (inl p)
        | inr m ↦ elim (insert-Any P a l m) [ inl p ↦ inl p | inr p ↦ inr (inr p) ]
      ])
    ]
      h

-- Sorting keeps the elements.
pub sort-Any : (P : Text → Type 0) (l : List Text) → Any P (sort l) ↔ Any P l
unfolding sort
sort-Any P l = (sort_Any P l, Any_sort P l)
  where
    sort_Any : (P : Text → Type 0) (l : List Text) → Any P (sort l) → Any P l
    sort_Any P [] h = h
    sort_Any P (a ∷ l) h = elim (insert-Any P a (sort l) h) [
      | inl p ↦ inl p
      | inr m ↦ inr (sort_Any P l m)
    ]

    Any_sort : (P : Text → Type 0) (l : List Text) → Any P l → Any P (sort l)
    Any_sort P [] h = h
    Any_sort P (a ∷ l) (inl p) = Any-insert P a (sort l) (inl p)
    Any_sort P (a ∷ l) (inr m) = Any-insert P a (sort l) (inr (Any_sort P l m))
