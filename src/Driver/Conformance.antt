-- ===== src/Driver/Conformance.antt =====
-- `Conformance`: the failures that it reports of a driver's name and capabilities, as a list in the
-- order of the calls of `Errorf`.
use klab.Prelude.{
  ◌≡◌, ◌≢◌, ◌↔◌, inl, inr, refl, Bool, true, false, not, List, [], ◌∷◌, ◌++◌, arith, Any, All,
  Bool-cases, sym, ap, ◌∙◌,
}
use klab.Text.{Text, str, text_eq, text_eq_sound, text_eq_iff, is_empty}
use klab.Driver.{Caps, list_has, can_run_arch}

pub data Failure : Type 0 where
  empty_name no_arches empty_arch runs_unlisted : Failure
  listed_not_run : Text → Failure

abbrev pub no_such_arch : Text
unfolding str
no_such_arch = str "no-such-arch"

when : Bool → Failure → List Failure
when true f = f ∷ []
when false f = []

no_entries : List Text → Bool
no_entries [] = true
no_entries (a ∷ as') = false

-- The loop over the listed architectures.
check_arches : Caps → List Text → List Failure
unfolding when
check_arches c [] = []
check_arches c (a ∷ as') =
    when (is_empty a) empty_arch
    ++ (when (not (can_run_arch c a)) (listed_not_run a) ++ check_arches c as')

-- Conformance
unfoldable pub conformance : Text → Caps → List Failure
unfolding when no_entries check_arches
conformance name c =
    when (is_empty name) empty_name
    ++ (when (no_entries c.arches) no_arches
        ++ (check_arches c c.arches ++ when (can_run_arch c no_such_arch) runs_unlisted))

list_has-Any : (as' : List Text) (x : Text) → list_has as' x ≡ true → Any (λ a. a ≡ x) as'
unfolding list_has
list_has-Any [] x h = cc
list_has-Any (a ∷ as') x h = elim (Bool-cases (text_eq a x)) [
  | inl e ↦ inl (text_eq_sound a x e)
  | inr ne ↦ inr (list_has-Any as' x (ground arith))
]

Any-list_has : (as' : List Text) (x : Text) → Any (λ a. a ≡ x) as' → list_has as' x ≡ true
unfolding list_has
Any-list_has [] x h = absurd h
Any-list_has (a ∷ as') x (inl e) = rw ((text_eq_iff a x).1 e)
Any-list_has (a ∷ as') x (inr m) = ground (arith, Any-list_has as' x m)

-- `CanRunArch` answers whether the architecture is listed.
pub can_run_arch_iff :
    (c : Caps) (arch : Text) → (can_run_arch c arch ≡ true) ↔ Any (λ a. a ≡ arch) c.arches
unfolding can_run_arch
can_run_arch_iff c arch = (list_has-Any c.arches arch, Any-list_has c.arches arch)

-- What the suite demands: a name, at least one architecture, no architecture without a name, and
-- not the one that does not exist.
pub record Conforms (name : Text) (c : Caps) : Type 0 where
  pub named : name ≢ []
  pub listed : c.arches ≢ []
  pub arches_named : All (λ a. a ≢ []) c.arches
  pub honest : All (λ a. a ≢ no_such_arch) c.arches

append-nil_inv : (xs ys : List Failure) → xs ++ ys ≡ [] → (xs ≡ []) × (ys ≡ [])
append-nil_inv [] ys e = (refl, e)
append-nil_inv (x ∷ xs) ys e = cc

when-nil : (b : Bool) (f : Failure) → when b f ≡ [] → b ≡ false
unfolding when
when-nil true f e = cc
when-nil false f e = refl

nil-when : (b : Bool) (f : Failure) → b ≡ false → when b f ≡ []
unfolding when
nil-when true f e = cc
nil-when false f e = refl

is_empty-ne : (s : Text) → is_empty s ≡ false → s ≢ []
unfolding is_empty
is_empty-ne [] h = cc
is_empty-ne (c ∷ s) h = λ e. cc e

ne-is_empty : (s : Text) → s ≢ [] → is_empty s ≡ false
unfolding is_empty
ne-is_empty [] h = absurd (h refl)
ne-is_empty (c ∷ s) h = refl

no_entries-ne : (as' : List Text) → no_entries as' ≡ false → as' ≢ []
unfolding no_entries
no_entries-ne [] h = cc
no_entries-ne (a ∷ as') h = λ e. cc e

ne-no_entries : (as' : List Text) → as' ≢ [] → no_entries as' ≡ false
unfolding no_entries
ne-no_entries [] h = absurd (h refl)
ne-no_entries (a ∷ as') h = refl

check_arches_cons :
    (c : Caps) (a : Text) (as' : List Text)
    → check_arches c (a ∷ as')
      ≡ when (is_empty a) empty_arch
        ++ (when (not (can_run_arch c a)) (listed_not_run a) ++ check_arches c as')
check_arches_cons c a as' = unfold check_arches in refl

arches-nil : (c : Caps) (as' : List Text) → check_arches c as' ≡ [] → All (λ a. a ≢ []) as'
arches-nil c [] e = tt
arches-nil c (a ∷ as') e =
    let (e1, e2) = append-nil_inv _ _ (sym (check_arches_cons c a as') ∙ e) in
    let (e3, e4) = append-nil_inv _ _ e2 in (is_empty-ne a (when-nil _ _ e1), arches-nil c as' e4)

nil-arches :
    (c : Caps) (as' : List Text)
    → All (λ a. a ≢ []) as'
    → All (λ a. Any (λ b. b ≡ a) c.arches) as'
    → check_arches c as' ≡ []
nil-arches c [] h m = unfold check_arches in refl
nil-arches c (a ∷ as') (ha, h) (ma, m) =
    check_arches_cons c a as'
    ∙ rw
        (
          nil-when (is_empty a) empty_arch (ne-is_empty a ha),
          nil-when (not (can_run_arch c a)) (listed_not_run a)
              (ap not ((can_run_arch_iff c a).1 ma)),
        )
        (nil-arches c as' h m)

-- Every architecture of a list is in the list.
All-listed :
    (as' bs : List Text)
    → ((a : Text) → Any (λ b. b ≡ a) as' → Any (λ b. b ≡ a) bs)
    → All (λ a. Any (λ b. b ≡ a) bs) as'
All-listed [] bs f = tt
All-listed (a ∷ as') bs f = (f a (inl refl), All-listed as' bs (λ b m. f b (inr m)))

list_has-All : (as' : List Text) (x : Text) → list_has as' x ≡ false → All (λ a. a ≢ x) as'
unfolding list_has
list_has-All [] x h = tt
list_has-All (a ∷ as') x h = elim (Bool-cases (text_eq a x)) [
  | inl e ↦ absurd (ground arith)
  | inr ne ↦ (λ e. cc ((text_eq_iff a x).1 e, ne), list_has-All as' x (ground arith))
]

All-list_has : (as' : List Text) (x : Text) → All (λ a. a ≢ x) as' → list_has as' x ≡ false
unfolding list_has
All-list_has [] x h = refl
All-list_has (a ∷ as') x (ha, h) = elim (Bool-cases (text_eq a x)) [
  | inl e ↦ absurd (ha (text_eq_sound a x e))
  | inr ne ↦ rw ne (All-list_has as' x h)
]

not_run : (c : Caps) → All (λ a. a ≢ no_such_arch) c.arches → can_run_arch c no_such_arch ≡ false
unfolding can_run_arch
not_run c h = All-list_has c.arches no_such_arch h

run_false : (c : Caps) → can_run_arch c no_such_arch ≡ false → All (λ a. a ≢ no_such_arch) c.arches
unfolding can_run_arch
run_false c h = list_has-All c.arches no_such_arch h

conformance_parts :
    (name : Text) (c : Caps)
    → conformance name c
      ≡ when (is_empty name) empty_name
        ++ (when (no_entries c.arches) no_arches
            ++ (check_arches c c.arches ++ when (can_run_arch c no_such_arch) runs_unlisted))
conformance_parts name c = unfold conformance in refl

-- The suite reports nothing exactly of a driver that has a name, lists at least one architecture,
-- lists none without a name, and does not list the one that does not exist.
pub conformance_iff : (name : Text) (c : Caps) → (conformance name c ≡ []) ↔ Conforms name c
conformance_iff name c = (
  λ e.
      let (e1, f1) = append-nil_inv _ _ (sym (conformance_parts name c) ∙ e) in
      let (e2, f2) = append-nil_inv _ _ f1 in
      let (e3, e4) = append-nil_inv _ _ f2 in
      record {
        named = is_empty-ne name (when-nil _ _ e1);
        listed = no_entries-ne c.arches (when-nil _ _ e2);
        arches_named = arches-nil c c.arches e3;
        honest = run_false c (when-nil _ _ e4);
      },
  λ v.
      conformance_parts name c
      ∙ rw (
        nil-when (is_empty name) empty_name (ne-is_empty name v.named),
        nil-when (no_entries c.arches) no_arches (ne-no_entries c.arches v.listed),
        nil-arches c c.arches v.arches_named (All-listed c.arches c.arches (λ a m. m)),
        nil-when (can_run_arch c no_such_arch) runs_unlisted (not_run c v.honest),
      ),
)
