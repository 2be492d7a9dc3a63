-- ===== src/Topology/Order.antt =====
-- `Expand` ranges over a Go map. Its result does not depend on the order in which the map gives
-- its keys.
use mathlib.Core.List.{Permᴰ}
use klab.Prelude.{◌≡◌, ◌≢◌, refl, sym, ap, ◌∙◌, List, ◌∷◌, inl, inr, Bool-cases, All, Distinct}
use mathlib.Core.Path.{subst, fun_ext}
use klab.Text.{Text, text_eq, text_eq_sound}
use klab.Text.Order.{sort, sort-Perm}
use klab.Topology.{Node, Topology, lookup_node, or_zero, node_at, keys, expand}
use klab.Topology.Nodes.{lookup_node_same, lookup_node_other}
use klab.Topology.Expand.{numbered, wanted_all, expand_lem}

All-Perm {κ} : {A : Type 0} (P : A → Type κ) {xs ys : List A} → Permᴰ xs ys → All P xs → All P ys
All-Perm P Permᴰ.nil h = tt
All-Perm P (Permᴰ.cons e p) (hx, h) = (subst P e hx, All-Perm P p h)
All-Perm P (Permᴰ.swap e f) (hx, (hy, h)) = (subst P f hy, (subst P e hx, h))
All-Perm P (Permᴰ.trans p q) h = All-Perm P q (All-Perm P p h)

Distinct-Perm : {xs ys : List Text} → Permᴰ xs ys → Distinct xs → Distinct ys
Distinct-Perm Permᴰ.nil d = tt
Distinct-Perm (Permᴰ.cons {l₂ = l} e p) (hx, d) =
    (subst (λ a. All (λ y. a ≢ y) l) e (All-Perm _ p hx), Distinct-Perm p d)
Distinct-Perm (Permᴰ.swap {a = a} {b = b} {l = l} e f) ((ne, hx), (hy, d)) = (
  (λ same. ne (e ∙ sym same ∙ sym f), subst (λ c. All (λ y. c ≢ y) l) f hy),
  (subst (λ c. All (λ y. c ≢ y) l) e hx, d),
)
Distinct-Perm (Permᴰ.trans p q) d = Distinct-Perm q (Distinct-Perm p d)

keys-Perm : {m m' : List (Text × Node)} → Permᴰ m m' → Permᴰ (keys m) (keys m')
keys-Perm Permᴰ.nil = Permᴰ.nil
keys-Perm (Permᴰ.cons e p) = Permᴰ.cons (ap (λ (kn : Text × Node). kn.0) e) (keys-Perm p)
keys-Perm (Permᴰ.swap e f) =
    Permᴰ.swap (ap (λ (kn : Text × Node). kn.0) e) (ap (λ (kn : Text × Node). kn.0) f)
keys-Perm (Permᴰ.trans p q) = Permᴰ.trans (keys-Perm p) (keys-Perm q)

lookup-cons :
    (k : Text) (x y : Text × Node) (m m' : List (Text × Node))
    → x ≡ y
    → lookup_node k m ≡ lookup_node k m'
    → lookup_node k (x ∷ m) ≡ lookup_node k (y ∷ m')
lookup-cons k (j, n) y m m' e h =
    subst (λ z. lookup_node k ((j, n) ∷ m) ≡ lookup_node k (z ∷ m')) e same
  where
    same : lookup_node k ((j, n) ∷ m) ≡ lookup_node k ((j, n) ∷ m')
    same = elim (Bool-cases (text_eq j k)) [
      | inl t ↦ lookup_node_same j k n m t ∙ sym (lookup_node_same j k n m' t)
      | inr f ↦ lookup_node_other j k n m f ∙ h ∙ sym (lookup_node_other j k n m' f)
    ]

lookup-swap :
    (k : Text) (x y : Text × Node) (m : List (Text × Node))
    → x.0 ≢ y.0
    → lookup_node k (x ∷ y ∷ m) ≡ lookup_node k (y ∷ x ∷ m)
lookup-swap k (i, a) (j, b) m ne = elim (Bool-cases (text_eq i k)) [
  | inl ti ↦ elim (Bool-cases (text_eq j k)) [
    | inl tj ↦ absurd (ne (text_eq_sound i k ti ∙ sym (text_eq_sound j k tj)))
    | inr fj ↦
        lookup_node_same i k a ((j, b) ∷ m) ti
        ∙ sym (lookup_node_same i k a m ti)
        ∙ sym (lookup_node_other j k b ((i, a) ∷ m) fj)
  ]
  | inr fi ↦
      lookup_node_other i k a ((j, b) ∷ m) fi
      ∙ lookup-cons k (j, b) (j, b) m ((i, a) ∷ m) refl (sym (lookup_node_other i k a m fi))
]

lookup-Perm :
    (k : Text) {m m' : List (Text × Node)}
    → Permᴰ m m'
    → Distinct (keys m)
    → lookup_node k m ≡ lookup_node k m'
lookup-Perm k Permᴰ.nil d = refl
lookup-Perm k (Permᴰ.cons {a = a} {b = b} {l₁ = l} {l₂ = l'} e p) (ha, d) =
    lookup-cons k a b l l' e (lookup-Perm k p d)
lookup-Perm k (Permᴰ.swap {a = a} {b = b} {a' = a'} {b' = b'} {l = l} e f) ((ne, ha), d) =
    lookup-swap k a b l ne ∙ lookup-cons k b a' (a ∷ l) (b' ∷ l) f (lookup-cons k a b' l l e refl)
lookup-Perm k (Permᴰ.trans p q) d =
    lookup-Perm k p d ∙ lookup-Perm k q (Distinct-Perm (keys-Perm p) d)

node_at-eq :
    (m m' : List (Text × Node)) (k : Text)
    → lookup_node k m ≡ lookup_node k m'
    → node_at m k ≡ node_at m' k
unfolding node_at
node_at-eq m m' k h = ap or_zero h

-- Two topologies whose maps of nodes list the same entries, no key twice, in different orders
-- expand alike.
pub expand-Perm :
    (t u : Topology) → Permᴰ t.nodes u.nodes → Distinct (keys t.nodes) → expand t ≡ expand u
expand-Perm t u p d =
    expand_lem t
    ∙ ap (λ names. numbered 0 (wanted_all (node_at t.nodes) names)) (sort-Perm (keys-Perm p))
    ∙ ap (λ at. numbered 0 (wanted_all at (sort (keys u.nodes))))
        (fun_ext (λ k. node_at-eq t.nodes u.nodes k (lookup-Perm k p d)))
    ∙ sym (expand_lem u)
