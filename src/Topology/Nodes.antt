-- ===== src/Topology/Nodes.antt =====
-- The map of nodes, and the set of names, as their loops see them.
use klab.Prelude.{
  ◌≡◌, ◌≢◌, refl, inl, inr, true, false, List, [], ◌∷◌, none, some, arith, All, Any, Bool-cases,
}
use klab.Text.{Text, text_eq, text_eq_sound, text_eq_iff}
use klab.Topology.{Node, is_none, lookup_node, contains}

-- The name is a key of the map.
abbrev pub IsNode : List (Text × Node) → Text → Type 0
IsNode nodes m = Any (λ kn. kn.0 ≡ m) nodes

pub lookup_node_same :
    (j k : Text) (n : Node) (m : List (Text × Node))
    → text_eq j k ≡ true
    → lookup_node k ((j, n) ∷ m) ≡ some n
unfolding lookup_node
lookup_node_same j k n m e = rw e

pub lookup_node_other :
    (j k : Text) (n : Node) (m : List (Text × Node))
    → text_eq j k ≡ false
    → lookup_node k ((j, n) ∷ m) ≡ lookup_node k m
unfolding lookup_node
lookup_node_other j k n m e = rw e

none-is_none : is_none {A = Node} none ≡ false → ⊥
unfolding is_none
none-is_none h = cc

some-is_none : (n : Node) → is_none (some n) ≡ false
unfolding is_none
some-is_none n = refl

pub lookup_node-IsNode :
    (k : Text) (m : List (Text × Node)) → is_none (lookup_node k m) ≡ false → IsNode m k
lookup_node-IsNode k [] h = none-is_none (unfold lookup_node in h)
lookup_node-IsNode k ((j, n) ∷ m) h = elim (Bool-cases (text_eq j k)) [
  | inl e ↦ inl (text_eq_sound j k e)
  | inr ne ↦ inr (lookup_node-IsNode k m (rw (lookup_node_other j k n m ne) at h))
]

pub IsNode-lookup_node :
    (k : Text) (m : List (Text × Node)) → IsNode m k → is_none (lookup_node k m) ≡ false
IsNode-lookup_node k [] h = absurd h
IsNode-lookup_node k ((j, n) ∷ m) h = elim (Bool-cases (text_eq j k)) [
  | inl e ↦ rw (lookup_node_same j k n m e) (some-is_none n)
  | inr ne ↦ rw (lookup_node_other j k n m ne) (elim h [
    | inl e ↦ absurd (cc ((text_eq_iff j k).1 e, ne))
    | inr rest ↦ IsNode-lookup_node k m rest
  ])
]

-- `seen` answers whether a name came before.
pub contains-All : (ys : List Text) (x : Text) → contains ys x ≡ false → All (λ y. y ≢ x) ys
unfolding contains
contains-All [] x h = tt
contains-All (y ∷ ys) x h = elim (Bool-cases (text_eq y x)) [
  | inl e ↦ absurd (ground arith)
  | inr ne ↦ (λ e. cc ((text_eq_iff y x).1 e, ne), contains-All ys x (ground arith))
]

pub All-contains : (ys : List Text) (x : Text) → All (λ y. y ≢ x) ys → contains ys x ≡ false
unfolding contains
All-contains [] x h = refl
All-contains (y ∷ ys) x (hy, h) = elim (Bool-cases (text_eq y x)) [
  | inl e ↦ absurd (hy (text_eq_sound y x e))
  | inr ne ↦ rw ne (All-contains ys x h)
]
