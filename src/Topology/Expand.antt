-- ===== src/Topology/Expand.antt =====
-- The loops of `Expand` against a plain description: the instances that the nodes ask for, in the
-- order of the sorted names, numbered from 1.
use klab.Prelude.{
  ℕ, zero, suc, ◌+◌, ◌≡◌, refl, sym, ap, ◌∙◌, List, [], ◌∷◌, ◌++◌, append_assoc, append-nil, arith,
  length, length-append, if◌then◌else◌,
}
use klab.Prelude.Int.{ℤ, pos, negsuc, below_one, rounds}
use klab.Text.{Text}
use klab.Text.Order.{sort}
use klab.Topology.{
  Node, Topology, Instance, Out, mac, add, numbered_name, add_copies, add_node, add_nodes, node_at,
  keys, expand,
}

-- An instance before it has its MAC: its name, the key that it comes from, and its node.
pub record Wanted : Type 0 where
  pub name : Text
  pub base : Text
  pub node : Node

-- The node of an instance has no count.
abbrev pub as_wanted : Text → Text → Node → Wanted
as_wanted name base n = record { name = name; base = base; node = record n { count = pos 0 } }

-- The names of the instances of a node, by its count: the node's own name for a count of 0 or less,
-- and otherwise as many names as the count says, numbered from 0. A count of 1 gives one name with the
-- number 0.
abbrev pub names_from : ℕ → ℕ → Text → List Text
names_from i zero name = []
names_from i (suc r) name = numbered_name name i ∷ names_from (suc i) r name

abbrev pub instance_names : ℤ → Text → List Text
instance_names (negsuc m) name = name ∷ []
instance_names (pos zero) name = name ∷ []
instance_names (pos (suc k)) name = names_from 0 (suc k) name

-- The instances of a node under some names.
abbrev pub all_wanted : List Text → Text → Node → List Wanted
all_wanted [] name n = []
all_wanted (s ∷ ss) name n = as_wanted s name n ∷ all_wanted ss name n

abbrev pub wanted : Text → Node → List Wanted
wanted name n = all_wanted (instance_names n.count name) name n

abbrev pub wanted_all : (Text → Node) → List Text → List Wanted
wanted_all at [] = []
wanted_all at (name ∷ names) = wanted name (at name) ++ wanted_all at names

-- The instances behind the first `seq`, each with the MAC of its place.
abbrev pub numbered : ℕ → List Wanted → List Instance
numbered seq [] = []
numbered seq (w ∷ ws) =
    record { name = w.name; base = w.base; node = w.node; mac = mac (suc seq) }
    ∷ numbered (suc seq) ws

numbered-append :
    (seq : ℕ) (us ws : List Wanted)
    → numbered seq (us ++ ws) ≡ numbered seq us ++ numbered (seq + length us) ws
numbered-append seq [] ws = ap (λ n. numbered n ws) (omega arith)
numbered-append seq (u ∷ us) ws =
    ap (λ l. record { name = u.name; base = u.base; node = u.node; mac = mac (suc seq) } ∷ l)
      (numbered-append (suc seq) us ws
        ∙ ap (λ n. numbered (suc seq) us ++ numbered n ws) (omega arith))

-- The state after the instances of `ws` are added.
abbrev after : Out → List Wanted → Out
after (seq, out) ws = (seq + length ws, out ++ numbered seq ws)

after_eq :
    (seq : ℕ) (out out' : List Instance) (n : ℕ) (ws : List Wanted)
    → n ≡ seq + length ws
    → out' ≡ out ++ numbered seq ws
    → ◌≡◌ {A = Out} (n, out') (after (seq, out) ws)
after_eq seq out out' n ws e h = cc

after-append : (o : Out) (us ws : List Wanted) → after (after o us) ws ≡ after o (us ++ ws)
after-append (seq, out) us ws =
    after_eq seq out _ _ (us ++ ws) (omega (arith, length-append us ws))
      (append_assoc out (numbered seq us) _ ∙ ap (λ l. out ++ l) (sym (numbered-append seq us ws)))

after-nil : (o : Out) → o ≡ after o []
after-nil (seq, out) = after_eq seq out out seq [] (omega arith) (sym (append-nil out))

add-after :
    (inst_name base : Text) (n : Node) (o : Out)
    → add inst_name base n o ≡ after o (as_wanted inst_name base n ∷ [])
unfolding add
add-after inst_name base n (seq, out) =
    after_eq seq out _ _ (as_wanted inst_name base n ∷ []) (omega arith) refl

add_copies-after :
    (r i : ℕ) (name : Text) (n : Node) (o : Out)
    → add_copies r i name n o ≡ after o (all_wanted (names_from i r name) name n)
unfolding add_copies
add_copies-after zero i name n o = after-nil o
add_copies-after (suc r) i name n o =
    add_copies-after r (suc i) name n (add (numbered_name name i) name n o)
    ∙ ap (λ p. after p (all_wanted (names_from (suc i) r name) name n))
        (add-after (numbered_name name i) name n o)
    ∙ after-append o (as_wanted (numbered_name name i) name n ∷ [])
        (all_wanted (names_from (suc i) r name) name n)

add_node_step :
    (name : Text) (n : Node) (o : Out)
    → add_node name n o
      ≡ (if below_one n.count then add name name n o else add_copies (rounds n.count) 0 name n o)
unfolding add_node
add_node_step name n o = refl

count-after :
    (c : ℤ) (name : Text) (n : Node) (o : Out)
    → (if below_one c then add name name n o else add_copies (rounds c) 0 name n o)
      ≡ after o (all_wanted (instance_names c name) name n)
count-after (negsuc m) name n o = add-after name name n o
count-after (pos zero) name n o = add-after name name n o
count-after (pos (suc k)) name n o = add_copies-after (suc k) 0 name n o

add_node-after : (name : Text) (n : Node) (o : Out) → add_node name n o ≡ after o (wanted name n)
add_node-after name n o = add_node_step name n o ∙ count-after n.count name n o

add_nodes_cons :
    (nodes : List (Text × Node)) (name : Text) (names : List Text) (o : Out)
    → add_nodes nodes (name ∷ names) o
      ≡ add_nodes nodes names (add_node name (node_at nodes name) o)
unfolding add_nodes
add_nodes_cons nodes name names o = refl

add_nodes-after :
    (nodes : List (Text × Node)) (names : List Text) (o : Out)
    → add_nodes nodes names o ≡ after o (wanted_all (node_at nodes) names)
add_nodes-after nodes [] o = unfold add_nodes in after-nil o
add_nodes-after nodes (name ∷ names) o =
    add_nodes_cons nodes name names o
    ∙ add_nodes-after nodes names (add_node name (node_at nodes name) o)
    ∙ ap (λ p. after p (wanted_all (node_at nodes) names))
        (add_node-after name (node_at nodes name) o)
    ∙ after-append o (wanted name (node_at nodes name)) (wanted_all (node_at nodes) names)

-- `Expand` takes the nodes in the order of their sorted names. A node whose count is 0 or less gives
-- one instance under its own name; a node of count k, where k is 1 or more, gives k instances that are
-- named "<name>-0" to "<name>-(k-1)", so that a count of 1 gives "<name>-0", and not the node's own
-- name. Each instance has the key and the fields of its node, with the count 0, and the instance at
-- place i, from 0 on, has the MAC of i + 1.
pub expand_lem :
    (t : Topology) → expand t ≡ numbered 0 (wanted_all (node_at t.nodes) (sort (keys t.nodes)))
expand_lem t =
    unfold expand in ap (λ (o : Out). o.1) (add_nodes-after t.nodes (sort (keys t.nodes)) (0, []))
