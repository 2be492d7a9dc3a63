-- ===== src/Topology/Validate.antt =====
-- The checks of `Validate`, each against what it demands.
use klab.Prelude.{
  ◌≡◌, ◌≢◌, ◌↔◌, ◌⊎◌, inl, inr, refl, false, List, [], ◌∷◌, some, arith, ok, ◌>>◌, reject_if, >>-ok,
  ok->>, reject_if-ok, ok-reject_if, sym, ◌∙◌, Option-cases, All, Distinct,
}
use klab.Prelude.Int.{ℤ, pos, negsuc}
use klab.Text.{Text, is_empty}
use klab.Net.Cidr.{Cidr, parse_cidr}
use klab.Topology.{
  Node, Link, Topology, link_name_required, duplicate_link, no_members, unknown_node, lookup_node,
  is_none, no_entries, contains, check_node, check_nodes, check_members, check_subnet, check_link,
  check_links,
}
use klab.Topology.Nodes.{IsNode, lookup_node-IsNode, IsNode-lookup_node, contains-All, All-contains}

abbrev pub IsNonNegative : ℤ → Type 0
IsNonNegative (pos n) = Unit
IsNonNegative (negsuc n) = ⊥

abbrev pub NodeIsValid : Text × Node → Type 0
NodeIsValid (name, n) = (n.driver ≢ []) × (n.arch ≢ []) × IsNonNegative n.count

abbrev pub SubnetIsValid : Text → Type 0
SubnetIsValid s = (s ≡ []) ⊎ ((c : Cidr) × (parse_cidr s ≡ some c))

abbrev pub LinkIsValid : List (Text × Node) → Link → Type 0
LinkIsValid nodes l =
    (l.name ≢ []) × (l.members ≢ []) × All (IsNode nodes) l.members × SubnetIsValid l.subnet

abbrev pub link_names : List Link → List Text
link_names [] = []
link_names (l ∷ ls) = l.name ∷ link_names ls

-- What a topology must satisfy.
pub record IsValid (t : Topology) : Type 0 where
  pub named : t.name ≢ []
  pub inhabited : t.nodes ≢ []
  pub nodes_valid : All NodeIsValid t.nodes
  pub links_valid : All (LinkIsValid t.nodes) t.links
  pub links_distinct : Distinct (link_names t.links)

pub is_empty_iff : (s : Text) → (is_empty s ≡ false) ↔ (s ≢ [])
unfolding is_empty
is_empty_iff [] = (λ h. cc, λ h. absurd (h refl))
is_empty_iff (c ∷ s) = (λ h. cc, λ h. refl)

check_node-ok : (name : Text) (n : Node) → check_node name n ≡ ok tt → NodeIsValid (name, n)
unfolding check_node is_empty
check_node-ok name n h = ground arith

ok-check_node : (name : Text) (n : Node) → NodeIsValid (name, n) → check_node name n ≡ ok tt
unfolding check_node is_empty
ok-check_node name n h = ground arith

check_members_cons :
    (nodes : List (Text × Node)) (l m : Text) (ms : List Text)
    → check_members nodes l (m ∷ ms)
      ≡ (reject_if (is_none (lookup_node m nodes)) (unknown_node l m) >> check_members nodes l ms)
unfolding check_members
check_members_cons nodes l m ms = refl

check_nodes_cons :
    (name : Text) (n : Node) (m : List (Text × Node))
    → check_nodes ((name, n) ∷ m) ≡ (check_node name n >> check_nodes m)
unfolding check_nodes
check_nodes_cons name n m = refl

pub check_nodes-ok : (m : List (Text × Node)) → check_nodes m ≡ ok tt → All NodeIsValid m
check_nodes-ok [] h = tt
check_nodes-ok ((name, n) ∷ m) h =
    let (one, rest) =
      >>-ok (check_node name n) (check_nodes m) (sym (check_nodes_cons name n m) ∙ h) in
    (check_node-ok name n one, check_nodes-ok m rest)

pub ok-check_nodes : (m : List (Text × Node)) → All NodeIsValid m → check_nodes m ≡ ok tt
ok-check_nodes [] h = unfold check_nodes in refl
ok-check_nodes ((name, n) ∷ m) (one, rest) =
    check_nodes_cons name n m
    ∙ ok->> (check_node name n) (check_nodes m) (ok-check_node name n one) (ok-check_nodes m rest)

check_link_steps :
    (nodes : List (Text × Node)) (seen : List Text) (l : Link)
    → check_link nodes seen l ≡ (
        reject_if (is_empty l.name) link_name_required
        >> (reject_if (contains seen l.name) (duplicate_link l.name)
            >> (reject_if (no_entries l.members) (no_members l.name)
                >> (check_members nodes l.name l.members >> check_subnet l.name l.subnet))))
unfolding check_link
check_link_steps nodes seen l = refl

check_links_cons :
    (nodes : List (Text × Node)) (seen : List Text) (l : Link) (ls : List Link)
    → check_links nodes seen (l ∷ ls)
      ≡ (check_link nodes seen l >> check_links nodes (l.name ∷ seen) ls)
unfolding check_links
check_links_cons nodes seen l ls = refl

pub no_entries-ne {ℓ} : {A : Type ℓ} (xs : List A) → no_entries xs ≡ false → xs ≢ []
unfolding no_entries
no_entries-ne [] h = cc
no_entries-ne (x ∷ xs) h = λ e. cc e

pub ne-no_entries {ℓ} : {A : Type ℓ} (xs : List A) → xs ≢ [] → no_entries xs ≡ false
unfolding no_entries
ne-no_entries [] h = absurd (h refl)
ne-no_entries (x ∷ xs) h = refl

check_members-ok :
    (nodes : List (Text × Node)) (l : Text) (ms : List Text)
    → check_members nodes l ms ≡ ok tt
    → All (IsNode nodes) ms
check_members-ok nodes l [] h = tt
check_members-ok nodes l (m ∷ ms) h =
    let (one, rest) =
      >>-ok (reject_if (is_none (lookup_node m nodes)) (unknown_node l m))
        (check_members nodes l ms) (sym (check_members_cons nodes l m ms) ∙ h) in
    (lookup_node-IsNode m nodes (reject_if-ok _ _ one), check_members-ok nodes l ms rest)

ok-check_members :
    (nodes : List (Text × Node)) (l : Text) (ms : List Text)
    → All (IsNode nodes) ms
    → check_members nodes l ms ≡ ok tt
ok-check_members nodes l [] h = unfold check_members in refl
ok-check_members nodes l (m ∷ ms) (one, rest) =
    check_members_cons nodes l m ms
    ∙ ok->> _ (check_members nodes l ms)
        (ok-reject_if (is_none (lookup_node m nodes)) (unknown_node l m)
          (IsNode-lookup_node m nodes one))
        (ok-check_members nodes l ms rest)

check_subnet-ok : (l s : Text) → check_subnet l s ≡ ok tt → SubnetIsValid s
unfolding check_subnet is_empty
check_subnet-ok l [] h = inl refl
check_subnet-ok l (c ∷ s) h = elim (Option-cases (parse_cidr (c ∷ s))) [
  | inl e ↦ cc (rw e at h)
  | inr p ↦ inr p
]

ok-check_subnet : (l s : Text) → SubnetIsValid s → check_subnet l s ≡ ok tt
unfolding check_subnet is_empty
ok-check_subnet l [] h = refl
ok-check_subnet l (c ∷ s) (inl e) = cc
ok-check_subnet l (c ∷ s) (inr (r, e)) = rw e

check_link-ok :
    (nodes : List (Text × Node)) (seen : List Text) (l : Link)
    → check_link nodes seen l ≡ ok tt
    → LinkIsValid nodes l × All (λ y. y ≢ l.name) seen
check_link-ok nodes seen l h =
    let (named, h1) = >>-ok _ _ (sym (check_link_steps nodes seen l) ∙ h) in
    let (fresh, h2) = >>-ok _ _ h1 in
    let (some_member, h3) = >>-ok _ _ h2 in
    let (members, subnet) = >>-ok _ _ h3 in
    (
      (
        (is_empty_iff l.name).0 (reject_if-ok _ _ named),
        no_entries-ne l.members (reject_if-ok _ _ some_member),
        check_members-ok nodes l.name l.members members,
        check_subnet-ok l.name l.subnet subnet,
      ),
      contains-All seen l.name (reject_if-ok _ _ fresh),
    )

ok-check_link :
    (nodes : List (Text × Node)) (seen : List Text) (l : Link)
    → LinkIsValid nodes l
    → All (λ y. y ≢ l.name) seen
    → check_link nodes seen l ≡ ok tt
ok-check_link nodes seen l (named, some_member, members, subnet) fresh =
    check_link_steps nodes seen l
    ∙ ok->> _ _ (ok-reject_if _ _ ((is_empty_iff l.name).1 named)) (
        ok->> _ _ (ok-reject_if _ _ (All-contains seen l.name fresh)) (
          ok->> _ _ (ok-reject_if _ _ (ne-no_entries l.members some_member)) (
            ok->> _ _ (ok-check_members nodes l.name l.members members)
              (ok-check_subnet l.name l.subnet subnet))))

-- The names of the links are distinct, and none was seen before.
abbrev pub Fresh : List Text → List Link → Type 0
Fresh seen [] = Unit
Fresh seen (l ∷ ls) = All (λ y. y ≢ l.name) seen × Fresh (l.name ∷ seen) ls

pub check_links-ok :
    (nodes : List (Text × Node)) (seen : List Text) (ls : List Link)
    → check_links nodes seen ls ≡ ok tt
    → All (LinkIsValid nodes) ls × Fresh seen ls
check_links-ok nodes seen [] h = (tt, tt)
check_links-ok nodes seen (l ∷ ls) h =
    let (one, rest) = >>-ok _ _ (sym (check_links_cons nodes seen l ls) ∙ h) in
    let (valid, fresh) = check_link-ok nodes seen l one in
    let (valids, freshs) = check_links-ok nodes (l.name ∷ seen) ls rest in
    ((valid, valids), (fresh, freshs))

pub ok-check_links :
    (nodes : List (Text × Node)) (seen : List Text) (ls : List Link)
    → All (LinkIsValid nodes) ls
    → Fresh seen ls
    → check_links nodes seen ls ≡ ok tt
ok-check_links nodes seen [] h f = unfold check_links in refl
ok-check_links nodes seen (l ∷ ls) (valid, valids) (fresh, freshs) =
    check_links_cons nodes seen l ls
    ∙ ok->> _ _ (ok-check_link nodes seen l valid fresh)
        (ok-check_links nodes (l.name ∷ seen) ls valids freshs)
