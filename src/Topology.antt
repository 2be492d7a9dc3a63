-- ===== src/Topology.antt =====
-- internal/topology/topology.go: the declarative model of a topology, its validation, and the
-- expansion of node counts into instances. The proofs are in the modules below.
--
-- A Go map is an association list with distinct keys. Its order stands for the order in which a
-- `range` loop happens to visit the keys. Errors are a data type, one constructor for each message.
pub mod Nodes
pub mod Validate
pub mod Accepts
pub mod Expand
pub mod Mac
pub mod Names
pub mod Order
pub mod Load
use klab.Prelude.{
  ℕ, zero, suc, ◌+◌, ◌/◌, ◌%◌, Bool, true, false, List, [], ◌∷◌, ◌++◌, map, Option, none, some,
  Check, ok, ◌>>=◌, ◌>>◌, reject_if, if◌then◌else◌, not,
}
use klab.Prelude.Int.{ℤ, pos, is_negative, below_one, rounds}
use klab.Text.{Text, text_eq, is_empty, str}
use klab.Text.Decimal.{itoa_ℕ}
use klab.Text.Hex.{hex_byte}
use klab.Text.Order.{sort}
use klab.Net.Cidr.{Cidr, parse_cidr}

pub record Node : Type 0 where
  pub driver : Text
  pub kernel : Text
  pub arch : Text
  pub cpu : ℤ
  pub mem : Text
  pub profile : Text
  pub count : ℤ

pub record Link : Type 0 where
  pub name : Text
  pub members : List Text
  pub subnet : Text

pub record Topology : Type 0 where
  pub name : Text
  pub nodes : List (Text × Node)
  pub links : List Link

pub data Error : Type 0 where
  name_required no_nodes link_name_required : Error
  driver_required arch_required negative_count : Text → Error
  duplicate_link no_members : Text → Error
  unknown_node invalid_subnet : Text → Text → Error

-- `m[key]`
unfoldable pub lookup_node : Text → List (Text × Node) → Option Node
lookup_node key [] = none
lookup_node key ((k, n) ∷ m) = if text_eq k key then some n else lookup_node key m

-- `seen[name]`
unfoldable pub contains : List Text → Text → Bool
contains [] x = false
contains (y ∷ ys) x = if text_eq y x then true else contains ys x

pub is_none {ℓ} : {A : Type ℓ} → Option A → Bool
is_none none = true
is_none (some a) = false

pub no_entries {ℓ} : {A : Type ℓ} → List A → Bool
no_entries [] = true
no_entries (x ∷ xs) = false

-- The body of the loop over the nodes.
check_node : Text → Node → Check Error
check_node name n = do
  reject_if (is_empty n.driver) (driver_required name)
  reject_if (is_empty n.arch) (arch_required name)
  reject_if (is_negative n.count) (negative_count name)

pub check_nodes : List (Text × Node) → Check Error
unfolding check_node
check_nodes [] = ok tt
check_nodes ((name, n) ∷ m) = do check_node name n; check_nodes m

check_members : List (Text × Node) → Text → List Text → Check Error
unfolding is_none
check_members nodes link [] = ok tt
check_members nodes link (m ∷ ms) = do
  reject_if (is_none (lookup_node m nodes)) (unknown_node link m)
  check_members nodes link ms

check_subnet : Text → Text → Check Error
unfolding is_none
check_subnet link subnet =
    reject_if (if is_empty subnet then false else is_none (parse_cidr subnet))
      (invalid_subnet link subnet)

-- The body of the loop over the links.
check_link : List (Text × Node) → List Text → Link → Check Error
unfolding check_members check_subnet no_entries
check_link nodes seen l = do
  reject_if (is_empty l.name) link_name_required
  reject_if (contains seen l.name) (duplicate_link l.name)
  reject_if (no_entries l.members) (no_members l.name)
  check_members nodes l.name l.members
  check_subnet l.name l.subnet

-- `seen` holds the names of the links before.
pub check_links : List (Text × Node) → List Text → List Link → Check Error
unfolding check_link
check_links nodes seen [] = ok tt
check_links nodes seen (l ∷ ls) = do check_link nodes seen l; check_links nodes (l.name ∷ seen) ls

-- Topology.Validate
unfoldable pub validate : Topology → Check Error
unfolding check_nodes check_links no_entries
validate t = do
  reject_if (is_empty t.name) name_required
  reject_if (no_entries t.nodes) no_nodes
  check_nodes t.nodes
  check_links t.nodes [] t.links

pub record Instance : Type 0 where
  pub name : Text
  pub base : Text
  pub node : Node
  pub mac : Text

-- `mac(seq)`: `>> 16`, `>> 8` and `& 0xff` are quotients and remainders.
unfoldable pub mac : ℕ → Text
mac seq =
    str "52:54:00:"
    ++ (hex_byte (seq / 65536 % 256)
        ++ b':' ∷ (hex_byte (seq / 256 % 256) ++ b':' ∷ hex_byte (seq % 256)))

-- `seq` and `out` of Expand.
abbrev pub Out : Type 0
Out = ℕ × List Instance

-- The closure `add`.
add : Text → Text → Node → Out → Out
add inst_name base n (seq, out) = (
  suc seq,
  out
      ++ (record {
        name = inst_name;
        base = base;
        node = record n { count = pos 0 };
        mac = mac (suc seq);
      })
        ∷ [],
)

-- `fmt.Sprintf("%s-%d", name, i)`
unfoldable pub numbered_name : Text → ℕ → Text
numbered_name name i = name ++ b'-' ∷ itoa_ℕ i

-- The loop over `i`, with the rounds left.
add_copies : ℕ → ℕ → Text → Node → Out → Out
add_copies zero i name n o = o
add_copies (suc r) i name n o = add_copies r (suc i) name n (add (numbered_name name i) name n o)

abbrev zero_node : Node
zero_node = record {
  driver = [];
  kernel = [];
  arch = [];
  cpu = pos 0;
  mem = [];
  profile = [];
  count = pos 0;
}

or_zero : Option Node → Node
or_zero none = zero_node
or_zero (some n) = n

-- `t.Nodes[name]`, with the zero value for a name that is no key.
pub node_at : List (Text × Node) → Text → Node
unfolding or_zero
node_at nodes name = or_zero (lookup_node name nodes)

-- The body of the loop over the sorted names.
add_node : Text → Node → Out → Out
unfolding add add_copies
add_node name n o =
    if below_one n.count then add name name n o else add_copies (rounds n.count) 0 name n o

pub add_nodes : List (Text × Node) → List Text → Out → Out
unfolding add_node node_at
add_nodes nodes [] o = o
add_nodes nodes (name ∷ names) o = add_nodes nodes names (add_node name (node_at nodes name) o)

abbrev pub keys : List (Text × Node) → List Text
keys [] = []
keys ((k, n) ∷ m) = k ∷ keys m

-- Topology.Expand
unfoldable pub expand : Topology → List Instance
unfolding add_nodes
expand t = (add_nodes t.nodes (sort (keys t.nodes)) (0, [])).1
