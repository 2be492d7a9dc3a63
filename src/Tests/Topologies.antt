-- ===== src/Tests/Topologies.antt =====
-- The topology of the tests, and the theorems on internal/topology and on `Plan` at it.
use mathlib.Core.List.{Permᴰ}
use klab.Prelude.{
  ℕ, suc, true, false, ◌≡◌, ◌↔◌, ◌≤◌, refl, [], ◌∷◌, ok, length, Distinct, All, Option, some, none,
  if◌then◌else◌, arith,
}
use klab.Prelude.Int.{pos}
use klab.Text.{Text, str, text_eq, is_empty}
use klab.Text.Order.{sort, text_leb}
use klab.Text.Decimal.{read_nat}
use klab.Text.Split.{cut, split}
use klab.Net.Ipv4.{parse_ipv4}
use klab.Net.Cidr.{parse_cidr}
use klab.Driver.{ExecResult}
use klab.Exec.{RunResult}
use klab.Qemu.{capabilities}
use klab.Runner.Resolve.{parse_mem}
use klab.Runner.Resolve.{check_caps}
use klab.Runner.Resolve.Suitable.{Suits, check_caps_iff}
use klab.Runner.Cluster.{Lab, up, down, status, delete_devices, device_names, stop_all}
use klab.Topology.Names.{names_of}
use klab.Topology.{
  Instance, contains, lookup_node, Node, Link, Topology, validate, expand, node_at, keys,
}
use klab.Topology.Validate.{IsValid}
use klab.Topology.Accepts.{validate_iff}
use klab.Topology.Expand.{numbered, wanted_all, expand_lem}
use klab.Topology.Mac.{macs, expand-macs-Distinct}
use klab.Runner.Cluster.Order.{cluster-Perm}
use klab.Runner.Plan.{member_names, by_base, Tap, plan}
use klab.Runner.Plan.Numbering.{wanted_plan}
use klab.Runner.Plan.Success.{plan-IsValid, plan-taps_differ, AllDiffer}

abbrev pub worker : Node
worker = record {
  driver = str "qemu";
  kernel = str "v6.12";
  arch = str "arm64";
  cpu = pos 2;
  mem = str "512M";
  profile = [];
  count = pos 2;
}

abbrev pub head : Node
head = record worker { count = pos 0 }

abbrev pub lan : Link
lan = record {
  name = str "lan";
  members = str "head" ∷ str "worker" ∷ [];
  subnet = str "10.10.0.0/24";
}

abbrev pub cluster : Topology
cluster = record {
  name = str "cluster";
  nodes = (str "worker", worker) ∷ (str "head", head) ∷ [];
  links = lan ∷ [];
}

-- The same map, visited in the other order.
abbrev reordered : Topology
reordered = record cluster { nodes = (str "head", head) ∷ (str "worker", worker) ∷ [] }

cluster_validates : validate cluster ≡ ok tt
unfolding validate is_empty str contains lookup_node text_eq parse_cidr cut parse_ipv4 split
    read_nat
cluster_validates = refl

cluster_instances : length (expand cluster) ≡ 3
unfolding expand sort text_leb str lookup_node text_eq
cluster_instances = refl

pub cluster-IsValid : IsValid cluster
cluster-IsValid = (validate_iff cluster).0 cluster_validates

abbrev read_file : Text → Option Text
read_file path = if text_eq path (str "cluster.yaml") then some (str "name: cluster") else none

abbrev unmarshal : Text → Option Topology
unmarshal bytes = some cluster

validate_iff_example : (validate cluster ≡ ok tt) ↔ IsValid cluster
validate_iff_example = validate_iff cluster

expand_lem_example :
    expand cluster ≡ numbered 0 (wanted_all (node_at cluster.nodes) (sort (keys cluster.nodes)))
expand_lem_example = expand_lem cluster

expand-macs-Distinct_example : Distinct (macs (expand cluster))
expand-macs-Distinct_example = expand-macs-Distinct cluster (omega (arith, cluster_instances))

pub keys-Distinct : Distinct (keys cluster.nodes)
unfolding str
keys-Distinct = (((λ e. cc), tt), (tt, tt))

plan-IsValid_example : plan cluster ≡ ok (wanted_plan cluster)
plan-IsValid_example = plan-IsValid cluster cluster-IsValid

cluster_taps : length (wanted_plan cluster).taps ≡ 3
unfolding expand sort text_leb str lookup_node text_eq parse_cidr member_names by_base
cluster_taps = refl

plan-taps_differ_example :
    AllDiffer (wanted_plan cluster).taps
    × All (λ (u : Tap). length u.name ≤ 15) (wanted_plan cluster).taps
plan-taps_differ_example =
    plan-taps_differ cluster cluster-IsValid (wanted_plan cluster)
      (plan-IsValid cluster cluster-IsValid) (omega (arith, cluster_taps))

-- A lab that counts what it was asked to do, and in which all succeeds.
abbrev pub done : ExecResult
done = record { exit_code = pos 0; stdout = []; stderr = [] }

abbrev pub quiet : RunResult
quiet = record { exit_code = pos 0; stdout = []; stderr = [] }

abbrev pub lab : Lab ℕ
lab = record {
  home = str "/home/klab";
  base = str "/rootfs";
  capabilities = capabilities;
  run = λ argv w. (suc w, record { result = quiet; failed = false });
  image = λ kernel w. (w, some (str "/cache/Image"));
  boot = λ spec w. (suc w, true);
  exec = λ allowed node argv w. (suc w, some done);
  stop = λ node w. (suc w, true);
}

-- A bridge, three taps, three roots, three boots and three addresses.
cluster_comes_up : up lab cluster 0 ≡ (13, ok tt)
unfolding up klab.Runner.Cluster.up_plan klab.Runner.Cluster.and_then klab.Runner.Cluster.each
    klab.Runner.Cluster.create_bridge klab.Runner.Cluster.ran klab.Runner.Cluster.sudo_bash
    klab.Runner.Cluster.create_tap klab.Runner.Cluster.assign_ip klab.Runner.Cluster.assigned
    klab.Runner.Cluster.boot_image klab.Runner.Cluster.boot_instance klab.Runner.Cluster.boot_spec
    klab.Runner.Cluster.booted klab.Runner.Cluster.checked klab.Runner.Cluster.prep_rootfs plan
    klab.Runner.Plan.link_net member_names by_base klab.Runner.Plan.add_to_ipv4
    klab.Runner.Plan.bytes_of klab.Runner.Plan.tap_ip klab.Net.Cidr.network_address
    klab.Net.Cidr.to4 parse_cidr klab.Net.Mask.mask_bytes klab.Net.Ipv4.ipv4_text parse_ipv4
    klab.Driver.can_run_arch capabilities klab.Runner.Resolve.check_caps
    klab.Runner.Resolve.parse_mem klab.Runner.Resolve.resolve_boot_spec is_empty str text_eq
    read_nat klab.Text.Decimal.read_digits klab.Text.Decimal.atoi klab.Text.Decimal.itoa_ℕ sort
    klab.Text.Order.insert text_leb split cut klab.Text.Split.push klab.Text.Space.trim_space expand
    lookup_node
cluster_comes_up = refl

abbrev AnyCount : ℕ → Type 0
AnyCount n = Unit {0}

check_caps_iff_example :
    (check_caps (str "qemu") worker lab.capabilities ≡ ok tt) ↔ Suits worker lab.capabilities
check_caps_iff_example = check_caps_iff (str "qemu") worker lab.capabilities

-- Two instances of one name: the first copy of "web", and the node "web-0".
abbrev twins : Topology
twins = record cluster {
  nodes = (str "web", record worker { count = pos 1 }) ∷ (str "web-0", head) ∷ [];
  links = [];
}

twins_accepted : validate twins ≡ ok tt
unfolding validate is_empty str contains lookup_node text_eq
twins_accepted = refl

twins_collide : names_of (expand twins) ≡ str "web-0" ∷ str "web-0" ∷ []
unfolding expand sort text_leb str lookup_node text_eq klab.Topology.numbered_name
    klab.Text.Decimal.itoa_ℕ
twins_collide = refl

cluster-Perm_example :
    (up lab cluster 0 ≡ up lab reordered 0)
    × (down lab cluster 0 ≡ down lab reordered 0)
    × (status lab cluster 0 ≡ status lab reordered 0)
cluster-Perm_example =
    cluster-Perm lab cluster reordered 0 (Permᴰ.swap refl refl) keys-Distinct refl
