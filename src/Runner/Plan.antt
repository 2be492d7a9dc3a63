-- ===== src/Runner/Plan.antt =====
-- internal/runner/plan.go: bridges, taps, MACs and addresses of a topology. The proofs are in the
-- modules below. An error is the link and the subnet that does not parse.
pub mod Names
pub mod Numbering
pub mod Success
pub mod Addresses
pub mod Words
pub mod Order
use klab.Prelude.{
  ℕ, zero, suc, ◌+◌, ◌*◌, ◌/◌, ◌%◌, ◌^◌, Bool, true, false, List, [], ◌∷◌, ◌++◌, Option, none, some,
  Result, ok, err, ◌>>=◌, ltb, if◌then◌else◌, length, take,
}
use klab.Text.{Text, str, text_eq, is_empty}
use klab.Text.Decimal.{itoa_ℕ}
use klab.Text.Hex.{hex_byte}
use klab.Net.Ipv4.{ipv4_text}
use klab.Net.Cidr.{Cidr, parse_cidr, network_address, to4, ip_text}
use klab.Topology.{Node, Link, Topology, Instance, expand}

pub record Bridge : Type 0 where
  pub name : Text
  pub link : Text
  pub subnet : Text

pub record Tap : Type 0 where
  pub name : Text
  pub bridge : Text
  pub node : Text
  pub mac : Text
  pub ip : Text

pub record NetPlan : Type 0 where
  pub bridges : List Bridge
  pub taps : List Tap

pub data PlanError : Type 0 where
  invalid_subnet : Text → Text → PlanError

-- `bridgeName`: an interface name has at most 15 bytes.
unfoldable pub bridge_name : Text → Text
bridge_name link = let n = str "klbr-" ++ link in if ltb 15 (length n) then take 15 n else n

-- macFor
unfoldable pub mac_for : ℕ → Text
mac_for seq =
    str "52:54:00:"
    ++ (hex_byte (seq / 65536 % 256)
        ++ b':' ∷ (hex_byte (seq / 256 % 256) ++ b':' ∷ hex_byte (seq % 256)))

-- The four bytes of a uint32.
unfoldable pub bytes_of : ℕ → List ℕ
bytes_of val = (val / 16777216 % 256) ∷ (val / 65536 % 256) ∷ (val / 256 % 256) ∷ (val % 256) ∷ []

-- The sum in uint32. The shifted bytes of `val` do not overlap, so `|` is `+`.
add_bytes : List ℕ → ℕ → Text
add_bytes (a ∷ b ∷ c ∷ d ∷ []) n =
    ipv4_text (bytes_of ((a * 16777216 + b * 65536 + c * 256 + d + n) % 2 ^ 32))
add_bytes ip n = []

-- addToIPv4
unfoldable pub add_to_ipv4 : List ℕ → ℕ → Text
unfolding add_bytes bytes_of
add_to_ipv4 base n = elim (to4 base) [ none ↦ ip_text base | some v4 ↦ add_bytes v4 n ]

-- `byBase[key]`: the instances that came from a key, in the order of the expansion.
unfoldable pub by_base : List Instance → Text → List Text
by_base [] key = []
by_base (i ∷ is) key =
    let rest = by_base is key in if text_eq i.base key then i.name ∷ rest else rest

-- The instances of a link's members, in the order of the members.
unfoldable pub member_names : List Instance → List Text → List Text
member_names is [] = []
member_names is (m ∷ ms) = by_base is m ++ member_names is ms

-- `ipnet` and `base`: no network if the link has no subnet.
parsed_subnet : Text → Text → Option Cidr → Result PlanError (Option Cidr)
parsed_subnet link subnet none = err (invalid_subnet link subnet)
parsed_subnet link subnet (some c) = ok (some c)

unfoldable pub link_net : Link → Result PlanError (Option Cidr)
unfolding parsed_subnet
link_net l =
    if is_empty l.subnet then ok none else parsed_subnet l.name l.subnet (parse_cidr l.subnet)

-- The address of the member at place `i` (from 0), with the length of the prefix.
unfoldable pub tap_ip : Option Cidr → ℕ → Text
tap_ip none i = []
tap_ip (some c) i = add_to_ipv4 (network_address c) (i + 1) ++ b'/' ∷ itoa_ℕ c.ones

-- `seq` and `np.Taps`.
abbrev pub Taps : Type 0
Taps = ℕ × List Tap

unfoldable pub tap_name : ℕ → Text
tap_name seq = str "klabtap" ++ itoa_ℕ seq

-- The loop over the members of a link.
add_taps : Text → Option Cidr → ℕ → List Text → Taps → Taps
add_taps br net i [] o = o
add_taps br net i (name ∷ names) (seq, taps) = add_taps br net (suc i) names (
  suc seq,
  taps
      ++ (record {
        name = tap_name (suc seq);
        bridge = br;
        node = name;
        mac = mac_for (suc seq);
        ip = tap_ip net i;
      })
        ∷ [],
)

-- `seq` and `np`.
abbrev pub PlanState : Type 0
PlanState = ℕ × NetPlan

-- The body of the loop over the links.
add_link : List Instance → Link → PlanState → Result PlanError PlanState
add_link is l (seq, np) = do
  let br = bridge_name l.name
  let bridges = np.bridges ++ (record { name = br; link = l.name; subnet = l.subnet }) ∷ []
  net ← link_net l
  let (seq', taps) = add_taps br net 0 (member_names is l.members) (seq, np.taps)
  ok (seq', record { bridges = bridges; taps = taps })

add_links : List Instance → List Link → PlanState → Result PlanError PlanState
unfolding add_link
add_links is [] s = ok s
add_links is (l ∷ ls) s = do s' ← add_link is l s; add_links is ls s'

-- `Plan`: the bridges and taps of all links.
unfoldable pub plan : Topology → Result PlanError NetPlan
unfolding add_links add_taps
plan t = do s ← add_links (expand t) t.links (0, record { bridges = []; taps = [] }); ok s.1
