-- ===== src/Net/Cidr.antt =====
-- `net.ParseCIDR`, `IP.Mask`, `IP.To4` and `IP.String`.
use klab.Prelude.{
  ℕ, ◌*◌, ◌≡◌, refl, Bool, false, ◌&&◌, List, [], ◌∷◌, Option, none, some, leb, ◌==◌, if◌then◌else◌,
  length, drop,
}
use klab.Text.{Text, str}
use klab.Text.Decimal.{read_nat}
use klab.Text.Split.{cut, split}
use klab.Net.Ipv4.{parse_ipv4, ipv4_text}
use klab.Net.Ipv6.{parse_ipv6, ipv6_text}
use klab.Net.Mask.{mask_bytes}

-- The address of a CIDR text, in as many bytes as its mask has, and the length of the prefix.
pub record Cidr : Type 0 where
  pub ip : List ℕ
  pub ones : ℕ

-- `netip.ParseAddr`: the first dot or colon tells the family.
unfoldable pub parse_addr_from : Text → Text → Option (List ℕ)
parse_addr_from s [] = none
parse_addr_from s (c ∷ t) =
    if c == b'.' then parse_ipv4 s else if c == b':' then parse_ipv6 s else parse_addr_from s t

prefix_length : List ℕ → Option ℕ → Option Cidr
prefix_length ip none = none
prefix_length ip (some n) =
    if leb n (8 * length ip) then some (record { ip = ip; ones = n }) else none

with_length : Text → Option (List ℕ) → Option Cidr
unfolding prefix_length
with_length mask none = none
with_length mask (some ip) = prefix_length ip (read_nat mask)

at_slash : Option (Text × Text) → Option Cidr
unfolding with_length parse_addr_from
at_slash none = none
at_slash (some (addr, mask)) = with_length mask (parse_addr_from addr addr)

-- net.ParseCIDR
unfoldable pub parse_cidr : Text → Option Cidr
unfolding at_slash
parse_cidr s = at_slash (cut b'/' s)

-- `ip.Mask(n.Mask)`: the network's address.
unfoldable pub network_address : Cidr → List ℕ
network_address c = mask_bytes c.ones c.ip

is_mapped : List ℕ → Bool
is_mapped (a ∷ b ∷ c ∷ d ∷ e ∷ f ∷ g ∷ h ∷ i ∷ j ∷ k ∷ l ∷ ip) =
    a == 0
    && b == 0
    && c == 0
    && d == 0
    && e == 0
    && f == 0
    && g == 0
    && h == 0
    && i == 0
    && j == 0
    && k == 255
    && l == 255
is_mapped ip = false

-- `IP.To4`: the four bytes of an IPv4 address, also of one in its sixteen-byte form.
unfoldable pub to4 : List ℕ → Option (List ℕ)
unfolding is_mapped
to4 ip =
    if length ip == 4
    then some ip
    else if length ip == 16 && is_mapped ip
    then some (drop 12 ip)
    else none

-- IP.String
unfoldable pub ip_text : List ℕ → Text
ip_text ip = elim (to4 ip) [ none ↦ ipv6_text ip | some v4 ↦ ipv4_text v4 ]

private_net :
    parse_cidr (str "192.168.100.0/24") ≡ some (record { ip = 192 ∷ 168 ∷ 100 ∷ 0 ∷ []; ones = 24 })
unfolding parse_cidr parse_ipv4 str cut split read_nat
private_net = refl

refused :
    (parse_cidr (str "not-a-cidr") ≡ none)
    × (parse_cidr (str "10.0.0.1/33") ≡ none)
    × (parse_cidr (str "10.0.01.1/8") ≡ none)
    × (parse_cidr (str "10.0.0/8") ≡ none)
unfolding parse_cidr parse_ipv4 str cut split read_nat
refused = (refl, refl, refl, refl)
