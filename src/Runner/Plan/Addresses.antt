-- ===== src/Runner/Plan/Addresses.antt =====
-- The addresses that `Plan` gives to the members of a link with an IPv4 subnet, and those of an
-- IPv6 subnet.
use klab.Prelude.{ℕ, ◌+◌, ◌^◌, ◌≤◌, ◌<◌, ◌≡◌, arith, none, some}
use klab.Net.Cidr.{Cidr, network_address, to4}
use klab.Net.Mask.{address, network, IsIpv4}
use klab.Runner.Plan.{bytes_of, add_to_ipv4, tap_ip}

-- A CIDR text of an IPv4 network.
pub record IsIpv4Cidr (c : Cidr) : Type 0 where
  pub four : IsIpv4 c.ip
  pub prefix : c.ones ≤ 32

-- The number of the member at place `i`.
abbrev pub member_address : Cidr → ℕ → ℕ
member_address c i = network c.ones (address c.ip) + (i + 1)

pub address-bytes_of : (v : ℕ) → v < 2 ^ 32 → address (bytes_of v) ≡ v
unfolding bytes_of
address-bytes_of v h = omega arith

-- On a network whose address has no IPv4 form, all members of a link get one and the same address.
pub tap_ip_not_ipv4 :
    (c : Cidr) (i j : ℕ) → to4 (network_address c) ≡ none → tap_ip (some c) i ≡ tap_ip (some c) j
unfolding tap_ip add_to_ipv4
tap_ip_not_ipv4 c i j h = rw (h, add_to_ipv4)
