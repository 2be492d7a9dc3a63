-- ===== src/Net/Ipv6.antt =====
-- IPv6 addresses: `netip.parseIPv6` and the form in which `netip.Addr` prints them.
use klab.Prelude.{
  ℕ, zero, suc, ◌+◌, ◌-◌, ◌*◌, ◌/◌, ◌%◌, ◌≡◌, refl, Bool, true, false, ◌&&◌, ◌||◌, List, [], ◌∷◌,
  ◌++◌, Option, none, some, leb, ltb, ◌==◌, if◌then◌else◌, length, take, drop,
}
use klab.Text.{Text, str}
use klab.Text.Decimal.{read_nat}
use klab.Text.Split.{split}
use klab.Net.Ipv4.{parse_ipv4}

hex_value : ℕ → Option ℕ
hex_value c =
    if leb b'0' c && leb c b'9'
    then some (c - b'0')
    else if leb b'a' c && leb c b'f'
    then some (c - b'a' + 10)
    else if leb b'A' c && leb c b'F'
    then some (c - b'A' + 10)
    else none

-- The hexadecimal digits at the front: how many, their value, and the rest.
hex_digits : ℕ → ℕ → Text → ℕ × ℕ × Text
hex_digits off acc [] = (off, acc, [])
hex_digits off acc (c ∷ s) = elim (hex_value c) [
  | none ↦ (off, acc, c ∷ s)
  | some d ↦ hex_digits (off + 1) (acc * 16 + d) s
]

zeros : ℕ → List ℕ
zeros zero = []
zeros (suc n) = 0 ∷ zeros n

-- The bytes that were read, with the zeros that the ellipsis stands for.
finish : List ℕ → Option ℕ → Option (List ℕ)
finish ip none = if length ip == 16 then some ip else none
finish ip (some e) =
    if ltb (length ip) 16 then some (take e ip ++ zeros (16 - length ip) ++ drop e ip) else none

-- A trailing IPv4 address, with `ip` read before it.
with_ipv4 : List ℕ → Option ℕ → Option (List ℕ) → Option (List ℕ)
with_ipv4 ip e none = none
with_ipv4 ip e (some v4) = finish (ip ++ v4) e

has_ellipsis : Option ℕ → Bool
has_ellipsis none = false
has_ellipsis (some e) = true

-- A trailing IPv4 address stands behind twelve bytes, or has room for its four.
wrong_place : List ℕ → Option ℕ → Bool
wrong_place ip none = if length ip == 12 then false else true
wrong_place ip (some e) = ltb 12 (length ip)

-- The loop over groups of four digits: `ip` holds the bytes so far and `e` the place of the
-- ellipsis. A group takes two bytes, so eight rounds fill the address.
groups : ℕ → List ℕ → Option ℕ → Text → Option (List ℕ)
groups zero ip e s = none
groups (suc f) ip e s =
    let (off, acc, rest) = hex_digits 0 0 s in
    let ip' = ip ++ (acc / 256) ∷ (acc % 256) ∷ [] in
    if off == 0 || ltb 4 off then none else elim rest [
      | [] ↦ finish ip' e
      | c ∷ r ↦
          if c == b'.'
          then (if wrong_place ip e then none else with_ipv4 ip e (parse_ipv4 s))
          else if c == b':'
          then elim r [
            | [] ↦ none
            | d ∷ t ↦
                if d == b':'
                then (if has_ellipsis e then none else elim t [
                  | [] ↦ finish ip' (some (length ip'))
                  | x ∷ u ↦ groups f ip' (some (length ip')) (x ∷ u)
                ])
                else groups f ip' e (d ∷ t)
          ]
          else none
    ]

-- `netip.parseIPv6`, without a zone: a CIDR text with a zone is refused.
unfoldable pub parse_ipv6 : Text → Option (List ℕ)
unfolding groups hex_digits hex_value finish with_ipv4 has_ellipsis wrong_place zeros
parse_ipv6 (a ∷ b ∷ s) =
    if a == b':' && b == b':'
    then elim s [ [] ↦ some (zeros 16) | c ∷ t ↦ groups 8 [] (some 0) (c ∷ t) ]
    else groups 8 [] none (a ∷ b ∷ s)
parse_ipv6 s = groups 8 [] none s

-- Eight groups of sixteen bits.
words : List ℕ → List ℕ
words (a ∷ b ∷ s) = (a * 256 + b) ∷ words s
words s = []

-- The zeros at the front.
zero_run : List ℕ → ℕ
zero_run [] = 0
zero_run (w ∷ ws) = let n = zero_run ws in if w == 0 then suc n else 0

-- The first longest run of two zeros or more, as its place and length.
longest_run : ℕ → ℕ × ℕ → List ℕ → ℕ × ℕ
longest_run i best [] = best
longest_run i best (w ∷ ws) =
    let l = zero_run (w ∷ ws) in
    longest_run (i + 1) (if leb 2 l && ltb best.1 l then (i, l) else best) ws

lower_digit : ℕ → ℕ
lower_digit d = if ltb d 10 then b'0' + d else b'a' + (d - 10)

-- A group without leading zeros.
hex_word : ℕ → Text
hex_word w =
    if ltb w 16
    then lower_digit w ∷ []
    else if ltb w 256
    then lower_digit (w / 16) ∷ lower_digit (w % 16) ∷ []
    else if ltb w 4096
    then lower_digit (w / 256) ∷ lower_digit (w / 16 % 16) ∷ lower_digit (w % 16) ∷ []
    else lower_digit (w / 4096)
      ∷ lower_digit (w / 256 % 16)
      ∷ lower_digit (w / 16 % 16)
      ∷ lower_digit (w % 16)
      ∷ []

colons : List ℕ → Text
colons [] = []
colons (w ∷ []) = hex_word w
colons (w ∷ v ∷ ws) = hex_word w ++ b':' ∷ colons (v ∷ ws)

-- The form of `netip.Addr.String`: the longest run of zeros is written `::`.
unfoldable pub ipv6_text : List ℕ → Text
unfolding words zero_run longest_run lower_digit hex_word colons
ipv6_text ip =
    let ws = words ip in
    let (i, l) = longest_run 0 (0, 0) ws in
    if l == 0 then colons ws else colons (take i ws) ++ b':' ∷ b':' ∷ colons (drop (i + l) ws)

long_form : parse_ipv6 (str "fd00::1:a") ≡ some (0xfd ∷ zeros 12 ++ 1 ∷ 0 ∷ 10 ∷ [])
unfolding parse_ipv6 str
long_form = refl

printed : ipv6_text (0xfd ∷ 0 ∷ zeros 11 ++ 1 ∷ 0 ∷ 10 ∷ []) ≡ str "fd00::1:a"
unfolding ipv6_text str zeros
printed = refl

refused :
    (parse_ipv6 (str "1:2:3") ≡ none)
    × (parse_ipv6 (str "::12345") ≡ none)
    × (parse_ipv6 (str "1::2::3") ≡ none)
unfolding parse_ipv6 str
refused = (refl, refl, refl)

mapped : parse_ipv6 (str "::ffff:10.0.0.1") ≡ some (zeros 10 ++ 255 ∷ 255 ∷ 10 ∷ 0 ∷ 0 ∷ 1 ∷ [])
unfolding parse_ipv6 str zeros parse_ipv4 split read_nat
mapped = refl
