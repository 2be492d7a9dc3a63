-- ===== src/Net/Ipv4.antt =====
-- IPv4 addresses in dotted decimal form.
pub mod Print
use klab.Prelude.{
  ℕ, zero, suc, ◌+◌, ◌*◌, ◌/◌, ◌%◌, ◌^◌, ◌<◌, ◌≡◌, refl, Bool, true, false, ◌&&◌, List, [], ◌∷◌,
  ◌++◌, Option, none, some, arith, leb, ltb, ◌==◌, if◌then◌else◌, All,
}
use klab.Text.{Text}
use klab.Text.Decimal.{read_nat, itoa_ℕ}
use klab.Text.Split.{split}

-- A zero in front of another digit.
leading_zero : Text → Bool
leading_zero (c ∷ d ∷ s) = c == b'0'
leading_zero s = false

in_octet : Option ℕ → Option ℕ
in_octet none = none
in_octet (some n) = if leb n 255 then some n else none

-- One field: one digit or more, no leading zero, at most 255.
octet : Text → Option ℕ
octet s = if leading_zero s then none else in_octet (read_nat s)

four_fields : List (Option ℕ) → Option (List ℕ)
four_fields (some a ∷ some b ∷ some c ∷ some d ∷ []) = some (a ∷ b ∷ c ∷ d ∷ [])
four_fields fs = none

octets : List Text → List (Option ℕ)
octets [] = []
octets (p ∷ ps) = octet p ∷ octets ps

-- `netip.parseIPv4`: four fields between dots.
unfoldable pub parse_ipv4 : Text → Option (List ℕ)
unfolding octets octet four_fields leading_zero in_octet
parse_ipv4 s = four_fields (octets (split b'.' s))

-- The dotted decimal form.
unfoldable pub ipv4_text : List ℕ → Text
ipv4_text (a ∷ b ∷ c ∷ d ∷ []) =
    itoa_ℕ a ++ b'.' ∷ (itoa_ℕ b ++ b'.' ∷ (itoa_ℕ c ++ b'.' ∷ itoa_ℕ d))
ipv4_text s = []
