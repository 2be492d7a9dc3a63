-- ===== src/Text/Base64.antt =====
-- base64.StdEncoding: EncodeToString, and a reader of what it writes.
use mathlib.Core.Path.{ap₂}
use klab.Prelude.{
  ℕ, ◌+◌, ◌-◌, ◌*◌, ◌/◌, ◌%◌, ◌<◌, ◌≡◌, refl, ap, false, [], ◌∷◌, ◌++◌, arith, leb, ltb, ◌==◌, ◌&&◌,
  if◌then◌else◌, All,
}
use klab.Text.Defs.{Text}

-- The character of a six-bit number.
unfoldable pub sextet : ℕ → ℕ
sextet v =
    if ltb v 26
    then v + b'A'
    else if ltb v 52
    then v - 26 + b'a'
    else if ltb v 62
    then v - 52 + b'0'
    else if v == 62
    then b'+'
    else b'/'

-- Three bytes are four characters. The last group is padded.
unfoldable pub encode : Text → Text
unfolding sextet
encode [] = []
encode (a ∷ []) = sextet (a / 4) ∷ sextet (a % 4 * 16) ∷ b'=' ∷ b'=' ∷ []
encode (a ∷ b ∷ []) =
    sextet (a / 4) ∷ sextet (a % 4 * 16 + b / 16) ∷ sextet (b % 16 * 4) ∷ b'=' ∷ []
encode (a ∷ b ∷ c ∷ s) =
    sextet (a / 4)
    ∷ sextet (a % 4 * 16 + b / 16)
    ∷ sextet (b % 16 * 4 + c / 64)
    ∷ sextet (c % 64)
    ∷ encode s

-- The number of a character: 64 for the padding, and for all else.
unfoldable pub value_of : ℕ → ℕ
value_of c =
    if leb b'A' c && leb c b'Z'
    then c - b'A'
    else if leb b'a' c && leb c b'z'
    then c - b'a' + 26
    else if leb b'0' c && leb c b'9'
    then c - b'0' + 52
    else if c == b'+'
    then 62
    else if c == b'/'
    then 63
    else 64

-- The bytes of a group: one or two where it is padded.
unfoldable pub group : ℕ → ℕ → ℕ → ℕ → Text
unfolding value_of
group w x y z =
    let first = value_of w * 4 + value_of x / 16 in
    let second = value_of x % 16 * 16 + value_of y / 4 in
    let third = value_of y % 4 * 64 + value_of z in
    if y == b'='
    then first ∷ []
    else if z == b'='
    then first ∷ second ∷ []
    else first ∷ second ∷ third ∷ []

-- A reader of padded groups.
unfoldable pub decode : Text → Text
unfolding group
decode (w ∷ x ∷ y ∷ z ∷ s) = group w x y z ++ decode s
decode _ = []

value_of-sextet : (v : ℕ) → v < 64 → value_of (sextet v) ≡ v
unfolding value_of sextet
value_of-sextet v h = ground arith

sextet_pad : (v : ℕ) → v < 64 → (sextet v == b'=') ≡ false
unfolding sextet
sextet_pad v h = ground arith

-- The three bytes of a full group.
group_three :
    (a b c : ℕ)
    → a < 256
    → b < 256
    → c < 256
    → group
        (sextet (a / 4))
        (sextet (a % 4 * 16 + b / 16))
        (sextet (b % 16 * 4 + c / 64))
        (sextet (c % 64))
      ≡ a ∷ b ∷ c ∷ []
unfolding group
group_three a b c ha hb hc =
    rw
      (
        sextet_pad (b % 16 * 4 + c / 64) (omega arith),
        sextet_pad (c % 64) (omega arith),
        value_of-sextet (a / 4) (omega arith),
        value_of-sextet (a % 4 * 16 + b / 16) (omega arith),
        value_of-sextet (b % 16 * 4 + c / 64) (omega arith),
        value_of-sextet (c % 64) (omega arith),
      )
      (ap₂ (λ x r. x ∷ r) (omega arith)
        (ap₂ (λ x r. x ∷ r) (omega arith) (ap (λ x. x ∷ []) (omega arith))))

group_two :
    (a b : ℕ)
    → a < 256
    → b < 256
    → group (sextet (a / 4)) (sextet (a % 4 * 16 + b / 16)) (sextet (b % 16 * 4)) b'=' ≡ a ∷ b ∷ []
unfolding group
group_two a b ha hb =
    rw
      (
        sextet_pad (b % 16 * 4) (omega arith),
        value_of-sextet (a / 4) (omega arith),
        value_of-sextet (a % 4 * 16 + b / 16) (omega arith),
        value_of-sextet (b % 16 * 4) (omega arith),
      )
      (ap₂ (λ x r. x ∷ r) (omega arith) (ap (λ x. x ∷ []) (omega arith)))

group_one : (a : ℕ) → a < 256 → group (sextet (a / 4)) (sextet (a % 4 * 16)) b'=' b'=' ≡ a ∷ []
unfolding group
group_one a ha =
    rw (value_of-sextet (a / 4) (omega arith), value_of-sextet (a % 4 * 16) (omega arith))
      (ap (λ x. x ∷ []) (omega arith))

-- A text of bytes is read back.
pub decode-encode : (s : Text) → All (λ b. b < 256) s → decode (encode s) ≡ s
unfolding decode encode
decode-encode [] h = refl
decode-encode (a ∷ []) (ha, h) = ap (λ g. g ++ []) (group_one a ha)
decode-encode (a ∷ b ∷ []) (ha, (hb, h)) = ap (λ g. g ++ []) (group_two a b ha hb)
decode-encode (a ∷ b ∷ c ∷ s) (ha, (hb, (hc, h))) =
    ap₂ (λ g r. g ++ r) (group_three a b c ha hb hc) (decode-encode s h)
