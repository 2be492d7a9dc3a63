-- ===== src/Text/Hex.antt =====
-- `%02x` and `hex.EncodeToString`: bytes as two hexadecimal digits.
use klab.Prelude.{
  ℕ, ◌+◌, ◌-◌, ◌*◌, ◌/◌, ◌%◌, ◌<◌, ◌≡◌, refl, sym, ◌∙◌, ap, [], ◌∷◌, ◌++◌, arith, false, ltb,
  if◌then◌else◌, All,
}
use klab.Text.Defs.{Text, is_empty}

hex_digit : ℕ → ℕ
hex_digit d = if ltb d 10 then b'0' + d else b'a' + (d - 10)

-- The `%02x` of a byte.
unfoldable pub hex_byte : ℕ → Text
unfolding hex_digit
hex_byte b = hex_digit (b / 16) ∷ hex_digit (b % 16) ∷ []

-- hex.EncodeToString
unfoldable pub hex : Text → Text
hex [] = []
hex (b ∷ s) = hex_byte b ++ hex s

digit_value : ℕ → ℕ
digit_value c = if ltb c b'a' then c - b'0' else c - b'a' + 10

digit_value-hex_digit : (d : ℕ) → d < 16 → digit_value (hex_digit d) ≡ d
unfolding digit_value hex_digit
digit_value-hex_digit d h = ground arith

-- The byte that two digits spell.
byte_value : Text → ℕ
byte_value (a ∷ b ∷ s) = digit_value a * 16 + digit_value b
byte_value s = 0

byte_value-hex_byte : (b : ℕ) (s : Text) → b < 256 → byte_value (hex_byte b ++ s) ≡ b
unfolding byte_value hex_byte
byte_value-hex_byte b s h =
    omega (arith, digit_value-hex_digit (b / 16), digit_value-hex_digit (b % 16))

-- Two bytes that print alike are equal.
pub hex_byte-injective : (a b : ℕ) → a < 256 → b < 256 → hex_byte a ≡ hex_byte b → a ≡ b
hex_byte-injective a b ha hb e =
    cc (byte_value-hex_byte a [] ha, byte_value-hex_byte b [] hb, ap (λ s. byte_value (s ++ [])) e)

tail_tail : Text → Text
tail_tail (a ∷ b ∷ s) = s
tail_tail s = []

hex_step : (b : ℕ) (s : Text) → hex (b ∷ s) ≡ hex_byte b ++ hex s
unfolding hex
hex_step b s = refl

tail_tail-hex : (b : ℕ) (s : Text) → tail_tail (hex (b ∷ s)) ≡ hex s
unfolding hex hex_byte tail_tail
tail_tail-hex b s = refl

-- Two strings of bytes that print alike are equal.
pub hex-injective :
    (s t : Text) → All (λ b. b < 256) s → All (λ b. b < 256) t → hex s ≡ hex t → s ≡ t
hex-injective [] [] hs ht e = refl
hex-injective [] (b ∷ t) hs ht e = unfold hex hex_byte in cc e
hex-injective (a ∷ s) [] hs ht e = unfold hex hex_byte in cc e
hex-injective (a ∷ s) (b ∷ t) (ha, hs) (hb, ht) e = cc (
  byte_value-hex_byte a (hex s) ha,
  byte_value-hex_byte b (hex t) hb,
  ap byte_value (sym (hex_step a s) ∙ e ∙ hex_step b t),
  hex-injective s t hs ht (sym (tail_tail-hex a s) ∙ ap tail_tail e ∙ tail_tail-hex b t),
)

pub hex-All : (s : Text) → All (λ c. b'/' < c) (hex s)
unfolding hex hex_byte hex_digit
hex-All [] = tt
hex-All (b ∷ s) = (ground arith, (ground arith, hex-All s))

pub hex_full : (s : Text) → is_empty s ≡ false → is_empty (hex s) ≡ false
unfolding hex hex_byte is_empty
hex_full [] h = cc
hex_full (b ∷ s) h = refl
