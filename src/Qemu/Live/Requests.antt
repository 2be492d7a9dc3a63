-- ===== src/Qemu/Live/Requests.antt =====
-- The request that Exec writes, through base64 and the two shells.
use klab.Prelude.{
  ℕ, ◌<◌, ◌≡◌, ap, ◌∙◌, List, [], ◌∷◌, map, some, arith, All, All-append, ◌==◌, Bool-cases, inl,
  inr,
}
use klab.Text.{Text, str, join}
use klab.Text.Base64.{encode, decode, decode-encode}
use klab.Qemu.Framing.{escape_quotes, sh_quote, encode_request}
use klab.Qemu.Framing.Words.{sh_words, sh_words-encode_request}

abbrev pub IsByte : ℕ → Type 0
IsByte b = b < 256

escape_quotes-IsByte : (s : Text) → All IsByte s → All IsByte (escape_quotes s)
unfolding escape_quotes
escape_quotes-IsByte [] h = tt
escape_quotes-IsByte (c ∷ s) (hc, h) = elim (Bool-cases (c == b'\'')) [
  | inl e ↦
      rw e (omega arith, (omega arith, (omega arith, (omega arith, escape_quotes-IsByte s h))))
  | inr n ↦ rw n (hc, escape_quotes-IsByte s h)
]

sh_quote-IsByte : (s : Text) → All IsByte s → All IsByte (sh_quote s)
unfolding sh_quote
sh_quote-IsByte s h =
    (omega arith, All-append IsByte _ _ (escape_quotes-IsByte s h) (omega arith, tt))

join-IsByte :
    (cmd : List Text) → All (All IsByte) cmd → All IsByte (join (map sh_quote cmd) (str " "))
unfolding join str
join-IsByte [] h = tt
join-IsByte (a ∷ []) (ha, h) = sh_quote-IsByte a ha
join-IsByte (a ∷ b ∷ cmd) (ha, h) =
    All-append IsByte _ _ (All-append IsByte _ _ (sh_quote-IsByte a ha) (omega arith, tt))
      (join-IsByte (b ∷ cmd) h)

encode_request-IsByte : (cmd : List Text) → All (All IsByte) cmd → All IsByte (encode_request cmd)
unfolding encode_request
encode_request-IsByte cmd h = join-IsByte cmd h

-- What Exec puts into its command line decodes, by base64, to a text of which the guest's shell
-- reads the elements of the command again, whatever bytes they hold.
pub sh_words-decode :
    (cmd : List Text)
    → All (All IsByte) cmd
    → sh_words (decode (encode (encode_request cmd))) ≡ some cmd
sh_words-decode cmd h =
    ap sh_words (decode-encode (encode_request cmd) (encode_request-IsByte cmd h))
    ∙ sh_words-encode_request cmd
