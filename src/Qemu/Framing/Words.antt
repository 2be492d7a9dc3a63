-- ===== src/Qemu/Framing/Words.antt =====
-- The request of `encodeRequest` against the words that a POSIX shell reads from it.
use klab.Prelude.{
  ℕ, ◌≡◌, refl, sym, ap, ◌∙◌, inl, inr, true, false, List, [], ◌∷◌, ◌++◌, map, Option, none, some,
  arith, ◌==◌, Bool-cases, append_assoc, append-nil,
}
use klab.Text.{Text, str, join}
use klab.Qemu.Framing.{escape_quotes, sh_quote, encode_request}

-- Where the reader of a shell command stands: between words, in a word, in single quotes, behind
-- a backslash.
pub data Mode : Type 0 where
  gap bare quoted escape : Mode

unfoldable pub word_then : Text → Option (List Text) → Option (List Text)
word_then w none = none
word_then w (some ws) = some (w ∷ ws)

-- The words of a command by POSIX quoting (2.2.1, 2.2.2), `w` being what is read of the word at
-- hand. It reads blanks, single quotes and escaped bytes, and stops at any other byte outside
-- quotes, where the shell may see an operator, an expansion or a comment.
unfoldable pub read_words : Mode → Text → Text → Option (List Text)
unfolding word_then
read_words gap w [] = some []
read_words bare w [] = some (w ∷ [])
read_words quoted w [] = none
read_words escape w [] = none
read_words gap w (c ∷ s) = elim (c == b' ') [
  | true ↦ read_words gap [] s
  | false ↦ elim (c == b'\'') [
    | true ↦ read_words quoted [] s
    | false ↦ elim (c == b'\\') [ true ↦ read_words escape [] s | false ↦ none ]
  ]
]
read_words bare w (c ∷ s) = elim (c == b' ') [
  | true ↦ word_then w (read_words gap [] s)
  | false ↦ elim (c == b'\'') [
    | true ↦ read_words quoted w s
    | false ↦ elim (c == b'\\') [ true ↦ read_words escape w s | false ↦ none ]
  ]
]
read_words quoted w (c ∷ s) = elim (c == b'\'') [
  | true ↦ read_words bare w s
  | false ↦ read_words quoted (w ++ c ∷ []) s
]
read_words escape w (c ∷ s) = elim (c == 10) [
  | true ↦ none
  | false ↦ read_words bare (w ++ c ∷ []) s
]

unfoldable pub sh_words : Text → Option (List Text)
sh_words s = read_words gap [] s

read_quoted :
    (c : ℕ) (w s : Text)
    → (c == b'\'') ≡ false
    → read_words quoted w (c ∷ s) ≡ read_words quoted (w ++ c ∷ []) s
unfolding read_words
read_quoted c w s n = rw (n, read_words) refl

-- The four bytes that stand for a quote.
read_quote :
    (w s : Text)
    → read_words quoted w (b'\'' ∷ b'\\' ∷ b'\'' ∷ b'\'' ∷ s)
      ≡ read_words quoted (w ++ b'\'' ∷ []) s
unfolding read_words
read_quote w s = refl

quote_byte : (c : ℕ) → (c == b'\'') ≡ true → b'\'' ≡ c
quote_byte c e = ground arith

read_open : (s : Text) → read_words gap [] (b'\'' ∷ s) ≡ read_words quoted [] s
unfolding read_words
read_open s = refl

read_close : (w s : Text) → read_words quoted w (b'\'' ∷ s) ≡ read_words bare w s
unfolding read_words
read_close w s = refl

escape_nil : escape_quotes [] ≡ []
unfolding escape_quotes
escape_nil = refl

escape_quote :
    (c : ℕ) (s : Text)
    → (c == b'\'') ≡ true
    → escape_quotes (c ∷ s) ≡ b'\'' ∷ b'\\' ∷ b'\'' ∷ b'\'' ∷ escape_quotes s
unfolding escape_quotes
escape_quote c s e = rw e

escape_other :
    (c : ℕ) (s : Text) → (c == b'\'') ≡ false → escape_quotes (c ∷ s) ≡ c ∷ escape_quotes s
unfolding escape_quotes
escape_other c s e = rw e

snoc_append : (w : Text) (c : ℕ) (s : Text) → (w ++ c ∷ []) ++ s ≡ w ++ c ∷ s
snoc_append w c s = append_assoc w (c ∷ []) s

read-escape_quotes :
    (s w t : Text) → read_words quoted w (escape_quotes s ++ b'\'' ∷ t) ≡ read_words bare (w ++ s) t
read-escape_quotes [] w t =
    rw (escape_nil) (read_close w t) ∙ ap (λ v. read_words bare v t) (sym (append-nil w))
read-escape_quotes (c ∷ s) w t = elim (Bool-cases (c == b'\'')) [
  | inl e ↦
      rw
        (
          escape_quote c s e,
          read_quote w (escape_quotes s ++ b'\'' ∷ t),
          read-escape_quotes s (w ++ b'\'' ∷ []) t,
          snoc_append w b'\'' s,
        )
        (ap (λ d. read_words bare (w ++ d ∷ s) t) (quote_byte c e))
  | inr n ↦
      rw
        (
          escape_other c s n,
          read_quoted c w (escape_quotes s ++ b'\'' ∷ t) n,
          read-escape_quotes s (w ++ c ∷ []) t,
        )
        (ap (λ v. read_words bare v t) (snoc_append w c s))
]

read-sh_quote : (s t : Text) → read_words gap [] (sh_quote s ++ t) ≡ read_words bare s t
unfolding sh_quote
read-sh_quote s t =
    ap (λ v. read_words gap [] (b'\'' ∷ v)) (append_assoc (escape_quotes s) (b'\'' ∷ []) t)
    ∙ read_open (escape_quotes s ++ b'\'' ∷ t)
    ∙ read-escape_quotes s [] t

read_blank : (w s : Text) → read_words bare w (str " " ++ s) ≡ word_then w (read_words gap [] s)
unfolding read_words str
read_blank w s = refl

read_end : (w : Text) → read_words bare w [] ≡ some (w ∷ [])
unfolding read_words
read_end w = refl

read-join : (argv : List Text) → read_words gap [] (join (map sh_quote argv) (str " ")) ≡ some argv
unfolding join word_then
read-join [] = unfold read_words in refl
read-join (a ∷ []) =
    ap (read_words gap []) (sym (append-nil (sh_quote a))) ∙ read-sh_quote a [] ∙ read_end a
read-join (a ∷ b ∷ argv) =
    ap (read_words gap [])
      (append_assoc (sh_quote a) (str " ") (join (map sh_quote (b ∷ argv)) (str " ")))
    ∙ read-sh_quote a (str " " ++ join (map sh_quote (b ∷ argv)) (str " "))
    ∙ read_blank a (join (map sh_quote (b ∷ argv)) (str " "))
    ∙ rw (read-join (b ∷ argv), word_then) refl

-- The shell reads from a request the elements of the argument list, whatever bytes they hold.
pub sh_words-encode_request : (argv : List Text) → sh_words (encode_request argv) ≡ some argv
unfolding encode_request sh_words
sh_words-encode_request argv = read-join argv
