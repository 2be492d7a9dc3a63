-- ===== src/Qemu/Framing.antt =====
-- internal/driver/qemu/framing.go, and the quoting of internal/driver/qemu/live.go: the requests
-- and responses of the control channel, and the line by which a node says that it is ready. A
-- `[]byte` and a string are both a text here. An error keeps what its message quotes.
pub mod Words
pub mod Response
use klab.Prelude.{
  ℕ, Bool, true, false, List, [], ◌∷◌, ◌++◌, map, Option, none, some, ◌==◌, if◌then◌else◌, Result,
  ok, err,
}
use klab.Prelude.Int.{ℤ}
use klab.Text.{Text, str, text_eq, strip_prefix, join}
use klab.Text.Decimal.{atoi}
use klab.Text.Space.{trim_space, fields}
use klab.Text.Split.{cut, split}
use klab.Driver.{ExecResult}

-- strings.ReplaceAll(s, "'", `'\''`)
unfoldable pub escape_quotes : Text → Text
escape_quotes [] = []
escape_quotes (c ∷ s) =
    let rest = escape_quotes s in
    if c == b'\'' then b'\'' ∷ b'\\' ∷ b'\'' ∷ b'\'' ∷ rest else c ∷ rest

-- shQuote
unfoldable pub sh_quote : Text → Text
sh_quote s = b'\'' ∷ (escape_quotes s ++ b'\'' ∷ [])

-- shJoin
unfoldable pub sh_join : List Text → Text
sh_join argv = join (map sh_quote argv) (str " ")

-- encodeRequest
unfoldable pub encode_request : List Text → Text
encode_request argv = join (map sh_quote argv) (str " ")

pub data ResponseError : Type 0 where
  malformed : Text → ResponseError
  bad_exit_code : Text → ResponseError

unfoldable pub with_code : Text → Text → Option ℤ → Result ResponseError ExecResult
with_code text body none = err (bad_exit_code text)
with_code text body (some code) = ok (record { exit_code = code; stdout = body; stderr = [] })

unfoldable pub parse_head : Text → Text → Option Text → Result ResponseError ExecResult
parse_head head body none = err (malformed head)
parse_head head body (some code) = let text = trim_space code in with_code text body (atoi text)

unfoldable pub parse_cut : Text → Option (Text × Text) → Result ResponseError ExecResult
parse_cut b none = err (malformed b)
parse_cut b (some (head, body)) = parse_head head body (strip_prefix (str "rc=") head)

-- parseResponse: without a newline, `strings.Cut` returns all of the text as the head.
unfoldable pub parse_response : Text → Result ResponseError ExecResult
parse_response b = parse_cut b (cut 10 b)

-- len(f) >= 3 && f[0] == "KLAB_READY"
unfoldable pub ready_fields : List Text → Option (Text × Text)
ready_fields (word ∷ release ∷ machine ∷ more) =
    if text_eq word (str "KLAB_READY") then some (release, machine) else none
ready_fields _ = none

unfoldable pub first_ready : Option (Text × Text) → Option (Text × Text) → Option (Text × Text)
first_ready (some found) later = some found
first_ready none later = later

unfoldable pub ready_lines : List Text → Option (Text × Text)
ready_lines [] = none
ready_lines (line ∷ lines) = first_ready (ready_fields (fields line)) (ready_lines lines)

-- parseReady
unfoldable pub parse_ready : Text → Option (Text × Text)
parse_ready console_log = ready_lines (split 10 console_log)
