-- ===== src/Qemu/Framing/Response.antt =====
-- `parseResponse` on the responses that the guest's init writes, and on others.
use klab.Prelude.{suc, ◌≡◌, refl, [], ◌∷◌, ◌++◌, arith, ok}
use klab.Prelude.Int.{ℤ, pos, negsuc}
use klab.Text.{Text, str, strip_prefix-append}
use klab.Text.Decimal.{itoa, itoa_ℕ-lacks, IsInt, atoi-itoa}
use klab.Text.Plain.{trim_space-plain, itoa-IsPlain}
use klab.Text.Split.{cut-append, Lacks}
use klab.Qemu.Framing.{parse_response, parse_cut, parse_head, with_code}

itoa-Lacks : (z : ℤ) → Lacks 10 (itoa z)
unfolding itoa
itoa-Lacks (pos n) = itoa_ℕ-lacks 10 n refl
itoa-Lacks (negsuc n) = (ground arith, itoa_ℕ-lacks 10 (suc n) refl)

head-Lacks : (z : ℤ) → Lacks 10 (str "rc=" ++ itoa z)
unfolding str
head-Lacks z = (ground arith, (ground arith, (ground arith, itoa-Lacks z)))

-- The response that the init writes for an exit code and an output, which may hold newlines
-- itself, reads back as that code and that output.
pub parse_response-round_trip :
    (code : ℤ) (out : Text)
    → IsInt code
    → parse_response ((str "rc=" ++ itoa code) ++ 10 ∷ out)
      ≡ ok (record { exit_code = code; stdout = out; stderr = [] })
unfolding parse_response parse_cut parse_head with_code
parse_response-round_trip code out h = rw (
  cut-append 10 (str "rc=" ++ itoa code) out (head-Lacks code),
  strip_prefix-append (str "rc=") (itoa code),
  trim_space-plain (itoa code) (itoa-IsPlain code),
  atoi-itoa code h,
)
