-- ===== src/Tests/Drivers.antt =====
-- Boots, requests and responses of concrete inputs, and the theorems on the drivers, on memory
-- sizes and on capabilities at them.
use klab.Prelude.{◌≡◌, ◌≢◌, ◌↔◌, ◌*◌, ◌++◌, refl, [], ◌∷◌, some, arith, ok}
use klab.Prelude.Int.{ℤ, pos, negsuc}
use klab.Text.{str, text_eq, is_empty}
use klab.Text.Decimal.{itoa, itoa_ℕ}
use klab.Topology.{Node}
use klab.Driver.{BootSpec, can_run_arch}
use klab.Driver.Conformance.{Conforms, conformance, conformance_iff}
use klab.Runner.Resolve.{parse_mem}
use klab.Runner.Resolve.Memory.{parse_mem_past}
use klab.Qemu.{name, capabilities}
use klab.Qemu.Framing.{
  encode_request, parse_response, parse_ready, ready_lines, first_ready, ready_fields,
}
use klab.Text.Split.{split}
use klab.Text.Space.{fields}
use klab.Qemu.Framing.Words.{sh_words, sh_words-encode_request}
use klab.Qemu.Framing.Response.{parse_response-round_trip}

-- The QEMU driver passes the suite.
qemu_conforms : conformance name capabilities ≡ []
unfolding conformance name capabilities is_empty str can_run_arch text_eq
qemu_conforms = refl

abbrev node : Node
node = record {
  driver = str "qemu";
  kernel = str "v6.12";
  arch = str "arm64";
  cpu = pos 2;
  mem = str "512M";
  profile = [];
  count = pos 0;
}

parse_mem_past_example :
    (z : ℤ) × (parse_mem (itoa_ℕ 9007199254740992 ++ b'G' ∷ []) ≡ ok z)
    × (z ≢ pos (9007199254740992 * 1024))
parse_mem_past_example = parse_mem_past 9007199254740992 (omega arith) (omega arith)

abbrev boot : BootSpec
boot = record {
  name = str "head-0";
  kernel = str "/k/Image";
  rootfs = str "/r/rootfs";
  rootfs_rw = str "/r/rw";
  arch = str "arm64";
  cpu = pos 0;
  mem_mib = pos 1024;
  nics = (record { tap = str "klabtap1"; mac = str "52:54:00:00:00:01" }) ∷ [];
}

sh_words-encode_request_example :
    sh_words (encode_request (str "grep" ∷ str "it's a b" ∷ [] ∷ []))
    ≡ some (str "grep" ∷ str "it's a b" ∷ [] ∷ [])
sh_words-encode_request_example = sh_words-encode_request (str "grep" ∷ str "it's a b" ∷ [] ∷ [])

parse_response-round_trip_example :
    parse_response ((str "rc=" ++ itoa (negsuc 0)) ++ 10 ∷ str "two\nlines")
    ≡ ok (record { exit_code = negsuc 0; stdout = str "two\nlines"; stderr = [] })
parse_response-round_trip_example =
    parse_response-round_trip (negsuc 0) (str "two\nlines") (omega arith)

ready_example :
    parse_ready (str "boot\nKLAB_READY 6.12.0 aarch64\n") ≡ some (str "6.12.0", str "aarch64")
unfolding parse_ready ready_lines split str first_ready ready_fields fields text_eq
ready_example = refl

conformance_iff_example : (conformance name capabilities ≡ []) ↔ Conforms name capabilities
conformance_iff_example = conformance_iff name capabilities
