-- ===== src/Runner/Resolve.antt =====
-- internal/runner/runner.go: the memory size of a node, its boot spec, and the check of a driver's
-- capabilities.
pub mod Memory
pub mod Suitable
use klab.Prelude.{
  ℕ, zero, suc, ◌+◌, ◌-◌, ◌*◌, ◌%◌, ◌^◌, ◌<◌, Bool, true, false, not, ◌&&◌, ◌||◌, List, [], ◌∷◌,
  Option, none, some, Result, ok, err, Check, ◌>>=◌, ◌>>◌, reject_if, ltb, ◌==◌, if◌then◌else◌,
}
use klab.Prelude.Int.{ℤ, pos, negsuc}
use klab.Text.{Text, is_empty}
use klab.Text.Decimal.{atoi}
use klab.Text.Space.{trim_space}
use klab.Driver.{Caps, BootSpec, can_run_arch}
use klab.Topology.{Node}

-- An error quotes what is left of the size behind its unit.
pub data Error : Type 0 where
  invalid_memory : Text → Error
  no_custom_kernel unsupported_arch : Text → Text → Error

behind : ℕ → Option (Text × ℕ) → Option (Text × ℕ)
behind c none = none
behind c (some (t, l)) = some (c ∷ t, l)

-- The last byte and what stands before it.
split_last : Text → Option (Text × ℕ)
unfolding behind
split_last [] = none
split_last (c ∷ []) = some ([], c)
split_last (c ∷ d ∷ s) = behind c (split_last (d ∷ s))

-- The number of MiB in a unit, and the digits before it.
unit : Text × ℕ → Text → ℕ × Text
unit (t, l) s =
    if l == b'G' || l == b'g' then (1024, t) else if l == b'M' || l == b'm' then (1, t) else (1, s)

-- A product in 64 bits, as a signed integer.
wrap_int : ℕ → ℤ
wrap_int n = let r = n % 2 ^ 64 in if ltb r (2 ^ 63) then pos r else negsuc (2 ^ 64 - r - 1)

scaled : ℕ → Text → Option ℤ → Result Error ℤ
unfolding wrap_int
scaled mult s none = err (invalid_memory s)
scaled mult s (some (pos n)) = ok (wrap_int (n * mult))
scaled mult s (some (negsuc n)) = err (invalid_memory s)

-- Of a text that is not empty.
with_unit : Text → Option (Text × ℕ) → Result Error ℤ
unfolding unit scaled
with_unit s none = ok (pos 0)
with_unit s (some p) = let (mult, t) = unit p s in scaled mult t (atoi (trim_space t))

-- parseMem
unfoldable pub parse_mem : Text → Result Error ℤ
unfolding split_last with_unit
parse_mem s = let t = trim_space s in with_unit t (split_last t)

-- ResolveBootSpec
unfoldable pub resolve_boot_spec : Text → Node → Text → Text → Text → Result Error BootSpec
resolve_boot_spec name n kernel_image rootfs rootfs_rw = do
  mem ← parse_mem n.mem
  ok (record {
    name = name;
    kernel = kernel_image;
    rootfs = rootfs;
    rootfs_rw = rootfs_rw;
    arch = n.arch;
    cpu = n.cpu;
    mem_mib = mem;
    nics = [];
  })

-- CheckCaps
unfoldable pub check_caps : Text → Node → Caps → Check Error
check_caps driver_name n caps = do
  reject_if (not (is_empty n.kernel) && not caps.custom_kernel)
      (no_custom_kernel n.kernel driver_name)
  reject_if (not (can_run_arch caps n.arch)) (unsupported_arch driver_name n.arch)
