-- ===== src/Host/Probe.antt =====
-- internal/host/probe.go: the facts that `klab doctor` judges. The commands, the files and the
-- environment are parameters. Probe runs each command once, so that its end is a function of the
-- command line.
pub mod Doctor
use klab.Prelude.{
  ℕ, zero, suc, ◌+◌, ◌/◌, ◌^◌, Bool, true, false, List, [], ◌∷◌, ◌++◌, Option, none, some, ltb,
  length, get_elem?, if◌then◌else◌, reverse,
}
use klab.Prelude.Int.{ℤ, pos, negsuc}
use klab.Text.{Text, str, text_eq, is_empty, strip_prefix}
use klab.Text.Decimal.{is_digit, atoi}
use klab.Text.Saturated.{atoi_value}
use klab.Text.Split.{split, first_part}
use klab.Text.Space.{trim_space, fields}
use klab.Host.{Facts}

pub record Env : Type 0 where
  pub goos : Text
  pub output : List Text → Option Text
  pub exits_zero : List Text → Bool
  pub stat : Text → Bool
  pub look_path : Text → Bool
  pub getenv : Text → Text
  pub home_dir : Option Text

-- `Facts{OS: runtime.GOOS, FreeDiskGiB: -1}`
unfoldable pub no_facts : Text → Facts
no_facts goos = record {
  os = goos;
  chip_brand = [];
  apple_gen = pos 0;
  intel = false;
  mac_os_major = pos 0;
  mem_gib = pos 0;
  free_disk_gib = negsuc 0;
  has_brew = false;
  has_limactl = false;
  has_go = false;
  lima_status = [];
  kvm_present = false;
  kvm_ok = false;
  has_qemu = false;
  has_clang = false;
}

unfoldable pub digit_run : Text → Text
digit_run [] = []
digit_run (c ∷ s) = let rest = digit_run s in if is_digit c then c ∷ rest else []

-- (\\d+), which matches a digit at least
unfoldable pub one_or_more : Text → Option Text
one_or_more s = let run = digit_run s in if is_empty run then none else some run

unfoldable pub digits_behind : Option Text → Option Text
digits_behind none = none
digits_behind (some s) = one_or_more s

unfoldable pub or_else : Option Text → Option Text → Option Text
or_else none o = o
or_else (some s) o = some s

-- The submatch of the leftmost match of `Apple M(\\d+)`.
unfoldable pub find_apple_gen : Text → Option Text
find_apple_gen [] = none
find_apple_gen (c ∷ s) =
    or_else (digits_behind (strip_prefix (str "Apple M") (c ∷ s))) (find_apple_gen s)

unfoldable pub apple_gen_of : Option Text → ℤ
apple_gen_of none = pos 0
apple_gen_of (some m) = atoi_value m

unfoldable pub is_some : Option Text → Bool
is_some none = false
is_some (some s) = true

-- strings.Contains
unfoldable pub contains_text : Text → Text → Bool
contains_text [] t = is_some (strip_prefix t [])
contains_text (c ∷ s) t =
    let rest = contains_text s t in if is_some (strip_prefix t (c ∷ s)) then true else rest

unfoldable pub mac_os_major_of : Text → ℤ
mac_os_major_of v = if is_empty v then pos 0 else atoi_value (first_part b'.' v)

unfoldable pub minus : ℕ → ℤ
minus zero = pos 0
minus (suc n) = negsuc n

-- `int(n / (1 << 30))`, which goes towards 0
unfoldable pub to_gib : ℤ → ℤ
to_gib (pos n) = pos (n / 2 ^ 30)
to_gib (negsuc n) = minus (suc n / 2 ^ 30)

unfoldable pub gib_or_zero : Option ℤ → ℤ
gib_or_zero none = pos 0
gib_or_zero (some n) = to_gib n

unfoldable pub mem_gib_of : Text → ℤ
mem_gib_of b = if is_empty b then pos 0 else gib_or_zero (atoi b)

-- The error of Atoi is -1.
unfoldable pub or_minus_one : Option ℤ → ℤ
or_minus_one none = negsuc 0
or_minus_one (some n) = n

unfoldable pub available : Option Text → ℤ
available none = negsuc 0
available (some field) = or_minus_one (atoi field)

unfoldable pub last_line : List Text → Text
last_line [] = []
last_line (l ∷ []) = l
last_line (l ∷ m ∷ ls) = last_line (m ∷ ls)

-- What freeDiskGiB makes of the output of df.
unfoldable pub free_disk_of : Text → ℤ
free_disk_of o =
    let lines = split 10 (trim_space o) in
    if ltb (length lines) 2 then negsuc 0 else available (get_elem? (fields (last_line lines)) 3)

unfoldable pub kvm_ok_script : Text
kvm_ok_script = str "command -v kvm-ok >/dev/null 2>&1 && sudo -n kvm-ok"

unfoldable pub trimmed_or_empty : Option Text → Text
trimmed_or_empty none = []
trimmed_or_empty (some s) = trim_space s

module _ (m : Env) where
  -- limaInstance
  unfoldable pub lima_instance : Text
  lima_instance =
      let v = m.getenv (str "KLAB_LIMA_INSTANCE") in if is_empty v then str "klab" else v

  unfoldable pub out : List Text → Text
  out argv = trimmed_or_empty (m.output argv)

  unfoldable pub home : Text
  home = elim m.home_dir [ none ↦ str "." | some h ↦ h ]

  -- freeDiskGiB
  unfoldable pub free_disk_gib : Text → ℤ
  free_disk_gib dir = free_disk_of (out (str "df" ∷ str "-g" ∷ dir ∷ []))

  unfoldable pub in_instance : List Text → List Text
  in_instance argv = str "limactl" ∷ str "shell" ∷ lima_instance ∷ str "--" ∷ argv

  unfoldable pub lima_status_line : List Text
  lima_status_line =
      str "limactl" ∷ str "list" ∷ lima_instance ∷ str "--format" ∷ str "{{.Status}}" ∷ []

  -- `f.KVMPresent = …; if f.KVMPresent { f.KVMOK = … }`
  unfoldable pub with_kvm : Bool → Bool → Facts → Facts
  with_kvm present usable f =
      if present
      then record f { kvm_present = true; kvm_ok = usable }
      else record f { kvm_present = false }

  unfoldable pub with_status : Text → Facts → Facts
  with_status status f =
      let g : Facts = record f { lima_status = status } in
      if text_eq status (str "Running")
      then with_kvm (m.exits_zero (in_instance (str "test" ∷ str "-e" ∷ str "/dev/kvm" ∷ [])))
          (m.exits_zero (in_instance (str "sh" ∷ str "-c" ∷ kvm_ok_script ∷ []))) g
      else g

  unfoldable pub with_lima : Bool → Facts → Facts
  with_lima has f = if has then with_status (out lima_status_line) f else f

  unfoldable pub probe_darwin : Facts → Facts
  probe_darwin f =
      let brand = out (str "sysctl" ∷ str "-n" ∷ str "machdep.cpu.brand_string" ∷ []) in
      with_lima (m.look_path (str "limactl")) (record f {
        chip_brand = brand;
        apple_gen = apple_gen_of (find_apple_gen brand);
        intel = contains_text brand (str "Intel");
        mac_os_major = mac_os_major_of (out (str "sw_vers" ∷ str "-productVersion" ∷ []));
        mem_gib = mem_gib_of (out (str "sysctl" ∷ str "-n" ∷ str "hw.memsize" ∷ []));
        free_disk_gib = free_disk_gib home;
        has_brew = m.look_path (str "brew");
        has_limactl = m.look_path (str "limactl");
        has_go = m.look_path (str "go");
      })

  unfoldable pub probe_linux : Facts → Facts
  probe_linux f =
      record (with_kvm (m.stat (str "/dev/kvm"))
        (m.exits_zero (str "sh" ∷ str "-c" ∷ kvm_ok_script ∷ [])) f) {
          has_go = m.look_path (str "go");
          has_qemu = m.look_path (str "qemu-system-aarch64");
          has_clang = m.look_path (str "clang");
          free_disk_gib = free_disk_gib home;
        }

  -- Probe
  unfoldable pub probe : Facts
  probe =
      let f = no_facts m.goos in
      if text_eq m.goos (str "darwin")
      then probe_darwin f
      else if text_eq m.goos (str "linux")
      then probe_linux f
      else f
