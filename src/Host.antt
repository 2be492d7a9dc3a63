-- ===== src/Host.antt =====
-- internal/host/host.go: the verdict of `klab doctor` on probed facts. The report is passed along
-- in place of the pointer that the Go methods write through. `%q` is `strconv.Quote`, which goes by
-- the tables of printable characters; it stands here as the parameter `quote`.
pub mod Counts
pub mod Probe
pub mod Verdict
use klab.Prelude.{
  ℕ, suc, ◌+◌, Bool, true, false, List, [], ◌∷◌, ◌++◌, Option, none, some, leb, ltb, ◌==◌,
  if◌then◌else◌,
}
use klab.Prelude.Int.{ℤ, pos, negsuc, is_negative}
use klab.Text.{Text, str, text_eq, is_empty}
use klab.Text.Decimal.{itoa, itoa_ℕ}

pub data Level : Type 0 where
  pass warn fail : Level

-- Level.marker
unfoldable pub marker : Level → Text
marker pass = str "✓"
marker warn = str "!"
marker fail = str "✗"

pub record Facts : Type 0 where
  pub os : Text
  pub chip_brand : Text
  pub apple_gen : ℤ
  pub intel : Bool
  pub mac_os_major : ℤ
  pub mem_gib : ℤ
  pub free_disk_gib : ℤ
  pub has_brew : Bool
  pub has_limactl : Bool
  pub has_go : Bool
  pub lima_status : Text
  pub kvm_present : Bool
  pub kvm_ok : Bool
  pub has_qemu : Bool
  pub has_clang : Bool

pub record Finding : Type 0 where
  pub level : Level
  pub message : Text
  pub note : Text

pub record Report : Type 0 where
  pub checks : List Finding
  pub fails : ℕ
  pub warns : ℕ

-- The zero value of a report.
unfoldable pub empty_report : Report
empty_report = record { checks = []; fails = 0; warns = 0 }

-- Report.Ready
unfoldable pub ready : Report → Bool
ready r = r.fails == 0

-- Report.ExitCode
unfoldable pub exit_code : Report → ℕ
exit_code r = if ltb 0 r.fails then 1 else 0

-- Report.add
unfoldable pub add : Level → Text → Text → Report → Report
add l msg note r =
    let checks = r.checks ++ (record { level = l; message = msg; note = note }) ∷ [] in
    elim l [
      | pass ↦ record r { checks = checks }
      | warn ↦ record r { checks = checks; warns = suc r.warns }
      | fail ↦ record r { checks = checks; fails = suc r.fails }
    ]

-- Report.pass, Report.warn, Report.fail
unfoldable pub add_pass : Text → Report → Report
add_pass msg r = add pass msg [] r

unfoldable pub add_warn : Text → Report → Report
add_warn msg r = add warn msg [] r

unfoldable pub add_fail : Text → Text → Report → Report
add_fail msg note r = add fail msg note r

-- n >= k
abbrev pub at_least : ℕ → ℤ → Bool
at_least k (pos n) = leb k n
at_least k (negsuc n) = false

-- n > 0
abbrev pub positive : ℤ → Bool
positive z = at_least 1 z

-- brandOrUnknown
brand_or_unknown : Text → Text
brand_or_unknown s = if is_empty s then str "unknown" else s

-- The blocks of evalDarwin, in their order.
unfoldable pub eval_chip : Facts → Report → Report
unfolding brand_or_unknown
eval_chip f r =
    if at_least 3 f.apple_gen
    then add_pass
        (str "chip: "
          ++ (f.chip_brand
              ++ (str " (M" ++ (itoa f.apple_gen ++ str " — nested virtualization supported)"))))
        r
    else if positive f.apple_gen
    then add_warn
        (str "chip: "
          ++ (f.chip_brand
              ++ (str " (M"
                  ++ (itoa f.apple_gen
                      ++ str " — no nested virtualization; in-VM KVM / microVM limited)"))))
        r
    else if f.intel
    then add_warn
        (str "chip: "
          ++ (f.chip_brand ++ str " (Intel Mac — arm64 guests emulated; x86 native via KVM)"))
        r
    else add_warn (str "chip: " ++ (brand_or_unknown f.chip_brand ++ str " (could not classify)")) r

unfoldable pub eval_mac_os : Facts → Report → Report
eval_mac_os f r =
    if at_least 15 f.mac_os_major
    then add_pass (str "macOS " ++ (itoa f.mac_os_major ++ str " (>= 15, nested virt available)")) r
    else add_fail
        (str "macOS " ++ (itoa f.mac_os_major ++ str " (need 15+ for nested virtualization)"))
        (str "upgrade to macOS 15+ (Sequoia or later)") r

unfoldable pub eval_memory : Facts → Report → Report
eval_memory f r =
    if at_least 16 f.mem_gib
    then add_pass (str "RAM " ++ (itoa f.mem_gib ++ str " GiB")) r
    else if at_least 8 f.mem_gib
    then add_warn
        (str "RAM "
          ++ (itoa f.mem_gib
              ++ str " GiB (8 GiB: 1–2 VMs comfortable; clusters are a functional-only squeeze)"))
        r
    else add_fail (str "RAM " ++ (itoa f.mem_gib ++ str " GiB (< 8 GiB is very tight)"))
        (str "8 GiB is the practical minimum") r

unfoldable pub eval_disk : Facts → Report → Report
eval_disk f r =
    if is_negative f.free_disk_gib
    then add_warn (str "could not read free disk for $HOME") r
    else if at_least 60 f.free_disk_gib
    then add_pass (str "free disk " ++ (itoa f.free_disk_gib ++ str " GiB")) r
    else add_warn
        (str "free disk "
          ++ (itoa f.free_disk_gib ++ str " GiB (kernel trees + rootfs want ~60 GiB)"))
        r

-- `if has { r.pass(name) } else { r.fail(missing, note) }`
unfoldable pub eval_tool : Bool → Text → Text → Text → Report → Report
eval_tool has name missing note r = if has then add_pass name r else add_fail missing note r

unfoldable pub eval_kvm : Facts → Text → Text → Text → Text → Text → Report → Report
eval_kvm f present usable unsure missing note r =
    if f.kvm_present
    then (if f.kvm_ok
        then add_pass usable (add_pass present r)
        else add_warn unsure (add_pass present r))
    else add_fail missing note r

module _ (quote : Text → Text) where
  unfoldable pub eval_lima_instance : Facts → Report → Report
  eval_lima_instance f r =
      if is_empty f.lima_status
      then add_warn (str "lima instance not created — run ./scripts/setup.sh") r
      else if text_eq f.lima_status (str "Running")
      then eval_kvm f (str "/dev/kvm present inside the lima instance")
          (str "KVM acceleration usable (kvm-ok)")
          (str "kvm-ok did not confirm acceleration (install cpu-checker / re-provision)")
          (str "/dev/kvm missing inside the lima instance")
          (str "needs Apple M3+/macOS 15+ and nestedVirtualization: true")
          (add_pass (str "lima instance running") r)
      else add_warn
          (str "lima instance exists but is "
            ++ (quote f.lima_status ++ str " — start it with limactl start"))
          r

  unfoldable pub eval_darwin : Facts → Report → Report
  eval_darwin f r =
      let r1 = eval_disk f (eval_memory f (eval_mac_os f (eval_chip f r))) in
      let r2 =
        eval_tool f.has_brew (str "Homebrew") (str "Homebrew not found")
          (str "install: https://brew.sh — or ./scripts/setup.sh") r1 in
      let r3 =
        eval_tool f.has_limactl (str "limactl") (str "limactl not found")
          (str "brew install lima — or ./scripts/setup.sh") r2 in
      let r4 =
        eval_tool f.has_go (str "go") (str "go not found")
          (str "brew install go — or ./scripts/setup.sh") r3 in
      if f.has_limactl then eval_lima_instance f r4 else r4

  unfoldable pub eval_linux : Facts → Report → Report
  eval_linux f r =
      let r1 =
        eval_kvm f (str "/dev/kvm present") (str "KVM acceleration usable")
          (str "kvm-ok did not confirm (install cpu-checker)") (str "/dev/kvm missing")
          (str "enable KVM (or nested virtualization on a cloud VM)") r in
      let r2 = eval_tool f.has_go (str "go") (str "go not found") (str "install Go 1.22+") r1 in
      let r3 =
        eval_tool f.has_qemu (str "qemu-system-aarch64") (str "qemu-system-aarch64 not found")
          (str "install qemu") r2 in
      eval_tool f.has_clang (str "clang") (str "clang not found")
        (str "install clang/llvm for kernel cross-compile") r3

  -- Evaluate
  unfoldable pub evaluate : Facts → Report
  evaluate f =
      if text_eq f.os (str "darwin")
      then eval_darwin f empty_report
      else if text_eq f.os (str "linux")
      then eval_linux f empty_report
      else add_fail (str "unsupported OS: " ++ f.os)
          (str "klab supports macOS (Apple silicon) and Linux with KVM") empty_report

-- Report.Fprint: the text that it writes.
line : Text → Text
line s = s ++ 10 ∷ []

print_finding : Finding → Text
unfolding line
print_finding c =
    line (str "  " ++ (marker c.level ++ b' ' ∷ c.message))
    ++ (if is_empty c.note then [] else line (str "    " ++ c.note))

print_findings : List Finding → Text
unfolding print_finding
print_findings [] = []
print_findings (c ∷ cs) = print_finding c ++ print_findings cs

unfoldable pub verdict_line : Report → Text
verdict_line r =
    if ltb 0 r.fails
    then str "  NOT READY — "
      ++ (itoa_ℕ r.fails
          ++ (str " issue(s), " ++ (itoa_ℕ r.warns ++ str " warning(s). Run ./scripts/setup.sh")))
    else if ltb 0 r.warns
    then str "  READY with " ++ (itoa_ℕ r.warns ++ str " warning(s)")
    else str "  READY"

unfoldable pub fprint : Report → Text
unfolding print_findings line
fprint r =
    line (str "klab doctor") ++ (print_findings r.checks ++ (line [] ++ line (verdict_line r)))

-- `Run`: what it prints, and the exit code, of the facts that were probed.
unfoldable pub run : (Text → Text) → Facts → Text × ℕ
run quote facts = let r = evaluate quote facts in (fprint r, exit_code r)
