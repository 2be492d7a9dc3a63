-- ===== src/Tests/Hosts.antt =====
-- Reports on concrete machines, and the theorems on internal/host at them.
use klab.Prelude.{◌≡◌, refl, true, false}
use klab.Prelude.Int.{pos}
use klab.Text.{Text, str, text_eq, is_empty}
use klab.Host.{
  Facts, evaluate, verdict_line, eval_darwin, eval_lima_instance, eval_kvm, add_pass, add,
  eval_tool, eval_disk, eval_memory, eval_mac_os, eval_chip, empty_report,
}

abbrev quote : Text → Text
quote s = s

abbrev mac : Facts
mac = record {
  os = str "darwin";
  chip_brand = str "Apple M4";
  apple_gen = pos 4;
  intel = false;
  mac_os_major = pos 15;
  mem_gib = pos 16;
  free_disk_gib = pos 100;
  has_brew = true;
  has_limactl = true;
  has_go = true;
  lima_status = str "Running";
  kvm_present = true;
  kvm_ok = true;
  has_qemu = false;
  has_clang = false;
}

mac_ready : verdict_line (evaluate quote mac) ≡ str "  READY"
unfolding verdict_line evaluate str text_eq eval_darwin eval_lima_instance is_empty eval_kvm
    add_pass add eval_tool eval_disk eval_memory eval_mac_os eval_chip empty_report
mac_ready = refl
