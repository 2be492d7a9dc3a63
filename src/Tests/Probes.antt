-- ===== src/Tests/Probes.antt =====
-- Output of the commands that are probed, and the theorem on Doctor at a Linux host.
use klab.Prelude.{◌≡◌, refl, true, false, [], none}
use klab.Prelude.Int.{pos, negsuc}
use klab.Text.{str, text_eq, is_empty, strip_prefix}
use klab.Text.Saturated.{atoi_value, uint_value, int_value, digits_value}
use klab.Text.Split.{split, push, cut, first_part}
use klab.Text.Space.{trim_space, fields}
use klab.Text.Decimal.{atoi}
use klab.Host.Probe.{
  Env, find_apple_gen, apple_gen_of, digits_behind, one_or_more, digit_run, or_else,
  mac_os_major_of, free_disk_of, available, or_minus_one, last_line, mem_gib_of, gib_or_zero,
  to_gib,
}

chip_example : apple_gen_of (find_apple_gen (str "Apple M Apple M12 Pro")) ≡ pos 12
unfolding apple_gen_of find_apple_gen digits_behind one_or_more digit_run or_else strip_prefix
    is_empty atoi_value uint_value int_value digits_value str
chip_example = refl

version_example : mac_os_major_of (str "15.1.2") ≡ pos 15
unfolding mac_os_major_of first_part cut is_empty atoi_value uint_value int_value digits_value str
version_example = refl

-- A number past 2^64 is the largest, whatever follows.
overflow_example : atoi_value (str "-99999999999999999999x") ≡ negsuc 9223372036854775807
unfolding atoi_value uint_value int_value digits_value str
overflow_example = refl

memory_example : mem_gib_of (str "17179869184") ≡ pos 16
unfolding mem_gib_of gib_or_zero to_gib is_empty atoi str
memory_example = refl

disk_example :
    free_disk_of (str "Filesystem 1G-blocks Used Available\n/dev/disk 460 10 431 3% /\n") ≡ pos 431
unfolding free_disk_of available or_minus_one last_line split push trim_space fields atoi str
disk_example = refl

no_disk_example : free_disk_of [] ≡ negsuc 0
unfolding free_disk_of split push trim_space
no_disk_example = refl

abbrev env : Env
env = record {
  goos = str "linux";
  output = λ argv. none;
  exits_zero = λ argv. false;
  stat = λ path. true;
  look_path = λ tool. text_eq tool (str "go");
  getenv = λ name. [];
  home_dir = none;
}
