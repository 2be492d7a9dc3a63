-- ===== src/Tests/Lives.antt =====
-- Boots and requests on a machine whose clock is its state, and the theorems on the live path there.
use klab.Prelude.{
  ℕ, suc, ◌+◌, ◌≡◌, refl, false, [], ◌∷◌, ◌++◌, none, some, ok, arith, if◌then◌else◌, leb, ◌*◌,
}
use klab.Prelude.Int.{pos}
use klab.Text.{Text, str}
use klab.Text.Decimal.{itoa}
use klab.Text.Path.{path_dir}
use klab.Exec.{Ran, succeeded}
use klab.Driver.{BootSpec}
use klab.Qemu.Live.{
  Vm, ready_of, launch, boot, exec, write_request, test_exists, millisecond, boot_timeout,
  exec_timeout, deadline_or,
}
use klab.Qemu.Live.Waiting.{IsClock, Appears, here, later}
use klab.Qemu.Live.Boots.{Ends, boot_deadline, boot-Ends, boot-Appears}
use klab.Qemu.Live.Executes.{exec_deadline, response_file, exec-answered, exec-Ends}

-- A machine on which a command takes a nanosecond, and a file is there after a second.
abbrev answer : ℕ → Ran
answer w = record {
  result = record {
    exit_code = if leb 1_000_000_000 w then pos 0 else pos 1;
    stdout = (str "rc=" ++ itoa (pos 3)) ++ 10 ∷ str "hello";
    stderr = [];
  };
  failed = false;
}

abbrev machine : Vm ℕ
machine = record { run = λ argv w. (suc w, answer w); now = λ w. w; sleep = λ d w. w + d }

machine-IsClock : IsClock machine
machine-IsClock = record { run-later = λ argv w. omega arith; sleep-later = λ d w. omega arith }

abbrev spec : BootSpec
spec = record {
  name = str "head-0";
  kernel = str "/k/Image";
  rootfs = str "/r/rootfs";
  rootfs_rw = str "/r/rw";
  arch = str "arm64";
  cpu = pos 0;
  mem_mib = pos 1024;
  nics = [];
}

boot-Ends_example : Ends machine none spec (launch machine spec 0) (boot machine none spec 0)
boot-Ends_example = boot-Ends machine none spec machine-IsClock 0

-- Two looks are too early, the third is not.
ready_comes :
    Appears machine
      (500 * millisecond)
      (boot_deadline machine none spec (launch machine spec 0).0)
      (ready_of spec.rootfs_rw)
      (launch machine spec 0).0
      1_000_000_004
unfolding launch test_exists boot_timeout deadline_or succeeded
ready_comes = later (ground arith) refl (later (ground arith) refl (here (ground arith) refl refl))

boot-Appears_example : boot machine none spec 0 ≡ some (1_000_000_004, ok (path_dir spec.rootfs_rw))
boot-Appears_example =
    boot-Appears machine none spec machine-IsClock 0 1_000_000_004 (unfold launch in refl)
      ready_comes

abbrev argv : Text
unfolding str
argv = str "hostname"

response_comes :
    Appears machine
      (200 * millisecond)
      (exec_deadline machine none
        (str "/r")
        (argv ∷ [])
        (write_request machine (str "/r") 0 (argv ∷ []) 0).0)
      (response_file machine none (str "/r") (argv ∷ []) 0)
      (write_request machine (str "/r") 0 (argv ∷ []) 0).0
      1_000_000_007
unfolding write_request test_exists exec_timeout deadline_or succeeded
response_comes = later (ground arith) refl (
    later (ground arith) refl (
      later (ground arith) refl
        (later (ground arith) refl (later (ground arith) refl (here (ground arith) refl refl)))))

exec-answered_example :
    exec machine none (str "/r") (argv ∷ []) 0
    ≡ some (1_000_000_009, ok (record { exit_code = pos 3; stdout = str "hello"; stderr = [] }))
exec-answered_example =
    exec-answered machine none (str "/r") (argv ∷ []) machine-IsClock 0 1_000_000_007 (pos 3)
      (str "hello") (omega arith) (unfold write_request in refl) response_comes refl refl

exec-Ends_example :
    klab.Qemu.Live.Executes.Ends machine none
      (str "/r")
      (argv ∷ [])
      (response_file machine none (str "/r") (argv ∷ []) 0)
      (write_request machine (str "/r") 0 (argv ∷ []) 0)
      (exec machine none (str "/r") (argv ∷ []) 0)
exec-Ends_example = exec-Ends machine none (str "/r") (argv ∷ []) machine-IsClock 0
