-- ===== src/Qemu/Live.antt =====
-- internal/driver/qemu/live.go: Boot, Exec and Stop. The virtual machine is a parameter: the runner
-- that all steps go through, and a clock in nanoseconds, which is read at the state at hand. The
-- loops that wait run on fuel; `none` is a run that is out of it.
pub mod Waiting
pub mod Boots
pub mod Executes
pub mod Requests
use klab.Prelude.{
  ℕ, zero, suc, ◌+◌, ◌-◌, ◌*◌, Bool, true, false, List, [], ◌∷◌, ◌++◌, Option, none, some, Result,
  ok, err, ltb, not, ◌&&◌, if◌then◌else◌,
}
use klab.Prelude.Int.{ℤ, is_zero}
use klab.Text.{Text, str}
use klab.Text.Decimal.{itoa_ℕ}
use klab.Text.Path.{path_join, path_dir}
use klab.Text.Base64.{encode}
use klab.Exec.{Ran, succeeded}
use klab.Driver.{BootSpec, ExecResult}
use klab.Qemu.{launch_argv}
use klab.Qemu.Framing.{ResponseError, sh_quote, sh_join, encode_request, parse_response}

pub record Vm (World : Type 0) : Type 0 where
  pub run : List Text → World → World × Ran
  pub now : World → ℕ
  pub sleep : ℕ → World → World

abbrev pub millisecond : ℕ
millisecond = 1_000_000

abbrev pub second : ℕ
second = 1_000 * millisecond

unfoldable pub boot_timeout : ℕ
boot_timeout = 60 * second

unfoldable pub exec_timeout : ℕ
exec_timeout = 30 * second

pub data BootError : Type 0 where
  launch_failed : BootError
  not_ready : Text → Text → BootError

pub data ExecError : Type 0 where
  request_not_written response_not_read : ExecError
  bad_response : ResponseError → ExecError
  timed_out_exec : List Text → ExecError

-- How a wait ends.
pub data Wait (World : Type 0) : Type 0 where
  seen timed_out : World → Wait World
  out_of_fuel : Wait World

-- `if dl, ok := ctx.Deadline(); ok { deadline = dl }`
unfoldable pub deadline_or : ℕ → Option ℕ → ℕ
deadline_or d none = d
deadline_or d (some dl) = dl

unfoldable pub console_of : Text → Text
console_of rw_path = path_join (path_dir rw_path ∷ str "console.log" ∷ [])

unfoldable pub pidfile_of : Text → Text
pidfile_of rw_path = path_join (path_dir rw_path ∷ str "qemu.pid" ∷ [])

unfoldable pub ready_of : Text → Text
ready_of rw_path = path_join (rw_path ∷ str "ready" ∷ [])

unfoldable pub launch_script : BootSpec → Text
launch_script spec =
    sh_join (launch_argv spec (console_of spec.rootfs_rw))
    ++ (str " </dev/null >/dev/null 2>&1 & echo $! > " ++ sh_quote (pidfile_of spec.rootfs_rw))

unfoldable pub kill_script : Text → Text
kill_script pidfile =
    str "kill $(cat " ++ (sh_quote pidfile ++ str " 2>/dev/null) 2>/dev/null || true")

-- `<handle>/rw/ctl/<seq>` and the ending.
unfoldable pub ctl_file : Text → ℕ → Text → Text
ctl_file handle seq ending =
    path_join (path_join (handle ∷ str "rw" ∷ str "ctl" ∷ []) ∷ (itoa_ℕ seq ++ ending) ∷ [])

unfoldable pub write_script : Text → List Text → Text
write_script req cmd =
    str "printf %s "
    ++ (sh_quote (encode (encode_request cmd))
        ++ (str " | base64 -d > "
            ++ (sh_quote req
                ++ (str ".tmp && mv " ++ (sh_quote req ++ (str ".tmp " ++ sh_quote req))))))

unfoldable pub response_of : Result ResponseError ExecResult → Result ExecError ExecResult
response_of (ok r) = ok r
response_of (err e) = err (bad_response e)

unfoldable pub stop_script : Text → Text
stop_script run =
    str "pid=$(cat "
    ++ (sh_quote (path_join (run ∷ str "qemu.pid" ∷ []))
        ++ (str
              " 2>/dev/null || true)\nif [ -n \"$pid\" ]; then\n  kill \"$pid\" 2>/dev/null || true\n  for _ in $(seq 1 25); do kill -0 \"$pid\" 2>/dev/null || break; sleep 0.2; done\n  kill -9 \"$pid\" 2>/dev/null || true\nfi\npkill -9 -f "
            ++ (sh_quote (run ++ str "/rootfs")
                ++ (str " 2>/dev/null || true\nrm -rf " ++ sh_quote run))))

module _ {World : Type 0} (vm : Vm World) where
  unfoldable pub test_exists : Text → World → World × Ran
  test_exists file w = vm.run (str "sudo" ∷ str "test" ∷ str "-e" ∷ file ∷ []) w

  -- The loops of Boot and Exec: look for a file every so often, until a deadline.
  unfoldable pub wait : ℕ → ℕ → ℕ → Text → World → Wait World
  wait zero every deadline file w = out_of_fuel
  wait (suc fuel) every deadline file w = elim (ltb (vm.now w) deadline) [
    | true ↦ elim (succeeded (test_exists file w).1) [
      | true ↦ seen (test_exists file w).0
      | false ↦ wait fuel every deadline file (vm.sleep every (test_exists file w).0)
    ]
    | false ↦ timed_out w
  ]

  -- The fuel of a wait: a round takes a nanosecond at least.
  unfoldable pub wait_until : ℕ → ℕ → Text → World → Wait World
  wait_until every deadline file w = wait (suc (deadline - vm.now w)) every deadline file w

  abbrev pub Booted : Type 0
  Booted = World × Result BootError Text

  abbrev pub Executed : Type 0
  Executed = World × Result ExecError ExecResult

  -- Behind the loop of Boot: the tail of the console, and an end to the machine.
  unfoldable pub gave_up : BootSpec → World → Booted
  gave_up spec w =
      let (w1, tail) =
        vm.run (str "sudo" ∷ str "tail" ∷ str "-n" ∷ str "20" ∷ console_of spec.rootfs_rw ∷ []) w in
      let (w2, killed) =
        vm.run (str "sudo" ∷ str "bash" ∷ str "-c" ∷ kill_script (pidfile_of spec.rootfs_rw) ∷ [])
          w1 in
      (w2, err (not_ready spec.name tail.result.stdout))

  unfoldable pub boot_waited : BootSpec → Wait World → Option Booted
  boot_waited spec (seen w) = some (w, ok (path_dir spec.rootfs_rw))
  boot_waited spec (timed_out w) = some (gave_up spec w)
  boot_waited spec out_of_fuel = none

  unfoldable pub boot_launched : Option ℕ → BootSpec → World × Ran → Option Booted
  boot_launched ctx spec (w, r) =
      if r.failed
      then some (w, err launch_failed)
      else boot_waited spec (
          wait_until (500 * millisecond) (deadline_or (vm.now w + boot_timeout) ctx)
            (ready_of spec.rootfs_rw) w)

  unfoldable pub launch : BootSpec → World → World × Ran
  launch spec w =
      vm.run (str "sudo" ∷ str "setsid" ∷ str "bash" ∷ str "-c" ∷ launch_script spec ∷ []) w

  -- Driver.Boot
  unfoldable pub boot : Option ℕ → BootSpec → World → Option Booted
  boot ctx spec w = boot_launched ctx spec (launch spec w)

  unfoldable pub write_request : Text → ℕ → List Text → World → World × Ran
  write_request handle seq cmd w =
      vm.run
        (str "sudo"
          ∷ str "bash"
          ∷ str "-c"
          ∷ write_script (ctl_file handle seq (str ".req")) cmd
          ∷ [])
        w

  -- The response is removed once it has been read.
  unfoldable pub response_read : Text → World × Ran → Executed
  response_read res (w, out) = if out.failed then (w, err response_not_read) else (
    (vm.run (str "sudo" ∷ str "rm" ∷ str "-f" ∷ res ∷ []) w).0,
    response_of (parse_response out.result.stdout),
  )

  unfoldable pub read_response : Text → World → Executed
  read_response res w = response_read res (vm.run (str "sudo" ∷ str "cat" ∷ res ∷ []) w)

  unfoldable pub exec_waited : Text → List Text → Wait World → Option Executed
  exec_waited res cmd (seen w) = some (read_response res w)
  exec_waited res cmd (timed_out w) = some (w, err (timed_out_exec cmd))
  exec_waited res cmd out_of_fuel = none

  unfoldable pub exec_written : Option ℕ → Text → List Text → World × Ran → Option Executed
  exec_written ctx res cmd (w, r) =
      if r.failed
      then some (w, err request_not_written)
      else exec_waited res cmd
          (wait_until (200 * millisecond) (deadline_or (vm.now w + exec_timeout) ctx) res w)

  -- Driver.Exec
  unfoldable pub exec : Option ℕ → Text → List Text → World → Option Executed
  exec ctx handle cmd w =
      exec_written ctx (ctl_file handle (vm.now w) (str ".res")) cmd
        (write_request handle (vm.now w) cmd w)

  -- Driver.Stop: whether it returned no error.
  unfoldable pub stop : Text → World → World × Bool
  stop run w =
      let (w', r) = vm.run (str "sudo" ∷ str "bash" ∷ str "-c" ∷ stop_script run ∷ []) w in
      (w', not r.failed)
