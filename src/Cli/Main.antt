-- ===== src/Cli/Main.antt =====
-- main, validate, setup and doctor.
use klab.Prelude.{Bool, ◌||◌, List, [], ◌∷◌, Option, none, some, Check, ok, err, if◌then◌else◌}
use klab.Prelude.Int.{pos}
use klab.Text.{Text, str, text_eq}
use klab.Text.Path.{path_join, path_dir}
use klab.Exec.{Process, exited, broken}
use klab.Host.{run}
use klab.Host.Probe.{probe}
use klab.Topology.Load.{LoadError, validate_file}
use klab.Cli.{
  System, no_script, script_not_run, not_implemented, usage_note, usage_line, unknown_command,
  bad_flag, flags_note, invalid, Ended, printed, misused, died, contents,
}
use klab.Cli.Arguments.{Parsed, rest_of, asked_help, bad, parse_flags}
use klab.Cli.Kernels.{kernel_cmd}
use klab.Cli.Nodes.{up_cmd, down_cmd, status_cmd, exec_cmd}

-- usage
unfoldable pub usage : Text
usage =
    str
      "klab — a lab for custom-kernel Linux topologies\n\nusage:\n  klab version                 print version\n  klab setup [--yes]           detect + auto-configure the host (installs deps, starts host)\n  klab doctor                  check host readiness (chip, macOS, /dev/kvm, RAM)\n  klab validate <file>         validate a topology file\n  klab kernel list             list the kernels in the matrix\n  klab kernel build <name>     build a kernel from the matrix (arm64/x86_64)\n  klab up <topology>           boot a single-node topology\n  klab exec <topo> <node> -- <cmd>   run a command inside a node\n  klab down <topology>         tear a topology down\n  klab status <topology>       show node status                                    [stage 2]\n  klab ssh <topology> <node>   shell into a node                                   [stage 2]\n  klab run <experiment>        run an experiment (setup/run/collect)               [stage 3]\n"

unfoldable pub is_one_of : Text → Text → Text → Text → Bool
is_one_of cmd a b c = text_eq cmd a || text_eq cmd b || text_eq cmd c

-- notImplemented
unfoldable pub not_implemented_cmd : Text → Text → Ended
not_implemented_cmd cmd stage = died (not_implemented cmd stage)

unfoldable pub validated : Check LoadError → Ended
validated (ok u) = printed (str "ok\n")
validated (err e) = record { stdout = []; notes = invalid e ∷ []; code = pos 1 }

-- The places where a script may be.
unfoldable pub candidates : Text → Option Text → List Text
candidates name none = path_join (str "scripts" ∷ name ∷ []) ∷ []
candidates name (some exe) =
    path_join (str "scripts" ∷ name ∷ [])
    ∷ path_join (path_dir exe ∷ str "scripts" ∷ name ∷ [])
    ∷ path_join (path_dir exe ∷ str ".." ∷ str "scripts" ∷ name ∷ [])
    ∷ []

unfoldable pub first_that : (Text → Bool) → List Text → Option Text
first_that exists [] = none
first_that exists (c ∷ cs) = let rest = first_that exists cs in if exists c then some c else rest

unfoldable pub script_ended : Process → Ended
script_ended (exited code out errors) = record { stdout = []; notes = []; code = code }
script_ended (broken out errors) = died script_not_run

module _ {World : Type 0} (sys : System World) where
  abbrev pub Run : Type 0
  Run = World × Ended

  unfoldable pub validate_args : World → Parsed → Ended
  validate_args w (rest_of (path ∷ [])) =
      validated (validate_file (λ p. contents (sys.read_file p w)) sys.unmarshal_yaml path)
  validate_args w (rest_of []) = misused (usage_line (str "usage: klab validate <topology.yaml>"))
  validate_args w (rest_of (path ∷ a ∷ args)) =
      misused (usage_line (str "usage: klab validate <topology.yaml>"))
  validate_args w asked_help = record {
    stdout = [];
    notes = flags_note (str "validate") ∷ [];
    code = pos 0;
  }
  validate_args w (bad arg) = misused (bad_flag arg)

  -- validateCmd
  unfoldable pub validate_cmd : List Text → World → Run
  validate_cmd args w = (w, validate_args w (parse_flags args))

  unfoldable pub run_found : Text → List Text → World → Option Text → Run
  run_found name args w none = (w, died (no_script name))
  run_found name args w (some script) =
      let (v, p) = sys.start (str "bash" ∷ script ∷ args) w in (v, script_ended p)

  -- runScript
  unfoldable pub run_script : Text → List Text → World → Run
  run_script name args w =
      run_found name args w (first_that (λ c. sys.exists c w) (candidates name sys.executable))

  unfoldable pub doctor : World → Run
  doctor w =
      let (v, env) = sys.probed w in
      let (report, code) = run sys.quote (probe env) in
      (v, record { stdout = report; notes = []; code = pos code })

  unfoldable pub dispatch : Text → List Text → World → Option Run
  dispatch cmd args w =
      if is_one_of cmd (str "version") (str "--version") (str "-v")
      then some (w, printed (str "klab 0.0.0-dev\n"))
      else if is_one_of cmd (str "help") (str "--help") (str "-h")
      then some (w, printed usage)
      else if text_eq cmd (str "validate")
      then some (validate_cmd args w)
      else if text_eq cmd (str "doctor")
      then some (doctor w)
      else if text_eq cmd (str "setup")
      then some (run_script (str "setup.sh") args w)
      else if text_eq cmd (str "kernel")
      then some (kernel_cmd sys args w)
      else if text_eq cmd (str "up")
      then up_cmd sys args w
      else if text_eq cmd (str "down")
      then down_cmd sys args w
      else if text_eq cmd (str "exec")
      then exec_cmd sys args w
      else if text_eq cmd (str "status")
      then status_cmd sys args w
      else if text_eq cmd (str "ssh")
      then some (w, not_implemented_cmd cmd (str "stage 2"))
      else if text_eq cmd (str "run")
      then some (w, not_implemented_cmd cmd (str "stage 3"))
      else some
          (w, record { stdout = []; notes = unknown_command cmd ∷ usage_note ∷ []; code = pos 2 })

  -- main, of the arguments behind the program's name.
  unfoldable pub main : List Text → World → Option Run
  main [] w = some (w, misused usage_note)
  main (cmd ∷ args) w = dispatch cmd args w
