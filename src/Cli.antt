-- ===== src/Cli.antt =====
-- cmd/klab/main.go: the command line. What a command prints, what it says on standard error and the
-- code that it exits with are values; a message is a constructor with what it quotes. The machine is
-- the parameter `System`.
pub mod Arguments
pub mod Kernels
pub mod Nodes
pub mod Main
pub mod Built
pub mod Executed
pub mod Going
pub mod Ends
pub mod Up
pub mod Doctored
pub mod Validated
use klab.Prelude.{
  ℕ, zero, suc, ◌-◌, Bool, true, false, List, [], ◌∷◌, ◌++◌, Option, none, some, leb, ◌==◌, ◌&&◌,
  if◌then◌else◌,
}
use klab.Prelude.Int.{ℤ, pos}
use klab.Text.{Text, str, text_eq, is_empty}
use klab.Text.Order.{sort}
use klab.Text.Path.{path_join}
use klab.Text.Space.{trim_space}
use klab.Exec.{Ran, Process, lima_run}
use klab.Host.Probe.{Env}
use klab.Topology.{Topology}
use klab.Topology.Load.{LoadError}
use klab.Kernel.Store.{Spec, Artifact, Contents, found, not_exist, unreadable, StoreError}
use klab.Kernel.Builder.{BuildError}
use klab.Qemu.Live.{Vm, ExecError}
use klab.Runner.Cluster.{UpError}

-- What the commands use of the machine; `World` is its state. `probed` runs the commands of the probe:
-- it gives what they say, and the state that they leave.
pub record System (World : Type 0) : Type 0 where
  pub read_file : Text → World → Contents Text
  pub mkdir_all : Text → World → World × Bool
  pub write_file : Text → Text → World → World × Bool
  pub exists : Text → World → Bool
  pub marshal : Artifact → Option Text
  pub unmarshal : Text → Option Artifact
  pub unmarshal_yaml : Text → Option Topology
  pub sum : Text → Text
  pub quote : Text → Text
  pub start : List Text → World → World × Process
  pub now : World → ℕ
  pub sleep : ℕ → World → World
  pub home : Text
  pub executable : Option Text
  pub probed : World → World × Env

-- The errors that end a command with exit code 1.
pub data Failure : Type 0 where
  unknown_kernel no_fragment not_built corrupt_cache no_base no_script : Text → Failure
  store_failed : StoreError BuildError → Failure
  home_not_run no_home script_not_run : Failure
  load_failed : LoadError → Failure
  up_failed : UpError → Failure
  no_node : Text → Text → Failure
  exec_failed : ExecError → Failure
  not_implemented : Text → Text → Failure

-- A message on standard error.
pub data Note : Type 0 where
  usage_note : Note
  usage_line unknown_command unknown_subcommand bad_flag flags_note : Text → Note
  invalid : LoadError → Note
  failure : Failure → Note
  building : Spec → Text → Note
  bringing_up : Text → ℕ → Note

-- What the command itself prints and says. A script or a build that it runs inherits its streams, and
-- what that writes is part of the state of the machine.
pub record Ended : Type 0 where
  pub stdout : Text
  pub notes : List Note
  pub code : ℤ

-- A command that printed a text and returned.
unfoldable pub printed : Text → Ended
printed s = record { stdout = s; notes = []; code = pos 0 }

-- What was said before a command ended.
unfoldable pub noted : Note → Ended → Ended
noted n e = record e { notes = n ∷ e.notes }

-- `fmt.Fprintln(os.Stderr, …); os.Exit(2)`
unfoldable pub misused : Note → Ended
misused n = record { stdout = []; notes = n ∷ []; code = pos 2 }

-- die
unfoldable pub died : Failure → Ended
died f = record { stdout = []; notes = failure f ∷ []; code = pos 1 }

-- Continuation bytes of UTF-8 do not count: the width that fmt pads to is in runes.
unfoldable pub rune_count : Text → ℕ
rune_count [] = zero
rune_count (c ∷ s) = let n = rune_count s in if leb 128 c && leb c 191 then n else suc n

unfoldable pub blanks : ℕ → Text
blanks zero = []
blanks (suc n) = b' ' ∷ blanks n

-- `%-<n>s`
unfoldable pub padded : ℕ → Text → Text
padded n s = s ++ blanks (n - rune_count s)

-- builtinSpecs
unfoldable pub bpf_spec : Text → Text → Spec
bpf_spec name arch = record {
  name = name;
  ref = str "v6.12";
  arch = arch;
  base_config = str "defconfig";
  fragments = str "configs/kernel/bpf-min.config" ∷ [];
}

unfoldable pub builtin_specs : List (Text × Spec)
builtin_specs =
    (str "bpf-arm64", bpf_spec (str "bpf-arm64") (str "arm64"))
    ∷ (str "bpf-x86_64", bpf_spec (str "bpf-x86_64") (str "x86_64"))
    ∷ []

-- builtinSpecs[name]
unfoldable pub lookup_spec : Text → List (Text × Spec) → Option Spec
lookup_spec name [] = none
lookup_spec name ((n, s) ∷ specs) = if text_eq n name then some s else lookup_spec name specs

unfoldable pub names_in : List (Text × Spec) → List Text
names_in [] = []
names_in ((n, s) ∷ specs) = n ∷ names_in specs

-- specNames
unfoldable pub spec_names : List Text
spec_names = sort (names_in builtin_specs)

unfoldable pub contents : Contents Text → Option Text
contents (found s) = some s
contents not_exist = none
contents unreadable = none

unfoldable pub home_of : Ran → Option Text
home_of r = let h = trim_space r.result.stdout in if is_empty h then none else some h

module _ {World : Type 0} (sys : System World) where
  -- The machine as the driver's live path sees it, through `kexec.LimaRunner{}`.
  unfoldable pub vm_of : Vm World
  vm_of = record { run = lima_run sys.start []; now = sys.now; sleep = sys.sleep }

  -- cacheRoot
  unfoldable pub cache_root : Text
  cache_root = path_join (sys.home ∷ str "klab" ∷ str "cache" ∷ [])
