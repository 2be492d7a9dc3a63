-- ===== src/Cli/Nodes.antt =====
-- klab up, down, status and exec: the cluster of a topology on the lima host. A run without a result
-- is one that panics, or a wait that is out of fuel.
use klab.Prelude.{
  ℕ, ◌+◌, Bool, true, false, List, [], ◌∷◌, ◌++◌, Option, none, some, Result, Check, ok, err,
  length, if◌then◌else◌,
}
use klab.Prelude.Int.{pos, is_zero}
use klab.Text.{Text, str, text_eq}
use klab.Text.Decimal.{itoa_ℕ}
use klab.Text.Path.{path_join}
use klab.Exec.{Ran}
use klab.Driver.{BootSpec, ExecResult}
use klab.Topology.{Topology, Instance, expand}
use klab.Topology.Load.{LoadError, load}
use klab.Qemu.{capabilities}
use klab.Qemu.Live.{ExecError, boot, exec, stop}
use klab.Runner.Cluster.{Lab, UpError, NodeStatus, up, down, status}
use klab.Cli.{
  System, Failure, no_base, home_not_run, no_home, load_failed, up_failed, no_node, exec_failed,
  usage_line, bringing_up, Ended, printed, noted, misused, died, padded, contents, home_of, vm_of,
}
use klab.Cli.Arguments.{exec_args}
use klab.Cli.Kernels.{resolve_kernel_image}

-- stateOf
unfoldable pub state_of : NodeStatus → Text
state_of s = if s.reachable then str "ready" else if s.running then str "running" else str "down"

unfoldable pub up_lines : List NodeStatus → Text
up_lines [] = []
up_lines (s ∷ ss) = str "  " ++ (s.name ++ (str ": " ++ (state_of s ++ (str "\n" ++ up_lines ss))))

unfoldable pub status_lines : List NodeStatus → Text
status_lines [] = []
status_lines (s ∷ ss) =
    padded 18 s.name ++ (str " " ++ (state_of s ++ (str "\n" ++ status_lines ss)))

unfoldable pub nodes_counted : ℕ → Text
nodes_counted n = itoa_ℕ n ++ str " node(s)"

unfoldable pub has_instance : Text → List Instance → Bool
has_instance name [] = false
has_instance name (i ∷ is) =
    let rest = has_instance name is in if text_eq i.name name then true else rest

unfoldable pub image_found : {World : Type 0} → World × Result Failure Text → World × Option Text
image_found (w, ok image) = (w, some image)
image_found (w, err e) = (w, none)

-- A state of the machine, or none where the command hangs or has panicked: nothing follows then.
-- What a call answers is of no account there, as no state comes of it.
unfoldable pub going :
    {World A : Type 0} → A → (World → World × A) → Option World → Option World × A
going lost f none = (none, lost)
going lost f (some w) = let (v, a) = f w in (some v, a)

-- What a run of Up or Status leads to, if it does not hang.
unfoldable pub over : {World : Type 0} → Option World × Ended → Option (World × Ended)
over (none, e) = none
over (some w, e) = some (w, e)

unfoldable pub not_run : Ran
not_run = record { result = record { exit_code = pos 0; stdout = []; stderr = [] }; failed = true }

-- Whether a boot came up, where it ends.
unfoldable pub booted_of :
    {World Error : Type 0} → Option (World × Result Error Text) → Option World × Bool
booted_of none = (none, false)
booted_of (some (v, ok handle)) = (some v, true)
booted_of (some (v, err e)) = (some v, false)

-- The answer of a command in a guest, where it ends.
unfoldable pub answer_of :
    {World Error : Type 0}
    → Option (World × Result Error ExecResult)
    → Option World × Option ExecResult
answer_of none = (none, none)
answer_of (some (v, ok r)) = (some v, some r)
answer_of (some (v, err e)) = (some v, none)

-- context.WithTimeout
unfoldable pub deadline_after : ℕ → Option ℕ → Option ℕ
deadline_after now none = none
deadline_after now (some d) = some (now + d)

module _ {World : Type 0} (sys : System World) where
  abbrev pub Run : Type 0
  Run = World × Ended

  -- vmHome
  unfoldable pub home_found : World × Ran → World × Result Failure Text
  home_found (w, r) =
      if r.failed
      then (w, err home_not_run)
      else elim (home_of r) [ none ↦ (w, err no_home) | some h ↦ (w, ok h) ]

  unfoldable pub vm_home : World → World × Result Failure Text
  vm_home w = home_found ((vm_of sys).run (str "sh" ∷ str "-c" ∷ str "echo $HOME" ∷ []) w)

  unfoldable pub boot_from : BootSpec → Option World → Option World × Bool
  boot_from spec none = (none, false)
  boot_from spec (some w) = booted_of (boot (vm_of sys) none spec w)

  unfoldable pub exec_from :
      Option ℕ → Text → List Text → Option World → Option World × Option ExecResult
  exec_from allowed handle cmd none = (none, none)
  exec_from allowed handle cmd (some w) =
      answer_of (exec (vm_of sys) (deadline_after (sys.now w) allowed) handle cmd w)

  -- The cluster of newCluster.
  unfoldable pub lab_at : Text → Lab (Option World)
  lab_at home = record {
    home = home;
    base = path_join (home ∷ str ".cache/klab/rootfs/base/bpf-min" ∷ []);
    capabilities = capabilities;
    run = λ argv. going not_run ((vm_of sys).run argv);
    image = λ name. going none (λ w. image_found (resolve_kernel_image sys name w));
    boot = boot_from;
    exec = exec_from;
    stop = λ handle. going false (stop (vm_of sys) handle);
  }

  unfoldable pub loaded : Text → World → Result LoadError Topology
  loaded path w = load (λ p. contents (sys.read_file p w)) sys.unmarshal_yaml path

  -- newCluster, and what is done with it.
  unfoldable pub with_cluster :
      World × Result Failure Text → (Lab (Option World) → World → Option Run) → Option Run
  with_cluster (w, err e) f = some (w, died e)
  with_cluster (w, ok home) f = f (lab_at home) w

  -- The start of up, down and status.
  unfoldable pub of_topology :
      Text
      → (Topology → Lab (Option World) → World → Option Run)
      → World
      → Result LoadError Topology
      → Option Run
  of_topology path f w (err e) = some (w, died (load_failed e))
  of_topology path f w (ok t) = with_cluster (vm_home w) (f t)

  unfoldable pub with_topology :
      Text → (Topology → Lab (Option World) → World → Option Run) → List Text → World → Option Run
  with_topology usage f [] w = some (w, misused (usage_line usage))
  with_topology usage f (path ∷ []) w = of_topology path f w (loaded path w)
  with_topology usage f (path ∷ a ∷ args) w = some (w, misused (usage_line usage))

  unfoldable pub up_done :
      Topology → Lab (Option World) → Option World × Check UpError → Option World × Ended
  up_done t lab (w, err e) = (w, died (up_failed e))
  up_done t lab (w, ok u) =
      let (v, ss) = status lab t w in
      (
        v,
        printed (
            up_lines ss
            ++ (t.name ++ (str ": up (" ++ (nodes_counted (length (expand t)) ++ str ")\n")))),
      )

  -- The error of Run is not looked at, and its exit code is 0 beside one.
  unfoldable pub up_on : Topology → Lab (Option World) → Option World × Ran → Option World × Ended
  up_on t lab (w, r) =
      if is_zero r.result.exit_code
      then (let (v, e) = up_done t lab (up lab t w) in
          (v, noted (bringing_up t.name (length (expand t))) e))
      else (w, died (no_base lab.base))

  unfoldable pub up_cluster : Topology → Lab (Option World) → World → Option Run
  up_cluster t lab w = over (
      up_on t lab (
        lab.run (str "sudo" ∷ str "test" ∷ str "-e" ∷ (lab.base ++ str "/sbin/klab-init") ∷ [])
          (some w)))

  -- upCmd
  unfoldable pub up_cmd : List Text → World → Option Run
  up_cmd = with_topology (str "usage: klab up <topology>") up_cluster

  unfoldable pub down_cluster : Topology → Lab (Option World) → World → Option Run
  down_cluster t lab w = elim (down lab t (some w)) [
    | none ↦ none
    | some o ↦ over (o, printed (t.name ++ str ": down\n"))
  ]

  unfoldable pub status_cluster : Topology → Lab (Option World) → World → Option Run
  status_cluster t lab w =
      let (o, ss) = status lab t (some w) in over (o, printed (status_lines ss))

  -- downCmd
  unfoldable pub down_cmd : List Text → World → Option Run
  down_cmd = with_topology (str "usage: klab down <topology>") down_cluster

  -- statusCmd
  unfoldable pub status_cmd : List Text → World → Option Run
  status_cmd = with_topology (str "usage: klab status <topology>") status_cluster

  unfoldable pub exec_done : Option (World × Result ExecError ExecResult) → Option Run
  exec_done none = none
  exec_done (some (w, err e)) = some (w, died (exec_failed e))
  exec_done (some (w, ok r)) =
      some (w, record { stdout = r.stdout; notes = []; code = r.exit_code })

  unfoldable pub exec_at : Text → List Text → World × Result Failure Text → Option Run
  exec_at node cmd (w, err e) = some (w, died e)
  exec_at node cmd (w, ok home) =
      exec_done (exec (vm_of sys) none (path_join (home ∷ str ".cache/klab/run" ∷ node ∷ [])) cmd w)

  unfoldable pub exec_in : Text → List Text → World → Result LoadError Topology → Option Run
  exec_in node cmd w (err e) = some (w, died (load_failed e))
  exec_in node cmd w (ok t) =
      if has_instance node (expand t)
      then exec_at node cmd (vm_home w)
      else some (w, died (no_node node t.name))

  unfoldable pub exec_asked : World → Option (Text × Text × List Text) → Option Run
  exec_asked w none =
      some (w, misused (usage_line (str "usage: klab exec <topology> <node> -- <cmd> [args...]")))
  exec_asked w (some (topo, node, cmd)) = exec_in node cmd w (loaded topo w)

  -- execCmd
  unfoldable pub exec_cmd : List Text → World → Option Run
  exec_cmd args w = exec_asked w (exec_args args)
