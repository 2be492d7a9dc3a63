-- ===== src/Runner/Cluster.antt =====
-- `Up` and `Down` of internal/runner/cluster.go, on a machine whose commands may fail. The runner,
-- the driver's live path and the lookup of kernel images are parameters.
pub mod Scripts
pub mod Booted
pub mod Nodes
pub mod Reports
pub mod Tidy
pub mod Leaks
pub mod Handles
pub mod Order
pub mod Trace
pub mod Kept
use klab.Prelude.{
  ℕ, List, [], ◌∷◌, ◌++◌, Bool, true, false, Option, none, some, Result, Check, ok, err,
  if◌then◌else◌, ◌==◌,
}
use klab.Prelude.Int.{is_zero}
use klab.Text.{Text, str, text_eq, is_empty, join}
use klab.Text.Path.{path_join}
use klab.Exec.{Ran, succeeded}
use klab.Driver.{Caps, Nic, BootSpec, ExecResult}
use klab.Topology.{Topology, Instance, expand}
use klab.Runner.Cluster.Scripts.{
  create_bridge_script, create_tap_script, prep_rootfs_script, ip_config_cmd, delete_script,
  running_script,
}
use klab.Runner.Plan.{Bridge, Tap, NetPlan, PlanError, plan}
use klab.Runner.Resolve.{Error, resolve_boot_spec, check_caps}

pub data UpError : Type 0 where
  plan_failed : PlanError → UpError
  bridge_failed tap_failed : Text → UpError
  no_image no_rootfs boot_failed : Text → UpError
  rejected : Error → UpError
  not_assigned no_interface : Text → Text → UpError

-- What a cluster uses of the machine; `World` is its state. The first argument of `exec` is the time
-- that the call has, if it is bounded.
pub record Lab (World : Type 0) : Type 0 where
  pub home : Text
  pub base : Text
  pub capabilities : Caps
  pub run : List Text → World → World × Ran
  pub image : Text → World → World × Option Text
  pub boot : BootSpec → World → World × Bool
  pub exec : Option ℕ → Text → List Text → World → World × Option ExecResult
  pub stop : Text → World → World × Bool

-- The taps of an instance, in the order of the plan.
unfoldable pub nics_of : List Tap → Text → List Nic
nics_of [] name = []
nics_of (t ∷ ts) name =
    let rest = nics_of ts name in
    if text_eq t.node name then (record { tap = t.name; mac = t.mac }) ∷ rest else rest

unfoldable pub device_names : List Tap → List Bridge → List Text
device_names [] [] = []
device_names [] (b ∷ bs) = b.name ∷ device_names [] bs
device_names (t ∷ ts) bs = t.name ∷ device_names ts bs

pub record NodeStatus : Type 0 where
  pub name : Text
  pub running : Bool
  pub reachable : Bool

unfoldable pub answers : Option ExecResult → Bool
answers none = false
answers (some r) = is_zero r.exit_code

module _ {World : Type 0} (lab : Lab World) where
  abbrev pub Outcome : Type 0
  Outcome = World × Check UpError

  -- What follows a step that returned no error.
  unfoldable pub and_then : Outcome → (World → Outcome) → Outcome
  and_then (w, ok u) f = f w
  and_then (w, err e) f = (w, err e)

  unfoldable pub each : {A : Type 0} → (A → World → Outcome) → List A → World → Outcome
  each f [] w = (w, ok tt)
  each f (x ∷ xs) w = and_then (f x w) (each f xs)

  -- A command counts as done once it ran: its exit code is not looked at.
  unfoldable pub ran : UpError → World × Ran → Outcome
  ran e (w, r) = if r.failed then (w, err e) else (w, ok tt)

  unfoldable pub sudo_bash : Text → World → World × Ran
  sudo_bash script w = lab.run (str "sudo" ∷ str "bash" ∷ str "-c" ∷ script ∷ []) w

  unfoldable pub run_dir : Text → Text
  run_dir name = path_join (lab.home ∷ str ".cache/klab/run" ∷ name ∷ [])

  unfoldable pub create_bridge : Bridge → World → Outcome
  create_bridge b w = ran (bridge_failed b.name) (sudo_bash (create_bridge_script b.name) w)

  unfoldable pub create_tap : Tap → World → Outcome
  create_tap t w = ran (tap_failed t.name) (sudo_bash (create_tap_script t.name t.bridge) w)

  unfoldable pub prep_rootfs : Text → World → Outcome
  prep_rootfs name w =
      ran (no_rootfs name) (sudo_bash (prep_rootfs_script lab.base (run_dir name)) w)

  unfoldable pub booted : Text → World × Bool → Outcome
  booted name (w, true) = (w, ok tt)
  booted name (w, false) = (w, err (boot_failed name))

  unfoldable pub boot_spec : List Tap → Text → Result Error BootSpec → World → Outcome
  boot_spec taps name (err e) w = (w, err (rejected e))
  boot_spec taps name (ok spec) w =
      booted name (lab.boot (record spec { nics = nics_of taps name }) w)

  unfoldable pub checked : World → Check Error → Outcome
  checked w (ok u) = (w, ok tt)
  checked w (err e) = (w, err (rejected e))

  unfoldable pub boot_image : List Tap → Instance → World × Option Text → Outcome
  boot_image taps i (w, none) = (w, err (no_image i.name))
  boot_image taps i (w, some img) =
      and_then (checked w (check_caps i.node.driver i.node lab.capabilities)) (λ w1.
        and_then (prep_rootfs i.name w1) (
          boot_spec taps i.name (
            resolve_boot_spec i.name i.node img (run_dir i.name ++ str "/rootfs")
              (run_dir i.name ++ str "/rw"))))

  -- The body of the loop over the instances.
  unfoldable pub boot_instance : List Tap → Instance → World → Outcome
  boot_instance taps i w = boot_image taps i (lab.image i.node.kernel w)

  unfoldable pub assigned : Tap → World × Option ExecResult → Outcome
  assigned t (w, none) = (w, err (not_assigned t.node t.ip))
  assigned t (w, some r) =
      if is_zero r.exit_code then (w, ok tt) else (w, err (no_interface t.node t.ip))

  -- The body of the loop that configures the addresses.
  unfoldable pub assign_ip : Tap → World → Outcome
  assign_ip t w =
      if is_empty t.ip
      then (w, ok tt)
      else assigned t (lab.exec none (run_dir t.node) (ip_config_cmd t.mac t.ip) w)

  unfoldable pub up_plan : Topology → World → Result PlanError NetPlan → Outcome
  up_plan t w (err e) = (w, err (plan_failed e))
  up_plan t w (ok np) = and_then (each create_bridge np.bridges w) (λ w1.
      and_then (each create_tap np.taps w1)
        (λ w2. and_then (each (boot_instance np.taps) (expand t) w2) (each assign_ip np.taps)))

  -- Cluster.Up
  unfoldable pub up : Topology → World → Outcome
  up t w = up_plan t w (plan t)

  -- The loop over the instances: errors are dropped.
  unfoldable pub stop_all : List Instance → World → World
  stop_all [] w = w
  stop_all (i ∷ is) w = stop_all is (lab.stop (run_dir i.name) w).0

  unfoldable pub delete_devices : List Text → World → World
  delete_devices [] w = w
  delete_devices (l ∷ ls) w = (sudo_bash (delete_script (l ∷ ls)) w).0

  -- Where Plan returns an error its plan is nil, and reading its taps panics: no state is left.
  unfoldable pub devices_deleted : World → Result PlanError NetPlan → Option World
  devices_deleted w (err e) = none
  devices_deleted w (ok np) = some (delete_devices (device_names np.taps np.bridges) w)

  -- Cluster.Down
  unfoldable pub down : Topology → World → Option World
  down t w = devices_deleted (stop_all (expand t) w) (plan t)

  -- The ping of a node whose machine runs: `true` within three seconds.
  unfoldable pub pinged : Text → World × Ran → World × NodeStatus
  pinged name (w, r) =
      if succeeded r
      then (let (w1, res) = lab.exec (some 3_000_000_000) (run_dir name) (str "true" ∷ []) w in
          (w1, record { name = name; running = true; reachable = answers res }))
      else (w, record { name = name; running = false; reachable = false })

  -- The body of the loop over the instances.
  unfoldable pub node_status : Text → World → World × NodeStatus
  node_status name w = pinged name (sudo_bash (running_script (run_dir name)) w)

  unfoldable pub statuses : List Instance → World → World × List NodeStatus
  statuses [] w = (w, [])
  statuses (i ∷ is) w =
      let (w1, s) = node_status i.name w in let (w2, ss) = statuses is w1 in (w2, s ∷ ss)

  -- Cluster.Status
  unfoldable pub status : Topology → World → World × List NodeStatus
  status t w = statuses (expand t) w
