-- ===== src/Runner/Cluster/Trace.antt =====
-- The order in which `Up` and `Down` ask things of the machine: a lab that keeps a log, and the log
-- that the plan of a topology calls for.
pub mod Composed
pub mod Steps
pub mod Ordered
use klab.Prelude.{ℕ, List, [], ◌∷◌, ◌++◌, Option, none, some, ◌≡◌, ok, if◌then◌else◌}
use klab.Exec.{Ran}
use klab.Text.{Text, str, is_empty}
use klab.Driver.{BootSpec, ExecResult}
use klab.Topology.{Topology, Instance, expand}
use klab.Runner.Plan.{Bridge, Tap, NetPlan}
use klab.Runner.Cluster.Scripts.{
  create_bridge_script, create_tap_script, prep_rootfs_script, ip_config_cmd, delete_script,
}
use klab.Runner.Cluster.{Lab, Outcome, run_dir, device_names}

-- What the cluster asks of the machine: a command, the image of a kernel, a machine of some name,
-- a command inside of a machine, and that a machine is stopped.
pub data Ask : Type 0 where
  ran_command : List Text → Ask
  asked_image booted_machine stopped_machine : Text → Ask
  ran_inside : Text → List Text → Ask

module _ {World : Type 0} (lab : Lab World) where
  -- The lab with a log of what it was asked, the last of which stands at the end.
  abbrev pub logged : Lab (World × List Ask)
  logged = record {
    home = lab.home;
    base = lab.base;
    capabilities = lab.capabilities;
    run = λ argv (w, l). let (v, r) = lab.run argv w in ((v, l ++ ran_command argv ∷ []), r);
    image =
        λ kernel (w, l). let (v, r) = lab.image kernel w in ((v, l ++ asked_image kernel ∷ []), r);
    boot =
        λ spec (w, l). let (v, r) = lab.boot spec w in ((v, l ++ booted_machine spec.name ∷ []), r);
    exec = λ time handle argv (w, l).
        let (v, r) = lab.exec time handle argv w in ((v, l ++ ran_inside handle argv ∷ []), r);
    stop = λ handle (w, l).
        let (v, r) = lab.stop handle w in ((v, l ++ stopped_machine handle ∷ []), r);
  }

  abbrev pub sudo : Text → Ask
  sudo script = ran_command (str "sudo" ∷ str "bash" ∷ str "-c" ∷ script ∷ [])

  abbrev pub bridge_asks : Bridge → List Ask
  bridge_asks b = sudo (create_bridge_script b.name) ∷ []

  abbrev pub tap_asks : Tap → List Ask
  tap_asks t = sudo (create_tap_script t.name t.bridge) ∷ []

  -- The root of an instance, and then its machine.
  abbrev pub root_asks : Instance → List Ask
  root_asks i = sudo (prep_rootfs_script lab.base (run_dir lab i.name)) ∷ booted_machine i.name ∷ []

  -- For an instance, the image of its kernel comes first.
  abbrev pub instance_asks : Instance → List Ask
  instance_asks i = asked_image i.node.kernel ∷ root_asks i

  abbrev pub address_asks : Tap → List Ask
  address_asks t =
      if is_empty t.ip then [] else ran_inside (run_dir lab t.node) (ip_config_cmd t.mac t.ip) ∷ []

  abbrev pub stop_asks : Instance → List Ask
  stop_asks i = stopped_machine (run_dir lab i.name) ∷ []

  abbrev pub delete_asks : List Text → List Ask
  delete_asks [] = []
  delete_asks (n ∷ ns) = sudo (delete_script (n ∷ ns)) ∷ []

  abbrev pub for_all : {A : Type 0} → (A → List Ask) → List A → List Ask
  for_all f [] = []
  for_all f (x ∷ xs) = f x ++ for_all f xs

  -- All bridges, then all taps, then all machines, and then all addresses.
  abbrev pub up_asks : Topology → NetPlan → List Ask
  up_asks t np =
      for_all bridge_asks np.bridges
      ++ (for_all tap_asks np.taps
          ++ (for_all instance_asks (expand t) ++ for_all address_asks np.taps))

  -- All machines, and then all devices.
  abbrev pub down_asks : Topology → NetPlan → List Ask
  down_asks t np = for_all stop_asks (expand t) ++ delete_asks (device_names np.taps np.bridges)

  -- What the lab with a log does against the lab without: the same, and what it was asked is a first
  -- part of the list, all of it where there was no error.
  pub record Follows (l asks : List Ask) (plain : Outcome lab) (with_log : Outcome logged)
      : Type 0 where
    pub done : List Ask
    pub rest : List Ask
    pub same : with_log ≡ ((plain.0, l ++ done), plain.1)
    pub parts : asks ≡ done ++ rest
    pub all_done : plain.1 ≡ ok tt → rest ≡ []
