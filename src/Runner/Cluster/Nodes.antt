-- ===== src/Runner/Cluster/Nodes.antt =====
-- When Up succeeds.
use klab.Prelude.{◌≡◌, ◌++◌, Bool, true, false, Option, none, some, ok, All}
use klab.Prelude.Int.{ℤ, is_zero}
use klab.Text.{Text, str, is_empty}
use klab.Exec.{Ran}
use klab.Driver.{BootSpec, ExecResult}
use klab.Topology.{Topology, Instance, expand}
use klab.Runner.Plan.{Bridge, Tap}
use klab.Runner.Plan.Numbering.{wanted_plan}
use klab.Runner.Resolve.{parse_mem, resolve_boot_spec}
use klab.Runner.Resolve.Suitable.{Suits}
use klab.Runner.Cluster.Scripts.{
  create_bridge_script, create_tap_script, prep_rootfs_script, ip_config_cmd,
}
use klab.Runner.Cluster.{nics_of, Lab, Outcome, sudo_bash, run_dir}

code_zero : Option ExecResult → Bool
code_zero none = true
code_zero (some r) = is_zero r.exit_code

module _ {World : Type 0} (P : World → Type 0) where
  -- The command ran, and leads to a state with `P`.
  abbrev pub Runs : World × Ran → Type 0
  Runs o = P o.0 × (o.1.failed ≡ false)

  -- The guest answered with the code 0, and the state has `P`.
  abbrev pub Assigns : World × Option ExecResult → Type 0
  Assigns o = P o.0 × ((r : ExecResult) × (o.1 ≡ some r) × (is_zero r.exit_code ≡ true))

module _ {World : Type 0} (lab : Lab World) where
  -- In a state with `P` the operation succeeds, and it leads to a state with `P`.
  module _ (P : World → Type 0) (t : Topology) where
    abbrev pub BridgeMade : Bridge → Type 0
    BridgeMade b = (w : World) → P w → Runs P (sudo_bash lab (create_bridge_script b.name) w)

    abbrev pub TapMade : Tap → Type 0
    TapMade p = (w : World) → P w → Runs P (sudo_bash lab (create_tap_script p.name p.bridge) w)

    abbrev pub ImageFound : Instance → Type 0
    ImageFound i =
        (w : World)
        → P w
        → P (lab.image i.node.kernel w).0
          × ((img : Text) × ((lab.image i.node.kernel w).1 ≡ some img))

    abbrev pub RootMade : Instance → Type 0
    RootMade i =
        (w : World)
        → P w
        → Runs P (sudo_bash lab (prep_rootfs_script lab.base (run_dir lab i.name)) w)

    abbrev pub with_nics : Instance → BootSpec → BootSpec
    with_nics i spec = record spec { nics = nics_of (wanted_plan t).taps i.name }

    abbrev pub Boots : Instance → Type 0
    Boots i =
        (img : Text) (spec : BootSpec) (w : World)
        → resolve_boot_spec i.name i.node img (run_dir lab i.name ++ str "/rootfs")
            (run_dir lab i.name ++ str "/rw")
          ≡ ok spec
        → P w
        → P (lab.boot (with_nics i spec) w).0 × ((lab.boot (with_nics i spec) w).1 ≡ true)

    abbrev pub AddressSet : Tap → Type 0
    AddressSet p =
        (w : World)
        → is_empty p.ip ≡ false
        → P w
        → Assigns P (lab.exec none (run_dir lab p.node) (ip_config_cmd p.mac p.ip) w)

    -- All that Up asks for on the topology succeeds.
    pub record Serves : Type 0 where
      pub bridges_made : All BridgeMade (wanted_plan t).bridges
      pub taps_made : All TapMade (wanted_plan t).taps
      pub images_found : All ImageFound (expand t)
      pub roots_made : All RootMade (expand t)
      pub boots : All Boots (expand t)
      pub addresses_set : All AddressSet (wanted_plan t).taps

  -- A node that the driver suits and whose memory size is one.
  abbrev pub IsBootable : Instance → Type 0
  IsBootable i = Suits i.node lab.capabilities × ((n : ℤ) × (parse_mem i.node.mem ≡ ok n))

  module _ (P : World → Type 0) where
    -- A step that returns no error, and keeps `P`.
    abbrev Does : Outcome lab → Type 0
    Does o = (w : World) × P w × (o ≡ (w, ok tt))

    abbrev Can : (World → Outcome lab) → Type 0
    Can f = (w : World) → P w → Does (f w)

    module _ (t : Topology) (serves : Serves P t) where
      -- What is asked for an instance succeeds.
      record Ready (i : Instance) : Type 0 where
        bootable : IsBootable i
        image_found : ImageFound P t i
        root_made : RootMade P t i
        boots_up : Boots P t i
