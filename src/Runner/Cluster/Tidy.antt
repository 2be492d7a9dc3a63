-- ===== src/Runner/Cluster/Tidy.antt =====
-- What `Up` may leave on the machine, wherever it stops: devices of its plan, and machines of its
-- topology.
pub mod Grown
use klab.Prelude.{
  ℕ, ◌≡◌, ◌≢◌, ◌⊎◌, inl, inr, refl, sym, ap, ◌∙◌, arith, List, [], ◌∷◌, ◌++◌, map, Bool, true,
  false, Option, none, some, Result, Check, ok, err, Any, All, All-imp, Bool-cases, >>=-ok,
  if◌then◌else◌,
}
use klab.Prelude.Int.{ℤ, is_zero}
use klab.Exec.{Ran}
use klab.Text.{Text, str, is_empty}
use klab.Text.Path.{path_dir, path_join}
use klab.Text.Path.Parent.{path_dir-path_join}
use klab.Driver.{BootSpec, ExecResult}
use klab.Topology.{Node, Topology, Instance, expand}
use klab.Runner.Plan.{Bridge, Tap, NetPlan, PlanError, plan}
use klab.Runner.Plan.Words.{IsWord, Worded}
use klab.Runner.Plan.Numbering.{wanted_plan}
use klab.Runner.Resolve.{Error, parse_mem, resolve_boot_spec, check_caps}
use klab.Runner.Cluster.Scripts.{
  create_bridge_script, create_tap_script, prep_rootfs_script, delete_script,
}
use klab.Runner.Cluster.{
  Lab, UpError, Outcome, and_then, each, ran, sudo_bash, run_dir, create_bridge, create_tap,
  prep_rootfs, booted, boot_spec, checked, boot_image, boot_instance, assigned, assign_ip, up_plan,
  up, nics_of, device_names,
}

-- The value is in the list.
abbrev pub Among : Text → List Text → Type 0
Among x = Any (λ y. y ≡ x)

-- `Device d w`: there is a network device `d`; `Guest h w`: a machine runs whose handle is `h`.
module _ {World : Type 0} (Device Guest : Text → World → Type 0) where
  -- From the first world to the second, no devices and machines came up but those of the lists.
  pub record Within (ds gs : List Text) (v w : World) : Type 0 where
    pub devices : (d : Text) → Device d w → Among d ds ⊎ Device d v
    pub guests : (g : Text) → Guest g w → Among g gs ⊎ Guest g v

  pub Within-refl : {ds gs : List Text} (w : World) → Within ds gs w w
  Within-refl w = record { devices = λ d h. inr h; guests = λ g h. inr h }

  pub Within-trans :
      {ds gs : List Text} {u v w : World} → Within ds gs u v → Within ds gs v w → Within ds gs u w
  Within-trans p q = record {
    devices = λ d h. elim (q.devices d h) [ inl m ↦ inl m | inr k ↦ p.devices d k ];
    guests = λ g h. elim (q.guests g h) [ inl m ↦ inl m | inr k ↦ p.guests g k ];
  }

  pub Within-more :
      {ds gs es hs : List Text} {v w : World}
      → ((d : Text) → Among d ds → Among d es)
      → ((g : Text) → Among g gs → Among g hs)
      → Within ds gs v w
      → Within es hs v w
  Within-more more_d more_g p = record {
    devices = λ d h. elim (p.devices d h) [ inl m ↦ inl (more_d d m) | inr k ↦ inr k ];
    guests = λ g h. elim (p.guests g h) [ inl m ↦ inl (more_g g m) | inr k ↦ inr k ];
  }

  -- A machine on which the commands of `Up` and `Down` do what they are for: a script that is put
  -- together of words of the shell makes at most the device that it names, a boot makes at most the
  -- machine of its spec, a teardown ends the machine that it names, and the script that deletes the
  -- devices of the topology's plan deletes them.
  pub record IsTidy (lab : Lab World) (t : Topology) : Type 0 where
    pub bridge_made :
        (n : Text) (w : World)
        → IsWord n
        → Within (n ∷ []) [] w (sudo_bash lab (create_bridge_script n) w).0
    pub tap_made :
        (n br : Text) (w : World)
        → IsWord n
        → IsWord br
        → Within (n ∷ []) [] w (sudo_bash lab (create_tap_script n br) w).0
    pub rootfs_made :
        (name : Text) (w : World)
        → IsWord name
        → Within [] [] w (sudo_bash lab (prep_rootfs_script lab.base (run_dir lab name)) w).0
    pub image_found : (kernel : Text) (w : World) → Within [] [] w (lab.image kernel w).0
    pub machine_made :
        (spec : BootSpec) (w : World)
        → Within [] (path_dir spec.rootfs_rw ∷ []) w (lab.boot spec w).0
    pub command_run :
        (time : Option ℕ) (handle : Text) (argv : List Text) (w : World)
        → Within [] [] w (lab.exec time handle argv w).0
    pub machine_stopped :
        (handle : Text) (w : World)
        → Within [] [] w (lab.stop handle w).0
          × ((g : Text) → Guest g (lab.stop handle w).0 → handle ≢ g)
    pub devices_gone :
        (names : List Text) (w : World)
        → names ≡ device_names (wanted_plan t).taps (wanted_plan t).bridges
        → All IsWord names
        → Within [] [] w (sudo_bash lab (delete_script names) w).0
          × ((d : Text)
              → Device d (sudo_bash lab (delete_script names) w).0
              → All (λ n. n ≢ d) names)
