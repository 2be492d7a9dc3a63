-- ===== src/Runner/Cluster/Trace/Steps.antt =====
-- What each step of `Up` asks of the machine.
use mathlib.Core.Path.{subst}
use klab.Prelude.{
  ◌≡◌, refl, sym, List, [], ◌∷◌, ◌++◌, Bool, true, false, Option, none, some, Result, Check, ok,
  err, Bool-cases, inl, inr, >>=-ok,
}
use klab.Prelude.Int.{is_zero}
use klab.Exec.{Ran}
use klab.Text.{Text, is_empty}
use klab.Driver.{BootSpec, ExecResult}
use klab.Topology.{Node, Instance}
use klab.Runner.Plan.{Bridge, Tap}
use klab.Runner.Resolve.{Error, parse_mem, resolve_boot_spec}
use klab.Runner.Cluster.Scripts.{prep_rootfs_script, ip_config_cmd}
use klab.Runner.Cluster.{
  Lab, UpError, ran, sudo_bash, run_dir, create_bridge, create_tap, prep_rootfs, booted, boot_spec,
  checked, boot_image, boot_instance, assigned, assign_ip,
}
use klab.Runner.Cluster.Trace.{
  Ask, sudo, root_asks, asked_image, booted_machine, ran_inside, logged, bridge_asks, tap_asks,
  instance_asks, address_asks, Follows,
}
use klab.Runner.Cluster.Trace.Composed.{prepend, ended, no_error, and_then-Follows}

module _ {World : Type 0} (lab : Lab World) where
  ran_end :
      (e : UpError) (o : World × Ran) (k : List Ask)
      → Follows lab k [] (ran lab e o) (ran (logged lab) e ((o.0, k), o.1))
  unfolding ran
  ran_end e (w, r) k = elim (Bool-cases r.failed) [
    | inl y ↦ rw y (ended lab k [] w (err e) (λ h. refl))
    | inr n ↦ rw n (ended lab k [] w (ok tt) (λ h. refl))
  ]

  ran-Follows :
      (e : UpError) (script : Text) (w : World) (l : List Ask)
      → Follows lab l
          (sudo lab script ∷ [])
          (ran lab e (sudo_bash lab script w))
          (ran (logged lab) e (sudo_bash (logged lab) script (w, l)))
  unfolding sudo_bash
  ran-Follows e script w l = prepend lab l _ [] _ _ (ran_end e _ (l ++ sudo lab script ∷ []))

  pub create_bridge-Follows :
      (b : Bridge) (w : World) (l : List Ask)
      → Follows lab l
          (bridge_asks lab b)
          (create_bridge lab b w)
          (create_bridge (logged lab) b (w, l))
  unfolding create_bridge
  create_bridge-Follows b w l = ran-Follows _ _ w l

  pub create_tap-Follows :
      (t : Tap) (w : World) (l : List Ask)
      → Follows lab l (tap_asks lab t) (create_tap lab t w) (create_tap (logged lab) t (w, l))
  unfolding create_tap
  create_tap-Follows t w l = ran-Follows _ _ w l

  booted_end :
      (name : Text) (o : World × Bool) (k : List Ask)
      → Follows lab k [] (booted lab name o) (booted (logged lab) name ((o.0, k), o.1))
  unfolding booted
  booted_end name (w, true) k = ended lab k [] w (ok tt) (λ h. refl)
  booted_end name (w, false) k = ended lab k [] w (err _) (λ h. refl)

  booted-Follows :
      (n name : Text)
      → n ≡ name
      → (o : World × Bool) (l : List Ask)
      → Follows lab l
          (booted_machine name ∷ [])
          (booted lab name o)
          (booted (logged lab) name ((o.0, l ++ booted_machine n ∷ []), o.1))
  booted-Follows n name e o l =
      subst
        (λ x.
          Follows lab l (booted_machine name ∷ []) (booted lab name o)
            (booted (logged lab) name ((o.0, l ++ booted_machine x ∷ []), o.1)))
        (sym e)
        (prepend lab l (booted_machine name) [] _ _
          (booted_end name o (l ++ booted_machine name ∷ [])))

  boot_spec-Follows :
      (taps : List Tap) (name : Text) (r : Result Error BootSpec) (w : World) (l : List Ask)
      → ((spec : BootSpec) → r ≡ ok spec → spec.name ≡ name)
      → Follows lab l
          (booted_machine name ∷ [])
          (boot_spec lab taps name r w)
          (boot_spec (logged lab) taps name r (w, l))
  unfolding boot_spec
  boot_spec-Follows taps name (err e) w l named = ended lab l _ w (err _) (λ h. no_error lab _ h)
  boot_spec-Follows taps name (ok spec) w l named =
      booted-Follows spec.name name (named spec refl) _ l

  checked-Follows :
      (w : World) (l : List Ask) (c : Check Error)
      → Follows lab l [] (checked lab w c) (checked (logged lab) (w, l) c)
  unfolding checked
  checked-Follows w l (ok u) = ended lab l [] w (ok tt) (λ h. refl)
  checked-Follows w l (err e) = ended lab l [] w (err _) (λ h. refl)

  resolved_name :
      (name img rootfs rw_path : Text) (n : Node) (spec : BootSpec)
      → resolve_boot_spec name n img rootfs rw_path ≡ ok spec
      → spec.name ≡ name
  unfolding resolve_boot_spec
  resolved_name name img rootfs rw_path n spec h =
      let (mem, e, last) = >>=-ok (parse_mem n.mem) _ h in cc last

  boot_image-Follows :
      (taps : List Tap) (i : Instance) (o : World × Option Text) (l : List Ask)
      → Follows lab l
          (root_asks lab i)
          (boot_image lab taps i o)
          (boot_image (logged lab) taps i ((o.0, l), o.1))
  unfolding boot_image prep_rootfs run_dir
  boot_image-Follows taps i (w, none) l = ended lab l _ w (err _) (λ h. no_error lab _ h)
  boot_image-Follows taps i (w, some img) l =
      and_then-Follows lab l [] (root_asks lab i) _ _ _ _ (checked-Follows w l _) (λ w1 l1.
        and_then-Follows lab l1 (sudo lab (prep_rootfs_script lab.base (run_dir lab i.name)) ∷ [])
          (booted_machine i.name ∷ []) _ _ _ _ (ran-Follows _ _ w1 l1)
          (λ w2 l2.
            boot_spec-Follows taps i.name _ w2 l2 (λ spec e. resolved_name _ _ _ _ i.node spec e)))

  pub boot_instance-Follows :
      (taps : List Tap) (i : Instance) (w : World) (l : List Ask)
      → Follows lab l
          (instance_asks lab i)
          (boot_instance lab taps i w)
          (boot_instance (logged lab) taps i (w, l))
  unfolding boot_instance
  boot_instance-Follows taps i w l =
      prepend lab l _ (root_asks lab i) _ _
        (boot_image-Follows taps i _ (l ++ asked_image i.node.kernel ∷ []))

  assigned_end :
      (t : Tap) (o : World × Option ExecResult) (k : List Ask)
      → Follows lab k [] (assigned lab t o) (assigned (logged lab) t ((o.0, k), o.1))
  unfolding assigned
  assigned_end t (w, none) k = ended lab k [] w (err _) (λ h. refl)
  assigned_end t (w, some r) k = elim (Bool-cases (is_zero r.exit_code)) [
    | inl y ↦ rw y (ended lab k [] w (ok tt) (λ h. refl))
    | inr n ↦ rw n (ended lab k [] w (err _) (λ h. refl))
  ]

  pub assign_ip-Follows :
      (t : Tap) (w : World) (l : List Ask)
      → Follows lab l (address_asks lab t) (assign_ip lab t w) (assign_ip (logged lab) t (w, l))
  unfolding assign_ip run_dir
  assign_ip-Follows t w l = elim (Bool-cases (is_empty t.ip)) [
    | inl y ↦ rw y (ended lab l [] w (ok tt) (λ h. refl))
    | inr n ↦ rw n (
        prepend lab l _ [] _ _
          (assigned_end t _ (l ++ ran_inside (run_dir lab t.node) (ip_config_cmd t.mac t.ip) ∷ [])))
  ]
