-- ===== src/Runner/Cluster/Trace/Ordered.antt =====
-- `Up` asks things of the machine in the order of the plan, and stops at the first error.
use mathlib.Core.Path.{subst}
use klab.Prelude.{◌≡◌, refl, sym, ap, ◌∙◌, List, [], ◌∷◌, ◌++◌, append_assoc, append-nil, some, ok}
use klab.Text.{Text}
use klab.Topology.{Topology, Instance, expand}
use klab.Topology.Validate.{IsValid}
use klab.Runner.Plan.{NetPlan}
use klab.Runner.Plan.Numbering.{wanted_plan}
use klab.Runner.Plan.Success.{plan-IsValid}
use klab.Runner.Cluster.{
  Lab, sudo_bash, run_dir, up_plan, up, stop_all, delete_devices, device_names, down,
}
use klab.Runner.Cluster.Booted.{down-IsValid}
use klab.Runner.Cluster.Trace.{
  Ask, logged, stop_asks, delete_asks, for_all, up_asks, down_asks, Follows,
}
use klab.Runner.Cluster.Trace.Composed.{and_then-Follows, each-Follows}
use klab.Runner.Cluster.Trace.Steps.{
  create_bridge-Follows, create_tap-Follows, boot_instance-Follows, assign_ip-Follows,
}

module _ {World : Type 0} (lab : Lab World) where
  up_plan-Follows :
      (t : Topology) (np : NetPlan) (w : World) (l : List Ask)
      → Follows lab l
          (up_asks lab t np)
          (up_plan lab t w (ok np))
          (up_plan (logged lab) t (w, l) (ok np))
  unfolding up_plan
  up_plan-Follows t np w l =
      and_then-Follows lab l _ _ _ _ _ _
        (each-Follows lab _ _ _ (create_bridge-Follows lab) np.bridges w l)
        (λ w1 l1.
          and_then-Follows lab l1 _ _ _ _ _ _
            (each-Follows lab _ _ _ (create_tap-Follows lab) np.taps w1 l1)
            (λ w2 l2.
              and_then-Follows lab l2 _ _ _ _ _ _
                (each-Follows lab _ _ _ (boot_instance-Follows lab np.taps) (expand t) w2 l2)
                (each-Follows lab _ _ _ (assign_ip-Follows lab) np.taps)))

  -- Take a valid topology. With a log, `Up` does the same and ends with the same result, and what it
  -- adds to the log is a first part of this list, and all of it if `Up` succeeds: a bridge for each
  -- link, a tap for each interface, for each instance the image of its kernel, its root and its
  -- machine, and then each address, all in the order of the plan.
  pub up-Follows :
      (t : Topology) (w : World) (l : List Ask)
      → IsValid t
      → Follows lab l (up_asks lab t (wanted_plan t)) (up lab t w) (up (logged lab) t (w, l))
  unfolding up
  up-Follows t w l valid =
      subst
        (λ r.
          Follows lab l (up_asks lab t (wanted_plan t)) (up_plan lab t w r)
            (up_plan (logged lab) t (w, l) r))
        (sym (plan-IsValid t valid)) (up_plan-Follows t (wanted_plan t) w l)

  stop_all-logged :
      (is : List Instance) (w : World) (l : List Ask)
      → stop_all (logged lab) is (w, l) ≡ (stop_all lab is w, l ++ for_all lab (stop_asks lab) is)
  unfolding stop_all run_dir
  stop_all-logged [] w l = ap (λ k. (w, k)) (sym (append-nil l))
  stop_all-logged (i ∷ is) w l =
      stop_all-logged is _ _
      ∙ ap (λ k. (stop_all lab is (lab.stop (run_dir lab i.name) w).0, k)) (append_assoc l _ _)

  delete_devices-logged :
      (names : List Text) (w : World) (l : List Ask)
      → delete_devices (logged lab) names (w, l)
        ≡ (delete_devices lab names w, l ++ delete_asks lab names)
  unfolding delete_devices sudo_bash
  delete_devices-logged [] w l = ap (λ k. (w, k)) (sym (append-nil l))
  delete_devices-logged (n ∷ ns) w l = refl

  -- On a valid topology, `Down` first asks that each machine is stopped, in the order of the
  -- instances, and then, if the plan has any, that all of its devices are deleted. A log changes
  -- nothing of what it does.
  pub down-logged :
      (t : Topology) (w : World) (l : List Ask)
      → IsValid t
      → (u : World) × (down lab t w ≡ some u)
        × (down (logged lab) t (w, l) ≡ some (u, l ++ down_asks lab t (wanted_plan t)))
  down-logged t w l valid =
      let names = device_names (wanted_plan t).taps (wanted_plan t).bridges in
      let k = l ++ for_all lab (stop_asks lab) (expand t) in
      (
        delete_devices lab names (stop_all lab (expand t) w),
        (down-IsValid lab t w valid).1,
        (down-IsValid (logged lab) t (w, l) valid).1
            ∙ ap some (
                ap (delete_devices (logged lab) names) (stop_all-logged (expand t) w l)
                ∙ (delete_devices-logged names (stop_all lab (expand t) w) k
                    ∙ ap (λ x. (delete_devices lab names (stop_all lab (expand t) w), x))
                        (append_assoc l _ _))),
      )
