-- ===== src/Runner/Cluster/Order.antt =====
-- The cluster does not depend on the order in which Go visits the map of nodes.
use mathlib.Core.Path.{ap₂}
use mathlib.Core.List.{Permᴰ}
use klab.Prelude.{◌≡◌, refl, ap, ◌∙◌, ok, err, Result, Distinct}
use klab.Topology.{Topology, keys, expand}
use klab.Topology.Order.{expand-Perm}
use klab.Runner.Plan.{NetPlan, PlanError, plan}
use klab.Runner.Plan.Order.{plan-Perm}
use klab.Runner.Cluster.{
  Lab, and_then, each, create_bridge, create_tap, boot_instance, assign_ip, up_plan, up, stop_all,
  devices_deleted, down, statuses, status,
}

module _ {World : Type 0} (lab : Lab World) where
  up_plan-expand :
      (t u : Topology) (w : World) (r : Result PlanError NetPlan)
      → expand t ≡ expand u
      → up_plan lab t w r ≡ up_plan lab u w r
  unfolding up_plan
  up_plan-expand t u w (err e) h = refl
  up_plan-expand t u w (ok np) h =
      ap
        (λ is. and_then lab (each lab (create_bridge lab) np.bridges w) (λ w1.
          and_then lab (each lab (create_tap lab) np.taps w1) (λ w2.
            and_then lab (each lab (boot_instance lab np.taps) is w2)
              (each lab (assign_ip lab) np.taps))))
        h

  -- Two topologies with the same links, whose maps of nodes list the same entries, no key twice, in
  -- different orders: Up, Down and Status do the same for both.
  pub cluster-Perm :
      (t u : Topology) (w : World)
      → Permᴰ t.nodes u.nodes
      → Distinct (keys t.nodes)
      → t.links ≡ u.links
      → (up lab t w ≡ up lab u w)
        × (down lab t w ≡ down lab u w)
        × (status lab t w ≡ status lab u w)
  unfolding up down status
  cluster-Perm t u w p d links =
      let same = expand-Perm t u p d in
      let plans = plan-Perm t u p d links in
      (
        up_plan-expand t u w (plan t) same ∙ ap (up_plan lab u w) plans,
        ap₂ (λ is r. devices_deleted lab (stop_all lab is w) r) same plans,
        ap (λ is. statuses lab is w) same,
      )
