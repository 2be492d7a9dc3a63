-- ===== src/Runner/Cluster/Booted.antt =====
-- What `Up` has checked when it succeeds, and that `Down` does not panic.
use klab.Prelude.{◌≡◌, refl, ap, List, [], ◌∷◌, Option, none, some, Result, Check, ok, err, All}
use klab.Text.{Text}
use klab.Topology.{Topology, Instance, expand}
use klab.Topology.Validate.{IsValid}
use klab.Runner.Plan.{Tap, NetPlan, PlanError, plan}
use klab.Runner.Plan.Numbering.{wanted_plan}
use klab.Runner.Plan.Success.{plan-IsValid}
use klab.Runner.Resolve.{Error}
use klab.Runner.Resolve.Suitable.{Suits, check_caps_iff}
use klab.Runner.Cluster.{
  Lab, UpError, Outcome, and_then, each, checked, boot_image, boot_instance, up_plan, up, stop_all,
  delete_devices, device_names, devices_deleted, down,
}

module _ {World : Type 0} (lab : Lab World) where
  ok_err : {v w : World} {e : UpError} → ◌≡◌ {A = World × Check UpError} (v, err e) (w, ok tt) → ⊥
  ok_err h = cc

  and_then-ok :
      (o : Outcome lab) (f : World → Outcome lab) (w : World)
      → and_then lab o f ≡ (w, ok tt)
      → (v : World) × (o ≡ (v, ok tt)) × (f v ≡ (w, ok tt))
  unfolding and_then
  and_then-ok (v, ok u) f w h = (v, refl, h)
  and_then-ok (v, err e) f w h = (v, cc, cc)

  each-All :
      {A : Type 0} (P : A → Type 0) (f : A → World → Outcome lab)
      → ((x : A) (v w : World) → f x v ≡ (w, ok tt) → P x)
      → (xs : List A) (v w : World) → each lab f xs v ≡ (w, ok tt)
      → All P xs
  unfolding each
  each-All P f p [] v w h = tt
  each-All P f p (x ∷ xs) v w h =
      let (u, first, rest) = and_then-ok (f x v) (each lab f xs) w h in
      (p x v u first, each-All P f p xs u w rest)

  checked-ok : (v w : World) (c : Check Error) → checked lab v c ≡ (w, ok tt) → c ≡ ok tt
  unfolding checked
  checked-ok v w (ok u) h = refl
  checked-ok v w (err e) h = cc

  boot_image-Suits :
      (taps : List Tap) (i : Instance) (o : World × Option Text) (w : World)
      → boot_image lab taps i o ≡ (w, ok tt)
      → Suits i.node lab.capabilities
  unfolding boot_image
  boot_image-Suits taps i (v, none) w h = absurd (ok_err h)
  boot_image-Suits taps i (v, some img) w h =
      let (u, first, rest) = and_then-ok _ _ w h in
      (check_caps_iff i.node.driver i.node lab.capabilities).0 (checked-ok v u _ first)

  boot_instance-Suits :
      (taps : List Tap) (i : Instance) (v w : World)
      → boot_instance lab taps i v ≡ (w, ok tt)
      → Suits i.node lab.capabilities
  unfolding boot_instance
  boot_instance-Suits taps i v w h = boot_image-Suits taps i _ w h

  up_plan-Suits :
      (t : Topology) (v w : World) (r : Result PlanError NetPlan)
      → up_plan lab t v r ≡ (w, ok tt)
      → All (λ (i : Instance). Suits i.node lab.capabilities) (expand t)
  unfolding up_plan
  up_plan-Suits t v w (err e) h = absurd (ok_err h)
  up_plan-Suits t v w (ok np) h =
      let (w1, bridges, h1) = and_then-ok _ _ w h in
      let (w2, taps, h2) = and_then-ok _ _ w h1 in
      let (w3, nodes, h3) = and_then-ok _ _ w h2 in
      each-All _ (boot_instance lab np.taps) (boot_instance-Suits np.taps) (expand t) w2 w3 nodes

  -- If `Up` succeeds, the driver suits every instance of the topology: it can boot a kernel of the
  -- node's own where the node asks for one, and it runs the node's architecture.
  pub up-Suits :
      (t : Topology) (v w : World)
      → up lab t v ≡ (w, ok tt)
      → All (λ (i : Instance). Suits i.node lab.capabilities) (expand t)
  unfolding up
  up-Suits t v w h = up_plan-Suits t v w (plan t) h

  -- On a valid topology `Down` does not panic: it stops every instance, and then deletes the
  -- devices of the same plan that `Up` carries out.
  pub down-IsValid :
      (t : Topology) (w : World)
      → IsValid t
      → (plan t ≡ ok (wanted_plan t))
        × (down lab t w
            ≡ some (
                delete_devices lab
                  (device_names (wanted_plan t).taps (wanted_plan t).bridges)
                  (stop_all lab (expand t) w)))
  unfolding down devices_deleted
  down-IsValid t w v =
      (plan-IsValid t v, ap (devices_deleted lab (stop_all lab (expand t) w)) (plan-IsValid t v))
