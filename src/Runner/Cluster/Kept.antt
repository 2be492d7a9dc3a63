-- ===== src/Runner/Cluster/Kept.antt =====
-- What Up, Down and Status of internal/runner/cluster.go keep of the machine, if each operation that
-- they ask of it keeps it.
use klab.Prelude.{
  ℕ, List, [], ◌∷◌, Bool, true, false, Option, none, some, Result, Check, ok, err, Bool-cases, inl,
  inr,
}
use klab.Prelude.Int.{is_zero}
use klab.Exec.{Ran, succeeded}
use klab.Text.{Text, is_empty}
use klab.Driver.{BootSpec, ExecResult}
use klab.Topology.{Topology, Instance, expand}
use klab.Runner.Plan.{NetPlan, Tap, PlanError, plan}
use klab.Runner.Resolve.{Error}
use klab.Runner.Cluster.{
  Lab, UpError, Outcome, and_then, each, ran, sudo_bash, create_bridge, create_tap, prep_rootfs,
  booted, boot_spec, checked, boot_image, boot_instance, assigned, assign_ip, up_plan, up, stop_all,
  delete_devices, pinged, node_status, statuses, status,
}

module _ {World : Type 0} (lab : Lab World) (P : World → Type 0) where
  -- Each operation keeps `P`.
  pub record Lasts : Type 0 where
    pub after_run : (argv : List Text) (w : World) → P w → P (lab.run argv w).0
    pub after_image : (kernel : Text) (w : World) → P w → P (lab.image kernel w).0
    pub after_boot : (spec : BootSpec) (w : World) → P w → P (lab.boot spec w).0
    pub after_exec :
        (time : Option ℕ) (handle : Text) (cmd : List Text) (w : World)
        → P w
        → P (lab.exec time handle cmd w).0
    pub after_stop : (handle : Text) (w : World) → P w → P (lab.stop handle w).0

  and_then-Lasts :
      (o : Outcome lab) (f : World → Outcome lab)
      → P o.0
      → ((w : World) → P w → P (f w).0)
      → P (and_then lab o f).0
  unfolding and_then
  and_then-Lasts (w, ok u) f h k = k w h
  and_then-Lasts (w, err e) f h k = h

  each-Lasts :
      {A : Type 0} (f : A → World → Outcome lab) (xs : List A)
      → ((x : A) (w : World) → P w → P (f x w).0)
      → (w : World) → P w
      → P (each lab f xs w).0
  unfolding each
  each-Lasts f [] k w h = h
  each-Lasts f (x ∷ xs) k w h = and_then-Lasts (f x w) (each lab f xs) (k x w h) (each-Lasts f xs k)

  ran-Lasts : (e : UpError) (o : World × Ran) → P o.0 → P (ran lab e o).0
  unfolding ran
  ran-Lasts e (w, r) h = elim (Bool-cases r.failed) [ inl y ↦ rw y h | inr n ↦ rw n h ]

  booted-Lasts : (name : Text) (o : World × Bool) → P o.0 → P (booted lab name o).0
  unfolding booted
  booted-Lasts name (w, true) h = h
  booted-Lasts name (w, false) h = h

  checked-Lasts : (w : World) (c : Check Error) → P w → P (checked lab w c).0
  unfolding checked
  checked-Lasts w (ok u) h = h
  checked-Lasts w (err e) h = h

  assigned-Lasts : (t : Tap) (o : World × Option ExecResult) → P o.0 → P (assigned lab t o).0
  unfolding assigned
  assigned-Lasts t (w, none) h = h
  assigned-Lasts t (w, some r) h = elim (Bool-cases (is_zero r.exit_code)) [
    | inl y ↦ rw y h
    | inr n ↦ rw n h
  ]

  module _ (lasts : Lasts) where
    boot_spec-Lasts :
        (taps : List Tap) (name : Text) (r : Result Error BootSpec) (w : World)
        → P w
        → P (boot_spec lab taps name r w).0
    unfolding boot_spec
    boot_spec-Lasts taps name (err e) w h = h
    boot_spec-Lasts taps name (ok spec) w h = booted-Lasts name _ (lasts.after_boot _ w h)

    boot_image-Lasts :
        (taps : List Tap) (i : Instance) (o : World × Option Text)
        → P o.0
        → P (boot_image lab taps i o).0
    unfolding boot_image prep_rootfs sudo_bash
    boot_image-Lasts taps i (w, none) h = h
    boot_image-Lasts taps i (w, some img) h = and_then-Lasts _ _ (checked-Lasts w _ h) (λ w1 h1.
        and_then-Lasts _ _ (ran-Lasts _ _ (lasts.after_run _ w1 h1))
          (λ w2 h2. boot_spec-Lasts taps i.name _ w2 h2))

    boot_instance-Lasts :
        (taps : List Tap) (i : Instance) (w : World) → P w → P (boot_instance lab taps i w).0
    unfolding boot_instance
    boot_instance-Lasts taps i w h = boot_image-Lasts taps i _ (lasts.after_image _ w h)

    assign_ip-Lasts : (t : Tap) (w : World) → P w → P (assign_ip lab t w).0
    unfolding assign_ip
    assign_ip-Lasts t w h = elim (Bool-cases (is_empty t.ip)) [
      | inl y ↦ rw y h
      | inr n ↦ rw n (assigned-Lasts t _ (lasts.after_exec _ _ _ w h))
    ]

    up_plan-Lasts :
        (t : Topology) (r : Result PlanError NetPlan) (w : World) → P w → P (up_plan lab t w r).0
    unfolding up_plan create_bridge create_tap sudo_bash
    up_plan-Lasts t (err e) w h = h
    up_plan-Lasts t (ok np) w h =
        and_then-Lasts _ _
          (each-Lasts (create_bridge lab) np.bridges
            (λ b v k. ran-Lasts _ _ (lasts.after_run _ v k)) w h)
          (λ w1 h1.
            and_then-Lasts _ _
              (each-Lasts (create_tap lab) np.taps (λ u v k. ran-Lasts _ _ (lasts.after_run _ v k))
                w1 h1)
              (λ w2 h2.
                and_then-Lasts _ _
                  (each-Lasts (boot_instance lab np.taps) (expand t)
                    (λ i v k. boot_instance-Lasts np.taps i v k) w2 h2)
                  (λ w3 h3. each-Lasts (assign_ip lab) np.taps assign_ip-Lasts w3 h3)))

    pub up-Lasts : (t : Topology) (w : World) → P w → P (up lab t w).0
    unfolding up
    up-Lasts t w h = up_plan-Lasts t (plan t) w h

    pub stop_all-Lasts : (is : List Instance) (w : World) → P w → P (stop_all lab is w)
    unfolding stop_all
    stop_all-Lasts [] w h = h
    stop_all-Lasts (i ∷ is) w h = stop_all-Lasts is _ (lasts.after_stop _ w h)

    pub delete_devices-Lasts : (ls : List Text) (w : World) → P w → P (delete_devices lab ls w)
    unfolding delete_devices sudo_bash
    delete_devices-Lasts [] w h = h
    delete_devices-Lasts (l ∷ ls) w h = lasts.after_run _ w h

    pinged-Lasts : (name : Text) (o : World × Ran) → P o.0 → P (pinged lab name o).0
    unfolding pinged
    pinged-Lasts name (w, r) h = elim (Bool-cases (succeeded r)) [
      | inl y ↦ rw y (lasts.after_exec _ _ _ w h)
      | inr n ↦ rw n h
    ]

    statuses-Lasts : (is : List Instance) (w : World) → P w → P (statuses lab is w).0
    unfolding statuses node_status sudo_bash
    statuses-Lasts [] w h = h
    statuses-Lasts (i ∷ is) w h =
        statuses-Lasts is _ (pinged-Lasts i.name _ (lasts.after_run _ w h))

    pub status-Lasts : (t : Topology) (w : World) → P w → P (status lab t w).0
    unfolding status
    status-Lasts t w h = statuses-Lasts (expand t) w h
