-- ===== src/Runner/Cluster/Tidy/Grown.antt =====
-- What `Up` leaves, step by step, up to the one at which it stops.
use mathlib.Core.Path.{subst}
use klab.Prelude.{
  ◌≡◌, inl, inr, refl, sym, ap, ◌∙◌, arith, List, [], ◌∷◌, ◌++◌, Bool, true, false, Option, none,
  some, Result, Check, ok, err, All, All-imp, Bool-cases, >>=-ok,
}
use klab.Prelude.Int.{is_zero}
use klab.Exec.{Ran}
use klab.Text.{Text, str, is_empty}
use klab.Text.Path.{path_dir}
use klab.Text.Path.Parent.{path_dir-path_join}
use klab.Driver.{BootSpec, ExecResult}
use klab.Topology.{Node, Topology, Instance, expand}
use klab.Runner.Plan.{Bridge, Tap, NetPlan}
use klab.Runner.Plan.Words.{IsWord, Worded}
use klab.Runner.Resolve.{Error, parse_mem, resolve_boot_spec}
use klab.Runner.Cluster.{
  Lab, UpError, Outcome, and_then, each, ran, run_dir, create_bridge, create_tap, prep_rootfs,
  booted, boot_spec, checked, boot_image, boot_instance, assigned, assign_ip, up_plan, nics_of,
}
use klab.Runner.Cluster.Tidy.{Among, Within, Within-refl, Within-trans, Within-more, IsTidy}

resolved_rw :
    (name img rootfs rw_path : Text) (n : Node) (spec : BootSpec)
    → resolve_boot_spec name n img rootfs rw_path ≡ ok spec
    → spec.rootfs_rw ≡ rw_path
unfolding resolve_boot_spec
resolved_rw name img rootfs rw_path n spec h =
    let (mem, e, last) = >>=-ok (parse_mem n.mem) _ h in cc last

module _ {World : Type 0} (Device Guest : Text → World → Type 0) (lab : Lab World) (t0 : Topology)
    (tidy : IsTidy Device Guest lab t0) where
  -- The handle that a boot returns is the run directory by which `Down` knows the machine.
  handle_lem : (name : Text) → path_dir (run_dir lab name ++ str "/rw") ≡ run_dir lab name
  unfolding run_dir str is_empty
  handle_lem name =
      path_dir-path_join lab.home (str ".cache/klab/run") name (str "rw") refl (ground arith)

  module _ (ds gs : List Text) (w0 : World) where
    -- What came up since `w0` is on the lists.
    abbrev pub Keeps : Outcome lab → Type 0
    Keeps o = Within Device Guest ds gs w0 o.0

    and_then-Keeps :
        (o : Outcome lab) (f : World → Outcome lab)
        → Keeps o
        → ((w : World) → Within Device Guest ds gs w0 w → Keeps (f w))
        → Keeps (and_then lab o f)
    unfolding and_then
    and_then-Keeps (w, ok u) f h k = k w h
    and_then-Keeps (w, err e) f h k = h

    each-Keeps :
        {A : Type 0} (f : A → World → Outcome lab) (xs : List A)
        → All (λ x. (w : World) → Within Device Guest ds gs w0 w → Keeps (f x w)) xs
        → (w : World) → Within Device Guest ds gs w0 w
        → Keeps (each lab f xs w)
    unfolding each
    each-Keeps f [] k w h = h
    each-Keeps f (x ∷ xs) (kx, k) w h =
        and_then-Keeps (f x w) (each lab f xs) (kx w h) (each-Keeps f xs k)

    ran-Keeps :
        (e : UpError) (o : World × Ran) → Within Device Guest ds gs w0 o.0 → Keeps (ran lab e o)
    unfolding ran
    ran-Keeps e (w, r) h = elim (Bool-cases r.failed) [ inl y ↦ rw y h | inr n ↦ rw n h ]

    device-more : (n : Text) → Among n ds → (d : Text) → Among d (n ∷ []) → Among d ds
    device-more n m d (inl e) = subst (λ x. Among x ds) e m
    device-more n m d (inr none_left) = absurd none_left

    guest-more : (n : Text) → Among n gs → (g : Text) → Among g (n ∷ []) → Among g gs
    guest-more n m g (inl e) = subst (λ x. Among x gs) e m
    guest-more n m g (inr none_left) = absurd none_left

    with_none : {v w : World} → Within Device Guest [] [] v w → Within Device Guest ds gs v w
    with_none p = Within-more Device Guest (λ d m. absurd m) (λ g m. absurd m) p

    create_bridge-Keeps :
        (b : Bridge)
        → IsWord b.name
        → Among b.name ds
        → (w : World) → Within Device Guest ds gs w0 w
        → Keeps (create_bridge lab b w)
    unfolding create_bridge
    create_bridge-Keeps b word m w h = ran-Keeps _ _ (
        Within-trans Device Guest h (
          Within-more Device Guest (device-more b.name m) (λ g k. absurd k)
            (tidy.bridge_made b.name w word)))

    create_tap-Keeps :
        (t : Tap)
        → IsWord t.name × IsWord t.bridge
        → Among t.name ds
        → (w : World) → Within Device Guest ds gs w0 w
        → Keeps (create_tap lab t w)
    unfolding create_tap
    create_tap-Keeps t (word, bridge) m w h = ran-Keeps _ _ (
        Within-trans Device Guest h (
          Within-more Device Guest (device-more t.name m) (λ g k. absurd k)
            (tidy.tap_made t.name t.bridge w word bridge)))

    booted-Keeps :
        (name : Text) (o : World × Bool)
        → Within Device Guest ds gs w0 o.0
        → Keeps (booted lab name o)
    unfolding booted
    booted-Keeps name (w, true) h = h
    booted-Keeps name (w, false) h = h

    boot_spec-Keeps :
        (taps : List Tap) (name : Text) (r : Result Error BootSpec) (w : World)
        → ((spec : BootSpec) → r ≡ ok spec → spec.rootfs_rw ≡ run_dir lab name ++ str "/rw")
        → Among (run_dir lab name) gs
        → Within Device Guest ds gs w0 w
        → Keeps (boot_spec lab taps name r w)
    unfolding boot_spec
    boot_spec-Keeps taps name (err e) w rw_path m h = h
    boot_spec-Keeps taps name (ok spec) w rw_path m h = booted-Keeps name _ (
        Within-trans Device Guest h (
          Within-more Device Guest (λ d k. absurd k)
            (guest-more _
              (subst (λ x. Among x gs) (sym (ap path_dir (rw_path spec refl) ∙ handle_lem name)) m))
            (tidy.machine_made (record spec { nics = nics_of taps name }) w)))

    checked-Keeps :
        (w : World) (c : Check Error) → Within Device Guest ds gs w0 w → Keeps (checked lab w c)
    unfolding checked
    checked-Keeps w (ok u) h = h
    checked-Keeps w (err e) h = h

    boot_image-Keeps :
        (taps : List Tap) (i : Instance) (o : World × Option Text)
        → IsWord i.name
        → Among (run_dir lab i.name) gs
        → Within Device Guest ds gs w0 o.0
        → Keeps (boot_image lab taps i o)
    unfolding boot_image prep_rootfs
    boot_image-Keeps taps i (w, none) word m h = h
    boot_image-Keeps taps i (w, some img) word m h =
        and_then-Keeps _ _ (checked-Keeps w _ h) (λ w1 h1.
          and_then-Keeps _ _
            (ran-Keeps _ _
              (Within-trans Device Guest h1 (with_none (tidy.rootfs_made i.name w1 word))))
            (λ w2 h2.
              boot_spec-Keeps taps i.name _ w2 (λ spec e. resolved_rw _ _ _ _ i.node spec e) m h2))

    boot_instance-Keeps :
        (taps : List Tap) (i : Instance)
        → IsWord i.name
        → Among (run_dir lab i.name) gs
        → (w : World) → Within Device Guest ds gs w0 w
        → Keeps (boot_instance lab taps i w)
    unfolding boot_instance
    boot_instance-Keeps taps i word m w h =
        boot_image-Keeps taps i _ word m
          (Within-trans Device Guest h (with_none (tidy.image_found i.node.kernel w)))

    assigned-Keeps :
        (t : Tap) (o : World × Option ExecResult)
        → Within Device Guest ds gs w0 o.0
        → Keeps (assigned lab t o)
    unfolding assigned
    assigned-Keeps t (w, none) h = h
    assigned-Keeps t (w, some r) h = elim (Bool-cases (is_zero r.exit_code)) [
      | inl y ↦ rw y h
      | inr n ↦ rw n h
    ]

    assign_ip-Keeps :
        (t : Tap) (w : World) → Within Device Guest ds gs w0 w → Keeps (assign_ip lab t w)
    unfolding assign_ip
    assign_ip-Keeps t w h = elim (Bool-cases (is_empty t.ip)) [
      | inl y ↦ rw y h
      | inr n ↦
          rw n (
            assigned-Keeps t _ (Within-trans Device Guest h (with_none (tidy.command_run _ _ _ w))))
    ]

    each-Among :
        {A : Type 0} (name : A → Text) (P : A → Type 0) (f : A → World → Outcome lab) (xs : List A)
        → ((x : A)
            → P x
            → Among (name x) ds
            → (w : World) → Within Device Guest ds gs w0 w
            → Keeps (f x w))
        → All P xs
        → All (λ x. Among (name x) ds) xs
        → (w : World) → Within Device Guest ds gs w0 w
        → Keeps (each lab f xs w)
    each-Among name P f xs k p m = each-Keeps f xs (both xs p m)
      where
        both :
            (ys : List _)
            → All P ys
            → All (λ y. Among (name y) ds) ys
            → All (λ y. (w : World) → Within Device Guest ds gs w0 w → Keeps (f y w)) ys
        both [] p m = tt
        both (y ∷ ys) (py, p) (my, m) = (k y py my, both ys p m)

    pub up_plan-Keeps :
        (t : Topology) (np : NetPlan)
        → Worded np
        → All (λ (b : Bridge). Among b.name ds) np.bridges
        → All (λ (p : Tap). Among p.name ds) np.taps
        → All (λ (i : Instance). IsWord i.name × Among (run_dir lab i.name) gs) (expand t)
        → Keeps (up_plan lab t w0 (ok np))
    unfolding up_plan
    up_plan-Keeps t np worded bs ts is =
        and_then-Keeps _ _
          (each-Among _ _ _ np.bridges create_bridge-Keeps worded.bridges_worded bs w0
            (Within-refl Device Guest w0))
          (λ w1 h1.
            and_then-Keeps _ _
              (each-Among _ _ _ np.taps create_tap-Keeps worded.taps_worded ts w1 h1)
              (λ w2 h2.
                and_then-Keeps _ _
                  (each-Keeps _ (expand t)
                    (All-imp (expand t) (λ i (word, m). boot_instance-Keeps np.taps i word m) is) w2
                    h2)
                  (λ w3 h3.
                    each-Keeps _ np.taps (All-imp np.taps (λ p m. assign_ip-Keeps p) ts) w3 h3)))
