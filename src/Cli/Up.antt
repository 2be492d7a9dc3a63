-- ===== src/Cli/Up.antt =====
-- That `klab up` ends, and when it exits with 0.
use klab.Prelude.{
  ◌≡◌, ◌↔◌, refl, sym, ◌∙◌, true, List, [], ◌∷◌, ◌++◌, Option, none, some, Result, Check, ok, err,
  Bool-cases, inl, inr,
}
use mathlib.Core.Path.{subst}
use klab.Prelude.Int.{ℤ, pos, is_zero}
use klab.Text.{Text, str}
use klab.Exec.{Ran}
use klab.Topology.{Topology}
use klab.Topology.Load.{LoadError}
use klab.Qemu.Live.Waiting.{IsClock}
use klab.Runner.Cluster.{Lab, UpError, up}
use klab.Runner.Cluster.Kept.{Lasts, up-Lasts, status-Lasts}
use klab.Cli.{System, Failure, Ended, printed, noted, died, load_failed, vm_of}
use klab.Cli.Nodes.{
  vm_home, lab_at, loaded, with_cluster, of_topology, with_topology, up_done, up_on, up_cluster,
  up_cmd, over,
}
use klab.Cli.Going.{Goes, lab_at-Lasts}

module _ {World : Type 0} (sys : System World) where
  abbrev Run : Type 0
  Run = World × Ended

  -- Whether the base root is there.
  abbrev pub base_test : Lab (Option World) → List Text
  base_test lab = str "sudo" ∷ str "test" ∷ str "-e" ∷ (lab.base ++ str "/sbin/klab-init") ∷ []

  -- The test of the base root exits with 0, and the cluster comes up.
  pub record Comes (t : Topology) (lab : Lab (Option World)) (w : World) : Type 0 where
    pub base : is_zero (lab.run (base_test lab) (some w)).1.result.exit_code ≡ true
    pub last : World
    pub came : up lab t (lab.run (base_test lab) (some w)).0 ≡ (some last, ok tt)

  -- The topology loads, the home of the virtual machine is found, and the cluster comes up there.
  pub record CameUp (path : Text) (w : World) : Type 0 where
    pub topology : Topology
    pub loads : loaded sys path w ≡ ok topology
    pub home : Text
    pub later : World
    pub found : vm_home sys w ≡ (later, ok home)
    pub comes : Comes topology (lab_at sys home) later

  -- The command ends, and with 0 exactly if `P` holds.
  abbrev Exits : Type 0 → Option Run → Type 0
  Exits P o = (r : Run) × (o ≡ some r) × ((r.1.code ≡ pos 0) ↔ P)

  not_zero : {A : Type 0} → ◌≡◌ {A = ℤ} (pos 1) (pos 0) → A
  not_zero e = absurd cc

  fails : (P : Type 0) (w : World) (f : Failure) → (P → ⊥) → Exits P (some (w, died f))
  unfolding died
  fails P w f h = (_, refl, (λ e. not_zero e, λ p. absurd (h p)))

  up_done-code :
      (t : Topology) (lab : Lab (Option World)) (o : Option World × Check UpError)
      → Goes o.0
      → ((up_done sys t lab o).1.code ≡ pos 0) ↔ ((v : World) × (o ≡ (some v, ok tt)))
  unfolding up_done died printed
  up_done-code t lab (w, err e) goes = (λ h. not_zero h, λ (v, h). absurd cc)
  up_done-code t lab (w, ok u) (v, e) = (λ h. (v, cc), λ h. refl)

  up_done-Goes :
      (t : Topology) (lab : Lab (Option World)) (o : Option World × Check UpError)
      → Lasts lab Goes
      → Goes o.0
      → Goes (up_done sys t lab o).0
  unfolding up_done
  up_done-Goes t lab (w, err e) lasts goes = goes
  up_done-Goes t lab (w, ok u) lasts goes = status-Lasts lab Goes lasts t w goes

  up_on-Goes :
      (t : Topology) (lab : Lab (Option World)) (o : Option World × Ran)
      → Lasts lab Goes
      → Goes o.0
      → Goes (up_on sys t lab o).0
  unfolding up_on
  up_on-Goes t lab (w, r) lasts goes = elim (Bool-cases (is_zero r.result.exit_code)) [
    | inl y ↦ rw y (up_done-Goes t lab _ lasts (up-Lasts lab Goes lasts t w goes))
    | inr n ↦ rw n goes
  ]

  up_on-code :
      (t : Topology) (lab : Lab (Option World)) (o : Option World × Ran)
      → Lasts lab Goes
      → Goes o.0
      → ((up_on sys t lab o).1.code ≡ pos 0)
        ↔ ((is_zero o.1.result.exit_code ≡ true) × ((v : World) × (up lab t o.0 ≡ (some v, ok tt))))
  unfolding up_on noted died
  up_on-code t lab (w, r) lasts goes = elim (Bool-cases (is_zero r.result.exit_code)) [
    | inl y ↦
        let (from, into) = up_done-code t lab (up lab t w) (up-Lasts lab Goes lasts t w goes) in
        rw y (λ h. (refl, from h), λ (e, h). into h)
    | inr n ↦ rw n (λ h. not_zero h, λ (e, h). absurd cc)
  ]

  over-Exits :
      (P : Type 0) (o : Option World × Ended)
      → Goes o.0
      → ((o.1.code ≡ pos 0) ↔ P)
      → Exits P (over o)
  unfolding over
  over-Exits P (none, e) (w, h) code = absurd cc
  over-Exits P (some w, e) goes code = ((w, e), refl, code)

  same_found :
      (w v : World) (h k : Text)
      → ◌≡◌ {A = World × Result Failure Text} (w, ok h) (v, ok k)
      → (w ≡ v) × (h ≡ k)
  same_found w v h k e = (cc, cc)

  no_home :
      (w v : World) (f : Failure) (k : Text)
      → ◌≡◌ {A = World × Result Failure Text} (w, err f) (v, ok k)
      → ⊥
  no_home w v f k e = cc

  same_topology : (t u : Topology) → ◌≡◌ {A = Result LoadError Topology} (ok t) (ok u) → t ≡ u
  same_topology t u e = cc

  not_loaded :
      (f : LoadError) (t : Topology) → ◌≡◌ {A = Result LoadError Topology} (err f) (ok t) → ⊥
  not_loaded f t e = cc

  module _ (clock : IsClock (vm_of sys)) where
    pub up_cluster-Exits :
        (t : Topology) (home : Text) (w : World)
        → (r : Run) × (up_cluster sys t (lab_at sys home) w ≡ some r)
          × ((r.1.code ≡ pos 0) ↔ Comes t (lab_at sys home) w)
    unfolding up_cluster
    up_cluster-Exits t home w =
        let lab = lab_at sys home in
        let lasts = lab_at-Lasts sys clock home in
        let goes = lasts.after_run (base_test lab) (some w) (w, refl) in
        let (from, into) = up_on-code t lab (lab.run (base_test lab) (some w)) lasts goes in
        over-Exits _ _ (up_on-Goes t lab _ lasts goes) (
          λ h. (let (base, (v, came)) = from h in record { base = base; last = v; came = came }),
          λ c. into (c.base, (c.last, c.came)),
        )

    with_cluster-Exits :
        (t : Topology) (o : World × Result Failure Text)
        → Exits
            ((home : Text) × (v : World) × (o ≡ (v, ok home)) × Comes t (lab_at sys home) v)
            (with_cluster sys o (up_cluster sys t))
    unfolding with_cluster
    with_cluster-Exits t (w, err e) = fails _ w e (λ (home, v, h, c). no_home w v e home h)
    with_cluster-Exits t (w, ok home) =
        let (r, ends, (from, into)) = up_cluster-Exits t home w in
        (
          r,
          ends,
          (
            λ h. (home, w, refl, from h),
            λ (other, v, e, c).
                let (same_world, same_home) = same_found w v home other e in
                into (
                  subst (λ x. Comes t (lab_at sys home) x) (sym same_world)
                    (subst (λ x. Comes t (lab_at sys x) v) (sym same_home) c)),
          ),
        )

    of_topology-Exits :
        (path : Text) (w : World) (r : Result LoadError Topology)
        → loaded sys path w ≡ r
        → Exits (CameUp path w) (of_topology sys path (up_cluster sys) w r)
    unfolding of_topology
    of_topology-Exits path w (err e) h =
        fails _ w (load_failed e) (λ c. not_loaded e c.topology (sym h ∙ c.loads))
    of_topology-Exits path w (ok t) h =
        let (r, ends, (from, into)) = with_cluster-Exits t (vm_home sys w) in
        (
          r,
          ends,
          (
            λ z.
                (let (home, v, e, c) = from z in
                  record { topology = t; loads = h; home = home; later = v; found = e; comes = c }),
            λ c. into (
              c.home,
              c.later,
              c.found,
              subst (λ u. Comes u (lab_at sys c.home) c.later)
                  (same_topology c.topology t (sym c.loads ∙ h)) c.comes,
            ),
          ),
        )

    -- Where time does not run backwards and a sleep lasts as long as it is asked to, `klab up` of one
    -- path ends. It exits with 0 exactly if the file loads as a valid topology, the home of the
    -- virtual machine is found, the test of the base root exits with 0, as it also does if it cannot
    -- be run at all, and `Up` succeeds.
    pub up_cmd_iff :
        (path : Text) (w : World)
        → (r : World × Ended) × (up_cmd sys (path ∷ []) w ≡ some r)
          × ((r.1.code ≡ pos 0) ↔ CameUp path w)
    unfolding up_cmd with_topology
    up_cmd_iff path w = of_topology-Exits path w (loaded sys path w) refl
