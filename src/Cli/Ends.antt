-- ===== src/Cli/Ends.antt =====
-- Every command comes to an end.
use klab.Prelude.{
  ◌≡◌, refl, ap, ◌∙◌, Bool, true, false, List, [], ◌∷◌, ◌++◌, Option, none, some, Result, ok, err,
  if◌then◌else◌,
}
use klab.Text.{Text, str, text_eq}
use klab.Driver.{ExecResult}
use klab.Topology.{Topology, expand}
use klab.Topology.Validate.{IsValid}
use klab.Topology.Load.{LoadError, load_iff}
use klab.Qemu.Live.{ExecError}
use klab.Qemu.Live.Waiting.{IsClock}
use klab.Qemu.Live.Executes.{exec-some}
use klab.Runner.Cluster.{Lab}
use klab.Runner.Cluster.Kept.{status-Lasts, stop_all-Lasts, delete_devices-Lasts}
use klab.Runner.Cluster.Booted.{down-IsValid}
use klab.Cli.{System, Failure, Ended, printed, vm_of}
use klab.Cli.Arguments.{exec_args}
use klab.Cli.Nodes.{
  vm_home, lab_at, loaded, with_cluster, of_topology, with_topology, up_cluster, up_cmd,
  down_cluster, down_cmd, status_cluster, status_cmd, exec_done, exec_at, exec_in, exec_asked,
  exec_cmd, has_instance, over,
}
use klab.Cli.Going.{Goes, over-Goes, lab_at-Lasts}
use klab.Cli.Up.{up_cluster-Exits}
use klab.Cli.Main.{is_one_of, dispatch, main}

module _ {World : Type 0} (sys : System World) where
  abbrev pub Run : Type 0
  Run = World × Ended

  -- The command ends: it neither panics nor waits for ever.
  abbrev pub Ends : Option Run → Type 0
  Ends o = (r : Run) × (o ≡ some r)

  if-Ends : (b : Bool) (o p : Option Run) → Ends o → Ends p → Ends (if b then o else p)
  if-Ends true o p ho hp = ho
  if-Ends false o p ho hp = hp

  -- A topology that loads is valid.
  loaded-IsValid : (path : Text) (w : World) (t : Topology) → loaded sys path w ≡ ok t → IsValid t
  unfolding loaded
  loaded-IsValid path w t h =
      let (bytes, read, parsed, valid) = (load_iff _ sys.unmarshal_yaml path t).0 h in valid

  with_cluster-Ends :
      (o : World × Result Failure Text) (f : Lab (Option World) → World → Option Run)
      → ((home : Text) (w : World) → Ends (f (lab_at sys home) w))
      → Ends (with_cluster sys o f)
  unfolding with_cluster
  with_cluster-Ends (w, err e) f h = (_, refl)
  with_cluster-Ends (w, ok home) f h = h home w

  of_topology-Ends :
      (path : Text) (f : Topology → Lab (Option World) → World → Option Run) (w : World)
      (r : Result LoadError Topology)
      → ((t : Topology) → r ≡ ok t → IsValid t)
      → ((t : Topology) (home : Text) (v : World) → IsValid t → Ends (f t (lab_at sys home) v))
      → Ends (of_topology sys path f w r)
  unfolding of_topology
  of_topology-Ends path f w (err e) valid h = (_, refl)
  of_topology-Ends path f w (ok t) valid h =
      with_cluster-Ends (vm_home sys w) (f t) (λ home v. h t home v (valid t refl))

  with_topology-Ends :
      (usage : Text) (f : Topology → Lab (Option World) → World → Option Run) (args : List Text)
      (w : World)
      → ((t : Topology) (home : Text) (v : World) → IsValid t → Ends (f t (lab_at sys home) v))
      → Ends (with_topology sys usage f args w)
  unfolding with_topology
  with_topology-Ends usage f [] w h = (_, refl)
  with_topology-Ends usage f (path ∷ []) w h =
      of_topology-Ends path f w (loaded sys path w) (loaded-IsValid path w) h
  with_topology-Ends usage f (path ∷ a ∷ args) w h = (_, refl)

  up_cluster-Ends :
      IsClock (vm_of sys)
      → (t : Topology) (home : Text) (w : World) → Ends (up_cluster sys t (lab_at sys home) w)
  up_cluster-Ends clock t home w =
      let (r, ends, code) = up_cluster-Exits sys clock t home w in (r, ends)

  status_cluster-Ends :
      IsClock (vm_of sys)
      → (t : Topology) (home : Text) (w : World) → Ends (status_cluster sys t (lab_at sys home) w)
  unfolding status_cluster
  status_cluster-Ends clock t home w =
      over-Goes _
        (status-Lasts (lab_at sys home) Goes (lab_at-Lasts sys clock home) t (some w) (w, refl))

  down_cluster-Ends :
      IsClock (vm_of sys)
      → (t : Topology) (home : Text) (w : World) → IsValid t
      → Ends (down_cluster sys t (lab_at sys home) w)
  unfolding down_cluster
  down_cluster-Ends clock t home w valid =
      let lab = lab_at sys home in
      let lasts = lab_at-Lasts sys clock home in
      let e = (down-IsValid lab t (some w) valid).1 in
      let (r, ends) =
        over-Goes (_, printed (t.name ++ str ": down\n"))
          (delete_devices-Lasts lab Goes lasts _ _
            (stop_all-Lasts lab Goes lasts (expand t) (some w) (w, refl))) in
      (
        r,
        ap
              (λ (o : Option (Option World)). elim o [
                | none ↦ none
                | some v ↦ over (v, printed (t.name ++ str ": down\n"))
              ])
              e
            ∙ ends,
      )

  exec_done-Ends :
      (o : Option (World × Result ExecError ExecResult))
      → ((b : World × Result ExecError ExecResult) × (o ≡ some b))
      → Ends (exec_done sys o)
  unfolding exec_done
  exec_done-Ends none (b, e) = absurd (none_apart b e)
    where
      none_apart :
          (c : World × Result ExecError ExecResult)
          → ◌≡◌ {A = Option (World × Result ExecError ExecResult)} none (some c)
          → ⊥
      none_apart c h = cc
  exec_done-Ends (some (w, err e)) h = (_, refl)
  exec_done-Ends (some (w, ok r)) h = (_, refl)

  module _ (clock : IsClock (vm_of sys)) where
    exec_at-Ends :
        (node : Text) (cmd : List Text) (o : World × Result Failure Text)
        → Ends (exec_at sys node cmd o)
    unfolding exec_at
    exec_at-Ends node cmd (w, err e) = (_, refl)
    exec_at-Ends node cmd (w, ok home) = exec_done-Ends _ (exec-some (vm_of sys) none _ cmd clock w)

    exec_in-Ends :
        (node : Text) (cmd : List Text) (w : World) (r : Result LoadError Topology)
        → Ends (exec_in sys node cmd w r)
    unfolding exec_in
    exec_in-Ends node cmd w (err e) = (_, refl)
    exec_in-Ends node cmd w (ok t) =
        if-Ends (has_instance node (expand t)) _ _ (exec_at-Ends node cmd (vm_home sys w)) (_, refl)

    exec_asked-Ends : (w : World) (o : Option (Text × Text × List Text)) → Ends (exec_asked sys w o)
    unfolding exec_asked
    exec_asked-Ends w none = (_, refl)
    exec_asked-Ends w (some (topo, node, cmd)) = exec_in-Ends node cmd w (loaded sys topo w)

    dispatch-Ends : (cmd : Text) (args : List Text) (w : World) → Ends (dispatch sys cmd args w)
    unfolding dispatch down_cmd up_cmd status_cmd exec_cmd
    dispatch-Ends cmd args w =
        if-Ends (is_one_of cmd (str "version") (str "--version") (str "-v")) _ _ (_, refl)
          (if-Ends (is_one_of cmd (str "help") (str "--help") (str "-h")) _ _ (_, refl)
            (if-Ends (text_eq cmd (str "validate")) _ _ (_, refl)
              (if-Ends (text_eq cmd (str "doctor")) _ _ (_, refl)
                (if-Ends (text_eq cmd (str "setup")) _ _ (_, refl)
                  (if-Ends (text_eq cmd (str "kernel")) _ _ (_, refl)
                    (if-Ends (text_eq cmd (str "up")) _ _
                      (with_topology-Ends _ _ args w (λ t home v h. up_cluster-Ends clock t home v))
                      (if-Ends (text_eq cmd (str "down")) _ _
                        (with_topology-Ends _ _ args w (down_cluster-Ends clock))
                        (if-Ends (text_eq cmd (str "exec")) _ _ (exec_asked-Ends w (exec_args args))
                          (if-Ends (text_eq cmd (str "status")) _ _
                            (with_topology-Ends _ _ args w
                              (λ t home v h. status_cluster-Ends clock t home v))
                            (if-Ends (text_eq cmd (str "ssh")) _ _ (_, refl)
                              (if-Ends (text_eq cmd (str "run")) _ _ (_, refl) (_, refl))))))))))))

    -- Where each command that klab runs ends, time does not run backwards and a sleep lasts as long
    -- as it is asked to, klab ends, on whatever arguments: it has a result, with a code that it exits
    -- with. In particular down does not panic, as the topology that it takes has been validated, and
    -- the waits of up, of exec and of the pings of status end, each by what it waits for or by its
    -- deadline.
    pub main-Ends : (args : List Text) (w : World) → (r : Run) × (main sys args w ≡ some r)
    unfolding main
    main-Ends [] w = (_, refl)
    main-Ends (cmd ∷ args) w = dispatch-Ends cmd args w
