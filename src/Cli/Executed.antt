-- ===== src/Cli/Executed.antt =====
-- klab exec, through the driver, to the answer of the guest.
use klab.Prelude.{◌*◌, ◌≡◌, refl, ap, ◌∙◌, true, false, List, [], ◌∷◌, ◌++◌, none, some, ok}
use klab.Prelude.Int.{ℤ}
use klab.Text.{Text, str}
use klab.Text.Decimal.{itoa, IsInt}
use klab.Text.Path.{path_join}
use klab.Topology.{Topology, expand}
use klab.Qemu.Live.{millisecond, write_request}
use klab.Qemu.Live.Waiting.{IsClock, Appears}
use klab.Qemu.Live.Executes.{exec_deadline, response_file, exec-answered}
use klab.Cli.{System, vm_of}
use klab.Cli.Arguments.{Asks, exec_args_iff}
use klab.Cli.Nodes.{
  has_instance, vm_home, loaded, exec_done, exec_at, exec_in, exec_asked, exec_cmd,
}

module _ {World : Type 0} (sys : System World) where
  -- The directory of a node.
  abbrev pub node_dir : Text → Text → Text
  node_dir home node = path_join (home ∷ str ".cache/klab/run" ∷ node ∷ [])

  -- The guest answers a request that is made in the state `w` with a code and an output, as a file
  -- that is seen in the state `v`.
  pub record Answers (handle : Text) (cmd : List Text) (w v : World) (code : ℤ) (out : Text)
      : Type 0 where
    pub written : (write_request (vm_of sys) handle ((vm_of sys).now w) cmd w).1.failed ≡ false
    pub seen_in_time :
        Appears
          (vm_of sys)
          (200 * millisecond)
          (exec_deadline
            (vm_of sys)
            none
            handle
            cmd
            (write_request (vm_of sys) handle ((vm_of sys).now w) cmd w).0)
          (response_file (vm_of sys) none handle cmd w)
          (write_request (vm_of sys) handle ((vm_of sys).now w) cmd w).0
          v
    pub read_back :
        ((vm_of sys).run
          (str "sudo" ∷ str "cat" ∷ response_file (vm_of sys) none handle cmd w ∷ [])
          v).1.failed
        ≡ false
    pub says :
        ((vm_of sys).run
          (str "sudo" ∷ str "cat" ∷ response_file (vm_of sys) none handle cmd w ∷ [])
          v).1.result.stdout
        ≡ (str "rc=" ++ itoa code) ++ 10 ∷ out

  exec_in-known :
      (node : Text) (cmd : List Text) (w : World) (t : Topology)
      → has_instance node (expand t) ≡ true
      → exec_in sys node cmd w (ok t) ≡ exec_at sys node cmd (vm_home sys w)
  unfolding exec_in
  exec_in-known node cmd w t h = rw h refl

  -- klab exec is the command that it runs in the node: if its arguments ask for a command in a node
  -- of a topology that loads, the home of the virtual machine is found, time does not run backwards
  -- and the guest answers in time, then it prints the output of the command, and exits with its
  -- code.
  pub exec_cmd-Answers :
      IsClock (vm_of sys)
      → (args : List Text) (topo node : Text) (cmd : List Text) (w w1 v : World) (t : Topology)
        (home : Text) (code : ℤ) (out : Text)
      → Asks args topo node cmd
      → loaded sys topo w ≡ ok t
      → has_instance node (expand t) ≡ true
      → vm_home sys w ≡ (w1, ok home)
      → IsInt code
      → Answers (node_dir home node) cmd w1 v code out
      → (u : World) × (exec_cmd sys args w
          ≡ some (u, record { stdout = out; notes = []; code = code }))
  unfolding exec_cmd exec_asked exec_at exec_done
  exec_cmd-Answers clock args topo node cmd w w1 v t home code out asks loads known lives int a = (
    _,
    ap (exec_asked sys w) ((exec_args_iff args topo node cmd).1 asks)
        ∙ ap (exec_in sys node cmd w) loads
        ∙ exec_in-known node cmd w t known
        ∙ ap (exec_at sys node cmd) lives
        ∙ ap (exec_done sys) (
            exec-answered (vm_of sys) none (node_dir home node) cmd clock w1 v code out int
              a.written a.seen_in_time a.read_back a.says),
  )
