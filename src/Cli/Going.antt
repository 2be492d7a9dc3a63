-- ===== src/Cli/Going.antt =====
-- The cluster of klab up, down and status does not hang: where the clock runs, each operation of the
-- lab ends, and so do Up, Down and Status.
use klab.Prelude.{◌≡◌, refl, Bool, Option, none, some, Result, ok, err}
use klab.Text.{Text}
use klab.Driver.{ExecResult}
use klab.Qemu.Live.Waiting.{IsClock}
use klab.Qemu.Live.Boots.{boot-some}
use klab.Qemu.Live.Executes.{exec-some}
use klab.Runner.Cluster.Kept.{Lasts}
use klab.Cli.{System, Ended, vm_of}
use klab.Cli.Nodes.{going, over, booted_of, answer_of, boot_from, exec_from, deadline_after, lab_at}

module _ {World : Type 0} where
  -- The command still goes on.
  abbrev pub Goes : Option World → Type 0
  Goes o = (w : World) × (o ≡ some w)

  pub over-Goes : (o : Option World × Ended) → Goes o.0 → (r : World × Ended) × (over o ≡ some r)
  unfolding over
  over-Goes (none, e) (w, h) = absurd cc
  over-Goes (some v, e) h = ((v, e), refl)

  going-Goes :
      {A : Type 0} (lost : A) (f : World → World × A) (o : Option World)
      → Goes o
      → Goes (going lost f o).0
  unfolding going
  going-Goes lost f none (w, h) = absurd cc
  going-Goes lost f (some v) h = (_, refl)

  booted_of-Goes :
      {Error : Type 0} (o : Option (World × Result Error Text))
      → ((b : World × Result Error Text) × (o ≡ some b))
      → Goes (booted_of o).0
  unfolding booted_of
  booted_of-Goes none (b, h) = absurd cc
  booted_of-Goes (some (v, ok handle)) h = (v, refl)
  booted_of-Goes (some (v, err e)) h = (v, refl)

  answer_of-Goes :
      {Error : Type 0} (o : Option (World × Result Error ExecResult))
      → ((b : World × Result Error ExecResult) × (o ≡ some b))
      → Goes (answer_of o).0
  unfolding answer_of
  answer_of-Goes none (b, h) = absurd cc
  answer_of-Goes (some (v, ok r)) h = (v, refl)
  answer_of-Goes (some (v, err e)) h = (v, refl)

  module _ (sys : System World) (clock : IsClock (vm_of sys)) where
    boot_from-Goes :
        (spec : klab.Driver.BootSpec) (o : Option World) → Goes o → Goes (boot_from sys spec o).0
    unfolding boot_from
    boot_from-Goes spec none (w, h) = absurd cc
    boot_from-Goes spec (some w) h = booted_of-Goes _ (boot-some (vm_of sys) none spec clock w)

    exec_from-Goes :
        (allowed : Option _) (handle : Text) (cmd : klab.Prelude.List Text) (o : Option World)
        → Goes o
        → Goes (exec_from sys allowed handle cmd o).0
    unfolding exec_from
    exec_from-Goes allowed handle cmd none (w, h) = absurd cc
    exec_from-Goes allowed handle cmd (some w) h =
        answer_of-Goes _
          (exec-some (vm_of sys) (deadline_after (sys.now w) allowed) handle cmd clock w)

    -- No operation of the lab hangs.
    pub lab_at-Lasts : (home : Text) → Lasts (lab_at sys home) Goes
    unfolding lab_at
    lab_at-Lasts home = record {
      after_run = λ argv o h. going-Goes _ _ o h;
      after_image = λ kernel o h. going-Goes _ _ o h;
      after_boot = boot_from-Goes;
      after_exec = exec_from-Goes;
      after_stop = λ handle o h. going-Goes _ _ o h;
    }
