-- ===== src/Qemu/Live/Boots.antt =====
-- How Boot ends.
use klab.Prelude.{
  ℕ, ◌+◌, ◌*◌, ◌≡◌, inl, inr, refl, ap, ◌∙◌, true, false, Option, some, ok, err, arith, Bool-cases,
}
use klab.Text.Path.{path_dir}
use klab.Driver.{BootSpec}
use klab.Exec.{Ran}
use klab.Qemu.Live.{
  Vm, Wait, seen, timed_out, out_of_fuel, millisecond, boot_timeout, deadline_or, launch_failed,
  Booted, ready_of, gave_up, boot_waited, boot_launched, launch, boot, wait_until,
}
use klab.Qemu.Live.Waiting.{IsClock, Appears, Misses, Meets, wait_until-Meets, Appears-wait_until}

module _ {World : Type 0} (vm : Vm World) (ctx : Option ℕ) (spec : BootSpec) where
  -- The wait of a boot that was launched in the state `w`.
  abbrev pub boot_deadline : World → ℕ
  boot_deadline w = deadline_or (vm.now w + boot_timeout) ctx

  -- The three ways in which a boot ends that was launched with the result `r`.
  pub data Ends (r : World × Ran) (o : Option (Booted vm)) : Type 0 where
    unlaunched : r.1.failed ≡ true → o ≡ some (r.0, err launch_failed) → Ends r o
    ready :
        (v : World)
        → r.1.failed ≡ false
        → Appears vm (500 * millisecond) (boot_deadline r.0) (ready_of spec.rootfs_rw) r.0 v
        → o ≡ some (v, ok (path_dir spec.rootfs_rw))
        → Ends r o
    abandoned :
        (v : World)
        → r.1.failed ≡ false
        → Misses vm (500 * millisecond) (boot_deadline r.0) (ready_of spec.rootfs_rw) r.0 v
        → o ≡ some (gave_up vm spec v)
        → Ends r o

  abbrev boot_wait : World → Wait World
  boot_wait w = wait_until vm (500 * millisecond) (boot_deadline w) (ready_of spec.rootfs_rw) w

  boot_failed :
      (r : World × Ran)
      → r.1.failed ≡ true
      → boot_launched vm ctx spec r ≡ some (r.0, err launch_failed)
  unfolding boot_launched
  boot_failed (w, r) h = rw h refl

  boot_waits :
      (r : World × Ran)
      → r.1.failed ≡ false
      → boot_launched vm ctx spec r ≡ boot_waited vm spec (boot_wait r.0)
  unfolding boot_launched
  boot_waits (w, r) h = rw h refl

  waited-Ends :
      (r : World × Ran) (o : Option (Booted vm)) (t : Wait World)
      → r.1.failed ≡ false
      → Meets vm (500 * millisecond) (boot_deadline r.0) (ready_of spec.rootfs_rw) r.0 t
      → o ≡ boot_waited vm spec t
      → Ends r o
  unfolding boot_waited
  waited-Ends r o (seen v) ran m e = ready v ran m e
  waited-Ends r o (timed_out v) ran m e = abandoned v ran m e
  waited-Ends r o out_of_fuel ran m e = absurd m

  -- If time does not run backwards and a sleep lasts as long as it is asked to, Boot ends, in one of
  -- three ways: the launch failed, and so does it; a look at the ready file that started before the
  -- deadline saw it, and it returns the run directory; or none did until the deadline had passed,
  -- and it reads the console, kills the machine and returns an error.
  pub boot-Ends : IsClock vm → (w : World) → Ends (launch vm spec w) (boot vm ctx spec w)
  unfolding boot
  boot-Ends clock w = elim (Bool-cases (launch vm spec w).1.failed) [
    | inl e ↦ unlaunched e (boot_failed (launch vm spec w) e)
    | inr ran ↦
        waited-Ends (launch vm spec w) _ (boot_wait (launch vm spec w).0) ran
          (wait_until-Meets vm _ _ _ clock (omega arith) (launch vm spec w).0)
          (boot_waits (launch vm spec w) ran)
  ]

  Ends-some : (r : World × Ran) (o : Option (Booted vm)) → Ends r o → (b : Booted vm) × (o ≡ some b)
  Ends-some r o (unlaunched f e) = (_, e)
  Ends-some r o (ready v f m e) = (_, e)
  Ends-some r o (abandoned v f m e) = (_, e)

  -- Under a clock, Boot has a result: its fuel is enough.
  pub boot-some : IsClock vm → (w : World) → (b : Booted vm) × (boot vm ctx spec w ≡ some b)
  boot-some clock w = Ends-some (launch vm spec w) _ (boot-Ends clock w)

  -- Boot comes up: if the machine was launched and the ready file is seen by a look that starts
  -- before the deadline, it returns the run directory, in the state in which the file was seen.
  pub boot-Appears :
      IsClock vm
      → (w v : World) → (launch vm spec w).1.failed ≡ false
      → Appears vm
          (500 * millisecond)
          (boot_deadline (launch vm spec w).0)
          (ready_of spec.rootfs_rw)
          (launch vm spec w).0
          v
      → boot vm ctx spec w ≡ some (v, ok (path_dir spec.rootfs_rw))
  unfolding boot boot_waited
  boot-Appears clock w v ran h =
      boot_waits (launch vm spec w) ran
      ∙ ap (boot_waited vm spec)
          (Appears-wait_until vm _ _ _ clock (omega arith) (launch vm spec w).0 v h)
