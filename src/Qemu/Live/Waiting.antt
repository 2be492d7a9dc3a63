-- ===== src/Qemu/Live/Waiting.antt =====
-- The loops of Boot and Exec that wait for a file, against a description of what happens meanwhile.
use klab.Prelude.{
  ℕ, zero, suc, ◌+◌, ◌-◌, ◌≤◌, ◌<◌, ◌≡◌, inl, inr, refl, ap, ◌∙◌, true, false, List, [], ◌∷◌, arith,
  ltb, Bool-cases,
}
use klab.Text.{Text, str}
use klab.Exec.{succeeded}
use klab.Qemu.Live.{Vm, Wait, seen, timed_out, out_of_fuel, test_exists, wait, wait_until}

-- Time does not run backwards, and a sleep lasts as long as it is asked to.
pub record IsClock {World : Type 0} (vm : Vm World) : Type 0 where
  pub run-later : (argv : List Text) (w : World) → vm.now w ≤ vm.now (vm.run argv w).0
  pub sleep-later : (d : ℕ) (w : World) → vm.now w + d ≤ vm.now (vm.sleep d w)

module _ {World : Type 0} (vm : Vm World) (every deadline : ℕ) (file : Text) where
  -- The state after a look at the file and a sleep.
  abbrev pub next_round : World → World
  next_round w = vm.sleep every (test_exists vm file w).0

  -- The file is seen, in the state `v`, by one of the looks that start before the deadline.
  pub data Appears : World → World → Type 0 where
    here :
        {w v : World}
        → vm.now w < deadline
        → succeeded (test_exists vm file w).1 ≡ true
        → (test_exists vm file w).0 ≡ v
        → Appears w v
    later :
        {w v : World}
        → vm.now w < deadline
        → succeeded (test_exists vm file w).1 ≡ false
        → Appears (next_round w) v
        → Appears w v

  -- No look sees the file, until the deadline has passed in the state `v`.
  pub data Misses : World → World → Type 0 where
    over : {w v : World} → deadline ≤ vm.now w → w ≡ v → Misses w v
    again :
        {w v : World}
        → vm.now w < deadline
        → succeeded (test_exists vm file w).1 ≡ false
        → Misses (next_round w) v
        → Misses w v

  -- What a wait that ends has met.
  abbrev pub Meets : World → Wait World → Type 0
  Meets w (seen v) = Appears w v
  Meets w (timed_out v) = Misses w v
  Meets w out_of_fuel = ⊥

  Meets-later :
      (w : World) (r : Wait World)
      → vm.now w < deadline
      → succeeded (test_exists vm file w).1 ≡ false
      → Meets (next_round w) r
      → Meets w r
  Meets-later w (seen v) early n h = later early n h
  Meets-later w (timed_out v) early n h = again early n h
  Meets-later w out_of_fuel early n h = h

  wait_over :
      (fuel : ℕ) (w : World)
      → ltb (vm.now w) deadline ≡ false
      → wait vm (suc fuel) every deadline file w ≡ timed_out w
  unfolding wait
  wait_over fuel w h = rw (h, wait) refl

  wait_seen :
      (fuel : ℕ) (w : World)
      → ltb (vm.now w) deadline ≡ true
      → succeeded (test_exists vm file w).1 ≡ true
      → wait vm (suc fuel) every deadline file w ≡ seen (test_exists vm file w).0
  unfolding wait
  wait_seen fuel w h s = rw (h, wait, s) refl

  wait_again :
      (fuel : ℕ) (w : World)
      → ltb (vm.now w) deadline ≡ true
      → succeeded (test_exists vm file w).1 ≡ false
      → wait vm (suc fuel) every deadline file w ≡ wait vm fuel every deadline file (next_round w)
  unfolding wait
  wait_again fuel w h s = rw (h, wait, s) refl

  module _ (clock : IsClock vm) (pause : 0 < every) where
    -- A round leaves less time.
    round_later : (w : World) → vm.now w < vm.now (next_round w)
    unfolding test_exists
    round_later w = omega (
      arith,
      clock.run-later (str "sudo" ∷ str "test" ∷ str "-e" ∷ file ∷ []) w,
      clock.sleep-later every (test_exists vm file w).0,
      pause,
    )

    pub wait-Meets :
        (fuel : ℕ) (w : World)
        → deadline - vm.now w < fuel
        → Meets w (wait vm fuel every deadline file w)
    wait-Meets zero w enough = absurd (omega (arith, enough))
    wait-Meets (suc fuel) w enough = elim (Bool-cases (ltb (vm.now w) deadline)) [
      | inl early ↦ elim (Bool-cases (succeeded (test_exists vm file w).1)) [
        | inl s ↦ rw (wait_seen fuel w early s) (here (ground arith) s refl)
        | inr n ↦ rw (wait_again fuel w early n) (
            Meets-later w _ (ground arith) n
              (wait-Meets fuel (next_round w) (ground (arith, round_later w))))
      ]
      | inr late ↦ rw (wait_over fuel w late) (over (ground arith) refl)
    ]

    pub Appears-wait :
        (w v : World) (fuel : ℕ)
        → Appears w v
        → deadline - vm.now w < fuel
        → wait vm fuel every deadline file w ≡ seen v
    Appears-wait w v zero h enough = absurd (omega (arith, enough))
    Appears-wait w v (suc fuel) (here early s e) enough =
        wait_seen fuel w (ground arith) s ∙ ap seen e
    Appears-wait w v (suc fuel) (later early n rest) enough =
        wait_again fuel w (ground arith) n
        ∙ Appears-wait (next_round w) v fuel rest (ground (arith, round_later w))

    -- The fuel of the loops is enough: a wait ends, and as what it met.
    pub wait_until-Meets : (w : World) → Meets w (wait_until vm every deadline file w)
    unfolding wait_until
    wait_until-Meets w = wait-Meets (suc (deadline - vm.now w)) w (omega arith)

    pub Appears-wait_until :
        (w v : World) → Appears w v → wait_until vm every deadline file w ≡ seen v
    unfolding wait_until
    Appears-wait_until w v h = Appears-wait w v (suc (deadline - vm.now w)) h (omega arith)
