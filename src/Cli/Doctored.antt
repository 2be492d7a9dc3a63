-- ===== src/Cli/Doctored.antt =====
-- klab doctor, from the command line to the machine that is probed.
use klab.Prelude.{ℕ, ◌≡◌, refl, ap, ◌∙◌, Bool, false, List, [], ◌∷◌, some, if◌then◌else◌, arith}
use klab.Prelude.Int.{pos}
use klab.Text.{Text, str, text_eq}
use klab.Host.{Report, ready, exit_code, evaluate, fprint, run}
use klab.Host.Probe.{Env, probe}
use klab.Host.Probe.Doctor.{mac_meets, linux_meets, evaluate-probe}
use klab.Cli.{System, Ended}
use klab.Cli.Main.{is_one_of, doctor, dispatch, main}

exit_code-ready : (r : Report) → exit_code r ≡ (if ready r then 0 else 1)
unfolding exit_code ready
exit_code-ready r = ground arith

-- What the machine must have, on its operating system.
abbrev pub meets : Env → Bool
meets m =
    if text_eq m.goos (str "darwin")
    then mac_meets m
    else if text_eq m.goos (str "linux")
    then linux_meets m
    else false

code_of : ℕ → Text → Ended
code_of n s = record { stdout = s; notes = []; code = pos n }

module _ {World : Type 0} (sys : System World) where
  dispatch-doctor :
      (args : List Text) (w : World) → dispatch sys (str "doctor") args w ≡ some (doctor sys w)
  unfolding dispatch is_one_of text_eq str
  dispatch-doctor args w = refl

  doctor_lem :
      (w : World)
      → doctor sys w ≡ (
        (sys.probed w).0,
        code_of
            (if meets (sys.probed w).1 then 0 else 1)
            (fprint (evaluate sys.quote (probe (sys.probed w).1))),
      )
  unfolding doctor run code_of
  doctor_lem w =
      let env = (sys.probed w).1 in
      let r = evaluate sys.quote (probe env) in
      ap (λ n. ((sys.probed w).0, code_of n (fprint r)))
        (exit_code-ready r ∙ ap (λ (b : Bool). if b then 0 else 1) (evaluate-probe env sys.quote))

  -- `klab doctor` prints the report on the machine, in the state that the commands of the probe leave.
  -- It exits with 0 if, on darwin, the product version is 15 or more, the memory is 8 GiB or more,
  -- brew, limactl and go are found and, where the lima instance runs, /dev/kvm is in it; on linux, if
  -- /dev/kvm is there and go, qemu-system-aarch64 and clang are found. Otherwise, and on any other
  -- system, it exits with 1.
  pub main-doctor :
      (args : List Text) (w : World)
      → let (v, env) = sys.probed w in
        main sys (str "doctor" ∷ args) w
        ≡ some (
          v,
          record {
            stdout = fprint (evaluate sys.quote (probe env));
            notes = [];
            code = pos (if meets env then 0 else 1);
          },
        )
  unfolding main code_of
  main-doctor args w = dispatch-doctor args w ∙ ap some (doctor_lem w)
