-- ===== src/Qemu/Live/Executes.antt =====
-- How Exec ends, and that it returns what the guest answers.
use klab.Prelude.{
  ℕ, ◌+◌, ◌*◌, ◌≡◌, inl, inr, refl, ap, ◌∙◌, true, false, List, [], ◌∷◌, ◌++◌, Option, some, ok,
  err, arith, Bool-cases,
}
use klab.Prelude.Int.{ℤ}
use klab.Text.{Text, str}
use klab.Text.Decimal.{itoa, IsInt}
use klab.Exec.{Ran}
use klab.Qemu.Framing.Response.{parse_response-round_trip}
use klab.Qemu.Live.{
  Vm, Wait, seen, timed_out, out_of_fuel, millisecond, exec_timeout, deadline_or,
  request_not_written, timed_out_exec, Executed, ctl_file, write_request, response_of,
  response_read, read_response, exec_waited, exec_written, exec, wait_until,
}
use klab.Qemu.Live.Waiting.{IsClock, Appears, Misses, Meets, wait_until-Meets, Appears-wait_until}

module _ {World : Type 0} (vm : Vm World) (ctx : Option ℕ) (handle : Text) (cmd : List Text) where
  abbrev pub exec_deadline : World → ℕ
  exec_deadline w = deadline_or (vm.now w + exec_timeout) ctx

  -- The file that the guest answers in to a request made in the state `w`.
  abbrev pub response_file : World → Text
  response_file w = ctl_file handle (vm.now w) (str ".res")

  -- The three ways in which a request made with the result `r` ends.
  pub data Ends (res : Text) (r : World × Ran) (o : Option (Executed vm)) : Type 0 where
    unwritten : r.1.failed ≡ true → o ≡ some (r.0, err request_not_written) → Ends res r o
    answered :
        (v : World)
        → r.1.failed ≡ false
        → Appears vm (200 * millisecond) (exec_deadline r.0) res r.0 v
        → o ≡ some (read_response vm res v)
        → Ends res r o
    unanswered :
        (v : World)
        → r.1.failed ≡ false
        → Misses vm (200 * millisecond) (exec_deadline r.0) res r.0 v
        → o ≡ some (v, err (timed_out_exec cmd))
        → Ends res r o

  abbrev exec_wait : Text → World → Wait World
  exec_wait res w = wait_until vm (200 * millisecond) (exec_deadline w) res w

  exec_failed :
      (res : Text) (r : World × Ran)
      → r.1.failed ≡ true
      → exec_written vm ctx res cmd r ≡ some (r.0, err request_not_written)
  unfolding exec_written
  exec_failed res (w, r) h = rw h refl

  exec_waits :
      (res : Text) (r : World × Ran)
      → r.1.failed ≡ false
      → exec_written vm ctx res cmd r ≡ exec_waited vm res cmd (exec_wait res r.0)
  unfolding exec_written
  exec_waits res (w, r) h = rw h refl

  waited-Ends :
      (res : Text) (r : World × Ran) (o : Option (Executed vm)) (t : Wait World)
      → r.1.failed ≡ false
      → Meets vm (200 * millisecond) (exec_deadline r.0) res r.0 t
      → o ≡ exec_waited vm res cmd t
      → Ends res r o
  unfolding exec_waited
  waited-Ends res r o (seen v) ran m e = answered v ran m e
  waited-Ends res r o (timed_out v) ran m e = unanswered v ran m e
  waited-Ends res r o out_of_fuel ran m e = absurd m

  -- If time does not run backwards and a sleep lasts as long as it is asked to, Exec ends, in one of
  -- three ways: the request could not be written; a look at the response file that started before
  -- the deadline saw it, and it is read; or none did until the deadline had passed.
  pub exec-Ends :
      IsClock vm
      → (w : World)
      → Ends (response_file w) (write_request vm handle (vm.now w) cmd w) (exec vm ctx handle cmd w)
  unfolding exec
  exec-Ends clock w =
      let r = write_request vm handle (vm.now w) cmd w in
      elim (Bool-cases r.1.failed) [
        | inl e ↦ unwritten e (exec_failed (response_file w) r e)
        | inr ran ↦
            waited-Ends (response_file w) r _ (exec_wait (response_file w) r.0) ran
              (wait_until-Meets vm _ _ _ clock (omega arith) r.0)
              (exec_waits (response_file w) r ran)
      ]

  Ends-some :
      (res : Text) (r : World × Ran) (o : Option (Executed vm))
      → Ends res r o
      → (b : Executed vm) × (o ≡ some b)
  Ends-some res r o (unwritten f e) = (_, e)
  Ends-some res r o (answered v f m e) = (_, e)
  Ends-some res r o (unanswered v f m e) = (_, e)

  -- Under a clock, Exec has a result: its fuel is enough.
  pub exec-some : IsClock vm → (w : World) → (b : Executed vm) × (exec vm ctx handle cmd w ≡ some b)
  exec-some clock w =
      Ends-some (response_file w) (write_request vm handle (vm.now w) cmd w) _ (exec-Ends clock w)

  read_answer :
      (res : Text) (w v : World) (r : Ran) (code : ℤ) (out : Text)
      → IsInt code
      → r.failed ≡ false
      → r.result.stdout ≡ (str "rc=" ++ itoa code) ++ 10 ∷ out
      → response_read vm res (v, r) ≡ (
        (vm.run (str "sudo" ∷ str "rm" ∷ str "-f" ∷ res ∷ []) v).0,
        ok (record { exit_code = code; stdout = out; stderr = [] }),
      )
  unfolding response_read response_of
  read_answer res w v r code out h f e = rw (f, e, parse_response-round_trip code out h) refl

  -- Exec returns what the guest answers: if the request was written, a look at the response file
  -- that starts before the deadline sees it, and its text is "rc=", an exit code, a newline and an
  -- output, then Exec returns that code and that output, and has removed the file.
  pub exec-answered :
      IsClock vm
      → (w v : World) (code : ℤ) (out : Text) → IsInt code
      → (write_request vm handle (vm.now w) cmd w).1.failed ≡ false
      → Appears vm
          (200 * millisecond)
          (exec_deadline (write_request vm handle (vm.now w) cmd w).0)
          (response_file w)
          (write_request vm handle (vm.now w) cmd w).0
          v
      → (vm.run (str "sudo" ∷ str "cat" ∷ response_file w ∷ []) v).1.failed ≡ false
      → (vm.run (str "sudo" ∷ str "cat" ∷ response_file w ∷ []) v).1.result.stdout
        ≡ (str "rc=" ++ itoa code) ++ 10 ∷ out
      → exec vm ctx handle cmd w
        ≡ some (
          (vm.run
              (str "sudo" ∷ str "rm" ∷ str "-f" ∷ response_file w ∷ [])
              (vm.run (str "sudo" ∷ str "cat" ∷ response_file w ∷ []) v).0).0,
          ok (record { exit_code = code; stdout = out; stderr = [] }),
        )
  unfolding exec exec_waited read_response
  exec-answered clock w v code out int written h ran e =
      let r = write_request vm handle (vm.now w) cmd w in
      let c = vm.run (str "sudo" ∷ str "cat" ∷ response_file w ∷ []) v in
      exec_waits (response_file w) r written
      ∙ ap (exec_waited vm (response_file w) cmd)
          (Appears-wait_until vm _ _ _ clock (omega arith) r.0 v h)
      ∙ ap some (read_answer (response_file w) w c.0 c.1 code out int ran e)
