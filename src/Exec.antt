-- ===== src/Exec.antt =====
-- internal/exec/runner.go: running a command in the lima VM. What the operating system makes of a
-- command line is a parameter.
use klab.Prelude.{Bool, not, ◌&&◌, true, false, List, ◌∷◌, if◌then◌else◌}
use klab.Prelude.Int.{ℤ, pos, is_zero}
use klab.Text.{Text, str, is_empty}

-- The type `Result` of the package.
pub record RunResult : Type 0 where
  pub exit_code : ℤ
  pub stdout : Text
  pub stderr : Text

-- What `Run` returns: a result also beside an error.
pub record Ran : Type 0 where
  pub result : RunResult
  pub failed : Bool

-- `err == nil && res.ExitCode == 0`
unfoldable pub succeeded : Ran → Bool
succeeded r = not r.failed && is_zero r.result.exit_code

-- How `cmd.Run` ends: nil or an ExitError, with the exit code of the command, or another error.
-- What was captured until then stands behind it.
pub data Process : Type 0 where
  exited : ℤ → Text → Text → Process
  broken : Text → Text → Process

-- LimaRunner.instance
unfoldable pub instance_name : Text → Text
instance_name instance' = if is_empty instance' then str "klab" else instance'

-- wrap
unfoldable pub wrap : Text → List Text → List Text
wrap instance' argv = str "limactl" ∷ str "shell" ∷ instance' ∷ str "--" ∷ argv

unfoldable pub ran_of : Process → Ran
ran_of (exited code out err) = record {
  result = record { exit_code = code; stdout = out; stderr = err };
  failed = false;
}
ran_of (broken out err) = record {
  result = record { exit_code = pos 0; stdout = out; stderr = err };
  failed = true;
}

-- LimaRunner.Run
unfoldable pub lima_run :
    {World : Type 0}
    → (List Text → World → World × Process)
    → Text
    → List Text
    → World
    → World × Ran
lima_run start instance' argv w =
    let (w', p) = start (wrap (instance_name instance') argv) w in (w', ran_of p)
