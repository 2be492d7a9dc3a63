-- ===== src/Cli/Validated.antt =====
-- klab validate, from the command line to the topology in the file.
use klab.Prelude.{◌≡◌, ◌↔◌, refl, List, [], ◌∷◌, Option, some, Result, ok, err, ◌>>=◌}
use klab.Prelude.Int.{ℤ, pos}
use klab.Text.{Text, str, text_eq}
use klab.Topology.{Topology}
use klab.Topology.Load.{LoadError, load, validate_file, Holds, load_iff}
use klab.Cli.{System, Ended, contents, printed}
use klab.Cli.Arguments.{rest_of, parse_flags}
use klab.Cli.Main.{is_one_of, validated, validate_args, validate_cmd, dispatch, main}

validate_file-load :
    (read : Text → Option Text) (unmarshal : Text → Option Topology) (path : Text)
    → validate_file read unmarshal path ≡ (load read unmarshal path >>= λ (t : Topology). ok tt)
unfolding validate_file
validate_file-load read unmarshal path = refl

not_zero : {A : Type 0} → ◌≡◌ {A = ℤ} (pos 1) (pos 0) → A
not_zero e = absurd cc

validated-code :
    (r : Result LoadError Topology)
    → ((validated (r >>= λ (t : Topology). ok tt)).code ≡ pos 0) ↔ ((t : Topology) × (r ≡ ok t))
unfolding validated printed
validated-code (ok t) = (λ h. (t, refl), λ h. refl)
validated-code (err e) = (λ h. not_zero h, λ (t, h). absurd cc)

module _ {World : Type 0} (sys : System World) where
  read_at : World → Text → Option Text
  read_at w p = contents (sys.read_file p w)

  dispatch-validate :
      (args : List Text) (w : World)
      → dispatch sys (str "validate") args w ≡ some (validate_cmd sys args w)
  unfolding dispatch is_one_of text_eq str
  dispatch-validate args w = refl

  validate_cmd-code :
      (path : Text) (w : World)
      → parse_flags (path ∷ []) ≡ rest_of (path ∷ [])
      → ((validate_cmd sys (path ∷ []) w).1.code ≡ pos 0)
        ↔ ((t : Topology) × (load (read_at w) sys.unmarshal_yaml path ≡ ok t))
  unfolding validate_cmd validate_args read_at
  validate_cmd-code path w plain =
      rw (plain, validate_args, validate_file-load (read_at w) sys.unmarshal_yaml path)
        (validated-code (load (read_at w) sys.unmarshal_yaml path))

  -- `klab validate` of one path that is no flag ends without a change of the machine, and exits with
  -- 0 exactly if the file can be read, its text unmarshals to a topology, and that is well formed.
  pub main-validate :
      (path : Text) (w : World)
      → parse_flags (path ∷ []) ≡ rest_of (path ∷ [])
      → (e : Ended) × (main sys (str "validate" ∷ path ∷ []) w ≡ some (w, e))
        × ((e.code ≡ pos 0) ↔ (
            (t : Topology) × Holds (λ p. contents (sys.read_file p w)) sys.unmarshal_yaml path t))
  unfolding main validate_cmd read_at
  main-validate path w plain =
      let (from, into) = validate_cmd-code path w plain in
      (
        _,
        dispatch-validate (path ∷ []) w,
        (
          λ h. (let (t, e) = from h in (t, (load_iff _ sys.unmarshal_yaml path t).0 e)),
          λ (t, h). into (t, (load_iff _ sys.unmarshal_yaml path t).1 h),
        ),
      )
