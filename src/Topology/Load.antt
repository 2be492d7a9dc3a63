-- ===== src/Topology/Load.antt =====
-- `Load` and `ValidateFile`. Reading the file and unmarshalling YAML are parameters: the one is the
-- operating system's, the other the package's gopkg.in/yaml.v3.
use klab.Prelude.{
  ◌≡◌, ◌↔◌, refl, Result, ok, err, Check, ◌>>=◌, >>=-ok, Option, none, some, sym, ◌≡◌, ◌↔◌, refl,
  ◌∙◌, ap,
}
use mathlib.Core.Path.{subst}
use klab.Text.{Text}
use klab.Topology.{Topology, Error, validate}
use klab.Topology.Validate.{IsValid}
use klab.Topology.Accepts.{validate_iff}

-- What stops a load: the file cannot be read, it is no YAML of a topology, or it is not valid.
pub data LoadError : Type 0 where
  unreadable unparsable : Text → LoadError
  invalid : Error → LoadError

-- `if err := t.Validate(); err != nil { return nil, err }`
checked : Topology → Check Error → Result LoadError Topology
checked t (ok u) = ok t
checked t (err e) = err (invalid e)

-- A step that has no result is an error of the load.
or_fail {ℓ} : {A : Type ℓ} → LoadError → Option A → Result LoadError A
or_fail e none = err e
or_fail e (some a) = ok a

or_fail-ok {ℓ} :
    {A : Type ℓ} (e : LoadError) (o : Option A) (a : A) → or_fail e o ≡ ok a → o ≡ some a
unfolding or_fail
or_fail-ok e none a h = cc
or_fail-ok e (some b) a h = cc

checked-ok : (t u : Topology) (r : Check Error) → checked t r ≡ ok u → (u ≡ t) × (r ≡ ok tt)
unfolding checked
checked-ok t u (ok x) h = (cc, refl)
checked-ok t u (err e) h = cc

module _ (read_file : Text → Option Text) (unmarshal : Text → Option Topology) where
  -- topology.Load
  unfoldable pub load : Text → Result LoadError Topology
  unfolding checked or_fail
  load path = do
    bytes ← or_fail (unreadable path) (read_file path)
    t ← or_fail (unparsable path) (unmarshal bytes)
    checked t (validate t)

  -- topology.ValidateFile
  unfoldable pub validate_file : Text → Check LoadError
  unfolding load
  validate_file path = do t ← load path; ok tt

  load_step :
      (path : Text)
      → load path ≡ (
          or_fail (unreadable path) (read_file path) >>= λ bytes.
          or_fail (unparsable path) (unmarshal bytes) >>= λ t. checked t (validate t))
  unfolding load
  load_step path = refl

  -- What `Load` returns: the topology that the file's text stands for, if it is well formed.
  abbrev pub Holds : Text → Topology → Type 0
  Holds path t =
      (bytes : Text) × (read_file path ≡ some bytes) × (unmarshal bytes ≡ some t) × IsValid t

  load-ok : (path : Text) (t : Topology) → load path ≡ ok t → Holds path t
  load-ok path t h =
      let (bytes, read, h1) = >>=-ok _ _ (sym (load_step path) ∙ h) in
      let (u, parsed, h2) = >>=-ok _ _ h1 in
      let (e, v) = checked-ok u t (validate u) h2 in
      (
        bytes,
        or_fail-ok _ _ _ read,
        or_fail-ok _ _ _ parsed ∙ ap some (sym e),
        subst IsValid (sym e) ((validate_iff u).0 v),
      )

  ok-load : (path : Text) (t : Topology) → Holds path t → load path ≡ ok t
  unfolding or_fail checked
  ok-load path t (bytes, read, parsed, valid) =
      load_step path ∙ rw (read, or_fail, parsed, or_fail, (validate_iff t).1 valid, checked)

  -- `Load` returns a topology exactly when the file can be read, its text unmarshals to that
  -- topology, and the topology is well formed.
  pub load_iff : (path : Text) (t : Topology) → (load path ≡ ok t) ↔ Holds path t
  load_iff path t = (load-ok path t, ok-load path t)
