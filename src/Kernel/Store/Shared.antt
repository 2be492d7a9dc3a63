-- ===== src/Kernel/Store/Shared.antt =====
-- Several calls of `Store.Get` on one cache, their steps in any order. A process that is killed is
-- a call that takes no further step. A call that writes its marker in place does so bit by bit: others
-- may see a part of it, a call that is killed leaves a part, and calls that write one marker at once
-- may mix their texts.
pub mod Kept
pub mod Partly
pub mod Safety
use klab.Prelude.{
  ◌≡◌, ◌≢◌, ◌⊎◌, inl, inr, refl, sym, ap, ◌∙◌, arith, Bool, true, false, List, [], ◌∷◌, Option,
  none, some, Result, ok, err, Any, All, Bool-cases,
}
use klab.Text.{Text, text_eq, text_eq_iff, text_eq_sound, is_empty}
use klab.Text.Path.{path_join}
use klab.Kernel.Store.{
  Spec, Artifact, Contents, found, not_exist, unreadable, Machine, StoreError, corrupt_metadata,
  reading_cache, creating_dir, writing_config, writing_metadata, build_failed, encoding_metadata,
  key_of, dir_of, meta_of, config_of,
}
use klab.Kernel.Store.Cached.{IsFaithful}
use klab.Kernel.Store.Steps.{
  Point, At, at_lookup, at_mkdir, at_config, at_build, at_marshal, at_marker, returned, stamped,
  after_decode, after_lookup, after_call, after_build, after_marshal, step,
}
use klab.Kernel.Store.Paths.{config_of-meta_of, meta_of-injective}

pub record Call (Bytes BuildError : Type 0) : Type 0 where
  pub spec : Spec
  pub config : Text
  pub at : Point Bytes BuildError

-- What the store relies on: a file that is written, also in vain, leaves the others alone; neither
-- a new directory nor a build makes a marker; a hash is not empty.
pub record IsOrderly {World Bytes BuildError : Type 0} (m : Machine World Bytes BuildError)
    (root toolchain : Text) : Type 0 where
  pub faithful : IsFaithful m
  pub read-write_apart :
      (p q : Text) (d : Bytes) (w : World)
      → p ≢ q
      → m.read_file q (m.write_file p d w).0 ≡ m.read_file q w
  pub read-mkdir_all :
      (dir path : Text) (d : Bytes) (w : World)
      → m.read_file path (m.mkdir_all dir w).0 ≡ found d
      → m.read_file path w ≡ found d
  pub read-build :
      (spec spec' : Spec) (config config' : Text) (d : Bytes) (w : World)
      → m.read_file
          (meta_of m root toolchain spec' config')
          (m.build spec config (dir_of m root toolchain spec config) w).0
        ≡ found d
      → m.read_file (meta_of m root toolchain spec' config') w ≡ found d
  pub sum_full : (s : Text) → is_empty (m.sum s) ≡ false

module _ {World Bytes BuildError : Type 0} (m : Machine World Bytes BuildError)
    (root toolchain : Text) where
  abbrev pub Calls : Type 0
  Calls = List (Call Bytes BuildError)

  -- The marker of an entry is there in part, or mixed of several texts, or not there: it does not
  -- decode. The other files are as they were.
  pub record Torn (spec : Spec) (config : Text) (w v : World) : Type 0 where
    pub broken :
        (d : Bytes)
        → m.read_file (meta_of m root toolchain spec config) v ≡ found d
        → m.unmarshal d ≡ none
    pub others :
        (path : Text)
        → meta_of m root toolchain spec config ≢ path
        → m.read_file path v ≡ m.read_file path w

  -- How a call that was to write its marker may return.
  abbrev pub Over : Call Bytes BuildError → Artifact → At m root toolchain → Type 0
  Over c a p =
      (p ≡ returned (ok (a, false)))
      ⊎ (p ≡ returned (err (writing_metadata (meta_of m root toolchain c.spec c.config))))

  -- One of the calls takes a step, of which `torn` is one in the midst of writing the marker, and
  -- `mixed` the end of a write that went wrong or was overlaid by another.
  pub data Turn : World → Calls → World → Calls → Type 0 where
    now :
        (c : Call Bytes BuildError) (cs : Calls) (w : World)
        → Turn w
            (c ∷ cs)
            (step m root toolchain c.spec c.config c.at w).0
            (record c { at = (step m root toolchain c.spec c.config c.at w).1 } ∷ cs)
    torn :
        (c : Call Bytes BuildError) (cs : Calls) (a : Artifact) (d : Bytes) (w v : World)
        → c.at ≡ at_marker a d
        → Torn c.spec c.config w v
        → Turn w (c ∷ cs) v (c ∷ cs)
    mixed :
        (c : Call Bytes BuildError) (cs : Calls) (a : Artifact) (d : Bytes)
        (p : At m root toolchain) (w v : World)
        → c.at ≡ at_marker a d
        → Torn c.spec c.config w v
        → Over c a p
        → Turn w (c ∷ cs) v (record c { at = p } ∷ cs)
    later :
        {w v : World} {cs ds : Calls} (c : Call Bytes BuildError)
        → Turn w cs v ds
        → Turn w (c ∷ cs) v (c ∷ ds)

  -- What calls that begin one after the other, from the world `w0` on, can lead to.
  pub data Reach (w0 : World) : World → Calls → Type 0 where
    start : Reach w0 w0 []
    begin :
        {w : World} {cs : Calls} (spec : Spec) (config : Text)
        → Reach w0 w cs
        → Reach w0 w (record { spec = spec; config = config; at = at_lookup } ∷ cs)
    turn : {w v : World} {cs ds : Calls} → Reach w0 w cs → Turn w cs v ds → Reach w0 v ds

  -- The artifact has the key and the path of the config of its inputs.
  abbrev pub Carries : Spec → Text → Artifact → Type 0
  Carries spec config a =
      (a.hash ≡ key_of m root toolchain spec config)
      × (a.config ≡ config_of m root toolchain spec config)

  -- Each marker that is there decodes to an artifact of its own entry.
  abbrev pub IsSound : World → Type 0
  IsSound w =
      (spec : Spec) (config : Text) (d : Bytes)
      → m.read_file (meta_of m root toolchain spec config) w ≡ found d
      → (a : Artifact) × (m.unmarshal d ≡ some a) × Carries spec config a

  -- What a call holds; where it has returned, an artifact of its own inputs, or an error other than
  -- that the marker is corrupt.
  abbrev pub Fits : Spec → Text → At m root toolchain → Type 0
  Fits spec config at_lookup = Unit {0}
  Fits spec config at_mkdir = Unit {0}
  Fits spec config at_config = Unit {0}
  Fits spec config at_build = Unit {0}
  Fits spec config (at_marshal a) = Carries spec config a
  Fits spec config (at_marker a d) = (m.marshal a ≡ some d) × Carries spec config a
  Fits spec config (returned (ok (a, hit))) = Carries spec config a
  Fits spec config (returned (err (corrupt_metadata path))) = ⊥
  Fits spec config (returned (err _)) = Unit {0}

  -- The call could not write its marker, which may be there in part.
  abbrev pub Broke : At m root toolchain → Type 0
  Broke p = (path : Text) × (p ≡ returned (err (writing_metadata path)))

  -- Each marker that decodes decodes to an artifact of its own entry.
  abbrev pub IsSafe : World → Type 0
  IsSafe w =
      (spec : Spec) (config : Text) (d : Bytes)
      → m.read_file (meta_of m root toolchain spec config) w ≡ found d
      → (a : Artifact) → m.unmarshal d ≡ some a
      → Carries spec config a

  -- The artifact that a call holds, or has returned, is one of its own inputs.
  abbrev pub Bears : Spec → Text → At m root toolchain → Type 0
  Bears spec config at_lookup = Unit {0}
  Bears spec config at_mkdir = Unit {0}
  Bears spec config at_config = Unit {0}
  Bears spec config at_build = Unit {0}
  Bears spec config (at_marshal a) = Carries spec config a
  Bears spec config (at_marker a d) = (m.marshal a ≡ some d) × Carries spec config a
  Bears spec config (returned (ok (a, hit))) = Carries spec config a
  Bears spec config (returned (err e)) = Unit {0}

  abbrev pub Holds : World → Calls → Type 0
  Holds w cs = IsSafe w × All (λ c. Bears c.spec c.config c.at) cs

  -- A write of an encoded artifact that fails leaves the whole of it, what was there before, or a part
  -- that does not decode.
  abbrev pub LeavesPart : Type 0
  LeavesPart =
      (a : Artifact) (d e : Bytes) (path : Text) (w v : World)
      → m.marshal a ≡ some d
      → m.write_file path d w ≡ (v, false)
      → m.read_file path v ≡ found e
      → (m.unmarshal e ≡ none) ⊎ ((e ≡ d) ⊎ (m.read_file path w ≡ found e))
