-- ===== src/Kernel/Store/Steps.antt =====
-- `Store.Get` one step at a time, where a step is one call of the file system, of the builder or of
-- the encoder: what another process sees between two steps, and what is left if one is cut off.
use klab.Prelude.{ℕ, zero, suc, ◌≡◌, refl, Bool, true, false, Option, none, some, Result, ok, err}
use klab.Text.{Text}
use klab.Kernel.Store.{
  Spec, Artifact, Contents, found, not_exist, unreadable, Machine, StoreError, corrupt_metadata,
  reading_cache, creating_dir, writing_config, writing_metadata, build_failed, encoding_metadata,
  Outcome, key_of, dir_of, meta_of, config_of, meta_written, encoded, built, config_written,
  dir_made, decoded, looked_up, get,
}

-- What a call of Get does next.
pub data Point (Bytes BuildError : Type 0) : Type 0 where
  at_lookup at_mkdir at_config at_build : Point Bytes BuildError
  at_marshal : Artifact → Point Bytes BuildError
  at_marker : Artifact → Bytes → Point Bytes BuildError
  returned : Result (StoreError BuildError) (Artifact × Bool) → Point Bytes BuildError

module _ {World Bytes BuildError : Type 0} (m : Machine World Bytes BuildError)
    (root toolchain : Text) where
  abbrev pub At : Type 0
  At = Point Bytes BuildError

  -- The artifact with the key and the path of the config that Get gives it.
  unfoldable pub stamped : Spec → Text → Artifact → Artifact
  stamped spec config a = record a {
    hash = key_of m root toolchain spec config;
    config = config_of m root toolchain spec config;
  }

  unfoldable pub after_decode : Text → Option Artifact → At
  after_decode meta none = returned (err (corrupt_metadata meta))
  after_decode meta (some a) = returned (ok (a, true))

  unfoldable pub after_lookup : Text → Contents Bytes → At
  after_lookup meta (found d) = after_decode meta (m.unmarshal d)
  after_lookup meta unreadable = returned (err (reading_cache meta))
  after_lookup meta not_exist = at_mkdir

  -- A call of the file system that says whether it was done.
  unfoldable pub after_call : At → StoreError BuildError → World × Bool → World × At
  after_call next e (w, true) = (w, next)
  after_call next e (w, false) = (w, returned (err e))

  unfoldable pub after_build : Spec → Text → World × Result BuildError Artifact → World × At
  after_build spec config (w, err e) = (w, returned (err (build_failed e)))
  after_build spec config (w, ok a) = (w, at_marshal (stamped spec config a))

  unfoldable pub after_marshal : Artifact → Option Bytes → At
  after_marshal a none = returned (err encoding_metadata)
  after_marshal a (some d) = at_marker a d

  -- The marker is written in one step here; what may come in the midst of it is part of `Turn` of
  -- Kernel/Store/Shared.
  unfoldable pub step : Spec → Text → At → World → World × At
  step spec config at_lookup w =
      let meta = meta_of m root toolchain spec config in (w, after_lookup meta (m.read_file meta w))
  step spec config at_mkdir w =
      let dir = dir_of m root toolchain spec config in
      after_call at_config (creating_dir dir) (m.mkdir_all dir w)
  step spec config at_config w =
      let path = config_of m root toolchain spec config in
      after_call at_build (writing_config path) (m.write_file path (m.of_text config) w)
  step spec config at_build w =
      after_build spec config (m.build spec config (dir_of m root toolchain spec config) w)
  step spec config (at_marshal a) w = (w, after_marshal a (m.marshal a))
  step spec config (at_marker a d) w =
      let meta = meta_of m root toolchain spec config in
      after_call (returned (ok (a, false))) (writing_metadata meta) (m.write_file meta d w)
  step spec config (returned r) w = (w, returned r)

  unfoldable pub steps : ℕ → Spec → Text → World × At → World × At
  steps zero spec config (w, p) = (w, p)
  steps (suc n) spec config (w, p) = steps n spec config (step spec config p w)

  at_end : Outcome m root toolchain → World × At
  at_end (w, r) = (w, returned r)

  steps-returned :
      (n : ℕ) (spec : Spec) (config : Text) (w : World)
      (r : Result (StoreError BuildError) (Artifact × Bool))
      → steps n spec config (w, returned r) ≡ (w, returned r)
  unfolding steps step
  steps-returned zero spec config w r = refl
  steps-returned (suc n) spec config w r = steps-returned n spec config w r

  marker_lem :
      (n : ℕ) (spec : Spec) (config : Text) (a : Artifact) (meta : Text) (o : World × Bool)
      → steps n spec config (after_call (returned (ok (a, false))) (writing_metadata meta) o)
        ≡ at_end (meta_written m root toolchain meta a o)
  unfolding after_call meta_written at_end
  marker_lem n spec config a meta (w, true) = steps-returned n spec config w _
  marker_lem n spec config a meta (w, false) = steps-returned n spec config w _

  marshal_lem :
      (spec : Spec) (config : Text) (a : Artifact) (w : World) (o : Option Bytes)
      → steps 1 spec config (w, after_marshal a o)
        ≡ at_end (encoded m root toolchain (meta_of m root toolchain spec config) a w o)
  unfolding steps step after_marshal encoded at_end
  marshal_lem spec config a w none = refl
  marshal_lem spec config a w (some d) = marker_lem 0 spec config a _ _

  build_lem :
      (spec : Spec) (config : Text) (o : World × Result BuildError Artifact)
      → steps 2 spec config (after_build spec config o)
        ≡ at_end (built m root toolchain spec config o)
  unfolding steps step after_build built stamped at_end
  build_lem spec config (w, err e) = refl
  build_lem spec config (w, ok a) = marshal_lem spec config (stamped spec config a) w _

  config_lem :
      (spec : Spec) (config : Text) (o : World × Bool)
      → steps 3 spec config
          (after_call at_build (writing_config (config_of m root toolchain spec config)) o)
        ≡ at_end (config_written m root toolchain spec config o)
  unfolding steps step after_call config_written at_end
  config_lem spec config (w, true) = build_lem spec config _
  config_lem spec config (w, false) = refl

  mkdir_lem :
      (spec : Spec) (config : Text) (o : World × Bool)
      → steps 4 spec config
          (after_call at_config (creating_dir (dir_of m root toolchain spec config)) o)
        ≡ at_end (dir_made m root toolchain spec config o)
  unfolding steps step after_call dir_made at_end
  mkdir_lem spec config (w, true) = config_lem spec config _
  mkdir_lem spec config (w, false) = refl

  decode_lem :
      (spec : Spec) (config meta : Text) (w : World) (o : Option Artifact)
      → steps 5 spec config (w, after_decode meta o) ≡ at_end (decoded m root toolchain meta w o)
  unfolding steps step after_decode decoded at_end
  decode_lem spec config meta w none = refl
  decode_lem spec config meta w (some a) = refl

  lookup_lem :
      (spec : Spec) (config : Text) (w : World) (c : Contents Bytes)
      → steps 5 spec config (w, after_lookup (meta_of m root toolchain spec config) c)
        ≡ at_end (looked_up m root toolchain spec config w c)
  unfolding steps step after_lookup looked_up at_end
  lookup_lem spec config w (found d) = decode_lem spec config _ w (m.unmarshal d)
  lookup_lem spec config w unreadable = refl
  lookup_lem spec config w not_exist = mkdir_lem spec config _

  -- A call of `Get` that no other process disturbs is over after six steps, in the state and with
  -- the result of `Get`.
  pub steps-get :
      (spec : Spec) (config : Text) (w : World)
      → let (v, r) = get m root toolchain spec config w in
        steps 6 spec config (w, at_lookup) ≡ (v, returned r)
  unfolding steps step get at_end
  steps-get spec config w = lookup_lem spec config w _
