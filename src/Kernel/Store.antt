-- ===== src/Kernel/Store.antt =====
-- internal/kernel/store.go: the cache of built kernels, on a file system whose operations may fail.
-- The file system, the builder, JSON and SHA-256 are parameters. An error keeps what failed.
pub mod Cached
pub mod Steps
pub mod Paths
pub mod Shared
use klab.Prelude.{
  List, [], ◌∷◌, Bool, true, false, Option, none, some, Result, ok, err, if◌then◌else◌,
}
use klab.Text.{Text, str}
use klab.Text.Path.{path_join}
use klab.Kernel.{cache_key}

pub record Spec : Type 0 where
  pub name : Text
  pub ref : Text
  pub arch : Text
  pub base_config : Text
  pub fragments : List Text

pub record Artifact : Type 0 where
  pub image : Text
  pub vmlinux : Text
  pub config : Text
  pub hash : Text

-- What os.ReadFile returns: the contents, or an error, of which os.IsNotExist tells the one that
-- the file is missing.
pub data Contents (Bytes : Type 0) : Type 0 where
  found : Bytes → Contents Bytes
  not_exist : Contents Bytes
  unreadable : Contents Bytes

pub data StoreError (BuildError : Type 0) : Type 0 where
  corrupt_metadata reading_cache creating_dir writing_config writing_metadata :
      Text → StoreError BuildError
  build_failed : BuildError → StoreError BuildError
  encoding_metadata : StoreError BuildError

-- What the store uses of the machine; `World` is the state of its files.
pub record Machine (World Bytes BuildError : Type 0) : Type 1 where
  pub read_file : Text → World → Contents Bytes
  pub mkdir_all : Text → World → World × Bool
  pub write_file : Text → Bytes → World → World × Bool
  pub of_text : Text → Bytes
  pub marshal : Artifact → Option Bytes
  pub unmarshal : Bytes → Option Artifact
  pub build : Spec → Text → Text → World → World × Result BuildError Artifact
  pub sum : Text → Text

abbrev pub artifact_meta : Text
unfolding str
artifact_meta = str "artifact.json"

module _ {World Bytes BuildError : Type 0} (m : Machine World Bytes BuildError)
    (root toolchain : Text) where
  abbrev pub Outcome : Type 0
  Outcome = World × Result (StoreError BuildError) (Artifact × Bool)

  unfoldable pub key_of : Spec → Text → Text
  key_of spec config = cache_key m.sum spec.ref spec.arch toolchain config

  unfoldable pub dir_of : Spec → Text → Text
  dir_of spec config = path_join (root ∷ key_of spec config ∷ [])

  unfoldable pub meta_of : Spec → Text → Text
  meta_of spec config = path_join (dir_of spec config ∷ artifact_meta ∷ [])

  unfoldable pub config_of : Spec → Text → Text
  config_of spec config = path_join (dir_of spec config ∷ str "config" ∷ [])

  -- What is left after each step, in the order of the code.
  unfoldable pub meta_written : Text → Artifact → World × Bool → Outcome
  meta_written meta a (w, true) = (w, ok (a, false))
  meta_written meta a (w, false) = (w, err (writing_metadata meta))

  unfoldable pub encoded : Text → Artifact → World → Option Bytes → Outcome
  encoded meta a w none = (w, err encoding_metadata)
  encoded meta a w (some data') = meta_written meta a (m.write_file meta data' w)

  unfoldable pub built : Spec → Text → World × Result BuildError Artifact → Outcome
  built spec config (w, err e) = (w, err (build_failed e))
  built spec config (w, ok a) =
      let b : Artifact = record a { hash = key_of spec config; config = config_of spec config } in
      encoded (meta_of spec config) b w (m.marshal b)

  unfoldable pub config_written : Spec → Text → World × Bool → Outcome
  config_written spec config (w, false) = (w, err (writing_config (config_of spec config)))
  config_written spec config (w, true) =
      built spec config (m.build spec config (dir_of spec config) w)

  unfoldable pub dir_made : Spec → Text → World × Bool → Outcome
  dir_made spec config (w, false) = (w, err (creating_dir (dir_of spec config)))
  dir_made spec config (w, true) =
      config_written spec config (m.write_file (config_of spec config) (m.of_text config) w)

  unfoldable pub decoded : Text → World → Option Artifact → Outcome
  decoded meta w none = (w, err (corrupt_metadata meta))
  decoded meta w (some a) = (w, ok (a, true))

  unfoldable pub looked_up : Spec → Text → World → Contents Bytes → Outcome
  looked_up spec config w (found data') = decoded (meta_of spec config) w (m.unmarshal data')
  looked_up spec config w unreadable = (w, err (reading_cache (meta_of spec config)))
  looked_up spec config w not_exist = dir_made spec config (m.mkdir_all (dir_of spec config) w)

  -- Store.Get
  unfoldable pub get : Spec → Text → World → Outcome
  get spec config w = looked_up spec config w (m.read_file (meta_of spec config) w)
