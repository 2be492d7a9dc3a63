-- ===== src/Kernel/Store/Paths.antt =====
-- The paths of a cache entry: the marker of one entry is no config of any, and it is the marker of
-- one key only.
use klab.Prelude.{arith, ◌≡◌, ◌≢◌, refl, ap, false}
use klab.Text.{Text, str, is_empty, text_eq}
use klab.Text.Hex.{hex-All, hex_full}
use klab.Text.Path.Last.{IsName, All-IsName, parts, path_join-parts}
use klab.Kernel.{cache_key}
use klab.Kernel.Store.{Spec, Machine, artifact_meta, key_of, dir_of, meta_of, config_of}

artifact_meta-IsName : IsName artifact_meta
unfolding is_empty text_eq str artifact_meta
artifact_meta-IsName = record { full = refl; lacks = ground arith; not_dot = refl; not_up = refl }

config-IsName : IsName (str "config")
unfolding is_empty str
config-IsName = All-IsName (str "config") refl (ground arith)

config_other : str "config" ≢ artifact_meta
unfolding str
config_other h = cc

module _ {World Bytes BuildError : Type 0} (m : Machine World Bytes BuildError)
    (root toolchain : Text) where
  pub config_of-meta_of :
      (spec spec' : Spec) (config config' : Text)
      → config_of m root toolchain spec config ≢ meta_of m root toolchain spec' config'
  unfolding config_of meta_of
  config_of-meta_of spec spec' config config' h =
      config_other (path_join-parts _ _ _ _ config-IsName artifact_meta-IsName (ap parts h)).0

  key_of-IsName :
      ((s : Text) → is_empty (m.sum s) ≡ false)
      → (spec : Spec) (config : Text) → IsName (key_of m root toolchain spec config)
  unfolding key_of cache_key
  key_of-IsName full spec config = All-IsName _ (hex_full _ (full _)) (hex-All _)

  -- Two entries with the same marker have one key.
  pub meta_of-injective :
      ((s : Text) → is_empty (m.sum s) ≡ false)
      → (spec spec' : Spec) (config config' : Text)
      → meta_of m root toolchain spec config ≡ meta_of m root toolchain spec' config'
      → key_of m root toolchain spec config ≡ key_of m root toolchain spec' config'
  unfolding meta_of dir_of
  meta_of-injective full spec spec' config config' h =
      let (same, dirs) =
        path_join-parts _ _ _ _ artifact_meta-IsName artifact_meta-IsName (ap parts h) in
      (path_join-parts _ _ _ _ (key_of-IsName full spec config) (key_of-IsName full spec' config')
        dirs).0
