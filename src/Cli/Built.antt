-- ===== src/Cli/Built.antt =====
-- That klab up finds the image of a kernel that klab kernel build has built.
use klab.Prelude.{◌≡◌, refl, sym, ap, ◌∙◌, Bool, [], ◌∷◌, Option, none, some, Result, ok, err}
use klab.Prelude.Int.{pos}
use klab.Text.{Text, str, is_empty}
use klab.Text.Path.{path_join}
use klab.Text.Path.Join.{path_join-path_join}
use klab.Kernel.Store.{
  Spec, Artifact, found, StoreError, artifact_meta, meta_of, dir_of, key_of, get,
}
use klab.Kernel.Store.Cached.{IsFaithful, get-marker}
use klab.Kernel.Builder.{BuildError}
use klab.Cli.{System, Failure, Ended, died, noted, printed, builtin_specs, lookup_spec, cache_root}
use klab.Cli.Kernels.{
  build_report, toolchain_id, resolve_config, store_of, stored, build_with, build_configured,
  build_spec, kernel_build, image_in, image_decoded, image_with, image_configured, image_of,
  resolve_kernel_image,
}

module _ {World : Type 0} (sys : System World) (toolchain : Text) where
  -- A command that exits with 0 did not die.
  died-code :
      (f : Failure) (v w : World) (e : Ended)
      → ◌≡◌ {A = World × Ended} (v, died f) (w, e)
      → e.code ≡ pos 0
      → ⊥
  unfolding died
  died-code f v w e h z = one_ne_zero (ap (λ (r : World × Ended). r.1.code) h ∙ z)
    where
      one_ne_zero : pos 1 ≡ pos 0 → ⊥
      one_ne_zero q = cc

  -- What a build that exits with 0 has got from the store.
  record Got (spec : Spec) (config : Text) (v w : World) (e : Ended) : Type 0 where
    artifact : Artifact
    hit : Bool
    from_store :
        get (store_of sys) (cache_root sys) toolchain spec config v ≡ (w, ok (artifact, hit))
    report : e.stdout ≡ build_report spec artifact hit

  stored-Got :
      (spec : Spec) (config : Text) (v w : World) (e : Ended)
      (g : World × Result (StoreError BuildError) (Artifact × Bool))
      → get (store_of sys) (cache_root sys) toolchain spec config v ≡ g
      → stored sys spec g ≡ (w, e)
      → e.code ≡ pos 0
      → Got spec config v w e
  unfolding stored printed
  stored-Got spec config v w e (u, err f) same h z =
      absurd (died-code (klab.Cli.store_failed f) u w e h z)
  stored-Got spec config v w e (u, ok (a, hit)) same h z = record {
    artifact = a;
    hit = hit;
    from_store = same ∙ ap (λ (r : World × Ended). (r.0, ok (a, hit))) h;
    report = ap (λ (r : World × Ended). r.1.stdout) (sym h);
  }

  moved :
      (spec : Spec) (config : Text) (v u w : World) (d e : Ended)
      → Got spec config v u d
      → u ≡ w
      → d.stdout ≡ e.stdout
      → Got spec config v w e
  moved spec config v u w d e g uw de = record {
    artifact = g.artifact;
    hit = g.hit;
    from_store = g.from_store ∙ ap (λ x. (x, ok (g.artifact, g.hit))) uw;
    report = sym de ∙ g.report;
  }

  build_with-Got :
      (spec : Spec) (config : Text) (v w : World) (e : Ended)
      → build_with sys spec config (v, toolchain) ≡ (w, e)
      → e.code ≡ pos 0
      → Got spec config v w e
  unfolding build_with noted
  build_with-Got spec config v w e h z =
      let r = stored sys spec (get (store_of sys) (cache_root sys) toolchain spec config v) in
      moved spec config v r.0 w r.1 e
        (stored-Got spec config v r.0 r.1 _ refl refl (ap (λ (x : World × Ended). x.1.code) h ∙ z))
        (ap (λ (x : World × Ended). x.0) h) (ap (λ (x : World × Ended). x.1.stdout) h)

  -- What a build that exits with 0 has gone through, from the state of its specification.
  record Built (spec : Spec) (v w : World) (e : Ended) : Type 0 where
    config : Text
    resolved : resolve_config sys spec v ≡ ok config
    got : Got spec config (toolchain_id sys v).0 w e

  -- clang says the same at every call, and leaves the files alone.
  abbrev pub Settled : Type 0
  Settled =
      (u : World)
      → ((toolchain_id sys u).1 ≡ toolchain)
        × ((path : Text) → sys.read_file path (toolchain_id sys u).0 ≡ sys.read_file path u)

  said_in : (o : World × Text) → o.1 ≡ toolchain → o ≡ (o.0, toolchain)
  said_in (u, s) h = ap (λ x. (u, x)) h

  build_configured-Built :
      (spec : Spec) (v w : World) (e : Ended) (r : Result Failure Text)
      → Settled
      → resolve_config sys spec v ≡ r
      → build_configured sys spec v r ≡ (w, e)
      → e.code ≡ pos 0
      → Built spec v w e
  unfolding build_configured
  build_configured-Built spec v w e (err f) settled same h z = absurd (died-code f v w e h z)
  build_configured-Built spec v w e (ok config) settled same h z = record {
    config = config;
    resolved = same;
    got =
        build_with-Got spec config (toolchain_id sys v).0 w e
          (ap (build_with sys spec config) (sym (said_in _ (settled v).0)) ∙ h) z;
  }

  build_spec-Built :
      (name : Text) (v w : World) (e : Ended) (o : Option Spec)
      → Settled
      → lookup_spec name builtin_specs ≡ o
      → build_spec sys name v o ≡ (w, e)
      → e.code ≡ pos 0
      → (spec : Spec) × (lookup_spec name builtin_specs ≡ some spec) × Built spec v w e
  unfolding build_spec
  build_spec-Built name v w e none settled same h z =
      absurd (died-code (klab.Cli.unknown_kernel name) v w e h z)
  build_spec-Built name v w e (some spec) settled same h z =
      (spec, same, build_configured-Built spec v w e _ settled refl h z)

  -- The path that the lookup reads is that of the store's marker.
  meta_path :
      (spec : Spec) (config : Text)
      → meta_of (store_of sys) (cache_root sys) toolchain spec config
        ≡ path_join (
            cache_root sys
            ∷ key_of (store_of sys) (cache_root sys) toolchain spec config
            ∷ str "artifact.json"
            ∷ [])
  unfolding meta_of dir_of str
  meta_path spec config =
      path_join-path_join
        (cache_root sys ∷ key_of (store_of sys) (cache_root sys) toolchain spec config ∷ [])
        artifact_meta (unfold is_empty in refl)

  image_with-found :
      (name : Text) (spec : Spec) (config : Text) (w : World) (d : Text) (a : Artifact)
      → sys.read_file (meta_of (store_of sys) (cache_root sys) toolchain spec config) w ≡ found d
      → sys.unmarshal d ≡ some a
      → (image_with sys name spec config (w, toolchain)).1 ≡ ok a.image
  unfolding image_with image_in image_decoded key_of store_of
  image_with-found name spec config w d a r u =
      ap (image_in sys name) (ap (λ p. sys.read_file p w) (sym (meta_path spec config)) ∙ r)
      ∙ ap (image_decoded sys name) u

  -- Where files read as they were written, artifacts decode to themselves, clang says the same at
  -- every call and leaves the files alone, and the build leaves the fragments of the kernel as they
  -- are: after a klab kernel build that exits with 0, hit or miss, klab up finds the kernel, and the
  -- image that it finds is the one that the build reported.
  pub kernel_build-resolve_kernel_image :
      IsFaithful (store_of sys)
      → Settled
      → (name : Text) (v w : World) (e : Ended)
      → ((spec : Spec)
          → lookup_spec name builtin_specs ≡ some spec
          → resolve_config sys spec w ≡ resolve_config sys spec v)
      → kernel_build sys (name ∷ []) v ≡ (w, e)
      → e.code ≡ pos 0
      → (spec : Spec) × (a : Artifact) × (hit : Bool) × (e.stdout ≡ build_report spec a hit)
        × ((resolve_kernel_image sys name w).1 ≡ ok a.image)
  unfolding kernel_build resolve_kernel_image image_of image_configured store_of
  kernel_build-resolve_kernel_image faithful settled name v w e same h z =
      let (spec, known, b) = build_spec-Built name v w e _ settled refl h z in
      let (d, r, u) =
        get-marker (store_of sys) (cache_root sys) toolchain faithful spec b.config
          (toolchain_id sys v).0 w b.got.artifact b.got.hit b.got.from_store in
      (
        spec,
        b.got.artifact,
        b.got.hit,
        b.got.report,
        ap (λ o. (image_of sys name w o).1) known
            ∙ (ap (λ o. (image_configured sys name spec w o).1) (same spec known ∙ b.resolved)
                ∙ (ap (λ o. (image_with sys name spec b.config o).1) (said_in _ (settled w).0)
                    ∙ image_with-found name spec b.config (toolchain_id sys w).0 d b.got.artifact
                        ((settled w).1 _ ∙ r) u)),
      )
