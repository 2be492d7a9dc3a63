-- ===== src/Cli/Kernels.antt =====
-- klab kernel: the list of the kernels, the build of one, and the lookup of its image.
use klab.Prelude.{Bool, List, [], ◌∷◌, ◌++◌, Option, none, some, Result, ok, err, if◌then◌else◌}
use klab.Prelude.Int.{pos, is_zero}
use klab.Text.{Text, str, text_eq, is_empty, strip_prefix}
use klab.Text.Path.{path_join}
use klab.Text.Space.{trim_space}
use klab.Text.Split.{first_part}
use klab.Exec.{Process, exited, broken}
use klab.Kernel.{merge_config, cache_key}
use klab.Kernel.Store.{Spec, Artifact, Contents, found, not_exist, unreadable, Machine, get}
use klab.Kernel.Builder.{MakeBuilder, BuildError, build}
use klab.Cli.{
  System, Failure, unknown_kernel, no_fragment, not_built, corrupt_cache, store_failed, usage_line,
  unknown_subcommand, building, Ended, printed, noted, misused, died, padded, builtin_specs,
  lookup_spec, spec_names, contents, cache_root,
}

-- The text behind the first occurrence of another.
unfoldable pub behind_text : Text → Text → Option Text
behind_text [] t = strip_prefix t []
behind_text (c ∷ s) t =
    let rest = behind_text s t in elim (strip_prefix t (c ∷ s)) [ none ↦ rest | some r ↦ some r ]

unfoldable pub clang_major : Option Text → Text
clang_major none = str "clang"
clang_major (some s) =
    let major = first_part b'.' (trim_space s) in
    if is_empty major then str "clang" else str "clang-" ++ major

-- `Output()` has an error unless the command exits with 0.
unfoldable pub toolchain_of : Process → Text
toolchain_of (exited code out errors) =
    if is_zero code then clang_major (behind_text out (str "clang version ")) else str "clang"
toolchain_of (broken out errors) = str "clang"

-- kernel.MakeBuilder{}
unfoldable pub default_builder : MakeBuilder
default_builder = record { instance' = []; src_root = []; jobs = pos 0 }

unfoldable pub list_line : Spec → Text → Text
list_line s n = padded 12 n ++ (str " linux " ++ (s.ref ++ (str "  " ++ (s.arch ++ str "\n"))))

unfoldable pub listed : Text → Option Spec → Text
listed n none = []
listed n (some s) = list_line s n

unfoldable pub kernel_list : List Text → Text
kernel_list [] = []
kernel_list (n ∷ ns) = listed n (lookup_spec n builtin_specs) ++ kernel_list ns

unfoldable pub status_of : Bool → Text
status_of hit = if hit then str "cache hit (not rebuilt)" else str "built"

unfoldable pub build_report : Spec → Artifact → Bool → Text
build_report spec a hit =
    spec.name
    ++ (str ": "
        ++ (status_of hit
            ++ (str "\n  image:  "
                ++ (a.image
                    ++ (str "\n  config: "
                        ++ (a.config ++ (str "\n  hash:   " ++ (a.hash ++ str "\n"))))))))

module _ {World : Type 0} (sys : System World) where
  -- toolchainID
  unfoldable pub toolchain_id : World → World × Text
  toolchain_id w =
      let (v, p) =
        sys.start
          (str "limactl" ∷ str "shell" ∷ str "klab" ∷ str "--" ∷ str "clang" ∷ str "--version" ∷ [])
          w in
      (v, toolchain_of p)

  unfoldable pub with_fragment :
      Text → Option Text → Result Failure (List Text) → Result Failure (List Text)
  with_fragment path none rest = err (no_fragment path)
  with_fragment path (some s) (err e) = err e
  with_fragment path (some s) (ok frags) = ok (s ∷ frags)

  -- The loop over the fragments: the first that cannot be read ends it.
  unfoldable pub read_fragments : List Text → World → Result Failure (List Text)
  read_fragments [] w = ok []
  read_fragments (f ∷ fs) w = with_fragment f (contents (sys.read_file f w)) (read_fragments fs w)

  unfoldable pub merged_fragments : Result Failure (List Text) → Result Failure Text
  merged_fragments (err e) = err e
  merged_fragments (ok frags) = ok (merge_config [] frags)

  -- resolveConfig
  unfoldable pub resolve_config : Spec → World → Result Failure Text
  resolve_config spec w = merged_fragments (read_fragments spec.fragments w)

  -- What the store uses of the machine, with the builder that runs make in the virtual machine.
  unfoldable pub store_of : Machine World Text BuildError
  store_of = record {
    read_file = sys.read_file;
    mkdir_all = sys.mkdir_all;
    write_file = sys.write_file;
    of_text = λ s. s;
    marshal = sys.marshal;
    unmarshal = sys.unmarshal;
    build = build sys.start default_builder;
    sum = sys.sum;
  }

  abbrev pub Run : Type 0
  Run = World × Ended

  unfoldable pub stored :
      Spec → World × Result (klab.Kernel.Store.StoreError BuildError) (Artifact × Bool) → Run
  stored spec (w, err e) = (w, died (store_failed e))
  stored spec (w, ok (a, hit)) = (w, printed (build_report spec a hit))

  unfoldable pub build_with : Spec → Text → World × Text → Run
  build_with spec config (w, toolchain) =
      let (v, e) = stored spec (get store_of (cache_root sys) toolchain spec config w) in
      (v, noted (building spec toolchain) e)

  unfoldable pub build_configured : Spec → World → Result Failure Text → Run
  build_configured spec w (err e) = (w, died e)
  build_configured spec w (ok config) = build_with spec config (toolchain_id w)

  unfoldable pub build_spec : Text → World → Option Spec → Run
  build_spec name w none = (w, died (unknown_kernel name))
  build_spec name w (some spec) = build_configured spec w (resolve_config spec w)

  -- kernelBuild
  unfoldable pub kernel_build : List Text → World → Run
  kernel_build [] w = (w, misused (usage_line (str "usage: klab kernel build <name>")))
  kernel_build (name ∷ []) w = build_spec name w (lookup_spec name builtin_specs)
  kernel_build (name ∷ a ∷ args) w =
      (w, misused (usage_line (str "usage: klab kernel build <name>")))

  -- kernelCmd
  unfoldable pub kernel_cmd : List Text → World → Run
  kernel_cmd [] w =
      (w, misused (usage_line (str "usage: klab kernel build <name> | klab kernel list")))
  kernel_cmd (sub ∷ args) w =
      if text_eq sub (str "build")
      then kernel_build args w
      else if text_eq sub (str "list")
      then (w, printed (kernel_list spec_names))
      else (w, misused (unknown_subcommand sub))

  unfoldable pub image_decoded : Text → Option Artifact → Result Failure Text
  image_decoded name none = err (corrupt_cache name)
  image_decoded name (some a) = ok a.image

  unfoldable pub image_in : Text → Contents Text → Result Failure Text
  image_in name (found s) = image_decoded name (sys.unmarshal s)
  image_in name not_exist = err (not_built name)
  image_in name unreadable = err (not_built name)

  unfoldable pub image_with : Text → Spec → Text → World × Text → World × Result Failure Text
  image_with name spec config (w, toolchain) =
      let key = cache_key sys.sum spec.ref spec.arch toolchain config in
      (
        w,
        image_in name
            (sys.read_file (path_join (cache_root sys ∷ key ∷ str "artifact.json" ∷ [])) w),
      )

  unfoldable pub image_configured :
      Text → Spec → World → Result Failure Text → World × Result Failure Text
  image_configured name spec w (err e) = (w, err e)
  image_configured name spec w (ok config) = image_with name spec config (toolchain_id w)

  unfoldable pub image_of : Text → World → Option Spec → World × Result Failure Text
  image_of name w none = (w, err (unknown_kernel name))
  image_of name w (some spec) = image_configured name spec w (resolve_config spec w)

  -- resolveKernelImage
  unfoldable pub resolve_kernel_image : Text → World → World × Result Failure Text
  resolve_kernel_image name w = image_of name w (lookup_spec name builtin_specs)
