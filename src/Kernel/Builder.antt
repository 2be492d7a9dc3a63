-- ===== src/Kernel/Builder.antt =====
-- internal/kernel/builder.go: the script by which a kernel is built in the lima VM, and what Build
-- makes of its end. What the operating system makes of the command line is a parameter.
pub mod Heredoc
use klab.Prelude.{List, [], ◌∷◌, ◌++◌, Option, none, some, Result, ok, err, if◌then◌else◌}
use klab.Prelude.Int.{ℤ, pos, below_one, is_zero}
use klab.Text.{Text, str, text_eq, is_empty, strip_prefix}
use klab.Text.Decimal.{itoa}
use klab.Text.Path.{path_join}
use klab.Text.Split.{first_part}
use klab.Exec.{Process, exited, broken}
use klab.Kernel.Store.{Spec, Artifact}

pub record MakeBuilder : Type 0 where
  pub instance' : Text
  pub src_root : Text
  pub jobs : ℤ

pub data BuildError : Type 0 where
  unsupported_arch : Text → BuildError
  build_run_failed : Text → Text → BuildError

-- MakeBuilder.instance
unfoldable pub builder_instance : MakeBuilder → Text
builder_instance b = if is_empty b.instance' then str "klab" else b.instance'

-- MakeBuilder.srcRoot
unfoldable pub builder_src_root : MakeBuilder → Text
builder_src_root b = if is_empty b.src_root then str "$HOME/.cache/klab/src" else b.src_root

-- MakeBuilder.jobs
unfoldable pub builder_jobs : MakeBuilder → ℤ
builder_jobs b = if below_one b.jobs then pos 3 else b.jobs

pub record ArchParams : Type 0 where
  pub karch : Text
  pub target : Text
  pub image_rel : Text

-- archParams
unfoldable pub arch_params : Text → Result BuildError ArchParams
arch_params arch =
    if text_eq arch (str "arm64")
    then ok (record {
      karch = str "arm64";
      target = str "Image";
      image_rel = str "arch/arm64/boot/Image";
    })
    else if text_eq arch (str "x86_64")
    then ok (record {
      karch = str "x86_64";
      target = str "bzImage";
      image_rel = str "arch/x86/boot/bzImage";
    })
    else err (unsupported_arch arch)

unfoldable pub or_text : Text → Option Text → Text
or_text s none = s
or_text s (some t) = t

-- strings.TrimPrefix(ref, "v")
unfoldable pub version_of : Text → Text
version_of ref = or_text ref (strip_prefix (str "v") ref)

unfoldable pub series_of : Text → Text
series_of ver = str "v" ++ (first_part b'.' ver ++ str ".x")

unfoldable pub source_url : Text → Text
source_url ver =
    str "https://cdn.kernel.org/pub/linux/kernel/"
    ++ (series_of ver ++ (str "/linux-" ++ (ver ++ str ".tar.xz")))

abbrev pub fragment_end : Text
unfolding str
fragment_end = str "KLAB_FRAGMENT_EOF"

-- The script up to the fragment, and behind it.
unfoldable pub script_before : MakeBuilder → Spec → ArchParams → Text
script_before b spec p =
    let ver = version_of spec.ref in
    str "set -euo pipefail\nSRC="
    ++ (builder_src_root b
        ++ (str "\nVER="
            ++ (ver
                ++ (str "\nKARCH="
                    ++ (p.karch
                        ++ (str
                              "\nTREE=\"$SRC/linux-$VER-$KARCH\"\nmkdir -p \"$SRC\" && cd \"$SRC\"\n[ -f \"linux-$VER.tar.xz\" ] || curl -fsSL -O "
                            ++ (source_url ver
                                ++ (str
                                      "\nif [ ! -d \"$TREE\" ]; then\n  rm -rf \"$SRC/linux-$VER\"\n  tar xf \"linux-$VER.tar.xz\" -C \"$SRC\"\n  mv \"$SRC/linux-$VER\" \"$TREE\"\nfi\ncd \"$TREE\"\nmake LLVM=1 ARCH=\"$KARCH\" "
                                    ++ (spec.base_config
                                        ++ str
                                            "\ncat > klab.fragment <<'KLAB_FRAGMENT_EOF'\n")))))))))

unfoldable pub script_after : MakeBuilder → ArchParams → Text → Text
script_after b p out_dir =
    str
      "\n./scripts/kconfig/merge_config.sh -m .config klab.fragment\nmake LLVM=1 ARCH=\"$KARCH\" olddefconfig\nmake LLVM=1 ARCH=\"$KARCH\" -j"
    ++ (itoa (builder_jobs b)
        ++ (str " "
            ++ (p.target
                ++ (str "\ncp "
                    ++ (p.image_rel
                        ++ (str " "
                            ++ (out_dir
                                ++ (str "/"
                                    ++ (p.target
                                        ++ (str "\ncp vmlinux "
                                            ++ (out_dir
                                                ++ (str "/vmlinux\ncp .config "
                                                    ++ (out_dir ++ str "/config\n")))))))))))))

unfoldable pub build_script : MakeBuilder → Spec → ArchParams → Text → Text → Text
build_script b spec p resolved_config out_dir =
    script_before b spec p ++ (resolved_config ++ (10 ∷ (fragment_end ++ script_after b p out_dir)))

unfoldable pub artifact_of : ArchParams → Text → Artifact
artifact_of p out_dir = record {
  image = path_join (out_dir ∷ p.target ∷ []);
  vmlinux = path_join (out_dir ∷ str "vmlinux" ∷ []);
  config = path_join (out_dir ∷ str "config" ∷ []);
  hash = [];
}

module _ {World : Type 0} (start : List Text → World → World × Process) where
  -- The build inherits the streams: what it writes is part of the state.
  unfoldable pub build_ended :
      Spec → ArchParams → Text → World × Process → World × Result BuildError Artifact
  build_ended spec p out_dir (w, exited code out errors) =
      if is_zero code
      then (w, ok (artifact_of p out_dir))
      else (w, err (build_run_failed spec.name spec.arch))
  build_ended spec p out_dir (w, broken out errors) =
      (w, err (build_run_failed spec.name spec.arch))

  unfoldable pub build_for :
      MakeBuilder
      → Spec
      → Text
      → Text
      → World
      → Result BuildError ArchParams
      → World × Result BuildError Artifact
  build_for b spec resolved_config out_dir w (err e) = (w, err e)
  build_for b spec resolved_config out_dir w (ok p) = build_ended spec p out_dir (
      start
        (str "limactl"
          ∷ str "shell"
          ∷ builder_instance b
          ∷ str "--"
          ∷ str "bash"
          ∷ str "-c"
          ∷ build_script b spec p resolved_config out_dir
          ∷ [])
        w)

  -- MakeBuilder.Build
  unfoldable pub build :
      MakeBuilder → Spec → Text → Text → World → World × Result BuildError Artifact
  build b spec resolved_config out_dir w =
      build_for b spec resolved_config out_dir w (arch_params spec.arch)
