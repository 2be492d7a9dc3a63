-- ===== src/Tests/Builders.antt =====
-- The builds of a kernel, and the theorem on the document of their script.
use klab.Prelude.{◌≡◌, refl, [], ◌∷◌, ◌++◌, ok}
use klab.Prelude.Int.{pos, negsuc}
use klab.Text.{Text, str, text_eq, is_empty}
use klab.Text.Split.{split}
use klab.Kernel.{merge_config}
use klab.Kernel.Store.{Spec}
use klab.Kernel.Builder.{
  MakeBuilder, ArchParams, arch_params, fragment_end, script_before, build_script, builder_jobs,
  series_of,
}
use klab.Kernel.Builder.Heredoc.{document, document-merge_config}

abbrev builder : MakeBuilder
builder = record { instance' = []; src_root = []; jobs = negsuc 0 }

abbrev spec : Spec
spec = record {
  name = str "lts";
  ref = str "v6.12";
  arch = str "arm64";
  base_config = str "defconfig";
  fragments = [];
}

abbrev arm : ArchParams
arm = record { karch = str "arm64"; target = str "Image"; image_rel = str "arch/arm64/boot/Image" }

arm_known : arch_params (str "arm64") ≡ ok arm
unfolding arch_params text_eq str
arm_known = refl

default_jobs : builder_jobs builder ≡ pos 3
unfolding builder_jobs
default_jobs = refl

series_example : series_of (str "6.12") ≡ str "v6.x"
unfolding series_of klab.Text.Split.first_part klab.Text.Split.cut str
series_example = refl

-- A fragment that holds the delimiter itself.
document-merge_config_example :
    (rest : Text) × (build_script builder spec arm
        (merge_config [] (str "CONFIG_A=y\nKLAB_FRAGMENT_EOF\n" ∷ []))
        (str "/out")
      ≡ script_before builder spec arm ++ rest)
    × (document fragment_end (split 10 rest)
        ≡ split 10 (merge_config [] (str "CONFIG_A=y\nKLAB_FRAGMENT_EOF\n" ∷ [])))
document-merge_config_example =
    document-merge_config builder spec arm [] (str "CONFIG_A=y\nKLAB_FRAGMENT_EOF\n" ∷ [])
      (str "/out")
