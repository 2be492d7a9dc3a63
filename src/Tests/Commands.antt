-- ===== src/Tests/Commands.antt =====
-- A machine whose files are a list, and the theorem on klab kernel there.
use klab.Prelude.{
  ℕ, suc, ◌≡◌, refl, sym, ap, ◌∙◌, true, false, Bool, List, [], ◌∷◌, Option, none, some, ok,
  if◌then◌else◌,
}
use klab.Prelude.Int.{pos}
use klab.Text.{Text, str, text_eq, text_eq_refl, is_empty}
use mathlib.Core.Path.{subst}
use klab.Exec.{exited}
use klab.Host.Probe.{Env}
use klab.Topology.{Topology}
use klab.Kernel.Store.{Spec, Artifact, Contents, found, not_exist}
use klab.Kernel.Store.Cached.{IsFaithful}
use klab.Cli.{System, Ended, vm_of, builtin_specs, lookup_spec, bpf_spec}
use klab.Cli.Kernels.{
  toolchain_id, resolve_config, store_of, kernel_build, build_report, resolve_kernel_image,
}
use klab.Cli.Built.{Settled, kernel_build-resolve_kernel_image}

-- Texts behind one another, each up to a zero.
put : Text → Text → Text
put [] rest = 0 ∷ rest
put (c ∷ s) rest = suc c ∷ put s rest

take_text : Text → Text × Text
take_text [] = ([], [])
take_text (ℕ.zero ∷ s) = ([], s)
take_text (ℕ.suc c ∷ s) = let (t, rest) = take_text s in (c ∷ t, rest)

take_text-put : (s rest : Text) → take_text (put s rest) ≡ (s, rest)
unfolding take_text put
take_text-put [] rest = refl
take_text-put (c ∷ s) rest = rw (take_text-put s rest) refl

marshalled : Artifact → Text
marshalled a = put a.image (put a.vmlinux (put a.config (put a.hash [])))

unmarshalled : Text → Artifact
unmarshalled t =
    let (image, r1) = take_text t in
    let (vmlinux, r2) = take_text r1 in
    let (config, r3) = take_text r2 in
    let (hash, r4) = take_text r3 in
    record { image = image; vmlinux = vmlinux; config = config; hash = hash }

unmarshalled-marshalled : (a : Artifact) → unmarshalled (marshalled a) ≡ a
unfolding unmarshalled marshalled
unmarshalled-marshalled a =
    rw
      (
        take_text-put a.image (put a.vmlinux (put a.config (put a.hash []))),
        take_text-put a.vmlinux (put a.config (put a.hash [])),
        take_text-put a.config (put a.hash []),
        take_text-put a.hash [],
      )
      refl

abbrev Files : Type 0
Files = List (Text × Text)

read_file : Text → Files → Contents Text
read_file path [] = not_exist
read_file path ((p, f) ∷ fs) = if text_eq p path then found f else read_file path fs

abbrev nowhere : Env
nowhere = record {
  goos = str "linux";
  output = λ argv. none;
  exits_zero = λ argv. false;
  stat = λ path. false;
  look_path = λ tool. false;
  getenv = λ name. [];
  home_dir = none;
}

abbrev no_topology : Topology
no_topology = record { name = []; nodes = []; links = [] }

-- Every command prints the version of clang.
abbrev host : System Files
host = record {
  read_file = read_file;
  mkdir_all = λ path fs. (fs, true);
  write_file = λ path f fs. ((path, f) ∷ fs, true);
  exists = λ path fs. false;
  marshal = λ a. some (marshalled a);
  unmarshal = λ s. some (unmarshalled s);
  unmarshal_yaml = λ s. some no_topology;
  sum = λ s. 7 ∷ [];
  quote = λ s. s;
  start = λ argv fs. (fs, exited (pos 0) (str "Ubuntu clang version 18.1.3\n") []);
  now = λ fs. 0;
  sleep = λ d fs. fs;
  home = str "/h";
  executable = none;
  probed = λ w. (w, nowhere);
}

abbrev sources : Files
sources = (str "configs/kernel/bpf-min.config", str "CONFIG_BPF=y\n") ∷ []

clang_settled : Settled host (str "clang-18")
unfolding toolchain_id klab.Cli.Kernels.toolchain_of klab.Cli.Kernels.clang_major
    klab.Cli.Kernels.behind_text klab.Text.strip_prefix klab.Text.Split.first_part
    klab.Text.Split.cut klab.Text.Space.trim_space str is_empty
clang_settled fs = (refl, λ path. refl)

abbrev bpf_spec_arm : Spec
bpf_spec_arm = bpf_spec (str "bpf-arm64") (str "arm64")

abbrev built_state : Files
built_state = (kernel_build host (str "bpf-arm64" ∷ []) sources).0

builds : (kernel_build host (str "bpf-arm64" ∷ []) sources).1.code ≡ pos 0
unfolding kernel_build klab.Cli.Kernels.build_spec lookup_spec builtin_specs text_eq str
    klab.Cli.Kernels.build_configured resolve_config klab.Cli.Kernels.merged_fragments
    klab.Cli.Kernels.read_fragments klab.Cli.bpf_spec klab.Cli.Kernels.with_fragment
    klab.Cli.contents read_file klab.Cli.Kernels.build_with klab.Cli.noted klab.Cli.Kernels.stored
    klab.Cli.printed toolchain_id store_of klab.Kernel.Store.get klab.Kernel.Store.looked_up
    klab.Kernel.Store.dir_made klab.Kernel.Store.config_written klab.Kernel.Store.built
    klab.Kernel.Store.encoded klab.Kernel.Store.meta_written klab.Kernel.Builder.build
    klab.Kernel.Builder.build_for klab.Kernel.Builder.build_ended klab.Kernel.Builder.arch_params
    klab.Kernel.Store.meta_of klab.Kernel.Store.dir_of klab.Kernel.Store.config_of
    klab.Kernel.Store.key_of klab.Kernel.cache_key klab.Text.Hex.hex klab.Text.Hex.hex_byte
    klab.Cli.cache_root klab.Text.Path.path_join klab.Text.Path.clean klab.Text.Path.not_empty
    klab.Text.Path.is_rooted klab.Text.Path.keep_components klab.Text.Path.keep_component
    klab.Text.Path.step_up klab.Text.Split.split klab.Text.Split.push klab.Text.join is_empty
builds = refl

fragment_kept :
    resolve_config host bpf_spec_arm built_state ≡ resolve_config host bpf_spec_arm sources
unfolding kernel_build klab.Cli.Kernels.build_spec lookup_spec builtin_specs text_eq str
    klab.Cli.Kernels.build_configured resolve_config klab.Cli.Kernels.merged_fragments
    klab.Cli.Kernels.read_fragments klab.Cli.bpf_spec klab.Cli.Kernels.with_fragment
    klab.Cli.contents read_file klab.Cli.Kernels.build_with klab.Cli.noted klab.Cli.Kernels.stored
    klab.Cli.printed toolchain_id store_of klab.Kernel.Store.get klab.Kernel.Store.looked_up
    klab.Kernel.Store.dir_made klab.Kernel.Store.config_written klab.Kernel.Store.built
    klab.Kernel.Store.encoded klab.Kernel.Store.meta_written klab.Kernel.Builder.build
    klab.Kernel.Builder.build_for klab.Kernel.Builder.build_ended klab.Kernel.Builder.arch_params
    klab.Kernel.Store.meta_of klab.Kernel.Store.dir_of klab.Kernel.Store.config_of
    klab.Kernel.Store.key_of klab.Kernel.cache_key klab.Text.Hex.hex klab.Text.Hex.hex_byte
    klab.Cli.cache_root klab.Text.Path.path_join klab.Text.Path.clean klab.Text.Path.not_empty
    klab.Text.Path.is_rooted klab.Text.Path.keep_components klab.Text.Path.keep_component
    klab.Text.Path.step_up klab.Text.Split.split klab.Text.Split.push klab.Text.join is_empty
fragment_kept = refl

arm_known : lookup_spec (str "bpf-arm64") builtin_specs ≡ some bpf_spec_arm
unfolding lookup_spec builtin_specs text_eq str
arm_known = refl

same_spec : (a b : Spec) → ◌≡◌ {A = Option Spec} (some a) (some b) → a ≡ b
same_spec a b h = cc

arm_kept :
    (s : Spec)
    → lookup_spec (str "bpf-arm64") builtin_specs ≡ some s
    → resolve_config host s built_state ≡ resolve_config host s sources
arm_kept s h =
    subst (λ r. resolve_config host r built_state ≡ resolve_config host r sources)
      (same_spec bpf_spec_arm s (sym arm_known ∙ h)) fragment_kept

read_first : (path f : Text) (fs : Files) → read_file path ((path, f) ∷ fs) ≡ found f
unfolding read_file
read_first path f fs = rw (text_eq_refl path) refl

state_of : Files × Bool → Files
state_of (fs, b) = fs

text_or_none : Option Text → Text
text_or_none none = []
text_or_none (some s) = s

host-IsFaithful : IsFaithful (store_of host)
unfolding store_of state_of text_or_none
host-IsFaithful = record {
  read-write = λ path f w w' h. ap (read_file path) (sym (ap state_of h)) ∙ read_first path f w;
  unmarshal-marshal =
      λ a t h. ap some (ap unmarshalled (sym (ap text_or_none h)) ∙ unmarshalled-marshalled a);
}

kernel_build-resolve_kernel_image_example :
    (spec : Spec) × (a : Artifact) × (hit : Bool) × ((kernel_build host
        (str "bpf-arm64" ∷ [])
        sources).1.stdout
      ≡ build_report spec a hit)
    × ((resolve_kernel_image host (str "bpf-arm64") built_state).1 ≡ ok a.image)
kernel_build-resolve_kernel_image_example =
    kernel_build-resolve_kernel_image host (str "clang-18") host-IsFaithful clang_settled
      (str "bpf-arm64") sources built_state (kernel_build host (str "bpf-arm64" ∷ []) sources).1
      arm_kept refl builds
