-- ===== src/Qemu.antt =====
-- internal/driver/qemu/qemu.go, and `launchArgv` of internal/driver/qemu/live.go: the capabilities
-- of the QEMU driver, and the command line by which it boots a node.
pub mod Framing
pub mod Argv
pub mod Live
use klab.Prelude.{ℕ, suc, Bool, true, false, List, [], ◌∷◌, ◌++◌, if◌then◌else◌}
use klab.Prelude.Int.{ℤ, pos, below_one}
use klab.Text.{Text, str, text_eq, is_empty}
use klab.Text.Decimal.{itoa, itoa_ℕ}
use klab.Driver.{Caps, Nic, BootSpec}

-- Driver.Name
unfoldable pub name : Text
name = str "qemu"

-- Driver.Capabilities
unfoldable pub capabilities : Caps
capabilities = record { custom_kernel = true; needs_kvm = true; arches = str "arm64" ∷ [] }

-- `n`, or a default where it is below 1.
unfoldable pub or_default : ℕ → ℤ → ℤ
or_default d n = if below_one n then pos d else n

unfoldable pub nic_args : ℕ → Nic → List Text
nic_args i n =
    let id = str "net" ++ itoa_ℕ i in
    str "-netdev"
    ∷ (str "tap,id=" ++ (id ++ (str ",ifname=" ++ (n.tap ++ str ",script=no,downscript=no"))))
    ∷ str "-device"
    ∷ (str "virtio-net-pci,netdev=" ++ (id ++ (str ",mac=" ++ n.mac)))
    ∷ []

-- The loop over `spec.Nics`, from index `i`.
unfoldable pub nics_args : ℕ → List Nic → List Text
nics_args i [] = []
nics_args i (n ∷ ns) = nic_args i n ++ nics_args (suc i) ns

unfoldable pub base_cmdline : Text
base_cmdline =
    str "console=ttyAMA0 root=rootfs rootfstype=9p rootflags=trans=virtio,version=9p2000.L rw"

unfoldable pub boot_cmdline : Text → Text
boot_cmdline extra = if is_empty extra then base_cmdline else base_cmdline ++ (str " " ++ extra)

-- The arguments that every boot has, up to the exports.
unfoldable pub machine_args : BootSpec → Text → List Text
machine_args spec extra =
    str "qemu-system-aarch64"
    ∷ str "-machine"
    ∷ str "virt,gic-version=max"
    ∷ str "-accel"
    ∷ str "kvm"
    ∷ str "-cpu"
    ∷ str "host"
    ∷ str "-smp"
    ∷ itoa (or_default 1 spec.cpu)
    ∷ str "-m"
    ∷ itoa (or_default 512 spec.mem_mib)
    ∷ str "-kernel"
    ∷ spec.kernel
    ∷ str "-append"
    ∷ boot_cmdline extra
    ∷ str "-fsdev"
    ∷ (str "local,id=rootdev,path=" ++ (spec.rootfs ++ str ",security_model=none"))
    ∷ str "-device"
    ∷ str "virtio-9p-pci,fsdev=rootdev,mount_tag=rootfs"
    ∷ []

-- The second export, where there is a path for it.
unfoldable pub rw_args : Text → List Text
rw_args rw_path =
    if is_empty rw_path
    then []
    else str "-fsdev"
      ∷ (str "local,id=klabrw,path=" ++ (rw_path ++ str ",security_model=none"))
      ∷ str "-device"
      ∷ str "virtio-9p-pci,fsdev=klabrw,mount_tag=klabrw"
      ∷ []

-- bootArgv
unfoldable pub boot_argv : BootSpec → Text → Text → List Text
boot_argv spec extra_cmdline rw_path =
    machine_args spec extra_cmdline
    ++ (rw_args rw_path ++ (str "-nographic" ∷ str "-no-reboot" ∷ nics_args 0 spec.nics))

-- Driver.Argv
unfoldable pub argv : BootSpec → List Text
argv spec = boot_argv spec [] []

-- The loop that leaves out "-nographic".
unfoldable pub with_display : List Text → List Text
with_display [] = []
with_display (x ∷ a) =
    let out = with_display a in if text_eq x (str "-nographic") then out else x ∷ out

-- launchArgv
unfoldable pub launch_argv : BootSpec → Text → List Text
launch_argv spec console =
    with_display (boot_argv spec (str "init=/sbin/klab-init") spec.rootfs_rw)
    ++ (str "-display" ∷ str "none" ∷ str "-serial" ∷ (str "file:" ++ console) ∷ [])
