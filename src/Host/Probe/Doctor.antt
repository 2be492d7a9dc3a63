-- ===== src/Host/Probe/Doctor.antt =====
-- The verdict of `klab doctor`, in terms of the machine.
use klab.Prelude.{
  ◌≡◌, refl, ◌∙◌, Bool, true, false, not, ◌&&◌, ◌||◌, [], ◌∷◌, arith, Bool-cases, inl, inr,
  if◌then◌else◌,
}
use klab.Text.{Text, str, text_eq}
use klab.Host.{Facts, evaluate, ready, at_least}
use klab.Host.Verdict.{darwin_ready, linux_ready, evaluate-ready}
use klab.Host.Probe.{
  Env, no_facts, mac_os_major_of, mem_gib_of, out, in_instance, lima_status_line, with_kvm,
  with_status, with_lima, probe_darwin, probe_linux, probe,
}

module _ (m : Env) where
  -- What a Mac has to have.
  abbrev pub mac_meets : Bool
  mac_meets =
      at_least 15 (mac_os_major_of (out m (str "sw_vers" ∷ str "-productVersion" ∷ [])))
      && at_least 8 (mem_gib_of (out m (str "sysctl" ∷ str "-n" ∷ str "hw.memsize" ∷ [])))
      && m.look_path (str "brew")
      && m.look_path (str "limactl")
      && m.look_path (str "go")
      && (not (text_eq (out m (lima_status_line m)) (str "Running"))
          || m.exits_zero (in_instance m (str "test" ∷ str "-e" ∷ str "/dev/kvm" ∷ [])))

  -- What a Linux host has to have.
  abbrev pub linux_meets : Bool
  linux_meets =
      m.stat (str "/dev/kvm")
      && m.look_path (str "go")
      && m.look_path (str "qemu-system-aarch64")
      && m.look_path (str "clang")

  running : Bool
  running = text_eq (out m (lima_status_line m)) (str "Running")

  kvm_inside : Bool
  kvm_inside = m.exits_zero (in_instance m (str "test" ∷ str "-e" ∷ str "/dev/kvm" ∷ []))

  with_kvm-os : (present usable : Bool) (f : Facts) → (with_kvm m present usable f).os ≡ f.os
  unfolding with_kvm
  with_kvm-os true usable f = refl
  with_kvm-os false usable f = refl

  with_status-os : (status : Text) (f : Facts) → (with_status m status f).os ≡ f.os
  unfolding with_status
  with_status-os status f = elim (Bool-cases (text_eq status (str "Running"))) [
    | inl e ↦ rw e (with_kvm-os _ _ _)
    | inr n ↦ rw n refl
  ]

  with_lima-os : (has : Bool) (f : Facts) → (with_lima m has f).os ≡ f.os
  unfolding with_lima
  with_lima-os true f = with_status-os _ f
  with_lima-os false f = refl

  probe-os : (probe m).os ≡ m.goos
  unfolding probe probe_darwin probe_linux no_facts
  probe-os = elim (Bool-cases (text_eq m.goos (str "darwin"))) [
    | inl e ↦ rw e (with_lima-os _ _)
    | inr n ↦ elim (Bool-cases (text_eq m.goos (str "linux"))) [
      | inl e ↦ rw (n, e) (with_kvm-os _ _ _)
      | inr k ↦ rw (n, k) refl
    ]
  ]

  probe_linux_ready : (f : Facts) → linux_ready (probe_linux m f) ≡ linux_meets
  unfolding linux_ready probe_linux with_kvm
  probe_linux_ready f = elim (Bool-cases (m.stat (str "/dev/kvm"))) [
    | inl e ↦ rw e refl
    | inr n ↦ rw n refl
  ]

  mac_parts : Facts → Bool → Bool
  mac_parts g kvm =
      at_least 15 g.mac_os_major
      && at_least 8 g.mem_gib
      && g.has_brew
      && g.has_limactl
      && g.has_go
      && kvm

  status_ready :
      (g : Facts)
      → darwin_ready (with_status m (out m (lima_status_line m)) g)
        ≡ mac_parts g (not running || kvm_inside)
  unfolding darwin_ready with_status with_kvm mac_parts running kvm_inside
  status_ready g = elim (Bool-cases (text_eq (out m (lima_status_line m)) (str "Running"))) [
    | inl r ↦
        elim (Bool-cases
          (m.exits_zero (in_instance m (str "test" ∷ str "-e" ∷ str "/dev/kvm" ∷ [])))) [
            | inl k ↦ rw (r, k) (rw (r) refl)
            | inr k ↦ rw (r, k) (rw (r) refl)
          ]
    | inr r ↦ rw r (rw r refl)
  ]

  missing_ready :
      (g : Facts) (kvm : Bool) → g.has_limactl ≡ false → darwin_ready g ≡ mac_parts g kvm
  unfolding darwin_ready mac_parts
  missing_ready g kvm n = rw n (ground arith)

  lima_ready :
      (has : Bool) (g : Facts)
      → g.has_limactl ≡ has
      → darwin_ready (with_lima m has g) ≡ mac_parts g (not running || kvm_inside)
  unfolding with_lima
  lima_ready true g e = status_ready g
  lima_ready false g e = missing_ready g _ e

  probe_darwin_ready : (f : Facts) → darwin_ready (probe_darwin m f) ≡ mac_meets
  unfolding probe_darwin mac_parts running kvm_inside
  probe_darwin_ready f = lima_ready (m.look_path (str "limactl")) _ refl

  -- Doctor finds a machine ready exactly if, on darwin, the product version is 15 or more, the
  -- memory is 8 GiB or more, brew, limactl and go are found and, where the lima instance runs,
  -- /dev/kvm is in it; on linux, /dev/kvm is there and go, qemu-system-aarch64 and clang are found.
  -- On any other system it is not ready.
  pub evaluate-probe :
      (quote : Text → Text)
      → ready (evaluate quote (probe m)) ≡ (
          if text_eq m.goos (str "darwin")
          then mac_meets
          else if text_eq m.goos (str "linux")
          then linux_meets
          else false)
  unfolding probe
  evaluate-probe quote =
      evaluate-ready quote (probe m)
      ∙ rw probe-os (elim (Bool-cases (text_eq m.goos (str "darwin"))) [
        | inl e ↦ rw e (probe_darwin_ready _)
        | inr n ↦ elim (Bool-cases (text_eq m.goos (str "linux"))) [
          | inl e ↦ rw (n, e) (probe_linux_ready _)
          | inr k ↦ rw (n, k) refl
        ]
      ])
