-- ===== src/Qemu/Argv.antt =====
-- What `launchArgv` leaves of the command line of `bootArgv`.
use klab.Prelude.{
  ℕ, suc, Bool-cases, ◌≡◌, refl, ap, ◌∙◌, inl, inr, true, false, List, [], ◌∷◌, ◌++◌, arith, All,
  append_assoc,
}
use klab.Prelude.Int.{ℤ, pos, negsuc}
use klab.Text.{Text, str, text_eq, is_empty}
use klab.Text.Decimal.{itoa, itoa_ℕ_first, is_digit}
use klab.Driver.{Nic, BootSpec}
use klab.Qemu.{
  or_default, nic_args, nics_args, base_cmdline, boot_cmdline, machine_args, rw_args, boot_argv,
  with_display, launch_argv,
}

-- An argument that `launchArgv` keeps.
abbrev IsKept : Text → Type 0
IsKept x = text_eq x (str "-nographic") ≡ false

with_display-append : (a b : List Text) → with_display (a ++ b) ≡ with_display a ++ with_display b
unfolding with_display
with_display-append [] b = refl
with_display-append (x ∷ a) b = elim (Bool-cases (text_eq x (str "-nographic"))) [
  | inl e ↦ rw e (with_display-append a b)
  | inr n ↦ rw n (ap (λ r. x ∷ r) (with_display-append a b))
]

with_display-kept : (a : List Text) → All IsKept a → with_display a ≡ a
unfolding with_display
with_display-kept [] h = refl
with_display-kept (x ∷ a) (hx, h) = rw (hx, with_display-kept a h) refl

digit_kept :
    (c : ℕ) (s : Text) → is_digit c ≡ true → text_eq (b'-' ∷ c ∷ s) (str "-nographic") ≡ false
unfolding text_eq str
digit_kept c s h = ground arith

itoa_ℕ-kept : (c : ℕ) (s : Text) → is_digit c ≡ true → text_eq (c ∷ s) (str "-nographic") ≡ false
unfolding text_eq str
itoa_ℕ-kept c s h = ground arith

itoa-IsKept : (z : ℤ) → IsKept (itoa z)
unfolding itoa
itoa-IsKept (pos n) = let (c, s, e, d) = itoa_ℕ_first n in rw e (itoa_ℕ-kept c s d)
itoa-IsKept (negsuc n) = let (c, s, e, d) = itoa_ℕ_first (suc n) in rw e (digit_kept c s d)

machine_args-IsKept :
    (spec : BootSpec)
    → IsKept spec.kernel
    → All IsKept (machine_args spec (str "init=/sbin/klab-init"))
unfolding machine_args boot_cmdline base_cmdline is_empty text_eq str
machine_args-IsKept spec h = (
  refl,
  (
    refl,
    (
      refl,
      (
        refl,
        (
          refl,
          (
            refl,
            (
              refl,
              (
                refl,
                (
                  itoa-IsKept (or_default 1 spec.cpu),
                  (
                    refl,
                    (
                      itoa-IsKept (or_default 512 spec.mem_mib),
                      (refl, (h, (refl, (refl, (refl, (refl, (refl, (refl, tt)))))))),
                    ),
                  ),
                ),
              ),
            ),
          ),
        ),
      ),
    ),
  ),
)

rw_args-IsKept : (rw_path : Text) → All IsKept (rw_args rw_path)
unfolding rw_args text_eq str is_empty
rw_args-IsKept [] = tt
rw_args-IsKept (c ∷ s) = (refl, (refl, (refl, (refl, tt))))

nics_args-IsKept : (i : ℕ) (ns : List Nic) → All IsKept (nics_args i ns)
unfolding nics_args nic_args text_eq str
nics_args-IsKept i [] = tt
nics_args-IsKept i (n ∷ ns) = (refl, (refl, (refl, (refl, nics_args-IsKept (suc i) ns))))

with_display_tail :
    (ns : List Nic)
    → with_display (str "-nographic" ∷ str "-no-reboot" ∷ nics_args 0 ns)
      ≡ str "-no-reboot" ∷ nics_args 0 ns
with_display_tail ns =
    unfold with_display text_eq str in
    ap (λ l. str "-no-reboot" ∷ l) (with_display-kept (nics_args 0 ns) (nics_args-IsKept 0 ns))

launch_argv_parts :
    (spec : BootSpec) (console : Text)
    → launch_argv spec console
      ≡ with_display (
          machine_args spec (str "init=/sbin/klab-init")
          ++ (rw_args spec.rootfs_rw
              ++ (str "-nographic" ∷ str "-no-reboot" ∷ nics_args 0 spec.nics)))
        ++ (str "-display" ∷ str "none" ∷ str "-serial" ∷ (str "file:" ++ console) ∷ [])
unfolding launch_argv boot_argv
launch_argv_parts spec console = refl

-- The only argument that `launchArgv` takes from the command line of `bootArgv` is its
-- "-nographic", and it puts the console's log in its place, unless the kernel's path is spelled
-- "-nographic".
pub launch_argv_lem :
    (spec : BootSpec) (console : Text)
    → text_eq spec.kernel (str "-nographic") ≡ false
    → launch_argv spec console
      ≡ machine_args spec (str "init=/sbin/klab-init")
        ++ (rw_args spec.rootfs_rw
            ++ (str "-no-reboot"
                ∷ (nics_args 0 spec.nics
                    ++ (str "-display"
                        ∷ str "none"
                        ∷ str "-serial"
                        ∷ (str "file:" ++ console)
                        ∷ []))))
launch_argv_lem spec console h =
    let m = machine_args spec (str "init=/sbin/klab-init") in
    let r = rw_args spec.rootfs_rw in
    let t = str "-display" ∷ str "none" ∷ str "-serial" ∷ (str "file:" ++ console) ∷ [] in
    launch_argv_parts spec console
    ∙ ap (λ l. l ++ t)
        (with_display-append m (r ++ (str "-nographic" ∷ str "-no-reboot" ∷ nics_args 0 spec.nics))
          ∙ ap
              (λ l.
                l
                ++ with_display
                    (r ++ (str "-nographic" ∷ str "-no-reboot" ∷ nics_args 0 spec.nics)))
              (with_display-kept m (machine_args-IsKept spec h))
          ∙ ap (λ l. m ++ l)
              (with_display-append r (str "-nographic" ∷ str "-no-reboot" ∷ nics_args 0 spec.nics)
                ∙ rw (with_display-kept r (rw_args-IsKept spec.rootfs_rw))
                    (ap (λ l. r ++ l) (with_display_tail spec.nics))))
    ∙ append_assoc m (r ++ (str "-no-reboot" ∷ nics_args 0 spec.nics)) t
    ∙ ap (λ l. m ++ l) (append_assoc r (str "-no-reboot" ∷ nics_args 0 spec.nics) t)
