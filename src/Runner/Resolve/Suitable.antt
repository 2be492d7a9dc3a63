-- ===== src/Runner/Resolve/Suitable.antt =====
-- When `CheckCaps` lets a node through to its driver.
use klab.Prelude.{
  ◌≡◌, ◌↔◌, ◌⊎◌, inl, inr, refl, sym, ◌∙◌, Bool, true, false, not, ◌&&◌, [], ◌∷◌, ok, ◌>>◌, >>-ok,
  ok->>, reject_if, reject_if-ok, ok-reject_if, arith, Any,
}
use klab.Text.{Text, is_empty}
use klab.Driver.{Caps, can_run_arch}
use klab.Driver.Conformance.{can_run_arch_iff}
use klab.Topology.{Node}
use klab.Runner.Resolve.{no_custom_kernel, unsupported_arch, check_caps}

check_caps_steps :
    (d : Text) (n : Node) (c : Caps)
    → check_caps d n c ≡ (
        reject_if (not (is_empty n.kernel) && not c.custom_kernel) (no_custom_kernel n.kernel d)
        >> reject_if (not (can_run_arch c n.arch)) (unsupported_arch d n.arch))
check_caps_steps d n c = unfold check_caps in refl

-- What a node needs of a driver.
abbrev pub Suits : Node → Caps → Type 0
Suits n c = ((n.kernel ≡ []) ⊎ (c.custom_kernel ≡ true)) × Any (λ a. a ≡ n.arch) c.arches

kernel_test :
    (k : Text) (b : Bool) → ((not (is_empty k) && not b) ≡ false) ↔ ((k ≡ []) ⊎ (b ≡ true))
unfolding is_empty
kernel_test [] b = (λ h. inl refl, λ h. refl)
kernel_test (c ∷ k) true = (λ h. inr refl, λ h. refl)
kernel_test (c ∷ k) false = (λ h. ground arith, λ h. ground arith)

not-false : (b : Bool) → not b ≡ false → b ≡ true
not-false b h = ground arith

-- `CheckCaps` lets a node through exactly if it asks for no kernel of its own or the driver can
-- boot one, and the driver lists the node's architecture.
pub check_caps_iff :
    (driver_name : Text) (n : Node) (c : Caps) → (check_caps driver_name n c ≡ ok tt) ↔ Suits n c
check_caps_iff d n c = (
  λ h.
      let (k, a) = >>-ok _ _ (sym (check_caps_steps d n c) ∙ h) in
      (
        (kernel_test n.kernel c.custom_kernel).0 (reject_if-ok _ _ k),
        (can_run_arch_iff c n.arch).0 (not-false _ (reject_if-ok _ _ a)),
      ),
  λ s.
      check_caps_steps d n c
      ∙ ok->> _ _ (ok-reject_if _ _ ((kernel_test n.kernel c.custom_kernel).1 s.0))
          (ok-reject_if _ _ (rw ((can_run_arch_iff c n.arch).1 s.1))),
)
