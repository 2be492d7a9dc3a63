-- ===== src/Driver.antt =====
-- internal/driver/driver.go: what a driver can do, and what it is told to boot; and
-- internal/driver/conformance.go: the checks that every driver must pass.
pub mod Conformance
use klab.Prelude.{ℕ, Bool, true, false, List, [], ◌∷◌, if◌then◌else◌}
use klab.Prelude.Int.{ℤ}
use klab.Text.{Text, text_eq}

pub record Caps : Type 0 where
  pub custom_kernel : Bool
  pub needs_kvm : Bool
  pub arches : List Text

unfoldable pub list_has : List Text → Text → Bool
list_has [] x = false
list_has (a ∷ as') x = if text_eq a x then true else list_has as' x

-- Caps.CanRunArch
unfoldable pub can_run_arch : Caps → Text → Bool
unfolding list_has
can_run_arch c arch = list_has c.arches arch

pub record Nic : Type 0 where
  pub tap : Text
  pub mac : Text

pub record BootSpec : Type 0 where
  pub name : Text
  pub kernel : Text
  pub rootfs : Text
  pub rootfs_rw : Text
  pub arch : Text
  pub cpu : ℤ
  pub mem_mib : ℤ
  pub nics : List Nic

pub record ExecResult : Type 0 where
  pub exit_code : ℤ
  pub stdout : Text
  pub stderr : Text
