-- ===== src/Kernel/Sources/Configured.antt =====
-- Sources up to what they say.
use mathlib.Core.Quot
use mathlib.Core.Quot.{Quot, Quot-set}
use mathlib.Core.HLevel.{Σ_prop_path}
use mathlib.Core.Equiv.{IsEquiv, iso_to_equiv}
use klab.Prelude.{◌≡◌, []}
use klab.Text.{Text}
use klab.Kernel.{merge_config}
use klab.Kernel.Again.{merge_config-merge_config}
use klab.Kernel.Sources.{Sources, SaySame, merge_config_iff}

-- A base with its fragments, up to what they say of the symbols.
abbrev pub Configuration : Type 0
Configuration = Quot SaySame

-- A text that is the merged config of something, which is then itself.
abbrev pub Canonical : Type 0
Canonical = (c : Text) × (merge_config c [] ≡ c)

-- The text that `MergeConfig` makes of it.
unfoldable pub canonical : Configuration → Canonical
canonical =
    Quot.lift (hlevel) (λ (s : Sources). (merge_config s.0 s.1, merge_config-merge_config s.0 s.1))
      (λ x y h. Σ_prop_path (λ c. hlevel) ((merge_config_iff x.0 y.0 x.1 y.1).0 h))

-- The configuration that a text is read as.
abbrev pub read : Canonical → Configuration
read c = Quot.mk (c.0, [])

canonical-read : (c : Canonical) → canonical (read c) ≡ c
unfolding canonical
canonical-read c = Σ_prop_path (λ d. hlevel) c.1

read-canonical : (x : Configuration) → read (canonical x) ≡ x
unfolding canonical
read-canonical =
    Quot.ind (λ x. Quot-set _ _)
      (λ s. Quot.sound (
        (merge_config_iff (merge_config s.0 s.1) s.0 [] s.1).1 (merge_config-merge_config s.0 s.1)))

-- `MergeConfig` is an equivalence of types: from a base with its fragments, up to what they say of
-- the symbols, to the texts that merge to themselves. Each configuration has one such text, and each
-- such text is that of one configuration.
pub canonical-IsEquiv : IsEquiv canonical
canonical-IsEquiv =
    (iso_to_equiv
      (record { fun = canonical; inv = read; rinv = canonical-read; linv = read-canonical })).1
