-- ===== src/Kernel/Sources/Keyed.antt =====
-- The cache of built kernels against what the sources of their configs say.
use klab.Prelude.{◌≡◌, ◌≢◌, ◌⊎◌, inl, inr, sym, ap, ◌∙◌, ◌<◌, true, List, ◌∷◌, Bool, ok, All}
use klab.Text.{Text}
use klab.Kernel.{cache_key, merge_config}
use klab.Kernel.Key.{cache_key_collision}
use klab.Kernel.Merge.{last_says, lines_of}
use klab.Kernel.Sources.{merge_config_iff}
use klab.Kernel.Store.{Spec, Artifact, Machine, get}
use klab.Kernel.Store.Cached.{IsFaithful, get_twice}

-- Take a ref, an architecture and a toolchain, and a hash that returns bytes. Two bases with
-- fragments whose last directives agree for every symbol have one key; and where the keys agree, so
-- do the last directives, or two different texts have one hash.
pub cache_key-said :
    (sum : Text → Text)
    → ((s : Text) → All (λ b. b < 256) (sum s))
    → (ref arch toolchain base base' : Text) (fs fs' : List Text)
    → (((t : Text) → last_says t (lines_of (base ∷ fs)) ≡ last_says t (lines_of (base' ∷ fs')))
        → cache_key sum ref arch toolchain (merge_config base fs)
          ≡ cache_key sum ref arch toolchain (merge_config base' fs'))
      × (cache_key sum ref arch toolchain (merge_config base fs)
            ≡ cache_key sum ref arch toolchain (merge_config base' fs')
          → ((t : Text) → last_says t (lines_of (base ∷ fs)) ≡ last_says t (lines_of (base' ∷ fs')))
            ⊎ ((s : Text) × (t : Text) × (s ≢ t) × (sum s ≡ sum t)))
cache_key-said sum bytes ref arch toolchain base base' fs fs' = (
  λ same. ap (cache_key sum ref arch toolchain) ((merge_config_iff base base' fs fs').0 same),
  λ keys. elim (cache_key_collision sum bytes ref arch toolchain _ ref arch toolchain _ keys) [
    | inl (r, a, c, config) ↦ inl ((merge_config_iff base base' fs fs').1 config)
    | inr collision ↦ inr collision
  ],
)

-- Where files read as they were written and artifacts decode to themselves: once `Get` has returned
-- an artifact for a config that was merged from some sources, a `Get` of the same spec for a config
-- merged from sources that say the same of every symbol is a hit, returns that artifact and changes nothing.
pub get-said :
    {World Bytes BuildError : Type 0} (m : Machine World Bytes BuildError) (root toolchain : Text)
    → IsFaithful m
    → (spec : Spec) (base base' : Text) (fs fs' : List Text) (v w : World) (a : Artifact)
      (hit : Bool)
    → get m root toolchain spec (merge_config base fs) v ≡ (w, ok (a, hit))
    → ((t : Text) → last_says t (lines_of (base ∷ fs)) ≡ last_says t (lines_of (base' ∷ fs')))
    → get m root toolchain spec (merge_config base' fs') w ≡ (w, ok (a, true))
get-said m root toolchain faithful spec base base' fs fs' v w a hit h same =
    ap (λ c. get m root toolchain spec c w) (sym ((merge_config_iff base base' fs fs').0 same))
    ∙ get_twice m root toolchain faithful spec (merge_config base fs) v w a hit h
