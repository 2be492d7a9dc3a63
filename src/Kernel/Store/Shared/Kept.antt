-- ===== src/Kernel/Store/Shared/Kept.antt =====
-- What one step of a call of `Store.Get` keeps.
use klab.Prelude.{
  ◌≡◌, ◌⊎◌, inl, inr, refl, sym, ap, ◌∙◌, arith, Bool, true, false, Option, none, some, Result, ok,
  err, Bool-cases,
}
use klab.Text.{Text, text_eq, text_eq_iff, text_eq_sound}
use klab.Kernel.Store.{
  Spec, Artifact, Contents, found, not_exist, unreadable, Machine, StoreError, writing_metadata,
  key_of, dir_of, meta_of, config_of,
}
use klab.Kernel.Store.Steps.{
  At, at_lookup, at_mkdir, at_config, at_build, at_marshal, at_marker, returned, stamped,
  after_decode, after_lookup, after_call, after_build, after_marshal, step,
}
use klab.Kernel.Store.Paths.{config_of-meta_of, meta_of-injective}
use klab.Kernel.Store.Shared.{IsOrderly, Carries, IsSound, Fits, Broke}

module _ {World Bytes BuildError : Type 0} (m : Machine World Bytes BuildError)
    (root toolchain : Text) where
  -- After a step: the call could not write its marker, or all is as it should be.
  unfoldable pub Kept : Spec → Text → World × At m root toolchain → Type 0
  Kept spec config (w, p) =
      Broke m root toolchain p ⊎ (IsSound m root toolchain w × Fits m root toolchain spec config p)

  -- Nothing that reads as a marker is new.
  IsSound-back :
      (v w : World)
      → IsSound m root toolchain v
      → ((spec : Spec) (config : Text) (d : Bytes)
          → m.read_file (meta_of m root toolchain spec config) w ≡ found d
          → m.read_file (meta_of m root toolchain spec config) v ≡ found d)
      → IsSound m root toolchain w
  IsSound-back v w sound back spec config d h = sound spec config d (back spec config d h)

  pub found-injective : (d e : Bytes) → ◌≡◌ {A = Contents Bytes} (found d) (found e) → d ≡ e
  found-injective d e h = cc

  after_call-Kept :
      (spec : Spec) (config : Text) (next : At m root toolchain) (e : StoreError BuildError)
      (o : World × Bool)
      → IsSound m root toolchain o.0
      → Fits m root toolchain spec config next
      → Fits m root toolchain spec config (returned (err e))
      → Kept spec config (after_call m root toolchain next e o)
  unfolding after_call Kept
  after_call-Kept spec config next e (w, true) sound fits failed = inr (sound, fits)
  after_call-Kept spec config next e (w, false) sound fits failed = inr (sound, failed)

  decode-Fits :
      (spec : Spec) (config meta : Text) (a : Artifact) (o : Option Artifact)
      → o ≡ some a
      → Carries m root toolchain spec config a
      → Fits m root toolchain spec config (after_decode m root toolchain meta o)
  unfolding after_decode
  decode-Fits spec config meta a none h c = cc
  decode-Fits spec config meta a (some b) h (hash, path) = (cc, cc)

  lookup-Fits :
      (spec : Spec) (config : Text) (w : World) (c : Contents Bytes)
      → IsSound m root toolchain w
      → m.read_file (meta_of m root toolchain spec config) w ≡ c
      → Fits m root toolchain spec config
          (after_lookup m root toolchain (meta_of m root toolchain spec config) c)
  unfolding after_lookup
  lookup-Fits spec config w (found d) sound h =
      let (a, u, c) = sound spec config d h in decode-Fits spec config _ a (m.unmarshal d) u c
  lookup-Fits spec config w not_exist sound h = tt
  lookup-Fits spec config w unreadable sound h = tt

  build-Kept :
      (spec : Spec) (config : Text) (o : World × Result BuildError Artifact)
      → IsSound m root toolchain o.0
      → Kept spec config (after_build m root toolchain spec config o)
  unfolding after_build Kept stamped
  build-Kept spec config (w, ok a) sound = inr (sound, (refl, refl))
  build-Kept spec config (w, err e) sound = inr (sound, tt)

  marshal-Fits :
      (spec : Spec) (config : Text) (a : Artifact) (o : Option Bytes)
      → m.marshal a ≡ o
      → Carries m root toolchain spec config a
      → Fits m root toolchain spec config (after_marshal m root toolchain a o)
  unfolding after_marshal
  marshal-Fits spec config a none h c = tt
  marshal-Fits spec config a (some d) h c = (h, c)

  pub config_of-key :
      (spec spec' : Spec) (config config' : Text)
      → key_of m root toolchain spec config ≡ key_of m root toolchain spec' config'
      → config_of m root toolchain spec config ≡ config_of m root toolchain spec' config'
  unfolding config_of dir_of
  config_of-key spec spec' config config' h = rw h refl

  module _ (orderly : IsOrderly m root toolchain) where
    -- The marker of one entry is written: it is the only one that changes.
    marker-IsSound :
        (spec : Spec) (config : Text) (a : Artifact) (d : Bytes) (v w : World)
        → IsSound m root toolchain v
        → m.marshal a ≡ some d
        → Carries m root toolchain spec config a
        → m.write_file (meta_of m root toolchain spec config) d v ≡ (w, true)
        → IsSound m root toolchain w
    marker-IsSound spec config a d v w sound encoded (hash, path) written spec' config' d' h =
        elim (Bool-cases (text_eq here there)) [
          | inl e ↦
              let same = text_eq_sound here there e in
              let key =
                meta_of-injective m root toolchain orderly.sum_full spec spec' config config'
                  same in
              let read = orderly.faithful.read-write here d v w written in
              let again = found-injective d d' (sym read ∙ ap (λ p. m.read_file p w) same ∙ h) in
              (
                a,
                ap m.unmarshal (sym again) ∙ orderly.faithful.unmarshal-marshal a d encoded,
                (hash ∙ key, path ∙ config_of-key spec spec' config config' key),
              )
          | inr n ↦ sound spec' config' d' (
              sym (
                orderly.read-write_apart here there d v
                  (λ p. ground (arith, (text_eq_iff here there).1 p)))
              ∙ (ap (λ (o : World × Bool). m.read_file there o.0) written ∙ h))
        ]
      where
        here : Text
        here = meta_of m root toolchain spec config

        there : Text
        there = meta_of m root toolchain spec' config'

    marker-Kept :
        (spec : Spec) (config : Text) (a : Artifact) (d : Bytes) (w : World) (o : World × Bool)
        → IsSound m root toolchain w
        → m.marshal a ≡ some d
        → Carries m root toolchain spec config a
        → m.write_file (meta_of m root toolchain spec config) d w ≡ o
        → Kept spec config (
            after_call m root toolchain
              (returned (ok (a, false)))
              (writing_metadata (meta_of m root toolchain spec config))
              o)
    unfolding after_call Kept
    marker-Kept spec config a d w (v, true) sound encoded c h =
        inr (marker-IsSound spec config a d w v sound encoded c h, c)
    marker-Kept spec config a d w (v, false) sound encoded c h = inl (_, refl)

    pub step-Kept :
        (spec : Spec) (config : Text) (p : At m root toolchain) (w : World)
        → IsSound m root toolchain w
        → Fits m root toolchain spec config p
        → Kept spec config (step m root toolchain spec config p w)
    unfolding step Kept
    step-Kept spec config at_lookup w sound fits =
        inr (sound, lookup-Fits spec config w _ sound refl)
    step-Kept spec config at_mkdir w sound fits =
        after_call-Kept spec config _ _ _
          (IsSound-back w _ sound (λ s c d h. orderly.read-mkdir_all _ _ d w h)) tt tt
    step-Kept spec config at_config w sound fits =
        after_call-Kept spec config _ _ _
          (IsSound-back w _ sound (λ s c d h.
            sym (
              orderly.read-write_apart _ _ _ w (config_of-meta_of m root toolchain spec s config c))
            ∙ h))
          tt tt
    step-Kept spec config at_build w sound fits =
        build-Kept spec config _
          (IsSound-back w _ sound (λ s c d h. orderly.read-build spec s config c d w h))
    step-Kept spec config (at_marshal a) w sound fits =
        inr (sound, marshal-Fits spec config a _ refl fits)
    step-Kept spec config (at_marker a d) w sound (encoded, fits) =
        marker-Kept spec config a d w _ sound encoded fits refl
    step-Kept spec config (returned r) w sound fits = inr (sound, fits)
