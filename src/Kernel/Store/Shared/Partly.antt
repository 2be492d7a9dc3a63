-- ===== src/Kernel/Store/Shared/Partly.antt =====
-- What one step of a call of `Store.Get` keeps where a marker may be there in part.
use klab.Prelude.{
  ◌≡◌, ◌≢◌, inl, inr, refl, sym, ap, ◌∙◌, arith, Bool, true, false, Option, none, some, Result, ok,
  err, Bool-cases,
}
use mathlib.Core.Path.{subst}
use klab.Text.{Text, text_eq, text_eq_iff, text_eq_sound, is_empty}
use klab.Kernel.Store.{
  Spec, Artifact, Contents, found, not_exist, unreadable, Machine, StoreError, meta_of,
}
use klab.Kernel.Store.Steps.{
  At, at_lookup, at_mkdir, at_config, at_build, at_marshal, at_marker, returned, stamped,
  after_decode, after_lookup, after_call, after_build, after_marshal, step,
}
use klab.Kernel.Store.Paths.{config_of-meta_of, meta_of-injective}
use klab.Kernel.Store.Shared.{Call, IsOrderly, Carries, Torn, Over, IsSafe, Bears, LeavesPart}
use klab.Kernel.Store.Shared.Kept.{found-injective, config_of-key}

module _ {World Bytes BuildError : Type 0} (m : Machine World Bytes BuildError)
    (root toolchain : Text) where
  -- What holds after a step.
  unfoldable pub Safe : Spec → Text → World × At m root toolchain → Type 0
  Safe spec config (w, p) = IsSafe m root toolchain w × Bears m root toolchain spec config p

  IsSafe-back :
      (v w : World)
      → IsSafe m root toolchain v
      → ((spec : Spec) (config : Text) (d : Bytes)
          → m.read_file (meta_of m root toolchain spec config) w ≡ found d
          → m.read_file (meta_of m root toolchain spec config) v ≡ found d)
      → IsSafe m root toolchain w
  IsSafe-back v w safe back spec config d h = safe spec config d (back spec config d h)

  not_both : (o : Option Artifact) (a : Artifact) → o ≡ none → o ≡ some a → ⊥
  not_both o a e h = cc

  carried :
      (spec : Spec) (config : Text) (a b : Artifact) (o : Option Artifact)
      → o ≡ some a
      → o ≡ some b
      → Carries m root toolchain spec config a
      → Carries m root toolchain spec config b
  carried spec config a b o ha hb (hash, path) = (cc, cc)

  call-Safe :
      (spec : Spec) (config : Text) (next : At m root toolchain) (e : StoreError BuildError)
      (o : World × Bool)
      → IsSafe m root toolchain o.0
      → Bears m root toolchain spec config next
      → Safe spec config (after_call m root toolchain next e o)
  unfolding after_call Safe
  call-Safe spec config next e (w, true) safe bears = (safe, bears)
  call-Safe spec config next e (w, false) safe bears = (safe, tt)

  decode-Bears :
      (spec : Spec) (config meta : Text) (o : Option Artifact)
      → ((a : Artifact) → o ≡ some a → Carries m root toolchain spec config a)
      → Bears m root toolchain spec config (after_decode m root toolchain meta o)
  unfolding after_decode
  decode-Bears spec config meta none h = tt
  decode-Bears spec config meta (some a) h = h a refl

  lookup-Bears :
      (spec : Spec) (config : Text) (w : World) (c : Contents Bytes)
      → IsSafe m root toolchain w
      → m.read_file (meta_of m root toolchain spec config) w ≡ c
      → Bears m root toolchain spec config
          (after_lookup m root toolchain (meta_of m root toolchain spec config) c)
  unfolding after_lookup
  lookup-Bears spec config w (found d) safe h =
      decode-Bears spec config _ (m.unmarshal d) (safe spec config d h)
  lookup-Bears spec config w not_exist safe h = tt
  lookup-Bears spec config w unreadable safe h = tt

  build-Safe :
      (spec : Spec) (config : Text) (o : World × Result BuildError Artifact)
      → IsSafe m root toolchain o.0
      → Safe spec config (after_build m root toolchain spec config o)
  unfolding after_build Safe stamped
  build-Safe spec config (w, ok a) safe = (safe, (refl, refl))
  build-Safe spec config (w, err e) safe = (safe, tt)

  marshal-Bears :
      (spec : Spec) (config : Text) (a : Artifact) (o : Option Bytes)
      → m.marshal a ≡ o
      → Carries m root toolchain spec config a
      → Bears m root toolchain spec config (after_marshal m root toolchain a o)
  unfolding after_marshal
  marshal-Bears spec config a none h c = tt
  marshal-Bears spec config a (some d) h c = (h, c)

  -- Only the marker of one entry changes, and if it decodes there, it decodes as it should.
  changed-IsSafe :
      (spec : Spec) (config : Text) (v w : World)
      → ((s : Text) → is_empty (m.sum s) ≡ false)
      → IsSafe m root toolchain v
      → ((path : Text)
          → meta_of m root toolchain spec config ≢ path
          → m.read_file path w ≡ m.read_file path v)
      → ((d : Bytes)
          → m.read_file (meta_of m root toolchain spec config) w ≡ found d
          → (b : Artifact) → m.unmarshal d ≡ some b
          → Carries m root toolchain spec config b)
      → IsSafe m root toolchain w
  changed-IsSafe spec config v w full safe apart here spec' config' d h b u =
      elim (Bool-cases (text_eq mine there)) [
        | inl e ↦
            let same = text_eq_sound mine there e in
            let key = meta_of-injective m root toolchain full spec spec' config config' same in
            let (hash, path) = here d (ap (λ p. m.read_file p w) same ∙ h) b u in
            (hash ∙ key, path ∙ config_of-key m root toolchain spec spec' config config' key)
        | inr n ↦
            safe spec' config' d
              (sym (apart there (λ p. ground (arith, (text_eq_iff mine there).1 p))) ∙ h) b u
      ]
    where
      mine : Text
      mine = meta_of m root toolchain spec config

      there : Text
      there = meta_of m root toolchain spec' config'

  Torn-IsSafe :
      (spec : Spec) (config : Text) (v w : World)
      → ((s : Text) → is_empty (m.sum s) ≡ false)
      → IsSafe m root toolchain v
      → Torn m root toolchain spec config v w
      → IsSafe m root toolchain w
  Torn-IsSafe spec config v w full safe t =
      changed-IsSafe spec config v w full safe t.others
        (λ d h b u. absurd (not_both (m.unmarshal d) b (t.broken d h) u))

  Over-Bears :
      (c : Call Bytes BuildError) (a : Artifact) (p : At m root toolchain)
      → Over m root toolchain c a p
      → Carries m root toolchain c.spec c.config a
      → Bears m root toolchain c.spec c.config p
  Over-Bears c a p (inl e) h = subst (Bears m root toolchain c.spec c.config) (sym e) h
  Over-Bears c a p (inr e) h = subst (Bears m root toolchain c.spec c.config) (sym e) tt

  module _ (orderly : IsOrderly m root toolchain) (part : LeavesPart m root toolchain) where
    -- A marker that decodes after its write has been written in whole, or was there before.
    written_here :
        (spec : Spec) (config : Text) (a : Artifact) (d : Bytes) (w : World) (o : World × Bool)
        → IsSafe m root toolchain w
        → m.marshal a ≡ some d
        → Carries m root toolchain spec config a
        → m.write_file (meta_of m root toolchain spec config) d w ≡ o
        → (e : Bytes) → m.read_file (meta_of m root toolchain spec config) o.0 ≡ found e
        → (b : Artifact) → m.unmarshal e ≡ some b
        → Carries m root toolchain spec config b
    written_here spec config a d w (v, true) safe encoded c h e r b u =
        let read = orderly.faithful.read-write _ d w v h in
        let same = found-injective m root toolchain d e (sym read ∙ r) in
        carried spec config a b (m.unmarshal d) (orderly.faithful.unmarshal-marshal a d encoded)
          (ap m.unmarshal same ∙ u) c
    written_here spec config a d w (v, false) safe encoded c h e r b u =
        elim (part a d e _ w v encoded h r) [
          | inl lost ↦ absurd (not_both (m.unmarshal e) b lost u)
          | inr (inl same) ↦
              carried spec config a b (m.unmarshal d)
                (orderly.faithful.unmarshal-marshal a d encoded) (ap m.unmarshal (sym same) ∙ u) c
          | inr (inr before) ↦ safe spec config e before b u
        ]

    pub step-Safe :
        (spec : Spec) (config : Text) (p : At m root toolchain) (w : World)
        → IsSafe m root toolchain w
        → Bears m root toolchain spec config p
        → Safe spec config (step m root toolchain spec config p w)
    unfolding step Safe
    step-Safe spec config at_lookup w safe bears = (safe, lookup-Bears spec config w _ safe refl)
    step-Safe spec config at_mkdir w safe bears =
        call-Safe spec config _ _ _
          (IsSafe-back w _ safe (λ s c d h. orderly.read-mkdir_all _ _ d w h)) tt
    step-Safe spec config at_config w safe bears =
        call-Safe spec config _ _ _
          (IsSafe-back w _ safe (λ s c d h.
            sym (
              orderly.read-write_apart _ _ _ w (config_of-meta_of m root toolchain spec s config c))
            ∙ h))
          tt
    step-Safe spec config at_build w safe bears =
        build-Safe spec config _
          (IsSafe-back w _ safe (λ s c d h. orderly.read-build spec s config c d w h))
    step-Safe spec config (at_marshal a) w safe bears =
        (safe, marshal-Bears spec config a _ refl bears)
    step-Safe spec config (at_marker a d) w safe (encoded, c) =
        call-Safe spec config _ _ _
          (changed-IsSafe spec config w _ orderly.sum_full safe
            (λ path ne. orderly.read-write_apart _ path d w ne)
            (written_here spec config a d w _ safe encoded c refl))
          c
    step-Safe spec config (returned r) w safe bears = (safe, bears)

    pub Torn-Safe :
        (c : Call Bytes BuildError) (v w : World)
        → IsSafe m root toolchain v
        → Torn m root toolchain c.spec c.config v w
        → IsSafe m root toolchain w
    Torn-Safe c v w safe t = Torn-IsSafe c.spec c.config v w orderly.sum_full safe t

    pub mixed-Bears :
        (c : Call Bytes BuildError) (a : Artifact) (d : Bytes) (p : At m root toolchain)
        → c.at ≡ at_marker a d
        → Bears m root toolchain c.spec c.config c.at
        → Over m root toolchain c a p
        → Bears m root toolchain c.spec c.config p
    mixed-Bears c a d p e bears over =
        Over-Bears c a p over (second (subst (Bears m root toolchain c.spec c.config) e bears))
      where
        second :
            (m.marshal a ≡ some d) × Carries m root toolchain c.spec c.config a
            → Carries m root toolchain c.spec c.config a
        second (x, y) = y
