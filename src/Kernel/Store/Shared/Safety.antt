-- ===== src/Kernel/Store/Shared/Safety.antt =====
-- What holds of a cache, and of the calls of `Store.Get` on it, whatever the order of their steps.
use klab.Prelude.{ℕ, zero, suc, ◌⊎◌, inl, inr, ap}
use mathlib.Core.Path.{subst}
use klab.Text.{Text}
use klab.Kernel.Store.{Spec, Machine, get}
use klab.Kernel.Store.Steps.{At, at_lookup, returned, step, steps, steps-get}
use klab.Kernel.Store.Shared.{
  IsOrderly, Calls, Turn, Reach, IsSound, Fits, Broke, IsSafe, Holds, LeavesPart,
}
use klab.Kernel.Store.Shared.Partly.{Safe, step-Safe, Torn-Safe, mixed-Bears}
use klab.Kernel.Store.Shared.Kept.{Kept, step-Kept}

module _ {World Bytes BuildError : Type 0} (m : Machine World Bytes BuildError)
    (root toolchain : Text) where
  module _ (orderly : IsOrderly m root toolchain) where
    step-Broke :
        (spec : Spec) (config : Text) (p : At m root toolchain) (w : World)
        → Broke m root toolchain p
        → Broke m root toolchain (step m root toolchain spec config p w).1
    unfolding step
    step-Broke spec config p w (path, e) =
        (path, ap (λ q. (step m root toolchain spec config q w).1) e)

    Turn-Holds :
        LeavesPart m root toolchain
        → {v w : World} {cs ds : Calls m root toolchain} → Turn m root toolchain v cs w ds
        → Holds m root toolchain v cs
        → Holds m root toolchain w ds
    unfolding Safe
    Turn-Holds part (Turn.now c cs v) (safe, (bears, rest)) =
        let (s, b) = step-Safe m root toolchain orderly part c.spec c.config c.at v safe bears in
        (s, (b, rest))
    Turn-Holds part (Turn.torn c cs a d v w e t) (safe, all) =
        (Torn-Safe m root toolchain orderly part c v w safe t, all)
    Turn-Holds part (Turn.mixed c cs a d p v w e t over) (safe, (bears, rest)) = (
      Torn-Safe m root toolchain orderly part c v w safe t,
      (mixed-Bears m root toolchain orderly part c a d p e bears over, rest),
    )
    Turn-Holds part (Turn.later c t) (safe, (bears, rest)) =
        let (s, all) = Turn-Holds part t (safe, rest) in (s, (bears, all))

    -- Take a cache whose markers, as far as they decode, are of their own entries. Calls of `Get` take
    -- their steps on it in any order, and some may stop for ever between two steps. A marker is written
    -- in place: while a call is at it, the file may be there in part or not at all, and where it stops
    -- then, fails, or writes at the same time as another call, it may stay there as something that does
    -- not decode. Where files that are written undisturbed read as they were written, artifacts decode
    -- to themselves, a failed write leaves the whole, what was there before or what does not decode,
    -- writing a file leaves the others alone, neither a new directory nor a build makes a marker, and a
    -- hash is not empty: in every state that is reached each marker that decodes is an artifact with
    -- the key and the config of its entry, and each call that has returned without an error has
    -- returned such an artifact for its own inputs, hit or miss.
    pub Reach-Holds :
        LeavesPart m root toolchain
        → {u w : World} {cs : Calls m root toolchain} → IsSafe m root toolchain u
        → Reach m root toolchain u w cs
        → Holds m root toolchain w cs
    Reach-Holds part safe Reach.start = (safe, tt)
    Reach-Holds part safe (Reach.begin spec config r) =
        let (s, all) = Reach-Holds part safe r in (s, (tt, all))
    Reach-Holds part safe (Reach.turn r t) = Turn-Holds part t (Reach-Holds part safe r)

    steps-Kept :
        (n : ℕ) (spec : Spec) (config : Text) (o : World × At m root toolchain)
        → Kept m root toolchain spec config o
        → Kept m root toolchain spec config (steps m root toolchain n spec config o)
    unfolding Kept steps
    steps-Kept zero spec config (w, p) k = k
    steps-Kept (suc n) spec config (w, p) (inl b) =
        steps-Kept n spec config _ (inl (step-Broke spec config p w b))
    steps-Kept (suc n) spec config (w, p) (inr (sound, fits)) =
        steps-Kept n spec config _ (step-Kept m root toolchain orderly spec config p w sound fits)

    -- Where files read as they were written and artifacts decode to themselves, writing a file, also
    -- in vain, leaves the others alone, neither a new directory nor a build makes a marker, and a hash
    -- is not empty: on a cache whose markers are sound, `Get` with nobody else at work either fails to
    -- write its marker, or leaves the markers sound and returns an artifact with the key and the config
    -- path of its inputs, hit or miss, or an error other than a corrupt marker.
    pub get-IsSound :
        (spec : Spec) (config : Text) (w : World)
        → IsSound m root toolchain w
        → let (v, r) = get m root toolchain spec config w in
          Broke m root toolchain (returned r)
          ⊎ (IsSound m root toolchain v × Fits m root toolchain spec config (returned r))
    unfolding Kept
    get-IsSound spec config w sound =
        subst (Kept m root toolchain spec config) (steps-get m root toolchain spec config w)
          (steps-Kept 6 spec config (w, at_lookup) (inr (sound, tt)))
