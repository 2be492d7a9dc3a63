-- ===== src/Kernel/Store/Cached.antt =====
-- What `Store.Get` leaves behind when it succeeds.
use klab.Prelude.{
  ◌≡◌, refl, sym, ap, ◌∙◌, Bool, true, false, Option, none, some, Result, ok, err, ◌⊎◌, inl, inr,
}
use klab.Text.{Text}
use klab.Kernel.Store.{
  Spec, Artifact, Contents, found, not_exist, unreadable, Machine, key_of, meta_of, config_of,
  meta_written, encoded, built, StoreError, config_written, dir_made, decoded, looked_up, get,
}

-- A file that was written reads as it was written, and an artifact that was encoded decodes to
-- itself.
pub record IsFaithful {World Bytes BuildError : Type 0} (m : Machine World Bytes BuildError)
    : Type 0 where
  pub read-write :
      (path : Text) (data' : Bytes) (w w' : World)
      → m.write_file path data' w ≡ (w', true)
      → m.read_file path w' ≡ found data'
  pub unmarshal-marshal :
      (a : Artifact) (data' : Bytes) → m.marshal a ≡ some data' → m.unmarshal data' ≡ some a

module _ {World Bytes BuildError : Type 0} (m : Machine World Bytes BuildError)
    (root toolchain : Text) where
  -- The marker of the entry was written last, and holds the artifact.
  pub record Marked (spec : Spec) (config : Text) (w : World) (a : Artifact) (hit : Bool)
      : Type 0 where
    pub before : World
    pub marker : Bytes
    pub marker_of : m.marshal a ≡ some marker
    pub written : m.write_file (meta_of m root toolchain spec config) marker before ≡ (w, true)
    pub hash_key : a.hash ≡ key_of m root toolchain spec config
    pub config_path : a.config ≡ config_of m root toolchain spec config
    pub missed : hit ≡ false

  meta_written-ok :
      (meta : Text) (a b : Artifact) (hit : Bool) (r : World × Bool) (w : World)
      → meta_written m root toolchain meta a r ≡ (w, ok (b, hit))
      → (r ≡ (w, true)) × (a ≡ b) × (hit ≡ false)
  unfolding meta_written
  meta_written-ok meta a b hit (v, true) w h = (cc, cc, cc)
  meta_written-ok meta a b hit (v, false) w h = (cc, cc, cc)

  failed-ok :
      (w v : World) (e : StoreError BuildError) (x : Artifact × Bool)
      → ◌≡◌ {A = World × Result (StoreError BuildError) (Artifact × Bool)} (w, err e) (v, ok x)
      → ⊥
  failed-ok w v e x h = cc

  encoded-ok :
      (meta : Text) (a b : Artifact) (hit : Bool) (v : World) (o : Option Bytes) (w : World)
      → encoded m root toolchain meta a v o ≡ (w, ok (b, hit))
      → (d : Bytes) × (o ≡ some d) × (m.write_file meta d v ≡ (w, true)) × (a ≡ b) × (hit ≡ false)
  unfolding encoded
  encoded-ok meta a b hit v none w h = absurd (failed-ok _ _ _ _ h)
  encoded-ok meta a b hit v (some d) w h =
      let (r, e, f) = meta_written-ok meta a b hit (m.write_file meta d v) w h in (d, refl, r, e, f)

  built-ok :
      (spec : Spec) (config : Text) (r : World × Result BuildError Artifact) (w : World)
      (b : Artifact) (hit : Bool)
      → built m root toolchain spec config r ≡ (w, ok (b, hit))
      → Marked spec config w b hit
  unfolding built
  built-ok spec config (v, err e) w b hit h = absurd (failed-ok _ _ _ _ h)
  built-ok spec config (v, ok a) w b hit h =
      let (d, e, r, same, miss) = encoded-ok _ _ b hit v _ w h in
      record {
        before = v;
        marker = d;
        marker_of = ap m.marshal (sym same) ∙ e;
        written = r;
        hash_key = ap (λ (x : Artifact). x.hash) (sym same);
        config_path = ap (λ (x : Artifact). x.config) (sym same);
        missed = miss;
      }

  config_written-ok :
      (spec : Spec) (config : Text) (r : World × Bool) (w : World) (b : Artifact) (hit : Bool)
      → config_written m root toolchain spec config r ≡ (w, ok (b, hit))
      → Marked spec config w b hit
  unfolding config_written
  config_written-ok spec config (v, true) w b hit h = built-ok spec config _ w b hit h
  config_written-ok spec config (v, false) w b hit h = absurd (failed-ok _ _ _ _ h)

  dir_made-ok :
      (spec : Spec) (config : Text) (r : World × Bool) (w : World) (b : Artifact) (hit : Bool)
      → dir_made m root toolchain spec config r ≡ (w, ok (b, hit))
      → Marked spec config w b hit
  unfolding dir_made
  dir_made-ok spec config (v, true) w b hit h = config_written-ok spec config _ w b hit h
  dir_made-ok spec config (v, false) w b hit h = absurd (failed-ok _ _ _ _ h)

  -- A hit: the marker was there, nothing changed, and the artifact is what the marker holds.
  abbrev Hit : Spec → Text → World → World → Artifact → Bool → Type 0
  Hit spec config v w b hit =
      (d : Bytes) × (m.read_file (meta_of m root toolchain spec config) v ≡ found d)
      × (m.unmarshal d ≡ some b)
      × (v ≡ w)
      × (hit ≡ true)

  decoded-ok :
      (meta : Text) (v w : World) (o : Option Artifact) (b : Artifact) (hit : Bool)
      → decoded m root toolchain meta v o ≡ (w, ok (b, hit))
      → (o ≡ some b) × (v ≡ w) × (hit ≡ true)
  unfolding decoded
  decoded-ok meta v w none b hit h = absurd (failed-ok _ _ _ _ h)
  decoded-ok meta v w (some a) b hit h = (cc, cc, cc)

  looked_up-ok :
      (spec : Spec) (config : Text) (v w : World) (c : Contents Bytes) (b : Artifact) (hit : Bool)
      → m.read_file (meta_of m root toolchain spec config) v ≡ c
      → looked_up m root toolchain spec config v c ≡ (w, ok (b, hit))
      → Hit spec config v w b hit ⊎ Marked spec config w b hit
  unfolding looked_up
  looked_up-ok spec config v w (found d) b hit r h =
      let (e, f, g) = decoded-ok _ v w _ b hit h in inl (d, r, e, f, g)
  looked_up-ok spec config v w unreadable b hit r h = absurd (failed-ok _ _ _ _ h)
  looked_up-ok spec config v w not_exist b hit r h = inr (dir_made-ok spec config _ w b hit h)

  get_found :
      (spec : Spec) (config : Text) (w : World) (d : Bytes) (a : Artifact)
      → m.read_file (meta_of m root toolchain spec config) w ≡ found d
      → m.unmarshal d ≡ some a
      → get m root toolchain spec config w ≡ (w, ok (a, true))
  unfolding get looked_up decoded
  get_found spec config w d a r u = rw (r, u) refl

  get-ok :
      (spec : Spec) (config : Text) (v w : World) (a : Artifact) (hit : Bool)
      → get m root toolchain spec config v ≡ (w, ok (a, hit))
      → Hit spec config v w a hit ⊎ Marked spec config w a hit
  unfolding get
  get-ok spec config v w a hit h = looked_up-ok spec config v w _ a hit refl h

  -- The marker of an entry that `Get` returned, hit or miss.
  pub get-marker :
      IsFaithful m
      → (spec : Spec) (config : Text) (v w : World) (a : Artifact) (hit : Bool)
      → get m root toolchain spec config v ≡ (w, ok (a, hit))
      → (d : Bytes) × (m.read_file (meta_of m root toolchain spec config) w ≡ found d)
        × (m.unmarshal d ≡ some a)
  get-marker faithful spec config v w a hit h = elim (get-ok spec config v w a hit h) [
    | inl (d, r, u, e, f) ↦
        (d, ap (m.read_file (meta_of m root toolchain spec config)) (sym e) ∙ r, u)
    | inr marked ↦ (
      marked.marker,
      faithful.read-write _ _ _ _ marked.written,
      faithful.unmarshal-marshal a marked.marker marked.marker_of,
    )
  ]

  -- Where files read as they were written and artifacts decode to themselves: once `Get` has
  -- returned an artifact, hit or miss, the next `Get` for the same inputs is a hit, returns the
  -- same artifact and changes nothing.
  pub get_twice :
      IsFaithful m
      → (spec : Spec) (config : Text) (v w : World) (a : Artifact) (hit : Bool)
      → get m root toolchain spec config v ≡ (w, ok (a, hit))
      → get m root toolchain spec config w ≡ (w, ok (a, true))
  get_twice faithful spec config v w a hit h =
      let (d, r, u) = get-marker faithful spec config v w a hit h in get_found spec config w d a r u

  -- An artifact that `Get` returns from a build carries the key and the path of the config of its
  -- inputs.
  pub get_miss :
      (spec : Spec) (config : Text) (v w : World) (a : Artifact)
      → get m root toolchain spec config v ≡ (w, ok (a, false))
      → (a.hash ≡ key_of m root toolchain spec config)
        × (a.config ≡ config_of m root toolchain spec config)
  get_miss spec config v w a h = elim (get-ok spec config v w a false h) [
    | inl (d, r, u, e, f) ↦ (cc, cc)
    | inr marked ↦ (marked.hash_key, marked.config_path)
  ]
