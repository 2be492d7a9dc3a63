-- ===== src/Runner/Cluster/Leaks.antt =====
-- `Down` undoes `Up`: no device and no machine is left behind.
use mathlib.Core.Path.{subst}
use klab.Prelude.{
  ◌≡◌, ◌≢◌, inl, inr, refl, sym, ap, List, [], ◌∷◌, ◌++◌, map, some, All, All-append, All-imp,
  All-map,
}
use klab.Text.{Text}
use klab.Topology.{Link, Topology, Instance, expand}
use klab.Topology.Validate.{IsValid}
use klab.Runner.Plan.{Bridge, Tap, NetPlan}
use klab.Runner.Plan.Numbering.{wanted_plan}
use klab.Runner.Plan.Success.{plan-IsValid}
use klab.Runner.Plan.Words.{IsWord, Worded, wanted_plan-Worded}
use klab.Runner.Cluster.{Lab, run_dir, up_plan, up, stop_all, delete_devices, device_names, down}
use klab.Runner.Cluster.Booted.{down-IsValid}
use klab.Runner.Cluster.Tidy.{Among, Within, Within-refl, Within-trans, IsTidy}
use klab.Runner.Cluster.Tidy.Grown.{up_plan-Keeps}

Among-later : (xs ys : List Text) (x : Text) → Among x ys → Among x (xs ++ ys)
Among-later [] ys x m = m
Among-later (z ∷ xs) ys x m = inr (Among-later xs ys x m)

Among-first : (xs ys : List Text) (x : Text) → Among x xs → Among x (xs ++ ys)
Among-first [] ys x m = absurd m
Among-first (z ∷ xs) ys x (inl e) = inl e
Among-first (z ∷ xs) ys x (inr m) = inr (Among-first xs ys x m)

Among-map : {A : Type 0} (f : A → Text) (xs : List A) → All (λ x. Among (f x) (map f xs)) xs
Among-map f [] = tt
Among-map f (x ∷ xs) = (inl refl, All-imp xs (λ y m. inr m) (Among-map f xs))

not-Among : (x : Text) (xs : List Text) → All (λ y. y ≢ x) xs → Among x xs → ⊥
not-Among x [] h m = m
not-Among x (y ∷ xs) (n, h) (inl e) = n e
not-Among x (y ∷ xs) (n, h) (inr m) = not-Among x xs h m

bridge_label : Bridge → Text
bridge_label b = b.name

tap_label : Tap → Text
tap_label t = t.name

device_names_lem :
    (ts : List Tap) (bs : List Bridge)
    → device_names ts bs ≡ map tap_label ts ++ map bridge_label bs
unfolding device_names tap_label bridge_label
device_names_lem [] [] = refl
device_names_lem [] (b ∷ bs) = ap (λ ns. b.name ∷ ns) (device_names_lem [] bs)
device_names_lem (t ∷ ts) bs = ap (λ ns. t.name ∷ ns) (device_names_lem ts bs)

module _ {World : Type 0} (Device Guest : Text → World → Type 0) (lab : Lab World) (t : Topology)
    (tidy : IsTidy Device Guest lab t) where
  handle_of : Instance → Text
  handle_of i = run_dir lab i.name

  -- What is left after the machines of some instances are stopped.
  record Stopped (is : List Instance) (v w : World) : Type 0 where
    stopped_within : Within Device Guest [] [] v w
    stopped_guests : (g : Text) → Guest g w → All (λ i. handle_of i ≢ g) is

  Guest-back : {v w : World} → Within Device Guest [] [] v w → (g : Text) → Guest g w → Guest g v
  Guest-back p g h = elim (p.guests g h) [ inl m ↦ absurd m | inr k ↦ k ]

  Device-back : {v w : World} → Within Device Guest [] [] v w → (d : Text) → Device d w → Device d v
  Device-back p d h = elim (p.devices d h) [ inl m ↦ absurd m | inr k ↦ k ]

  stop_all-Stopped : (is : List Instance) (w : World) → Stopped is w (stop_all lab is w)
  unfolding stop_all handle_of
  stop_all-Stopped [] w = record {
    stopped_within = Within-refl Device Guest w;
    stopped_guests = λ g h. tt;
  }
  stop_all-Stopped (i ∷ is) w =
      let rest = stop_all-Stopped is (lab.stop (run_dir lab i.name) w).0 in
      let (within, ended) = tidy.machine_stopped (run_dir lab i.name) w in
      record {
        stopped_within = Within-trans Device Guest within rest.stopped_within;
        stopped_guests =
            λ g h. (ended g (Guest-back rest.stopped_within g h), rest.stopped_guests g h);
      }

  -- What is left after some devices are deleted.
  record Deleted (names : List Text) (v w : World) : Type 0 where
    deleted_within : Within Device Guest [] [] v w
    deleted_devices : (d : Text) → Device d w → All (λ n. n ≢ d) names

  delete_devices-Deleted :
      (names : List Text) (w : World)
      → names ≡ device_names (wanted_plan t).taps (wanted_plan t).bridges
      → All IsWord names
      → Deleted names w (delete_devices lab names w)
  unfolding delete_devices
  delete_devices-Deleted [] w same words = record {
    deleted_within = Within-refl Device Guest w;
    deleted_devices = λ d h. tt;
  }
  delete_devices-Deleted (n ∷ ns) w same words =
      let (within, gone) = tidy.devices_gone (n ∷ ns) w same words in
      record { deleted_within = within; deleted_devices = gone }

  handles : List Text
  handles = map handle_of (expand t)

  names_words : (np : NetPlan) → Worded np → All IsWord (device_names np.taps np.bridges)
  unfolding bridge_label tap_label
  names_words np worded = subst (All IsWord) (sym (device_names_lem np.taps np.bridges)) (
      All-append IsWord (map tap_label np.taps) (map bridge_label np.bridges)
        (All-map IsWord tap_label np.taps (All-imp np.taps (λ p (h, b). h) worded.taps_worded))
        (All-map IsWord bridge_label np.bridges worded.bridges_worded))

  names_of_bridges :
      (np : NetPlan)
      → All (λ (b : Bridge). Among b.name (device_names np.taps np.bridges)) np.bridges
  unfolding bridge_label
  names_of_bridges np =
      All-imp np.bridges
        (λ b m.
          subst (Among b.name) (sym (device_names_lem np.taps np.bridges))
            (Among-later (map tap_label np.taps) (map bridge_label np.bridges) b.name m))
        (Among-map bridge_label np.bridges)

  names_of_taps :
      (np : NetPlan) → All (λ (t : Tap). Among t.name (device_names np.taps np.bridges)) np.taps
  unfolding tap_label
  names_of_taps np =
      All-imp np.taps
        (λ t m.
          subst (Among t.name) (sym (device_names_lem np.taps np.bridges))
            (Among-first (map tap_label np.taps) (map bridge_label np.bridges) t.name m))
        (Among-map tap_label np.taps)

  both :
      {A : Type 0} (P Q : A → Type 0) (xs : List A) → All P xs → All Q xs → All (λ x. P x × Q x) xs
  both P Q [] p q = tt
  both P Q (x ∷ xs) (px, p) (qx, q) = ((px, qx), both P Q xs p q)

  up-Within :
      (w : World)
      → IsValid t
      → Worded (wanted_plan t)
      → All (λ (i : Instance). IsWord i.name) (expand t)
      → Within Device Guest
          (device_names (wanted_plan t).taps (wanted_plan t).bridges)
          handles
          w
          (up lab t w).0
  unfolding up handles handle_of
  up-Within w valid worded named =
      let names = device_names (wanted_plan t).taps (wanted_plan t).bridges in
      subst (λ r. Within Device Guest names handles w (up_plan lab t w r).0)
        (sym (plan-IsValid t valid))
        (up_plan-Keeps Device Guest lab t tidy names handles w t (wanted_plan t) worded
          (names_of_bridges (wanted_plan t)) (names_of_taps (wanted_plan t))
          (both _ _ (expand t) named (Among-map handle_of (expand t))))

  -- On a machine whose scripts, put together of words of the shell, make at most what they name, and
  -- whose teardown commands work: take a valid topology whose links and instances are named by words
  -- of the shell, that is by letters, digits, "-", "." and "_". Wherever `Up` stopped, whether it
  -- succeeded or failed half-way, `Down` does not panic, and after it each device was there before
  -- `Up`, and each machine that runs ran before `Up`.
  pub down-up :
      (w : World)
      → IsValid t
      → All (λ (l : Link). IsWord l.name) t.links
      → All (λ (i : Instance). IsWord i.name) (expand t)
      → (u : World) × (down lab t (up lab t w).0 ≡ some u)
        × ((d : Text) → Device d u → Device d w)
        × ((g : Text) → Guest g u → Guest g w)
  unfolding handles handle_of
  down-up w valid words named =
      let v = (up lab t w).0 in
      let worded = wanted_plan-Worded t words in
      let names = device_names (wanted_plan t).taps (wanted_plan t).bridges in
      let came = up-Within w valid worded named in
      let stopped = stop_all-Stopped (expand t) v in
      let deleted =
        delete_devices-Deleted names (stop_all lab (expand t) v) refl
          (names_words (wanted_plan t) worded) in
      (
        delete_devices lab names (stop_all lab (expand t) v),
        (down-IsValid lab t v valid).1,
        λ d h.
            elim (came.devices d
              (Device-back stopped.stopped_within d (Device-back deleted.deleted_within d h))) [
                | inl m ↦ absurd (not-Among d names (deleted.deleted_devices d h) m)
                | inr before ↦ before
              ],
        λ g h.
            let k = Guest-back deleted.deleted_within g h in
            elim (came.guests g (Guest-back stopped.stopped_within g k)) [
              | inl m ↦ absurd (
                  not-Among g handles (All-map _ handle_of (expand t) (stopped.stopped_guests g k))
                    m)
              | inr before ↦ before
            ],
      )
