-- ===== src/Tests/Teardowns.antt =====
-- A machine that keeps the names of its devices and the handles of its guests, and what is left on
-- it after `Up` and `Down`.
use klab.Prelude.{
  ◌≡◌, ◌≢◌, ◌⊎◌, inl, inr, refl, sym, ap, ◌∙◌, arith, true, false, List, [], ◌∷◌, ◌++◌, Option,
  none, some, if◌then◌else◌, All, All-imp, Bool-cases, length,
}
use mathlib.Core.Path.{subst}
use klab.Text.{Text, str, text_eq, text_eq_refl, text_eq_iff, strip_prefix, strip_prefix-append}
use klab.Text.Path.{path_dir}
use klab.Text.Split.{cut, cut-append, Lacks}
use klab.Text.Order.{sort, text_leb}
use klab.Text.Decimal.{itoa_ℕ}
use klab.Topology.{Instance, expand, lookup_node, numbered_name}
use klab.Driver.{BootSpec}
use klab.Qemu.{capabilities}
use klab.Runner.Plan.Words.{IsWord}
use klab.Runner.Cluster.Scripts.{
  create_bridge_script, create_tap_script, prep_rootfs_script, delete_script,
}
use klab.Runner.Cluster.{Lab, up, down, sudo_bash}
use klab.Runner.Cluster.Tidy.{Among, Within, Within-refl, IsTidy}
use klab.Runner.Cluster.Leaks.{down-up}
use klab.Runner.Cluster.Trace.{logged, up_asks, down_asks, Follows}
use klab.Runner.Cluster.Trace.Ordered.{up-Follows, down-logged}
use klab.Runner.Plan.Numbering.{wanted_plan}
use klab.Tests.Topologies.{cluster, cluster-IsValid, quiet, done}

record Host : Type 0 where
  devices : List Text
  guests : List Text

word_of : Text → List Text
word_of s = elim (cut b' ' s) [ none ↦ [] | some (n, rest) ↦ n ∷ [] ]

-- The devices that a script makes, by its first words; `none` for the script that deletes.
made_by : Text → Option (List Text)
made_by s = elim (strip_prefix (str "for l in ") s) [
  | some names ↦ none
  | none ↦ elim (strip_prefix (str "ip link del ") s) [
    | some rest ↦ some (word_of rest)
    | none ↦ elim (strip_prefix (str "ip tuntap add ") s) [
      | some rest ↦ some (word_of rest)
      | none ↦ some []
    ]
  ]
]

script_of : List Text → Text
script_of (sudo ∷ bash ∷ c ∷ script ∷ []) = script
script_of argv = []

after_script : Host → Option (List Text) → Host
after_script w none = record w { devices = [] }
after_script w (some names) = record w { devices = names ++ w.devices }

without : Text → List Text → List Text
without h [] = []
without h (g ∷ gs) = let rest = without h gs in if text_eq h g then rest else g ∷ rest

abbrev host_lab : Lab Host
host_lab = record {
  home = str "/home/klab";
  base = str "/rootfs";
  capabilities = capabilities;
  run = λ argv w.
      (after_script w (made_by (script_of argv)), record { result = quiet; failed = false });
  image = λ kernel w. (w, some (str "/cache/Image"));
  boot = λ spec w. (record w { guests = path_dir spec.rootfs_rw ∷ w.guests }, true);
  exec = λ allowed node argv w. (w, some done);
  stop = λ node w. (record w { guests = without node w.guests }, true);
}

abbrev Device : Text → Host → Type 0
Device d w = Among d w.devices

abbrev Guest : Text → Host → Type 0
Guest g w = Among g w.guests

word_lacks : (n : Text) → IsWord n → Lacks b' ' n
word_lacks n h = All-imp n (λ c p. ground arith) h

word_of_word : (n s : Text) → IsWord n → word_of (n ++ b' ' ∷ s) ≡ n ∷ []
unfolding word_of
word_of_word n s h = rw (cut-append b' ' n s (word_lacks n h), word_of) refl

bridge_makes : (n : Text) → IsWord n → made_by (create_bridge_script n) ≡ some (n ∷ [])
unfolding made_by create_bridge_script strip_prefix str
bridge_makes n h = ap some (word_of_word n _ h)

tap_makes : (n br : Text) → IsWord n → made_by (create_tap_script n br) ≡ some (n ∷ [])
unfolding made_by create_tap_script strip_prefix str
tap_makes n br h = ap some (word_of_word n _ h)

rootfs_makes : (base run : Text) → made_by (prep_rootfs_script base run) ≡ some []
unfolding made_by prep_rootfs_script strip_prefix str
rootfs_makes base run = refl

delete_makes : (names : List Text) → made_by (delete_script names) ≡ none
unfolding made_by delete_script strip_prefix str
delete_makes names = refl

ran_script :
    (script : Text) (w : Host) → (sudo_bash host_lab script w).0 ≡ after_script w (made_by script)
unfolding sudo_bash script_of
ran_script script w = refl

Among-split : (xs ys : List Text) (x : Text) → Among x (xs ++ ys) → Among x xs ⊎ Among x ys
Among-split [] ys x m = inr m
Among-split (z ∷ xs) ys x (inl e) = inl (inl e)
Among-split (z ∷ xs) ys x (inr m) = elim (Among-split xs ys x m) [
  | inl k ↦ inl (inr k)
  | inr k ↦ inr k
]

made_within : (ds : List Text) (w : Host) → Within Device Guest ds [] w (after_script w (some ds))
unfolding after_script
made_within ds w = record { devices = λ d m. Among-split ds w.devices d m; guests = λ g m. inr m }

script_within :
    (script : Text) (ds : List Text) (w : Host)
    → made_by script ≡ some ds
    → Within Device Guest ds [] w (sudo_bash host_lab script w).0
script_within script ds w h =
    subst (Within Device Guest ds [] w) (sym (ran_script script w ∙ ap (after_script w) h))
      (made_within ds w)

abbrev Cleared : List Text → Host → Host → Type 0
Cleared names w v =
    Within Device Guest [] [] w v × ((d : Text) → Device d v → All (λ n. n ≢ d) names)

deleted : (names : List Text) (w : Host) → Cleared names w (after_script w none)
unfolding after_script
deleted names w = (record { devices = λ d m. absurd m; guests = λ g m. inr m }, λ d m. absurd m)

other : (h g : Text) → text_eq h g ≡ false → h ≢ g
other h g n e = ground (arith, (text_eq_iff h g).1 e)

without-lacks :
    (h : Text) (gs : List Text) (g : Text) → Among g (without h gs) → (h ≢ g) × Among g gs
unfolding without
without-lacks h [] g m = absurd m
without-lacks h (k ∷ gs) g m = elim (Bool-cases (text_eq h k)) [
  | inl e ↦
      let (n, rest) =
        without-lacks h gs g
          (subst (λ b. Among g (if b then without h gs else k ∷ without h gs)) e m) in
      (n, inr rest)
  | inr n ↦ elim (subst (λ b. Among g (if b then without h gs else k ∷ without h gs)) n m) [
    | inl e ↦ (λ p. other h k n (p ∙ sym e), inl e)
    | inr rest ↦ let (o, among) = without-lacks h gs g rest in (o, inr among)
  ]
]

host_lab-IsTidy : IsTidy Device Guest host_lab cluster
host_lab-IsTidy = record {
  bridge_made = λ n w h. script_within _ _ w (bridge_makes n h);
  tap_made = λ n br w h b. script_within _ _ w (tap_makes n br h);
  rootfs_made = λ name w h. script_within _ _ w (rootfs_makes _ _);
  image_found = λ kernel w. Within-refl Device Guest w;
  machine_made = λ spec w. record {
    devices = λ d m. inr m;
    guests = λ g m. elim m [ inl e ↦ inl (inl e) | inr k ↦ inr k ];
  };
  command_run = λ time handle argv w. Within-refl Device Guest w;
  machine_stopped = λ handle w. (
    record { devices = λ d m. inr m; guests = λ g m. inr (without-lacks handle w.guests g m).1 },
    λ g m. (without-lacks handle w.guests g m).0,
  );
  devices_gone = λ names w same h.
      subst (Cleared names w)
        (sym (ran_script (delete_script names) w ∙ ap (after_script w) (delete_makes names)))
        (deleted names w);
}

-- A device and a guest that were there before.
before : Host
before = record { devices = str "eth0" ∷ []; guests = str "/other" ∷ [] }

lan-IsWord : IsWord (str "lan")
unfolding str
lan-IsWord = (refl, (refl, (refl, tt)))

instances-IsWord : All (λ (i : Instance). IsWord i.name) (expand cluster)
unfolding expand sort text_leb str lookup_node text_eq numbered_name itoa_ℕ
instances-IsWord = (
  (refl, (refl, (refl, (refl, tt)))),
  (
    (refl, (refl, (refl, (refl, (refl, (refl, (refl, (refl, tt)))))))),
    ((refl, (refl, (refl, (refl, (refl, (refl, (refl, (refl, tt)))))))), tt),
  ),
)

down-up_example :
    (u : Host) × (down host_lab cluster (up host_lab cluster before).0 ≡ some u)
    × ((d : Text) → Device d u → Device d before)
    × ((g : Text) → Guest g u → Guest g before)
down-up_example =
    down-up Device Guest host_lab cluster host_lab-IsTidy before cluster-IsValid (lan-IsWord, tt)
      instances-IsWord

-- `Up` makes a bridge, three taps and three machines.
up_makes :
    (length (up host_lab cluster before).0.devices ≡ 5)
    × (length (up host_lab cluster before).0.guests ≡ 4)
unfolding before after_script made_by word_of script_of up klab.Runner.Cluster.up_plan
    klab.Runner.Cluster.and_then klab.Runner.Cluster.each klab.Runner.Cluster.create_bridge
    klab.Runner.Cluster.ran klab.Runner.Cluster.sudo_bash klab.Runner.Cluster.create_tap
    klab.Runner.Cluster.assign_ip klab.Runner.Cluster.assigned klab.Runner.Cluster.boot_image
    klab.Runner.Cluster.boot_instance klab.Runner.Cluster.boot_spec klab.Runner.Cluster.booted
    klab.Runner.Cluster.checked klab.Runner.Cluster.prep_rootfs klab.Runner.Plan.plan
    klab.Runner.Plan.link_net klab.Runner.Plan.member_names klab.Runner.Plan.by_base
    klab.Runner.Plan.add_to_ipv4 klab.Runner.Plan.bytes_of klab.Runner.Plan.tap_ip
    klab.Net.Cidr.network_address klab.Net.Cidr.to4 klab.Net.Cidr.parse_cidr
    klab.Net.Mask.mask_bytes klab.Net.Ipv4.ipv4_text klab.Net.Ipv4.parse_ipv4
    klab.Driver.can_run_arch capabilities klab.Runner.Resolve.check_caps
    klab.Runner.Resolve.parse_mem klab.Runner.Resolve.resolve_boot_spec klab.Text.is_empty str
    text_eq klab.Text.Decimal.read_nat klab.Text.Decimal.read_digits klab.Text.Decimal.atoi
    klab.Text.Decimal.itoa_ℕ klab.Text.Order.sort klab.Text.Order.insert klab.Text.Order.text_leb
    klab.Text.Split.split cut klab.Text.Split.push klab.Text.Space.trim_space klab.Topology.expand
    klab.Topology.lookup_node create_bridge_script create_tap_script prep_rootfs_script
    delete_script strip_prefix klab.Runner.Plan.tap_name klab.Runner.Plan.bridge_name
up_makes = (refl, refl)

up-Follows_example :
    Follows host_lab []
      (up_asks host_lab cluster (wanted_plan cluster))
      (up host_lab cluster before)
      (up (logged host_lab) cluster (before, []))
up-Follows_example = up-Follows host_lab cluster before [] cluster-IsValid

down-logged_example :
    (u : Host) × (down host_lab cluster before ≡ some u)
    × (down (logged host_lab) cluster (before, [])
        ≡ some (u, down_asks host_lab cluster (wanted_plan cluster)))
down-logged_example = down-logged host_lab cluster before [] cluster-IsValid
