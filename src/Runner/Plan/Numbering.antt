-- ===== src/Runner/Plan/Numbering.antt =====
-- The loops of `Plan` against a plain description: for each link, in order, one tap for each
-- instance of its members, in order; the taps of all links are numbered through from 1.
use klab.Prelude.{
  ℕ, suc, ◌+◌, ◌≡◌, refl, sym, ap, ◌∙◌, List, [], ◌∷◌, ◌++◌, append_assoc, append-nil, Option, none,
  Result, ok, ◌>>=◌, arith, length, length-append, All, if◌then◌else◌,
}
use klab.Text.{Text, is_empty}
use klab.Net.Cidr.{Cidr, parse_cidr}
use klab.Topology.{Link, Topology, Instance, expand}
use klab.Runner.Plan.{
  Bridge, Tap, NetPlan, PlanError, Taps, PlanState, bridge_name, tap_name, mac_for, tap_ip,
  member_names, link_net, add_taps, add_link, add_links, plan,
}

-- The tap with number `seq` for the instance at place `i` of a link.
abbrev pub tap_at : Text → Option Cidr → ℕ → ℕ → Text → Tap
tap_at br net i seq name = record {
  name = tap_name seq;
  bridge = br;
  node = name;
  mac = mac_for seq;
  ip = tap_ip net i;
}

-- The taps of one link, behind the first `seq` of the plan.
abbrev pub link_taps : Text → Option Cidr → ℕ → ℕ → List Text → List Tap
link_taps br net i seq [] = []
link_taps br net i seq (name ∷ names) =
    tap_at br net i (suc seq) name ∷ link_taps br net (suc i) (suc seq) names

-- The network of a subnet that parses, and none of an empty one.
abbrev pub net_of : Text → Option Cidr
net_of s = if is_empty s then none else parse_cidr s

abbrev pub Parses : Link → Type 0
Parses l = link_net l ≡ ok (net_of l.subnet)

abbrev pub wanted_bridges : List Link → List Bridge
wanted_bridges [] = []
wanted_bridges (l ∷ ls) =
    record { name = bridge_name l.name; link = l.name; subnet = l.subnet } ∷ wanted_bridges ls

abbrev pub wanted_taps : List Instance → ℕ → List Link → List Tap
wanted_taps is seq [] = []
wanted_taps is seq (l ∷ ls) =
    link_taps (bridge_name l.name) (net_of l.subnet) 0 seq (member_names is l.members)
    ++ wanted_taps is (seq + length (member_names is l.members)) ls

taps_eq : (m n : ℕ) (ts us : List Tap) → m ≡ n → ts ≡ us → ◌≡◌ {A = Taps} (m, ts) (n, us)
taps_eq m n ts us e h = cc

add_taps-link_taps :
    (br : Text) (net : Option Cidr) (i : ℕ) (names : List Text) (seq : ℕ) (taps : List Tap)
    → add_taps br net i names (seq, taps)
      ≡ (seq + length names, taps ++ link_taps br net i seq names)
unfolding add_taps
add_taps-link_taps br net i [] seq taps = taps_eq _ _ _ _ (omega arith) (sym (append-nil taps))
add_taps-link_taps br net i (name ∷ names) seq taps =
    add_taps-link_taps br net (suc i) names (suc seq) (taps ++ tap_at br net i (suc seq) name ∷ [])
    ∙ taps_eq _ _ _ _ (omega arith) (append_assoc taps _ _)

-- The state behind the links `ls`.
abbrev after : List Instance → PlanState → List Link → PlanState
after is (seq, np) ls = (
  seq + length (wanted_taps is seq ls),
  record { bridges = np.bridges ++ wanted_bridges ls; taps = np.taps ++ wanted_taps is seq ls },
)

state_eq :
    (m n : ℕ) (bs cs : List Bridge) (ts us : List Tap)
    → m ≡ n
    → bs ≡ cs
    → ts ≡ us
    → ◌≡◌ {A = Result PlanError PlanState}
        (ok (m, record { bridges = bs; taps = ts }))
        (ok (n, record { bridges = cs; taps = us }))
state_eq m n bs cs ts us e f g = cc

length-link_taps :
    (br : Text) (net : Option Cidr) (i seq : ℕ) (names : List Text)
    → length (link_taps br net i seq names) ≡ length names
length-link_taps br net i seq [] = refl
length-link_taps br net i seq (name ∷ names) =
    ap suc (length-link_taps br net (suc i) (suc seq) names)

-- The state behind one link.
abbrev after_link : List Instance → PlanState → Link → PlanState
after_link is (seq, np) l = (
  seq + length (member_names is l.members),
  record {
    bridges =
        np.bridges ++ (record { name = bridge_name l.name; link = l.name; subnet = l.subnet }) ∷ [];
    taps =
        np.taps
        ++ link_taps (bridge_name l.name) (net_of l.subnet) 0 seq (member_names is l.members);
  },
)

add_link-after :
    (is : List Instance) (l : Link) (s : PlanState)
    → Parses l
    → add_link is l s ≡ ok (after_link is s l)
unfolding add_link
add_link-after is l (seq, np) h = rw (h, add_taps-link_taps)

add_links_cons :
    (is : List Instance) (l : Link) (ls : List Link) (s : PlanState)
    → add_links is (l ∷ ls) s ≡ (add_link is l s >>= λ s'. add_links is ls s')
unfolding add_links
add_links_cons is l ls s = refl

after_link-after :
    (is : List Instance) (l : Link) (ls : List Link) (s : PlanState)
    → ◌≡◌ {A = Result PlanError PlanState}
        (ok (after is (after_link is s l) ls))
        (ok (after is s (l ∷ ls)))
after_link-after is l ls (seq, np) =
    let names = member_names is l.members in
    let ts = link_taps (bridge_name l.name) (net_of l.subnet) 0 seq names in
    state_eq _ _ _ _ _ _
      (omega (
        arith,
        length-append ts (wanted_taps is (seq + length names) ls),
        length-link_taps (bridge_name l.name) (net_of l.subnet) 0 seq names,
      ))
      (append_assoc np.bridges _ (wanted_bridges ls))
      (append_assoc np.taps ts (wanted_taps is (seq + length names) ls))

add_links-after :
    (is : List Instance) (ls : List Link) (s : PlanState)
    → All Parses ls
    → add_links is ls s ≡ ok (after is s ls)
add_links-after is [] (seq, np) h =
    unfold add_links in
    state_eq _ _ _ _ _ _ (omega arith) (sym (append-nil np.bridges)) (sym (append-nil np.taps))
add_links-after is (l ∷ ls) s (hl, h) =
    add_links_cons is l ls s
    ∙ ap (λ r. r >>= λ s'. add_links is ls s') (add_link-after is l s hl)
    ∙ add_links-after is ls (after_link is s l) h
    ∙ after_link-after is l ls s

plan_step :
    (t : Topology)
    → plan t ≡ (
        add_links (expand t) t.links (0, record { bridges = []; taps = [] }) >>= λ (s : PlanState).
        ok s.1)
plan_step t = unfold plan in refl

-- The plan that a topology asks for.
abbrev pub wanted_plan : Topology → NetPlan
wanted_plan t = record { bridges = wanted_bridges t.links; taps = wanted_taps (expand t) 0 t.links }

-- If the subnets of all links parse, the plan has one bridge for each link and, link by link, one
-- tap for each instance of the link's members, numbered through from 1.
pub plan_lem : (t : Topology) → All Parses t.links → plan t ≡ ok (wanted_plan t)
plan_lem t h =
    plan_step t
    ∙ ap (λ r. r >>= λ (s : PlanState). ok s.1)
        (add_links-after (expand t) t.links (0, record { bridges = []; taps = [] }) h)
