-- ===== src/Runner/Plan/Success.antt =====
-- On a valid topology the plan succeeds, and its taps have different names and MAC addresses.
use klab.Prelude.{
  ℕ, suc, ◌+◌, ◌^◌, ◌≤◌, ◌<◌, ◌≡◌, ◌≢◌, refl, sym, ◌∙◌, List, [], ◌∷◌, ◌++◌, inl, inr, Option, none,
  Result, ok, arith, length, All, if◌then◌else◌,
}
use mathlib.Core.Path.{subst}
use klab.Text.{Text, is_empty}
use klab.Net.Cidr.{Cidr, parse_cidr}
use klab.Topology.{Node, Link, Topology, Instance, expand}
use klab.Topology.Validate.{IsValid, LinkIsValid, SubnetIsValid}
use klab.Runner.Plan.{
  Tap, NetPlan, tap_name, mac_for, link_net, parsed_subnet, PlanError, member_names, bridge_name,
  plan,
}
use klab.Runner.Plan.Names.{tap_name-injective, mac_for-injective, length-tap_name}
use klab.Runner.Plan.Numbering.{Parses, net_of, link_taps, wanted_taps, wanted_plan, plan_lem}

text-Parses :
    (l s : Text)
    → SubnetIsValid s
    → ◌≡◌ {A = Result PlanError (Option Cidr)}
        (if is_empty s then ok none else parsed_subnet l s (parse_cidr s))
        (ok (net_of s))
unfolding is_empty parsed_subnet
text-Parses l [] v = refl
text-Parses l (c ∷ s) (inl e) = cc
text-Parses l (c ∷ s) (inr (r, e)) = rw e

valid-Parses : (l : Link) → SubnetIsValid l.subnet → Parses l
unfolding link_net
valid-Parses l v = text-Parses l.name l.subnet v

-- The taps are numbered through behind the first `seq`.
abbrev NumberedFrom : ℕ → List Tap → Type 0
NumberedFrom seq [] = Unit
NumberedFrom seq (t ∷ ts) =
    (t.name ≡ tap_name (suc seq)) × (t.mac ≡ mac_for (suc seq)) × NumberedFrom (suc seq) ts

link_taps-NumberedFrom :
    (br : Text) (net : Option Cidr) (i : ℕ) (names : List Text) (seq : ℕ) (rest : List Tap)
    → NumberedFrom (seq + length names) rest
    → NumberedFrom seq (link_taps br net i seq names ++ rest)
link_taps-NumberedFrom br net i [] seq rest h = subst (λ n. NumberedFrom n rest) (omega arith) h
link_taps-NumberedFrom br net i (name ∷ names) seq rest h = (
  refl,
  refl,
  link_taps-NumberedFrom br net (suc i) names (suc seq) rest
      (subst (λ n. NumberedFrom n rest) (omega arith) h),
)

wanted_taps-NumberedFrom :
    (is : List Instance) (ls : List Link) (seq : ℕ) → NumberedFrom seq (wanted_taps is seq ls)
wanted_taps-NumberedFrom is [] seq = tt
wanted_taps-NumberedFrom is (l ∷ ls) seq =
    let names = member_names is l.members in
    link_taps-NumberedFrom (bridge_name l.name) (net_of l.subnet) 0 names seq _
      (wanted_taps-NumberedFrom is ls (seq + length names))

-- Two taps that do not share a name or a MAC.
abbrev pub Differ : Tap → Tap → Type 0
Differ t u = (t.name ≢ u.name) × (t.mac ≢ u.mac)

abbrev pub AllDiffer : List Tap → Type 0
AllDiffer [] = Unit
AllDiffer (t ∷ ts) = All (Differ t) ts × AllDiffer ts

apart :
    (t : Tap) (n seq : ℕ) (ts : List Tap)
    → t.name ≡ tap_name n
    → t.mac ≡ mac_for n
    → n ≤ seq
    → seq + length ts < 2 ^ 24
    → NumberedFrom seq ts
    → All (Differ t) ts
apart t n seq [] e f h b k = tt
apart t n seq (u ∷ us) e f h b (eu, fu, k) = (
  (
    λ p. absurd (omega (arith, tap_name-injective n (suc seq) (sym e ∙ p ∙ eu))),
    λ p.
        absurd (
          omega
            (arith, mac_for-injective n (suc seq) (omega arith) (omega arith) (sym f ∙ p ∙ fu))),
  ),
  apart t n (suc seq) us e f (omega arith) (omega arith) k,
)

NumberedFrom-AllDiffer :
    (seq : ℕ) (ts : List Tap) → seq + length ts < 2 ^ 24 → NumberedFrom seq ts → AllDiffer ts
NumberedFrom-AllDiffer seq [] b k = tt
NumberedFrom-AllDiffer seq (t ∷ ts) b (e, f, k) = (
  apart t (suc seq) (suc seq) ts e f (omega arith) (omega arith) k,
  NumberedFrom-AllDiffer (suc seq) ts (omega arith) k,
)

NumberedFrom-length :
    (seq : ℕ) (ts : List Tap)
    → seq + length ts < 10 ^ 8
    → NumberedFrom seq ts
    → All (λ (t : Tap). length t.name ≤ 15) ts
NumberedFrom-length seq [] b k = tt
NumberedFrom-length seq (t ∷ ts) b (e, f, k) = (
  rw e (length-tap_name (suc seq) (omega arith)),
  NumberedFrom-length (suc seq) ts (omega arith) k,
)

All-Parses :
    (nodes : List (Text × Node)) (ls : List Link) → All (LinkIsValid nodes) ls → All Parses ls
All-Parses nodes [] h = tt
All-Parses nodes (l ∷ ls) (hl, h) = (valid-Parses l hl.3, All-Parses nodes ls h)

-- `Plan` succeeds on every topology that `Validate` accepts, and returns the plan that the
-- topology asks for.
pub plan-IsValid : (t : Topology) → IsValid t → plan t ≡ ok (wanted_plan t)
plan-IsValid t v = plan_lem t (All-Parses t.nodes t.links v.links_valid)

-- In the plan of a valid topology with fewer than 2^24 taps, no two taps share a name or a MAC
-- address, and every tap's name fits into an interface name.
pub plan-taps_differ :
    (t : Topology)
    → IsValid t
    → (np : NetPlan) → plan t ≡ ok np
    → length np.taps < 2 ^ 24
    → AllDiffer np.taps × All (λ (u : Tap). length u.name ≤ 15) np.taps
plan-taps_differ t v np e b =
    let q : wanted_plan t ≡ np = cc (sym (plan-IsValid t v) ∙ e) in
    let ts = wanted_taps (expand t) 0 t.links in
    let short : length ts < 2 ^ 24 = subst (λ (p : NetPlan). length p.taps < 2 ^ 24) (sym q) b in
    let k = wanted_taps-NumberedFrom (expand t) t.links 0 in
    subst (λ (p : NetPlan). AllDiffer p.taps × All (λ (u : Tap). length u.name ≤ 15) p.taps) q
      (NumberedFrom-AllDiffer 0 ts (omega arith) k, NumberedFrom-length 0 ts (omega arith) k)
