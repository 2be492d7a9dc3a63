-- ===== src/Runner/Plan/Order.antt =====
-- The plan does not depend on the order in which Go visits the map of nodes.
use mathlib.Core.Path.{ap₂}
use mathlib.Core.List.{Permᴰ}
use klab.Prelude.{◌≡◌, refl, sym, ◌∙◌, List, [], ok, Result, ◌>>=◌, Distinct}
use klab.Topology.{Topology, Link, Instance, keys, expand}
use klab.Topology.Order.{expand-Perm}
use klab.Runner.Plan.{NetPlan, PlanError, PlanState, add_links, plan}

plan_of : List Instance → List Link → Result PlanError NetPlan
plan_of is ls =
    add_links is ls (0, record { bridges = []; taps = [] }) >>= λ (s : PlanState). ok s.1

plan_step : (t : Topology) → plan t ≡ plan_of (expand t) t.links
unfolding plan plan_of
plan_step t = refl

pub plan-Perm :
    (t u : Topology)
    → Permᴰ t.nodes u.nodes
    → Distinct (keys t.nodes)
    → t.links ≡ u.links
    → plan t ≡ plan u
plan-Perm t u p d links =
    plan_step t ∙ (ap₂ plan_of (expand-Perm t u p d) links ∙ sym (plan_step u))
