-- ===== src/Tests/Names.antt =====
-- The names of instances and their run directories.
use klab.Prelude.{◌≡◌, ◌≢◌, refl, ℕ, arith, [], ◌∷◌, map, ok, All, All-append_right, Distinct}
use mathlib.Core.Path.{subst}
use klab.Text.{Text, str, is_empty, text_eq, join}
use klab.Text.Decimal.{itoa_ℕ}
use klab.Text.Path.{
  path_join, clean, not_empty, is_rooted, keep_components, keep_component, step_up,
}
use klab.Text.Path.Last.{IsName, All-IsName}
use klab.Text.Split.{split, push, Lacks}
use klab.Topology.{Topology, numbered_name, node_at, lookup_node, keys, expand, validate, contains}
use klab.Topology.Names.{names_of, IsApart}
use klab.Runner.Cluster.{run_dir}
use klab.Runner.Cluster.Handles.{expand-run_dir-Distinct}
use klab.Tests.Topologies.{cluster, head, lab, keys-Distinct}

letters : All IsName (keys cluster.nodes)
unfolding is_empty str
letters = (
  All-IsName (str "worker") refl (ground arith),
  (All-IsName (str "head") refl (ground arith), tt),
)

no_dash : (k j : Text) (i : ℕ) → Lacks b'-' k → k ≢ numbered_name j i
unfolding numbered_name
no_dash k j i h e =
    let (n, rest) = All-append_right _ j (b'-' ∷ itoa_ℕ i) (subst (Lacks b'-') e h) in n refl

apart : All (IsApart (node_at cluster.nodes)) (keys cluster.nodes)
unfolding str
apart = (
  λ bare j i. no_dash (str "worker") j i (ground arith),
  (λ bare j i. no_dash (str "head") j i (ground arith), tt),
)

expand-run_dir-Distinct_example : Distinct (map (run_dir lab) (names_of (expand cluster)))
expand-run_dir-Distinct_example = expand-run_dir-Distinct lab cluster keys-Distinct letters apart

-- A node named "..": accepted, and its run directory is the parent of all of them.
abbrev upward : Topology
upward = record cluster { nodes = (str "..", head) ∷ []; links = [] }

upward_accepted : validate upward ≡ ok tt
unfolding validate is_empty str contains lookup_node text_eq
upward_accepted = refl

upward_escapes : map (run_dir lab) (names_of (expand upward)) ≡ str "/home/klab/.cache/klab" ∷ []
unfolding expand str text_eq lookup_node run_dir path_join clean not_empty is_rooted keep_components
    keep_component step_up split push join is_empty klab.Text.Order.sort
upward_escapes = refl
