-- ===== src/Runner/Cluster/Reports.antt =====
-- What Status reports.
use mathlib.Core.Path.{ap₂}
use klab.Prelude.{◌≡◌, ◌⊎◌, inl, inr, refl, List, [], ◌∷◌, true, false, All, Bool-cases}
use klab.Text.{Text}
use klab.Exec.{Ran, succeeded}
use klab.Topology.{Topology, Instance, expand}
use klab.Topology.Names.{names_of}
use klab.Runner.Cluster.{Lab, NodeStatus, pinged, node_status, statuses, status}

-- A node that answers is one whose machine runs.
abbrev pub IsConsistent : NodeStatus → Type 0
IsConsistent s = (s.reachable ≡ false) ⊎ (s.running ≡ true)

abbrev pub reported : List NodeStatus → List Text
reported [] = []
reported (s ∷ ss) = s.name ∷ reported ss

module _ {World : Type 0} (lab : Lab World) where
  abbrev Reports : Text → NodeStatus → Type 0
  Reports name s = (s.name ≡ name) × IsConsistent s

  pinged-Reports : (name : Text) (o : World × Ran) → Reports name (pinged lab name o).1
  unfolding pinged
  pinged-Reports name (w, r) = elim (Bool-cases (succeeded r)) [
    | inl e ↦ rw e (refl, inr refl)
    | inr n ↦ rw n (refl, inl refl)
  ]

  statuses_lem :
      (is : List Instance) (w : World)
      → (reported (statuses lab is w).1 ≡ names_of is) × All IsConsistent (statuses lab is w).1
  unfolding statuses node_status
  statuses_lem [] w = (refl, tt)
  statuses_lem (i ∷ is) w =
      let (same, consistent) = pinged-Reports i.name _ in
      let (names, all) = statuses_lem is _ in (ap₂ (λ n ns. n ∷ ns) same names, (consistent, all))

  -- Status reports every instance of the topology once, in the order of the expansion, and none as
  -- reachable whose machine does not run.
  pub status_lem :
      (t : Topology) (w : World)
      → (reported (status lab t w).1 ≡ names_of (expand t)) × All IsConsistent (status lab t w).1
  unfolding status
  status_lem t w = statuses_lem (expand t) w
