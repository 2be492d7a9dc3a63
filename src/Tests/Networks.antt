-- ===== src/Tests/Networks.antt =====
-- The theorems on the names and addresses of a plan, and on the merged texts, at concrete inputs.
use klab.Prelude.{◌≡◌, refl, [], ◌∷◌, ◌++◌}
use klab.Text.{str}
use klab.Net.Cidr.{Cidr}
use klab.Runner.Plan.{bridge_name}
use klab.Runner.Plan.Names.{bridge_name_collision}

-- 10.10.0.0/30 and fd00::/64
abbrev small : Cidr
small = record { ip = 10 ∷ 10 ∷ 0 ∷ 0 ∷ []; ones = 30 }

abbrev unique_local : Cidr
unique_local = record {
  ip = 0xfd ∷ 0 ∷ 0 ∷ 0 ∷ 0 ∷ 0 ∷ 0 ∷ 0 ∷ 0 ∷ 0 ∷ 0 ∷ 0 ∷ 0 ∷ 0 ∷ 0 ∷ 0 ∷ [];
  ones = 64;
}

bridge_name_collision_example :
    bridge_name (str "datacenter" ++ str "-a") ≡ bridge_name (str "datacenter" ++ str "-b")
bridge_name_collision_example =
    bridge_name_collision (str "datacenter") (str "-a") (str "-b") (unfold str in refl)
