-- ===== src/Examples/Fleets.antt =====
-- A cluster of the fleet, two clusters to place on, and what is observed of them.
use mantlekeep.Prelude.{
  is_some, here, zero, ℕ, String, [], ◌∷◌, ◌≡◌, refl, ok, Option, some, none, Bool, true, false,
  ◌==◌, lookup, In, suc, not, All, map, ltb, insert, if◌then◌else◌, List,
}
use mantlekeep.Prelude.Decimal.{show_nat, digits_before}
use mantlekeep.Prelude.Text.{concat}
use mantlekeep.Prelude.Int.{negsuc, ℤ, pos, leb_int}
use mantlekeep.Contracts.{ExecutionToken, no_token}
use mantlekeep.Examples.Estate.{floor, topic}
use mantlekeep.Estate.Floor.{NodePoolLimits, gate_for, gate_none}
use mantlekeep.Estate.Footprint.{no_item, node_pool_limits, DesiredItem, PlacementDecision, Desired}
use mantlekeep.Estate.Ownership.{default_ownership}
use mantlekeep.Estate.Drift.{
  Drift, absent, desired_drifts, unexpected_drifts, sorted_drifts, place_drift, is_ungoverned,
  reconcile_from, no_outcome, diff_owned, is_correctable, index_from, minor_line,
}
use mantlekeep.Estate.Drift.Founded.{diff_owned-correctable}
use mantlekeep.Estate.Drift.Pass.{reconcile_from-filter_by, filter_by, all_applied, all_settled}
use mantlekeep.Estate.Placement.{
  legal_clusters, carries_all, labelled, place_among, stays_put, first_preferred, cluster_named,
  names_of_clusters, Cluster, Claim, legal_for, place_with,
}
use mantlekeep.Estate.Placement.Legality.{place_with-legal_for}
use mantlekeep.Estate.Placement.Preference.{stays_legal, place_with-stays_legal}
use mantlekeep.Estate.Fleet.{
  validate_fleet, validate_pools, resolve_pools, consequence_of, tier_for_fleet_operation,
  FleetManifest, NodePool, resolve_fleet, cluster_item, control_plane_item, pool_item,
  allows_version,
}
use mantlekeep.Estate.Fleet.Bounds.{resolve_fleet-IsWithin, IsWithin}
use mantlekeep.Estate.Fleet.Change.{filled_item, pool_named, FleetChange, as_change}
use mantlekeep.Estate.Fleet.Change.Gated.{as_change-scale, as_change-IsGated, IsGated}

abbrev duration_text : ℕ → String
duration_text n = "1h"

abbrev free_topic : DesiredItem
free_topic = record topic { gate = "none"; tier = "dev" }

abbrev missing : DesiredItem → Drift
missing want = record { kind = absent; desired = some want; observed = none; differences = [] }

-- The adapter answers the first call, and fails after it.
abbrev flaky : ExecutionToken → DesiredItem → ℕ → Option String × ℕ
flaky token item zero = (none, 1)
flaky token item (suc n) = (some "unreachable", suc (suc n))

abbrev drifts : List Drift
drifts = missing topic ∷ missing free_topic ∷ missing free_topic ∷ []

reconcile_from-filter_by_example :
    let (out, w') = reconcile_from flaky no_token no_outcome 0 drifts in
    let asked = filter_by is_correctable drifts in
    (out.escalated ≡ filter_by (λ d. not (is_correctable d)) drifts)
    × (w' ≡ all_applied flaky no_token asked 0)
    × (out.corrected ≡ all_settled flaky no_token true asked 0)
    × (out.failed ≡ all_settled flaky no_token false asked 0)
reconcile_from-filter_by_example = reconcile_from-filter_by flaky no_token 0 drifts

diff_owned-correctable_example :
    (want : DesiredItem) × (◌≡◌ {A = Option DesiredItem} (some free_topic) (some want))
    × In want (free_topic ∷ [])
    × ((want.gate == gate_none) ≡ true)
unfolding diff_owned desired_drifts unexpected_drifts sorted_drifts place_drift index_from lookup
    is_correctable is_ungoverned
diff_owned-correctable_example =
    diff_owned-correctable duration_text (free_topic ∷ []) [] default_ownership (missing free_topic)
      (here refl) refl

abbrev london : Cluster
london = record {
  name = "uk-app-1";
  provider = "managed";
  region = "uk";
  env = "sit";
  purpose = "app";
  residency = "uk";
  labels = ("tenancy", "payments") ∷ [];
  namespace = "";
  reachable = true;
}

abbrev leeds : Cluster
leeds = record london { name = "uk-app-2" }

abbrev claim : Claim
claim = record {
  env = "sit";
  purpose = "";
  residency = "uk";
  requires = ("tenancy", "payments") ∷ [];
}

abbrev equal_fold : String → String → Bool
equal_fold a b = a == b

-- Shares of free capacity, one more than in hundredths, so that 0 is below every share; uk-app-1 is full.
abbrev below : ℕ → ℕ → Bool
below a b = ltb a b

abbrev on_leeds : PlacementDecision
on_leeds = record {
  cluster = "uk-app-2";
  env = "sit";
  reason = "preferred by the platform for this workload";
  considered = "uk-app-1" ∷ "uk-app-2" ∷ [];
  sticky = false;
}

place_with-legal_for_example :
    (c : Cluster) × In c (london ∷ leeds ∷ [])
    × (legal_for equal_fold (λ s. s) claim c ≡ true)
    × (("uk" == "") ≡ false)
    × (equal_fold c.residency "uk" ≡ true)
    × (c.reachable ≡ true)
    × (c.name ≡ "uk-app-2")
    × (c.env ≡ "sit")
unfolding place_with legal_clusters legal_for carries_all labelled lookup place_among stays_put
    first_preferred cluster_named names_of_clusters
place_with-legal_for_example =
    place_with-legal_for below 11 1 0 (("uk-app-1", 4) ∷ []) equal_fold (λ s. s)
      (london ∷ leeds ∷ []) claim "" ("uk-app-1" ∷ "uk-app-2" ∷ []) on_leeds refl

place_with-stays_legal_example :
    (d : PlacementDecision) × (place_with below 11 1 0
        (("uk-app-1", 4) ∷ [])
        equal_fold
        (λ s. s)
        (london ∷ leeds ∷ [])
        claim
        "uk-app-1"
        ("uk-app-2" ∷ [])
      ≡ ok d)
    × (d.cluster ≡ "uk-app-1")
    × (d.sticky ≡ true)
unfolding stays_legal legal_for carries_all labelled lookup
place_with-stays_legal_example =
    place_with-stays_legal below 11 1 0 (("uk-app-1", 4) ∷ []) equal_fold (λ s. s)
      (london ∷ leeds ∷ []) claim "uk-app-1" ("uk-app-2" ∷ []) refl refl refl

abbrev workers : NodePool
workers = record { name = "workers"; size = pos 3; instance_type = "standard-2" }

abbrev lab : FleetManifest
lab = record {
  cluster = "lab";
  team = "platform";
  tier = "dev";
  kubernetes_version = "1.29.4";
  storage_class = "ssd";
  network_plugin = "mesh";
  ingress_controller = "";
  node_pools = workers ∷ [];
}

abbrev itoa : ℤ → String
itoa (pos n) = show_nat n
itoa (negsuc n) = concat "-" (show_nat (suc n))

abbrev atoi : String → Option ℤ
atoi s = if s == "5" then some (pos 5) else none

abbrev is_name : String → Bool
is_name s = not (s == "")

abbrev dev_limits : NodePoolLimits
dev_limits = record { min_nodes = 0; max_nodes = 5; allowed_instance_types = "standard-2" ∷ [] }

abbrev lab_desired : Desired
lab_desired = record {
  team = "platform";
  owns = "lab";
  changes =
      cluster_item lab floor
      ∷ control_plane_item lab floor
      ∷ pool_item itoa lab floor dev_limits workers
      ∷ [];
}

resolve_fleet-IsWithin_example :
    (limits : NodePoolLimits) × (lookup "dev" floor.fleet.node_pool ≡ some limits)
    × (allows_version floor.fleet "1.29.4" ≡ true)
    × All (IsWithin limits) (workers ∷ [])
    × (lab_desired.changes
        ≡ cluster_item lab floor
          ∷ control_plane_item lab floor
          ∷ map (pool_item itoa lab floor limits) (workers ∷ []))
unfolding resolve_fleet validate_fleet validate_pools lookup allows_version minor_line resolve_pools
    show_nat digits_before
resolve_fleet-IsWithin_example =
    resolve_fleet-IsWithin itoa is_name is_name lab floor lab_desired refl

abbrev scale : FleetChange
scale = record { cluster = "lab"; operation = "scale-node-pool"; node_pool = "workers"; to = "5" }

abbrev scaled : DesiredItem
scaled = record no_item {
  asset = "fleet";
  kind = "node-pool";
  name = "lab/workers";
  tier = "dev";
  gate = "none";
  cluster = "lab";
  slot = record { cluster = "lab"; namespace = ""; name = "workers" };
  limits = node_pool_limits dev_limits;
  state = ("nodePoolSize", "5") ∷ ("instanceType", "standard-2") ∷ ("nodePoolMaxNodes", "5") ∷ [];
}

as_change-IsGated_example :
    (scale.cluster ≡ lab.cluster)
    × (is_some (consequence_of scale.operation) ≡ true)
    × IsGated is_name is_name itoa atoi lab floor scale scaled
unfolding as_change validate_fleet validate_pools consequence_of lookup filled_item pool_named
    tier_for_fleet_operation gate_for insert show_nat digits_before
as_change-IsGated_example = as_change-IsGated is_name is_name itoa atoi scale lab floor scaled refl

as_change-scale_example :
    (limits : NodePoolLimits) × (size : ℤ) × (lookup "dev" floor.fleet.node_pool ≡ some limits)
    × (atoi "5" ≡ some size)
    × (leb_int (pos limits.min_nodes) size ≡ true)
    × (leb_int size (pos limits.max_nodes) ≡ true)
    × (lookup "nodePoolSize" scaled.state ≡ some (itoa size))
unfolding as_change validate_fleet validate_pools consequence_of lookup filled_item pool_named
    tier_for_fleet_operation gate_for insert show_nat digits_before
as_change-scale_example = as_change-scale is_name is_name itoa atoi scale lab floor scaled refl refl
