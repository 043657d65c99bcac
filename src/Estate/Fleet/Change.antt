-- ===== src/Estate/Fleet/Change.antt =====
-- A single change to a cluster, by fleet.go: FleetChange and AsChange. strconv.Atoi is a parameter, as are
-- Itoa and the two regular expressions.
pub mod Gated
use mantlekeep.Prelude.{
  ℕ, String, Bool, true, false, Option, none, some, List, [], ◌∷◌, if◌then◌else◌, ◌==◌, not, ◌||◌,
  Map, lookup, insert, Result, ok, err, ◌>>=◌, is_some, ◌+◌, suc,
}
use mantlekeep.Prelude.Text.{concat}
use mantlekeep.Prelude.Int.{◌+ℤ◌, times_thousand, wrap_int, ℤ, pos, negsuc, leb_int}
use mantlekeep.Estate.Drift.{minor_line, point, before_point}
use mantlekeep.Estate.Floor.{Tier, NodePoolLimits, Floor, gate_for}
use mantlekeep.Estate.Footprint.{DesiredItem, no_item, node_pool_limits, control_plane_limits, Slot}
use mantlekeep.Estate.Fleet.{
  FleetManifest, NodePool, FleetError, validate_fleet, consequence_of, tier_for_fleet_operation,
  allows_version, allows_instance_type, pool_state, cluster_state, bad_value, not_a_number,
  instance_type_refused, no_such_pool, bad_version, no_pool_floor, wrong_cluster, outside_floor,
  unsupported_version, unclassified_operation, downgrade,
}

pub record FleetChange : Type 0 where
  pub cluster : String
  pub operation : String
  pub node_pool : String
  pub to : String

-- The method pool of FleetManifest.
unfoldable pub pool_named : String → List NodePool → Option NodePool
pool_named name [] = none
pool_named name (p ∷ pools) =
    let rest = pool_named name pools in if p.name == name then some p else rest

-- fieldFor
abbrev pub field_for : String → String
field_for operation =
    if operation == "swap-network-plugin"
    then "networkPlugin"
    else if operation == "swap-ingress-controller"
    then "ingressController"
    else "storageClass"

-- The item that the branches of AsChange fill in.
abbrev pub blank_item : FleetManifest → Floor → String → DesiredItem
blank_item f floor operation =
    let tier = tier_for_fleet_operation operation f.tier in
    record no_item { asset = "fleet"; cluster = f.cluster; tier = tier; gate = gate_for floor tier }

abbrev pub slot_of : FleetManifest → String → Slot
slot_of f name = record { cluster = f.cluster; namespace = ""; name = name }

-- applyToClusterField
abbrev pub field_item :
    (String → Bool) → FleetManifest → FleetChange → DesiredItem → Result FleetError DesiredItem
field_item is_name f change item =
    if not (is_name change.to)
    then err bad_value
    else ok (record item {
      kind = "cluster";
      name = f.cluster;
      slot = slot_of f "cluster";
      state = insert (field_for change.operation) change.to (cluster_state f);
    })

-- applyToClusterLifecycle
abbrev pub lifecycle_item : FleetManifest → FleetChange → DesiredItem → DesiredItem
lifecycle_item f change item =
    let lifecycle = if change.operation == "remove-cluster" then "removed" else "registered" in
    record item {
      kind = "cluster";
      name = f.cluster;
      slot = slot_of f "cluster";
      state = ("clusterLifecycle", lifecycle) ∷ [];
    }

abbrev pub rank_of_numbers : Option ℤ → Option ℤ → ℤ
rank_of_numbers (some major) (some minor) = wrap_int (times_thousand major +ℤ minor)
rank_of_numbers none minor = negsuc 0
rank_of_numbers (some major) none = negsuc 0

module _ (atoi : String → Option ℤ) where
  abbrev pub rank_of_parts : Option (String × String) → ℤ
  rank_of_parts none = negsuc 0
  rank_of_parts (some (major, minor)) = rank_of_numbers (atoi major) (atoi minor)

  -- minorRank
  unfoldable pub minor_rank : String → ℤ
  minor_rank version = rank_of_parts (point (minor_line version))

module _ (is_name is_version : String → Bool) (itoa : ℤ → String) (atoi : String → Option ℤ) where
  -- The branch of applyToNodePool for a change of size.
  abbrev pub scaled_item : NodePoolLimits → DesiredItem → Option ℤ → Result FleetError DesiredItem
  scaled_item limits item none = err not_a_number
  scaled_item limits item (some size) =
      if not (leb_int size (pos limits.max_nodes)) || not (leb_int (pos limits.min_nodes) size)
      then err outside_floor
      else ok (record item { state = insert "nodePoolSize" (itoa size) item.state })

  abbrev pub retyped_item : NodePoolLimits → String → DesiredItem → Result FleetError DesiredItem
  retyped_item limits to item =
      if not (allows_instance_type limits to)
      then err instance_type_refused
      else ok (record item { state = insert "instanceType" to item.state })

  -- applyToNodePool
  abbrev pub changed_pool :
      FleetManifest
      → NodePoolLimits
      → FleetChange
      → DesiredItem
      → Option NodePool
      → Result FleetError DesiredItem
  changed_pool f limits change item none = err no_such_pool
  changed_pool f limits change item (some p) =
      let filled = record item {
        kind = "node-pool";
        name = concat f.cluster (concat "/" p.name);
        slot = slot_of f p.name;
        limits = node_pool_limits limits;
        state = pool_state itoa p limits;
      } in
      if change.operation == "scale-node-pool"
      then scaled_item limits filled (atoi change.to)
      else retyped_item limits change.to filled

  -- applyToControlPlane
  abbrev pub upgraded_item :
      FleetManifest → Floor → FleetChange → DesiredItem → Result FleetError DesiredItem
  upgraded_item f floor change item =
      if not (is_version change.to)
      then err bad_version
      else if not (allows_version floor.fleet change.to)
      then err unsupported_version
      else if not (leb_int (minor_rank atoi f.kubernetes_version) (minor_rank atoi change.to))
      then err downgrade
      else ok (record item {
        kind = "control-plane";
        name = concat f.cluster "/control-plane";
        slot = slot_of f "control-plane";
        limits = control_plane_limits floor.fleet.kubernetes_versions;
        state = ("kubernetesVersion", change.to) ∷ [];
      })

  -- The switch of AsChange. A classified operation always has a case; another would leave the item.
  unfoldable pub filled_item :
      FleetManifest → Floor → NodePoolLimits → FleetChange → Result FleetError DesiredItem
  filled_item f floor limits change =
      let op = change.operation in
      let item = blank_item f floor op in
      if op == "scale-node-pool" || op == "change-node-instance-type"
      then changed_pool f limits change item (pool_named change.node_pool f.node_pools)
      else if op == "upgrade-kubernetes"
      then upgraded_item f floor change item
      else if op == "change-storage-class"
          || op == "swap-network-plugin"
          || op == "swap-ingress-controller"
      then field_item is_name f change item
      else if op == "register-cluster" || op == "remove-cluster"
      then ok (lifecycle_item f change item)
      else ok item

  abbrev pub limited_item :
      FleetManifest → Floor → FleetChange → Option NodePoolLimits → Result FleetError DesiredItem
  limited_item f floor change none = err no_pool_floor
  limited_item f floor change (some limits) = filled_item f floor limits change

  -- AsChange
  unfoldable pub as_change : FleetChange → FleetManifest → Floor → Result FleetError DesiredItem
  as_change change f floor = validate_fleet is_name is_version f >>= λ valid.
      if not (change.cluster == f.cluster)
      then err wrong_cluster
      else if not (is_some (consequence_of change.operation))
      then err unclassified_operation
      else limited_item f floor change (lookup f.tier floor.fleet.node_pool)
