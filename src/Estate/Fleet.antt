-- ===== src/Estate/Fleet.antt =====
-- mantlekeep-estate/fleet.go: what a change to a cluster costs, the manifest of a cluster and what
-- ResolveFleet makes of it. The two regular expressions and strconv.Itoa are parameters; the words of an
-- error are its constructor, and the decoding of the document is left out.
pub mod Change
pub mod Bounds
use mantlekeep.Prelude.{
  ℕ, String, Bool, true, false, Option, none, some, List, [], ◌∷◌, ◌++◌, if◌then◌else◌, ◌==◌, not,
  ◌&&◌, ◌||◌, Map, lookup, insert, Result, ok, err, ◌>>=◌, any, contains,
}
use mantlekeep.Prelude.Text.{concat}
use mantlekeep.Prelude.Int.{ℤ, pos, leb_int}
use mantlekeep.Estate.Drift.{minor_line, point}
use mantlekeep.Estate.Floor.{
  Tier, tier_dev, tier_shared, tier_prod, is_valid_tier, NodePoolLimits, FleetFloor, Floor,
  gate_for,
}
use mantlekeep.Estate.Footprint.{
  DesiredItem, Desired, no_item, node_pool_limits, control_plane_limits,
}

pub data Consequence : Type 0 where
  reversible disruptive irreversible : Consequence

-- The texts that the program names as operations.
abbrev pub fleet_consequences : Map Consequence
fleet_consequences =
    ("scale-node-pool", reversible)
    ∷ ("change-node-instance-type", disruptive)
    ∷ ("register-cluster", disruptive)
    ∷ ("change-storage-class", irreversible)
    ∷ ("swap-network-plugin", irreversible)
    ∷ ("swap-ingress-controller", irreversible)
    ∷ ("upgrade-kubernetes", irreversible)
    ∷ ("remove-cluster", irreversible)
    ∷ []

-- ConsequenceOf
unfoldable pub consequence_of : String → Option Consequence
consequence_of operation = lookup operation fleet_consequences

abbrev pub one_step_lighter : Tier → Tier
one_step_lighter t = if t == tier_prod then tier_shared else tier_dev

abbrev pub tier_of_consequence : Tier → Option Consequence → Tier
tier_of_consequence cluster none = tier_prod
tier_of_consequence cluster (some irreversible) = tier_prod
tier_of_consequence cluster (some disruptive) = cluster
tier_of_consequence cluster (some reversible) = one_step_lighter cluster

-- TierForFleetOperation
unfoldable pub tier_for_fleet_operation : String → Tier → Tier
tier_for_fleet_operation operation cluster = tier_of_consequence cluster (consequence_of operation)

pub record NodePool : Type 0 where
  pub name : String
  pub size : ℤ
  pub instance_type : String

pub record FleetManifest : Type 0 where
  pub cluster : String
  pub team : String
  pub tier : Tier
  pub kubernetes_version : String
  pub storage_class : String
  pub network_plugin : String
  pub ingress_controller : String
  pub node_pools : List NodePool

pub data FleetError : Type 0 where
  bad_cluster_name bad_team_name no_tier unknown_tier bad_version bad_storage_class : FleetError
  bad_network_plugin bad_ingress_controller bad_pool_name pool_twice negative_size : FleetError
  bad_instance_type no_pool_floor unsupported_version pool_too_large pool_too_small : FleetError
  instance_type_refused wrong_cluster unclassified_operation no_such_pool not_a_number : FleetError
  outside_floor downgrade bad_value : FleetError

abbrev pub guard : Bool → FleetError → Result FleetError (Unit {0}) → Result FleetError (Unit {0})
guard fails e rest = if fails then err e else rest

-- The method allows of FleetFloor.
unfoldable pub allows_version : FleetFloor → String → Bool
allows_version f version =
    any (λ allowed. minor_line allowed == minor_line version) f.kubernetes_versions

abbrev pub allows_instance_type : NodePoolLimits → String → Bool
allows_instance_type l instance_type = contains l.allowed_instance_types instance_type

-- strings.Count(version, ".") == 2
abbrev pub no_point : Option (String × String) → Bool
no_point none = true
no_point (some p) = false

abbrev pub one_point_after : Option (String × String) → Bool
one_point_after none = false
one_point_after (some (head, rest)) = no_point (point rest)

abbrev pub two_points_after : Option (String × String) → Bool
two_points_after none = false
two_points_after (some (head, rest)) = one_point_after (point rest)

module _ (is_name is_version : String → Bool) where
  -- validateNodePools, with the names seen so far.
  unfoldable pub validate_pools : List String → List NodePool → Result FleetError (Unit {0})
  validate_pools seen [] = ok tt
  validate_pools seen (p ∷ pools) = guard (not (is_name p.name)) bad_pool_name (
      guard (contains seen p.name) pool_twice (
        guard (not (leb_int (pos 0) p.size)) negative_size (
          guard (not (is_name p.instance_type)) bad_instance_type
            (validate_pools (p.name ∷ seen) pools))))

  -- validate
  unfoldable pub validate_fleet : FleetManifest → Result FleetError (Unit {0})
  validate_fleet f = guard (not (is_name f.cluster)) bad_cluster_name (
      guard (not (is_name f.team)) bad_team_name (
        guard (f.tier == "") no_tier (
          guard (not (is_valid_tier f.tier)) unknown_tier (
            guard (not (is_version f.kubernetes_version)) bad_version (
              guard (not (is_name f.storage_class)) bad_storage_class (
                guard (not (is_name f.network_plugin)) bad_network_plugin (
                  guard (not (f.ingress_controller == "") && not (is_name f.ingress_controller))
                    bad_ingress_controller (validate_pools [] f.node_pools))))))))

-- The state of a cluster's own fields.
abbrev pub cluster_state : FleetManifest → Map String
cluster_state f =
    let state = ("storageClass", f.storage_class) ∷ ("networkPlugin", f.network_plugin) ∷ [] in
    if not (f.ingress_controller == "")
    then insert "ingressController" f.ingress_controller state
    else state

abbrev pub control_plane_state : FleetManifest → Map String
control_plane_state f =
    let state = ("kubernetesVersion", f.kubernetes_version) ∷ [] in
    if two_points_after (point f.kubernetes_version)
    then insert "kubernetesPatch" f.kubernetes_version state
    else state

abbrev pub cluster_item : FleetManifest → Floor → DesiredItem
cluster_item f floor =
    let tier = tier_for_fleet_operation "change-storage-class" f.tier in
    record no_item {
      asset = "fleet";
      kind = "cluster";
      name = f.cluster;
      slot = record { cluster = f.cluster; namespace = ""; name = "cluster" };
      tier = tier;
      gate = gate_for floor tier;
      cluster = f.cluster;
      state = cluster_state f;
    }

abbrev pub control_plane_item : FleetManifest → Floor → DesiredItem
control_plane_item f floor =
    let tier = tier_for_fleet_operation "upgrade-kubernetes" f.tier in
    record no_item {
      asset = "fleet";
      kind = "control-plane";
      name = concat f.cluster "/control-plane";
      slot = record { cluster = f.cluster; namespace = ""; name = "control-plane" };
      tier = tier;
      gate = gate_for floor tier;
      cluster = f.cluster;
      limits = control_plane_limits floor.fleet.kubernetes_versions;
      state = control_plane_state f;
    }

abbrev pub put_item :
    DesiredItem → Result FleetError (List DesiredItem) → Result FleetError (List DesiredItem)
put_item item (ok items) = ok (item ∷ items)
put_item item (err e) = err e

abbrev pub desired_of : FleetManifest → Floor → List DesiredItem → Result FleetError Desired
desired_of f floor items = ok (record {
  team = f.team;
  owns = f.cluster;
  changes = cluster_item f floor ∷ control_plane_item f floor ∷ items;
})

module _ (itoa : ℤ → String) where
  abbrev pub pool_state : NodePool → NodePoolLimits → Map String
  pool_state p limits =
      ("nodePoolSize", itoa p.size)
      ∷ ("instanceType", p.instance_type)
      ∷ ("nodePoolMaxNodes", itoa (pos limits.max_nodes))
      ∷ []

  abbrev pub pool_item : FleetManifest → Floor → NodePoolLimits → NodePool → DesiredItem
  pool_item f floor limits p =
      let tier = tier_for_fleet_operation "change-node-instance-type" f.tier in
      record no_item {
        asset = "fleet";
        kind = "node-pool";
        name = concat f.cluster (concat "/" p.name);
        slot = record { cluster = f.cluster; namespace = ""; name = p.name };
        tier = tier;
        gate = gate_for floor tier;
        cluster = f.cluster;
        limits = node_pool_limits limits;
        state = pool_state p limits;
      }

  -- The loop of ResolveFleet over the node pools.
  unfoldable pub resolve_pools :
      FleetManifest → Floor → NodePoolLimits → List NodePool → Result FleetError (List DesiredItem)
  resolve_pools f floor limits [] = ok []
  resolve_pools f floor limits (p ∷ pools) =
      let rest = put_item (pool_item f floor limits p) (resolve_pools f floor limits pools) in
      if not (leb_int p.size (pos limits.max_nodes))
      then err pool_too_large
      else if not (leb_int (pos limits.min_nodes) p.size)
      then err pool_too_small
      else if not (allows_instance_type limits p.instance_type)
      then err instance_type_refused
      else rest

  abbrev pub resolved_with :
      FleetManifest → Floor → Option NodePoolLimits → Result FleetError Desired
  resolved_with f floor none = err no_pool_floor
  resolved_with f floor (some limits) =
      if not (allows_version floor.fleet f.kubernetes_version)
      then err unsupported_version
      else (resolve_pools f floor limits f.node_pools >>= desired_of f floor)

  -- ResolveFleet
  unfoldable pub resolve_fleet :
      (is_name is_version : String → Bool) → FleetManifest → Floor → Result FleetError Desired
  resolve_fleet is_name is_version f floor = validate_fleet is_name is_version f >>= λ valid.
      resolved_with f floor (lookup f.tier floor.fleet.node_pool)
