-- ===== src/Estate/Fleet/Change/Gated.antt =====
-- The gate and the bounds of a change to a cluster, by AsChange of fleet.go.
use mantlekeep.Prelude.{
  String, Bool, true, false, Option, none, some, ◌≡◌, ok, Holds, holds, errs, ◌==◌, Holds-ok,
  Holds-map, Holds-bind, Holds-if_not, refl, lookup, not, Bool-cases, is_some, false≢true, inl, sym,
  inr, Holds-either, ◌||◌, ◌∙◌, arith, lookup-insert, subst, eq_iff,
}
use mantlekeep.Prelude.Int.{pos, leb_int, ℤ}
use mantlekeep.Estate.Floor.{Floor, NodePoolLimits, gate_for}
use mantlekeep.Estate.Footprint.{DesiredItem}
use mantlekeep.Estate.Fleet.{
  FleetManifest, NodePool, consequence_of, tier_for_fleet_operation, validate_fleet, outside_floor,
  bad_version, unsupported_version, instance_type_refused, allows_version, allows_instance_type,
  downgrade, bad_value, wrong_cluster, unclassified_operation,
}
use mantlekeep.Estate.Fleet.Change.{
  FleetChange, as_change, filled_item, limited_item, changed_pool, scaled_item, upgraded_item,
  pool_named, blank_item, minor_rank,
}
use mantlekeep.Estate.Fleet.Bounds.{anything}

module _ (is_name is_version : String → Bool) (itoa : ℤ → String) (atoi : String → Option ℤ) where
  -- What an item of a change has, whatever the operation.
  pub IsGated : FleetManifest → Floor → FleetChange → DesiredItem → Type 0
  IsGated f floor change item =
      (item.cluster ≡ f.cluster)
      × (item.tier ≡ tier_for_fleet_operation change.operation f.tier)
      × (item.gate ≡ gate_for floor (tier_for_fleet_operation change.operation f.tier))

  -- What the number of a change of size must be.
  IsScaled : NodePoolLimits → FleetChange → DesiredItem → Type 0
  IsScaled limits change item =
      change.operation == "scale-node-pool" ≡ true
      → (size : ℤ) × (atoi change.to ≡ some size)
        × (leb_int (pos limits.min_nodes) size ≡ true)
        × (leb_int size (pos limits.max_nodes) ≡ true)
        × (lookup "nodePoolSize" item.state ≡ some (itoa size))

  unscaled-IsScaled :
      (limits : NodePoolLimits) (change : FleetChange) (item : DesiredItem)
      → change.operation == "scale-node-pool" ≡ false
      → IsScaled limits change item
  unfolding IsScaled
  unscaled-IsScaled limits change item e s = absurd (false≢true (sym e ∙ s))

  scaled_item-IsGated :
      (f : FleetManifest) (floor : Floor) (limits : NodePoolLimits) (change : FleetChange)
      (item : DesiredItem) (o : Option ℤ)
      → atoi change.to ≡ o
      → IsGated f floor change item
      → Holds
          (λ got. IsGated f floor change got × IsScaled limits change got)
          (scaled_item is_name is_version itoa atoi limits item o)
  unfolding IsGated IsScaled
  scaled_item-IsGated f floor limits change item none e g = errs
  scaled_item-IsGated f floor limits change item (some size) e g =
      Holds-if_not outside_floor
        (not (leb_int size (pos limits.max_nodes)) || not (leb_int (pos limits.min_nodes) size))
        λ within. holds (
          g,
          λ s. (
            size,
            e,
            ground (arith, within),
            ground (arith, within),
            lookup-insert "nodePoolSize" "nodePoolSize" (itoa size) item.state,
          ),
        )

  changed_pool-IsGated :
      (f : FleetManifest) (floor : Floor) (limits : NodePoolLimits) (change : FleetChange)
      (item : DesiredItem) (o : Option NodePool)
      → IsGated f floor change item
      → Holds
          (λ got. IsGated f floor change got × IsScaled limits change got)
          (changed_pool is_name is_version itoa atoi f limits change item o)
  unfolding IsGated
  changed_pool-IsGated f floor limits change item none g = errs
  changed_pool-IsGated f floor limits change item (some p) g =
      elim (Bool-cases (change.operation == "scale-node-pool")) [
        | inl e ↦ rw e (scaled_item-IsGated f floor limits change _ (atoi change.to) refl g)
        | inr e ↦ rw e (
            Holds-if_not instance_type_refused (not (allows_instance_type limits change.to))
              λ allowed. holds (g, unscaled-IsScaled limits change _ e))
      ]

  upgraded_item-IsGated :
      (f : FleetManifest) (floor : Floor) (limits : NodePoolLimits) (change : FleetChange)
      (item : DesiredItem)
      → change.operation == "scale-node-pool" ≡ false
      → IsGated f floor change item
      → Holds
          (λ got. IsGated f floor change got × IsScaled limits change got)
          (upgraded_item is_name is_version itoa atoi f floor change item)
  unfolding IsGated
  upgraded_item-IsGated f floor limits change item e g =
      Holds-if_not bad_version (not (is_version change.to)) λ _.
        Holds-if_not unsupported_version (not (allows_version floor.fleet change.to)) λ _.
          Holds-if_not downgrade
            (not (leb_int (minor_rank atoi f.kubernetes_version) (minor_rank atoi change.to)))
            λ _. holds (g, unscaled-IsScaled limits change _ e)

  filled_item-IsGated :
      (f : FleetManifest) (floor : Floor) (limits : NodePoolLimits) (change : FleetChange)
      → Holds
          (λ got. IsGated f floor change got × IsScaled limits change got)
          (filled_item is_name is_version itoa atoi f floor limits change)
  unfolding filled_item IsGated
  filled_item-IsGated f floor limits change =
      let op = change.operation in
      let item = blank_item f floor op in
      Holds-either (op == "scale-node-pool" || op == "change-node-instance-type")
        (λ _.
          changed_pool-IsGated f floor limits change item (pool_named change.node_pool f.node_pools)
            (refl, refl, refl))
        λ other.
          let e : op == "scale-node-pool" ≡ false = ground (arith, other) in
          Holds-either (op == "upgrade-kubernetes")
            (λ _. upgraded_item-IsGated f floor limits change item e (refl, refl, refl))
            λ _.
              Holds-either
                (op == "change-storage-class"
                  || op == "swap-network-plugin"
                  || op == "swap-ingress-controller")
                (λ _.
                  Holds-if_not bad_value (not (is_name change.to))
                    λ _. holds ((refl, refl, refl), unscaled-IsScaled limits change _ e))
                λ _.
                  Holds-either (op == "register-cluster" || op == "remove-cluster")
                    (λ _. holds ((refl, refl, refl), unscaled-IsScaled limits change _ e))
                    λ _. holds ((refl, refl, refl), unscaled-IsScaled limits change _ e)

  limited_item-IsGated :
      (f : FleetManifest) (floor : Floor) (change : FleetChange) (o : Option NodePoolLimits)
      → lookup f.tier floor.fleet.node_pool ≡ o
      → Holds
          (λ got.
            IsGated f floor change got
            × ((limits : NodePoolLimits) × (lookup f.tier floor.fleet.node_pool ≡ some limits)
                × IsScaled limits change got))
          (limited_item is_name is_version itoa atoi f floor change o)
  limited_item-IsGated f floor change none e = errs
  limited_item-IsGated f floor change (some limits) e =
      Holds-map (λ got (g, s). (g, (limits, e, s))) (filled_item-IsGated f floor limits change)

  Whole : FleetChange → FleetManifest → Floor → DesiredItem → Type 0
  Whole change f floor item =
      (change.cluster ≡ f.cluster)
      × (is_some (consequence_of change.operation) ≡ true)
      × IsGated f floor change item
      × ((limits : NodePoolLimits) × (lookup f.tier floor.fleet.node_pool ≡ some limits)
          × IsScaled limits change item)

  as_change-Whole :
      (change : FleetChange) (f : FleetManifest) (floor : Floor)
      → Holds (Whole change f floor) (as_change is_name is_version itoa atoi change f floor)
  unfolding as_change Whole
  as_change-Whole change f floor =
      Holds-bind {P = λ valid. Unit {0}} _
        (λ valid _. Holds-if_not wrong_cluster (not (change.cluster == f.cluster)) λ same.
          Holds-if_not unclassified_operation (not (is_some (consequence_of change.operation)))
            λ known.
              Holds-map
                (λ got (g, s). (
                  (eq_iff change.cluster f.cluster).0 (ground (arith, same)),
                  ground (arith, known),
                  g,
                  s,
                ))
                (limited_item-IsGated f floor change (lookup f.tier floor.fleet.node_pool) refl))
        (anything (validate_fleet is_name is_version f))

  -- A change to a cluster that AsChange accepts is of the cluster that was asked for, its operation is
  -- classified, and it carries the tier of that operation on the cluster and the gate of that tier.
  pub as_change-IsGated :
      (change : FleetChange) (f : FleetManifest) (floor : Floor) (item : DesiredItem)
      → as_change is_name is_version itoa atoi change f floor ≡ ok item
      → (change.cluster ≡ f.cluster)
        × (is_some (consequence_of change.operation) ≡ true)
        × IsGated f floor change item
  unfolding Whole
  as_change-IsGated change f floor item e =
      let (c, k, g, s) =
        Holds-ok (subst (Holds (Whole change f floor)) e (as_change-Whole change f floor)) in
      (c, k, g)

  -- A change of size that AsChange accepts is to a number within the floor of the cluster's tier, and the
  -- item states that number.
  pub as_change-scale :
      (change : FleetChange) (f : FleetManifest) (floor : Floor) (item : DesiredItem)
      → as_change is_name is_version itoa atoi change f floor ≡ ok item
      → change.operation == "scale-node-pool" ≡ true
      → (limits : NodePoolLimits) × (size : ℤ) × (lookup f.tier floor.fleet.node_pool ≡ some limits)
        × (atoi change.to ≡ some size)
        × (leb_int (pos limits.min_nodes) size ≡ true)
        × (leb_int size (pos limits.max_nodes) ≡ true)
        × (lookup "nodePoolSize" item.state ≡ some (itoa size))
  unfolding Whole IsScaled
  as_change-scale change f floor item e op =
      let (c, k, g, (limits, l, s)) =
        Holds-ok (subst (Holds (Whole change f floor)) e (as_change-Whole change f floor)) in
      let (size, a, low, high, state) = s op in (limits, size, l, a, low, high, state)
