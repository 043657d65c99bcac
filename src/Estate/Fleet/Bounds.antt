-- ===== src/Estate/Fleet/Bounds.antt =====
-- What passes the floor of fleet.go: the bounds of ResolveFleet, and the tiers of its operations.
use mantlekeep.Prelude.{
  String, Bool, true, Option, none, some, List, [], ◌∷◌, ◌≡◌, Result, ok, err, Holds, holds, errs,
  Holds-ok, Holds-bind, Holds-if_not, All, refl, lookup, map, ap, arith, subst,
}
use mantlekeep.Prelude.Int.{pos, leb_int}
use mantlekeep.Estate.Floor.{Floor, NodePoolLimits}
use mantlekeep.Estate.Footprint.{Desired, DesiredItem}
use mantlekeep.Estate.Fleet.{
  FleetManifest, NodePool, FleetError, resolve_fleet, resolve_pools, resolved_with, allows_version,
  allows_instance_type, pool_item, cluster_item, control_plane_item, put_item, ℤ, pool_too_large,
  pool_too_small, instance_type_refused, unsupported_version, desired_of, validate_fleet, not,
}

-- The size of the pool is within the floor, and its instances are of a type that the floor allows.
pub IsWithin : NodePoolLimits → NodePool → Type 0
IsWithin limits p =
    (leb_int (pos limits.min_nodes) p.size ≡ true)
    × (leb_int p.size (pos limits.max_nodes) ≡ true)
    × (allows_instance_type limits p.instance_type ≡ true)

pub anything : (r : Result FleetError (Unit {0})) → Holds (λ valid. Unit {0}) r
anything (ok valid) = holds tt
anything (err e) = errs

module _ (itoa : ℤ → String) where
  put_item-IsWithin :
      (f : FleetManifest) (floor : Floor) (limits : NodePoolLimits) (p : NodePool)
      (pools : List NodePool) (r : Result FleetError (List DesiredItem))
      → IsWithin limits p
      → Holds
          (λ items.
            (items ≡ map (pool_item itoa f floor limits) pools) × All (IsWithin limits) pools)
          r
      → Holds
          (λ items.
            (items ≡ map (pool_item itoa f floor limits) (p ∷ pools))
            × All (IsWithin limits) (p ∷ pools))
          (put_item (pool_item itoa f floor limits p) r)
  put_item-IsWithin f floor limits p pools (ok items) w (holds (e, all)) =
      holds (ap (λ rest. pool_item itoa f floor limits p ∷ rest) e, (w, all))
  put_item-IsWithin f floor limits p pools (err e) w errs = errs

  resolve_pools-IsWithin :
      (f : FleetManifest) (floor : Floor) (limits : NodePoolLimits) (pools : List NodePool)
      → Holds
          (λ items.
            (items ≡ map (pool_item itoa f floor limits) pools) × All (IsWithin limits) pools)
          (resolve_pools itoa f floor limits pools)
  unfolding resolve_pools IsWithin
  resolve_pools-IsWithin f floor limits [] = holds (refl, tt)
  resolve_pools-IsWithin f floor limits (p ∷ pools) =
      Holds-if_not pool_too_large (not (leb_int p.size (pos limits.max_nodes))) λ large.
        Holds-if_not pool_too_small (not (leb_int (pos limits.min_nodes) p.size)) λ small.
          Holds-if_not instance_type_refused (not (allows_instance_type limits p.instance_type))
            λ refused.
              put_item-IsWithin f floor limits p pools (resolve_pools itoa f floor limits pools)
                (ground (arith, small), ground (arith, large), ground (arith, refused))
                (resolve_pools-IsWithin f floor limits pools)

  Bounded : FleetManifest → Floor → Desired → Type 0
  Bounded f floor desired =
      (limits : NodePoolLimits) × (lookup f.tier floor.fleet.node_pool ≡ some limits)
      × (allows_version floor.fleet f.kubernetes_version ≡ true)
      × All (IsWithin limits) f.node_pools
      × (desired.changes
          ≡ cluster_item f floor
            ∷ control_plane_item f floor
            ∷ map (pool_item itoa f floor limits) f.node_pools)

  resolved_with-Bounded :
      (f : FleetManifest) (floor : Floor) (o : Option NodePoolLimits)
      → lookup f.tier floor.fleet.node_pool ≡ o
      → Holds (Bounded f floor) (resolved_with itoa f floor o)
  unfolding Bounded
  resolved_with-Bounded f floor none e = errs
  resolved_with-Bounded f floor (some limits) e = Holds-if_not unsupported_version _ λ supported.
      Holds-bind (desired_of f floor)
        (λ items (same, all). holds (
          limits,
          e,
          ground (arith, supported),
          all,
          ap (λ rest. cluster_item f floor ∷ control_plane_item f floor ∷ rest) same,
        ))
        (resolve_pools-IsWithin f floor limits f.node_pools)

  -- ResolveFleet returns the cluster, its control plane and one item for each node pool, in the order of
  -- the manifest, and only if the floor of the cluster's tier is configured, the version is supported,
  -- and each pool is within that floor, in its size and its instance type.
  pub resolve_fleet-IsWithin :
      (is_name is_version : String → Bool) (f : FleetManifest) (floor : Floor) (desired : Desired)
      → resolve_fleet itoa is_name is_version f floor ≡ ok desired
      → (limits : NodePoolLimits) × (lookup f.tier floor.fleet.node_pool ≡ some limits)
        × (allows_version floor.fleet f.kubernetes_version ≡ true)
        × All (IsWithin limits) f.node_pools
        × (desired.changes
            ≡ cluster_item f floor
              ∷ control_plane_item f floor
              ∷ map (pool_item itoa f floor limits) f.node_pools)
  unfolding resolve_fleet Bounded
  resolve_fleet-IsWithin is_name is_version f floor desired e = Holds-ok (
      subst (Holds (Bounded f floor)) e (
        Holds-bind {P = λ valid. Unit {0}}
          (λ valid. resolved_with itoa f floor (lookup f.tier floor.fleet.node_pool))
          (λ valid _. resolved_with-Bounded f floor (lookup f.tier floor.fleet.node_pool) refl)
          (anything (validate_fleet is_name is_version f))))
