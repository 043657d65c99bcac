-- ===== src/Estate/Placement/Legality.antt =====
-- Where placement.go places: the cluster that PlaceWith chooses.
use mantlekeep.Prelude.{
  String, Bool, true, false, Option, none, some, List, [], ◌∷◌, if◌then◌else◌, ◌==◌, ◌≡◌, Result,
  ok, In, here, there, Holds, Bool-cases, inl, inr, refl, arith, eq_iff, Map, holds, errs, Holds-ok,
  Holds-if_not, subst, ◌&&◌,
}
use mantlekeep.Estate.Placement.{
  Cluster, Claim, PlacementError, legal_for, legal_clusters, cluster_named, stays_put,
  first_preferred, emptiest_from, place_among, place_with, with_room, or_else, stayed_at,
  by_staying, by_preference, by_capacity, is_full, names_of_clusters, no_requirement, is_empty_list,
  no_legal_cluster,
}
use mantlekeep.Estate.Footprint.{PlacementDecision}

-- The decision names a cluster of the list, by its name and its environment.
pub IsAmong : List Cluster → PlacementDecision → Type 0
IsAmong legal d = (c : Cluster) × In c legal × (c.name ≡ d.cluster) × (c.env ≡ d.env)

-- Where there is a cluster, it is one of the list.
Within : List Cluster → Option Cluster → Type 0
Within legal none = Unit
Within legal (some c) = In c legal

-- Where there is a cluster, it is one of the list and has the name.
Named : String → List Cluster → Option Cluster → Type 0
Named name legal none = Unit
Named name legal (some c) = In c legal × (c.name ≡ name)

Named-there :
    (name : String) (c : Cluster) (legal : List Cluster) (o : Option Cluster)
    → Named name legal o
    → Named name (c ∷ legal) o
unfolding Named
Named-there name c legal none h = tt
Named-there name c legal (some d) (i, e) = (there i, e)

Named-cluster_named :
    (name : String) (legal : List Cluster) → Named name legal (cluster_named name legal)
unfolding cluster_named Named
Named-cluster_named name [] = tt
Named-cluster_named name (c ∷ cs) = elim (Bool-cases (c.name == name)) [
  | inl e ↦ rw e (here refl, (eq_iff c.name name).0 e)
  | inr e ↦ rw e (Named-there name c cs (cluster_named name cs) (Named-cluster_named name cs))
]

Within-there :
    (c : Cluster) (legal : List Cluster) (o : Option Cluster)
    → Within legal o
    → Within (c ∷ legal) o
unfolding Within
Within-there c legal none h = tt
Within-there c legal (some d) h = there h

In-legal_clusters :
    (equal_fold : String → String → Bool) (to_lower : String → String) (claim : Claim)
    (clusters : List Cluster) {c : Cluster}
    → In c (legal_clusters equal_fold to_lower claim clusters)
    → In c clusters × (legal_for equal_fold to_lower claim c ≡ true)
unfolding legal_clusters
In-legal_clusters equal_fold to_lower claim [] h = elim h [ ]
In-legal_clusters equal_fold to_lower claim (d ∷ ds) h =
    elim (Bool-cases (legal_for equal_fold to_lower claim d)) [
      | inl e ↦ elim-first (rw e at h) e (λ i. In-legal_clusters equal_fold to_lower claim ds i)
      | inr e ↦
          let (i, l) = In-legal_clusters equal_fold to_lower claim ds (rw e at h) in (there i, l)
    ]
  where
    elim-first :
        {c : Cluster}
        → In c (d ∷ legal_clusters equal_fold to_lower claim ds)
        → legal_for equal_fold to_lower claim d ≡ true
        → (In c (legal_clusters equal_fold to_lower claim ds)
            → In c ds × (legal_for equal_fold to_lower claim c ≡ true))
        → In c (d ∷ ds) × (legal_for equal_fold to_lower claim c ≡ true)
    elim-first (here q) e rest =
        (here q, subst (λ x. legal_for equal_fold to_lower claim x ≡ true) q e)
    elim-first (there i) e rest = let (j, l) = rest i in (there j, l)

Within-if :
    (legal : List Cluster) (b : Bool) (x y : Option Cluster)
    → Within legal x
    → Within legal y
    → Within legal (if b then x else y)
Within-if legal true x y hx hy = hx
Within-if legal false x y hx hy = hy

Within-or_else :
    (legal : List Cluster) (o p : Option Cluster)
    → Within legal o
    → Within legal p
    → Within legal (or_else o p)
Within-or_else legal none p ho hp = hp
Within-or_else legal (some c) p ho hp = ho

IsAmong-stayed_at :
    (current : String) (considered : List String) (legal : List Cluster) (o : Option Cluster)
    (other : Result PlacementError PlacementDecision)
    → Named current legal o
    → Holds (IsAmong legal) other
    → Holds (IsAmong legal) (by_staying (stayed_at current considered o) other)
unfolding Named IsAmong
IsAmong-stayed_at current considered legal none other n h = h
IsAmong-stayed_at current considered legal (some c) other (i, e) h = holds (c, i, e, refl)

IsAmong-by_preference :
    (considered : List String) (legal : List Cluster) (o : Option Cluster)
    (other : Result PlacementError PlacementDecision)
    → Within legal o
    → Holds (IsAmong legal) other
    → Holds (IsAmong legal) (by_preference considered o other)
unfolding Within IsAmong
IsAmong-by_preference considered legal none other w h = h
IsAmong-by_preference considered legal (some c) other w h = holds (c, w, refl, refl)

-- What it takes to be legal: the residency is named and is the cluster's, and the cluster is reachable.
legal_for-residency :
    (equal_fold : String → String → Bool) (to_lower : String → String) (claim : Claim) (c : Cluster)
    → legal_for equal_fold to_lower claim c ≡ true
    → ((claim.residency == "") ≡ false)
      × (equal_fold c.residency claim.residency ≡ true)
      × (c.reachable ≡ true)
unfolding legal_for
legal_for-residency equal_fold to_lower claim c e =
    (ground (arith, e), ground (arith, e), ground (arith, e))

module _ {F : Type 0} (below : F → F → Bool) (min_free none_free nothing_yet : F)
    (capacity : Map F) where
  Within-with_room :
      (name : String) (legal : List Cluster) (o : Option Cluster)
      → Named name legal o
      → Within legal (with_room below min_free none_free nothing_yet capacity o)
  unfolding Named Within
  Within-with_room name legal none h = tt
  Within-with_room name legal (some c) (i, e) =
      Within-if legal (is_full below min_free none_free nothing_yet capacity c.name) none (some c)
        tt i

  Within-first_preferred :
      (legal : List Cluster) (prefer : List String)
      → Within legal (first_preferred below min_free none_free nothing_yet capacity legal prefer)
  unfolding first_preferred Within
  Within-first_preferred legal [] = tt
  Within-first_preferred legal (name ∷ prefer) =
      Within-or_else legal _ _
        (Within-with_room name legal (cluster_named name legal) (Named-cluster_named name legal))
        (Within-first_preferred legal prefer)

  Within-emptiest_from :
      (legal all : List Cluster) (best : Option Cluster) (room : F)
      → Within all best
      → ((c : Cluster) → In c legal → In c all)
      → Within all (emptiest_from below min_free none_free nothing_yet capacity best room legal)
  unfolding emptiest_from Within
  Within-emptiest_from [] all best room w h = w
  Within-emptiest_from (c ∷ cs) all best room w h =
      Within-if all (is_full below min_free none_free nothing_yet capacity c.name) _ _
        (Within-emptiest_from cs all best room w (λ d i. h d (there i)))
        (Within-if all _ _ _
          (Within-emptiest_from cs all (some c) _ (h c (here refl)) (λ d i. h d (there i)))
          (Within-emptiest_from cs all best room w (λ d i. h d (there i))))

  IsAmong-by_capacity :
      (current : String) (prefer considered : List String) (legal : List Cluster)
      (o : Option Cluster)
      → Within legal o
      → Holds
          (IsAmong legal)
          (by_capacity below min_free none_free nothing_yet capacity current prefer considered o)
  unfolding Within IsAmong
  IsAmong-by_capacity current prefer considered legal none w = errs
  IsAmong-by_capacity current prefer considered legal (some c) w = holds (c, w, refl, refl)

  IsAmong-stays_put :
      (legal : List Cluster) (current : String) (considered : List String)
      (other : Result PlacementError PlacementDecision)
      → Holds (IsAmong legal) other
      → Holds (IsAmong legal) (by_staying (stays_put legal current considered) other)
  unfolding stays_put
  IsAmong-stays_put legal current considered other h = elim (Bool-cases (current == "")) [
    | inl e ↦ rw e h
    | inr e ↦ rw e (
        IsAmong-stayed_at current considered legal (cluster_named current legal) other
          (Named-cluster_named current legal) h)
  ]

  IsAmong-place_among :
      (legal : List Cluster) (current : String) (prefer : List String)
      → Holds
          (IsAmong legal)
          (place_among below min_free none_free nothing_yet capacity legal current prefer)
  unfolding place_among Within
  IsAmong-place_among legal current prefer =
      let considered = names_of_clusters legal in
      IsAmong-stays_put legal current considered _ (
        IsAmong-by_preference considered legal _ _ (Within-first_preferred legal prefer) (
          IsAmong-by_capacity current prefer considered legal _
            (Within-emptiest_from legal legal none nothing_yet tt (λ d i. i))))

  -- PlaceWith places on a cluster of the registry that is legal for the claim and on no other: in its
  -- residency, with every label that the claim requires, and reachable. No preference, no report of
  -- capacity and no earlier placement changes that.
  pub place_with-legal_for :
      (equal_fold : String → String → Bool) (to_lower : String → String) (clusters : List Cluster)
      (claim : Claim) (current : String) (prefer : List String) (d : PlacementDecision)
      → place_with below min_free none_free nothing_yet capacity equal_fold to_lower clusters claim
          current prefer
        ≡ ok d
      → (c : Cluster) × In c clusters
        × (legal_for equal_fold to_lower claim c ≡ true)
        × ((claim.residency == "") ≡ false)
        × (equal_fold c.residency claim.residency ≡ true)
        × (c.reachable ≡ true)
        × (c.name ≡ d.cluster)
        × (c.env ≡ d.env)
  unfolding place_with IsAmong
  place_with-legal_for equal_fold to_lower clusters claim current prefer d e =
      let legal = legal_clusters equal_fold to_lower claim clusters in
      let (c, i, n, v) = Holds-ok (
        subst (Holds (IsAmong legal)) e (
          Holds-if_not no_requirement (claim.env == "" && is_empty_list claim.requires) λ _.
            Holds-if_not no_legal_cluster (is_empty_list legal)
              λ _. IsAmong-place_among legal current prefer)) in
      let (j, l) = In-legal_clusters equal_fold to_lower claim clusters i in
      let (r, same, seen) = legal_for-residency equal_fold to_lower claim c l in
      (c, j, l, r, same, seen, n, v)
