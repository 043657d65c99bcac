-- ===== src/Estate/Placement/Preference.antt =====
-- What comes first among the clusters that placement.go may choose, and when it chooses none.
use mantlekeep.Prelude.{
  String, Bool, true, false, List, [], ◌∷◌, ◌==◌, ◌≡◌, ok, Bool-cases, inl, inr, refl, arith, Map,
  is_some, ◌&&◌, ◌||◌, false≢true, ◌∙◌, Option-cases, sym, ap,
}
use mantlekeep.Estate.Placement.{
  Cluster, Claim, legal_for, legal_clusters, cluster_named, stays_put, place_among, place_with,
  stayed_at, is_empty_list, names_of_clusters,
}
use mantlekeep.Estate.Footprint.{PlacementDecision}

module _ (equal_fold : String → String → Bool) (to_lower : String → String) (claim : Claim) where
  -- A cluster of the registry that is legal and has the name.
  unfoldable pub stays_legal : String → List Cluster → Bool
  stays_legal name [] = false
  stays_legal name (c ∷ cs) =
      (c.name == name && legal_for equal_fold to_lower claim c) || stays_legal name cs

  is_some-cluster_named :
      (name : String) (clusters : List Cluster)
      → is_some (cluster_named name (legal_clusters equal_fold to_lower claim clusters))
        ≡ stays_legal name clusters
  unfolding cluster_named legal_clusters stays_legal
  is_some-cluster_named name [] = refl
  is_some-cluster_named name (c ∷ cs) = elim (Bool-cases (legal_for equal_fold to_lower claim c)) [
    | inl e ↦ rw e (ground (arith, e, is_some-cluster_named name cs))
    | inr e ↦ rw e (ground (arith, e, is_some-cluster_named name cs))
  ]

is_empty-cluster_named :
    (name : String) (legal : List Cluster)
    → is_some (cluster_named name legal) ≡ true
    → is_empty_list legal ≡ false
unfolding cluster_named
is_empty-cluster_named name [] e = absurd (false≢true e)
is_empty-cluster_named name (c ∷ cs) e = refl

stays_put-cluster_named :
    (legal : List Cluster) (current : String) (considered : List String)
    → (current == "") ≡ false
    → stays_put legal current considered
      ≡ stayed_at current considered (cluster_named current legal)
unfolding stays_put
stays_put-cluster_named legal current considered c = rw c refl

module _ {F : Type 0} (below : F → F → Bool) (min_free none_free nothing_yet : F)
    (capacity : Map F) where
  -- If its claim names an environment or requires a label, an app that runs on a cluster of the
  -- registry that is still legal stays there, whatever the platform prefers and whatever capacity is
  -- reported.
  pub place_with-stays_legal :
      (equal_fold : String → String → Bool) (to_lower : String → String) (clusters : List Cluster)
      (claim : Claim) (current : String) (prefer : List String)
      → (claim.env == "" && is_empty_list claim.requires) ≡ false
      → (current == "") ≡ false
      → stays_legal equal_fold to_lower claim current clusters ≡ true
      → (d : PlacementDecision) × (place_with below min_free none_free nothing_yet capacity
            equal_fold to_lower clusters claim current prefer
          ≡ ok d)
        × (d.cluster ≡ current)
        × (d.sticky ≡ true)
  unfolding place_with place_among
  place_with-stays_legal equal_fold to_lower clusters claim current prefer e c l =
      let legal = legal_clusters equal_fold to_lower claim clusters in
      let found = is_some-cluster_named equal_fold to_lower claim current clusters ∙ l in
      elim (Option-cases (cluster_named current legal)) [
        | inl n ↦ absurd (false≢true (sym (ap is_some n) ∙ found))
        | inr (a, q) ↦ (
          (record {
            cluster = current;
            env = a.env;
            reason = "already placed here and still permitted";
            considered = names_of_clusters legal;
            sticky = true;
          }),
          rw
              (
                e,
                is_empty-cluster_named current legal found,
                stays_put-cluster_named legal current (names_of_clusters legal) c,
                q,
              )
              refl,
          refl,
          refl,
        )
      ]
