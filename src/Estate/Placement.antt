-- ===== src/Estate/Placement.antt =====
-- mantlekeep-estate/placement.go. A share of free capacity is a float64: its type, its order and the
-- program's three literals of it are parameters, and so are strings.EqualFold and strings.ToLower.
-- The words of an error are its constructor.
pub mod Legality
pub mod Preference
use mantlekeep.Prelude.{
  ℕ, String, Bool, true, false, Option, none, some, List, [], ◌∷◌, ◌++◌, if◌then◌else◌, ◌==◌, not,
  ◌&&◌, ◌||◌, Map, lookup, lookup_or, insert, is_empty_list, is_some, Result, ok, err, any,
  contains,
}
use mantlekeep.Prelude.Text.{concat, trim_space}
use mantlekeep.Estate.Drift.{place_text}
use mantlekeep.Estate.Footprint.{PlacementDecision}

pub record Cluster : Type 0 where
  pub name : String
  pub provider : String
  pub region : String
  pub env : String
  pub purpose : String
  pub residency : String
  pub labels : Map String
  pub namespace : String
  pub reachable : Bool

-- The type Placement of the source: what a team asks for.
pub record Claim : Type 0 where
  pub env : String
  pub purpose : String
  pub residency : String
  pub requires : Map String

pub data PlacementError : Type 0 where
  no_requirement no_legal_cluster every_cluster_full : PlacementError

-- namesOf
unfoldable pub names_of_clusters : List Cluster → List String
names_of_clusters [] = []
names_of_clusters (c ∷ cs) = place_text c.name (names_of_clusters cs)

abbrev pub comma_then : String → List String → String
comma_then a [] = a
comma_then a (b ∷ bs) = concat a (concat ", " (comma_then b bs))

-- strings.Join with ", ".
abbrev pub joined : List String → String
joined [] = ""
joined (a ∷ rest) = comma_then a rest

module _ (equal_fold : String → String → Bool) (to_lower : String → String) where
  -- What labelled reads where the cluster has no label of that key.
  abbrev pub named_field : Cluster → String → String
  named_field c key =
      if key == "env" || key == "environment"
      then c.env
      else if key == "purpose"
      then c.purpose
      else if key == "region"
      then c.region
      else if key == "provider"
      then c.provider
      else if key == "residency"
      then c.residency
      else ""

  abbrev pub labelled_or : Option String → String → String
  labelled_or none other = other
  labelled_or (some value) other = value

  -- labelled
  unfoldable pub labelled : Cluster → String → String
  labelled c key = labelled_or (lookup key c.labels) (named_field c (to_lower (trim_space key)))

  -- The loop of legalFor over what the claim requires.
  unfoldable pub carries_all : Cluster → Map String → Bool
  carries_all c [] = true
  carries_all c ((key, want) ∷ requires) =
      let rest = carries_all c requires in
      if want == "" || not (equal_fold (labelled c key) want) then false else rest

  -- legalFor
  unfoldable pub legal_for : Claim → Cluster → Bool
  legal_for claim c =
      if not (claim.env == "") && not (equal_fold c.env claim.env)
      then false
      else if not (carries_all c claim.requires)
      then false
      else if not (claim.purpose == "") && not (equal_fold c.purpose claim.purpose)
      then false
      else if claim.residency == ""
      then false
      else if not (equal_fold c.residency claim.residency)
      then false
      else c.reachable

  -- legalClusters
  unfoldable pub legal_clusters : Claim → List Cluster → List Cluster
  legal_clusters claim [] = []
  legal_clusters claim (c ∷ cs) =
      let rest = legal_clusters claim cs in if legal_for claim c then c ∷ rest else rest

-- The first cluster of a name, as the loops of staysPut and firstPreferred look for it.
unfoldable pub cluster_named : String → List Cluster → Option Cluster
cluster_named name [] = none
cluster_named name (c ∷ cs) =
    let rest = cluster_named name cs in if c.name == name then some c else rest

-- staysPut
abbrev pub stayed_at : String → List String → Option Cluster → Option PlacementDecision
stayed_at current considered none = none
stayed_at current considered (some c) = some (record {
  cluster = current;
  env = c.env;
  reason = "already placed here and still permitted";
  considered = considered;
  sticky = true;
})

unfoldable pub stays_put : List Cluster → String → List String → Option PlacementDecision
stays_put legal current considered =
    if current == "" then none else stayed_at current considered (cluster_named current legal)

abbrev pub or_else : Option Cluster → Option Cluster → Option Cluster
or_else none other = other
or_else (some c) other = some c

abbrev pub reason_after : List String → String → String
reason_after prefer reason =
    if not (is_empty_list prefer)
    then concat "no preferred cluster ("
        (concat (joined prefer) (concat ") could take this workload — " reason))
    else reason

abbrev pub chosen : Cluster → String → List String → PlacementDecision
chosen c reason considered = record {
  cluster = c.name;
  env = c.env;
  reason = reason;
  considered = considered;
  sticky = false;
}

abbrev pub by_preference :
    List String
    → Option Cluster
    → Result PlacementError PlacementDecision
    → Result PlacementError PlacementDecision
by_preference considered none other = other
by_preference considered (some c) other =
    ok (chosen c "preferred by the platform for this workload" considered)

abbrev pub by_staying :
    Option PlacementDecision
    → Result PlacementError PlacementDecision
    → Result PlacementError PlacementDecision
by_staying none other = other
by_staying (some stayed) other = ok stayed

module _ {F : Type 0} (below : F → F → Bool) (min_free none_free nothing_yet : F)
    (capacity : Map F) where
  abbrev pub is_below : Option F → Bool
  is_below none = false
  is_below (some free) = below free min_free

  -- The report says that the cluster has too little room.
  abbrev pub is_full : String → Bool
  is_full name = is_below (lookup name capacity)

  -- The inner loop of firstPreferred: it looks at clusters up to the first of the name.
  abbrev pub with_room : Option Cluster → Option Cluster
  with_room none = none
  with_room (some c) = if is_full c.name then none else some c

  -- firstPreferred
  unfoldable pub first_preferred : List Cluster → List String → Option Cluster
  first_preferred legal [] = none
  first_preferred legal (name ∷ prefer) =
      or_else (with_room (cluster_named name legal)) (first_preferred legal prefer)

  abbrev pub free_of : String → F
  free_of name = lookup_or none_free name capacity

  -- The loop of emptiest, with the best so far and its room.
  unfoldable pub emptiest_from : Option Cluster → F → List Cluster → Option Cluster
  emptiest_from best best_free [] = best
  emptiest_from best best_free (c ∷ cs) =
      let rest = emptiest_from best best_free cs in
      let taken = emptiest_from (some c) (free_of c.name) cs in
      if is_full c.name then rest else if below best_free (free_of c.name) then taken else rest

  -- emptiest
  abbrev pub emptiest : List Cluster → Option Cluster
  emptiest legal = emptiest_from none nothing_yet legal

  -- reasonFor
  abbrev pub reason_for : Cluster → String → String
  reason_for best current =
      let reason =
        if is_some (lookup best.name capacity)
        then "the emptiest permitted cluster"
        else "permitted; no capacity reported, so chosen by name" in
      if not (current == "")
      then concat "moved: " (concat reason " (the previous cluster is no longer permitted)")
      else reason

  abbrev pub by_capacity :
      String → List String → List String → Option Cluster → Result PlacementError PlacementDecision
  by_capacity current prefer considered none = err every_cluster_full
  by_capacity current prefer considered (some best) =
      ok (chosen best (reason_after prefer (reason_for best current)) considered)

  -- PlaceWith, from the clusters that are legal on.
  unfoldable pub place_among :
      List Cluster → String → List String → Result PlacementError PlacementDecision
  place_among legal current prefer =
      let considered = names_of_clusters legal in
      by_staying (stays_put legal current considered) (
        by_preference considered (first_preferred legal prefer)
          (by_capacity current prefer considered (emptiest legal)))

  -- PlaceWith
  unfoldable pub place_with :
      (equal_fold : String → String → Bool)
      → (to_lower : String → String) → List Cluster
      → Claim
      → String
      → List String
      → Result PlacementError PlacementDecision
  place_with equal_fold to_lower clusters claim current prefer =
      let legal = legal_clusters equal_fold to_lower claim clusters in
      let placed = place_among legal current prefer in
      if claim.env == "" && is_empty_list claim.requires
      then err no_requirement
      else if is_empty_list legal
      then err no_legal_cluster
      else placed
