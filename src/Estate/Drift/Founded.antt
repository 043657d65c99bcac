-- ===== src/Estate/Drift/Founded.antt =====
-- reconcile.go: what of a drift report may be corrected.
use mantlekeep.Estate.Drift.{
  Drift, ObservedItem, diff_owned, List, ℕ, String, place_drift, sorted_drifts, Option,
  desired_drifts, unexpected_drifts, ◌∷◌, drift_of, Map, some, differs, Difference, changed_by,
  lookup, contains, leb_text, desired_key, observed_key, drift_key, index_from, desired_keys,
  gate_open, is_correctable, true, gate_none,
}
use mantlekeep.Estate.Footprint.{DesiredItem}
use mantlekeep.Estate.Ownership.{Ownership}
use mantlekeep.Prelude.{
  ◌≡◌, ◌++◌, All, arith, In, Bool-cases, [], none, refl, inl, inr, there, here, All-append, ◌==◌,
  All-In,
}

module _ (duration_text : ℕ → String) where
  abbrev IsApproved : List DesiredItem → Option DesiredItem → Type 0
  IsApproved wants none = Unit
  IsApproved wants (some want) = In want wants

  -- What a drift would be corrected to was approved.
  abbrev Founded : List DesiredItem → Drift → Type 0
  Founded wants d = IsApproved wants d.desired

  All-place_drift :
      (P : Drift → Type 0) (d : Drift) (ds : List Drift)
      → P d
      → All P ds
      → All P (place_drift duration_text d ds)
  unfolding place_drift
  All-place_drift P d [] p h = (p, tt)
  All-place_drift P d (e ∷ es) p h =
      elim (Bool-cases (leb_text (drift_key duration_text d) (drift_key duration_text e))) [
        | inl c ↦ rw c (p, h)
        | inr c ↦ rw c (h.0, All-place_drift P d es p h.1)
      ]

  All-sorted_drifts :
      (P : Drift → Type 0) (ds : List Drift) → All P ds → All P (sorted_drifts duration_text ds)
  unfolding sorted_drifts
  All-sorted_drifts P [] h = tt
  All-sorted_drifts P (d ∷ ds) h =
      All-place_drift P d (sorted_drifts duration_text ds) h.0 (All-sorted_drifts P ds h.1)

  IsApproved-cons :
      (want : DesiredItem) (wants : List DesiredItem) (o : Option DesiredItem)
      → IsApproved wants o
      → IsApproved (want ∷ wants) o
  IsApproved-cons want wants none h = tt
  IsApproved-cons want wants (some w) h = there h

  All-Founded-cons :
      (want : DesiredItem) (wants : List DesiredItem) (ds : List Drift)
      → All (Founded wants) ds
      → All (Founded (want ∷ wants)) ds
  All-Founded-cons want wants [] h = tt
  All-Founded-cons want wants (d ∷ ds) h =
      (IsApproved-cons want wants d.desired h.0, All-Founded-cons want wants ds h.1)

  changed_by-Founded :
      (want : DesiredItem) (wants : List DesiredItem) (got : ObservedItem) (xs : List Difference)
      → All (Founded (want ∷ wants)) (changed_by duration_text want got xs)
  changed_by-Founded want wants got [] = tt
  changed_by-Founded want wants got (x ∷ xs) = (here refl, tt)

  drift_of-Founded :
      (o : Ownership) (want : DesiredItem) (wants : List DesiredItem) (got : Option ObservedItem)
      → All (Founded (want ∷ wants)) (drift_of duration_text o want got)
  drift_of-Founded o want wants none = (here refl, tt)
  drift_of-Founded o want wants (some got) =
      changed_by-Founded want wants got (differs duration_text o want got)

  desired_drifts-Founded :
      (o : Ownership) (actual : Map ObservedItem) (wants : List DesiredItem)
      → All (Founded wants) (desired_drifts duration_text o actual wants)
  unfolding desired_drifts
  desired_drifts-Founded o actual [] = tt
  desired_drifts-Founded o actual (want ∷ wants) =
      All-append (Founded (want ∷ wants))
        (drift_of duration_text o want (lookup (desired_key want) actual))
        (desired_drifts duration_text o actual wants)
        (drift_of-Founded o want wants (lookup (desired_key want) actual))
        (All-Founded-cons want wants (desired_drifts duration_text o actual wants)
          (desired_drifts-Founded o actual wants))

  unexpected_drifts-Founded :
      (wants : List DesiredItem) (seen : List String) (items : List ObservedItem)
      → All (Founded wants) (unexpected_drifts duration_text seen items)
  unfolding unexpected_drifts
  unexpected_drifts-Founded wants seen [] = tt
  unexpected_drifts-Founded wants seen (got ∷ items) =
      elim (Bool-cases (contains seen (observed_key got))) [
        | inl c ↦ rw c (unexpected_drifts-Founded wants seen items)
        | inr c ↦ rw c (tt, unexpected_drifts-Founded wants seen items)
      ]

  ungated :
      (wants : List DesiredItem) (o : Option DesiredItem)
      → IsApproved wants o
      → gate_open o ≡ true
      → (want : DesiredItem) × (o ≡ some want) × In want wants × ((want.gate == gate_none) ≡ true)
  ungated wants none a g = ground arith
  ungated wants (some want) a g = (want, refl, a, g)

  is_correctable-gate_open : (d : Drift) → is_correctable d ≡ true → gate_open d.desired ≡ true
  unfolding is_correctable
  is_correctable-gate_open d h = ground arith

  -- What the reconciler may correct by itself is a resource that was approved and whose change
  -- carried no gate.
  pub diff_owned-correctable :
      (wants : List DesiredItem) (items : List ObservedItem) (o : Ownership) (d : Drift)
      → In d (diff_owned duration_text wants items o)
      → is_correctable d ≡ true
      → (want : DesiredItem) × (d.desired ≡ some want)
        × In want wants
        × ((want.gate == gate_none) ≡ true)
  unfolding diff_owned
  diff_owned-correctable wants items o d i h =
      let raw = desired_drifts duration_text o (index_from [] items) wants in
      let extra = unexpected_drifts duration_text (desired_keys duration_text wants) items in
      let all = All-sorted_drifts (Founded wants) (raw ++ extra) (
        All-append (Founded wants) raw extra (desired_drifts-Founded o (index_from [] items) wants)
          (unexpected_drifts-Founded wants (desired_keys duration_text wants) items)) in
      ungated wants d.desired
        (All-In (Founded wants) (sorted_drifts duration_text (raw ++ extra)) all i)
        (is_correctable-gate_open d h)
