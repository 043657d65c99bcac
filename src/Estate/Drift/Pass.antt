-- ===== src/Estate/Drift/Pass.antt =====
-- One pass of Reconcile over a report.
use mantlekeep.Estate.Drift.{
  Drift, ReconcileOutcome, reconcile_from, is_correctable, Bool, ExecutionToken, List, DesiredItem,
  ◌∷◌, Option, if◌then◌else◌, String, some, not, after_apply, gate_open, true, false, after_drift,
  corrected_with, no_outcome,
}
use mantlekeep.Prelude.{
  ◌≡◌, sym, [], append-nil, ◌++◌, none, arith, Bool-cases, inl, inr, append_assoc, is_some, refl,
  false≢true,
}

abbrev bool_eq : Bool → Bool → Bool
bool_eq true b = b
bool_eq false b = not b

abbrev pub filter_by {ℓ} : {A : Type ℓ} → (A → Bool) → List A → List A
filter_by p [] = []
filter_by p (x ∷ xs) = let rest = filter_by p xs in if p x then x ∷ rest else rest

module _ {W : Type 0} (port : ExecutionToken → DesiredItem → W → Option String × W)
    (token : ExecutionToken) where
  abbrev one_applied : Option DesiredItem → W → W
  one_applied none w = w
  one_applied (some want) w = (port token want w).1

  -- The adapter called for the drifts of a list, in order, whatever it answers.
  abbrev pub all_applied : List Drift → W → W
  all_applied [] w = w
  all_applied (d ∷ ds) w = all_applied ds (one_applied d.desired w)

  -- Whether the adapter, called for the drift, answers with no error.
  abbrev pub succeeds : Option DesiredItem → W → Bool
  succeeds none w = false
  succeeds (some want) w = not (is_some ((port token want w).0))

  -- The drifts of a list whose call succeeds, or does not, where the adapter is called for all of
  -- them in order.
  abbrev pub all_settled : Bool → List Drift → W → List Drift
  all_settled wanted [] w = []
  all_settled wanted (d ∷ ds) w =
      let rest = all_settled wanted ds (one_applied d.desired w) in
      if bool_eq wanted (succeeds d.desired w) then d ∷ rest else rest

  -- What a pass adds to an outcome, and what it leaves of the assets.
  Adds : ReconcileOutcome → W → List Drift → ReconcileOutcome × W → Type 0
  Adds out w ds (out', w') =
      (out'.escalated ≡ out.escalated ++ filter_by (λ d. not (is_correctable d)) ds)
      × (w' ≡ all_applied (filter_by is_correctable ds) w)
      × (out'.corrected ≡ out.corrected ++ all_settled true (filter_by is_correctable ds) w)
      × (out'.failed ≡ out.failed ++ all_settled false (filter_by is_correctable ds) w)

  -- One drift: its outcome against the one before.
  Takes : Drift → Option DesiredItem → ReconcileOutcome → W → ReconcileOutcome × W → Type 0
  Takes d g out w (out', w') =
      (out'.escalated ≡ out.escalated)
      × (w' ≡ one_applied g w)
      × (out'.corrected ≡ out.corrected ++ (if succeeds g w then d ∷ [] else []))
      × (out'.failed ≡ out.failed ++ (if succeeds g w then [] else d ∷ []))

  after_apply-Takes :
      (d : Drift) (out : ReconcileOutcome) (e : Option String)
      → ((after_apply port token d out e).escalated ≡ out.escalated)
        × ((after_apply port token d out e).corrected
            ≡ out.corrected ++ (if not (is_some e) then d ∷ [] else []))
        × ((after_apply port token d out e).failed
            ≡ out.failed ++ (if not (is_some e) then [] else d ∷ []))
  after_apply-Takes d out none = (refl, refl, sym (append-nil out.failed))
  after_apply-Takes d out (some e) = (refl, sym (append-nil out.corrected), refl)

  corrected_with-Takes :
      (d : Drift) (g : Option DesiredItem) (out : ReconcileOutcome) (w : W)
      → gate_open g ≡ true
      → Takes d g out w (corrected_with port token d g out w)
  unfolding Takes
  corrected_with-Takes d none out w q = absurd (false≢true q)
  corrected_with-Takes d (some want) out w q =
      let (e, c, f) = after_apply-Takes d out (port token want w).0 in (e, refl, c, f)

  after_drift-Takes :
      (d : Drift) (out : ReconcileOutcome) (w : W)
      → is_correctable d ≡ true
      → Takes d d.desired out w (after_drift port token d out w)
  unfolding is_correctable after_drift
  after_drift-Takes d out w c = rw c (corrected_with-Takes d d.desired out w (ground arith))

  Leaves : Drift → ReconcileOutcome → W → ReconcileOutcome × W → Type 0
  Leaves d out w (out', w') =
      (out'.escalated ≡ out.escalated ++ d ∷ [])
      × (w' ≡ w)
      × (out'.corrected ≡ out.corrected)
      × (out'.failed ≡ out.failed)

  after_drift-Leaves :
      (d : Drift) (out : ReconcileOutcome) (w : W)
      → is_correctable d ≡ false
      → Leaves d out w (after_drift port token d out w)
  unfolding after_drift Leaves
  after_drift-Leaves d out w c = rw c (refl, refl, refl, refl)

  all_settled-cons :
      (d : Drift) (ds : List Drift) (w : W) (b : Bool)
      → succeeds d.desired w ≡ b
      → (all_settled true (d ∷ ds) w
          ≡ (if b then d ∷ [] else []) ++ all_settled true ds (one_applied d.desired w))
        × (all_settled false (d ∷ ds) w
            ≡ (if b then [] else d ∷ []) ++ all_settled false ds (one_applied d.desired w))
  all_settled-cons d ds w true e = rw e (refl, refl)
  all_settled-cons d ds w false e = rw e (refl, refl)

  reconcile_from-Adds :
      (out : ReconcileOutcome) (w : W) (ds : List Drift)
      → Adds out w ds (reconcile_from port token out w ds)
  unfolding Adds reconcile_from Takes Leaves
  reconcile_from-Adds out w [] = (
    sym (append-nil out.escalated),
    refl,
    sym (append-nil out.corrected),
    sym (append-nil out.failed),
  )
  reconcile_from-Adds out w (d ∷ ds) =
      let (out', w') = after_drift port token d out w in
      let (e, a, n, f) = reconcile_from-Adds out' w' ds in
      elim (Bool-cases (is_correctable d)) [
        | inl c ↦
            let (e₁, a₁, n₁, f₁) = after_drift-Takes d out w c in
            let asked = filter_by is_correctable ds in
            let (won, lost) = all_settled-cons d asked w (succeeds d.desired w) refl in
            rw c (
              rw (e, e₁) refl,
              rw (a, a₁) refl,
              rw (n, n₁, a₁, won) (append_assoc out.corrected _ _),
              rw (f, f₁, a₁, lost) (append_assoc out.failed _ _),
            )
        | inr c ↦
            let (e₁, a₁, n₁, f₁) = after_drift-Leaves d out w c in
            rw c (
              rw (e, e₁)
                  (append_assoc out.escalated (d ∷ [])
                    (filter_by (λ d. not (is_correctable d)) ds)),
              rw (a, a₁) refl,
              rw (n, n₁, a₁) refl,
              rw (f, f₁, a₁) refl,
            )
      ]

  -- A pass escalates exactly the drifts that are not correctable, in the order of the report; it asks
  -- an adapter for exactly the correctable ones, in that order and whatever an earlier answer was. It
  -- records as corrected exactly those whose own call answered with no error, and as failed exactly
  -- those whose own call answered with one, each list in that order too.
  pub reconcile_from-filter_by :
      (w : W) (ds : List Drift)
      → let (out, w') = reconcile_from port token no_outcome w ds in
        let asked = filter_by is_correctable ds in
        (out.escalated ≡ filter_by (λ d. not (is_correctable d)) ds)
        × (w' ≡ all_applied asked w)
        × (out.corrected ≡ all_settled true asked w)
        × (out.failed ≡ all_settled false asked w)
  unfolding Adds
  reconcile_from-filter_by w ds = reconcile_from-Adds no_outcome w ds
