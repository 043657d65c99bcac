-- ===== src/Door/Refusals.antt =====
-- sdk.go: what the log holds when the door refuses, and what its errors say.
use Prim.Native.String
use mantlekeep.Prelude.Text.{prefixed-ne-empty}
use mantlekeep.Prelude.{
  Option, subst, String, true, false, ◌≡◌, refl, some, none, ◌==◌, Result, ok, err, arith, Bool,
  ◌<◌, Bool-cases, Result-cases, inl, inr, ap, sym, ◌∙◌,
}
use mantlekeep.Contracts.{
  Subject, Intent, Decision, ExecutionToken, Error, policy_input_for, allow, DecisionAction,
  decision_error, failure, deny, require_approval, has_text,
}
use mantlekeep.Audit.{Bolt}
use mantlekeep.Door.{
  Ports, submit, external_identity, issue, goal_required, unknown_subject, concat,
}
use mantlekeep.Door.Evidence.{
  Decided, with_evidence, submit-records, submit-no_goal, submit-unknown_subject,
  submit-policy_error, submit-audit_error,
}

-- A refusal that carries a decision: one of the door's own two, or the policy's.
pub data Refusal (p : Ports) (b b' : Bolt) (intent : Intent) (d : Decision) : Type 0 where
  goalless : intent.spec.goal == "" ≡ true → d ≡ goal_required → b' ≡ b → Refusal p b b' intent d
  unresolved :
      (why : String)
      → p.resolve_identity (external_identity intent) ≡ err why
      → d ≡ unknown_subject intent.subject.id why
      → b' ≡ b
      → Refusal p b b' intent d
  refused_by_policy :
      (subject : Subject)
      → Decided p intent subject d
      → ¬ (d.action ≡ allow)
      → b' ≡ with_evidence p b intent subject d
      → Refusal p b b' intent d

-- The decision that an error carries.
abbrev carried : Result Error ExecutionToken → Option Decision
carried (err (decision_error d)) = some d
carried _ = none

carried-issue :
    (p : Ports) (intent : Intent) (d : Decision) (a : DecisionAction) (d' : Decision)
    → carried (issue p intent d a) ≡ some d'
    → ¬ (a ≡ allow) × (d ≡ d')
carried-issue p intent d allow d' h = absurd (ground arith)
carried-issue p intent d deny d' h = ((λ e. absurd (ground arith)), ground arith)
carried-issue p intent d require_approval d' h = ((λ e. absurd (ground arith)), ground arith)

same_answer :
    {x y : Result Error ExecutionToken} {b₁ b₂ : Bolt} {z : Result Error ExecutionToken × Bolt}
    → z ≡ (x, b₁)
    → z ≡ (y, b₂)
    → (carried x ≡ carried y) × (b₂ ≡ b₁)
same_answer o h =
    let e = sym o ∙ h in
    (
      ap (λ (r : Result Error ExecutionToken × Bolt). carried r.0) e,
      sym (ap (λ (r : Result Error ExecutionToken × Bolt). r.1) e),
    )

decided-Refusal :
    (p : Ports) (b b' : Bolt) (intent : Intent) (subject : Subject) (d : Decision)
    → intent.spec.goal == "" ≡ false
    → p.resolve_identity (external_identity intent) ≡ ok subject
    → submit p b intent ≡ (err (decision_error d), b')
    → Refusal p b b' intent d
decided-Refusal p b b' intent subject d g e h =
    elim (Result-cases (p.evaluate_policy (policy_input_for subject intent))) [
      | inr (why, x) ↦
          let (c, l) = same_answer (submit-policy_error p b intent subject why g e x) h in
          absurd (ground arith)
      | inl (d', x) ↦
          let dec : Decided p intent subject d' = record {
            goal_stated = g;
            resolved = e;
            decision = x;
          } in
          elim (Bool-cases p.commits) [
            | inl k ↦
                let (c, l) = same_answer (submit-records p b intent subject d' dec k) h in
                let (refused, eq) = carried-issue p intent d' d'.action d c in
                subst (Refusal p b b' intent) eq (refused_by_policy subject dec refused l)
            | inr k ↦
                let (c, l) = same_answer (submit-audit_error p b intent subject d' dec k) h in
                absurd (ground arith)
          ]
    ]

some-injective {ℓ} : {A : Type ℓ} {x y : A} → some x ≡ some y → y ≡ x
some-injective e = cc

-- No refusal by the policy without evidence: if the door answers with an error that carries a
-- decision, then this is the refusal of an intent without a goal, or of a caller whom the resolver
-- does not know, and the log is as it was; or it is the evaluator's own decision on the resolved
-- subject and this intent, is no allow, and the record of it is the newest on the log, behind all
-- that was there before.
pub submit-Refusal :
    (p : Ports) (b b' : Bolt) (intent : Intent) (d : Decision)
    → submit p b intent ≡ (err (decision_error d), b')
    → Refusal p b b' intent d
submit-Refusal p b b' intent d h = elim (Bool-cases (intent.spec.goal == "")) [
  | inl g ↦
      let (c, l) = same_answer (submit-no_goal p b intent g) h in goalless g (some-injective c) l
  | inr g ↦ elim (Result-cases (p.resolve_identity (external_identity intent))) [
    | inl (subject, e) ↦ decided-Refusal p b b' intent subject d g e h
    | inr (why, e) ↦
        let (c, l) = same_answer (submit-unknown_subject p b intent why g e) h in
        unresolved why e (some-injective c) l
  ]
]

-- Every error of the door has a text.
abbrev tells : Result Error ExecutionToken × Bolt → Bool
tells (ok t, b) = true
tells (err e, b) = has_text e

tells-issue :
    (p : Ports) (b : Bolt) (intent : Intent) (d : Decision) (a : DecisionAction)
    → tells (issue p intent d a, b) ≡ true
tells-issue p b intent d allow = refl
tells-issue p b intent d deny = refl
tells-issue p b intent d require_approval = refl

tells-failure :
    (b : Bolt) (prefix why : String)
    → 0 < String.len prefix
    → tells (err (failure (concat prefix why)), b) ≡ true
tells-failure b prefix why h = rw (prefixed-ne-empty prefix why h) refl

tells-submit : (p : Ports) (b : Bolt) (intent : Intent) → tells (submit p b intent) ≡ true
tells-submit p b intent = elim (Bool-cases (intent.spec.goal == "")) [
  | inl g ↦ rw (submit-no_goal p b intent g) refl
  | inr g ↦ elim (Result-cases (p.resolve_identity (external_identity intent))) [
    | inr (why, e) ↦ rw (submit-unknown_subject p b intent why g e) refl
    | inl (subject, e) ↦ elim (Result-cases (p.evaluate_policy (policy_input_for subject intent))) [
      | inr (why, x) ↦
          rw (submit-policy_error p b intent subject why g e x)
            (tells-failure b "policy error: " why (omega arith))
      | inl (d, x) ↦
          let dec : Decided p intent subject d = record {
            goal_stated = g;
            resolved = e;
            decision = x;
          } in
          elim (Bool-cases p.commits) [
            | inl k ↦
                rw (submit-records p b intent subject d dec k)
                  (tells-issue p (with_evidence p b intent subject d) intent d d.action)
            | inr k ↦
                rw (submit-audit_error p b intent subject d dec k)
                  (tells-failure b "audit error: " "transaction failed" (omega arith))
          ]
    ]
  ]
]

pub submit-has_text :
    (p : Ports) (b b' : Bolt) (intent : Intent) (e : Error)
    → submit p b intent ≡ (err e, b')
    → has_text e ≡ true
submit-has_text p b b' intent e h = sym (ap tells h) ∙ tells-submit p b intent
