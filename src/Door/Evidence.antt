-- ===== src/Door/Evidence.antt =====
-- Govern before execute: what the log holds when the door answers.
use mantlekeep.Prelude.{
  String, Bool, true, false, ◌≡◌, refl, some, List, [], ◌∷◌, ◌++◌, ◌==◌, Result, ok, err, arith,
  Bool-cases, Result-cases, inl, inr, ap, Map, sym, ◌∙◌,
}
use mantlekeep.Contracts.{
  Subject, Intent, Decision, ExecutionToken, Error, Role, policy_input_for, allow, DecisionAction,
  decision_error, failure,
}
use mantlekeep.Audit.{Bolt, log, linked, last_hash, verify}
use mantlekeep.Audit.Chain.{verify-log}
use mantlekeep.Door.{
  Ports, submit, external_identity, evidence, token_for, issue, decided, goal_required,
  unknown_subject, concat,
}

-- The log with the evidence of a decision put behind it.
abbrev pub with_evidence : Ports → Bolt → Intent → Subject → Decision → Bolt
with_evidence p b intent subject d = record {
  entries =
      b.entries
      ++ some (linked p.digest (last_hash "" b.entries) (evidence p intent subject d)) ∷ [];
}

-- The identity that the door resolved, and the decision on it.
pub record Decided (p : Ports) (intent : Intent) (subject : Subject) (d : Decision) : Type 0 where
  pub goal_stated : intent.spec.goal == "" ≡ false
  pub resolved : p.resolve_identity (external_identity intent) ≡ ok subject
  pub decision : p.evaluate_policy (policy_input_for subject intent) ≡ ok d

-- The log grows by the record of a decision that is reached and committed.
pub submit-records :
    (p : Ports) (b : Bolt) (intent : Intent) (subject : Subject) (d : Decision)
    → Decided p intent subject d
    → p.commits ≡ true
    → submit p b intent ≡ (issue p intent d d.action, with_evidence p b intent subject d)
unfolding submit log
submit-records p b intent subject d h c = rw (h.goal_stated, h.resolved, h.decision, c) refl

issue-token :
    (p : Ports) (intent : Intent) (d : Decision) (a : DecisionAction) (t : ExecutionToken)
    → issue p intent d a ≡ ok t
    → (a ≡ allow) × (t ≡ token_for p intent d)
issue-token p intent d allow t h = ground arith
issue-token p intent d _ t h = cc

-- The answers that decide nothing, and leave the log alone.
pub submit-no_goal :
    (p : Ports) (b : Bolt) (intent : Intent)
    → intent.spec.goal == "" ≡ true
    → submit p b intent ≡ (err (decision_error goal_required), b)
unfolding submit
submit-no_goal p b intent g = rw g refl

pub submit-unknown_subject :
    (p : Ports) (b : Bolt) (intent : Intent) (why : String)
    → intent.spec.goal == "" ≡ false
    → p.resolve_identity (external_identity intent) ≡ err why
    → submit p b intent ≡ (err (decision_error (unknown_subject intent.subject.id why)), b)
unfolding submit
submit-unknown_subject p b intent why g e = rw (g, e) refl

pub submit-policy_error :
    (p : Ports) (b : Bolt) (intent : Intent) (subject : Subject) (why : String)
    → intent.spec.goal == "" ≡ false
    → p.resolve_identity (external_identity intent) ≡ ok subject
    → p.evaluate_policy (policy_input_for subject intent) ≡ err why
    → submit p b intent ≡ (err (failure (concat "policy error: " why)), b)
unfolding submit
submit-policy_error p b intent subject why g e d = rw (g, e, d) refl

pub submit-audit_error :
    (p : Ports) (b : Bolt) (intent : Intent) (subject : Subject) (d : Decision)
    → Decided p intent subject d
    → p.commits ≡ false
    → submit p b intent ≡ (err (failure (concat "audit error: " "transaction failed")), b)
unfolding submit log
submit-audit_error p b intent subject d h c = rw (h.goal_stated, h.resolved, h.decision, c) refl

-- Every run of the door: the log as it was and an error, or a decision with its evidence behind
-- the log.
pub data Outcome (p : Ports) (b : Bolt) (intent : Intent) : Type 0 where
  unrecorded : (e : Error) → submit p b intent ≡ (err e, b) → Outcome p b intent
  recorded :
      (subject : Subject) (d : Decision)
      → Decided p intent subject d
      → submit p b intent ≡ (issue p intent d d.action, with_evidence p b intent subject d)
      → Outcome p b intent

decided-Outcome :
    (p : Ports) (b : Bolt) (intent : Intent) (subject : Subject)
    → intent.spec.goal == "" ≡ false
    → p.resolve_identity (external_identity intent) ≡ ok subject
    → Outcome p b intent
decided-Outcome p b intent subject g e =
    elim (Result-cases (p.evaluate_policy (policy_input_for subject intent))) [
      | inr (why, x) ↦ unrecorded _ (submit-policy_error p b intent subject why g e x)
      | inl (d, x) ↦
          let h : Decided p intent subject d = record {
            goal_stated = g;
            resolved = e;
            decision = x;
          } in
          elim (Bool-cases p.commits) [
            | inl c ↦ recorded subject d h (submit-records p b intent subject d h c)
            | inr c ↦ unrecorded _ (submit-audit_error p b intent subject d h c)
          ]
    ]

pub submit-Outcome : (p : Ports) (b : Bolt) (intent : Intent) → Outcome p b intent
submit-Outcome p b intent = elim (Bool-cases (intent.spec.goal == "")) [
  | inl g ↦ unrecorded _ (submit-no_goal p b intent g)
  | inr g ↦ elim (Result-cases (p.resolve_identity (external_identity intent))) [
    | inl (subject, e) ↦ decided-Outcome p b intent subject g e
    | inr (why, e) ↦ unrecorded _ (submit-unknown_subject p b intent why g e)
  ]
]

pub data Granted (p : Ports) (b b' : Bolt) (intent : Intent) (t : ExecutionToken) : Type 0 where
  granted :
      (subject : Subject) (d : Decision)
      → Decided p intent subject d
      → d.action ≡ allow
      → b' ≡ with_evidence p b intent subject d
      → t ≡ token_for p intent d
      → Granted p b b' intent t

-- No token without evidence: if the door issues a token, the goal was stated, the identity
-- resolved, the policy allowed that subject and intent, and the record of the allow is the newest
-- on the log, behind all that was there before; the token names the intent and the deciding policy.
pub submit-token :
    (p : Ports) (b b' : Bolt) (intent : Intent) (t : ExecutionToken)
    → submit p b intent ≡ (ok t, b')
    → Granted p b b' intent t
submit-token p b b' intent t h = token_of (submit-Outcome p b intent)
  where
    token_of : Outcome p b intent → Granted p b b' intent t
    token_of (unrecorded e o) =
        cc (ap (λ (x : Result Error ExecutionToken × Bolt). x.0) (sym o ∙ h))
    token_of (recorded subject d dec o) =
        let same = sym o ∙ h in
        let first = ap (λ (x : Result Error ExecutionToken × Bolt). x.0) same in
        let second = ap (λ (x : Result Error ExecutionToken × Bolt). x.1) same in
        let (a, token) = issue-token p intent d d.action t first in
        granted subject d dec a (sym second) token

decided-ignores_claims :
    (p : Ports) (b : Bolt) (intent : Intent) (claimed subject : Subject)
    (r : Result String Decision)
    → decided p b (record intent { subject = claimed }) subject r ≡ decided p b intent subject r
unfolding log
decided-ignores_claims p b intent claimed subject (err e) = refl
decided-ignores_claims p b intent claimed subject (ok d) = ground arith

-- The caller's own claims about roles, attributes and being an AI change nothing: the door reads
-- only the caller's id and groups.
pub submit-ignores_claims :
    (p : Ports) (b : Bolt) (intent : Intent) (roles : List Role) (is_ai : Bool) (attrs : Map String)
    → submit p b (record intent {
      subject = record intent.subject { roles = roles; is_ai = is_ai; attrs = attrs };
    })
      ≡ submit p b intent
unfolding submit policy_input_for
submit-ignores_claims p b intent roles is_ai attrs =
    let claimed = record intent.subject { roles = roles; is_ai = is_ai; attrs = attrs } in
    elim (Result-cases (p.resolve_identity (external_identity intent))) [
      | inl (subject, e) ↦ rw e (
          rw
            (decided-ignores_claims p b intent claimed subject
              (p.evaluate_policy (policy_input_for subject intent)))
            refl)
      | inr (why, e) ↦ rw e refl
    ]

-- A door on an intact log leaves an intact log, whatever it answers.
pub verify-submit :
    (p : Ports) (b : Bolt) (intent : Intent)
    → verify p.digest b ≡ true
    → verify p.digest (submit p b intent).1 ≡ true
verify-submit p b intent v = intact (submit-Outcome p b intent)
  where
    intact : Outcome p b intent → verify p.digest (submit p b intent).1 ≡ true
    intact (unrecorded e o) = rw o v
    intact (recorded subject d dec o) =
        rw o (unfold log in verify-log p.digest true b (evidence p intent subject d) v)
