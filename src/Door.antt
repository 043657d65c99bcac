-- ===== src/Door.antt =====
-- mantlekeep-control/internal/sdk/sdk.go: the one door. The identity resolver and the policy
-- evaluator are ports, given by their answers; the clock, the random source, the hash and whether
-- the audit transaction commits are inputs. Time is in nanoseconds.
pub mod Evidence
pub mod Refusals
use mantlekeep.Prelude.{
  ℕ, ◌+◌, String, Bool, true, false, Option, none, some, List, [], ◌∷◌, ◌++◌, if◌then◌else◌, ◌==◌,
  Result, ok, err,
}
use mantlekeep.Contracts.{
  Subject, ExternalIdentity, Intent, Decision, DecisionAction, PolicyInput, ExecutionToken,
  AuditRecord, Error, decision_error, failure, policy_input_for, allow, deny, require_approval,
  identity, validation, DenialCategory,
}
use mantlekeep.Audit.{Bolt, Digest, log}
use mantlekeep.Prelude.Text.{concat}

pub record Ports : Type 0 where
  pub resolve_identity : ExternalIdentity → Result String Subject
  pub evaluate_policy : PolicyInput → Result String Decision
  pub digest : Digest
  pub commits : Bool
  pub logged_at : ℕ
  pub issued_at : ℕ
  pub random : String

abbrev two_hours : ℕ
two_hours = 7_200_000_000_000

abbrev refusal : String → DenialCategory → Decision
refusal reason category = record {
  action = deny;
  reason = reason;
  category = category;
  required_approvers = [];
  policy_id = "";
  warnings = [];
  step = "";
}

abbrev pub goal_required : Decision
goal_required = refusal "intent rejected: intent_spec.goal is required" validation

abbrev pub unknown_subject : String → String → Decision
unknown_subject id why =
    refusal (concat "intent rejected: unknown subject " (concat id (concat ": " why))) identity

abbrev pub external_identity : Intent → ExternalIdentity
external_identity intent = record {
  id = intent.subject.id;
  groups = intent.subject.ad_groups;
  attrs = [];
}

-- What the door writes down of a decision.
abbrev pub evidence : Ports → Intent → Subject → Decision → AuditRecord
evidence p intent subject d = record {
  timestamp = p.logged_at;
  intent_id = intent.id;
  subject_id = subject.id;
  action = intent.action;
  decision = d.action;
  policy_id = d.policy_id;
  is_ai = subject.is_ai;
  via = intent.via;
  run_id = "";
  parent_id = "";
  step_id = "";
  prev_hash = "";
  hash = "";
}

abbrev pub token_for : Ports → Intent → Decision → ExecutionToken
token_for p intent d = record {
  value = p.random;
  intent_id = intent.id;
  scope = intent.resource;
  policy_id = d.policy_id;
  issued_at = p.issued_at;
  expires_at = p.issued_at + two_hours;
}

abbrev pub issue : Ports → Intent → Decision → DecisionAction → Result Error ExecutionToken
issue p intent d allow = ok (token_for p intent d)
issue p intent d deny = err (decision_error d)
issue p intent d require_approval = err (decision_error d)

-- The answer, once the logger has answered.
abbrev pub after_log :
    Ports
    → Intent
    → Decision
    → Result String AuditRecord × Bolt
    → Result Error ExecutionToken × Bolt
after_log p intent d (ok rec, b) = (issue p intent d d.action, b)
after_log p intent d (err e, b) = (err (failure (concat "audit error: " e)), b)

abbrev pub decided :
    Ports → Bolt → Intent → Subject → Result String Decision → Result Error ExecutionToken × Bolt
decided p b intent subject (err e) = (err (failure (concat "policy error: " e)), b)
decided p b intent subject (ok d) =
    after_log p intent d (log p.digest p.commits b (evidence p intent subject d))

abbrev pub identified :
    Ports → Bolt → Intent → Result String Subject → Result Error ExecutionToken × Bolt
identified p b intent (err e) = (err (decision_error (unknown_subject intent.subject.id e)), b)
identified p b intent (ok subject) =
    decided p b intent subject (p.evaluate_policy (policy_input_for subject intent))

-- Submit: the token or the error, and the log.
unfoldable pub submit : Ports → Bolt → Intent → Result Error ExecutionToken × Bolt
submit p b intent =
    if intent.spec.goal == ""
    then (err (decision_error goal_required), b)
    else identified p b intent (p.resolve_identity (external_identity intent))
