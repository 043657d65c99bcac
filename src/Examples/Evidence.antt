-- ===== src/Examples/Evidence.antt =====
-- A door over the small deployment, and its log.
use mantlekeep.Prelude.{
  ◌≢◌, eq_iff, arith, refl, true, false, ◌≡◌, some, [], ◌∷◌, Option, ok, ◌⊎◌, List,
}
use mantlekeep.Examples.Data.{operator}
use mantlekeep.Door.{Ports, submit, token_for}
use mantlekeep.Contracts.{
  Decision, Subject, AuditRecord, allow, deny, Intent, none_given, policy_input_for,
}
use mantlekeep.Audit.{Bolt, verify, Digest, verify_from, log}
use mantlekeep.Door.Evidence.{Granted, submit-token}
use mantlekeep.Door.Refusals.{Refusal, submit-Refusal}
use mantlekeep.Audit.Tamper.{Collision, verify-pins_entries}
use mantlekeep.Audit.Chain.{verify-log}

abbrev one_digest : Digest
one_digest rec = "h"

abbrev allowing : Decision
allowing = record {
  action = allow;
  reason = "";
  category = none_given;
  required_approvers = [];
  policy_id = "acme.rbac";
  warnings = [];
  step = "";
}

-- Anybody resolves to an operator, and every request is allowed.
abbrev pub ports : Ports
ports = record {
  resolve_identity = λ who. ok (record {
    id = who.id;
    roles = operator ∷ [];
    ad_groups = who.groups;
    is_ai = false;
    attrs = [];
  });
  evaluate_policy = λ input. ok allowing;
  digest = one_digest;
  commits = true;
  logged_at = 5;
  issued_at = 6;
  random = "r4nd0m";
}

abbrev pub ann : Subject
ann = record { id = "ann"; roles = operator ∷ []; ad_groups = []; is_ai = false; attrs = [] }

abbrev intent : Intent
intent = record {
  id = "i1";
  subject = ann;
  action = "deploy.run";
  resource = "cart";
  spec = record {
    goal = "ship it";
    affected_systems = [];
    risk_level = "";
    preconditions = [];
    postconditions = [];
    rollback_plan = "";
  };
  params = [];
  submitted_at = 1;
  ttl = 0;
  via = "cli";
}

abbrev pub empty_log : Bolt
empty_log = record { entries = [] }

abbrev rec : AuditRecord
rec = record {
  timestamp = 1;
  intent_id = "i0";
  subject_id = "ann";
  action = "deploy.run";
  decision = allow;
  policy_id = "acme.rbac";
  is_ai = false;
  via = "";
  run_id = "";
  parent_id = "";
  step_id = "";
  prev_hash = "";
  hash = "h";
}

abbrev one_record : Bolt
one_record = record { entries = some rec ∷ [] }

abbrev two_records : List (Option AuditRecord)
two_records = some rec ∷ some (record rec { intent_id = "i2"; prev_hash = "h" }) ∷ []

one_digest_nonempty : (r : AuditRecord) → one_digest r ≢ ""
one_digest_nonempty r e = ground (arith, (eq_iff "h" "").1 e)

verify-pins_entries_example : (two_records ≡ two_records) ⊎ Collision one_digest
unfolding verify verify_from
verify-pins_entries_example =
    verify-pins_entries one_digest one_digest_nonempty (record { entries = two_records })
      (record { entries = two_records }) refl refl refl

submit-token_example :
    Granted ports empty_log
      (submit ports empty_log intent).1
      intent
      (token_for ports intent allowing)
unfolding submit log policy_input_for
submit-token_example =
    submit-token ports empty_log (submit ports empty_log intent).1 intent
      (token_for ports intent allowing) refl

-- The same door, whose policy denies.
abbrev denying : Decision
denying = record allowing { action = deny; reason = "no" }

abbrev closed_ports : Ports
closed_ports = record ports { evaluate_policy = λ input. ok denying }

submit-Refusal_example :
    Refusal closed_ports empty_log (submit closed_ports empty_log intent).1 intent denying
unfolding submit log policy_input_for
submit-Refusal_example =
    submit-Refusal closed_ports empty_log (submit closed_ports empty_log intent).1 intent denying
      refl

verify-log_example : verify one_digest (log one_digest true one_record rec).1 ≡ true
unfolding verify verify_from
verify-log_example = verify-log one_digest true one_record rec refl
