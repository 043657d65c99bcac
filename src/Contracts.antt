-- ===== src/Contracts.antt =====
-- The shared contracts of mantlekeep-control: contracts.go (Subject, Intent, Decision,
-- ExecutionToken, AuditRecord), policyinput.go (PolicyInputFor) and decision.go.
-- `map[string]any` is an association list of values of the type `Any`; time is in nanoseconds.
use mantlekeep.Prelude.{
  ℕ, String, Bool, true, false, Option, none, some, List, [], Map, lookup, ltb, not, ◌==◌,
}

-- A value of Go's type `any`, as the program's type switches tell them apart. `other` stands for
-- every dynamic type that no switch names: a number, a slice, nil.
mutual
  pub data Any : Type 0 where
    text : String → Any
    flag : Bool → Any
    other : Any
    string_map : Map String → Any
    any_map : Members → Any

  pub data Members : Type 0 where
    end : Members
    member : String → Any → Members → Members

abbrev pub Params : Type 0
Params = Map Any

abbrev pub Role : Type 0
Role = String

-- The comma-ok assertion `v.(string)` with its result dropped: the zero value if it fails.
abbrev pub text_of : Option Any → String
text_of none = ""
text_of (some (text s)) = s
text_of (some _) = ""

unfoldable pub param_text : Params → String → String
param_text p key = text_of (lookup key p)

pub record Subject : Type 0 where
  pub id : String
  pub roles : List Role
  pub ad_groups : List String
  pub is_ai : Bool
  pub attrs : Map String

pub record ExternalIdentity : Type 0 where
  pub id : String
  pub groups : List String
  pub attrs : Map String

pub record IntentSpec : Type 0 where
  pub goal : String
  pub affected_systems : List String
  pub risk_level : String
  pub preconditions : List String
  pub postconditions : List String
  pub rollback_plan : String

pub record Intent : Type 0 where
  pub id : String
  pub subject : Subject
  pub action : String
  pub resource : String
  pub spec : IntentSpec
  pub params : Params
  pub submitted_at : ℕ
  pub ttl : ℕ
  pub via : String

pub data DecisionAction : Type 0 where
  allow deny require_approval : DecisionAction

pub data DenialCategory : Type 0 where
  none_given floor separation_of_duties identity action_not_allowed validation policy_error :
      DenialCategory

pub record Decision : Type 0 where
  pub action : DecisionAction
  pub reason : String
  pub category : DenialCategory
  pub required_approvers : List Role
  pub policy_id : String
  pub warnings : List String
  pub step : String

pub record PolicySubject : Type 0 where
  pub id : String
  pub roles : List Role
  pub is_ai : Bool
  pub attrs : Map String

pub record PolicyIntent : Type 0 where
  pub action : String
  pub resource : String
  pub requester : String
  pub env : String
  pub goal : String
  pub scope : String
  pub params : Params

pub record PolicyInput : Type 0 where
  pub subject : PolicySubject
  pub intent : PolicyIntent

pub record ExecutionToken : Type 0 where
  pub value : String
  pub intent_id : String
  pub scope : String
  pub policy_id : String
  pub issued_at : ℕ
  pub expires_at : ℕ

-- The zero value that an error return carries.
abbrev pub no_token : ExecutionToken
no_token = record {
  value = "";
  intent_id = "";
  scope = "";
  policy_id = "";
  issued_at = 0;
  expires_at = 0;
}

abbrev pub valid : ExecutionToken → ℕ → Bool
valid tk t = ltb t tk.expires_at

pub record AuditRecord : Type 0 where
  pub timestamp : ℕ
  pub intent_id : String
  pub subject_id : String
  pub action : String
  pub decision : DecisionAction
  pub policy_id : String
  pub is_ai : Bool
  pub via : String
  pub run_id : String
  pub parent_id : String
  pub step_id : String
  pub prev_hash : String
  pub hash : String

-- The errors that the door and the product SDK return, as `errors.As` tells them apart.
pub record Refused : Type 0 where
  pub action : DecisionAction
  pub reason : String
  pub required_approvers : List Role
  pub policy_id : String

pub data Error : Type 0 where
  decision_error : Decision → Error
  refused : Refused → Error
  failure : String → Error

-- Whether Error() gives a text: that of a decision or a refusal starts with the action and ": ".
abbrev pub has_text : Error → Bool
has_text (decision_error d) = true
has_text (refused r) = true
has_text (failure e) = not (e == "")

-- PolicyInputFor
unfoldable pub policy_input_for : Subject → Intent → PolicyInput
unfolding param_text
policy_input_for subject intent = record {
  subject = record {
    id = subject.id;
    roles = subject.roles;
    is_ai = subject.is_ai;
    attrs = subject.attrs;
  };
  intent = record {
    action = intent.action;
    resource = intent.resource;
    requester = param_text intent.params "requester";
    env = param_text intent.params "env";
    goal = intent.spec.goal;
    scope = param_text intent.params "scope";
    params = intent.params;
  };
}

-- DecisionFrom: `none` is the result with ok = false.
unfoldable pub decision_from : Option Error → Option Decision
decision_from none = none
decision_from (some (decision_error d)) = some d
decision_from (some (refused r)) = some (record {
  action = r.action;
  reason = r.reason;
  category = none_given;
  required_approvers = r.required_approvers;
  policy_id = "";
  warnings = [];
  step = "";
})
decision_from (some (failure e)) = none

abbrev pub is_require_approval : DecisionAction → Bool
is_require_approval require_approval = true
is_require_approval _ = false

-- AwaitingApproval
unfoldable pub awaiting_approval : Option Error → Bool
unfolding decision_from
awaiting_approval err = elim (decision_from err) [
  | none ↦ false
  | some d ↦ is_require_approval d.action
]
