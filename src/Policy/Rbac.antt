-- ===== src/Policy/Rbac.antt =====
-- internal/policy/rbac.go: the default policy engine. `For` fills the resolver's cache, so an
-- evaluation returns the engine with the decision.
pub mod Order
pub mod Verdicts
pub mod Tighten
use mantlekeep.Prelude.{
  String, Bool, true, false, not, ◌&&◌, ◌||◌, Option, none, some, List, [], ◌∷◌, Map, lookup,
  contains, if◌then◌else◌, ◌==◌,
}
use mantlekeep.Prelude.Text.{concat}
use mantlekeep.Contracts.{
  Role, Decision, DenialCategory, PolicyInput, PolicyIntent, PolicySubject, allow, deny,
  require_approval, none_given, floor, separation_of_duties, action_not_allowed, validation,
}
use mantlekeep.Policy.Ladder.{holds_at_least}
use mantlekeep.Policy.Cascade.{ActionAuthorizer, required_role}
use mantlekeep.Policy.Scope.{ScopeResolver, has, for_scope}
use mantlekeep.Policy.Engine.{Snapshot, PolicyProvider, Rbac, rank_ladder, policy_id}
use mantlekeep.Policy.Precedence.{action_allowed}
use mantlekeep.Policy.Floor.{Gate, admit_floor, approval_gate}
use mantlekeep.Policy.Floor.Quantity.{FloatOps}

-- The step names of policyinput.go.
abbrev pub step_goal_stated : String
step_goal_stated = "goal is stated"

abbrev pub step_ai_not_approving : String
step_ai_not_approving = "an AI is not performing an approval"

abbrev pub step_role_permits : String
step_role_permits = "a role permits the action"

abbrev pub step_separation_of_duties : String
step_separation_of_duties = "the approver is not the requester"

abbrev pub step_product_admits : String
step_product_admits = "the owning product admits the request"

abbrev pub step_attribute_floor : String
step_attribute_floor = "the attribute floor admits the request"

abbrev pub step_approval_gate : String
step_approval_gate = "does a second person have to sign off"

abbrev pub deny_with : Snapshot → DenialCategory → String → String → Decision
deny_with snapshot category step reason = record {
  action = deny;
  reason = reason;
  category = category;
  required_approvers = [];
  policy_id = policy_id snapshot "rbac";
  warnings = reason ∷ [];
  step = step;
}

abbrev pub allowed : Snapshot → Decision
allowed snapshot = record {
  action = allow;
  reason = "";
  category = none_given;
  required_approvers = [];
  policy_id = policy_id snapshot "rbac";
  warnings = [];
  step = "";
}

abbrev pub awaiting : Snapshot → Gate → Decision
awaiting snapshot gate = record {
  action = require_approval;
  reason = gate.reason;
  category = none_given;
  required_approvers = gate.approvers;
  policy_id = policy_id snapshot "rbac";
  warnings = [];
  step = step_approval_gate;
}

-- The request names a scope that has a layer of its own.
abbrev pub known_scope : ScopeResolver → String → Bool
known_scope sr scope = not (scope == "") && has sr scope

abbrev pub scoped : Rbac → ScopeResolver → String → Option ActionAuthorizer × Rbac
scoped r sr scope =
    let (res, sr') = for_scope sr scope in
    (some (required_role res), record r { scopes = some sr' })

unfoldable pub authorizer_for : Rbac → PolicyInput → Option ActionAuthorizer × Rbac
authorizer_for r input = elim r.scopes [
  | none ↦ (r.dyn, r)
  | some sr ↦
      if known_scope sr input.intent.scope then scoped r sr input.intent.scope else (r.dyn, r)
]

-- The owning provider's Admit; an action that nobody owns is admitted.
abbrev pub provider_admits : Option PolicyProvider → PolicyIntent → List Role → Option String
provider_admits none intent roles = none
provider_admits (some p) intent roles = p.admit intent roles

-- A refusal with a reason comes first, and whatever is left to ask comes after it.
abbrev pub unless_refused : Option String → (String → Decision) → Decision → Decision
unless_refused none refuse later = later
unless_refused (some reason) refuse later = refuse reason

abbrev pub gate_decision : Snapshot → Option Gate → Decision
gate_decision snapshot none = allowed snapshot
gate_decision snapshot (some gate) = awaiting snapshot gate

module _ (fl : FloatOps) (snapshot : Snapshot) where
  -- Evaluate from the role check on, under the authorizer picked for the request.
  unfoldable pub decide : Rbac → Option ActionAuthorizer → PolicyInput → Decision
  decide r dyn input =
      let subject = input.subject in
      let intent = input.intent in
      if not (action_allowed snapshot r subject.roles intent.action dyn)
      then deny_with snapshot action_not_allowed step_role_permits
          (concat "no role permits action " intent.action)
      else if not (intent.requester == "") && intent.requester == subject.id
      then deny_with snapshot separation_of_duties step_separation_of_duties
          "separation of duties: the approver cannot be the requester"
      else unless_refused (provider_admits (lookup intent.action r.by_action) intent subject.roles)
          (deny_with snapshot floor step_product_admits)
          (unless_refused
            (admit_floor fl snapshot.floors (rank_ladder r) intent.action intent.params
              subject.roles)
            (deny_with snapshot floor step_attribute_floor)
            (gate_decision snapshot (
              approval_gate snapshot.floors intent.action intent.requester subject.id
                intent.params)))

  unfoldable pub evaluate : Rbac → PolicyInput → Decision × Rbac
  evaluate r input =
      let action = input.intent.action in
      if input.intent.goal == ""
      then (deny_with snapshot validation step_goal_stated "intent_spec.goal is required", r)
      else if input.subject.is_ai && contains snapshot.approval_actions action
      then (
        deny_with snapshot separation_of_duties step_ai_not_approving
            (concat "AI agents cannot approve: " action),
        r,
      )
      else let (dyn, r') = authorizer_for r input in (decide r' dyn input, r')

-- StepAuth and EvaluateStep: one step of a running product.
pub record StepAuth : Type 0 where
  pub subject : PolicySubject
  pub action : String
  pub step : String
  pub run_as : Role
  pub author : String
  pub requires_approval : Bool

unfoldable pub evaluate_step : Snapshot → Rbac → StepAuth → Decision
evaluate_step snapshot r in' =
    if not (in'.run_as == "") && not (holds_at_least (rank_ladder r) in'.subject.roles in'.run_as)
    then deny_with snapshot action_not_allowed step_role_permits (
        concat "step "
          (concat in'.step (concat ": no role permits it (requires " (concat in'.run_as ")"))))
    else if in'.requires_approval && in'.subject.is_ai
    then deny_with snapshot separation_of_duties step_ai_not_approving
        (concat "step " (concat in'.step ": AI agents cannot satisfy separation of duties"))
    else if in'.requires_approval && not (in'.author == "") && in'.author == in'.subject.id
    then deny_with snapshot separation_of_duties step_separation_of_duties
        (concat "separation of duties: the author of step " (concat in'.step " cannot trigger it"))
    else allowed snapshot
