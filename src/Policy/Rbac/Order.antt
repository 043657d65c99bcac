-- ===== src/Policy/Rbac/Order.antt =====
-- internal/policy/order.go: the order that EvaluationOrder publishes, and the evaluator read as a
-- walk along it. The prose field Detail of a step is left out.
use mantlekeep.Prelude.{
  String, Bool, true, false, not, ◌&&◌, ◌≡◌, Option, none, some, List, [], ◌∷◌, lookup, contains,
  if◌then◌else◌, ◌==◌, arith, All,
}
use mantlekeep.Prelude.Text.{concat}
use mantlekeep.Contracts.{
  Decision, DecisionAction, PolicyInput, deny, require_approval, floor, separation_of_duties,
  action_not_allowed, validation,
}
use mantlekeep.Policy.Engine.{Snapshot, Rbac, rank_ladder}
use mantlekeep.Policy.Precedence.{action_allowed}
use mantlekeep.Policy.Floor.{Gate, admit_floor, approval_gate}
use mantlekeep.Policy.Floor.Quantity.{FloatOps}
use mantlekeep.Policy.Rbac.{
  evaluate, decide, authorizer_for, deny_with, allowed, awaiting, provider_admits, step_goal_stated,
  step_ai_not_approving, step_role_permits, step_separation_of_duties, step_product_admits,
  step_attribute_floor, step_approval_gate,
}

pub data EvaluationSource : Type 0 where
  source_engine source_policy : EvaluationSource

pub record EvaluationStep : Type 0 where
  pub name : String
  pub outcome : DecisionAction
  pub source : EvaluationSource

abbrev pub evaluation_order : List EvaluationStep
evaluation_order =
    record { name = step_goal_stated; outcome = deny; source = source_engine }
    ∷ record { name = step_ai_not_approving; outcome = deny; source = source_engine }
    ∷ record { name = step_role_permits; outcome = deny; source = source_policy }
    ∷ record { name = step_separation_of_duties; outcome = deny; source = source_engine }
    ∷ record { name = step_product_admits; outcome = deny; source = source_policy }
    ∷ record { name = step_attribute_floor; outcome = deny; source = source_policy }
    ∷ record { name = step_approval_gate; outcome = require_approval; source = source_policy }
    ∷ []

abbrev stop_if : Bool → Decision → Option Decision
stop_if true d = some d
stop_if false d = none

abbrev stop_with : Option String → (String → Decision) → Option Decision
stop_with none refuse = none
stop_with (some reason) refuse = some (refuse reason)

abbrev stop_at_gate : Snapshot → Option Gate → Option Decision
stop_at_gate snapshot none = none
stop_at_gate snapshot (some gate) = some (awaiting snapshot gate)

abbrev or_else : Option Decision → Decision → Decision
or_else none d = d
or_else (some d') d = d'

module _ (fl : FloatOps) (snapshot : Snapshot) (r : Rbac) (input : PolicyInput) where
  -- What the step of this name answers: `some` if it ends the evaluation. The words of each step
  -- are the published ones, and a name that is not published ends nothing.
  abbrev pub stop_at : String → Option Decision
  stop_at name =
      let subject = input.subject in
      let intent = input.intent in
      let dyn = (authorizer_for r input).0 in
      let r' = (authorizer_for r input).1 in
      if name == step_goal_stated
      then stop_if (intent.goal == "")
          (deny_with snapshot validation step_goal_stated "intent_spec.goal is required")
      else if name == step_ai_not_approving
      then stop_if (subject.is_ai && contains snapshot.approval_actions intent.action) (
          deny_with snapshot separation_of_duties step_ai_not_approving
            (concat "AI agents cannot approve: " intent.action))
      else if name == step_role_permits
      then stop_if (not (action_allowed snapshot r' subject.roles intent.action dyn)) (
          deny_with snapshot action_not_allowed step_role_permits
            (concat "no role permits action " intent.action))
      else if name == step_separation_of_duties
      then stop_if (not (intent.requester == "") && intent.requester == subject.id) (
          deny_with snapshot separation_of_duties step_separation_of_duties
            "separation of duties: the approver cannot be the requester")
      else if name == step_product_admits
      then stop_with (provider_admits (lookup intent.action r'.by_action) intent subject.roles)
          (deny_with snapshot floor step_product_admits)
      else if name == step_attribute_floor
      then stop_with
          (admit_floor fl snapshot.floors (rank_ladder r') intent.action intent.params
            subject.roles)
          (deny_with snapshot floor step_attribute_floor)
      else if name == step_approval_gate
      then stop_at_gate snapshot
          (approval_gate snapshot.floors intent.action intent.requester subject.id intent.params)
      else none

  -- Ask the steps in order, and let the first that ends the evaluation decide.
  abbrev pub walk : List EvaluationStep → Decision
  walk [] = allowed snapshot
  walk (s ∷ steps) = or_else (stop_at s.name) (walk steps)

  -- The decision carries the step's own name and its published outcome.
  abbrev pub IsLabelled : EvaluationStep → Type 0
  IsLabelled s =
      (d : Decision) → stop_at s.name ≡ some d → (d.step ≡ s.name) × (d.action ≡ s.outcome)

  evaluate-walk : (evaluate fl snapshot r input).0 ≡ walk evaluation_order
  unfolding evaluate decide
  evaluate-walk = ground arith

  labelled : All IsLabelled evaluation_order
  labelled = (
    (λ d h. ground arith),
    (
      (λ d h. ground arith),
      (
        (λ d h. ground arith),
        (
          (λ d h. ground arith),
          ((λ d h. ground arith), ((λ d h. ground arith), ((λ d h. ground arith), tt))),
        ),
      ),
    ),
  )

  -- Evaluate is the walk along the published order: the first step that ends the evaluation
  -- decides, a request that no step ends is allowed, and each step that ends it does so with the
  -- outcome and under the name that are published for it.
  pub evaluate-follows_order :
      ((evaluate fl snapshot r input).0 ≡ walk evaluation_order) × All IsLabelled evaluation_order
  evaluate-follows_order = (evaluate-walk, labelled)
