-- ===== src/Policy/Rbac/Verdicts.antt =====
-- The outcomes of an evaluation.
use mantlekeep.Prelude.{
  Bool, true, false, not, ◌&&◌, ◌≡◌, List, [], lookup, lookup_or, contains, any, is_some, ◌==◌,
  arith,
}
use mantlekeep.Contracts.{DecisionAction, PolicyInput, allow, deny, require_approval}
use mantlekeep.Grants.{FloorRule}
use mantlekeep.Policy.Engine.{Snapshot, Rbac, rank_ladder}
use mantlekeep.Policy.Precedence.{action_allowed}
use mantlekeep.Policy.Floor.{eval_floor_rule, gate_fires, admit_floor, approval_gate}
use mantlekeep.Policy.Floor.Verdict.{is_some-admit_rules}
use mantlekeep.Policy.Floor.Approval.{is_some-gate_rules}
use mantlekeep.Policy.Floor.Quantity.{FloatOps}
use mantlekeep.Policy.Rbac.{evaluate, decide, authorizer_for, provider_admits}

abbrev pub is_allow : DecisionAction → Bool
is_allow allow = true
is_allow _ = false

abbrev pub is_pending : DecisionAction → Bool
is_pending require_approval = true
is_pending _ = false

module _ (fl : FloatOps) (snapshot : Snapshot) (r : Rbac) (input : PolicyInput) where
  abbrev pub rules : List FloorRule
  rules = lookup_or [] input.intent.action snapshot.floors

  abbrev engine : Rbac
  engine = (authorizer_for r input).1

  -- A rule of the attribute floor refuses the request.
  abbrev pub refuses : FloorRule → Bool
  refuses rule =
      not
        (eval_floor_rule fl (rank_ladder engine) rule input.intent.params input.subject.roles == "")

  -- An approval rule holds the request.
  abbrev pub holds_up : FloorRule → Bool
  holds_up rule = gate_fires rule input.intent.requester input.subject.id input.intent.params

  -- Nothing that can refuse the request does.
  abbrev pub admissible : Bool
  admissible =
      not (input.intent.goal == "")
      && not (input.subject.is_ai && contains snapshot.approval_actions input.intent.action)
      && action_allowed snapshot engine input.subject.roles input.intent.action
          (authorizer_for r input).0
      && not (not (input.intent.requester == "") && input.intent.requester == input.subject.id)
      && not (
          is_some (
            provider_admits (lookup input.intent.action engine.by_action) input.intent
              input.subject.roles))
      && not (any refuses rules)

  -- A request is allowed exactly if nothing refuses it and no approval rule holds it, and waits for
  -- approval exactly if nothing refuses it and some approval rule holds it.
  pub evaluate_outcome :
      (is_allow (evaluate fl snapshot r input).0.action ≡ admissible && not (any holds_up rules))
      × (is_pending (evaluate fl snapshot r input).0.action ≡ admissible && any holds_up rules)
  unfolding evaluate decide admit_floor approval_gate
  evaluate_outcome =
      let floors =
        is_some-admit_rules fl (rank_ladder engine) rules input.intent.params input.subject.roles in
      let gates =
        is_some-gate_rules rules input.intent.requester input.subject.id input.intent.params in
      (ground (arith, floors, gates), ground (arith, floors, gates))

  -- An AI subject is refused every approval action, whatever its roles, the grants, the layers,
  -- the providers and the floors say.
  pub evaluate-ai_never_approves :
      input.subject.is_ai ≡ true
      → contains snapshot.approval_actions input.intent.action ≡ true
      → (evaluate fl snapshot r input).0.action ≡ deny
  unfolding evaluate
  evaluate-ai_never_approves ai approval = ground arith

  pub evaluate-not_allowed :
      action_allowed snapshot engine input.subject.roles input.intent.action
          (authorizer_for r input).0
        ≡ false
      → (evaluate fl snapshot r input).0.action ≡ deny
  unfolding evaluate decide
  evaluate-not_allowed h = ground arith
