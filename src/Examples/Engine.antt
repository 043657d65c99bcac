-- ===== src/Examples/Engine.antt =====
-- The evaluator on the small deployment.
use mantlekeep.Prelude.{
  refl, true, false, ◌≡◌, none, some, ◌==◌, [], ◌∷◌, String, lookup, not, any, All, Result, ok, err,
  ◌⊎◌, arith, insert, ◌&&◌,
}
use mantlekeep.Examples.Data.{
  nat_floats, snapshot, request, platform, product, base_floors, silent_rule, architect, base_layer,
  team_layer,
}
use mantlekeep.Policy.Rbac.{evaluate}
use mantlekeep.Policy.Rbac.Verdicts.{
  is_allow, is_pending, evaluate_outcome, admissible, holds_up, rules,
}
use mantlekeep.Policy.Scope.{ScopeResolver, new_scope_resolver}
use mantlekeep.Policy.Engine.{Rbac, rank_ladder, new_rbac, build_snapshot, copy_roles}
use mantlekeep.Policy.Cascade.{resolve, add_layers, required_role, add_layer, apply_roles, apply}
use mantlekeep.Policy.Failsafe.{
  Failsafe, evaluate_failsafe, read_only, is_read, evaluate_failsafe-never_opens,
}
use mantlekeep.Contracts.{PolicyInput, text, deny, Decision}
use mantlekeep.Policy.Floor.{approval_gate, first_over_cap, eval_floor_rule}
use mantlekeep.Policy.Precedence.{
  action_allowed, allowed_before, layer_role, action_allowed-refuses_more,
}
use mantlekeep.Policy.Rbac.Tighten.{IsBuiltOn, evaluate-more_documents, sealed_floor-binds_evaluate}
use mantlekeep.Grants.{append_layered_floors}
use mantlekeep.Policy.Ladder.{default_role_ladder, holds_at_least}
use mantlekeep.Policy.Rbac.Order.{walk, evaluation_order, IsLabelled, evaluate-follows_order}
use mantlekeep.Policy.Floor.Verdict.{eval_floor_rule-no_message}
use mantlekeep.Prelude.Text.{has_suffix}

evaluate-follows_order_example :
    ((evaluate nat_floats snapshot new_rbac (request "ann" false "" "prod" "4")).0
      ≡ walk nat_floats snapshot new_rbac (request "ann" false "" "prod" "4") evaluation_order)
    × All
        (IsLabelled nat_floats snapshot new_rbac (request "ann" false "" "prod" "4"))
        evaluation_order
evaluate-follows_order_example =
    evaluate-follows_order nat_floats snapshot new_rbac (request "ann" false "" "prod" "4")

evaluate_outcome_example :
    (is_allow (evaluate nat_floats snapshot new_rbac (request "ann" false "" "prod" "4")).0.action
      ≡ admissible nat_floats snapshot new_rbac (request "ann" false "" "prod" "4")
        && not (
            any
              (holds_up nat_floats snapshot new_rbac (request "ann" false "" "prod" "4"))
              (rules nat_floats snapshot new_rbac (request "ann" false "" "prod" "4"))))
    × (is_pending
          (evaluate nat_floats snapshot new_rbac (request "ann" false "" "prod" "4")).0.action
        ≡ admissible nat_floats snapshot new_rbac (request "ann" false "" "prod" "4")
          && any
              (holds_up nat_floats snapshot new_rbac (request "ann" false "" "prod" "4"))
              (rules nat_floats snapshot new_rbac (request "ann" false "" "prod" "4")))
evaluate_outcome_example =
    evaluate_outcome nat_floats snapshot new_rbac (request "ann" false "" "prod" "4")

abbrev resolver : ScopeResolver
resolver = new_scope_resolver [] (base_layer ∷ team_layer ∷ [])

-- The engine over the base layer and a team's, and over the team's own scope besides.
abbrev built : Rbac
built = record new_rbac {
  dyn = some (required_role (resolve [] (base_layer ∷ team_layer ∷ [])));
  scopes = some resolver;
}

built-IsBuiltOn : IsBuiltOn [] (base_layer ∷ team_layer ∷ []) built
unfolding rank_ladder lookup
built-IsBuiltOn = record {
  ranks = refl;
  dyn = refl;
  resolver = resolver;
  scopes = refl;
  fresh = record { entry = λ k r h. ground arith };
  base = refl;
  scope_ladder = refl;
}

sealed_floor-binds_evaluate_example :
    (evaluate nat_floats snapshot built (request "ann" false "" "dev" "4")).0.action ≡ deny
unfolding resolve add_layers add_layer apply_roles apply insert lookup holds_at_least
    mantlekeep.Policy.Ladder.some_role_within
sealed_floor-binds_evaluate_example =
    sealed_floor-binds_evaluate [] (base_layer ∷ []) (team_layer ∷ []) "deploy.run" architect refl
      refl nat_floats snapshot built (request "ann" false "" "dev" "4") built-IsBuiltOn refl refl

evaluate-more_documents_example :
    is_allow
      (evaluate nat_floats
        (record snapshot { floors = append_layered_floors base_floors (some platform) [] })
        new_rbac
        (request "ann" false "" "dev" "4")).0.action
    ≡ true
unfolding evaluate mantlekeep.Policy.Rbac.decide action_allowed
    mantlekeep.Policy.Rbac.authorizer_for mantlekeep.Policy.Precedence.granted_by_document lookup
    build_snapshot copy_roles insert mantlekeep.Policy.Floor.admit_floor
    mantlekeep.Policy.Floor.admit_rules append_layered_floors mantlekeep.Grants.merge_docs
    mantlekeep.Grants.merge_floors eval_floor_rule
    mantlekeep.Policy.Floor.deny_unless_every_entry_is_within_its_cap first_over_cap
    mantlekeep.Contracts.param_text mantlekeep.Policy.Floor.Quantity.parse_quantity
    mantlekeep.Policy.Floor.Quantity.quantity_less_or_equal approval_gate
    mantlekeep.Policy.Floor.deny_unless_value_is_listed
    mantlekeep.Policy.Floor.deny_unless_entry_is_within_its_cap
    mantlekeep.Policy.Floor.floor_param_raw_map mantlekeep.Policy.Floor.floor_when_matches
    mantlekeep.Policy.Floor.gate_fires mantlekeep.Policy.Floor.gate_rules
    mantlekeep.Prelude.Text.trim_space
evaluate-more_documents_example =
    evaluate-more_documents nat_floats snapshot new_rbac (request "ann" false "" "dev" "4")
      base_floors (some platform) [] (product ∷ []) refl

abbrev failing : Failsafe
failing = record { primary = λ input. err "no policy"; tripped = false }

abbrev reading : PolicyInput
reading = record {
  subject = record { id = "ann"; roles = []; is_ai = false; attrs = [] };
  intent = record (request "ann" false "" "dev" "1").intent { action = "report.view" };
}

evaluate_failsafe-never_opens_example :
    (is_read "report.view" ≡ true)
    ⊎ ((false ≡ false)
        × ((d : Decision) × (◌≡◌ {A = Result String Decision} (err "no policy") (ok d))
            × (is_allow d.action ≡ true)))
unfolding evaluate_failsafe read_only is_read has_suffix
evaluate_failsafe-never_opens_example = evaluate_failsafe-never_opens snapshot failing reading refl

eval_floor_rule-no_message_example :
    eval_floor_rule nat_floats default_role_ladder silent_rule (("region", text "us") ∷ []) [] ≡ ""
eval_floor_rule-no_message_example =
    eval_floor_rule-no_message nat_floats default_role_ladder silent_rule
      (("region", text "us") ∷ []) [] refl refl
