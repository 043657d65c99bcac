-- ===== src/Policy/Floor/Verdict.antt =====
-- What the attribute floor refuses.
use mantlekeep.Prelude.{
  String, Bool, true, false, Option, some, lookup, ◌==◌, ◌≡◌, arith, any, is_some, ◌++◌, ◌||◌,
  any-append, none, [], refl,
}
use mantlekeep.Contracts.{Any, text, Params, Role}
use mantlekeep.Grants.{FloorRule}
use mantlekeep.Policy.Floor.Quantity.{FloatOps, quantity_less_or_equal}
use mantlekeep.Policy.Floor.{
  judge_quantity, judge_entry, first_over_cap, admit_rules, eval_floor_rule,
  deny_unless_entry_is_within_its_cap, List, deny_unless_value_is_listed, Map,
  deny_unless_value_carries_an_approved_prefix, not, deny_unless_required_pattern_is_present,
  concat, deny_unless_caller_holds_the_required_role, ◌∷◌,
}
use mantlekeep.Policy.Ladder.{RoleLadder}
use mantlekeep.Prelude.Text.{detail-ne-empty}

abbrev is_admissible : Option Bool → Bool
is_admissible (some true) = true
is_admissible _ = false

abbrev is_within : FloatOps → Option String → Any → Bool
is_within fl (some limit) (text want) = is_admissible (quantity_less_or_equal fl want limit)
is_within fl _ _ = false

-- An entry stands within its cap: a text, with a configured cap, that parses as the cap does and
-- is not above it.
abbrev pub within_cap : FloatOps → FloorRule → String × Any → Bool
within_cap fl rule entry = is_within fl (lookup entry.0 rule.caps) entry.1

module _ (fl : FloatOps) where
  judge_quantity-eq-empty :
      (rule : FloorRule) (resource want limit : String) (o : Option Bool)
      → (judge_quantity fl rule resource want limit o == "") ≡ is_admissible o
  judge_quantity-eq-empty rule resource want limit none =
      detail-ne-empty rule.message " (unparseable quantity for " (concat resource ")") (omega arith)
  judge_quantity-eq-empty rule resource want limit (some false) =
      detail-ne-empty rule.message " (" _ (omega arith)
  judge_quantity-eq-empty rule resource want limit (some true) = refl

  judge_entry-eq-empty :
      (rule : FloorRule) (resource : String) (raw : Any) (cap : Option String)
      → (judge_entry fl rule resource raw cap == "") ≡ is_within fl cap raw
  judge_entry-eq-empty rule resource raw none = detail-ne-empty rule.message " (" _ (omega arith)
  judge_entry-eq-empty rule resource (text want) (some limit) =
      judge_quantity-eq-empty rule resource want limit (quantity_less_or_equal fl want limit)
  judge_entry-eq-empty rule resource _ (some limit) =
      detail-ne-empty rule.message " (non-string quantity for " (concat resource ")") (omega arith)

  -- The capped_map rule passes a request map exactly if every entry stands within its cap, whatever
  -- the rule's message and whatever the order in which the map is ranged over.
  pub first_over_cap-eq-empty :
      (rule : FloorRule) (entries : Map Any)
      → (first_over_cap fl rule entries == "")
        ≡ not (any (λ entry. not (within_cap fl rule entry)) entries)
  unfolding first_over_cap deny_unless_entry_is_within_its_cap
  first_over_cap-eq-empty rule [] = refl
  first_over_cap-eq-empty rule ((resource, raw) ∷ rest) = ground (
    arith,
    judge_entry-eq-empty rule resource raw (lookup resource rule.caps),
    first_over_cap-eq-empty rule rest,
  )

  -- A list of rules refuses a request exactly if one of them gives a reason.
  pub is_some-admit_rules :
      (ladder : RoleLadder) (rules : List FloorRule) (params : Params) (roles : List Role)
      → is_some (admit_rules fl ladder rules params roles)
        ≡ any (λ rule. not (eval_floor_rule fl ladder rule params roles == "")) rules
  unfolding admit_rules
  is_some-admit_rules ladder [] params roles = refl
  is_some-admit_rules ladder (rule ∷ rules) params roles =
      ground (arith, is_some-admit_rules ladder rules params roles)

  -- With more documents appended the floor refuses whatever it refused before.
  pub is_some-admit_rules_append :
      (ladder : RoleLadder) (rules more : List FloorRule) (params : Params) (roles : List Role)
      → is_some (admit_rules fl ladder (rules ++ more) params roles)
        ≡ is_some (admit_rules fl ladder rules params roles)
          || is_some (admit_rules fl ladder more params roles)
  is_some-admit_rules_append ladder rules more params roles =
      let refuses = λ (rule : FloorRule). not (eval_floor_rule fl ladder rule params roles == "") in
      cc (
        is_some-admit_rules ladder (rules ++ more) params roles,
        is_some-admit_rules ladder rules params roles,
        is_some-admit_rules ladder more params roles,
        any-append refuses rules more,
      )

  -- A rule with no message refuses nothing, unless it is a capped_map.
  pub eval_floor_rule-no_message :
      (ladder : RoleLadder) (rule : FloorRule) (params : Params) (roles : List Role)
      → rule.message ≡ ""
      → rule.kind == "capped_map" ≡ false
      → eval_floor_rule fl ladder rule params roles ≡ ""
  unfolding eval_floor_rule deny_unless_value_is_listed deny_unless_value_carries_an_approved_prefix
      deny_unless_required_pattern_is_present deny_unless_caller_holds_the_required_role
  eval_floor_rule-no_message ladder rule params roles m k = ground arith
