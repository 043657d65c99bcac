-- ===== src/Policy/Floor.antt =====
-- internal/policy/floor.go: the attribute floor and the approval gate.
pub mod Quantity
pub mod Verdict
pub mod Approval
use mantlekeep.Prelude.{
  String, Bool, true, false, not, ◌&&◌, ◌||◌, Option, none, some, List, [], ◌∷◌, Map, lookup,
  lookup_or, contains, if◌then◌else◌, ◌==◌,
}
use mantlekeep.Prelude.Text.{concat, has_prefix, contains_text}
use mantlekeep.Contracts.{
  Any, Members, Params, Role, text, flag, other, string_map, any_map, end, member, param_text,
}
use mantlekeep.Grants.{FloorRule, Floors}
use mantlekeep.Policy.Ladder.{RoleLadder, holds_at_least}
use Quantity.{FloatOps, quantity_less_or_equal}

unfoldable pub floor_has_prefix : String → List String → Bool
floor_has_prefix v [] = false
floor_has_prefix v (p ∷ prefixes) = has_prefix v p || floor_has_prefix v prefixes

abbrev pub when_matches : Option Any → String → Bool
when_matches (some (flag b)) want = b && want == "true"
when_matches (some (text s)) want = s == want
when_matches _ want = false

unfoldable pub floor_when_matches : Params → String → String → Bool
floor_when_matches p key want = when_matches (lookup key p) want

abbrev pub members_list : Members → Map Any
members_list end = []
members_list (member k v rest) = (k, v) ∷ members_list rest

abbrev pub texts_list : Map String → Map Any
texts_list [] = []
texts_list ((k, v) ∷ rest) = (k, text v) ∷ texts_list rest

abbrev pub raw_map : Option Any → Map Any
raw_map (some (any_map m)) = members_list m
raw_map (some (string_map m)) = texts_list m
raw_map _ = []

unfoldable pub floor_param_raw_map : Params → String → Map Any
floor_param_raw_map p key = raw_map (lookup key p)

unfoldable pub deny_unless_value_is_listed : FloorRule → Params → String
unfolding param_text
deny_unless_value_is_listed rule params =
    if not (contains rule.values (param_text params rule.param)) then rule.message else ""

unfoldable pub deny_unless_value_carries_an_approved_prefix : FloorRule → Params → String
unfolding param_text floor_has_prefix
deny_unless_value_carries_an_approved_prefix rule params =
    let v = param_text params rule.param in
    if not (v == "") && not (floor_has_prefix v rule.values) then rule.message else ""

unfoldable pub deny_unless_required_pattern_is_present : FloorRule → Params → String
unfolding param_text
deny_unless_required_pattern_is_present rule params =
    let v = param_text params rule.param in
    if not (v == "")
      && contains rule.when_in (param_text params rule.when_param)
      && not (contains_text v rule.pattern')
    then rule.message
    else ""

unfoldable pub deny_unless_caller_holds_the_required_role :
    RoleLadder → FloorRule → Params → List Role → String
unfolding floor_when_matches
deny_unless_caller_holds_the_required_role ladder rule params roles =
    if floor_when_matches params rule.when_param rule.when_value
      && not (holds_at_least ladder roles rule.role)
    then rule.message
    else ""

module _ (fl : FloatOps) where
  -- `quantityLessOrEqual(want, limit)`: `none` is ok = false.
  abbrev pub judge_quantity : FloorRule → String → String → String → Option Bool → String
  judge_quantity rule resource want limit none =
      concat rule.message (concat " (unparseable quantity for " (concat resource ")"))
  judge_quantity rule resource want limit (some false) = concat rule.message (
      concat " ("
        (concat resource (concat "=" (concat want (concat " exceeds cap " (concat limit ")"))))))
  judge_quantity rule resource want limit (some true) = ""

  abbrev pub judge_value : FloorRule → String → String → Any → String
  judge_value rule resource limit (text want) =
      judge_quantity rule resource want limit (quantity_less_or_equal fl want limit)
  judge_value rule resource limit _ =
      concat rule.message (concat " (non-string quantity for " (concat resource ")"))

  abbrev pub judge_entry : FloorRule → String → Any → Option String → String
  judge_entry rule resource raw none =
      concat rule.message (concat " (" (concat resource " has no configured cap)"))
  judge_entry rule resource raw (some limit) = judge_value rule resource limit raw

  unfoldable pub deny_unless_entry_is_within_its_cap : FloorRule → String → Any → String
  deny_unless_entry_is_within_its_cap rule resource raw =
      judge_entry rule resource raw (lookup resource rule.caps)

  -- The loop over the request map, in the order of one iteration.
  unfoldable pub first_over_cap : FloorRule → Map Any → String
  first_over_cap rule [] = ""
  first_over_cap rule ((resource, raw) ∷ rest) =
      let reason = deny_unless_entry_is_within_its_cap rule resource raw in
      let later = first_over_cap rule rest in if reason == "" then later else reason

  unfoldable pub deny_unless_every_entry_is_within_its_cap : FloorRule → Params → String
  unfolding floor_param_raw_map
  deny_unless_every_entry_is_within_its_cap rule params =
      first_over_cap rule (floor_param_raw_map params rule.param)

  -- An unknown kind, and require_approval_when, denies nothing.
  unfoldable pub eval_floor_rule : RoleLadder → FloorRule → Params → List Role → String
  eval_floor_rule ladder rule params roles =
      if rule.kind == "allowlist"
      then deny_unless_value_is_listed rule params
      else if rule.kind == "prefix_allowlist"
      then deny_unless_value_carries_an_approved_prefix rule params
      else if rule.kind == "required_pattern_when_in"
      then deny_unless_required_pattern_is_present rule params
      else if rule.kind == "capped_map"
      then deny_unless_every_entry_is_within_its_cap rule params
      else if rule.kind == "required_role_when"
      then deny_unless_caller_holds_the_required_role ladder rule params roles
      else ""

  -- The loop of admitFloor: `some reason` is (true, reason).
  unfoldable pub admit_rules : RoleLadder → List FloorRule → Params → List Role → Option String
  admit_rules ladder [] params roles = none
  admit_rules ladder (rule ∷ rules) params roles =
      let reason = eval_floor_rule ladder rule params roles in
      let later = admit_rules ladder rules params roles in
      if reason == "" then later else some reason

  unfoldable pub admit_floor : Floors → RoleLadder → String → Params → List Role → Option String
  admit_floor floors ladder action params roles =
      admit_rules ladder (lookup_or [] action floors) params roles

-- What approvalGate returns when it fires: the reason and who may sign.
pub record Gate : Type 0 where
  pub reason : String
  pub approvers : List Role

abbrev pub default_gate_message : String
default_gate_message = "this change requires approval by a second person"

abbrev pub gate_of : FloorRule → Gate
gate_of rule = record {
  reason = if rule.message == "" then default_gate_message else rule.message;
  approvers = if rule.role == "" then [] else rule.role ∷ [];
}

-- The rule asks for a second party, and none is present.
unfoldable pub gate_fires : FloorRule → String → String → Params → Bool
unfolding floor_when_matches
gate_fires rule requester subject_id params =
    rule.kind == "require_approval_when"
    && floor_when_matches params rule.when_param rule.when_value
    && not (not (requester == "") && not (requester == subject_id))

unfoldable pub gate_rules : List FloorRule → String → String → Params → Option Gate
gate_rules [] requester subject_id params = none
gate_rules (rule ∷ rules) requester subject_id params =
    let later = gate_rules rules requester subject_id params in
    if gate_fires rule requester subject_id params then some (gate_of rule) else later

unfoldable pub approval_gate : Floors → String → String → String → Params → Option Gate
approval_gate floors action requester subject_id params =
    gate_rules (lookup_or [] action floors) requester subject_id params
