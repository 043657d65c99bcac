-- ===== src/Policy/Floor/Approval.antt =====
-- When the approval gate fires.
use mantlekeep.Prelude.{String, ◌≡◌, refl, List, [], ◌∷◌, any, arith, is_some}
use mantlekeep.Contracts.{Params}
use mantlekeep.Grants.{FloorRule}
use mantlekeep.Policy.Floor.{gate_fires, gate_rules}

pub is_some-gate_rules :
    (rules : List FloorRule) (requester subject_id : String) (params : Params)
    → is_some (gate_rules rules requester subject_id params)
      ≡ any (λ rule. gate_fires rule requester subject_id params) rules
unfolding gate_rules
is_some-gate_rules [] requester subject_id params = refl
is_some-gate_rules (rule ∷ rules) requester subject_id params =
    ground (arith, is_some-gate_rules rules requester subject_id params)
