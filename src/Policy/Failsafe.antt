-- ===== src/Policy/Failsafe.antt =====
-- internal/policy/failsafe.go: the read-only fallback around a primary evaluator. The evaluator is
-- its answers, and an error of it carries a text.
use mantlekeep.Prelude.{
  String, Bool, true, false, ◌≡◌, ◌⊎◌, inl, inr, List, [], ◌∷◌, if◌then◌else◌, ◌==◌, any, arith,
  Result, ok, err, Result-cases, Bool-cases,
}
use mantlekeep.Prelude.Text.{has_suffix}
use mantlekeep.Contracts.{Decision, PolicyInput, allow, deny, floor, none_given}
use mantlekeep.Policy.Engine.{Snapshot, policy_id}
use mantlekeep.Policy.Rbac.Verdicts.{is_allow}

pub record Failsafe : Type 0 where
  pub primary : PolicyInput → Result String Decision
  pub tripped : Bool

abbrev pub trip : Failsafe → Failsafe
trip f = record f { tripped = true }

abbrev pub reset : Failsafe → Failsafe
reset f = record f { tripped = false }

abbrev pub read_suffixes : List String
read_suffixes = ".read" ∷ ".view" ∷ ".list" ∷ ".status" ∷ ".get" ∷ []

unfoldable pub is_read : String → Bool
is_read action =
    if action == "" then false else any (λ suffix. has_suffix action suffix) read_suffixes

abbrev degraded_warning : String
degraded_warning = "policy degraded to cached read-only mode"

unfoldable pub read_only : Snapshot → PolicyInput → Decision
read_only snapshot input =
    if is_read input.intent.action
    then record {
      action = allow;
      reason = "failsafe: read-only mode — read permitted";
      category = none_given;
      required_approvers = [];
      policy_id = policy_id snapshot "failsafe";
      warnings = degraded_warning ∷ [];
      step = "";
    }
    else record {
      action = deny;
      reason = "failsafe: read-only mode — writes are suspended";
      category = floor;
      required_approvers = [];
      policy_id = policy_id snapshot "failsafe";
      warnings = degraded_warning ∷ [];
      step = "";
    }

abbrev pub or_read_only : Snapshot → PolicyInput → Result String Decision → Decision
or_read_only snapshot input (ok d) = d
or_read_only snapshot input (err e) = read_only snapshot input

-- Evaluate: it never returns an error.
unfoldable pub evaluate_failsafe : Snapshot → Failsafe → PolicyInput → Decision
evaluate_failsafe snapshot f input =
    if f.tripped then read_only snapshot input else or_read_only snapshot input (f.primary input)

read_only-allows_reads :
    (snapshot : Snapshot) (input : PolicyInput)
    → is_allow (read_only snapshot input).action ≡ true
    → is_read input.intent.action ≡ true
unfolding read_only
read_only-allows_reads snapshot input h = ground arith

-- The failsafe never opens: whatever it allows is a read, or was allowed by the primary evaluator
-- itself while the failsafe was not tripped.
pub evaluate_failsafe-never_opens :
    (snapshot : Snapshot) (f : Failsafe) (input : PolicyInput)
    → is_allow (evaluate_failsafe snapshot f input).action ≡ true
    → (is_read input.intent.action ≡ true)
      ⊎ ((f.tripped ≡ false)
          × ((d : Decision) × (f.primary input ≡ ok d) × (is_allow d.action ≡ true)))
unfolding evaluate_failsafe
evaluate_failsafe-never_opens snapshot f input h = elim (Bool-cases f.tripped) [
  | inl t ↦ inl (read_only-allows_reads snapshot input (ground (arith, t)))
  | inr t ↦ elim (Result-cases (f.primary input)) [
    | inl (d, e) ↦ inr (t, (d, e, ground (arith, t, e)))
    | inr (x, e) ↦ inl (read_only-allows_reads snapshot input (ground (arith, t, e)))
  ]
]
