-- ===== src/Policy/Cascade.antt =====
-- internal/policy/resolve.go: the layered configuration cascade and its seals. `Resolve` mutates
-- one *Resolved; here each step returns the new record.
pub mod Seals
pub mod Order
use mantlekeep.Prelude.{
  String, Bool, true, false, not, ◌&&◌, Option, none, some, List, [], ◌∷◌, ◌++◌, Map, lookup,
  insert, contains, if◌then◌else◌,
}
use mantlekeep.Prelude.Text.{concat}
use mantlekeep.Contracts.{Role}
use mantlekeep.Policy.Ladder.{RoleLadder, or_default, at_least_as_senior}

-- RequiredRole of the interface ActionAuthorizer; `none` is ok = false.
abbrev pub ActionAuthorizer : Type 0
ActionAuthorizer = String → Option Role

pub record Layer : Type 0 where
  pub name : String
  pub action_roles : Map Role
  pub sealed : List String
  pub roles : RoleLadder

pub record Resolved : Type 0 where
  pub action_roles : Map Role
  pub sealed : List String
  pub fallback : Option ActionAuthorizer
  pub ladder : RoleLadder

-- `cur, ok := m[key]; ok && !atLeastAsSenior(need, cur)`
abbrev pub loosens : RoleLadder → Role → Option Role → Bool
loosens ladder need none = false
loosens ladder need (some cur) = not (at_least_as_senior ladder need cur)

unfoldable pub apply : Resolved → String → Role → String → Resolved
apply r key need seal_key =
    if contains r.sealed seal_key && loosens r.ladder need (lookup key r.action_roles)
    then r
    else record r { action_roles = insert key need r.action_roles }

abbrev pub seal_key : String → String
seal_key action = concat "action:" action

-- The loop over one layer's ActionRoles.
unfoldable pub apply_roles : Resolved → Map Role → Resolved
apply_roles r [] = r
apply_roles r ((action, need) ∷ rest) = apply_roles (apply r action need (seal_key action)) rest

-- The layer's own values first, then its seals.
unfoldable pub add_layer : Resolved → Layer → Resolved
add_layer r l =
    let r' = apply_roles r l.action_roles in record r' { sealed = r'.sealed ++ l.sealed }

unfoldable pub add_layers : Resolved → List Layer → Resolved
add_layers r [] = r
add_layers r (l ∷ layers) = add_layers (add_layer r l) layers

abbrev pub empty_resolved : RoleLadder → Resolved
empty_resolved ladder = record { action_roles = []; sealed = []; fallback = none; ladder = ladder }

unfoldable pub resolve : RoleLadder → List Layer → Resolved
resolve ladder layers = add_layers (empty_resolved (or_default ladder)) layers

abbrev pub with_fallback : Resolved → ActionAuthorizer → Resolved
with_fallback r a = record r { fallback = some a }

abbrev pub required_role_from : Option ActionAuthorizer → Option Role → String → Option Role
required_role_from fallback (some need) action = some need
required_role_from none none action = none
required_role_from (some f) none action = f action

unfoldable pub required_role : Resolved → ActionAuthorizer
required_role r action = required_role_from r.fallback (lookup action r.action_roles) action

abbrev pub default_layer : Layer
default_layer = record { name = "mantlekeep"; action_roles = []; sealed = []; roles = [] }

abbrev pub scope_layer : String → Map Role → List String → Layer
scope_layer scope action_roles sealed = record {
  name = concat "scope:" scope;
  action_roles = action_roles;
  sealed = sealed;
  roles = [];
}
