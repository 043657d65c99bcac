-- ===== src/Policy/Engine.antt =====
-- The state that internal/policy evaluates against: the snapshot of the documents in force
-- (grants_live.go), the product policy adapter (provider.go) and the RBAC engine with its
-- constructors (rbac.go). The package-level pointer to the snapshot is a parameter of every
-- function that reads it, and so is the namespace that policyID reads from the environment.
use mantlekeep.Prelude.{String, Option, none, some, List, [], ◌∷◌, ◌++◌, Map, lookup_or, insert}
use mantlekeep.Prelude.Text.{concat}
use mantlekeep.Contracts.{Role, PolicyIntent}
use mantlekeep.Grants.{GrantsDoc, Floors}
use mantlekeep.Policy.Ladder.{RoleLadder, default_role_ladder}
use mantlekeep.Policy.Cascade.{ActionAuthorizer, Resolved, required_role}
use mantlekeep.Policy.Scope.{ScopeResolver}

-- grantsSnapshot, and the namespace of every policy id. A set is the list of its members.
pub record Snapshot : Type 0 where
  pub role_actions : Map (List String)
  pub approval_actions : List String
  pub floors : Floors
  pub namespace : String

-- The loop of buildSnapshot over the document's roles.
unfoldable pub copy_roles : Map (List String) → Map (List String) → Map (List String)
copy_roles m [] = m
copy_roles m ((role, actions) ∷ rest) = copy_roles (insert role actions m) rest

unfoldable pub build_snapshot : GrantsDoc → Floors → String → Snapshot
build_snapshot held floors namespace = record {
  role_actions = copy_roles (("L0-SuperAdmin", "*" ∷ []) ∷ []) held.role_actions;
  approval_actions = held.approval_actions;
  floors = floors;
  namespace = namespace;
}

abbrev pub policy_id : Snapshot → String → String
policy_id snapshot kind = concat snapshot.namespace (concat "." kind)

-- The interface PolicyProvider. `admit` is `some reason` to deny.
pub record PolicyProvider : Type 0 where
  pub name : String
  pub actions : List String
  pub role_actions : Map (List String)
  pub admit : PolicyIntent → List Role → Option String

pub record Rbac : Type 0 where
  pub dyn : Option ActionAuthorizer
  pub scopes : Option ScopeResolver
  pub providers : List PolicyProvider
  pub by_action : Map PolicyProvider
  pub provider_role_actions : Map (List String)
  pub ladder : Option RoleLadder

abbrev pub new_rbac : Rbac
new_rbac = record {
  dyn = none;
  scopes = none;
  providers = [];
  by_action = [];
  provider_role_actions = [];
  ladder = some default_role_ladder;
}

unfoldable pub rank_ladder : Rbac → RoleLadder
rank_ladder r = elim r.ladder [ none ↦ default_role_ladder | some l ↦ l ]

abbrev pub with_role_ladder : Rbac → RoleLadder → Rbac
with_role_ladder r [] = r
with_role_ladder r (x ∷ l) = record r { ladder = some (x ∷ l) }

abbrev pub with_dynamic : Rbac → ActionAuthorizer → Rbac
with_dynamic r a = record r { dyn = some a }

abbrev pub with_scopes : Rbac → ScopeResolver → Rbac
with_scopes r sr = record r { scopes = some sr }

abbrev pub with_resolved : Rbac → Resolved → Rbac
with_resolved r res = record r { dyn = some (required_role res) }

unfoldable pub index_actions :
    Map PolicyProvider → PolicyProvider → List String → Map PolicyProvider
index_actions m p [] = m
index_actions m p (a ∷ actions) = index_actions (insert a p m) p actions

unfoldable pub index_provider_actions : Rbac → PolicyProvider → Rbac
index_provider_actions r p = record r { by_action = index_actions r.by_action p p.actions }

-- Grants accumulate: a role keeps what earlier providers gave it.
unfoldable pub accumulate : Map (List String) → Map (List String) → Map (List String)
accumulate m [] = m
accumulate m ((role, acts) ∷ rest) = accumulate (insert role (lookup_or [] role m ++ acts) m) rest

unfoldable pub fold_in_provider_role_actions : Rbac → PolicyProvider → Rbac
fold_in_provider_role_actions r p = record r {
  provider_role_actions = accumulate r.provider_role_actions p.role_actions;
}

unfoldable pub add_provider : Rbac → PolicyProvider → Rbac
add_provider r p =
    fold_in_provider_role_actions
      (index_provider_actions (record r { providers = r.providers ++ p ∷ [] }) p) p

-- WithProviders: a nil provider, `none`, is skipped.
unfoldable pub with_providers : Rbac → List (Option PolicyProvider) → Rbac
with_providers r [] = r
with_providers r (none ∷ ps) = with_providers r ps
with_providers r (some p ∷ ps) = with_providers (add_provider r p) ps
