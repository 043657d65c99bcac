-- ===== src/Policy/Precedence.antt =====
-- internal/policy/precedence.go: which of the grant documents and the layer cascade wins.
use mantlekeep.Prelude.{
  String, Bool, true, false, ◌||◌, ◌≡◌, Option, none, some, List, [], ◌∷◌, lookup_or, contains,
  arith, ap, refl,
}
use mantlekeep.Contracts.{Role}
use mantlekeep.Policy.Ladder.{holds_at_least}
use mantlekeep.Policy.Cascade.{ActionAuthorizer}
use mantlekeep.Policy.Engine.{Snapshot, Rbac, rank_ladder}
use mantlekeep.Grants.{Floors}

-- One turn of the loop of grantedByDocument.
abbrev pub role_grants : Snapshot → Rbac → Role → String → Bool
role_grants snapshot r role action =
    contains (lookup_or [] role snapshot.role_actions) "*"
    || contains (lookup_or [] role snapshot.role_actions) action
    || contains (lookup_or [] role r.provider_role_actions) action

unfoldable pub granted_by_document : Snapshot → Rbac → List Role → String → Bool
granted_by_document snapshot r [] action = false
granted_by_document snapshot r (role ∷ roles) action =
    role_grants snapshot r role action || granted_by_document snapshot r roles action

-- The role that a layer names for the action, if the authorizer is set and names one.
abbrev pub layer_role : Option ActionAuthorizer → String → Option Role
layer_role none action = none
layer_role (some dyn) action = dyn action

abbrev pub role_check : Snapshot → Rbac → List Role → String → Option Role → Bool
role_check snapshot r roles action none = granted_by_document snapshot r roles action
role_check snapshot r roles action (some need) = holds_at_least (rank_ladder r) roles need

unfoldable pub action_allowed :
    Snapshot → Rbac → List Role → String → Option ActionAuthorizer → Bool
action_allowed snapshot r roles action dyn =
    role_check snapshot r roles action (layer_role dyn action)

-- The rule before the change that precedence.go describes: the document first, the cascade after.
abbrev pub allowed_before : Snapshot → Rbac → List Role → String → Option Role → Bool
allowed_before snapshot r roles action none = granted_by_document snapshot r roles action
allowed_before snapshot r roles action (some need) =
    granted_by_document snapshot r roles action || holds_at_least (rank_ladder r) roles need

role_check-refuses_more :
    (snapshot : Snapshot) (r : Rbac) (roles : List Role) (action : String) (o : Option Role)
    → role_check snapshot r roles action o ≡ true
    → allowed_before snapshot r roles action o ≡ true
role_check-refuses_more snapshot r roles action none h = h
role_check-refuses_more snapshot r roles action (some need) h = ground arith

-- The order of the two sources can only refuse more: whatever passes the role check passed it when
-- the document was asked first.
pub action_allowed-refuses_more :
    (snapshot : Snapshot) (r : Rbac) (roles : List Role) (action : String)
    (dyn : Option ActionAuthorizer)
    → action_allowed snapshot r roles action dyn ≡ true
    → allowed_before snapshot r roles action (layer_role dyn action) ≡ true
unfolding action_allowed
action_allowed-refuses_more snapshot r roles action dyn =
    role_check-refuses_more snapshot r roles action (layer_role dyn action)

granted_by_document-floors :
    (snapshot : Snapshot) (f : Floors) (r : Rbac) (roles : List Role) (action : String)
    → granted_by_document (record snapshot { floors = f }) r roles action
      ≡ granted_by_document snapshot r roles action
unfolding granted_by_document
granted_by_document-floors snapshot f r [] action = refl
granted_by_document-floors snapshot f r (role ∷ roles) action =
    ap (λ rest. role_grants snapshot r role action || rest)
      (granted_by_document-floors snapshot f r roles action)

role_check-floors :
    (snapshot : Snapshot) (f : Floors) (r : Rbac) (roles : List Role) (action : String)
    (o : Option Role)
    → role_check (record snapshot { floors = f }) r roles action o
      ≡ role_check snapshot r roles action o
role_check-floors snapshot f r roles action none =
    granted_by_document-floors snapshot f r roles action
role_check-floors snapshot f r roles action (some need) = refl

-- The role check reads no floor.
pub action_allowed-floors :
    (snapshot : Snapshot) (f : Floors) (r : Rbac) (roles : List Role) (action : String)
    (dyn : Option ActionAuthorizer)
    → action_allowed (record snapshot { floors = f }) r roles action dyn
      ≡ action_allowed snapshot r roles action dyn
unfolding action_allowed
action_allowed-floors snapshot f r roles action dyn =
    role_check-floors snapshot f r roles action (layer_role dyn action)
