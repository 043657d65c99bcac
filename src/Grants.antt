-- ===== src/Grants.antt =====
-- mantlekeep-control/grants: the grant and floor documents (grants.go, floors.go, merge.go) and how
-- the three layers compose: the baseline, the platform document, the product documents. The
-- documents enter parsed; the file system and the JSON decoder are not modelled.
pub mod Union
pub mod Seal
pub mod Refusal
pub mod Additive
use mantlekeep.Prelude.{
  String, Bool, true, false, Option, none, some, List, [], ◌∷◌, ◌++◌, Map, lookup_or, insert,
  contains, Result, ok, err, ◌>>=◌, if◌then◌else◌,
}
use mantlekeep.Prelude.Text.{concat}

pub record FloorRule : Type 0 where
  pub kind : String
  pub param : String
  pub values : List String
  pub caps : Map String
  pub when_param : String
  pub when_in : List String
  pub when_value : String
  pub pattern' : String
  pub role : String
  pub message : String

-- The type Grants of grants.go.
pub record GrantsDoc : Type 0 where
  pub role_actions : Map (List String)
  pub approval_actions : List String

abbrev pub Floors : Type 0
Floors = Map (List FloorRule)

pub record ProductDoc : Type 0 where
  pub role_actions : Map (List String)
  pub approval_actions : List String
  pub floors : Floors
  pub sealed_actions : List String
  pub source : String

-- One loop of unionStrings: `seen` holds exactly what `out` holds.
unfoldable pub push_new : List String → List String → List String
push_new out [] = out
push_new out (s ∷ items) = push_new (if contains out s then out else out ++ s ∷ []) items

unfoldable pub union_strings : List String → List String → List String
union_strings a b = push_new (push_new [] a) b

-- `g.RoleActions[role] = unionStrings(g.RoleActions[role], acts)`
unfoldable pub grant_role : Map (List String) → String → List String → Map (List String)
grant_role m role acts = insert role (union_strings (lookup_or [] role m) acts) m

-- The loop over the platform's grants: what is granted is sealed.
unfoldable pub grant_and_seal :
    Map (List String) → List String → Map (List String) → Map (List String) × List String
grant_and_seal m sealed [] = (m, sealed)
grant_and_seal m sealed ((role, acts) ∷ rest) =
    grant_and_seal (grant_role m role acts) (sealed ++ acts) rest

unfoldable pub apply_platform_layer : GrantsDoc → Option ProductDoc → GrantsDoc × List String
apply_platform_layer g none = (g, [])
apply_platform_layer g (some plat) =
    let (m, sealed) = grant_and_seal g.role_actions [] plat.role_actions in
    (
      record {
        role_actions = m;
        approval_actions = union_strings g.approval_actions plat.approval_actions;
      },
      sealed ++ plat.sealed_actions,
    )

-- The refusal of refuseSealedActions, with the source, the role and the action that it names.
pub data SealError : Type 0 where
  grants_sealed_action : String → String → String → SealError

unfoldable pub refuse_sealed_actions :
    String → String → List String → List String → Result SealError (Unit {0})
refuse_sealed_actions source role [] sealed = ok tt
refuse_sealed_actions source role (a ∷ acts) sealed =
    let rest = refuse_sealed_actions source role acts sealed in
    if contains sealed a then err (grants_sealed_action source role a) else rest

-- The loop over one product document's grants.
unfoldable pub grant_product :
    String
    → List String
    → Map (List String)
    → Map (List String)
    → Result SealError (Map (List String))
grant_product source sealed m [] = ok m
grant_product source sealed m ((role, acts) ∷ rest) =
    refuse_sealed_actions source role acts sealed >>= λ _.
    grant_product source sealed (grant_role m role acts) rest

unfoldable pub apply_product_layers :
    GrantsDoc → List String → List ProductDoc → Result SealError GrantsDoc
apply_product_layers g sealed [] = ok g
apply_product_layers g sealed (d ∷ docs) =
    grant_product d.source sealed g.role_actions d.role_actions >>= λ m.
    apply_product_layers
      (record {
        role_actions = m;
        approval_actions = union_strings g.approval_actions d.approval_actions;
      })
      sealed docs

-- Load, over the parsed documents.
unfoldable pub load : GrantsDoc → Option ProductDoc → List ProductDoc → Result SealError GrantsDoc
load baseline platform docs =
    let (g, sealed) = apply_platform_layer baseline platform in apply_product_layers g sealed docs

-- mergeFloors
unfoldable pub merge_floors : Floors → Floors → Floors
merge_floors f [] = f
merge_floors f ((action, rules) ∷ rest) =
    merge_floors (insert action (lookup_or [] action f ++ rules) f) rest

unfoldable pub merge_docs : Floors → List ProductDoc → Floors
merge_docs f [] = f
merge_docs f (d ∷ docs) = merge_docs (merge_floors f d.floors) docs

abbrev pub platform_floors : Option ProductDoc → Floors
platform_floors none = []
platform_floors (some plat) = plat.floors

-- appendLayeredFloors
unfoldable pub append_layered_floors : Floors → Option ProductDoc → List ProductDoc → Floors
append_layered_floors f platform docs = merge_docs (merge_floors f (platform_floors platform)) docs
