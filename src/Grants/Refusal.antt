-- ===== src/Grants/Refusal.antt =====
-- grants/grants.go: when the load of the documents is refused.
use mantlekeep.Prelude.{
  String, Bool, true, false, ◌≡◌, refl, List, [], ◌∷◌, ◌||◌, contains, arith, Map, Result, ok, err,
  Result-cases, any, not, inl, inr,
}
use mantlekeep.Grants.{
  GrantsDoc, ProductDoc, grant_role, apply_platform_layer, refuse_sealed_actions, grant_product,
  apply_product_layers, load, Option, union_strings,
}

abbrev pub is_ok {ℓ} : {E : Type 0} {A : Type ℓ} → Result E A → Bool
is_ok (ok a) = true
is_ok (err e) = false

-- The document names a sealed action in one of its grants.
abbrev pub reaches : List String → Map (List String) → Bool
reaches sealed [] = false
reaches sealed ((role, acts) ∷ m) = any (contains sealed) acts || reaches sealed m

is_ok-refuse_sealed_actions :
    (source role : String) (acts sealed : List String)
    → is_ok (refuse_sealed_actions source role acts sealed) ≡ not (any (contains sealed) acts)
unfolding refuse_sealed_actions
is_ok-refuse_sealed_actions source role [] sealed = refl
is_ok-refuse_sealed_actions source role (x ∷ acts) sealed =
    ground (arith, is_ok-refuse_sealed_actions source role acts sealed)

is_ok-grant_product :
    (source : String) (sealed : List String) (m rs : Map (List String))
    → is_ok (grant_product source sealed m rs) ≡ not (reaches sealed rs)
unfolding grant_product
is_ok-grant_product source sealed m [] = refl
is_ok-grant_product source sealed m ((role, acts) ∷ rest) = ground (
  arith,
  is_ok-refuse_sealed_actions source role acts sealed,
  is_ok-grant_product source sealed (grant_role m role acts) rest,
)

is_ok-apply_product_layers :
    (g : GrantsDoc) (sealed : List String) (docs : List ProductDoc)
    → is_ok (apply_product_layers g sealed docs)
      ≡ not (any (λ d. reaches sealed d.role_actions) docs)
unfolding apply_product_layers
is_ok-apply_product_layers g sealed [] = refl
is_ok-apply_product_layers g sealed (d ∷ docs) =
    elim (Result-cases (grant_product d.source sealed g.role_actions d.role_actions)) [
      | inl (m, e) ↦
          let next : GrantsDoc = record {
            role_actions = m;
            approval_actions = union_strings g.approval_actions d.approval_actions;
          } in
          let passed = is_ok-grant_product d.source sealed g.role_actions d.role_actions in
          rw e (ground (arith, rw e at passed, is_ok-apply_product_layers next sealed docs))
      | inr (x, e) ↦
          let passed = is_ok-grant_product d.source sealed g.role_actions d.role_actions in
          rw e (ground (arith, rw e at passed))
    ]

-- The load succeeds exactly if no product document names an action that the platform layer sealed.
pub is_ok-load :
    (baseline : GrantsDoc) (platform : Option ProductDoc) (docs : List ProductDoc)
    → is_ok (load baseline platform docs)
      ≡ not (any (λ d. reaches (apply_platform_layer baseline platform).1 d.role_actions) docs)
unfolding load
is_ok-load baseline platform docs =
    let (g, sealed) = apply_platform_layer baseline platform in
    is_ok-apply_product_layers g sealed docs
