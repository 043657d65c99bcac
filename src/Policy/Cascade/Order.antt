-- ===== src/Policy/Cascade/Order.antt =====
-- Go ranges over a map in no fixed order. Here two lists that hold the same map in two orders.
use mantlekeep.Prelude.{
  String, Bool, ◌≡◌, refl, inl, inr, Option, none, some, [], ◌∷◌, Map, lookup, lookup-insert,
  contains, arith, Bool-cases, eq_iff, ◌==◌, ◌&&◌, ◌∙◌, if◌then◌else◌, ◌++◌,
}
use mantlekeep.Contracts.{Role}
use mantlekeep.Policy.Ladder.{RoleLadder}
use mantlekeep.Policy.Cascade.{
  Resolved, apply, seal_key, apply_roles, loosens, Layer, List, add_layer, add_layers, resolve,
  required_role, empty_resolved, or_default,
}
use mantlekeep.Policy.Cascade.Seals.{ladder-apply_roles}

-- No key stands twice, as in a Go map.
abbrev pub Distinct {ℓ} : {V : Type ℓ} → Map V → Type ℓ
Distinct [] = Unit
Distinct ((k, v) ∷ m) = (lookup k m ≡ none) × Distinct m

-- What one layer leaves of an action: the binding so far, or the layer's own.
abbrev pub settle : RoleLadder → Bool → Option Role → Option Role → Option Role
settle ladder sealed cur none = cur
settle ladder sealed cur (some need) = if sealed && loosens ladder need cur then cur else some need

pub lookup-apply :
    (r : Resolved) (k a : String) (need : Role)
    → lookup a (apply r k need (seal_key k)).action_roles ≡ (
        if k == a
        then settle r.ladder (contains r.sealed (seal_key a)) (lookup a r.action_roles) (some need)
        else lookup a r.action_roles)
unfolding apply
lookup-apply r k a need = ground (arith, eq_iff k a, lookup-insert k a need r.action_roles)

sealed-apply_roles : (r : Resolved) (m : Map Role) → (apply_roles r m).sealed ≡ r.sealed
unfolding apply_roles apply
sealed-apply_roles r [] = refl
sealed-apply_roles r ((k, need) ∷ m) =
    sealed-apply_roles (apply r k need (seal_key k)) m ∙ ground arith

fallback-apply_roles : (r : Resolved) (m : Map Role) → (apply_roles r m).fallback ≡ r.fallback
unfolding apply_roles apply
fallback-apply_roles r [] = refl
fallback-apply_roles r ((k, need) ∷ m) =
    fallback-apply_roles (apply r k need (seal_key k)) m ∙ ground arith

sealed-apply :
    (r : Resolved) (k : String) (need : Role) → (apply r k need (seal_key k)).sealed ≡ r.sealed
unfolding apply
sealed-apply r k need = ground arith

ladder-apply :
    (r : Resolved) (k : String) (need : Role) → (apply r k need (seal_key k)).ladder ≡ r.ladder
unfolding apply
ladder-apply r k need = ground arith

-- The loop over a layer's bindings settles each action by the layer's own entry for it alone.
pub lookup-apply_roles :
    (r : Resolved) (m : Map Role) (a : String)
    → Distinct m
    → lookup a (apply_roles r m).action_roles
      ≡ settle r.ladder (contains r.sealed (seal_key a)) (lookup a r.action_roles) (lookup a m)
unfolding apply_roles lookup
lookup-apply_roles r [] a d = refl
lookup-apply_roles r ((k, need) ∷ m) a d =
    let ih = lookup-apply_roles (apply r k need (seal_key k)) m a d.1 in
    elim (Bool-cases (k == a)) [
      | inl e ↦
          let absent : lookup a m ≡ none = rw (← (eq_iff k a).0 e) d.0 in
          rw e (ih ∙ rw (absent, lookup-apply, e) refl)
      | inr e ↦ rw e (ih ∙ rw (ladder-apply, sealed-apply, lookup-apply, e) refl)
    ]

-- Two layers that hold the same bindings, each in an order of its own, and the same seals.
pub record SameLayer (l l' : Layer) : Type 0 where
  pub distinct : Distinct l.action_roles
  pub distinct' : Distinct l'.action_roles
  pub bindings : (a : String) → lookup a l.action_roles ≡ lookup a l'.action_roles
  pub seals : l.sealed ≡ l'.sealed

abbrev pub SameLayers : List Layer → List Layer → Type 0
SameLayers [] [] = Unit
SameLayers [] (x ∷ xs) = ⊥
SameLayers (x ∷ xs) [] = ⊥
SameLayers (x ∷ xs) (y ∷ ys) = SameLayer x y × SameLayers xs ys

-- What can be read of a cascade: the seals, the ladder, the fallback and each action's binding.
pub record SameView (r r' : Resolved) : Type 0 where
  pub seals : r.sealed ≡ r'.sealed
  pub ladders : r.ladder ≡ r'.ladder
  pub fallbacks : r.fallback ≡ r'.fallback
  pub bindings : (a : String) → lookup a r.action_roles ≡ lookup a r'.action_roles

lookup-add_layer :
    (r : Resolved) (l : Layer) (a : String)
    → Distinct l.action_roles
    → lookup a (add_layer r l).action_roles
      ≡ settle r.ladder
          (contains r.sealed (seal_key a))
          (lookup a r.action_roles)
          (lookup a l.action_roles)
unfolding add_layer
lookup-add_layer r l a d = lookup-apply_roles r l.action_roles a d

sealed-add_layer : (r : Resolved) (l : Layer) → (add_layer r l).sealed ≡ r.sealed ++ l.sealed
unfolding add_layer
sealed-add_layer r l = rw sealed-apply_roles

add_layer-SameView :
    (r r' : Resolved) (l l' : Layer)
    → SameView r r'
    → SameLayer l l'
    → SameView (add_layer r l) (add_layer r' l')
unfolding add_layer
add_layer-SameView r r' l l' v s = record {
  seals = cc (
    sealed-apply_roles r l.action_roles,
    sealed-apply_roles r' l'.action_roles,
    v.seals,
    s.seals,
  );
  ladders =
      cc (ladder-apply_roles r l.action_roles, ladder-apply_roles r' l'.action_roles, v.ladders);
  fallbacks =
      cc (
        fallback-apply_roles r l.action_roles,
        fallback-apply_roles r' l'.action_roles,
        v.fallbacks,
      );
  bindings = λ a.
      rw
        (
          lookup-apply_roles r l.action_roles a s.distinct,
          lookup-apply_roles r' l'.action_roles a s.distinct',
        )
        (cc (v.seals, v.ladders, v.bindings a, s.bindings a));
}

add_layers-SameView :
    (r r' : Resolved) (ls ls' : List Layer)
    → SameView r r'
    → SameLayers ls ls'
    → SameView (add_layers r ls) (add_layers r' ls')
unfolding add_layers
add_layers-SameView r r' [] [] v s = v
add_layers-SameView r r' [] (y ∷ ys) v s = absurd s
add_layers-SameView r r' (x ∷ xs) [] v s = absurd s
add_layers-SameView r r' (x ∷ xs) (y ∷ ys) v s =
    add_layers-SameView (add_layer r x) (add_layer r' y) xs ys (add_layer-SameView r r' x y v s.0)
      s.1

-- Whatever order Go ranges over each layer's ActionRoles in, the resolved cascade requires the
-- same role of every action and seals the same keys.
pub resolve_order_irrelevant :
    (ladder : RoleLadder) (ls ls' : List Layer)
    → SameLayers ls ls'
    → ((resolve ladder ls).sealed ≡ (resolve ladder ls').sealed)
      × ((a : String) → required_role (resolve ladder ls) a ≡ required_role (resolve ladder ls') a)
unfolding resolve required_role
resolve_order_irrelevant ladder ls ls' s =
    let start = empty_resolved (or_default ladder) in
    let same : SameView start start = record {
      seals = refl;
      ladders = refl;
      fallbacks = refl;
      bindings = λ a. refl;
    } in
    let v : SameView (add_layers start ls) (add_layers start ls') =
      add_layers-SameView start start ls ls' same s in
    (v.seals, λ a. cc (v.fallbacks, v.bindings a))
