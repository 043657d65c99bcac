-- ===== src/Policy/Validate.antt =====
-- internal/policy/validate.go: the cross-check of a layer set against the role vocabulary.
use mantlekeep.Prelude.{
  String, true, ◌≡◌, Option, none, some, List, [], ◌∷◌, Map, lookup, if◌then◌else◌, ◌==◌, is_some,
  arith, Option-cases, inl, inr, refl,
}
use mantlekeep.Prelude.Text.{cut_prefix, trim_space}
use mantlekeep.Contracts.{Role}
use mantlekeep.Policy.Ladder.{RoleLadder, or_default, holds_at_least, some_role_within}
use mantlekeep.Policy.Cascade.{
  Layer, Resolved, resolve, add_layers, add_layer, apply_roles, apply, seal_key, empty_resolved,
}
use mantlekeep.Policy.Cascade.Order.{lookup-apply}
use mantlekeep.Prelude.Int.{leb_int_refl}

pub data LayerError : Type 0 where
  undefined_role : String → String → Role → LayerError
  malformed_seal : String → String → LayerError

-- `none` is a nil error.
abbrev pub seal_name_error : String → String → Option String → Option LayerError
seal_name_error layer_name sealed none = some (malformed_seal layer_name sealed)
seal_name_error layer_name sealed (some name) =
    if trim_space name == "" then some (malformed_seal layer_name sealed) else none

unfoldable pub validate_seal_ref : String → String → Option LayerError
validate_seal_ref layer_name sealed =
    seal_name_error layer_name sealed (cut_prefix sealed "action:")

abbrev pub or_next : Option LayerError → Option LayerError → Option LayerError
or_next (some e) next = some e
or_next none next = next

unfoldable pub validate_bindings : RoleLadder → String → Map Role → Option LayerError
validate_bindings ladder layer_name [] = none
validate_bindings ladder layer_name ((action, required) ∷ rest) =
    let later = validate_bindings ladder layer_name rest in
    if is_some (lookup required ladder)
    then later
    else some (undefined_role layer_name action required)

unfoldable pub validate_seals : String → List String → Option LayerError
validate_seals layer_name [] = none
validate_seals layer_name (sealed ∷ rest) =
    or_next (validate_seal_ref layer_name sealed) (validate_seals layer_name rest)

unfoldable pub validate_each : RoleLadder → List Layer → Option LayerError
validate_each ladder [] = none
validate_each ladder (l ∷ layers) =
    or_next
      (or_next (validate_bindings ladder l.name l.action_roles) (validate_seals l.name l.sealed))
      (validate_each ladder layers)

unfoldable pub validate_layers : RoleLadder → List Layer → Option LayerError
validate_layers ladder layers = validate_each (or_default ladder) layers

-- Every action is bound to a role of the ladder.
pub record IsRanked (ladder : RoleLadder) (r : Resolved) : Type 0 where
  pub binding :
      (a : String) (need : Role)
      → lookup a r.action_roles ≡ some need
      → is_some (lookup need ladder) ≡ true

apply-IsRanked :
    (ladder : RoleLadder) (r : Resolved) (k : String) (need : Role)
    → is_some (lookup need ladder) ≡ true
    → IsRanked ladder r
    → IsRanked ladder (apply r k need (seal_key k))
apply-IsRanked ladder r k need known t = record {
  binding = λ a n h. ground (arith, lookup-apply r k a need, t.binding a n);
}

apply_roles-IsRanked :
    (ladder : RoleLadder) (r : Resolved) (name : String) (m : Map Role)
    → validate_bindings ladder name m ≡ none
    → IsRanked ladder r
    → IsRanked ladder (apply_roles r m)
unfolding apply_roles validate_bindings
apply_roles-IsRanked ladder r name [] v t = t
apply_roles-IsRanked ladder r name ((k, need) ∷ m) v t =
    apply_roles-IsRanked ladder (apply r k need (seal_key k)) name m (ground arith)
      (apply-IsRanked ladder r k need (ground arith) t)

add_layers-IsRanked :
    (ladder : RoleLadder) (r : Resolved) (ls : List Layer)
    → validate_each ladder ls ≡ none
    → IsRanked ladder r
    → IsRanked ladder (add_layers r ls)
unfolding add_layers add_layer validate_each
add_layers-IsRanked ladder r [] v t = t
add_layers-IsRanked ladder r (l ∷ ls) v t =
    let t' = apply_roles-IsRanked ladder r l.name l.action_roles (ground arith) t in
    add_layers-IsRanked ladder (add_layer r l) ls (ground arith) (record { binding = t'.binding })

holds_own :
    (ladder : RoleLadder) (need : Role)
    → is_some (lookup need ladder) ≡ true
    → holds_at_least ladder (need ∷ []) need ≡ true
unfolding holds_at_least some_role_within
holds_own ladder need h = elim (Option-cases (lookup need ladder)) [
  | inl e ↦ cc (rw e at h)
  | inr (rank, e) ↦ rw (e, e) (rw leb_int_refl refl)
]

-- Layers that pass the check bind every action to a role that its own holders satisfy: no action
-- is shut to everybody by a role that the ladder does not define.
pub validate_layers-satisfiable :
    (ladder : RoleLadder) (ls : List Layer) (action : String) (need : Role)
    → validate_layers ladder ls ≡ none
    → lookup action (resolve ladder ls).action_roles ≡ some need
    → holds_at_least (or_default ladder) (need ∷ []) need ≡ true
unfolding validate_layers resolve
validate_layers-satisfiable ladder ls action need v h =
    let start : IsRanked (or_default ladder) (empty_resolved (or_default ladder)) = record {
      binding = λ a n e. unfold lookup in cc e;
    } in
    let t =
      add_layers-IsRanked (or_default ladder) (empty_resolved (or_default ladder)) ls v start in
    holds_own (or_default ladder) need (t.binding action need h)
