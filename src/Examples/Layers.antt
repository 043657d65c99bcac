-- ===== src/Examples/Layers.antt =====
-- The layers of the small deployment: a base layer that seals, and a team's.
use mantlekeep.Prelude.{
  refl, true, false, ◌≡◌, none, some, ◌==◌, if◌then◌else◌, [], ◌∷◌, ◌++◌, String, Bool, Option, ok,
  err, ◌⊎◌, List, lookup, contains, arith, eq_iff, remove, insert,
}
use mantlekeep.Examples.Data.{base_layer, team_layer, architect}
use mantlekeep.Policy.Cascade.{
  resolve, Layer, add_layers, required_role, add_layer, apply_roles, apply, seal_key,
}
use mantlekeep.Policy.Cascade.Order.{SameLayer, resolve_order_irrelevant}
use mantlekeep.Policy.Scope.Cache.{run, ask, set_layer, run_uncached, run-eq-run_uncached}
use mantlekeep.Policy.Live.{Watcher, reload, IsCurrent, reload-follows}
use mantlekeep.Policy.Validate.{validate_layers, validate_layers-satisfiable}
use mantlekeep.Policy.Scope.{new_scope_resolver}
use mantlekeep.Policy.Ladder.{holds_at_least, default_role_ladder}
use mantlekeep.Contracts.{Role}
use mantlekeep.Policy.Cascade.Seals.{resolve-append_tightens}

resolve-append_tightens_example :
    (contains (resolve [] (base_layer ∷ team_layer ∷ [])).sealed (seal_key "deploy.run") ≡ true)
    × ((need : Role) × (required_role (resolve [] (base_layer ∷ team_layer ∷ [])) "deploy.run"
          ≡ some need)
        × ((roles : List Role)
            → holds_at_least default_role_ladder roles need ≡ true
            → holds_at_least default_role_ladder roles architect ≡ true))
unfolding resolve add_layers add_layer apply_roles apply insert lookup
resolve-append_tightens_example =
    resolve-append_tightens [] (base_layer ∷ []) (team_layer ∷ []) "deploy.run" architect refl refl

-- The team's layer with its bindings in the other order.
abbrev team_layer_ranged : Layer
team_layer_ranged = record team_layer {
  action_roles = ("report.view", "L3-Consumer") ∷ ("deploy.run", "L3-Consumer") ∷ [];
}

same_team : SameLayer team_layer team_layer_ranged
unfolding lookup
same_team = record {
  distinct = (refl, (refl, tt));
  distinct' = (refl, (refl, tt));
  bindings = λ a. ground (arith, eq_iff "deploy.run" a, eq_iff "report.view" a);
  seals = refl;
}

resolve_order_irrelevant_example :
    ((resolve [] (team_layer ∷ [])).sealed ≡ (resolve [] (team_layer_ranged ∷ [])).sealed)
    × ((a : String)
        → required_role (resolve [] (team_layer ∷ [])) a
          ≡ required_role (resolve [] (team_layer_ranged ∷ [])) a)
resolve_order_irrelevant_example =
    resolve_order_irrelevant [] (team_layer ∷ []) (team_layer_ranged ∷ []) (same_team, tt)

run-eq-run_uncached_example :
    run
      (new_scope_resolver [] (base_layer ∷ []))
      (ask "team" ∷ set_layer "team" team_layer ∷ ask "team" ∷ [])
    ≡ run_uncached
        (new_scope_resolver [] (base_layer ∷ []))
        (ask "team" ∷ set_layer "team" team_layer ∷ ask "team" ∷ [])
run-eq-run_uncached_example =
    run-eq-run_uncached [] (base_layer ∷ [])
      (ask "team" ∷ set_layer "team" team_layer ∷ ask "team" ∷ [])

-- A hash that tells an empty list of layers from any other.
abbrev emptiness : List Layer → String
emptiness [] = "empty"
emptiness (l ∷ ls) = "some"

abbrev watcher : Watcher
watcher = record { live = resolve [] []; fallback = none; ladder = []; last_hash = "empty" }

other_hash : emptiness (base_layer ∷ []) ≡ emptiness [] → (base_layer ∷ []) ≡ []
other_hash e = absurd (ground (arith, (eq_iff "some" "empty").1 e))

reload-follows_example :
    ((reload emptiness watcher (err "unreachable")).1 ≡ watcher)
    × IsCurrent emptiness (reload emptiness watcher (ok (base_layer ∷ []))).1 (base_layer ∷ [])
reload-follows_example =
    reload-follows emptiness watcher [] (base_layer ∷ []) "unreachable"
      (record { hashed = refl; built = refl }) other_hash

validate_layers-satisfiable_example :
    holds_at_least default_role_ladder (architect ∷ []) architect ≡ true
unfolding validate_layers resolve add_layers add_layer apply_roles apply insert lookup
    mantlekeep.Policy.Validate.validate_each mantlekeep.Policy.Validate.validate_bindings
    mantlekeep.Policy.Validate.validate_seals mantlekeep.Policy.Validate.validate_seal_ref
    mantlekeep.Prelude.Text.cut_prefix mantlekeep.Prelude.Text.trim_space
validate_layers-satisfiable_example =
    validate_layers-satisfiable [] (base_layer ∷ []) "deploy.run" architect refl refl
