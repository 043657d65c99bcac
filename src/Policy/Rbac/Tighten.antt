-- ===== src/Policy/Rbac/Tighten.antt =====
-- Configuration tightens and never loosens: the seal of a platform layer binds the door's decision,
-- and more product documents allow nothing more.
use mantlekeep.Prelude.{
  String, true, false, ◌≡◌, refl, Option, none, some, List, [], ◌∷◌, ◌++◌, lookup, lookup_or,
  contains, any, any-append, arith, append_assoc, Bool-cases, inl, inr, ◌∙◌, sym, ap,
}
use mantlekeep.Contracts.{Role, PolicyInput, deny}
use mantlekeep.Grants.{Floors, ProductDoc, append_layered_floors, FloorRule, platform_floors}
use mantlekeep.Policy.Ladder.{RoleLadder, or_default, holds_at_least}
use mantlekeep.Policy.Cascade.{ActionAuthorizer, Layer, Resolved, resolve, required_role, seal_key}
use mantlekeep.Policy.Cascade.Seals.{resolve-append_binds}
use mantlekeep.Policy.Scope.{ScopeResolver, effective, layers_of, chain}
use mantlekeep.Policy.Scope.Cache.{IsFresh, answer-for_scope}
use mantlekeep.Policy.Engine.{Snapshot, Rbac, rank_ladder}
use mantlekeep.Policy.Precedence.{action_allowed, layer_role, role_check, action_allowed-floors}
use mantlekeep.Policy.Floor.Quantity.{FloatOps}
use mantlekeep.Policy.Rbac.{evaluate, authorizer_for, known_scope}
use mantlekeep.Policy.Rbac.Verdicts.{
  evaluate-not_allowed, is_allow, evaluate_outcome, refuses, holds_up,
}
use mantlekeep.Grants.Additive.{docs_rules, rules_for, append_layered_floors_lem}

-- The engine that a deployment builds over its shared layers: every scope resolves over them, and
-- what is not resolved per scope reads their cascade.
pub record IsBuiltOn (ladder : RoleLadder) (layers : List Layer) (r : Rbac) : Type 0 where
  pub ranks : rank_ladder r ≡ or_default ladder
  pub dyn : r.dyn ≡ some (required_role (resolve ladder layers))
  pub resolver : ScopeResolver
  pub scopes : r.scopes ≡ some resolver
  pub fresh : IsFresh resolver
  pub base : resolver.base ≡ layers
  pub scope_ladder : resolver.ladder ≡ ladder

-- The authorizer names a role for the action, and whoever meets it meets `role`.
abbrev pub Binds : RoleLadder → Role → Option Role → Type 0
Binds ladder role none = ⊥
Binds ladder role (some need) =
    (roles : List Role)
    → holds_at_least ladder roles need ≡ true
    → holds_at_least ladder roles role ≡ true

required_role-chain :
    (res : Resolved) (f : Option ActionAuthorizer) (action : String) (need : Role)
    → lookup action res.action_roles ≡ some need
    → required_role (chain res f) action ≡ some need
unfolding required_role
required_role-chain res none action need e = rw e
required_role-chain res (some f) action need e = rw e

ranks-authorizer_for :
    (r : Rbac) (input : PolicyInput) → rank_ladder (authorizer_for r input).1 ≡ rank_ladder r
unfolding authorizer_for rank_ladder
ranks-authorizer_for r input = ground arith

module _ (ladder : RoleLadder) (ls ms : List Layer) (action : String) (role : Role)
    (sealed : contains (resolve ladder ls).sealed (seal_key action) ≡ true)
    (bound : lookup action (resolve ladder ls).action_roles ≡ some role) where
  chain-Binds :
      (extra : List Layer) (f : Option ActionAuthorizer)
      → Binds
          (or_default ladder)
          role
          (required_role (chain (resolve ladder (ls ++ extra)) f) action)
  chain-Binds extra f =
      let (need, e, admits) = resolve-append_binds ladder ls extra action role sealed bound in
      rw (required_role-chain (resolve ladder (ls ++ extra)) f action need e) admits

  effective-Binds :
      (sr : ScopeResolver) (scope : String)
      → sr.base ≡ ls ++ ms
      → sr.ladder ≡ ladder
      → Binds (or_default ladder) role (required_role (effective sr scope) action)
  unfolding effective
  effective-Binds sr scope b l =
      rw (b, l, append_assoc ls ms (layers_of (lookup scope sr.scopes)))
        (chain-Binds (ms ++ layers_of (lookup scope sr.scopes)) sr.fallback)

  authorizer-Binds :
      (r : Rbac) (input : PolicyInput)
      → IsBuiltOn ladder (ls ++ ms) r
      → Binds (or_default ladder) role (layer_role (authorizer_for r input).0 action)
  unfolding authorizer_for
  authorizer-Binds r input b = elim (Bool-cases (known_scope b.resolver input.intent.scope)) [
    | inl known ↦
        rw (b.scopes, known)
          (rw (answer-for_scope b.resolver input.intent.scope b.fresh)
            (effective-Binds b.resolver input.intent.scope b.base b.scope_ladder))
    | inr unknown ↦ rw (b.scopes, unknown, b.dyn) (chain-Binds ms none)
  ]

  role_check-Binds :
      (snapshot : Snapshot) (r : Rbac) (roles : List Role) (o : Option Role)
      → Binds (or_default ladder) role o
      → rank_ladder r ≡ or_default ladder
      → holds_at_least (or_default ladder) roles role ≡ false
      → role_check snapshot r roles action o ≡ false
  role_check-Binds snapshot r roles none b l h = absurd b
  role_check-Binds snapshot r roles (some need) b l h =
      rw l (elim (Bool-cases (holds_at_least (or_default ladder) roles need)) [
        | inl held ↦ cc (b roles held)
        | inr lacking ↦ lacking
      ])

  -- Let the layers `ls` bind the action to `role` and seal it, and let an engine be built on those
  -- layers and any more, `ms`, with any scope layers, grants, providers and floors besides. Then a
  -- subject whose roles do not meet `role` is refused the action, in every scope.
  pub sealed_floor-binds_evaluate :
      (fl : FloatOps) (snapshot : Snapshot) (r : Rbac) (input : PolicyInput)
      → IsBuiltOn ladder (ls ++ ms) r
      → input.intent.action ≡ action
      → holds_at_least (or_default ladder) input.subject.roles role ≡ false
      → (evaluate fl snapshot r input).0.action ≡ deny
  unfolding action_allowed authorizer_for
  sealed_floor-binds_evaluate fl snapshot r input b same h =
      let r' = (authorizer_for r input).1 in
      let o = layer_role (authorizer_for r input).0 action in
      let refused : role_check snapshot r' input.subject.roles action o ≡ false =
        role_check-Binds snapshot r' input.subject.roles o (authorizer-Binds r input b)
          (ranks-authorizer_for r input ∙ b.ranks) h in
      evaluate-not_allowed fl snapshot r input (rw same refused)

module _ (fl : FloatOps) (snapshot : Snapshot) (r : Rbac) (input : PolicyInput) where
  abbrev pub under : Floors → Snapshot
  under floors = record snapshot { floors = floors }

  more_rules-tighten :
      (floors floors' : Floors) (extra : List FloorRule)
      → lookup_or [] input.intent.action floors' ≡ lookup_or [] input.intent.action floors ++ extra
      → is_allow (evaluate fl (under floors') r input).0.action ≡ true
      → is_allow (evaluate fl (under floors) r input).0.action ≡ true
  more_rules-tighten floors floors' extra e h =
      let rules = lookup_or [] input.intent.action floors in
      let refused = refuses fl snapshot r input in
      let held = holds_up fl snapshot r input in
      let (dyn, r') = authorizer_for r input in
      let role_test = λ (f : Floors).
        action_allowed-floors snapshot f r' input.subject.roles input.intent.action dyn in
      ground (
        arith,
        role_test floors,
        role_test floors',
        (evaluate_outcome fl (under floors') r input).0,
        (evaluate_outcome fl (under floors) r input).0,
        ap (any refused) e ∙ any-append refused rules extra,
        ap (any held) e ∙ any-append held rules extra,
      )

  docs_rules-append :
      (docs more : List ProductDoc) (action : String)
      → docs_rules (docs ++ more) action ≡ docs_rules docs action ++ docs_rules more action
  docs_rules-append [] more action = refl
  docs_rules-append (d ∷ docs) more action = rw (docs_rules-append docs more action) (
      sym (
        append_assoc (rules_for d.floors action) (docs_rules docs action) (docs_rules more action)))

  -- The floors only tighten. With the grants and all else of the engine fixed, a request that is
  -- allowed under the floors composed of the baseline, the platform document and some product
  -- documents was allowed under the floors of any first part of those product documents: the floors
  -- of a further document can refuse a request or hold it for approval, and never allow one. What
  -- its grants add is not part of this.
  pub evaluate-more_documents :
      (f : Floors) (platform : Option ProductDoc) (docs more : List ProductDoc)
      → is_allow
          (evaluate fl (under (append_layered_floors f platform (docs ++ more))) r input).0.action
        ≡ true
      → is_allow (evaluate fl (under (append_layered_floors f platform docs)) r input).0.action
        ≡ true
  evaluate-more_documents f platform docs more =
      let action = input.intent.action in
      let first = lookup_or [] action f in
      let second = rules_for (platform_floors platform) action in
      more_rules-tighten (append_layered_floors f platform docs)
        (append_layered_floors f platform (docs ++ more)) (docs_rules more action)
        (append_layered_floors_lem f platform (docs ++ more) action
          ∙ simp (append_layered_floors_lem, docs_rules-append, append_assoc))
