-- ===== src/Policy/Scope/Cache.antt =====
-- The cache is invisible: every answer is the one computed from the layers in force.
use mantlekeep.Prelude.{
  insert, String, ◌≡◌, some, List, [], ◌∷◌, lookup, lookup-insert, lookup-remove, arith, eq_iff,
  Option-cases, inl, inr, ◌∙◌, ap, refl,
}
use mantlekeep.Policy.Cascade.{ActionAuthorizer, Layer, Resolved}
use mantlekeep.Policy.Scope.{
  ScopeResolver, attach_fallback, set_scope, effective, for_scope, Map, RoleLadder, remove,
  new_scope_resolver,
}

-- Every cached entry is what would be computed now.
pub record IsFresh (p : ScopeResolver) : Type 0 where
  pub entry : (k : String) (r : Resolved) → lookup k p.cache ≡ some r → r ≡ effective p k

set_scope-IsFresh :
    (p : ScopeResolver) (key : String) (l : Layer) → IsFresh p → IsFresh (set_scope p key l)
unfolding set_scope effective
set_scope-IsFresh p key l f = record {
  entry = λ k r h.
      ground (arith, f.entry k r, lookup-insert key k l p.scopes, lookup-remove key k p.cache);
}

attach_fallback-IsFresh : (p : ScopeResolver) (a : ActionAuthorizer) → IsFresh (attach_fallback p a)
unfolding attach_fallback lookup
attach_fallback-IsFresh p a = record { entry = λ k r h. cc }

-- What `for_scope` does on a hit and on a miss.
pub answer-for_scope :
    (p : ScopeResolver) (s : String) → IsFresh p → (for_scope p s).0 ≡ effective p s
unfolding for_scope
answer-for_scope p s f = elim (Option-cases (lookup s p.cache)) [
  | inl e ↦ rw (e, for_scope) refl
  | inr (r, e) ↦ rw (e, for_scope) (f.entry s r e)
]

fill-IsFresh :
    (p : ScopeResolver) (s : String)
    → IsFresh p
    → IsFresh (record p { cache = insert s (effective p s) p.cache })
unfolding effective
fill-IsFresh p s f = record {
  entry =
      λ k r h. ground (arith, f.entry k r, eq_iff s k, lookup-insert s k (effective p s) p.cache);
}

for_scope-IsFresh : (p : ScopeResolver) (s : String) → IsFresh p → IsFresh (for_scope p s).1
unfolding for_scope
for_scope-IsFresh p s f = elim (Option-cases (lookup s p.cache)) [
  | inl e ↦ rw (e, for_scope) (fill-IsFresh p s f)
  | inr (r, e) ↦ rw (e, for_scope) f
]

-- The calls that a client makes, in order.
pub data Call : Type 0 where
  set_layer : String → Layer → Call
  set_fallback : ActionAuthorizer → Call
  ask : String → Call

-- The answers, through the cache.
pub run : ScopeResolver → List Call → List Resolved
run p [] = []
run p (set_layer k l ∷ cs) = run (set_scope p k l) cs
run p (set_fallback a ∷ cs) = run (attach_fallback p a) cs
run p (ask s ∷ cs) = let (r, p') = for_scope p s in r ∷ run p' cs

-- The answers of a resolver that has no cache.
pub run_uncached : ScopeResolver → List Call → List Resolved
run_uncached p [] = []
run_uncached p (set_layer k l ∷ cs) = run_uncached (record p { scopes = insert k l p.scopes }) cs
run_uncached p (set_fallback a ∷ cs) = run_uncached (record p { fallback = some a }) cs
run_uncached p (ask s ∷ cs) = effective p s ∷ run_uncached p cs

-- The answers depend on everything but the cache.
effective-forgets :
    (p : ScopeResolver) (c : Map Resolved) (s : String)
    → effective (record p { cache = c }) s ≡ effective p s
unfolding effective
effective-forgets p c s = refl

run_uncached-forgets :
    (p : ScopeResolver) (c : Map Resolved) (cs : List Call)
    → run_uncached (record p { cache = c }) cs ≡ run_uncached p cs
unfolding run_uncached effective
run_uncached-forgets p c [] = refl
run_uncached-forgets p c (set_layer k l ∷ cs) =
    run_uncached-forgets (record p { scopes = insert k l p.scopes }) c cs
run_uncached-forgets p c (set_fallback a ∷ cs) =
    run_uncached-forgets (record p { fallback = some a }) c cs
run_uncached-forgets p c (ask s ∷ cs) = ap (λ rs. effective p s ∷ rs) (run_uncached-forgets p c cs)

run_uncached-for_scope :
    (p : ScopeResolver) (s : String) (cs : List Call)
    → run_uncached (for_scope p s).1 cs ≡ run_uncached p cs
unfolding for_scope
run_uncached-for_scope p s cs = elim (Option-cases (lookup s p.cache)) [
  | inl e ↦ rw (e, for_scope) (run_uncached-forgets p (insert s (effective p s) p.cache) cs)
  | inr (r, e) ↦ rw (e, for_scope) refl
]

run-eq-run_uncached_fresh :
    (p : ScopeResolver) (cs : List Call) → IsFresh p → run p cs ≡ run_uncached p cs
unfolding run run_uncached set_scope attach_fallback
run-eq-run_uncached_fresh p [] f = refl
run-eq-run_uncached_fresh p (set_layer k l ∷ cs) f =
    run-eq-run_uncached_fresh (set_scope p k l) cs (set_scope-IsFresh p k l f)
    ∙ run_uncached-forgets (record p { scopes = insert k l p.scopes }) (remove k p.cache) cs
run-eq-run_uncached_fresh p (set_fallback a ∷ cs) f =
    run-eq-run_uncached_fresh (attach_fallback p a) cs (attach_fallback-IsFresh p a)
    ∙ run_uncached-forgets (record p { fallback = some a }) [] cs
run-eq-run_uncached_fresh p (ask s ∷ cs) f = cc (
  answer-for_scope p s f,
  run-eq-run_uncached_fresh (for_scope p s).1 cs (for_scope-IsFresh p s f),
  run_uncached-for_scope p s cs,
)

-- From a new resolver, any sequence of SetScope, WithFallback and For calls gets the answers that
-- a resolver with no cache gives: each is the cascade of the layers and fallback then in force.
pub run-eq-run_uncached :
    (ladder : RoleLadder) (base : List Layer) (cs : List Call)
    → run (new_scope_resolver ladder base) cs ≡ run_uncached (new_scope_resolver ladder base) cs
unfolding lookup
run-eq-run_uncached ladder base cs =
    run-eq-run_uncached_fresh (new_scope_resolver ladder base) cs (record { entry = λ k r h. cc })
