-- ===== src/Policy/Scope.antt =====
-- internal/policy/scope.go: the per-scope resolver and its cache. Each method holds the mutex for
-- its whole effect, so a method is one step from a state to the next; `For` reads the cache twice
-- and both reads see the value that one of them would see.
pub mod Cache
use mantlekeep.Prelude.{
  String, Bool, true, false, Option, none, some, List, [], ◌∷◌, ◌++◌, Map, lookup, insert, remove,
  is_some,
}
use mantlekeep.Policy.Ladder.{RoleLadder}
use mantlekeep.Policy.Cascade.{ActionAuthorizer, Layer, Resolved, resolve, with_fallback}

pub record ScopeResolver : Type 0 where
  pub base : List Layer
  pub scopes : Map Layer
  pub cache : Map Resolved
  pub fallback : Option ActionAuthorizer
  pub ladder : RoleLadder

abbrev pub new_scope_resolver : RoleLadder → List Layer → ScopeResolver
new_scope_resolver ladder base = record {
  base = base;
  scopes = [];
  cache = [];
  fallback = none;
  ladder = ladder;
}

-- WithFallback
unfoldable pub attach_fallback : ScopeResolver → ActionAuthorizer → ScopeResolver
attach_fallback p a = record p { fallback = some a; cache = [] }

unfoldable pub has : ScopeResolver → String → Bool
has p key = is_some (lookup key p.scopes)

unfoldable pub set_scope : ScopeResolver → String → Layer → ScopeResolver
set_scope p key l = record p { scopes = insert key l p.scopes; cache = remove key p.cache }

abbrev pub layers_of : Option Layer → List Layer
layers_of none = []
layers_of (some l) = l ∷ []

abbrev pub chain : Resolved → Option ActionAuthorizer → Resolved
chain res none = res
chain res (some f) = with_fallback res f

-- What `For` computes when the cache has no entry.
unfoldable pub effective : ScopeResolver → String → Resolved
effective p scope =
    chain (resolve p.ladder (p.base ++ layers_of (lookup scope p.scopes))) p.fallback

-- For: the result, and the resolver with its cache filled.
unfoldable pub for_scope : ScopeResolver → String → Resolved × ScopeResolver
for_scope p scope = elim (lookup scope p.cache) [
  | some r ↦ (r, p)
  | none ↦ let res = effective p scope in (res, record p { cache = insert scope res p.cache })
]
