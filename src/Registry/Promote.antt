-- ===== src/Registry/Promote.antt =====
-- registry/promote.go: LocalPromoter hands a version on to the registry of the next environment.
use mantlekeep.Prelude.{
  lookup, Map, ◌≡◌, refl, true, arith, List, Bool-cases, value_or, ◌∙◌, ◌==◌, inl, eq_iff,
  lookup-insert, inr,
}
use mantlekeep.Registry.{
  Registry, Entry, Version, Registration, RegistryError, register, PromotionPolicy, Map, Result,
  Option, lookup, String, ok, err, ◌∷◌, none, some, insert, [], new_registry,
}
use mantlekeep.Registry.Lifecycle.{transition}
use mantlekeep.Registry.Reachable.{
  IsSound, register-Leaves, transition-Leaves, Leaves, run_calls-IsSound,
}
use mantlekeep.Registry.Calls.{next, Call, run_calls}
use mantlekeep.Policy.Cascade.Order.{Distinct}
use mantlekeep.Registry.Governed.{is_governed, Keeps}
use mantlekeep.Registry.Update.{is_well_formed}

abbrev pub promotion : Entry → Version → Registration
promotion e v = record {
  name = e.name;
  kind = e.kind;
  title = e.title;
  owner = e.owner;
  version = v.version;
  ref = v.ref;
  manifest = v.manifest;
}

-- The loop over the version's own provenance.
unfoldable pub copy_provenance : Map String → Map String → Map String
copy_provenance m [] = m
copy_provenance m ((k, v) ∷ rest) = copy_provenance (insert k v m) rest

abbrev pub provenance_for : Version → Map String
provenance_for v = copy_provenance (("promotedFrom", v.env) ∷ []) v.provenance

abbrev pub provenance_set : Map String → Version → Result RegistryError Version
provenance_set provenance v = ok (record v { provenance = provenance })

-- What is returned, `none` for no error, and the target: the draft stays if it cannot be marked.
abbrev pub marked :
    Registry → Result RegistryError (Version × Registry) → Option RegistryError × Registry
marked r (ok (v, r')) = (none, r')
marked r (err e) = (some e, r)

abbrev pub handed_on :
    Registry
    → Entry
    → Version
    → Result RegistryError (Entry × Registry)
    → Option RegistryError × Registry
handed_on r e v (err x) = (some x, r)
handed_on r e v (ok (d, r')) =
    marked r' (transition r' e.name v.version (provenance_set (provenance_for v)))

unfoldable pub promote : Registry → Entry → Version → Option RegistryError × Registry
promote target e v = handed_on target e v (register target (promotion e v))

provenance_set-Keeps : (p : PromotionPolicy) (m : Map String) → Keeps p (provenance_set m)
unfolding is_governed
provenance_set-Keeps p m v v' h g = (ground arith, ground arith)

marked-IsSound :
    (p : PromotionPolicy) (r : Registry) (x : Result RegistryError (Version × Registry))
    → IsSound p r
    → Leaves p (next x)
    → IsSound p (marked r x).1
marked-IsSound p r (ok (v, r')) s l = l
marked-IsSound p r (err e) s l = s

handed_on-IsSound :
    (p : PromotionPolicy) (r : Registry) (e : Entry) (v : Version)
    (x : Result RegistryError (Entry × Registry))
    → IsSound p r
    → Leaves p (next x)
    → IsSound p (handed_on r e v x).1
handed_on-IsSound p r e v (err x) s l = s
handed_on-IsSound p r e v (ok (d, r')) s l =
    marked-IsSound p r' (transition r' e.name v.version (provenance_set (provenance_for v))) l (
      transition-Leaves p r' e.name v.version (provenance_set (provenance_for v))
        (provenance_set-Keeps p (provenance_for v)) l)

promote-IsSound :
    (p : PromotionPolicy) (r : Registry) (e : Entry) (v : Version)
    → IsSound p r
    → IsSound p (promote r e v).1
unfolding promote
promote-IsSound p r e v s =
    handed_on-IsSound p r e v (register r (promotion e v)) s (register-Leaves p r (promotion e v) s)

-- Promotion brings no version past the target's own policy: whatever is promoted into a registry
-- that any calls have made, and whatever calls follow, in each entry at most one version is the
-- default, and each version is as the target's policy demands.
pub promote-governed :
    (env : String) (p : PromotionPolicy) (cs ds : List Call) (e : Entry) (v : Version)
    (key : String) (held : Entry)
    → lookup key (run_calls ds (promote (run_calls cs (new_registry env p)) e v).1).entries
      ≡ some (some held)
    → is_well_formed p held.versions ≡ true
unfolding lookup
promote-governed env p cs ds e v =
    (run_calls-IsSound p ds (promote (run_calls cs (new_registry env p)) e v).1 (
      promote-IsSound p (run_calls cs (new_registry env p)) e v
        (run_calls-IsSound p cs (new_registry env p) (refl, λ key e h. ground arith)))).1

abbrev either : Option String → Option String → Option String
either none o = o
either (some s) o = some s

either-some : (o : Option String) (s : String) → either o (some s) ≡ some (value_or s o)
either-some none s = refl
either-some (some x) s = refl

lookup-copy_provenance :
    (m q : Map String) (key : String)
    → Distinct q
    → lookup key (copy_provenance m q) ≡ either (lookup key q) (lookup key m)
unfolding copy_provenance lookup
lookup-copy_provenance m [] key d = refl
lookup-copy_provenance m ((k, v) ∷ q) key d = elim (Bool-cases (k == key)) [
  | inl same ↦
      let absent : lookup key q ≡ none = rw (← (eq_iff k key).0 same) d.0 in
      ground
        (arith, lookup-copy_provenance (insert k v m) q key d.1, lookup-insert k key v m, absent)
  | inr other ↦
      ground (arith, lookup-copy_provenance (insert k v m) q key d.1, lookup-insert k key v m)
]

-- The mark `promotedFrom` of a promoted version names the environment it leaves only if its
-- provenance, whose keys are distinct, has no such mark yet: a mark of an earlier promotion stays.
pub lookup-provenance_for :
    (v : Version)
    → Distinct v.provenance
    → lookup "promotedFrom" (provenance_for v)
      ≡ some (value_or v.env (lookup "promotedFrom" v.provenance))
unfolding lookup
lookup-provenance_for v d =
    lookup-copy_provenance (("promotedFrom", v.env) ∷ []) v.provenance "promotedFrom" d
    ∙ either-some (lookup "promotedFrom" v.provenance) v.env
