-- ===== src/Registry/Reachable.antt =====
-- registry: any sequence of calls on one environment's registry.
use mantlekeep.Registry.{
  entry_key, Registry, PromotionPolicy, Registration, Result, List, save, RegistryError, Entry,
  register, safe_name, get, require_entry, Version, add_draft, trim_space, new_registry, decoded,
  found, has_version, entry_for, draft_version,
}
use mantlekeep.Registry.Lifecycle.{
  demise, transition, set_default, update_version, unless_used, set_demised, mark_default, put_pin,
  change_linked, dependents, test_recorded, promotion_proposed, approved, rejected, set_deprecated,
  pin_key,
}
use mantlekeep.Prelude.{
  false, ◌≡◌, Bool, ◌∷◌, String, ok, lookup, ◌>>=◌, [], err, some, true, Bool-cases, inl, inr,
  arith, insert, lookup-insert, Result-cases, Option, ◌==◌, refl, ◌||◌, none, ◌++◌, ◌∙◌,
}
use mantlekeep.Registry.Update.{
  is_well_formed, update_version-well_formed, all_governed, one_default_at_most,
  mark_default-well_formed, is_well_formed-append,
}
use mantlekeep.Registry.Governed.{
  rejected-Keeps, Keeps, is_governed, set_demised-Keeps, change_linked-Keeps, test_recorded-Keeps,
  promotion_proposed-Keeps, approved-Keeps, set_deprecated-Keeps,
}
use mantlekeep.Registry.Calls.{
  after, next, call, run_calls, Call, tick, register_call, link_change_call, record_test_call,
  propose_promote_call, approve_call, reject_call, deprecate_call, demise_call, set_default_call,
  pin_call, unpin_call,
}

-- Every entry that can be read is well formed.
abbrev pub IsSound : PromotionPolicy → Registry → Type 0
IsSound p r =
    (r.policy ≡ p)
    × ((key : String) (e : Entry)
        → lookup key r.entries ≡ some (some e)
        → is_well_formed p e.versions ≡ true)

-- What a call may return: a sound registry, or an error, which leaves the old one.
abbrev pub Leaves : PromotionPolicy → Result RegistryError Registry → Type 0
Leaves p (ok r) = IsSound p r
Leaves p (err e) = Unit

pub after-IsSound :
    (p : PromotionPolicy) (r : Registry) (x : Result RegistryError Registry)
    → IsSound p r
    → Leaves p x
    → IsSound p (after r x)
after-IsSound p r (ok r') s l = l
after-IsSound p r (err e) s l = s

saved-IsSound :
    (p : PromotionPolicy) (r : Registry) (k : String) (e : Entry)
    → IsSound p r
    → is_well_formed p e.versions ≡ true
    → IsSound p (record r { entries = insert k (some e) r.entries })
saved-IsSound p r k e s w =
    (s.0, λ key e' h. ground (arith, lookup-insert k key (some e) r.entries, w, s.1 key e', h))

save-Leaves :
    (p : PromotionPolicy) (r : Registry) (e : Entry)
    → IsSound p r
    → is_well_formed p e.versions ≡ true
    → Leaves p (save r e)
unfolding save
save-Leaves p r e s w = elim (Bool-cases r.accepts) [
  | inl a ↦ rw a (saved-IsSound p r (safe_name e.name) e s w)
  | inr a ↦ rw a tt
]

decoded-some : (o : Option (Option Entry)) (e : Entry) → decoded o ≡ ok (some e) → o ≡ some (some e)
decoded-some none e h = ground arith
decoded-some (some none) e h = ground arith
decoded-some (some (some x)) e h = ground arith

get-well_formed :
    (p : PromotionPolicy) (r : Registry) (name : String) (e : Entry)
    → IsSound p r
    → get r name ≡ ok (some e)
    → is_well_formed p e.versions ≡ true
unfolding get
get-well_formed p r name e s h = elim (Bool-cases (r.reads (entry_key name))) [
  | inl q ↦ s.1 (safe_name name) e (decoded-some (lookup (safe_name name) r.entries) e (rw q at h))
  | inr q ↦ cc (rw q at h)
]

found-ok :
    (x : Result RegistryError (Option Entry)) (e : Entry) → (x >>= found) ≡ ok e → x ≡ ok (some e)
found-ok (ok none) e h = ground arith
found-ok (ok (some x)) e h = ground arith
found-ok (err x) e h = ground arith

require_entry-well_formed :
    (p : PromotionPolicy) (r : Registry) (name : String) (e : Entry)
    → IsSound p r
    → require_entry r name ≡ ok e
    → is_well_formed p e.versions ≡ true
unfolding require_entry
require_entry-well_formed p r name e s h = get-well_formed p r name e s (found-ok (get r name) e h)

next-Leaves {ℓ} :
    {A : Type ℓ} (p : PromotionPolicy) (a : A) (x : Result RegistryError Registry)
    → Leaves p x
    → Leaves p (next (x >>= λ r. ok (a, r)))
next-Leaves p a (ok r) l = l
next-Leaves p a (err e) l = tt

pub transition-Leaves :
    (p : PromotionPolicy) (r : Registry) (name version : String)
    (fn : Version → Result RegistryError Version)
    → Keeps p fn
    → IsSound p r
    → Leaves p (next (transition r name version fn))
unfolding transition
transition-Leaves p r name version fn k s = elim (Result-cases (require_entry r name)) [
  | inl (e, he) ↦ elim (Result-cases (update_version r.now version fn e.versions)) [
    | inl ((vs, v), hu) ↦
        let w =
          update_version-well_formed p r.now version fn e.versions vs v k hu
            (require_entry-well_formed p r name e s he) in
        rw (he, hu)
          (next-Leaves p v (save r (record e { versions = vs }))
            (save-Leaves p r (record e { versions = vs }) s w))
    | inr (x, hu) ↦ rw (he, hu) tt
  ]
  | inr (x, he) ↦ rw he tt
]

add_draft-Leaves :
    (p : PromotionPolicy) (r : Registry) (reg : Registration) (e : Entry)
    → IsSound p r
    → is_well_formed p e.versions ≡ true
    → Leaves p (next (add_draft r reg e))
unfolding add_draft is_governed
add_draft-Leaves p r reg e s w = elim (Bool-cases (has_version e.versions reg.version)) [
  | inl h ↦ rw h tt
  | inr h ↦
      let e' = record e { versions = e.versions ++ draft_version r reg ∷ [] } in
      let w' = is_well_formed-append p e.versions (draft_version r reg) refl (ground arith) ∙ w in
      rw h (next-Leaves p e' (save r e') (save-Leaves p r e' s w'))
]

entry_for-well_formed :
    (p : PromotionPolicy) (r : Registry) (reg : Registration) (o : Option Entry)
    → IsSound p r
    → get r reg.name ≡ ok o
    → is_well_formed p (entry_for reg o).versions ≡ true
unfolding all_governed one_default_at_most
entry_for-well_formed p r reg none s h = refl
entry_for-well_formed p r reg (some e) s h = get-well_formed p r reg.name e s h

pub register-Leaves :
    (p : PromotionPolicy) (r : Registry) (reg : Registration)
    → IsSound p r
    → Leaves p (next (register r reg))
unfolding register
register-Leaves p r reg s =
    elim (Bool-cases (trim_space reg.name == "" || trim_space reg.version == "")) [
      | inl b ↦ rw b tt
      | inr b ↦ elim (Result-cases (get r reg.name)) [
        | inl (o, h) ↦
            rw (b, h)
              (add_draft-Leaves p r reg (entry_for reg o) s (entry_for-well_formed p r reg o s h))
        | inr (x, h) ↦ rw (b, h) tt
      ]
    ]

unless_used-Leaves :
    (p : PromotionPolicy) (users : List String) (x : Result RegistryError (Version × Registry))
    → Leaves p (next x)
    → Leaves p (next (unless_used users x))
unless_used-Leaves p [] x l = l
unless_used-Leaves p (c ∷ cs) x l = tt

demise-Leaves :
    (p : PromotionPolicy) (r : Registry) (name version : String) (force : Bool)
    → IsSound p r
    → Leaves p (next (demise r name version force))
unfolding demise
demise-Leaves p r name version true s =
    transition-Leaves p r name version set_demised (set_demised-Keeps p) s
demise-Leaves p r name version false s = elim (Result-cases (dependents r name version)) [
  | inl (users, q) ↦ rw q (
      unless_used-Leaves p users (transition r name version set_demised)
        (transition-Leaves p r name version set_demised (set_demised-Keeps p) s))
  | inr (x, q) ↦ rw q tt
]

set_default-Leaves :
    (p : PromotionPolicy) (r : Registry) (name version : String)
    → IsSound p r
    → Leaves p (set_default r name version)
unfolding set_default
set_default-Leaves p r name version s = elim (Result-cases (require_entry r name)) [
  | inl (e, he) ↦ elim (Result-cases (mark_default r.now version e.versions)) [
    | inl (vs, hu) ↦
        rw (he, hu)
          (save-Leaves p r (record e { versions = vs }) s
            (mark_default-well_formed p r.now version e.versions vs hu
              (require_entry-well_formed p r name e s he)))
    | inr (x, hu) ↦ rw (he, hu) tt
  ]
  | inr (x, he) ↦ rw he tt
]

pin-Leaves :
    (p : PromotionPolicy) (r : Registry) (key consumer : String)
    → IsSound p r
    → Leaves p (put_pin r key consumer)
pin-Leaves p r key consumer s = elim (Bool-cases r.accepts) [ inl a ↦ rw a s | inr a ↦ rw a tt ]

call-Leaves : (p : PromotionPolicy) (c : Call) (r : Registry) → IsSound p r → Leaves p (call c r)
unfolding call
call-Leaves p (tick now accepts reads lists) r s = s
call-Leaves p (register_call reg) r s = register-Leaves p r reg s
call-Leaves p (link_change_call name version ref) r s =
    transition-Leaves p r name version (change_linked ref) (change_linked-Keeps p ref) s
call-Leaves p (record_test_call name version passed ref) r s =
    transition-Leaves p r name version (test_recorded r.now passed ref)
      (test_recorded-Keeps p r.now passed ref) s
call-Leaves p (propose_promote_call name version by) r s =
    transition-Leaves p r name version (promotion_proposed r.now r.policy by)
      (rw s.0 (promotion_proposed-Keeps p r.now by)) s
call-Leaves p (approve_call name version by) r s =
    transition-Leaves p r name version (approved r.now r.policy by)
      (rw s.0 (approved-Keeps p r.now by)) s
call-Leaves p (reject_call name version) r s =
    transition-Leaves p r name version rejected (rejected-Keeps p) s
call-Leaves p (deprecate_call name version) r s =
    transition-Leaves p r name version set_deprecated (set_deprecated-Keeps p) s
call-Leaves p (demise_call name version force) r s = demise-Leaves p r name version force s
call-Leaves p (set_default_call name version) r s = set_default-Leaves p r name version s
call-Leaves p (pin_call name version consumer) r s =
    pin-Leaves p r (pin_key name version consumer) consumer s
call-Leaves p (unpin_call name version consumer) r s =
    pin-Leaves p r (pin_key name version consumer) "" s

pub run_calls-IsSound :
    (p : PromotionPolicy) (cs : List Call) (r : Registry) → IsSound p r → IsSound p (run_calls cs r)
unfolding run_calls
run_calls-IsSound p [] r s = s
run_calls-IsSound p (c ∷ cs) r s =
    run_calls-IsSound p cs (after r (call c r))
      (after-IsSound p r (call c r) s (call-Leaves p c r s))

-- Whatever calls are made on a new registry, in each entry at most one version is the default,
-- and each version is as the promotion policy demands: under a policy that requires a test, none
-- but a draft is without a passed test; under one that requires an approval and separates duties,
-- none is published, deprecated or demised whose approver is its proposer.
pub run_calls-new_registry :
    (env : String) (p : PromotionPolicy) (cs : List Call) (key : String) (e : Entry)
    → lookup key (run_calls cs (new_registry env p)).entries ≡ some (some e)
    → is_well_formed p e.versions ≡ true
unfolding lookup
run_calls-new_registry env p cs =
    (run_calls-IsSound p cs (new_registry env p) (refl, λ key e h. ground arith)).1
