-- ===== src/Registry/Pins.antt =====
-- registry/dependents.go and Demise: a pin, and a retirement without force.
use text.Mathlib.TextPositions.{starts_with-append}
use mantlekeep.Prelude.{
  contains, eq_refl, false≢true, subst, inl, inr, insert, String, Map, List, Bool, true, false, ◌≡◌,
  refl, ◌==◌, [], Result, arith, ok, err, Bool-cases, ◌∷◌,
}
use mantlekeep.Registry.{Registry, Version, has_prefix, RegistryError, still_used, safe_name}
use mantlekeep.Registry.Lifecycle.{
  put_pin, dependents, consumers_under, pin, demise, unless_used, pin_prefix, pin_key,
}

consumers_under-insert :
    (reads : String → Bool) (prefix key consumer : String) (pins : Map String)
    → has_prefix key prefix ≡ true
    → reads key ≡ true
    → (consumer == "") ≡ false
    → contains (consumers_under reads prefix (insert key consumer pins)) consumer ≡ true
unfolding consumers_under insert
consumers_under-insert reads prefix key consumer [] h q c = ground (arith, eq_refl consumer)
consumers_under-insert reads prefix key consumer ((j, w) ∷ pins) h q c =
    ground (arith, eq_refl consumer, consumers_under-insert reads prefix key consumer pins h q c)

unless_used-used :
    (users : List String) (consumer : String) (x : Result RegistryError (Version × Registry))
    → contains users consumer ≡ true
    → unless_used users x ≡ err (still_used users)
unless_used-used [] consumer x h = absurd (false≢true h)
unless_used-used (c ∷ cs) consumer x h = refl

-- What a pin leaves: the store as it was, with the key.
pin-ok :
    (r r' : Registry) (key consumer : String)
    → put_pin r key consumer ≡ ok r'
    → record r { pins = insert key consumer r.pins } ≡ r'
pin-ok r r' key consumer h = elim (Bool-cases r.accepts) [
  | inl a ↦ cc (rw a at h)
  | inr a ↦ cc (rw a at h)
]

-- A version that a consumer with a name has just pinned is not retired without force, if the store
-- lists its keys and reads this pin: the list of the dependents has the consumer, and the call is
-- refused with that list, whatever the entry and the version are.
pub pin-demise :
    (r r' : Registry) (name version consumer : String)
    → pin r name version consumer ≡ ok r'
    → (consumer == "") ≡ false
    → r.lists ≡ true
    → r.reads (pin_key name version consumer) ≡ true
    → (users : List String) × (dependents r' name version ≡ ok users)
      × (contains users consumer ≡ true)
      × (demise r' name version false ≡ err (still_used users))
unfolding demise dependents
pin-demise r r' name version consumer h c l q =
    let key = pin_key name version consumer in
    let users = consumers_under r.reads (pin_prefix name version) (insert key consumer r.pins) in
    let used =
      consumers_under-insert r.reads (pin_prefix name version) key consumer r.pins
        (starts_with-append (pin_prefix name version) (safe_name consumer)) q c in
    subst
      (λ s.
        (users : List String) × (dependents s name version ≡ ok users)
        × (contains users consumer ≡ true)
        × (demise s name version false ≡ err (still_used users)))
      (pin-ok r r' key consumer h)
      (users, rw l refl, used, rw l (unless_used-used users consumer _ used))
