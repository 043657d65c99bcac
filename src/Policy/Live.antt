-- ===== src/Policy/Live.antt =====
-- internal/policy/dynamic.go: the live cascade and its watcher. The pointer swap is one step. The
-- content hash (SHA-256 of the layers' JSON) is a parameter; the ticker and the hook are left out.
use mantlekeep.Prelude.{
  String, Bool, true, false, ◌≡◌, refl, Option, List, if◌then◌else◌, ◌==◌, eq_iff, Result, ok, err,
  Bool-cases, inl, inr, ◌∙◌,
}
use mantlekeep.Policy.Ladder.{RoleLadder}
use mantlekeep.Policy.Cascade.{ActionAuthorizer, Layer, Resolved, resolve}
use mantlekeep.Policy.Scope.{chain}

-- The watcher, with the snapshot that it swaps.
pub record Watcher : Type 0 where
  pub live : Resolved
  pub fallback : Option ActionAuthorizer
  pub ladder : RoleLadder
  pub last_hash : String

abbrev pub rebuild : Watcher → List Layer → Resolved
rebuild w layers = chain (resolve w.ladder layers) w.fallback

module _ (hash_layers : List Layer → String) where
  -- Reload, given what the loader returned: `changed` or the loader's error, and the watcher.
  unfoldable pub reload : Watcher → Result String (List Layer) → Result String Bool × Watcher
  reload w (err e) = (err e, w)
  reload w (ok layers) =
      if hash_layers layers == w.last_hash
      then (ok false, w)
      else (ok true, record w { live = rebuild w layers; last_hash = hash_layers layers })

  -- The snapshot in force is the cascade of layers with the recorded hash.
  pub record IsCurrent (w : Watcher) (layers : List Layer) : Type 0 where
    pub hashed : w.last_hash ≡ hash_layers layers
    pub built : w.live ≡ rebuild w layers

  -- The watcher fails static and follows its source: a load error leaves it as it was, and after a
  -- load of `new` the snapshot in force is the cascade of `new`, unless `new` and the layers in
  -- force before, `old`, differ and have one hash.
  pub reload-follows :
      (w : Watcher) (old new : List Layer) (e : String)
      → IsCurrent w old
      → (hash_layers new ≡ hash_layers old → new ≡ old)
      → ((reload w (err e)).1 ≡ w) × IsCurrent (reload w (ok new)).1 new
  unfolding reload
  reload-follows w old new e c distinct = (
    refl,
    elim (Bool-cases (hash_layers new == w.last_hash)) [
      | inl same ↦
          let same' = (eq_iff (hash_layers new) w.last_hash).0 same in
          rw same (rw (distinct (same' ∙ c.hashed)) c)
      | inr other ↦ rw other (record { hashed = refl; built = refl })
    ],
  )
