-- ===== src/Registry/Resolve.antt =====
-- registry/resolve.go: which version a consumer runs.
use mantlekeep.Prelude.{
  String, Bool, true, false, ◌&&◌, ◌≡◌, refl, Option, none, some, List, [], ◌∷◌, if◌then◌else◌,
  ◌==◌, Result, ok, err, ◌>>=◌, arith, In, here, there, Bool-cases, ◌||◌, inl, ap, value_or, inr,
  sym,
}
use mantlekeep.Registry.{
  Version, Entry, Registry, RegistryError, require_entry, not_available, no_default,
}
use mantlekeep.Registry.Lifecycle.{is_published, is_deprecated}

pub data ResolutionMode : Type 0 where
  strict_pin default_fallback : ResolutionMode

abbrev is_default_fallback : ResolutionMode → Bool
is_default_fallback strict_pin = false
is_default_fallback default_fallback = true

-- The prose of Reason is left out but for whether there is any.
pub record Resolution : Type 0 where
  pub name : String
  pub requested : String
  pub resolved : Version
  pub substituted : Bool
  pub has_reason : Bool

unfoldable pub find_version : String → List Version → Option Version
find_version version [] = none
find_version version (v ∷ vs) = if v.version == version then some v else find_version version vs

unfoldable pub default_version : List Version → Option Version
default_version [] = none
default_version (v ∷ vs) =
    if v.is_default && is_published v.status then some v else default_version vs

abbrev pub substitute : String → String → Option Version → Result RegistryError Resolution
substitute name requested none = err no_default
substitute name requested (some d) = ok (record {
  name = name;
  requested = requested;
  resolved = d;
  substituted = true;
  has_reason = true;
})

abbrev pub fall_back :
    String → String → ResolutionMode → Option Version → Result RegistryError Resolution
fall_back name requested strict_pin d = err not_available
fall_back name requested default_fallback d = substitute name requested d

-- The switch on the status of the version that was asked for.
abbrev pub run_or :
    String
    → String
    → Option Version
    → Result RegistryError Resolution
    → Result RegistryError Resolution
run_or name requested none otherwise = otherwise
run_or name requested (some v) otherwise =
    if is_published v.status
    then ok (record {
      name = name;
      requested = requested;
      resolved = v;
      substituted = false;
      has_reason = false;
    })
    else if is_deprecated v.status
    then ok (record {
      name = name;
      requested = requested;
      resolved = v;
      substituted = false;
      has_reason = true;
    })
    else otherwise

unfoldable pub resolve_version :
    Registry → String → String → ResolutionMode → Result RegistryError Resolution
resolve_version r name requested mode = require_entry r name >>= λ e.
    run_or name requested (find_version requested e.versions)
      (fall_back name requested mode (default_version e.versions))

-- A version that runs: it stands in the entry and is published or deprecated; it is the requested
-- one, or, only under the default fallback and flagged as a substitution, the published default.
abbrev pub Runs : String → ResolutionMode → List Version → Resolution → Type 0
Runs requested mode vs x =
    In x.resolved vs
    × (if x.substituted
        then is_default_fallback mode && is_published x.resolved.status && x.resolved.is_default
        else x.resolved.version == requested
          && (is_published x.resolved.status || is_deprecated x.resolved.status))
      ≡ true

find_version_sound :
    (version : String) (vs : List Version) (v : Version)
    → find_version version vs ≡ some v
    → In v vs × ((v.version == version) ≡ true)
unfolding find_version
find_version_sound version [] v h = ground arith
find_version_sound version (w ∷ vs) v h = elim (Bool-cases (w.version == version)) [
  | inl e ↦ let same = ap (value_or w) (rw e at h) in (here same, rw (sym same) e)
  | inr e ↦ let found = find_version_sound version vs v (rw e at h) in (there found.0, found.1)
]

default_version_sound :
    (vs : List Version) (v : Version)
    → default_version vs ≡ some v
    → In v vs × ((is_published v.status && v.is_default) ≡ true)
unfolding default_version
default_version_sound [] v h = ground arith
default_version_sound (w ∷ vs) v h = elim (Bool-cases (w.is_default && is_published w.status)) [
  | inl e ↦ let same = ap (value_or w) (rw e at h) in (here same, ground arith)
  | inr e ↦ let found = default_version_sound vs v (rw e at h) in (there found.0, found.1)
]

abbrev RunsOrFails :
    String → ResolutionMode → List Version → Result RegistryError Resolution → Type 0
RunsOrFails requested mode vs (ok x) = Runs requested mode vs x
RunsOrFails requested mode vs (err e) = Unit

fall_back_sound :
    (name requested : String) (mode : ResolutionMode) (vs : List Version) (d : Option Version)
    → ((v : Version) → d ≡ some v → In v vs × ((is_published v.status && v.is_default) ≡ true))
    → RunsOrFails requested mode vs (fall_back name requested mode d)
fall_back_sound name requested strict_pin vs d s = tt
fall_back_sound name requested default_fallback vs none s = tt
fall_back_sound name requested default_fallback vs (some v) s = s v refl

run_or_sound :
    (name requested : String) (mode : ResolutionMode) (vs : List Version) (o : Option Version)
    (otherwise : Result RegistryError Resolution)
    → ((v : Version) → o ≡ some v → In v vs × ((v.version == requested) ≡ true))
    → RunsOrFails requested mode vs otherwise
    → RunsOrFails requested mode vs (run_or name requested o otherwise)
run_or_sound name requested mode vs none otherwise s l = l
run_or_sound name requested mode vs (some v) otherwise s l =
    elim (Bool-cases (is_published v.status)) [
      | inl p ↦ rw p ((s v refl).0, ground (arith, (s v refl).1))
      | inr p ↦ elim (Bool-cases (is_deprecated v.status)) [
        | inl d ↦ rw (p, d) ((s v refl).0, ground (arith, (s v refl).1))
        | inr d ↦ rw (p, d) l
      ]
    ]

resolve_version_sound :
    (r : Registry) (name requested : String) (mode : ResolutionMode) (e : Entry)
    → require_entry r name ≡ ok e
    → RunsOrFails requested mode e.versions (resolve_version r name requested mode)
unfolding resolve_version
resolve_version_sound r name requested mode e h = rw h (
    run_or_sound name requested mode e.versions (find_version requested e.versions)
      (fall_back name requested mode (default_version e.versions))
      (find_version_sound requested e.versions)
      (fall_back_sound name requested mode e.versions (default_version e.versions)
        (default_version_sound e.versions)))

-- What a request resolves to stands in the entry. Not flagged as a substitution, it is a version
-- of the requested name that is published or deprecated; flagged, it is a published version marked
-- as the default, and the request allowed the default fallback.
pub resolve_version-Runs :
    (r : Registry) (name requested : String) (mode : ResolutionMode) (e : Entry) (x : Resolution)
    → require_entry r name ≡ ok e
    → resolve_version r name requested mode ≡ ok x
    → Runs requested mode e.versions x
resolve_version-Runs r name requested mode e x he h =
    rw h at (resolve_version_sound r name requested mode e he)
