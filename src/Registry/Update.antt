-- ===== src/Registry/Update.antt =====
-- registry/lifecycle.go: transition, Register and SetDefault on the versions of an entry. The
-- versions stay as the policy demands and at most one of them is the default.
use mantlekeep.Registry.{PromotionPolicy, Version, List, Bool, ℕ, true, ◌&&◌, String, RegistryError}
use mantlekeep.Registry.Lifecycle.{update_version, clear_defaults, mark_default}
use mantlekeep.Registry.Governed.{is_governed, Keeps}
use mantlekeep.Prelude.{
  ◌≡◌, ◌∷◌, Result, refl, not, if◌then◌else◌, [], ok, arith, Bool-cases, ◌==◌, inl, Result-cases,
  inr, false, ◌++◌,
}

unfoldable pub all_governed : PromotionPolicy → List Version → Bool
all_governed p [] = true
all_governed p (v ∷ vs) = is_governed p v && all_governed p vs

unfoldable pub no_default_in : List Version → Bool
no_default_in [] = true
no_default_in (v ∷ vs) = not v.is_default && no_default_in vs

unfoldable pub one_default_at_most : List Version → Bool
one_default_at_most [] = true
one_default_at_most (v ∷ vs) = (if v.is_default then no_default_in vs else one_default_at_most vs)

-- What holds of the versions of every entry.
abbrev pub is_well_formed : PromotionPolicy → List Version → Bool
is_well_formed p vs = all_governed p vs && one_default_at_most vs

is_governed-stamp :
    (p : PromotionPolicy) (now : ℕ) (v : Version)
    → is_governed p (record v { updated_at = now }) ≡ is_governed p v
unfolding is_governed
is_governed-stamp p now v = refl

is_governed-set_default :
    (p : PromotionPolicy) (d : Bool) (v : Version)
    → is_governed p (record v { is_default = d }) ≡ is_governed p v
unfolding is_governed
is_governed-set_default p d v = refl

update_version-all_governed :
    (p : PromotionPolicy) (now : ℕ) (version : String) (fn : Version → Result RegistryError Version)
    (vs vs' : List Version) (x : Version)
    → Keeps p fn
    → update_version now version fn vs ≡ ok (vs', x)
    → all_governed p vs ≡ true
    → all_governed p vs' ≡ true
unfolding update_version all_governed
update_version-all_governed p now version fn [] vs' x k h g = ground arith
update_version-all_governed p now version fn (v ∷ vs) vs' x k h g =
    elim (Bool-cases (v.version == version)) [
      | inl e ↦ elim (Result-cases (fn v)) [
        | inl (v', f) ↦ ground (arith, k v v' f, is_governed-stamp p now v')
        | inr (e', f) ↦ ground arith
      ]
      | inr e ↦ elim (Result-cases (update_version now version fn vs)) [
        | inl ((ws, y), f) ↦
            ground (arith, update_version-all_governed p now version fn vs ws y k f)
        | inr (e', f) ↦ ground arith
      ]
    ]

update_version-no_default_in :
    (p : PromotionPolicy) (now : ℕ) (version : String) (fn : Version → Result RegistryError Version)
    (vs vs' : List Version) (x : Version)
    → Keeps p fn
    → update_version now version fn vs ≡ ok (vs', x)
    → all_governed p vs ≡ true
    → no_default_in vs ≡ true
    → no_default_in vs' ≡ true
unfolding update_version all_governed no_default_in
update_version-no_default_in p now version fn [] vs' x k h g d = ground arith
update_version-no_default_in p now version fn (v ∷ vs) vs' x k h g d =
    elim (Bool-cases (v.version == version)) [
      | inl e ↦ elim (Result-cases (fn v)) [
        | inl (v', f) ↦ ground (arith, k v v' f)
        | inr (e', f) ↦ ground arith
      ]
      | inr e ↦ elim (Result-cases (update_version now version fn vs)) [
        | inl ((ws, y), f) ↦
            ground (arith, update_version-no_default_in p now version fn vs ws y k f)
        | inr (e', f) ↦ ground arith
      ]
    ]

no_default_in-one_default :
    (vs : List Version) → no_default_in vs ≡ true → one_default_at_most vs ≡ true
unfolding no_default_in one_default_at_most
no_default_in-one_default [] h = refl
no_default_in-one_default (v ∷ vs) h = ground (arith, no_default_in-one_default vs)

update_version-one_default :
    (p : PromotionPolicy) (now : ℕ) (version : String) (fn : Version → Result RegistryError Version)
    (vs vs' : List Version) (x : Version)
    → Keeps p fn
    → update_version now version fn vs ≡ ok (vs', x)
    → all_governed p vs ≡ true
    → one_default_at_most vs ≡ true
    → one_default_at_most vs' ≡ true
unfolding update_version all_governed one_default_at_most
update_version-one_default p now version fn [] vs' x k h g d = ground arith
update_version-one_default p now version fn (v ∷ vs) vs' x k h g d =
    elim (Bool-cases (v.version == version)) [
      | inl e ↦ elim (Result-cases (fn v)) [
        | inl (v', f) ↦ ground (arith, k v v' f, no_default_in-one_default vs)
        | inr (e', f) ↦ ground arith
      ]
      | inr e ↦ elim (Result-cases (update_version now version fn vs)) [
        | inl ((ws, y), f) ↦ ground (
          arith,
          update_version-one_default p now version fn vs ws y k f,
          update_version-no_default_in p now version fn vs ws y k f,
        )
        | inr (e', f) ↦ ground arith
      ]
    ]

pub update_version-well_formed :
    (p : PromotionPolicy) (now : ℕ) (version : String) (fn : Version → Result RegistryError Version)
    (vs vs' : List Version) (x : Version)
    → Keeps p fn
    → update_version now version fn vs ≡ ok (vs', x)
    → is_well_formed p vs ≡ true
    → is_well_formed p vs' ≡ true
update_version-well_formed p now version fn vs vs' x k h g = ground (
  arith,
  update_version-all_governed p now version fn vs vs' x k h,
  update_version-one_default p now version fn vs vs' x k h,
)

clear_defaults-no_default_in : (vs : List Version) → no_default_in (clear_defaults vs) ≡ true
unfolding no_default_in
clear_defaults-no_default_in [] = refl
clear_defaults-no_default_in (v ∷ vs) = clear_defaults-no_default_in vs

clear_defaults-all_governed :
    (p : PromotionPolicy) (vs : List Version)
    → all_governed p (clear_defaults vs) ≡ all_governed p vs
unfolding all_governed
clear_defaults-all_governed p [] = refl
clear_defaults-all_governed p (v ∷ vs) =
    rw (is_governed-set_default p false v, clear_defaults-all_governed p vs)

pub mark_default-well_formed :
    (p : PromotionPolicy) (now : ℕ) (version : String) (vs vs' : List Version)
    → mark_default now version vs ≡ ok vs'
    → is_well_formed p vs ≡ true
    → is_well_formed p vs' ≡ true
unfolding mark_default all_governed one_default_at_most
mark_default-well_formed p now version [] vs' h g = ground arith
mark_default-well_formed p now version (v ∷ vs) vs' h g = elim (Bool-cases (v.version == version)) [
  | inl e ↦ ground (
    arith,
    clear_defaults-no_default_in vs,
    clear_defaults-all_governed p vs,
    is_governed-set_default p true v,
    is_governed-stamp p now (record v { is_default = true }),
  )
  | inr e ↦ elim (Result-cases (mark_default now version vs)) [
    | inl (ws, f) ↦ ground (
      arith,
      mark_default-well_formed p now version vs ws f,
      is_governed-set_default p false v,
      no_default_in-one_default vs,
    )
    | inr (e', f) ↦ ground arith
  ]
]

no_default_in-append :
    (vs : List Version) (v : Version)
    → v.is_default ≡ false
    → no_default_in (vs ++ v ∷ []) ≡ no_default_in vs
unfolding no_default_in
no_default_in-append [] v h = ground arith
no_default_in-append (w ∷ vs) v h = rw (no_default_in-append vs v h)

all_governed-append :
    (p : PromotionPolicy) (vs : List Version) (v : Version)
    → is_governed p v ≡ true
    → all_governed p (vs ++ v ∷ []) ≡ all_governed p vs
unfolding all_governed
all_governed-append p [] v g = ground arith
all_governed-append p (w ∷ vs) v g = rw (all_governed-append p vs v g)

one_default-append :
    (vs : List Version) (v : Version)
    → v.is_default ≡ false
    → one_default_at_most (vs ++ v ∷ []) ≡ one_default_at_most vs
unfolding one_default_at_most no_default_in
one_default-append [] v h = ground arith
one_default-append (w ∷ vs) v h = rw (one_default-append vs v h, no_default_in-append vs v h)

pub is_well_formed-append :
    (p : PromotionPolicy) (vs : List Version) (v : Version)
    → v.is_default ≡ false
    → is_governed p v ≡ true
    → is_well_formed p (vs ++ v ∷ []) ≡ is_well_formed p vs
is_well_formed-append p vs v h g = rw (all_governed-append p vs v g, one_default-append vs v h)
