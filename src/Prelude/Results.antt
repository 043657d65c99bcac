-- ===== src/Prelude/Results.antt =====
-- A Go result `(value, error)`: the value, or the error alone.
use mathlib.Core.Path.{◌≡◌, refl}
use mathlib.Core.Bool.{Bool, true, false}
use mantlekeep.Prelude.Tests.{if◌then◌else◌}
use mathlib.Core.Logic.{◌⊎◌, inl, inr}

pub data Result {ℓ} (E : Type 0) (A : Type ℓ) : Type ℓ where
  ok : A → Result E A
  err : E → Result E A

infixl 5 ◌>>=◌
abbrev pub ◌>>=◌ {ℓ κ} :
    {E : Type 0} {A : Type ℓ} {B : Type κ} → Result E A → (A → Result E B) → Result E B
ok a >>= f = f a
err e >>= f = err e

pub Result-cases {ℓ} :
    {E : Type 0} {A : Type ℓ} (r : Result E A) → ((a : A) × (r ≡ ok a)) ⊎ ((e : E) × (r ≡ err e))
Result-cases (ok a) = inl (a, refl)
Result-cases (err e) = inr (e, refl)

-- A predicate of the value, where there is one.
pub data Holds {ℓ κ} {E : Type 0} {A : Type ℓ} (P : A → Type κ) : Result E A → Type (ℓ ⊔ κ) where
  holds : {a : A} → P a → Holds P (ok a)
  errs : {e : E} → Holds P (err e)

module _ {ℓ κ} {E : Type 0} {A : Type ℓ} {P : A → Type κ} where
  pub Holds-map {μ} :
      {Q : A → Type μ} {r : Result E A} → ((a : A) → P a → Q a) → Holds P r → Holds Q r
  Holds-map f (holds {a} p) = holds (f a p)
  Holds-map f errs = errs

  pub Holds-bind {μ ν} :
      {B : Type ν} {Q : B → Type μ} (k : A → Result E B) {r : Result E A}
      → ((a : A) → P a → Holds Q (k a))
      → Holds P r
      → Holds Q (r >>= k)
  Holds-bind k f (holds {a} p) = f a p
  Holds-bind k f errs = errs

  pub Holds-if :
      {r : Result E A} (e : E) (b : Bool)
      → (b ≡ true → Holds P r)
      → Holds P (if b then r else err e)
  Holds-if e true f = f refl
  Holds-if e false f = errs

  pub Holds-if_not :
      {r : Result E A} (e : E) (b : Bool)
      → (b ≡ false → Holds P r)
      → Holds P (if b then err e else r)
  Holds-if_not e true f = errs
  Holds-if_not e false f = f refl

  pub Holds-either :
      {r s : Result E A} (b : Bool)
      → (b ≡ true → Holds P r)
      → (b ≡ false → Holds P s)
      → Holds P (if b then r else s)
  Holds-either true f g = f refl
  Holds-either false f g = g refl

  pub Holds-both {μ} :
      {Q : A → Type μ} {r : Result E A} → Holds P r → Holds Q r → Holds (λ a. P a × Q a) r
  Holds-both (holds p) (holds q) = holds (p, q)
  Holds-both errs errs = errs

  pub Holds-ok : {a : A} → Holds {E = E} P (ok a) → P a
  Holds-ok (holds p) = p

pub Holds-all {ℓ κ μ} :
    {E : Type 0} {A : Type ℓ} {X : Type μ} {P : X → A → Type κ} (r : Result E A)
    → ((x : X) → Holds (P x) r)
    → Holds (λ a. (x : X) → P x a) r
Holds-all (ok a) f = holds (λ x. Holds-ok (f x))
Holds-all (err e) f = errs
