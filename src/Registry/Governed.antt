-- ===== src/Registry/Governed.antt =====
-- registry/lifecycle.go: what the promotion policy demands of a version, kept by each transition.
use mantlekeep.Registry.{
  draft, in_review, Status, PromotionPolicy, Version, Bool, Result, false, not, RegistryError,
  String, ℕ,
}
use mantlekeep.Registry.Lifecycle.{
  change_linked, test_recorded, promotion_proposed, approved, rejected, set_deprecated, set_demised,
  is_draft,
}
use mantlekeep.Prelude.{arith, true, ◌≡◌, ◌||◌, ok, ◌&&◌, ◌==◌}

-- The statuses a version has once its promotion is through.
abbrev pub is_settled : Status → Bool
is_settled draft = false
is_settled in_review = false
is_settled _ = true

-- What the policy of an environment demands of each of its versions: a passing test before it
-- leaves the draft, and an approver other than the proposer before it is published.
unfoldable pub is_governed : PromotionPolicy → Version → Bool
is_governed p v =
    (not p.require_test_before_promote || is_draft v.status || v.test_passed)
    && (not (p.requires_approval && p.require_sod)
        || not (is_settled v.status)
        || not (v.approved_by == v.proposed_by))

-- A change that keeps a version governed and gives no version the default mark.
abbrev pub Keeps : PromotionPolicy → (Version → Result RegistryError Version) → Type 0
Keeps p fn =
    (v v' : Version)
    → fn v ≡ ok v'
    → is_governed p v ≡ true
    → (is_governed p v' ≡ true) × (v'.is_default ≡ true → v.is_default ≡ true)

pub change_linked-Keeps : (p : PromotionPolicy) (ref : String) → Keeps p (change_linked ref)
unfolding change_linked is_governed
change_linked-Keeps p ref v v' h g = (ground arith, ground arith)

pub test_recorded-Keeps :
    (p : PromotionPolicy) (now : ℕ) (passed : Bool) (ref : String)
    → Keeps p (test_recorded now passed ref)
unfolding test_recorded is_governed
test_recorded-Keeps p now passed ref v v' h g = (ground arith, ground arith)

pub promotion_proposed-Keeps :
    (p : PromotionPolicy) (now : ℕ) (by : String) → Keeps p (promotion_proposed now p by)
unfolding promotion_proposed is_governed
promotion_proposed-Keeps p now by v v' h g = (ground arith, ground arith)

pub approved-Keeps : (p : PromotionPolicy) (now : ℕ) (by : String) → Keeps p (approved now p by)
unfolding approved is_governed
approved-Keeps p now by v v' h g = (ground arith, ground arith)

pub rejected-Keeps : (p : PromotionPolicy) → Keeps p rejected
unfolding rejected is_governed
rejected-Keeps p v v' h g = (ground arith, ground arith)

pub set_deprecated-Keeps : (p : PromotionPolicy) → Keeps p set_deprecated
unfolding set_deprecated is_governed
set_deprecated-Keeps p v v' h g = (ground arith, ground arith)

pub set_demised-Keeps : (p : PromotionPolicy) → Keeps p set_demised
unfolding set_demised is_governed
set_demised-Keeps p v v' h g = (ground arith, ground arith)
