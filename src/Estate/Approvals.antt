-- ===== src/Estate/Approvals.antt =====
-- mantlekeep-estate/approvals_memory.go and approvals_collect.go: the store of pending approvals.
-- Each call is one step, since it runs under the store's lock; the clock is an argument. The copies
-- of the slices need no model: a list is a value.
pub mod Desk
pub mod Sound
pub mod Released
pub mod Decline
use mantlekeep.Prelude.{
  ℕ, String, Bool, true, false, Option, none, some, List, [], ◌∷◌, ◌++◌, Map, lookup, insert,
  if◌then◌else◌, ◌==◌, ◌&&◌, not, Result, ok, err, nat_eq, ◌>>=◌, ltb, ◌||◌,
}
use mantlekeep.Estate.Signatures.{
  Approval, Signature, is_pending_state, is_pending_at, signatures_outstanding, approved, expired,
  is_approved_state, has_signature_from, signatures_required,
}

pub data ApprovalError : Type 0 where
  no_approval_store approval_not_found approval_not_pending self_approval floor_moved
        approval_exists :
      ApprovalError
  duplicate_signature ai_approval signatures_remain store_cannot_collect reason_required :
      ApprovalError

abbrev pub Store : Type 0
Store = Map Approval

abbrev pub open_at : Store → Approval → Option Approval → Result ApprovalError Store
open_at m a none = ok (insert a.id a m)
open_at m a (some b) = err approval_exists

-- Open
unfoldable pub open_record : Store → Approval → Result ApprovalError Store
open_record m a = open_at m a (lookup a.id m)

abbrev pub aged : ℕ → Approval → Approval
aged now a =
    if is_pending_state a.state && not (ltb now a.expires_at)
    then record a { state = expired }
    else a

abbrev pub read_at : ℕ → Option Approval → Result ApprovalError Approval
read_at now none = err approval_not_found
read_at now (some a) = ok (aged now a)

-- Get: an expired record reads as expired.
unfoldable pub get_record : ℕ → Store → String → Result ApprovalError Approval
get_record now m id = read_at now (lookup id m)

abbrev pub decide_at : ℕ → Store → Approval → Option Approval → Result ApprovalError Store
decide_at now m a none = err approval_not_found
decide_at now m a (some current) =
    if not (is_pending_at current now)
    then err approval_not_pending
    else if is_approved_state a.state && not (nat_eq (signatures_outstanding a) 0)
    then err signatures_remain
    else ok (insert a.id a m)

-- Decide
unfoldable pub decide_record : ℕ → Store → Approval → Result ApprovalError Store
decide_record now m a = decide_at now m a (lookup a.id m)

-- The record with one more signature, decided if the set is complete.
unfoldable pub with_signature : Approval → Signature → Approval
with_signature a s =
    let a' = record a { signatures = a.signatures ++ s ∷ [] } in
    if nat_eq (signatures_outstanding a') 0
    then record a' { state = approved; approved_by = s.by; decided_at = s.at }
    else a'

abbrev pub sign_at :
    ℕ → Store → String → Signature → Option Approval → Result ApprovalError (Approval × Store)
sign_at now m id s none = err approval_not_found
sign_at now m id s (some a) =
    if not (is_pending_at a now)
    then err approval_not_pending
    else if s.by == a.requester
    then err self_approval
    else if has_signature_from a s.by
    then err duplicate_signature
    else ok (with_signature a s, insert id (with_signature a s) m)

-- Sign
unfoldable pub sign : ℕ → Store → String → Signature → Result ApprovalError (Approval × Store)
sign now m id s = sign_at now m id s (lookup id m)

-- The record that collectSignature decides against a store that has no Sign.
abbrev pub decided_with : Approval → Signature → Approval
decided_with a s = record a {
  signatures = s ∷ [];
  state = approved;
  approved_by = s.by;
  decided_at = s.at;
}

abbrev pub stored_as :
    Approval → Result ApprovalError Store → Result ApprovalError (Approval × Store)
stored_as a r = r >>= λ m. ok (a, m)

-- collectSignature: with a store that signs, or with one that only decides.
unfoldable pub collect_signature :
    Bool → ℕ → Store → Approval → Signature → Result ApprovalError (Approval × Store)
collect_signature signer now m a s =
    if signer
    then sign now m a.id s
    else if ltb 1 (signatures_required a)
    then err store_cannot_collect
    else stored_as (decided_with a s) (decide_record now m (decided_with a s))

-- Pending: the records that wait, of one team or, for "", of all. Their sorting is left out.
unfoldable pub pending_records : ℕ → String → Store → List Approval
pending_records now team [] = []
pending_records now team ((id, a) ∷ m) =
    let rest = pending_records now team m in
    if is_pending_at a now && (team == "" || a.team == team) then a ∷ rest else rest
