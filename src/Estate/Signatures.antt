-- ===== src/Estate/Signatures.antt =====
-- mantlekeep-estate/signature.go and the record of approval.go: what a signature is, and what a set
-- of them means. A count of required signatures below 0 reads as 0, which the code treats alike.
use mantlekeep.Prelude.{
  ℕ, String, Bool, true, false, List, [], ◌∷◌, length, if◌then◌else◌, ◌==◌, ◌-◌, ltb, any, ◌&&◌,
  not,
}
use mantlekeep.Estate.Footprint.{DesiredItem}

pub data ApprovalState : Type 0 where
  pending approved declined expired : ApprovalState

pub record Signature : Type 0 where
  pub by : String
  pub at : ℕ
  pub reference : String

pub record Approval : Type 0 where
  pub id : String
  pub team : String
  pub change : DesiredItem
  pub requester : String
  pub required_roles : List String
  pub required_signatures : ℕ
  pub floor_revision : String
  pub reason : String
  pub state : ApprovalState
  pub approved_by : String
  pub signatures : List Signature
  pub declined_by : String
  pub declined_reason : String
  pub created_at : ℕ
  pub decided_at : ℕ
  pub expires_at : ℕ

abbrev pub is_pending_state : ApprovalState → Bool
is_pending_state pending = true
is_pending_state _ = false

abbrev pub is_approved_state : ApprovalState → Bool
is_approved_state approved = true
is_approved_state _ = false

-- Pending: expiry included.
unfoldable pub is_pending_at : Approval → ℕ → Bool
is_pending_at a now = is_pending_state a.state && ltb now a.expires_at

unfoldable pub signatures_required : Approval → ℕ
signatures_required a = if ltb a.required_signatures 1 then 1 else a.required_signatures

-- CollectedSignatures: an old record has its one signer in `approved_by` alone.
abbrev pub collected_from : Approval → List Signature → List Signature
collected_from a (s ∷ ss) = s ∷ ss
collected_from a [] =
    if not (a.approved_by == "")
    then record { by = a.approved_by; at = a.decided_at; reference = "" } ∷ []
    else []

unfoldable pub collected_signatures : Approval → List Signature
collected_signatures a = collected_from a a.signatures

-- SignaturesOutstanding: the subtraction stops at 0, as the code makes it.
unfoldable pub signatures_outstanding : Approval → ℕ
unfolding signatures_required collected_signatures
signatures_outstanding a = signatures_required a - length (collected_signatures a)

-- Signatories
abbrev pub names_of : List Signature → List String
names_of [] = []
names_of (s ∷ ss) = s.by ∷ names_of ss

unfoldable pub has_signature_from : Approval → String → Bool
unfolding collected_signatures
has_signature_from a approver = any (λ s. s.by == approver) (collected_signatures a)
