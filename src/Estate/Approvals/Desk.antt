-- ===== src/Estate/Approvals/Desk.antt =====
-- mantlekeep-estate/manager.go: openApproval, Approve and Decline against one store, as people make
-- them at the same time. A decline reads its record in one step and writes it in a later one; a
-- signature is one step, since Sign checks again all that Approve checked on the record it read.
use mantlekeep.Estate.Approvals.{
  Store, ℕ, [], String, Result, Option, open_record, List, Map, Approval, ApprovalError, sign, ◌∷◌,
  if◌then◌else◌, err, some, lookup, is_pending_at, ◌==◌, Signature, ok, decide_record,
  approval_not_pending, reason_required, is_approved_state, insert, get_record,
}
use mantlekeep.Estate.Floor.{Floor, signatures_for}
use mantlekeep.Estate.Footprint.{DesiredItem}
use mantlekeep.Estate.Signatures.{declined, pending}
use mantlekeep.Prelude.{none, ◌+◌, ◌>>=◌}

-- `declining` holds the record that each decline under way has read and changed; `released` the ids
-- of the records whose set of signatures was completed, each time that Approve goes on to apply.
pub record Desk : Type 0 where
  pub store : Store
  pub now : ℕ
  pub declining : Map Approval
  pub released : List String

abbrev pub empty_desk : Desk
empty_desk = record { store = []; now = 0; declining = []; released = [] }

abbrev pub approval_window : ℕ
approval_window = 604_800_000_000_000

-- The record that openApproval writes.
unfoldable pub pending_record :
    String → String → String → List String → Floor → String → ℕ → DesiredItem → Approval
pending_record id team requester roles floor reason now change = record {
  id = id;
  team = team;
  change = change;
  requester = requester;
  required_roles = roles;
  required_signatures = signatures_for floor change.gate;
  floor_revision = floor.revision;
  reason = reason;
  state = pending;
  approved_by = "";
  signatures = [];
  declined_by = "";
  declined_reason = "";
  created_at = now;
  decided_at = 0;
  expires_at = now + approval_window;
}

-- What Decline makes of the record that it read.
abbrev pub declined_record : String → String → ℕ → Approval → Approval
declined_record decliner reason now a = record a {
  state = declined;
  declined_by = decliner;
  declined_reason = reason;
  decided_at = now;
}

abbrev pub if_pending : ℕ → Approval → Result ApprovalError Approval
if_pending now a = if is_pending_at a now then ok a else err approval_not_pending

-- Decline up to its write.
unfoldable pub read_decline : ℕ → Store → String → String → String → Result ApprovalError Approval
read_decline now m decliner id reason =
    if reason == ""
    then err reason_required
    else get_record now m id >>= λ a.
        if_pending now a >>= λ b. ok (declined_record decliner reason now b)

pub data Move : Type 0 where
  tick : ℕ → Move
  open_move : String → String → String → List String → Floor → String → DesiredItem → Move
  sign_move : String → Signature → Move
  begin_decline : String → String → String → String → Move
  finish_decline : String → Move

abbrev pub opened : Desk → Result ApprovalError Store → Desk
opened d (err e) = d
opened d (ok m) = record d { store = m }

abbrev pub signed : Desk → String → Result ApprovalError (Approval × Store) → Desk
signed d id (err e) = d
signed d id (ok (a, m)) = record d {
  store = m;
  released = if is_approved_state a.state then id ∷ d.released else d.released;
}

abbrev pub began : Desk → String → Result ApprovalError Approval → Desk
began d session (err e) = d
began d session (ok a) = record d { declining = insert session a d.declining }

abbrev pub finished : Desk → Option Approval → Desk
finished d none = d
finished d (some a) = opened d (decide_record d.now d.store a)

unfoldable pub act : Move → Desk → Desk
act (tick now) d = record d { now = now }
act (open_move id team requester roles floor reason change) d =
    opened d
      (open_record d.store (pending_record id team requester roles floor reason d.now change))
act (sign_move id s) d = signed d id (sign d.now d.store id s)
act (begin_decline session decliner id reason) d =
    began d session (read_decline d.now d.store decliner id reason)
act (finish_decline session) d = finished d (lookup session d.declining)

unfoldable pub run_moves : List Move → Desk → Desk
run_moves [] d = d
run_moves (m ∷ ms) d = run_moves ms (act m d)
