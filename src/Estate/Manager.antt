-- ===== src/Estate/Manager.antt =====
-- mantlekeep-estate/manager.go and transform.go, with guarded.go's Guarded: the manager submits each
-- change to the door and hands it to the adapter of its asset only with a token. What the adapters
-- act on is one state; the door's log and the store of approvals are the rest of the world.
pub mod Guarded
pub mod Authority
use mantlekeep.Estate.Approvals.{
  Store, ai_approval, ApprovalError, open_record, pending_records, collect_signature,
  approval_not_found, approval_not_pending, get_record, self_approval, duplicate_signature,
  floor_moved, no_approval_store,
}
use mantlekeep.Change.{Submitter}
use mantlekeep.Contracts.{
  has_text, ExecutionToken, Error, Subject, floor, Refused, Intent, refused, is_require_approval,
  text,
}
use mantlekeep.Prelude.{
  Map, String, Bool, Option, ℕ, not, none, some, if◌then◌else◌, Result, lookup, List, is_some, ◌==◌,
  err, ok, ◌∷◌, ◌&&◌, ltb, [], nat_eq, ◌>>=◌, false, true,
}
use mantlekeep.Audit.{Bolt}
use mantlekeep.Estate.Footprint.{DesiredItem, desired_key}
use mantlekeep.Estate.Signatures.{
  Signature, Approval, is_pending_at, signatures_outstanding, has_signature_from,
}
use mantlekeep.Estate.Floor.{Floor, gate_none}
use mantlekeep.Prelude.Text.{concat}
use mantlekeep.Prelude.Decimal.{show_nat}
use mantlekeep.Estate.Approvals.Desk.{pending_record}

-- The method Apply of a Port: an error, or none, and the assets after it.
abbrev pub Adapter : Type 0 → Type 0
Adapter W = ExecutionToken → DesiredItem → W → Option String × W

-- A Manager's wiring, the floor and the time in force, and the texts that the standard library or a
-- random source makes: %q, and the id of an approval that is opened.
pub record Manager (W : Type 0) : Type 0 where
  pub door : Submitter
  pub ports : Map (Adapter W)
  pub has_approvals : Bool
  pub signer : Bool
  pub floor : Floor
  pub transform : Option (String → DesiredItem → Result String DesiredItem)
  pub now : ℕ
  pub quote : String → String
  pub new_id : String

pub record World (W : Type 0) : Type 0 where
  pub log : Bolt
  pub assets : W
  pub store : Store

pub data Failure : Type 0 where
  no_adapter not_submitted : Failure
  adapter_failed : String → Failure

-- Result: `outstanding` is the count that its sentence tells, 0 for the empty sentence.
pub record ChangeResult : Type 0 where
  pub change : DesiredItem
  pub refused : Option Error
  pub failed : Option Failure
  pub approval : String
  pub outstanding : ℕ

-- Refused != "", where `refused` is the error whose text it is.
abbrev pub is_refused : Option Error → Bool
is_refused none = false
is_refused (some e) = has_text e

-- Failed != "": an adapter's error may have an empty text.
abbrev pub is_failed : Option Failure → Bool
is_failed none = false
is_failed (some no_adapter) = true
is_failed (some not_submitted) = true
is_failed (some (adapter_failed e)) = not (e == "")

-- Applied
abbrev pub is_applied : ChangeResult → Bool
is_applied r = not (is_refused r.refused) && not (is_failed r.failed) && nat_eq r.outstanding 0

abbrev pub plain_result : DesiredItem → ChangeResult
plain_result change = record {
  change = change;
  refused = none;
  failed = none;
  approval = "";
  outstanding = 0;
}

abbrev pub failed_result : DesiredItem → Failure → ChangeResult
failed_result change f = record (plain_result change) { failed = some f }

abbrev pub refused_result : DesiredItem → Error → ChangeResult
refused_result change e = record (plain_result change) { refused = some e }

-- requesterFor
unfoldable pub requester_for : String → DesiredItem → String
requester_for requester change = if change.gate == gate_none then "" else requester

-- errors.As to a Refused that is Pending: the roles that it asks for.
abbrev pub awaited : Error → Option Refused
awaited (refused r) = if is_require_approval r.action then some r else none
awaited _ = none

module _ {W : Type 0} (m : Manager W) where
  -- intentFor
  unfoldable pub intent_for : Subject → String → String → DesiredItem → Intent
  unfolding requester_for
  intent_for subject requester team change = record {
    id =
        concat "ESTATE-"
          (concat team (concat "-" (concat change.name (concat "-" (show_nat m.now)))));
    subject = subject;
    action = "estate.apply";
    resource = concat "team/" team;
    spec = record {
      goal = concat "provision " (
          concat change.asset (
            concat " " (
              concat change.kind
                (concat " " (concat (m.quote change.name) (concat " for " team))))));
      affected_systems = [];
      risk_level = "";
      preconditions = [];
      postconditions = [];
      rollback_plan = "";
    };
    params =
        ("requester", text (requester_for requester change))
        ∷ ("asset", text change.asset)
        ∷ ("kind", text change.kind)
        ∷ ("name", text change.name)
        ∷ ("tier", text change.tier)
        ∷ ("gate", text change.gate)
        ∷ ("cluster", text change.cluster)
        ∷ ("scope", text team)
        ∷ ("floorRevision", text m.floor.revision)
        ∷ [];
    submitted_at = m.now;
    ttl = 300_000_000_000;
    via = "";
  }

  -- What openApproval and the failure of its store leave.
  abbrev pub queued :
      World W → DesiredItem → Error → Result ApprovalError Store → ChangeResult × World W
  queued w change e (err x) = (refused_result change e, w)
  queued w change e (ok store) =
      (record (refused_result change e) { approval = m.new_id }, record w { store = store })

  abbrev pub asked :
      World W → Subject → String → DesiredItem → Error → Option Refused → ChangeResult × World W
  asked w subject team change e none = (refused_result change e, w)
  asked w subject team change e (some r) =
      if m.has_approvals
      then queued w change e (
          open_record w.store (
            pending_record m.new_id team subject.id r.required_approvers m.floor r.reason m.now
              change))
      else (refused_result change e, w)

  abbrev pub handed : World W → DesiredItem → Option String × W → ChangeResult × World W
  handed w change (none, assets) = (plain_result change, record w { assets = assets })
  handed w change (some e, assets) =
      (failed_result change (adapter_failed e), record w { assets = assets })

  abbrev pub answered_by :
      Adapter W
      → World W
      → Subject
      → String
      → DesiredItem
      → Result Error ExecutionToken × Bolt
      → ChangeResult × World W
  answered_by port w subject team change (err e, log) =
      asked (record w { log = log }) subject team change e (awaited e)
  answered_by port w subject team change (ok token, log) =
      handed (record w { log = log }) change (port token change w.assets)

  abbrev pub through :
      Option (Adapter W)
      → World W
      → Subject
      → String
      → String
      → DesiredItem
      → ChangeResult × World W
  through none w subject requester team change = (failed_result change no_adapter, w)
  through (some port) w subject requester team change =
      answered_by port w subject team change
        (m.door w.log (intent_for subject requester team change))

  -- applyOne
  unfoldable pub apply_one :
      Subject → String → String → DesiredItem → World W → ChangeResult × World W
  apply_one subject requester team change w =
      through (lookup change.asset m.ports) w subject requester team change

  -- transformChange: a rewrite that changes which change it is is refused.
  abbrev pub same_identity : DesiredItem → Result String DesiredItem → Result String DesiredItem
  same_identity change (err e) = err e
  same_identity change (ok t) =
      if not (desired_key t == desired_key change)
      then err "the transform changed the identity of this change"
      else ok t

  abbrev pub transformed_by :
      String
      → DesiredItem
      → Option (String → DesiredItem → Result String DesiredItem)
      → Result String DesiredItem
  transformed_by team change none = ok change
  transformed_by team change (some f) = same_identity change (f team change)

  abbrev pub then_apply :
      Subject → String → DesiredItem → World W → Result String DesiredItem → ChangeResult × World W
  then_apply subject team change w (err e) = (failed_result change not_submitted, w)
  then_apply subject team change w (ok t) = apply_one subject "" team t w

  -- transformThenApply, which only submissions take.
  unfoldable pub transform_then_apply :
      Subject → String → DesiredItem → World W → ChangeResult × World W
  transform_then_apply subject team change w =
      then_apply subject team change w (transformed_by team change m.transform)

  -- The loop of Apply over the resolved changes.
  unfoldable pub apply_changes :
      Subject → String → List DesiredItem → World W → List ChangeResult × World W
  apply_changes subject team [] w = ([], w)
  apply_changes subject team (c ∷ changes) w =
      let (r, w') = transform_then_apply subject team c w in
      let (rs, w'') = apply_changes subject team changes w' in (r ∷ rs, w'')

  -- ApproveCiting up to the signature: the checks on the record that was read.
  unfoldable pub may_sign : Subject → Approval → Result ApprovalError Approval
  may_sign approver a =
      if not (is_pending_at a m.now)
      then err approval_not_pending
      else if approver.is_ai
      then err ai_approval
      else if a.requester == approver.id
      then err self_approval
      else if has_signature_from a approver.id
      then err duplicate_signature
      else if not (m.floor.revision == a.floor_revision)
      then err floor_moved
      else ok a

  abbrev pub signature_of : Subject → String → Signature
  signature_of approver reference = record { by = approver.id; at = m.now; reference = reference }

  abbrev pub after_signature :
      Subject
      → World W
      → Result ApprovalError (Approval × Store)
      → Result ApprovalError ChangeResult × World W
  after_signature approver w (err e) = (err e, w)
  after_signature approver w (ok (a, store)) =
      if ltb 0 (signatures_outstanding a)
      then (
        ok (record (plain_result a.change) {
          approval = a.id;
          outstanding = signatures_outstanding a;
        }),
        record w { store = store },
      )
      else let (r, w') =
          apply_one approver a.requester a.team a.change (record w { store = store }) in
        (ok r, w')

  abbrev pub checked :
      Subject
      → String
      → World W
      → Result ApprovalError Approval
      → Result ApprovalError ChangeResult × World W
  checked approver reference w (err e) = (err e, w)
  checked approver reference w (ok a) =
      after_signature approver w
        (collect_signature m.signer m.now w.store a (signature_of approver reference))

  -- ApproveCiting, with no other call between its read and its signature.
  unfoldable pub approve_citing :
      Subject → String → String → World W → Result ApprovalError ChangeResult × World W
  approve_citing approver id reference w =
      if not m.has_approvals
      then (err no_approval_store, w)
      else checked approver reference w (get_record m.now w.store id >>= may_sign approver)
