-- ===== src/Estate/Manager/Authority.antt =====
-- What it takes for the manager to touch an asset.
use mantlekeep.Estate.Manager.{
  Manager, World, Adapter, ChangeResult, Subject, apply_one, String, DesiredItem, is_applied, Bolt,
  Result, Error, lookup, Option, ExecutionToken, some, Refused, failed_result, asked, intent_for,
  no_adapter, handed, refused_result, answered_by, err, awaited, ok, ApprovalError, Approval, Store,
  is_pending_at, open_record, has_signature_from, pending_record, ltb, signatures_outstanding,
  signature_of, queued, may_sign, after_signature, Bool, Signature, plain_result, approve_citing,
  checked, not,
}
use mantlekeep.Contracts.{has_text}
use mantlekeep.Door.{submit, Ports}
use mantlekeep.Prelude.{
  Option-cases, ◌≡◌, false, inl, inr, none, refl, true, Bool-cases, ◌==◌, ◌>>=◌, arith,
  if◌then◌else◌, insert,
}
use mantlekeep.Door.Evidence.{Granted, submit-token}
use mantlekeep.Door.Refusals.{submit-has_text}
use mantlekeep.Estate.Approvals.{
  with_signature, sign, approval_not_found, collect_signature, approval_not_pending, get_record,
  self_approval, duplicate_signature, no_approval_store,
}

module _ {W : Type 0} (p : Ports) (m : Manager W) where
  -- The manager whose door is the one over `p`, with a store that signs.
  abbrev pub at_door : Manager W
  at_door = record m { door = submit p; signer = true }

  -- What one submission leaves: nothing applied and the assets as they were, or the adapter of the
  -- asset called with a token that the door granted for this very intent.
  pub data Handled (subject : Subject) (requester team : String) (change : DesiredItem)
      (w : World W) : ChangeResult × World W → Type 0 where
    untouched :
        (r : ChangeResult) (w' : World W)
        → is_applied r ≡ false
        → w'.assets ≡ w.assets
        → Handled subject requester team change w (r, w')
    executed :
        (port : Adapter W) (token : ExecutionToken) (log : Bolt)
        → lookup change.asset m.ports ≡ some port
        → Granted p w.log log (intent_for at_door subject requester team change) token
        → Handled subject requester team change w
            (handed at_door (record w { log = log }) change (port token change w.assets))

  if-Handled :
      {subject : Subject} {requester team : String} {change : DesiredItem} {w : World W} (b : Bool)
      {x y : ChangeResult × World W}
      → Handled subject requester team change w x
      → Handled subject requester team change w y
      → Handled subject requester team change w (if b then x else y)
  if-Handled true hx hy = hx
  if-Handled false hx hy = hy

  asked-Handled :
      (subject : Subject) (requester team : String) (change : DesiredItem) (w : World W)
      (log : Bolt) (e : Error) (o : Option Refused)
      → has_text e ≡ true
      → Handled subject requester team change w
          (asked at_door (record w { log = log }) subject team change e o)
  asked-Handled subject requester team change w log e none t =
      untouched (refused_result change e) (record w { log = log }) (rw t refl) refl
  asked-Handled subject requester team change w log e (some r) t =
      if-Handled m.has_approvals
        (queued-Handled (
          open_record w.store (
            pending_record m.new_id team subject.id r.required_approvers m.floor r.reason m.now
              change)))
        (untouched (refused_result change e) (record w { log = log }) (rw t refl) refl)
    where
      queued-Handled :
          (x : Result ApprovalError Store)
          → Handled subject requester team change w
              (queued at_door (record w { log = log }) change e x)
      queued-Handled (err x) =
          untouched (refused_result change e) (record w { log = log }) (rw t refl) refl
      queued-Handled (ok store) =
          untouched (record (refused_result change e) { approval = m.new_id })
            (record w { log = log; store = store }) (rw t refl) refl

  answered_by-Handled :
      (port : Adapter W) (subject : Subject) (requester team : String) (change : DesiredItem)
      (w : World W) (x : Result Error ExecutionToken × Bolt)
      → lookup change.asset m.ports ≡ some port
      → submit p w.log (intent_for at_door subject requester team change) ≡ x
      → Handled subject requester team change w (answered_by at_door port w subject team change x)
  answered_by-Handled port subject requester team change w (err e, log) f s =
      asked-Handled subject requester team change w log e (awaited e)
        (submit-has_text p w.log log (intent_for at_door subject requester team change) e s)
  answered_by-Handled port subject requester team change w (ok token, log) f s =
      executed port token log f
        (submit-token p w.log log (intent_for at_door subject requester team change) token s)

  -- A change reaches an asset only as the door allows it. What applyOne leaves is a result that is
  -- not applied, with the assets as they were, or what the adapter of the change's asset made of
  -- them under a token that the door issued for the intent of this change, the record of the
  -- allow being the newest on the log.
  pub apply_one-Handled :
      (subject : Subject) (requester team : String) (change : DesiredItem) (w : World W)
      → Handled subject requester team change w (apply_one at_door subject requester team change w)
  unfolding apply_one
  apply_one-Handled subject requester team change w =
      elim (Option-cases (lookup change.asset m.ports)) [
        | inl e ↦ rw e (untouched (failed_result change no_adapter) w refl refl)
        | inr (port, e) ↦ rw e (
            answered_by-Handled port subject requester team change w
              (submit p w.log (intent_for at_door subject requester team change)) e refl)
      ]

  -- The signature that completes the set of a stored record.
  pub record Completed (approver : Subject) (reference : String) (w : World W) (b : Approval)
      : Type 0 where
    pub key : String
    pub stored : lookup key w.store ≡ some b
    pub waiting : is_pending_at b m.now ≡ true
    pub human : approver.is_ai ≡ false
    pub second_party : (approver.id == b.requester) ≡ false
    pub first_time : has_signature_from b approver.id ≡ false
    pub same_request :
        ((with_signature b (signature_of at_door approver reference)).requester ≡ b.requester)
        × ((with_signature b (signature_of at_door approver reference)).change ≡ b.change)
    pub complete :
        ltb 0 (signatures_outstanding (with_signature b (signature_of at_door approver reference)))
        ≡ false

  -- What an approval leaves: the assets as they were, or what the manager makes of the stored change
  -- once the set is complete.
  pub data Approved (approver : Subject) (reference : String) (w : World W)
      : Result ApprovalError ChangeResult × World W → Type 0 where
    held :
        (x : Result ApprovalError ChangeResult) (w' : World W)
        → w'.assets ≡ w.assets
        → Approved approver reference w (x, w')
    released :
        (b signed : Approval) (store : Store)
        → Completed approver reference w b
        → signed ≡ with_signature b (signature_of at_door approver reference)
        → Handled approver signed.requester signed.team signed.change
            (record w { store = store })
            (apply_one at_door approver signed.requester signed.team signed.change
              (record w { store = store }))
        → Approved approver reference w (
            let (r, w') =
              apply_one at_door approver signed.requester signed.team signed.change
                (record w { store = store }) in
            (ok r, w'))

  may_sign-human :
      (approver : Subject) (x : Result ApprovalError Approval) (a : Approval)
      → (x >>= may_sign at_door approver) ≡ ok a
      → approver.is_ai ≡ false
  unfolding may_sign
  may_sign-human approver (err e) a h = ground arith
  may_sign-human approver (ok b) a h = ground arith

  with_signature-same :
      (b : Approval) (s : Signature)
      → ((with_signature b s).requester ≡ b.requester) × ((with_signature b s).change ≡ b.change)
  unfolding with_signature
  with_signature-same b s = (ground arith, ground arith)

  after_signature-Approved :
      (approver : Subject) (reference : String) (w : World W) (b : Approval) (store : Store)
      → (ltb 0 (signatures_outstanding (with_signature b (signature_of at_door approver reference)))
            ≡ false
          → Completed approver reference w b)
      → Approved approver reference w (
          after_signature at_door approver w
            (ok (with_signature b (signature_of at_door approver reference), store)))
  after_signature-Approved approver reference w b store c =
      let signed = with_signature b (signature_of at_door approver reference) in
      elim (Bool-cases (ltb 0 (signatures_outstanding signed))) [
        | inl more ↦ rw more (
            held
              (ok (record (plain_result signed.change) {
                approval = signed.id;
                outstanding = signatures_outstanding signed;
              }))
              (record w { store = store }) refl)
        | inr none_left ↦ rw none_left (
            released b signed store (c none_left) refl (
              apply_one-Handled approver signed.requester signed.team signed.change
                (record w { store = store })))
      ]

  signed-Approved :
      (approver : Subject) (reference key : String) (w : World W)
      → approver.is_ai ≡ false
      → Approved approver reference w (
          after_signature at_door approver w
            (sign m.now w.store key (signature_of at_door approver reference)))
  unfolding sign
  signed-Approved approver reference key w human = elim (Option-cases (lookup key w.store)) [
    | inl e ↦ rw e (held (err approval_not_found) w refl)
    | inr (b, e) ↦ elim (Bool-cases (is_pending_at b m.now)) [
      | inr p ↦ rw (e, p) (held (err approval_not_pending) w refl)
      | inl p ↦ elim (Bool-cases (approver.id == b.requester)) [
        | inl own ↦ rw (e, p, own) (held (err self_approval) w refl)
        | inr other ↦ elim (Bool-cases (has_signature_from b approver.id)) [
          | inl twice ↦ rw (e, p, other, twice) (held (err duplicate_signature) w refl)
          | inr first ↦
              rw (e, p, other, first)
                (after_signature-Approved approver reference w b
                  (insert key (with_signature b (signature_of at_door approver reference)) w.store)
                  (λ c. record {
                    key = key;
                    stored = e;
                    waiting = p;
                    human = human;
                    second_party = other;
                    first_time = first;
                    same_request = with_signature-same b (signature_of at_door approver reference);
                    complete = c;
                  }))
        ]
      ]
    ]
  ]

  -- No gated change without its people. Over a store that signs, an approval leaves the assets as
  -- they were, or the approver is a person, not the requester of the pending record that is signed
  -- and no earlier signatory of it, the signature completes the required set, and the stored change
  -- is handled as applyOne handles it, for the approver and with the requester named.
  pub approve_citing-Approved :
      (approver : Subject) (id reference : String) (w : World W)
      → Approved approver reference w (approve_citing at_door approver id reference w)
  unfolding approve_citing collect_signature
  approve_citing-Approved approver id reference w = approved_if m.has_approvals
    where
      checked-Approved :
          (x : Result ApprovalError Approval)
          → (get_record m.now w.store id >>= may_sign at_door approver) ≡ x
          → Approved approver reference w (checked at_door approver reference w x)
      checked-Approved (err e) h = held (err e) w refl
      checked-Approved (ok a) h =
          (signed-Approved approver reference a.id w
            (may_sign-human approver (get_record m.now w.store id) a h))

      approved_if :
          (b : Bool)
          → Approved approver reference w (
              if not b
              then (err no_approval_store, w)
              else checked at_door approver reference w
                  (get_record m.now w.store id >>= may_sign at_door approver))
      approved_if true =
          checked-Approved (get_record m.now w.store id >>= may_sign at_door approver) refl
      approved_if false = held (err no_approval_store) w refl
