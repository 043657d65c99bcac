-- ===== src/Estate/Approvals/Decline.antt =====
-- mantlekeep-estate/manager.go: a decline that reads its record before a signature and writes it after.
use mantlekeep.Estate.Approvals.Desk.{
  Desk, act, run_moves, read_decline, begin_decline, sign_move, finish_decline, declined_record,
}
use mantlekeep.Estate.Approvals.{
  sign, get_record, decide_record, String, Approval, Signature, lookup, is_pending_at, true, false,
  has_signature_from, with_signature, ok, insert,
}
use mantlekeep.Prelude.{[], ◌∷◌, some, ◌≡◌, ◌==◌, lookup-insert, eq_refl}
use mantlekeep.Estate.Approvals.Released.{aged-pending}

-- A decline with a reason that has read its pending record before somebody signs, and writes it
-- afterwards, leaves the record as it was read. The signature, of a person who is not the requester
-- and has not signed, was accepted without completing the set, and the declined record lacks it.
pub decline-drops_signature :
    (d : Desk) (session decliner reason : String) (a : Approval) (s : Signature)
    → lookup a.id d.store ≡ some a
    → is_pending_at a d.now ≡ true
    → (reason == "") ≡ false
    → (s.by == a.requester) ≡ false
    → has_signature_from a s.by ≡ false
    → is_pending_at (with_signature a s) d.now ≡ true
    → (sign d.now d.store a.id s
        ≡ ok (with_signature a s, insert a.id (with_signature a s) d.store))
      × (lookup a.id
            (run_moves
              (begin_decline session decliner a.id reason
                ∷ sign_move a.id s
                ∷ finish_decline session
                ∷ [])
              d).store
          ≡ some (declined_record decliner reason d.now a))
unfolding run_moves act sign read_decline get_record decide_record
decline-drops_signature d session decliner reason a s e p r other first p' = (
  rw (e, p, other, first),
  rw (
    r,
    e,
    aged-pending d.now a p,
    p,
    e,
    p,
    other,
    first,
    lookup-insert session session (declined_record decliner reason d.now a) d.declining,
    eq_refl session,
    lookup-insert a.id a.id (with_signature a s) d.store,
    eq_refl a.id,
    p',
    lookup-insert a.id a.id (declined_record decliner reason d.now a),
    eq_refl a.id,
  ),
)
