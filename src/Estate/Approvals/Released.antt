-- ===== src/Estate/Approvals/Released.antt =====
-- However the calls on one store of approvals interleave, its records stay sound and no change is
-- released twice.
use mantlekeep.Estate.Approvals.Desk.{
  Desk, pending_record, signed, read_decline, finished, act, run_moves, empty_desk, Move, opened,
  tick, began, open_move, sign_move, begin_decline, finish_decline, declined_record,
}
use mantlekeep.Estate.Approvals.Sound.{is_sound, are_distinct, with_signature-is_sound}
use mantlekeep.Estate.Signatures.{Approval, is_approved_state, is_pending_at}
use mantlekeep.Prelude.{
  Option, Map, List, ◌≡◌, String, Bool, lookup, contains, true, false, some, insert, ◌∷◌, arith,
  none, lookup-insert, eq_iff, Option-cases, [], refl, inl, Bool-cases, inr, eq_refl, ◌==◌,
}
use mantlekeep.Estate.Approvals.{
  open_record, decide_record, sign, ℕ, ok, Signature, get_record, has_signature_from,
  with_signature, aged,
}
use mantlekeep.Estate.Floor.{Floor}
use mantlekeep.Estate.Footprint.{DesiredItem}

abbrev is_settled : Option Approval → Bool
is_settled none = false
is_settled (some a) = is_approved_state a.state

AllSound : Map Approval → Type 0
AllSound m = (id : String) (a : Approval) → lookup id m ≡ some a → is_sound a ≡ true

-- No record that a decline holds is approved.
Harmless : Map Approval → Type 0
Harmless m = (id : String) (a : Approval) → lookup id m ≡ some a → is_approved_state a.state ≡ false

Settled : List String → Map Approval → Type 0
Settled ids m = (id : String) → contains ids id ≡ true → is_settled (lookup id m) ≡ true

record IsSafe (d : Desk) : Type 0 where
  records : AllSound d.store
  flying : AllSound d.declining
  harmless : Harmless d.declining
  settled : Settled d.released d.store
  once : are_distinct d.released ≡ true

AllSound-insert :
    (id : String) (a : Approval) (m : Map Approval)
    → AllSound m
    → is_sound a ≡ true
    → AllSound (insert id a m)
unfolding AllSound
AllSound-insert id a m s h k b e = ground (arith, lookup-insert id k a m, s k b)

Harmless-insert :
    (id : String) (a : Approval) (m : Map Approval)
    → Harmless m
    → is_approved_state a.state ≡ false
    → Harmless (insert id a m)
unfolding Harmless
Harmless-insert id a m s h k b e = ground (arith, lookup-insert id k a m, s k b)

-- A write over a record that is not settled.
Settled-insert :
    (id : String) (a : Approval) (ids : List String) (m : Map Approval)
    → Settled ids m
    → is_settled (lookup id m) ≡ false
    → Settled ids (insert id a m)
unfolding Settled
Settled-insert id a ids m s h k c = ground (arith, lookup-insert id k a m, s k c, eq_iff id k)

Settled-cons :
    (id : String) (ids : List String) (m : Map Approval)
    → Settled ids m
    → is_settled (lookup id m) ≡ true
    → Settled (id ∷ ids) m
unfolding Settled
Settled-cons id ids m s h k c = ground (arith, s k, eq_iff id k)

fresh_id :
    (ids : List String) (m : Map Approval) (id : String)
    → Settled ids m
    → is_settled (lookup id m) ≡ false
    → contains ids id ≡ false
unfolding Settled
fresh_id ids m id s h = ground (arith, s id)

written-IsSafe :
    (d : Desk) (id : String) (a : Approval)
    → IsSafe d
    → is_sound a ≡ true
    → is_settled (lookup id d.store) ≡ false
    → IsSafe (record d { store = insert id a d.store })
written-IsSafe d id a s h u = record {
  records = AllSound-insert id a d.store s.records h;
  flying = s.flying;
  harmless = s.harmless;
  settled = Settled-insert id a d.released d.store s.settled u;
  once = s.once;
}

pending_record-is_sound :
    (id team requester : String) (roles : List String) (floor : Floor) (reason : String) (now : ℕ)
    (change : DesiredItem)
    → is_sound (pending_record id team requester roles floor reason now change) ≡ true
unfolding is_sound pending_record are_distinct
pending_record-is_sound id team requester roles floor reason now change = refl

opened-IsSafe :
    (d : Desk) (a : Approval)
    → IsSafe d
    → is_sound a ≡ true
    → IsSafe (opened d (open_record d.store a))
unfolding open_record
opened-IsSafe d a s h = elim (Option-cases (lookup a.id d.store)) [
  | inl e ↦ rw e (written-IsSafe d a.id a s h (rw e))
  | inr (b, e) ↦ rw e s
]

is_pending-not_settled :
    (a : Approval) (now : ℕ) → is_pending_at a now ≡ true → is_approved_state a.state ≡ false
unfolding is_pending_at
is_pending-not_settled a now h = ground arith

decided-IsSafe :
    (d : Desk) (a : Approval)
    → IsSafe d
    → is_sound a ≡ true
    → is_approved_state a.state ≡ false
    → IsSafe (opened d (decide_record d.now d.store a))
unfolding decide_record
decided-IsSafe d a s h u = elim (Option-cases (lookup a.id d.store)) [
  | inl e ↦ rw e s
  | inr (b, e) ↦ elim (Bool-cases (is_pending_at b d.now)) [
    | inl p ↦ rw (e, p, u) (written-IsSafe d a.id a s h (rw e (is_pending-not_settled b d.now p)))
    | inr p ↦ rw (e, p) s
  ]
]

-- The state of a record after a signature decides what is released.
signed_record-IsSafe :
    (d : Desk) (id : String) (a : Approval)
    → IsSafe d
    → is_sound a ≡ true
    → is_settled (lookup id d.store) ≡ false
    → IsSafe (signed d id (ok (a, insert id a d.store)))
signed_record-IsSafe d id a s h u = elim (Bool-cases (is_approved_state a.state)) [
  | inl done ↦ rw done (record {
    records = w.records;
    flying = w.flying;
    harmless = w.harmless;
    settled =
        Settled-cons id d.released (insert id a d.store) w.settled
          (ground (arith, lookup-insert id id a d.store, eq_refl id));
    once =
        unfold are_distinct in ground (arith, fresh_id d.released d.store id s.settled u, s.once);
  })
  | inr more ↦ rw more w
]
  where
    w : IsSafe (record d { store = insert id a d.store })
    w = written-IsSafe d id a s h u

signed-IsSafe :
    (d : Desk) (id : String) (x : Signature)
    → IsSafe d
    → IsSafe (signed d id (sign d.now d.store id x))
unfolding sign AllSound
signed-IsSafe d id x s = elim (Option-cases (lookup id d.store)) [
  | inl e ↦ rw e s
  | inr (a, e) ↦ elim (Bool-cases (is_pending_at a d.now)) [
    | inl p ↦ elim (Bool-cases (x.by == a.requester)) [
      | inl own ↦ rw (e, p, own) s
      | inr other ↦ elim (Bool-cases (has_signature_from a x.by)) [
        | inl twice ↦ rw (e, p, other, twice) s
        | inr first ↦
            rw (e, p, other, first)
              (signed_record-IsSafe d id (with_signature a x) s
                (with_signature-is_sound d.now a x (s.records id a e) p other first)
                (rw e (is_pending-not_settled a d.now p)))
      ]
    ]
    | inr p ↦ rw (e, p) s
  ]
]

pub is_pending-aged :
    (now : ℕ) (a : Approval) → is_pending_at (aged now a) now ≡ is_pending_at a now
unfolding is_pending_at
is_pending-aged now a = ground arith

pub aged-pending : (now : ℕ) (a : Approval) → is_pending_at a now ≡ true → aged now a ≡ a
unfolding is_pending_at
aged-pending now a h = ground arith

declined_record-is_sound :
    (decliner reason : String) (now : ℕ) (a : Approval)
    → is_pending_at a now ≡ true
    → is_sound a ≡ true
    → is_sound (declined_record decliner reason now a) ≡ true
unfolding is_sound is_pending_at
declined_record-is_sound decliner reason now a p h = ground arith

flying-IsSafe :
    (d : Desk) (session : String) (a : Approval)
    → IsSafe d
    → is_sound a ≡ true
    → is_approved_state a.state ≡ false
    → IsSafe (began d session (ok a))
flying-IsSafe d session a s h u = record {
  records = s.records;
  flying = AllSound-insert session a d.declining s.flying h;
  harmless = Harmless-insert session a d.declining s.harmless u;
  settled = s.settled;
  once = s.once;
}

began-IsSafe :
    (d : Desk) (session decliner id reason : String)
    → IsSafe d
    → IsSafe (began d session (read_decline d.now d.store decliner id reason))
unfolding read_decline get_record AllSound
began-IsSafe d session decliner id reason s = elim (Bool-cases (reason == "")) [
  | inl b ↦ rw b s
  | inr b ↦ elim (Option-cases (lookup id d.store)) [
    | inl e ↦ rw (b, e) s
    | inr (a, e) ↦ elim (Bool-cases (is_pending_at a d.now)) [
      | inl p ↦
          rw (b, e, aged-pending d.now a p, p)
            (flying-IsSafe d session (declined_record decliner reason d.now a) s
              (declined_record-is_sound decliner reason d.now a p (s.records id a e)) refl)
      | inr p ↦ rw (b, e, is_pending-aged d.now a, p) s
    ]
  ]
]

finished-IsSafe :
    (d : Desk) (session : String) → IsSafe d → IsSafe (finished d (lookup session d.declining))
unfolding AllSound Harmless
finished-IsSafe d session s = elim (Option-cases (lookup session d.declining)) [
  | inl e ↦ rw e s
  | inr (a, e) ↦ rw e (decided-IsSafe d a s (s.flying session a e) (s.harmless session a e))
]

act-IsSafe : (m : Move) (d : Desk) → IsSafe d → IsSafe (act m d)
unfolding act
act-IsSafe (tick now) d s = record {
  records = s.records;
  flying = s.flying;
  harmless = s.harmless;
  settled = s.settled;
  once = s.once;
}
act-IsSafe (open_move id team requester roles floor reason change) d s =
    opened-IsSafe d (pending_record id team requester roles floor reason d.now change) s
      (pending_record-is_sound id team requester roles floor reason d.now change)
act-IsSafe (sign_move id x) d s = signed-IsSafe d id x s
act-IsSafe (begin_decline session decliner id reason) d s =
    began-IsSafe d session decliner id reason s
act-IsSafe (finish_decline session) d s = finished-IsSafe d session s

run_moves-IsSafe : (ms : List Move) (d : Desk) → IsSafe d → IsSafe (run_moves ms d)
unfolding run_moves
run_moves-IsSafe [] d s = s
run_moves-IsSafe (m ∷ ms) d s = run_moves-IsSafe ms (act m d) (act-IsSafe m d s)

empty_desk-IsSafe : IsSafe empty_desk
unfolding AllSound Harmless Settled lookup are_distinct
empty_desk-IsSafe = record {
  records = λ id a e. ground arith;
  flying = λ id a e. ground arith;
  harmless = λ id a e. ground arith;
  settled = λ id e. ground arith;
  once = refl;
}

-- However opens, signatures, declines and the clock interleave on a new store, every record has
-- signatures of distinct people, none of them its requester, and at least as many as it requires
-- once it is approved.
pub run_moves-is_sound :
    (ms : List Move) (id : String) (a : Approval)
    → lookup id (run_moves ms empty_desk).store ≡ some a
    → is_sound a ≡ true
unfolding AllSound
run_moves-is_sound ms id a e = (run_moves-IsSafe ms empty_desk empty_desk-IsSafe).records id a e

-- However opens, signatures, declines and the clock interleave on a new store, no two signatures
-- complete the set of one record: the ids released for applying are distinct.
pub run_moves-released_once :
    (ms : List Move) → are_distinct (run_moves ms empty_desk).released ≡ true
run_moves-released_once ms = (run_moves-IsSafe ms empty_desk empty_desk-IsSafe).once
