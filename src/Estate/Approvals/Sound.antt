-- ===== src/Estate/Approvals/Sound.antt =====
-- Every record of approvals has signatures of distinct people, none of them the requester, and
-- enough of them once it is approved; and no change is released twice.
use mantlekeep.Estate.Signatures.{
  signatures_outstanding, has_signature_from, signatures_required, collected_signatures,
  is_pending_at, Approval, Signature, names_of, collected_from,
}
use mantlekeep.Prelude.{
  List, Bool, String, ◌==◌, any, ◌≡◌, ◌&&◌, ◌++◌, contains, ◌∷◌, if◌then◌else◌, [], arith, refl,
  leb, contains-append, length, eq_iff, length-append,
}
use mantlekeep.Estate.Approvals.{
  with_signature, true, signatures_outstanding, ◌∷◌, not, has_signature_from, [], is_approved_state,
  signatures_required, ℕ, false,
}

unfoldable pub are_distinct : List String → Bool
are_distinct [] = true
are_distinct (x ∷ xs) = not (contains xs x) && are_distinct xs

-- What holds of a record: two-party, distinct, and complete if approved.
unfoldable pub is_sound : Approval → Bool
is_sound a =
    are_distinct (names_of a.signatures)
    && not (contains (names_of a.signatures) a.requester)
    && (if is_approved_state a.state
        then leb (signatures_required a) (length a.signatures)
        else a.approved_by == "")

are_distinct-append :
    (xs : List String) (x : String)
    → are_distinct (xs ++ x ∷ []) ≡ are_distinct xs && not (contains xs x)
unfolding are_distinct
are_distinct-append [] x = ground arith
are_distinct-append (y ∷ xs) x =
    ground (arith, are_distinct-append xs x, contains-append xs (x ∷ []) y, eq_iff x y, eq_iff y x)

names_of-append :
    (ss : List Signature) (s : Signature) → names_of (ss ++ s ∷ []) ≡ names_of ss ++ s.by ∷ []
names_of-append [] s = refl
names_of-append (t ∷ ss) s = rw (names_of-append ss s)

any-names_of :
    (ss : List Signature) (who : String)
    → any (λ (s : Signature). s.by == who) ss ≡ contains (names_of ss) who
any-names_of [] who = refl
any-names_of (s ∷ ss) who = rw (any-names_of ss who)

collected_from-none :
    (a : Approval) (ss : List Signature) → (a.approved_by == "") ≡ true → collected_from a ss ≡ ss
collected_from-none a [] h = rw h
collected_from-none a (s ∷ ss) h = refl

collected_from-append :
    (a : Approval) (ss : List Signature) (s : Signature)
    → collected_from a (ss ++ s ∷ []) ≡ ss ++ s ∷ []
collected_from-append a [] s = refl
collected_from-append a (t ∷ ss) s = refl

-- A signature that is accepted keeps its record sound.
pub with_signature-is_sound :
    (now : ℕ) (a : Approval) (s : Signature)
    → is_sound a ≡ true
    → is_pending_at a now ≡ true
    → (s.by == a.requester) ≡ false
    → has_signature_from a s.by ≡ false
    → is_sound (with_signature a s) ≡ true
unfolding is_sound is_pending_at with_signature signatures_outstanding has_signature_from
    collected_signatures signatures_required
with_signature-is_sound now a s h p other fresh =
    let ss = a.signatures in
    let a' = record a { signatures = ss ++ s ∷ [] } in
    ground (
      arith,
      names_of-append ss s,
      are_distinct-append (names_of ss) s.by,
      contains-append (names_of ss) (s.by ∷ []) a.requester,
      any-names_of ss s.by,
      collected_from-none a ss,
      collected_from-append a' ss s,
      length-append ss (s ∷ []),
    )
