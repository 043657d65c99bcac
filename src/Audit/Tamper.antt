-- ===== src/Audit/Tamper.antt =====
-- Tamper evidence: the last hash pins the whole chain, up to a collision of the hash function.
use native.Mathlib.Decide.{ℕ_discrete}
use mantlekeep.Prelude.{
  String, Bool, true, ◌&&◌, ◌≡◌, ◌≢◌, refl, sym, ap, ◌∙◌, Option, List, [], ◌∷◌, ◌==◌, eq_iff,
  arith, Bool-cases, inl, inr, ◌⊎◌, none,
}
use mantlekeep.Contracts.{AuditRecord, DecisionAction}
use mantlekeep.Audit.{
  Digest, hash_of, last_hash, link_intact, verify_from, newest_first, some, verify, Bolt,
}

-- Two records that differ and have one digest.
pub record Collision (digest : Digest) : Type 0 where
  pub one : AuditRecord
  pub another : AuditRecord
  pub differ : one ≢ another
  pub agree : digest one ≡ digest another

DecisionAction-discrete : Discrete DecisionAction
DecisionAction-discrete = hlevel

Bool-discrete : Discrete Bool
Bool-discrete = hlevel

String-discrete : Discrete String
String-discrete s t = elim (Bool-cases (s == t)) [
  | inl e ↦ yes ((eq_iff s t).0 e)
  | inr e ↦ no (λ p. cc (e, (eq_iff s t).1 p))
]

AuditRecord-discrete : Discrete AuditRecord
AuditRecord-discrete = hlevel (ℕ_discrete, String-discrete, DecisionAction-discrete, Bool-discrete)

-- The chain read from its newest end.
abbrev head_hash : List (Option AuditRecord) → String
head_hash [] = ""
head_hash (e ∷ es) = hash_of e

verify_newest : Digest → List (Option AuditRecord) → Bool
verify_newest digest [] = true
verify_newest digest (e ∷ es) = link_intact digest (head_hash es) e && verify_newest digest es

verify_newest-newest_first :
    (digest : Digest) (done es : List (Option AuditRecord))
    → verify_newest digest (newest_first done es)
      ≡ verify_from digest (head_hash done) es && verify_newest digest done
unfolding verify_newest verify_from
verify_newest-newest_first digest done [] = refl
verify_newest-newest_first digest done (e ∷ es) =
    ground (arith, verify_newest-newest_first digest (e ∷ done) es)

head_hash-newest_first :
    (done es : List (Option AuditRecord))
    → head_hash (newest_first done es) ≡ last_hash (head_hash done) es
unfolding last_hash
head_hash-newest_first done [] = refl
head_hash-newest_first done (e ∷ es) = head_hash-newest_first (e ∷ done) es

newest_first_twice :
    (done es : List (Option AuditRecord))
    → newest_first [] (newest_first done es) ≡ newest_first es done
newest_first_twice done [] = refl
newest_first_twice done (e ∷ es) = newest_first_twice (e ∷ done) es

newest_first_inj :
    (es fs : List (Option AuditRecord)) → newest_first [] es ≡ newest_first [] fs → es ≡ fs
newest_first_inj es fs h =
    sym (newest_first_twice [] es) ∙ ap (newest_first []) h ∙ newest_first_twice [] fs

abbrev clear : AuditRecord → AuditRecord
clear r = record r { hash = "" }

eq_of_clear : (r s : AuditRecord) → clear r ≡ clear s → r.hash ≡ s.hash → r ≡ s
eq_of_clear r s p q = λ i. record (p i) { hash = q i }

link_facts :
    (digest : Digest) (prev : String) (r : AuditRecord)
    → link_intact digest prev (some r) ≡ true
    → (r.prev_hash ≡ prev) × (digest (clear r) ≡ r.hash)
link_facts digest prev r h = (
  (eq_iff r.prev_hash prev).0 (ground arith),
  (eq_iff (digest (clear r)) r.hash).0 (ground arith),
)

split_verify :
    (digest : Digest) (e : Option AuditRecord) (es : List (Option AuditRecord))
    → verify_newest digest (e ∷ es) ≡ true
    → (link_intact digest (head_hash es) e ≡ true) × (verify_newest digest es ≡ true)
unfolding verify_newest
split_verify digest e es h = (ground arith, ground arith)

-- Two records with one hash, each its own: they are one record, or the digest collides.
same_or_Collision :
    (digest : Digest) (r s : AuditRecord)
    → digest (clear r) ≡ r.hash
    → digest (clear s) ≡ s.hash
    → r.hash ≡ s.hash
    → (r ≡ s) ⊎ Collision digest
same_or_Collision digest r s hr hs q = elim (AuditRecord-discrete (clear r) (clear s)) [
  | yes p ↦ inl (eq_of_clear r s p q)
  | no n ↦ inr (record { one = clear r; another = clear s; differ = n; agree = hr ∙ q ∙ sym hs })
]

module _ (digest : Digest) (nonempty : (r : AuditRecord) → digest r ≢ "") where
  not-head_empty :
      (s : AuditRecord) (fs : List (Option AuditRecord))
      → verify_newest digest (some s ∷ fs) ≡ true
      → s.hash ≢ ""
  not-head_empty s fs v e =
      nonempty (clear s)
        ((link_facts digest (head_hash fs) s (split_verify digest (some s) fs v).0).1 ∙ e)

  newest_pinned :
      (es fs : List (Option AuditRecord))
      → verify_newest digest es ≡ true
      → verify_newest digest fs ≡ true
      → head_hash es ≡ head_hash fs
      → (es ≡ fs) ⊎ Collision digest
  newest_pinned [] [] v w h = inl refl
  newest_pinned [] (none ∷ fs) v w h = cc (split_verify digest none fs w).0
  newest_pinned [] (some s ∷ fs) v w h = absurd (not-head_empty s fs w (sym h))
  newest_pinned (none ∷ es) fs v w h = cc (split_verify digest none es v).0
  newest_pinned (some r ∷ es) [] v w h = absurd (not-head_empty r es v h)
  newest_pinned (some r ∷ es) (none ∷ fs) v w h = cc (split_verify digest none fs w).0
  newest_pinned (some r ∷ es) (some s ∷ fs) v w h =
      let (lr, vr) = split_verify digest (some r) es v in
      let (ls, vs) = split_verify digest (some s) fs w in
      let (pr, hr) = link_facts digest (head_hash es) r lr in
      let (ps, hs) = link_facts digest (head_hash fs) s ls in
      joined (same_or_Collision digest r s hr hs h) (λ (p : r ≡ s).
        newest_pinned es fs vr vs (sym pr ∙ ap (λ (x : AuditRecord). x.prev_hash) p ∙ ps))
    where
      joined :
          (r ≡ s) ⊎ Collision digest
          → ((r ≡ s) → (es ≡ fs) ⊎ Collision digest)
          → (◌≡◌ {A = List (Option AuditRecord)} (some r ∷ es) (some s ∷ fs)) ⊎ Collision digest
      joined (inr c) rest = inr c
      joined (inl p) rest = elim (rest p) [ inl q ↦ inl (cc (p, q)) | inr c ↦ inr c ]

  -- Tamper evidence. If two logs both verify and end in the same hash, they hold the same records in
  -- the same order, or two records are at hand that differ and have one digest: no record of an
  -- intact chain can be changed, inserted, removed or reordered under a known last hash. The digest
  -- is never the empty text.
  pub verify-pins_entries :
      (b b' : Bolt)
      → verify digest b ≡ true
      → verify digest b' ≡ true
      → last_hash "" b.entries ≡ last_hash "" b'.entries
      → (b.entries ≡ b'.entries) ⊎ Collision digest
  unfolding verify
  verify-pins_entries b b' v w h =
      let to_newest = λ (es : List (Option AuditRecord)). verify_newest-newest_first digest [] es in
      elim (newest_pinned (newest_first [] b.entries) (newest_first [] b'.entries)
        (to_newest b.entries ∙ rw v (unfold verify_newest in refl))
        (to_newest b'.entries ∙ rw w (unfold verify_newest in refl))
        (head_hash-newest_first [] b.entries ∙ h ∙ sym (head_hash-newest_first [] b'.entries))) [
          | inl q ↦ inl (newest_first_inj b.entries b'.entries q)
          | inr c ↦ inr c
        ]
