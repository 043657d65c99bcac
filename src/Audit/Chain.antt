-- ===== src/Audit/Chain.antt =====
-- Log keeps an intact chain intact, and Verify says nothing of records that are gone from its end.
use mantlekeep.Prelude.{
  String, Bool, true, false, ◌&&◌, ◌≡◌, refl, Option, some, List, [], ◌∷◌, ◌++◌, eq_refl, arith,
}
use mantlekeep.Contracts.{AuditRecord}
use mantlekeep.Audit.{
  Bolt, Digest, hash_of, last_hash, linked, log, link_intact, verify_from, verify,
}

pub verify_from-append :
    (digest : Digest) (prev : String) (es fs : List (Option AuditRecord))
    → verify_from digest prev (es ++ fs)
      ≡ verify_from digest prev es && verify_from digest (last_hash prev es) fs
unfolding verify_from last_hash
verify_from-append digest prev [] fs = refl
verify_from-append digest prev (e ∷ es) fs =
    ground (arith, verify_from-append digest (hash_of e) es fs)

link_intact-linked :
    (digest : Digest) (prev : String) (rec : AuditRecord)
    → link_intact digest prev (some (linked digest prev rec)) ≡ true
link_intact-linked digest prev rec = rw (eq_refl prev, eq_refl (linked digest prev rec).hash)

-- Logging on an intact chain gives an intact chain, whether or not the transaction commits.
pub verify-log :
    (digest : Digest) (commits : Bool) (b : Bolt) (rec : AuditRecord)
    → verify digest b ≡ true
    → verify digest (log digest commits b rec).1 ≡ true
unfolding verify log
verify-log digest true b rec h =
    rw (verify_from-append, h)
      (unfold verify_from in rw (link_intact-linked digest (last_hash "" b.entries) rec) refl)
verify-log digest false b rec h = h

-- Any first part of an intact chain is intact: Verify does not see that the newest records were
-- removed, however many they are.
pub verify-newest_removed :
    (digest : Digest) (kept removed : List (Option AuditRecord))
    → verify digest (record { entries = kept ++ removed }) ≡ true
    → verify digest (record { entries = kept }) ≡ true
unfolding verify
verify-newest_removed digest kept removed h =
    ground (arith, verify_from-append digest "" kept removed)
