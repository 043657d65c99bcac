-- ===== src/Audit/Reading.antt =====
-- Records reads the log backwards.
use mantlekeep.Prelude.{
  ℕ, zero, suc, ◌+◌, ◌≡◌, refl, Option, some, List, [], ◌∷◌, ◌++◌, take, length, length-append,
  append_assoc, arith, ok, ap, if◌then◌else◌, sym, nat_eq, append-nil, ◌∙◌,
}
use mantlekeep.Contracts.{AuditRecord}
use mantlekeep.Audit.{records, records_from, newest_first}

-- The decoded records, the newest first.
abbrev pub reversed : List AuditRecord → List AuditRecord → List AuditRecord
reversed done [] = done
reversed done (r ∷ rs) = reversed (r ∷ done) rs

abbrev pub stored : List AuditRecord → List (Option AuditRecord)
stored [] = []
stored (r ∷ rs) = some r ∷ stored rs

newest_first-stored :
    (done rs : List AuditRecord)
    → newest_first (stored done) (stored rs) ≡ stored (reversed done rs)
newest_first-stored done [] = refl
newest_first-stored done (r ∷ rs) = newest_first-stored (r ∷ done) rs

unlimited : (rs out : List AuditRecord) → records_from 0 (stored rs) out ≡ ok (out ++ rs)
unfolding records_from
unlimited [] out = ap ok (sym (append-nil out))
unlimited (r ∷ rs) out = unlimited rs (out ++ r ∷ []) ∙ ap ok (append_assoc out (r ∷ []) rs)

limited :
    (rs out : List AuditRecord) (limit left : ℕ)
    → limit ≡ length out + suc left
    → records_from limit (stored rs) out ≡ ok (out ++ take (suc left) rs)
unfolding records_from
limited [] out limit left e = ap ok (sym (append-nil out))
limited (r ∷ rs) out limit zero e = ground (arith, length-append out (r ∷ []))
limited (r ∷ rs) out limit (suc k) e = ground (
  arith,
  length-append out (r ∷ []),
  limited rs (out ++ r ∷ []) limit k,
  append_assoc out (r ∷ []) (take (suc k) rs),
)

-- On a log whose values all decode, Records gives the newest `limit` records, the newest first,
-- and all of them for a limit of 0.
pub records_lem :
    (rs : List AuditRecord) (limit : ℕ)
    → records (record { entries = stored rs }) limit
      ≡ ok (if nat_eq limit 0 then reversed [] rs else take limit (reversed [] rs))
unfolding records
records_lem rs zero = rw (newest_first-stored [] rs) (unlimited (reversed [] rs) [])
records_lem rs (suc k) =
    rw (newest_first-stored [] rs)
      (limited (reversed [] rs) [] (suc k) k (omega arith) ∙ ground arith)
