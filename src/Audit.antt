-- ===== src/Audit.antt =====
-- mantlekeep-control/internal/audit/audit.go: the hash-chained log. The bbolt bucket is the list of
-- its values in key order, the oldest first; `none` is a value that does not decode. A record that
-- was written decodes to itself. The hash (SHA-256 over the record's JSON, in hexadecimal) is a
-- parameter, and so is whether a write transaction commits.
pub mod Chain
pub mod Tamper
pub mod Reading
use mantlekeep.Prelude.{
  ℕ, zero, suc, ◌+◌, String, Bool, true, false, ◌&&◌, Option, none, some, List, [], ◌∷◌, ◌++◌,
  if◌then◌else◌, ◌==◌, leb, ltb, length, Result, ok, err,
}
use mantlekeep.Contracts.{AuditRecord}

pub record Bolt : Type 0 where
  pub entries : List (Option AuditRecord)

abbrev pub Digest : Type 0
Digest = AuditRecord → String

-- hashRecord: the record's own Hash is cleared first.
abbrev pub hash_record : Digest → AuditRecord → String
hash_record digest rec = digest (record rec { hash = "" })

-- `_, last := bkt.Cursor().Last()`, decoded: its Hash, or "" for none or for one that does not decode.
abbrev pub hash_of : Option AuditRecord → String
hash_of none = ""
hash_of (some r) = r.hash

unfoldable pub last_hash : String → List (Option AuditRecord) → String
last_hash h [] = h
last_hash h (e ∷ es) = last_hash (hash_of e) es

-- The record as Log stores it.
abbrev pub linked : Digest → String → AuditRecord → AuditRecord
linked digest prev rec =
    let rec' = record rec { prev_hash = prev } in record rec' { hash = hash_record digest rec' }

unfoldable pub log : Digest → Bool → Bolt → AuditRecord → Result String AuditRecord × Bolt
log digest commits b rec =
    let rec' = linked digest (last_hash "" b.entries) rec in
    if commits
    then (ok rec', record { entries = b.entries ++ some rec' ∷ [] })
    else (err "transaction failed", b)

abbrev pub count : Bolt → ℕ
count b = length b.entries

-- One turn of Verify: the record decodes, links to the hash before it and has its own hash.
abbrev pub link_intact : Digest → String → Option AuditRecord → Bool
link_intact digest prev none = false
link_intact digest prev (some r) = r.prev_hash == prev && hash_record digest r == r.hash

unfoldable pub verify_from : Digest → String → List (Option AuditRecord) → Bool
verify_from digest prev [] = true
verify_from digest prev (e ∷ es) =
    let rest = verify_from digest (hash_of e) es in
    if link_intact digest prev e then rest else false

unfoldable pub verify : Digest → Bolt → Bool
verify digest b = verify_from digest "" b.entries

abbrev pub newest_first :
    List (Option AuditRecord) → List (Option AuditRecord) → List (Option AuditRecord)
newest_first done [] = done
newest_first done (e ∷ es) = newest_first (e ∷ done) es

-- The loop of Records, from the newest value on. A limit of 0 stands for `limit <= 0`.
unfoldable pub records_from :
    ℕ → List (Option AuditRecord) → List AuditRecord → Result String (List AuditRecord)
records_from limit [] out = ok out
records_from limit (none ∷ es) out = err "record does not decode"
records_from limit (some r ∷ es) out =
    let out' = out ++ r ∷ [] in
    let rest = records_from limit es out' in
    if ltb 0 limit && leb limit (length out') then ok out' else rest

unfoldable pub records : Bolt → ℕ → Result String (List AuditRecord)
records b limit = records_from limit (newest_first [] b.entries) []
