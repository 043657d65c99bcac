-- ===== src/Grants/Union.antt =====
-- What a merge of grants holds.
use mantlekeep.Prelude.{
  String, Bool, ◌≡◌, refl, List, [], ◌∷◌, ◌++◌, ◌||◌, contains, contains-append, arith, Map,
  lookup_or, lookup-insert, eq_iff, ◌==◌, ◌&&◌, if◌then◌else◌,
}
use mantlekeep.Grants.{push_new, union_strings, grant_role}

contains-push_new :
    (out items : List String) (x : String)
    → contains (push_new out items) x ≡ contains out x || contains items x
unfolding push_new
contains-push_new out [] x = ground arith
contains-push_new out (s ∷ items) x = ground (
  arith,
  contains-push_new (if contains out s then out else out ++ s ∷ []) items x,
  contains-append out (s ∷ []) x,
  eq_iff s x,
)

pub contains-union_strings :
    (a b : List String) (x : String) → contains (union_strings a b) x ≡ contains a x || contains b x
unfolding union_strings
contains-union_strings a b x = rw contains-push_new (rw contains-push_new refl)

-- `g.RoleActions[role]` holds the action.
abbrev pub grants : Map (List String) → String → String → Bool
grants m role action = contains (lookup_or [] role m) action

pub grants-grant_role :
    (m : Map (List String)) (role r a : String) (acts : List String)
    → grants (grant_role m role acts) r a ≡ grants m r a || (role == r && contains acts a)
unfolding grant_role
grants-grant_role m role r a acts = ground (
  arith,
  lookup-insert role r (union_strings (lookup_or [] role m) acts) m,
  contains-union_strings (lookup_or [] role m) acts a,
  eq_iff role r,
)
