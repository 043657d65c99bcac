-- ===== src/Grants/Seal.antt =====
-- grants/grants.go: the seal of the platform layer against the product documents.
use mantlekeep.Prelude.{String, Bool, false, List, [], ◌∷◌, ◌||◌, contains, Map, ◌==◌, ◌&&◌}
use mantlekeep.Grants.{ProductDoc}
use mantlekeep.Grants.Union.{grants}

-- Some entry of the document gives the role the action.
abbrev pub lists : Map (List String) → String → String → Bool
lists [] r a = false
lists ((role, acts) ∷ m) r a = (role == r && contains acts a) || lists m r a

abbrev pub any_lists : List ProductDoc → String → String → Bool
any_lists [] r a = false
any_lists (d ∷ docs) r a = lists d.role_actions r a || any_lists docs r a

-- grantedByDocument for one role: the action itself, or the wildcard, is granted.
abbrev pub holds_action : Map (List String) → String → String → Bool
holds_action m r a = grants m r "*" || grants m r a
