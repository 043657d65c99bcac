-- ===== src/Policy/Ladder.antt =====
-- internal/policy/ladder.go: the role vocabulary and the seniority checks over it.
pub mod Laws
use mantlekeep.Prelude.{
  String, Bool, true, false, ◌&&◌, ◌||◌, Option, none, some, List, [], ◌∷◌, Map, lookup,
  if◌then◌else◌,
}
use mantlekeep.Prelude.Int.{ℤ, pos, leb_int}
use mantlekeep.Contracts.{Role}

-- A lower rank is more senior.
abbrev pub RoleLadder : Type 0
RoleLadder = Map ℤ

abbrev pub default_role_ladder : RoleLadder
default_role_ladder =
    ("L0-SuperAdmin", pos 0)
    ∷ ("L1-Architect", pos 1)
    ∷ ("L2-Operator", pos 2)
    ∷ ("L3-Consumer", pos 3)
    ∷ ("AI-Agent", pos 4)
    ∷ []

-- `len(ladder) == 0` selects the default.
abbrev pub or_default : RoleLadder → RoleLadder
or_default [] = default_role_ladder
or_default (x ∷ l) = x ∷ l

-- The `Roles` maps of the layers, in order: the first that is not empty.
unfoldable pub ladder_from : List RoleLadder → RoleLadder
ladder_from [] = default_role_ladder
ladder_from ([] ∷ rest) = ladder_from rest
ladder_from ((x ∷ roles) ∷ rest) = x ∷ roles

-- `rk, ok := l[r]; ok && rk <= nr`: the role is ranked, at or above `need_rank`.
abbrev pub ranked_within : Option ℤ → ℤ → Bool
ranked_within none need_rank = false
ranked_within (some rank) need_rank = leb_int rank need_rank

unfoldable pub some_role_within : RoleLadder → ℤ → List Role → Bool
some_role_within ladder need_rank [] = false
some_role_within ladder need_rank (r ∷ roles) =
    ranked_within (lookup r ladder) need_rank || some_role_within ladder need_rank roles

abbrev pub holds_rank : RoleLadder → List Role → Option ℤ → Bool
holds_rank ladder roles none = false
holds_rank ladder roles (some need_rank) = some_role_within ladder need_rank roles

unfoldable pub holds_at_least : RoleLadder → List Role → Role → Bool
holds_at_least ladder roles need = holds_rank ladder roles (lookup need ladder)

abbrev pub rank_le : Option ℤ → Option ℤ → Bool
rank_le a none = false
rank_le a (some rank) = ranked_within a rank

unfoldable pub at_least_as_senior : RoleLadder → Role → Role → Bool
at_least_as_senior ladder a b = rank_le (lookup a ladder) (lookup b ladder)
