-- ===== src/Policy/Ladder/Laws.antt =====
-- Seniority is an order on the ranked roles, and a stricter requirement admits fewer subjects.
use mantlekeep.Prelude.{true, ◌≡◌, Option, none, some, List, [], ◌∷◌, lookup, arith}
use mantlekeep.Prelude.Int.{ℤ, leb_int, leb_int_trans}
use mantlekeep.Contracts.{Role}
use mantlekeep.Policy.Ladder.{
  RoleLadder, ranked_within, some_role_within, holds_rank, holds_at_least, rank_le,
  at_least_as_senior,
}

ranked_within_mono :
    (o : Option ℤ) (m n : ℤ)
    → leb_int m n ≡ true
    → ranked_within o m ≡ true
    → ranked_within o n ≡ true
ranked_within_mono none m n le h = h
ranked_within_mono (some k) m n le h = leb_int_trans k m n h le

some_role_within_mono :
    (l : RoleLadder) (m n : ℤ) (roles : List Role)
    → leb_int m n ≡ true
    → some_role_within l m roles ≡ true
    → some_role_within l n roles ≡ true
unfolding some_role_within
some_role_within_mono l m n [] le h = h
some_role_within_mono l m n (r ∷ rs) le h =
    ground (arith, ranked_within_mono (lookup r l) m n, some_role_within_mono l m n rs)

holds_rank_mono :
    (l : RoleLadder) (roles : List Role) (a b : Option ℤ)
    → rank_le a b ≡ true
    → holds_rank l roles a ≡ true
    → holds_rank l roles b ≡ true
holds_rank_mono l roles none b le h = cc
holds_rank_mono l roles (some m) none le h = cc
holds_rank_mono l roles (some m) (some n) le h = some_role_within_mono l m n roles le h

-- Whoever holds a role that meets the stricter requirement `a` meets the looser one `b`.
pub holds_at_least_mono :
    (l : RoleLadder) (roles : List Role) (a b : Role)
    → at_least_as_senior l a b ≡ true
    → holds_at_least l roles a ≡ true
    → holds_at_least l roles b ≡ true
unfolding holds_at_least at_least_as_senior
holds_at_least_mono l roles a b = holds_rank_mono l roles (lookup a l) (lookup b l)

rank_le_trans : (a b c : Option ℤ) → rank_le a b ≡ true → rank_le b c ≡ true → rank_le a c ≡ true
rank_le_trans a b none ab bc = bc
rank_le_trans a none (some n) ab bc = cc
rank_le_trans a (some m) (some n) ab bc = ranked_within_mono a m n bc ab

pub at_least_as_senior_trans :
    (l : RoleLadder) (a b c : Role)
    → at_least_as_senior l a b ≡ true
    → at_least_as_senior l b c ≡ true
    → at_least_as_senior l a c ≡ true
unfolding at_least_as_senior
at_least_as_senior_trans l a b c = rank_le_trans (lookup a l) (lookup b l) (lookup c l)
