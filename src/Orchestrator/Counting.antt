-- ===== src/Orchestrator/Counting.antt =====
-- What the loops of newDependencyGraph and consume do to the counts of dag.go.
use mantlekeep.Prelude.{
  ℕ, String, Bool, List, [], ◌∷◌, ◌==◌, if◌then◌else◌, ◌≡◌, refl, contains, Map, lookup_or, insert,
  lookup-insert, arith, eq_iff, suc, ◌+◌, ◌-◌, ap, ◌∙◌, length, sym, false, zero, true,
}
use mantlekeep.Orchestrator.Graph.{
  Waiting, consumed, left, release_at, release_one, release_all, mark_consumed, DependencyGraph,
  unblocked_by, Step,
}

abbrev pub count : String → List String → ℕ
count y [] = 0
count y (x ∷ xs) = let rest = count y xs in if x == y then suc rest else rest

-- The dependencies that are not done.
abbrev pub owed : List String → List String → ℕ
owed done [] = 0
owed done (d ∷ deps) = let rest = owed done deps in if contains done d then rest else suc rest

-- A sum over the steps of one name.
abbrev pub tally : (List String → ℕ) → String → List Step → ℕ
tally f x [] = 0
tally f x (s ∷ steps) =
    let rest = tally f x steps in if s.name == x then f s.depends_on + rest else rest

abbrev pub value : Map Waiting → String → Waiting
value m x = lookup_or (left 0) x m

abbrev pub dec_by : ℕ → Waiting → Waiting
dec_by k consumed = consumed
dec_by k (left n) = left (n - k)

-- The decrements that a level makes of the count of `y`.
abbrev pub released : DependencyGraph → List String → String → ℕ
released g [] y = 0
released g (x ∷ xs) y = count y (unblocked_by g x) + released g xs y

value-insert :
    (k : String) (v : Waiting) (m : Map Waiting) (y : String)
    → value (insert k v m) y ≡ (if k == y then v else value m y)
value-insert k v m y = rw (lookup-insert k y v m) (ground arith)

dec_by-zero : (w : Waiting) → dec_by 0 w ≡ w
dec_by-zero consumed = refl
dec_by-zero (left n) = ap left (omega arith)

dec_by-add : (a b : ℕ) (w : Waiting) → dec_by a (dec_by b w) ≡ dec_by (b + a) w
dec_by-add a b consumed = refl
dec_by-add a b (left n) = ap left (omega arith)

value-release_at :
    (x : String) (m : Map Waiting) (w : Waiting) (y : String)
    → value m x ≡ w
    → value (release_at x m w) y ≡ (if x == y then dec_by 1 (value m y) else value m y)
unfolding release_at
value-release_at x m consumed y e = ground (arith, e, eq_iff x y)
value-release_at x m (left zero) y e = ground (arith, e, eq_iff x y)
value-release_at x m (left (suc n)) y e = ground (arith, e, eq_iff x y, value-insert x (left n) m y)

value-release_one :
    (xs : List String) (m : Map Waiting) (y : String)
    → value (release_one xs m) y ≡ dec_by (count y xs) (value m y)
unfolding release_one
value-release_one [] m y = sym (dec_by-zero (value m y))
value-release_one (x ∷ xs) m y =
    value-release_one xs (release_at x m (value m x)) y
    ∙ ap (dec_by (count y xs)) (value-release_at x m (value m x) y refl)
    ∙ counted (x == y)
  where
    counted :
        (b : Bool)
        → dec_by (count y xs) (if b then dec_by 1 (value m y) else value m y)
          ≡ dec_by (if b then suc (count y xs) else count y xs) (value m y)
    counted true =
        dec_by-add (count y xs) 1 (value m y) ∙ ap (λ k. dec_by k (value m y)) (omega arith)
    counted false = refl

pub value-release_all :
    (g : DependencyGraph) (xs : List String) (m : Map Waiting) (y : String)
    → value (release_all g xs m) y ≡ dec_by (released g xs y) (value m y)
unfolding release_all
value-release_all g [] m y = sym (dec_by-zero (value m y))
value-release_all g (x ∷ xs) m y =
    value-release_all g xs (release_one (unblocked_by g x) m) y
    ∙ ap (dec_by (released g xs y)) (value-release_one (unblocked_by g x) m y)
    ∙ dec_by-add (released g xs y) (count y (unblocked_by g x)) (value m y)

pub value-mark_consumed :
    (xs : List String) (m : Map Waiting) (y : String)
    → value (mark_consumed xs m) y ≡ (if contains xs y then consumed else value m y)
unfolding mark_consumed
value-mark_consumed [] m y = refl
value-mark_consumed (x ∷ xs) m y =
    rw (value-mark_consumed xs (insert x consumed m) y, value-insert x consumed m y) (ground arith)

pub owed-cons :
    (done : List String) (f : String) (deps : List String)
    → contains done f ≡ false
    → owed (f ∷ done) deps + count f deps ≡ owed done deps
owed-cons done f [] fresh = omega arith
owed-cons done f (d ∷ deps) fresh =
    ground (arith, owed-cons done f deps fresh, eq_iff d f, eq_iff f d)

pub owed-nil : (deps : List String) → owed [] deps ≡ length deps
owed-nil [] = refl
owed-nil (d ∷ deps) = ap suc (owed-nil deps)

pub tally-add :
    (f g h : List String → ℕ) (x : String) (steps : List Step)
    → ((deps : List String) → f deps + g deps ≡ h deps)
    → tally f x steps + tally g x steps ≡ tally h x steps
tally-add f g h x [] sums = omega arith
tally-add f g h x (s ∷ steps) sums = ground (arith, tally-add f g h x steps sums, sums s.depends_on)
