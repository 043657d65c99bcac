-- ===== src/Orchestrator/Layering.antt =====
-- What Layers of dag.go gives: levels in the order of the dependencies, or a cycle.
use mantlekeep.Prelude.{
  ℕ, String, Bool, List, [], ◌∷◌, ◌++◌, if◌then◌else◌, ◌≡◌, refl, contains, All, arith, suc, ap,
  ◌∙◌, length, true, false, some, ◌<◌, ◌≤◌, ok, Bool-cases, err, inl, inr, none, Option, eq_refl,
  sym, zero, is_some, value_or, false≢true, ◌-◌, ◌||◌, ltb,
}
use mantlekeep.Orchestrator.Graph.{
  Step, level_of, order_from, Layered, ready_now, DependencyGraph, is_ready, waiting, has_cycle,
  consumed, left, no_step, put_first, unless_empty, consume, duplicate_step, unknown_dependency,
}
use mantlekeep.Orchestrator.Counting.{tally, owed}
use mantlekeep.Orchestrator.Indexing.{names, Distinct, found, is_some-found, tally_own}
use mantlekeep.Orchestrator.Rounds.{
  Between, undone, Fresh, is_ready-state_of, name-found, contains-ready_now, owed-found,
  Fresh-ready_now, names-level_of, undone-ready_now, consume-Between,
}

-- Every dependency of the step is a name of `done`.
unfoldable pub IsMet : List String → Step → Type 0
IsMet done s = All (λ d. contains done d ≡ true) s.depends_on

module _ (steps : List Step) where
  -- Levels that run every step that is not done, each once and each after what it depends on.
  unfoldable pub IsOrdered : List String → List (List Step) → Type 0
  IsOrdered done [] = undone done steps ≡ 0
  IsOrdered done (level ∷ levels) =
      All (IsMet done) level
      × Fresh (names level) done
      × All (λ s. found s.name steps ≡ some s) level
      × IsOrdered (names level ++ done) levels

  -- Steps are left, and each waits for one that is not done.
  unfoldable pub IsStuck : List String → ℕ → Type 0
  IsStuck done remaining =
      (undone done steps ≡ remaining)
      × (0 < remaining)
      × All (λ s. (contains done s.name || ltb 0 (owed done s.depends_on)) ≡ true) steps

  -- What the outcome of the loop says, from `done`.
  unfoldable pub Tells : List String → Layered → Type 0
  Tells done none = ⊥
  Tells done (some (ok levels)) = IsOrdered done levels
  Tells done (some (err (has_cycle n))) = (stuck : List String) × IsStuck stuck n
  Tells done (some (err e)) = ⊥

all_met : (done deps : List String) → owed done deps ≤ 0 → All (λ d. contains done d ≡ true) deps
all_met done [] le = tt
all_met done (d ∷ deps) le = (ground arith, all_met done deps (ground arith))

present : (o : Option Step) → is_some o ≡ true → o ≡ some (value_or no_step o)
present none e = absurd (false≢true e)
present (some s) e = refl

positive_count :
    (b : Bool) (n : ℕ) → b ≡ false → is_ready (if b then consumed else left n) ≡ false → 0 < n
positive_count true n c e = absurd (false≢true (sym c))
positive_count false zero c e = absurd (false≢true (sym e))
positive_count false (suc n) c e = omega arith

names-known :
    (all steps : List Step)
    → ((x : String) → contains (names steps) x ≡ true → contains (names all) x ≡ true)
    → All (λ s. contains (names all) s.name ≡ true) steps
names-known all [] k = tt
names-known all (s ∷ steps) k = (
  k s.name (ground (arith, eq_refl s.name)),
  names-known all steps (λ x h. k x (ground (arith, h))),
)

module _ (steps : List Step) (done : List String) (g : DependencyGraph)
    (b : Between steps done g) where
  -- The step that is read for a name of the frontier.
  level_of-IsMet :
      (xs : List String)
      → All (λ x. is_ready (waiting g x) ≡ true) xs
      → All (IsMet done) (level_of g xs)
  unfolding level_of IsMet
  level_of-IsMet [] r = tt
  level_of-IsMet (x ∷ xs) (r, rs) =
      let owes = (is_ready-state_of steps done x (sym (ap is_ready (b.waiting_eq x)) ∙ r)).1 in
      (
        rw (b.by_name_eq x) (
            all_met done (value_or no_step (found x steps)).depends_on
              (ground (arith, owes, owed-found done x steps))),
        level_of-IsMet xs rs,
      )

  level_of-found :
      (xs : List String)
      → All (λ x. contains (names steps) x ≡ true) xs
      → All (λ s. found s.name steps ≡ some s) (level_of g xs)
  unfolding level_of
  level_of-found [] k = tt
  level_of-found (x ∷ xs) (k, ks) = (
    rw (b.by_name_eq x, name-found x steps k) (present (found x steps) (is_some-found x steps ∙ k)),
    level_of-found xs ks,
  )

  ready_now-is_ready :
      (part : List Step) → All (λ x. is_ready (waiting g x) ≡ true) (ready_now g part)
  unfolding ready_now
  ready_now-is_ready [] = tt
  ready_now-is_ready (s ∷ part) = elim (Bool-cases (is_ready (waiting g s.name))) [
    | inl r ↦ rw r (r, ready_now-is_ready part)
    | inr r ↦ rw r (ready_now-is_ready part)
  ]

  ready_now-known :
      (part : List Step)
      → All (λ s. contains (names steps) s.name ≡ true) part
      → All (λ x. contains (names steps) x ≡ true) (ready_now g part)
  unfolding ready_now
  ready_now-known [] k = tt
  ready_now-known (s ∷ part) (k, ks) = elim (Bool-cases (is_ready (waiting g s.name))) [
    | inl r ↦ rw r (k, ready_now-known part ks)
    | inr r ↦ rw r (ready_now-known part ks)
  ]

  -- Where no step is ready, every step that is left owes something.
  none_ready :
      (part : List Step)
      → ready_now g steps ≡ []
      → All (λ s. contains (names steps) s.name ≡ true) part
      → All (λ s. contains done s.name ≡ false → 0 < tally (owed done) s.name steps) part
  none_ready [] e k = tt
  none_ready (s ∷ part) e (k, ks) = (
    (λ open_. positive_count (contains done s.name) (tally (owed done) s.name steps) open_ (
        ap is_ready (sym (b.waiting_eq s.name))
        ∙ ground (arith, k, contains-ready_now g steps s.name, ap (λ xs. contains xs s.name) e))),
    none_ready part e ks,
  )

module _ (steps : List Step) (done : List String) where
  Tells-put_first :
      (level : List Step) (r : Layered)
      → All (IsMet done) level
      → Fresh (names level) done
      → All (λ s. found s.name steps ≡ some s) level
      → Tells steps (names level ++ done) r
      → Tells steps done (put_first level r)
  unfolding Tells IsOrdered
  Tells-put_first level none m f k t = t
  Tells-put_first level (some (ok levels)) m f k t = (m, f, k, t)
  Tells-put_first level (some (err (has_cycle n))) m f k t = t
  Tells-put_first level (some (err (duplicate_step x))) m f k t = t
  Tells-put_first level (some (err (unknown_dependency x y))) m f k t = t

  Tells-unless_empty :
      (xs : List String) (n : ℕ) (rest : Layered)
      → (xs ≡ [] → (stuck : List String) × IsStuck steps stuck n)
      → (0 < length xs → Tells steps done rest)
      → Tells steps done (unless_empty xs n rest)
  unfolding Tells
  Tells-unless_empty [] n rest f t = f refl
  Tells-unless_empty (x ∷ xs) n rest f t = t (omega arith)

All-owed :
    (done : List String) (steps part : List Step)
    → All (λ t. tally (owed done) t.name steps ≡ owed done t.depends_on) part
    → All (λ s. contains done s.name ≡ false → 0 < tally (owed done) s.name steps) part
    → All (λ s. (contains done s.name || ltb 0 (owed done s.depends_on)) ≡ true) part
All-owed done steps [] same positive = tt
All-owed done steps (s ∷ part) (e, same) (p, positive) = (
  elim (Bool-cases (contains done s.name)) [
    | inl c ↦ rw c refl
    | inr c ↦ ground (arith, p c, e, c)
  ],
  All-owed done steps part same positive,
)

module _ (steps : List Step) (d : Distinct (names steps)) where
  all_known : All (λ s. contains (names steps) s.name ≡ true) steps
  all_known = names-known steps steps (λ x h. h)

  -- The loop of Layers, with the fuel it is given, from the names that are consumed.
  pub order_from-Tells :
      (fuel remaining : ℕ) (done : List String) (g : DependencyGraph)
      → Between steps done g
      → undone done steps ≡ remaining
      → remaining ≤ fuel
      → Tells steps done (order_from fuel steps remaining g)
  unfolding order_from Tells IsOrdered consume IsStuck
  order_from-Tells fuel zero done g b e le = e
  order_from-Tells zero (suc n) done g b e le = absurd (omega arith)
  order_from-Tells (suc fuel) (suc n) done g b e le =
      let frontier = ready_now g steps in
      let known = ready_now-known steps done g b steps all_known in
      let fresh = Fresh-ready_now steps steps done g b d in
      let same = names-level_of steps done g frontier b known in
      let falls = undone-ready_now steps steps done g b all_known in
      Tells-unless_empty steps done frontier (suc n) _
        (λ empty. (
          done,
          (
            e,
            omega arith,
            All-owed done steps steps (tally_own (owed done) steps d)
                (none_ready steps done g b steps empty all_known),
          ),
        ))
        (λ some_ready.
          Tells-put_first steps done (level_of g frontier) _
            (level_of-IsMet steps done g b frontier (ready_now-is_ready steps done g b steps))
            (rw same fresh) (level_of-found steps done g b frontier known)
            (rw same (
              order_from-Tells fuel (suc n - length frontier) (frontier ++ done)
                (consume frontier g).1 (consume-Between steps done g frontier b fresh) (omega arith)
                (omega arith))))
