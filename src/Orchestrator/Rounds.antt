-- ===== src/Orchestrator/Rounds.antt =====
-- One round of the loop of Layers in dag.go: readyNow, then consume.
use mantlekeep.Prelude.{
  ℕ, String, Bool, List, [], ◌∷◌, ◌++◌, ◌==◌, if◌then◌else◌, ◌≡◌, refl, contains, contains-append,
  All, lookup, arith, eq_iff, suc, ◌+◌, ap, ◌∙◌, length, true, false, ◌&&◌, false≢true, Bool-cases,
  ◌||◌, inl, zero, sym, inr, value_or, ◌≤◌,
}
use mantlekeep.Orchestrator.Graph.{
  Waiting, consumed, left, DependencyGraph, unblocked_by, Step, waiting, ready_now, is_ready,
  consume, level_of, no_step, mark_consumed,
}
use mantlekeep.Orchestrator.Counting.{
  count, tally, owed, released, dec_by, value-release_all, value-mark_consumed, owed-cons,
  tally-add,
}
use mantlekeep.Orchestrator.Indexing.{names, Distinct, found}

-- The count of a name, where the names of `done` are consumed.
abbrev pub state_of : List Step → List String → String → Waiting
state_of steps done x = if contains done x then consumed else left (tally (owed done) x steps)

-- The steps that are not done.
abbrev pub undone : List String → List Step → ℕ
undone done [] = 0
undone done (s ∷ steps) =
    let rest = undone done steps in if contains done s.name then rest else suc rest

-- The names of a list are new, each to those after it and to `done`.
pub Fresh : List String → List String → Type 0
Fresh [] done = Unit
Fresh (x ∷ xs) done = (contains (xs ++ done) x ≡ false) × Fresh xs done

-- What holds of the graph between two rounds.
pub record Between (steps : List Step) (done : List String) (g : DependencyGraph) : Type 0 where
  pub by_name_eq : (x : String) → lookup x g.by_name ≡ found x steps
  pub waiting_eq : (x : String) → waiting g x ≡ state_of steps done x
  pub unblocks_eq : (x f : String) → count x (unblocked_by g f) ≡ tally (count f) x steps

pub contains-ready_now :
    (g : DependencyGraph) (steps : List Step) (x : String)
    → contains (ready_now g steps) x ≡ (is_ready (waiting g x) && contains (names steps) x)
unfolding ready_now
contains-ready_now g [] x = ground arith
contains-ready_now g (s ∷ steps) x = ground (arith, contains-ready_now g steps x, eq_iff s.name x)

zero_left :
    (b : Bool) (n : ℕ) → is_ready (if b then consumed else left n) ≡ true → (b ≡ false) × (n ≡ 0)
zero_left true n e = absurd (false≢true e)
zero_left false zero e = (refl, refl)
zero_left false (suc n) e = absurd (false≢true e)

-- A step that is ready is not done, and owes nothing.
pub is_ready-state_of :
    (steps : List Step) (done : List String) (x : String)
    → is_ready (state_of steps done x) ≡ true
    → (contains done x ≡ false) × (tally (owed done) x steps ≡ 0)
is_ready-state_of steps done x e = zero_left (contains done x) (tally (owed done) x steps) e

pub Fresh-ready_now :
    (all steps : List Step) (done : List String) (g : DependencyGraph)
    → Between all done g
    → Distinct (names steps)
    → Fresh (ready_now g steps) done
unfolding ready_now Fresh Distinct
Fresh-ready_now all [] done g b d = tt
Fresh-ready_now all (s ∷ steps) done g b (new, d) =
    elim (Bool-cases (is_ready (waiting g s.name))) [
      | inl r ↦
          let open_ =
            (is_ready-state_of all done s.name (sym (ap is_ready (b.waiting_eq s.name)) ∙ r)).0 in
          rw r (
            contains-append (ready_now g steps) done s.name
                ∙ ground (arith, contains-ready_now g steps s.name, new, open_),
            Fresh-ready_now all steps done g b d,
          )
      | inr r ↦ rw r (Fresh-ready_now all steps done g b d)
    ]

-- What a frontier releases is what it takes off the dependencies that are owed.
released-owed :
    (steps : List Step) (done : List String) (g : DependencyGraph) (xs : List String) (y : String)
    → Between steps done g
    → Fresh xs done
    → tally (owed (xs ++ done)) y steps + released g xs y ≡ tally (owed done) y steps
unfolding Fresh
released-owed steps done g [] y b fresh = omega arith
released-owed steps done g (x ∷ xs) y b (new, fresh) =
    let taken =
      tally-add (owed (x ∷ (xs ++ done))) (count x) (owed (xs ++ done)) y steps
        (λ deps. owed-cons (xs ++ done) x deps new) in
    ground (arith, taken, released-owed steps done g xs y b fresh, b.unblocks_eq y x)

after_round :
    (f d : Bool) (k n m : ℕ)
    → m + k ≡ n
    → dec_by k (if f then consumed else if d then consumed else left n)
      ≡ (if f || d then consumed else left m)
after_round true d k n m e = refl
after_round false true k n m e = refl
after_round false false k n m e = ap left (omega arith)

-- A round keeps the counts.
pub consume-Between :
    (steps : List Step) (done : List String) (g : DependencyGraph) (xs : List String)
    → Between steps done g
    → Fresh xs done
    → Between steps (xs ++ done) (consume xs g).1
unfolding consume
consume-Between steps done g xs b fresh = record {
  by_name_eq = b.by_name_eq;
  waiting_eq = λ y.
      value-release_all g xs (mark_consumed xs g.waiting_on) y
      ∙ ap (dec_by (released g xs y)) (value-mark_consumed xs g.waiting_on y)
      ∙ rw (b.waiting_eq y, contains-append xs done y)
          (after_round (contains xs y) (contains done y) (released g xs y)
            (tally (owed done) y steps) (tally (owed (xs ++ done)) y steps)
            (released-owed steps done g xs y b fresh));
  unblocks_eq = b.unblocks_eq;
}

-- The steps not done fall by the frontier: `steps` is a part of `all`.
pub undone-ready_now :
    (all steps : List Step) (done : List String) (g : DependencyGraph)
    → Between all done g
    → All (λ s. contains (names all) s.name ≡ true) steps
    → undone (ready_now g all ++ done) steps + length (ready_now g steps) ≡ undone done steps
unfolding ready_now
undone-ready_now all [] done g b known = omega arith
undone-ready_now all (s ∷ steps) done g b (k, known) =
    elim (Bool-cases (is_ready (waiting g s.name))) [
      | inl r ↦
          let open_ =
            (is_ready-state_of all done s.name (sym (ap is_ready (b.waiting_eq s.name)) ∙ r)).0 in
          rw (r, contains-append (ready_now g all) done s.name)
            (ground (
              arith,
              contains-ready_now g all s.name,
              r,
              k,
              open_,
              undone-ready_now all steps done g b known,
            ))
      | inr r ↦
          rw (r, contains-append (ready_now g all) done s.name)
            (ground (
              arith,
              contains-ready_now g all s.name,
              r,
              undone-ready_now all steps done g b known,
            ))
    ]

pub name-found :
    (x : String) (steps : List Step)
    → contains (names steps) x ≡ true
    → (value_or no_step (found x steps)).name ≡ x
name-found x [] e = absurd (false≢true e)
name-found x (s ∷ steps) e = elim (Bool-cases (s.name == x)) [
  | inl q ↦ rw q ((eq_iff s.name x).0 q)
  | inr q ↦ rw q (name-found x steps (ground (arith, e, q)))
]

pub owed-found :
    (done : List String) (x : String) (steps : List Step)
    → owed done (value_or no_step (found x steps)).depends_on ≤ tally (owed done) x steps
owed-found done x [] = omega arith
owed-found done x (s ∷ steps) = elim (Bool-cases (s.name == x)) [
  | inl q ↦ rw q (omega arith)
  | inr q ↦ rw q (owed-found done x steps)
]

-- The level that is read has the names of the frontier.
pub names-level_of :
    (steps : List Step) (done : List String) (g : DependencyGraph) (xs : List String)
    → Between steps done g
    → All (λ x. contains (names steps) x ≡ true) xs
    → names (level_of g xs) ≡ xs
unfolding level_of
names-level_of steps done g [] b known = refl
names-level_of steps done g (x ∷ xs) b (k, known) =
    rw (b.by_name_eq x, name-found x steps k, names-level_of steps done g xs b known) refl
