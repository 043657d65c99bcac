-- ===== src/Orchestrator/Run/Saga.antt =====
-- The trail of a run and its compensation, by orchestrator.go: what has succeeded and what is undone.
use mantlekeep.Prelude.{
  String, Bool, true, false, List, [], ◌∷◌, ◌++◌, if◌then◌else◌, ◌≡◌, refl, Result, ok, err, Option,
  append_assoc, append-nil, sym, ◌∙◌, ap, Bool-cases, ◌==◌, inl, inr,
}
use mantlekeep.Contracts.{ExecutionToken}
use mantlekeep.Orchestrator.Graph.{Step, Dag}
use mantlekeep.Orchestrator.Indexing.{names}
use mantlekeep.Orchestrator.Events.{
  EventKind, Event, step_succeeded, step_compensated, MemStore, step_failed,
}
use mantlekeep.Orchestrator.Run.{
  Level, LevelRun, Moves, RunsLevels, Runs, RunResult, RunError, step_settles, starts, settles,
  stays, moves, ends, breaks, advances, refuses, rejects, runs, reversed, compensate_each,
  concluded, ℕ, step_starts, emitted, compensate, begun,
}

abbrev pub is_succeeded : EventKind → Bool
is_succeeded step_succeeded = true
is_succeeded other = false

abbrev pub is_compensated : EventKind → Bool
is_compensated step_compensated = true
is_compensated other = false

-- The steps of the events of one kind, in the order of the trail.
abbrev pub steps_of : (EventKind → Bool) → List Event → List String
steps_of p [] = []
steps_of p (e ∷ es) = let rest = steps_of p es in if p e.kind then e.step ∷ rest else rest

pub steps_of-append :
    (p : EventKind → Bool) (xs ys : List Event)
    → steps_of p (xs ++ ys) ≡ steps_of p xs ++ steps_of p ys
steps_of-append p [] ys = refl
steps_of-append p (e ∷ xs) ys = elim (Bool-cases (p e.kind)) [
  | inl c ↦ rw (c, steps_of-append p xs ys) refl
  | inr c ↦ rw (c, steps_of-append p xs ys) refl
]

pub names-append : (xs ys : List Step) → names (xs ++ ys) ≡ names xs ++ names ys
names-append [] ys = refl
names-append (s ∷ xs) ys = ap (λ rest. s.name ∷ rest) (names-append xs ys)

-- The trail is `before`, then one success for each step that is completed; nothing is undone yet.
pub Kept : List Event → LevelRun → Type 0
Kept before r =
    (steps_of is_succeeded r.store.all ≡ steps_of is_succeeded before ++ names r.completed)
    × (steps_of is_compensated r.store.all ≡ steps_of is_compensated before)

module _ (now : ℕ → ℕ) (runner : Step → Result String String) (before : List Event) where
  step_starts-Kept :
      (dag : String) (s : Step) (r : LevelRun)
      → Kept before r
      → Kept before (step_starts now dag s r)
  unfolding Kept
  step_starts-Kept dag s r (a, b) = (
    rw (steps_of-append is_succeeded r.store.all _) (append-nil _ ∙ a),
    rw (steps_of-append is_compensated r.store.all _) (append-nil _ ∙ b),
  )

  step_settles-Kept :
      (dag : String) (s : Step) (answer : Result String String) (r : LevelRun)
      → Kept before r
      → Kept before (step_settles now dag s answer r)
  unfolding Kept
  step_settles-Kept dag s (err e) r (a, b) = noted (r.failed == "")
    where
      noted :
          (c : Bool)
          → let r' = emitted now dag s.name step_failed e r in
            Kept before (if c then record r' { failed = s.name; fail_err = e } else r')
      noted true = (
        rw (steps_of-append is_succeeded r.store.all _) (append-nil _ ∙ a),
        rw (steps_of-append is_compensated r.store.all _) (append-nil _ ∙ b),
      )
      noted false = (
        rw (steps_of-append is_succeeded r.store.all _) (append-nil _ ∙ a),
        rw (steps_of-append is_compensated r.store.all _) (append-nil _ ∙ b),
      )
  step_settles-Kept dag s (ok detail) r (a, b) = (
    rw (steps_of-append is_succeeded r.store.all _, a, names-append r.completed (s ∷ []))
        (append_assoc (steps_of is_succeeded before) (names r.completed) (s.name ∷ [])),
    rw (steps_of-append is_compensated r.store.all _) (append-nil _ ∙ b),
  )

  Moves-Kept :
      (dag : String) {l l' : Level}
      → Moves now runner dag l l'
      → Kept before l.run
      → Kept before l'.run
  Moves-Kept dag stays k = k
  Moves-Kept dag (moves (starts xs ys running s r) rest) k =
      Moves-Kept dag rest (step_starts-Kept dag s r k)
  Moves-Kept dag (moves (settles to_start xs ys s r) rest) k =
      Moves-Kept dag rest (step_settles-Kept dag s (runner s) r k)

  pub RunsLevels-Kept :
      (dag : String) {levels : List (List Step)} {r r' : LevelRun}
      → RunsLevels now runner dag levels r r'
      → Kept before r
      → Kept before r'
  RunsLevels-Kept dag ends k = k
  RunsLevels-Kept dag (breaks level e) k = Moves-Kept dag level k
  RunsLevels-Kept dag (advances level e rest) k = RunsLevels-Kept dag rest (Moves-Kept dag level k)

compensate_each-succeeded :
    (now : ℕ → ℕ) (compensator : Step → Result String String) (dag : String) (steps : List Step)
    (m : MemStore)
    → steps_of is_succeeded (compensate_each now compensator dag steps m).all
      ≡ steps_of is_succeeded m.all
unfolding compensate_each
compensate_each-succeeded now compensator dag [] m = refl
compensate_each-succeeded now compensator dag (s ∷ steps) m =
    compensate_each-succeeded now compensator dag steps _
    ∙ steps_of-append is_succeeded m.all _
    ∙ append-nil _

compensate_each-compensated :
    (now : ℕ → ℕ) (compensator : Step → Result String String) (dag : String) (steps : List Step)
    (m : MemStore)
    → steps_of is_compensated (compensate_each now compensator dag steps m).all
      ≡ steps_of is_compensated m.all ++ names steps
unfolding compensate_each
compensate_each-compensated now compensator dag [] m = sym (append-nil _)
compensate_each-compensated now compensator dag (s ∷ steps) m =
    compensate_each-compensated now compensator dag steps _
    ∙ rw (steps_of-append is_compensated m.all _)
        (append_assoc (steps_of is_compensated m.all) (s.name ∷ []) (names steps))

pub begun-Kept :
    (now : ℕ → ℕ) (token : ExecutionToken) (dag : Dag) (m : MemStore)
    → Kept m.all (begun now token dag m)
unfolding Kept
begun-Kept now token dag m =
    (steps_of-append is_succeeded m.all _, steps_of-append is_compensated m.all _ ∙ append-nil _)

-- What has succeeded since `before` is `done`, and all of it is undone where the run has failed.
unfoldable pub Undoes : List Event → (RunResult × Option RunError) × MemStore → List Step → Type 0
Undoes before out done =
    (steps_of is_succeeded out.1.all ≡ steps_of is_succeeded before ++ names done)
    × (steps_of is_compensated out.1.all
        ≡ steps_of is_compensated before ++ (if out.0.0.success then [] else names (reversed done)))

pub concluded-Undoes :
    (now : ℕ → ℕ) (compensator : Step → Result String String) (before : List Event) (dag : String)
    (at : ℕ) (r : LevelRun)
    → Kept before r
    → Undoes before (concluded now compensator dag at r) r.completed
unfolding concluded Kept Undoes
concluded-Undoes now compensator before dag at r (a, b) = elim (Bool-cases (r.failed == "")) [
  | inl c ↦ rw c (
    rw (steps_of-append is_succeeded r.store.all _) (append-nil _ ∙ a),
    rw (steps_of-append is_compensated r.store.all _) (append-nil _ ∙ b ∙ sym (append-nil _)),
  )
  | inr c ↦ rw c (
    steps_of-append is_succeeded (compensate now compensator dag r.completed r.store).all _
        ∙ append-nil _
        ∙ compensate_each-succeeded now compensator dag (reversed r.completed) r.store
        ∙ a,
    steps_of-append is_compensated (compensate now compensator dag r.completed r.store).all _
        ∙ append-nil _
        ∙ compensate_each-compensated now compensator dag (reversed r.completed) r.store
        ∙ ap (λ xs. xs ++ names (reversed r.completed)) b,
  )
]

-- Run undoes what it did, in whatever order the steps of a level start and settle. The steps whose
-- success it adds to the trail are `done`, in that order. Where it reports success it compensates
-- nothing, and otherwise each of them, the last to succeed first.
pub Runs-Undoes :
    (now : ℕ → ℕ) (runner compensator : Step → Result String String) (token : ExecutionToken)
    (dag : Dag) (m : MemStore) (out : (RunResult × Option RunError) × MemStore)
    → Runs now runner compensator token dag m out
    → (done : List Step) × Undoes m.all out done
unfolding Undoes
Runs-Undoes now runner compensator token dag m out (refuses e) =
    ([], (sym (append-nil _), sym (append-nil _)))
Runs-Undoes now runner compensator token dag m out (rejects e h l) =
    ([], (sym (append-nil _), sym (append-nil _)))
Runs-Undoes now runner compensator token dag m out (runs levels r h l run) = (
  r.completed,
  concluded-Undoes now compensator m.all dag.name (now m.seq) r
      (RunsLevels-Kept now runner m.all dag.name run (begun-Kept now token dag m)),
)
