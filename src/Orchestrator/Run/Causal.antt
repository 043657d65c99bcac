-- ===== src/Orchestrator/Run/Causal.antt =====
-- What a run of orchestrator.go starts, and when: the levels of dag.go as its steps meet them.
use mantlekeep.Prelude.{
  String, Bool, true, false, List, [], ◌∷◌, ◌++◌, if◌then◌else◌, ◌≡◌, refl, Result, ok, Option, All,
  sym, ◌∙◌, ap, Bool-cases, ◌==◌, inl, inr, contains, contains-append, arith, false≢true, is_some,
  subst, value_or,
}
use mantlekeep.Orchestrator.Graph.{Step, Dag, layers}
use mantlekeep.Orchestrator.Indexing.{names, found}
use mantlekeep.Orchestrator.Layering.{IsMet, IsOrdered}
use mantlekeep.Orchestrator.Run.{
  LevelRun, RunsLevels, Runs, RunResult, RunError, ends, breaks, advances, refuses, rejects, runs,
  ℕ, some, ExecutionToken, concluded, MemStore, begun,
}
use mantlekeep.Orchestrator.Run.Saga.{
  steps_of, is_succeeded, Undoes, concluded-Undoes, RunsLevels-Kept, begun-Kept,
}
use mantlekeep.Orchestrator.Rounds.{undone}
use mantlekeep.Orchestrator.Order.{layers-IsOrdered}
use mantlekeep.Orchestrator.Run.Levels.{
  IsNamed, Reaches, Keeps, Accounts, LevelsMet, Keeps-Moves, Reaches-Keeps,
}

module _ (now : ℕ → ℕ) (runner : Step → Result String String) (dag : String) where
  module _ (steps : List Step) (named : All IsNamed steps) where
    some-IsNamed :
        (t : Step) (o : Option Step) {s : Step} (b : Bool)
        → b ≡ true
        → (if b then some t else o) ≡ some s
        → IsNamed t
        → IsNamed s
    some-IsNamed t o true c e n = subst IsNamed (ap (value_or t) e) n
    some-IsNamed t o false c e n = absurd (false≢true c)

    found-IsNamed :
        (part : List Step) (x : String) (s : Step)
        → All IsNamed part
        → found x part ≡ some s
        → IsNamed s
    found-IsNamed [] x s n e = absurd (false≢true (ap is_some e))
    found-IsNamed (t ∷ part) x s (n, ns) e = elim (Bool-cases (t.name == x)) [
      | inl c ↦ some-IsNamed t (found x part) (t.name == x) c e n
      | inr c ↦ found-IsNamed part x s ns (ground (arith, e, c))
    ]

    level-IsNamed :
        (level : List Step) → All (λ s. found s.name steps ≡ some s) level → All IsNamed level
    level-IsNamed [] f = tt
    level-IsNamed (s ∷ level) (f, fs) =
        (found-IsNamed steps s.name s named f, level-IsNamed level fs)

    all_reached :
        (part : List Step) (done : List String) (completed : List Step)
        → Reaches done completed
        → undone done part ≡ 0
        → All (λ s. contains (names completed) s.name ≡ true) part
    unfolding Reaches
    all_reached [] done completed r e = tt
    all_reached (s ∷ part) done completed r e = elim (Bool-cases (contains done s.name)) [
      | inl c ↦ (r s.name c, all_reached part done completed r (ground (arith, e, c)))
      | inr c ↦ absurd (ground (arith, e, c))
    ]

    entered :
        (done : List String) (level : List Step) (r : LevelRun)
        → All (IsMet done) level
        → All (λ s. found s.name steps ≡ some s) level
        → Reaches done r.completed
        → Keeps now runner dag done
            (names level)
            (record { to_start = level; running = []; run = r })
    unfolding Accounts
    entered done level r met own reach = record {
      to_start_met = met;
      to_start_named = level-IsNamed level own;
      running_named = tt;
      reaches = reach;
      accounts = λ x h. ground (arith, h);
    }

    LevelsMet-IsOrdered :
        (done : List String) (levels : List (List Step)) (r r' : LevelRun)
        (run : RunsLevels now runner dag levels r r')
        → IsOrdered steps done levels
        → Reaches done r.completed
        → LevelsMet now runner dag run
          × ((r'.failed == "") ≡ true
              → All (λ s. contains (names r'.completed) s.name ≡ true) steps)
    unfolding LevelsMet IsOrdered
    LevelsMet-IsOrdered done [] r r' ends o reach =
        (tt, λ e. all_reached steps done r.completed reach o)
    LevelsMet-IsOrdered done (level ∷ levels) r r' (breaks run e) (met, fresh, own, o) reach =
        let (m, k) =
          Keeps-Moves now runner dag done (names level) run (entered done level r met own reach) in
        (m, λ e'. absurd (false≢true (sym e ∙ e')))
    LevelsMet-IsOrdered done (level ∷ levels) r r' (advances {r' = mid} run e rest)
          (met, fresh, own, o) reach =
        let (m, k) =
          Keeps-Moves now runner dag done (names level) run (entered done level r met own reach) in
        let (ms, all) =
          LevelsMet-IsOrdered (names level ++ done) levels mid r' rest o
            (Reaches-Keeps now runner dag done (names level) mid k e) in
        ((m, ms), all)

module _ (now : ℕ → ℕ) (runner compensator : Step → Result String String) where
  -- No step of the run starts before all that it depends on is completed.
  pub RunMet :
      {token : ExecutionToken} {dag : Dag} {m : MemStore}
      {out : (RunResult × Option RunError) × MemStore}
      → Runs now runner compensator token dag m out
      → Type 0
  RunMet (refuses e) = Unit
  RunMet (rejects e h l) = Unit
  RunMet {dag = dag} (runs levels r h l run) = LevelsMet now runner dag.name run

  concluded-success :
      (dag : String) (at : ℕ) (r : LevelRun)
      → (concluded now compensator dag at r).0.0.success ≡ (r.failed == "")
  unfolding concluded
  concluded-success dag at r = elim (Bool-cases (r.failed == "")) [
    | inl c ↦ rw c refl
    | inr c ↦ rw c refl
  ]

  on_trail :
      (trail before : List String) (completed part : List Step)
      → trail ≡ before ++ names completed
      → All (λ s. contains (names completed) s.name ≡ true) part
      → All (λ s. contains trail s.name ≡ true) part
  on_trail trail before completed [] e h = tt
  on_trail trail before completed (s ∷ part) e (h, hs) = (
    rw (e, contains-append before (names completed) s.name) (ground (arith, h)),
    on_trail trail before completed part e hs,
  )

  -- What a run that gets to its levels does: nothing starts too early, and a success is whole.
  ordered_run :
      (token : ExecutionToken) (dag : Dag) (m : MemStore) (levels : List (List Step)) (r : LevelRun)
      (run : RunsLevels now runner dag.name levels (begun now token dag m) r)
      → layers dag ≡ some (ok levels)
      → All IsNamed dag.steps
      → LevelsMet now runner dag.name run
        × ((concluded now compensator dag.name (now m.seq) r).0.0.success ≡ true
            → All
                (λ s.
                  contains
                    (steps_of is_succeeded (concluded now compensator dag.name (now m.seq) r).1.all)
                    s.name
                  ≡ true)
                dag.steps)
  unfolding Undoes Reaches
  ordered_run token dag m levels r run l named =
      let (distinct, ordered) = layers-IsOrdered dag levels l in
      let (met, all) =
        LevelsMet-IsOrdered now runner dag.name dag.steps named [] levels (begun now token dag m) r
          run ordered (λ x e. absurd (false≢true e)) in
      let (e, _) =
        concluded-Undoes now compensator m.all dag.name (now m.seq) r
          (RunsLevels-Kept now runner m.all dag.name run (begun-Kept now token dag m)) in
      (
        met,
        λ won.
            on_trail _ (steps_of is_succeeded m.all) r.completed dag.steps e
              (all (sym (concluded-success dag.name (now m.seq) r) ∙ won)),
      )

  -- In a run of a DAG whose steps all have a name, whatever order the steps of a level start and settle
  -- in, a step starts only once every step that it depends on is completed.
  pub Runs-RunMet :
      (token : ExecutionToken) (dag : Dag) (m : MemStore)
      (out : (RunResult × Option RunError) × MemStore)
      (run : Runs now runner compensator token dag m out)
      → All IsNamed dag.steps
      → RunMet run
  unfolding RunMet
  Runs-RunMet token dag m out (refuses e) named = tt
  Runs-RunMet token dag m out (rejects e h l) named = tt
  Runs-RunMet token dag m out (runs levels r h l run) named =
      (ordered_run token dag m levels r run l named).0

  -- Where a run of a DAG whose steps all have a name reports success, the trail has a success of every
  -- step of the DAG.
  pub Runs-success :
      (token : ExecutionToken) (dag : Dag) (m : MemStore)
      (out : (RunResult × Option RunError) × MemStore)
      → Runs now runner compensator token dag m out
      → All IsNamed dag.steps
      → out.0.0.success ≡ true
      → All (λ s. contains (steps_of is_succeeded out.1.all) s.name ≡ true) dag.steps
  Runs-success token dag m out (refuses e) named won = absurd (false≢true won)
  Runs-success token dag m out (rejects e h l) named won = absurd (false≢true won)
  Runs-success token dag m out (runs levels r h l run) named won =
      (ordered_run token dag m levels r run l named).1 won
