-- ===== src/Orchestrator/Run/Levels.antt =====
-- The moves of a level, by runLevels and runStep of orchestrator.go: what they keep.
use mantlekeep.Prelude.{
  String, true, false, List, [], ◌∷◌, ◌++◌, ◌≡◌, refl, Result, ok, err, All, Bool-cases, not, ◌==◌,
  inl, inr, contains, contains-append, ◌||◌, arith,
}
use mantlekeep.Orchestrator.Graph.{Step}
use mantlekeep.Orchestrator.Indexing.{names}
use mantlekeep.Orchestrator.Layering.{IsMet}
use mantlekeep.Orchestrator.Run.{
  Level, LevelRun, Moves, RunsLevels, step_settles, starts, settles, stays, moves, ends, breaks,
  advances, ℕ,
}
use mantlekeep.Orchestrator.Run.Saga.{names-append}

abbrev pub IsNamed : Step → Type 0
IsNamed s = (s.name == "") ≡ false

All-remove {ℓ κ} :
    {A : Type ℓ} (P : A → Type κ) (xs ys : List A) (a : A)
    → All P (xs ++ a ∷ ys)
    → P a × All P (xs ++ ys)
All-remove P [] ys a h = h
All-remove P (x ∷ xs) ys a (p, h) = let (pa, rest) = All-remove P xs ys a h in (pa, (p, rest))

contains-middle :
    (xs ys : List Step) (s : Step) (x : String)
    → contains (names (xs ++ s ∷ ys)) x ≡ (s.name == x || contains (names (xs ++ ys)) x)
contains-middle [] ys s x = refl
contains-middle (t ∷ xs) ys s x = ground (arith, contains-middle xs ys s x)

-- Each name of `done` is among the steps that are completed.
unfoldable pub Reaches : List String → List Step → Type 0
Reaches done completed = (x : String) → contains done x ≡ true → contains (names completed) x ≡ true

IsMet-Reaches :
    (done : List String) (completed : List Step) (s : Step)
    → Reaches done completed
    → IsMet done s
    → IsMet (names completed) s
unfolding Reaches IsMet
IsMet-Reaches done completed s r m = go s.depends_on m
  where
    go :
        (deps : List String)
        → All (λ d. contains done d ≡ true) deps
        → All (λ d. contains (names completed) d ≡ true) deps
    go [] m = tt
    go (d ∷ deps) (h, m) = (r d h, go deps m)

module _ (now : ℕ → ℕ) (runner : Step → Result String String) (dag : String) where
  -- In each move that starts a step, all the dependencies of the step are completed.
  unfoldable pub StartsMet : {a b : Level} → Moves now runner dag a b → Type 0
  StartsMet stays = Unit
  StartsMet (moves (starts xs ys running s r) rest) = IsMet (names r.completed) s × StartsMet rest
  StartsMet (moves (settles to_start xs ys s r) rest) = StartsMet rest

  unfoldable pub LevelsMet :
      {levels : List (List Step)} {r r' : LevelRun} → RunsLevels now runner dag levels r r' → Type 0
  LevelsMet ends = Unit
  LevelsMet (breaks level e) = StartsMet level
  LevelsMet (advances level e rest) = StartsMet level × LevelsMet rest

  -- A step of the level is yet to start, or runs, or is completed, or the run has failed.
  unfoldable pub Accounts : Level → String → Type 0
  Accounts l x =
      (contains (names l.to_start) x
        || (contains (names l.running) x
            || (contains (names l.run.completed) x || not (l.run.failed == ""))))
      ≡ true

  -- What a level keeps, from `done` on.
  pub record Keeps (done level : List String) (l : Level) : Type 0 where
    pub to_start_met : All (IsMet done) l.to_start
    pub to_start_named : All IsNamed l.to_start
    pub running_named : All IsNamed l.running
    pub reaches : Reaches done l.run.completed
    pub accounts : (x : String) → contains level x ≡ true → Accounts l x

  Keeps-settles :
      (done level : List String) (to_start xs ys : List Step) (s : Step) (r : LevelRun)
      (answer : Result String String)
      → Keeps done level (record { to_start = to_start; running = xs ++ s ∷ ys; run = r })
      → Keeps done level (record {
        to_start = to_start;
        running = xs ++ ys;
        run = step_settles now dag s answer r;
      })
  unfolding Accounts Reaches
  Keeps-settles done level to_start xs ys s r (ok detail) k =
      let (named, rest) = All-remove IsNamed xs ys s k.running_named in
      record {
        to_start_met = k.to_start_met;
        to_start_named = k.to_start_named;
        running_named = rest;
        reaches = λ x h.
            rw
              (
                names-append r.completed (s ∷ []),
                contains-append (names r.completed) (s.name ∷ []) x,
              )
              (ground (arith, k.reaches x h));
        accounts = λ x h.
            rw
              (
                names-append r.completed (s ∷ []),
                contains-append (names r.completed) (s.name ∷ []) x,
              )
              (ground (arith, k.accounts x h, contains-middle xs ys s x));
      }
  Keeps-settles done level to_start xs ys s r (err e) k =
      let (named, rest) = All-remove IsNamed xs ys s k.running_named in
      elim (Bool-cases (r.failed == "")) [
        | inl c ↦ rw c (record {
          to_start_met = k.to_start_met;
          to_start_named = k.to_start_named;
          running_named = rest;
          reaches = k.reaches;
          accounts = λ x h. ground (arith, named);
        })
        | inr c ↦ rw c (record {
          to_start_met = k.to_start_met;
          to_start_named = k.to_start_named;
          running_named = rest;
          reaches = k.reaches;
          accounts = λ x h. ground (arith, c);
        })
      ]

  pub Keeps-Moves :
      (done level : List String) {a b : Level} (run : Moves now runner dag a b)
      → Keeps done level a
      → StartsMet run × Keeps done level b
  unfolding StartsMet Accounts
  Keeps-Moves done level stays k = (tt, k)
  Keeps-Moves done level (moves (starts xs ys running s r) rest) k =
      let (met, mets) = All-remove (IsMet done) xs ys s k.to_start_met in
      let (named, nameds) = All-remove IsNamed xs ys s k.to_start_named in
      let (m, k') = Keeps-Moves done level rest (record {
        to_start_met = mets;
        to_start_named = nameds;
        running_named = (named, k.running_named);
        reaches = k.reaches;
        accounts = λ x h. ground (arith, k.accounts x h, contains-middle xs ys s x);
      }) in
      ((IsMet-Reaches done r.completed s k.reaches met, m), k')
  Keeps-Moves done level (moves (settles to_start xs ys s r) rest) k =
      Keeps-Moves done level rest (Keeps-settles done level to_start xs ys s r (runner s) k)

  -- Once a level is waited for without a failure, all of it is completed.
  pub Reaches-Keeps :
      (done level : List String) (r : LevelRun)
      → Keeps done level (record { to_start = []; running = []; run = r })
      → (r.failed == "") ≡ true
      → Reaches (level ++ done) r.completed
  unfolding Accounts Reaches
  Reaches-Keeps done level r k e x h = elim (Bool-cases (contains level x)) [
    | inl c ↦ ground (arith, k.accounts x c, e)
    | inr c ↦ k.reaches x (ground (arith, h, c, contains-append level done x))
  ]
