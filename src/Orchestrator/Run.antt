-- ===== src/Orchestrator/Run.antt =====
-- mantlekeep-control/orchestrator/orchestrator.go. The steps of a level run concurrently: a level is a
-- relation of moves, in each of which one step starts or, under the lock, settles. The clock is a
-- function of the number of events that are stored; what the runner answers for a step is a parameter.
-- The event store is the one in memory, whose Append does not fail: where another store fails, emit
-- discards the error and the event is missing from the trail.
pub mod Saga
pub mod Levels
pub mod Causal
pub mod Total
use mantlekeep.Prelude.{
  ℕ, String, Bool, true, false, List, [], ◌∷◌, ◌++◌, if◌then◌else◌, suc, ◌==◌, ◌||◌, not, Result,
  ok, err, Option, some, none, ◌≡◌, ◌&&◌,
}
use mantlekeep.Contracts.{ExecutionToken, valid}
use mantlekeep.Prelude.Text.{concat}
use mantlekeep.Orchestrator.Graph.{Step, Dag, LayerError, layers}
use mantlekeep.Orchestrator.Events.{
  EventKind, Event, run_started, step_started, step_succeeded, step_failed, step_compensated,
  run_failed, run_succeeded, MemStore, append,
}

pub record RunResult : Type 0 where
  pub dag_name : String
  pub success : Bool
  pub failed_step : String
  pub started_at : ℕ
  pub finished_at : ℕ

pub data RunError : Type 0 where
  token_refused : RunError
  rejected : LayerError → RunError
  failed_at : (step error : String) → RunError

-- levelRun, with the store that its steps write to.
pub record LevelRun : Type 0 where
  pub completed : List Step
  pub failed : String
  pub fail_err : String
  pub store : MemStore

pub record Level : Type 0 where
  pub to_start : List Step
  pub running : List Step
  pub run : LevelRun

module _ (now : ℕ → ℕ) where
  -- emit discards what Append answers.
  abbrev pub emit : String → String → EventKind → String → MemStore → MemStore
  emit run step kind detail m =
      let e : Event = record {
        seq = 0;
        at = now m.seq;
        run = run;
        step = step;
        kind = kind;
        detail = detail;
      } in
      (append e m).1

  abbrev pub emitted : String → String → EventKind → String → LevelRun → LevelRun
  emitted run step kind detail r = record r { store = emit run step kind detail r.store }

  -- runStep, before the lock.
  abbrev pub step_starts : String → Step → LevelRun → LevelRun
  step_starts dag s r = emitted dag s.name step_started s.runtime r

  -- runStep, under the lock.
  abbrev pub step_settles : String → Step → Result String String → LevelRun → LevelRun
  step_settles dag s (err e) r =
      let r' = emitted dag s.name step_failed e r in
      if r.failed == "" then record r' { failed = s.name; fail_err = e } else r'
  step_settles dag s (ok detail) r =
      let r' = emitted dag s.name step_succeeded detail r in
      record r' { completed = r.completed ++ s ∷ [] }

module _ (now : ℕ → ℕ) (runner : Step → Result String String) where
  -- One move of a level: any step that has not started starts, or any that runs settles.
  pub data Move (dag : String) : Level → Level → Type 0 where
    starts :
        (xs ys running : List Step) (s : Step) (r : LevelRun)
        → Move dag
            (record { to_start = xs ++ s ∷ ys; running = running; run = r })
            (record { to_start = xs ++ ys; running = s ∷ running; run = step_starts now dag s r })
    settles :
        (to_start xs ys : List Step) (s : Step) (r : LevelRun)
        → Move dag
            (record { to_start = to_start; running = xs ++ s ∷ ys; run = r })
            (record {
              to_start = to_start;
              running = xs ++ ys;
              run = step_settles now dag s (runner s) r;
            })

  pub data Moves (dag : String) : Level → Level → Type 0 where
    stays : {l : Level} → Moves dag l l
    moves : {a b c : Level} → Move dag a b → Moves dag b c → Moves dag a c

  -- The level is waited for: every step has settled.
  abbrev pub RunsLevel : String → List Step → LevelRun → LevelRun → Type 0
  RunsLevel dag level r r' =
      Moves dag (record { to_start = level; running = []; run = r })
        (record { to_start = []; running = []; run = r' })

  -- runLevels
  pub data RunsLevels (dag : String) : List (List Step) → LevelRun → LevelRun → Type 0 where
    ends : {r : LevelRun} → RunsLevels dag [] r r
    breaks :
        {level : List Step} {levels : List (List Step)} {r r' : LevelRun}
        → RunsLevel dag level r r'
        → (r'.failed == "") ≡ false
        → RunsLevels dag (level ∷ levels) r r'
    advances :
        {level : List Step} {levels : List (List Step)} {r r' r'' : LevelRun}
        → RunsLevel dag level r r'
        → (r'.failed == "") ≡ true
        → RunsLevels dag levels r' r''
        → RunsLevels dag (level ∷ levels) r r''

abbrev pub compensation_detail : Result String String → String
compensation_detail (ok detail) = detail
compensation_detail (err e) = concat "compensation error: " e

abbrev pub reversed : List Step → List Step
reversed [] = []
reversed (s ∷ steps) = reversed steps ++ s ∷ []

module _ (now : ℕ → ℕ) (compensator : Step → Result String String) where
  -- The loop of compensate, over the steps newest first.
  unfoldable pub compensate_each : String → List Step → MemStore → MemStore
  compensate_each dag [] m = m
  compensate_each dag (s ∷ steps) m =
      compensate_each dag steps
        (emit now dag s.name step_compensated (compensation_detail (compensator s)) m)

  -- compensate
  abbrev pub compensate : String → List Step → MemStore → MemStore
  compensate dag completed m = compensate_each dag (reversed completed) m

  -- The end of Run, from the levels' run on.
  unfoldable pub concluded : String → ℕ → LevelRun → (RunResult × Option RunError) × MemStore
  concluded dag at r =
      let undone = compensate dag r.completed r.store in
      if not (r.failed == "")
      then (
        (
          record {
            dag_name = dag;
            success = false;
            failed_step = r.failed;
            started_at = at;
            finished_at = now undone.seq;
          },
          some (failed_at r.failed r.fail_err),
        ),
        emit now dag r.failed run_failed r.fail_err undone,
      )
      else (
        (
          record {
            dag_name = dag;
            success = true;
            failed_step = "";
            started_at = at;
            finished_at = now r.store.seq;
          },
          none,
        ),
        emit now dag "" run_succeeded "" r.store,
      )

abbrev pub token_holds : ExecutionToken → ℕ → Bool
token_holds token at = not (token.value == "") && valid token at

module _ (now : ℕ → ℕ) where
  abbrev pub not_run : Dag → MemStore → RunResult
  not_run dag m = record {
    dag_name = dag.name;
    success = false;
    failed_step = "";
    started_at = now m.seq;
    finished_at = now m.seq;
  }

  abbrev pub begun : ExecutionToken → Dag → MemStore → LevelRun
  begun token dag m = record {
    completed = [];
    failed = "";
    fail_err = "";
    store = emit now dag.name "" run_started (concat "intent " token.intent_id) m;
  }

module _ (now : ℕ → ℕ) (runner compensator : Step → Result String String) where
  -- Run
  pub data Runs (token : ExecutionToken) (dag : Dag) (m : MemStore)
      : (RunResult × Option RunError) × MemStore → Type 0 where
    refuses :
        token_holds token (now m.seq) ≡ false
        → Runs token dag m ((not_run now dag m, some token_refused), m)
    rejects :
        (e : LayerError)
        → token_holds token (now m.seq) ≡ true
        → layers dag ≡ some (err e)
        → Runs token dag m ((not_run now dag m, some (rejected e)), m)
    runs :
        (levels : List (List Step)) (r : LevelRun)
        → token_holds token (now m.seq) ≡ true
        → layers dag ≡ some (ok levels)
        → RunsLevels now runner dag.name levels (begun now token dag m) r
        → Runs token dag m (concluded now compensator dag.name (now m.seq) r)
