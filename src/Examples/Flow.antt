-- ===== src/Examples/Flow.antt =====
-- Two steps, of which the second depends on the first, run by the engine.
use mantlekeep.Prelude.{
  lookup, insert, ℕ, String, List, [], ◌∷◌, ◌≡◌, refl, Result, ok, err, Option, some, true, All,
  contains, is_some,
}
use mantlekeep.Contracts.{ExecutionToken, no_token}
use mantlekeep.Orchestrator.Graph.{
  new_dependency_graph, index_steps, add_steps, add_edges, order_from, ready_now, consume,
  release_all, release_one, release_at, mark_consumed, level_of, Step, Dag, no_step, layers,
  has_cycle,
}
use mantlekeep.Orchestrator.Indexing.{Distinct}
use mantlekeep.Orchestrator.Layering.{IsOrdered}
use mantlekeep.Orchestrator.Order.{layers-IsOrdered, layers-IsCycle, IsCycle, layers-returns}
use mantlekeep.Orchestrator.Events.{new_mem_store, MemStore}
use mantlekeep.Orchestrator.Run.{
  Runs, RunResult, RunError, LevelRun, RunsLevels, begun, concluded, runs, advances, ends, moves,
  stays, starts, settles, step_settles, step_starts,
}
use mantlekeep.Orchestrator.Run.Saga.{Runs-Undoes, Undoes, steps_of, is_succeeded}
use mantlekeep.Orchestrator.Run.Causal.{Runs-RunMet, Runs-success, RunMet}

abbrev build : Step
build = record no_step { name = "build"; runtime = "builtin" }

abbrev roll_out : Step
roll_out = record no_step { name = "rollout"; runtime = "wasm"; depends_on = "build" ∷ [] }

-- The order of the document is not the order of the dependencies.
abbrev pipeline : Dag
pipeline = record { name = "release"; steps = roll_out ∷ build ∷ [] }

abbrev circle : Dag
circle = record {
  name = "circle";
  steps = record build { depends_on = "rollout" ∷ [] } ∷ roll_out ∷ [];
}

abbrev now : ℕ → ℕ
now n = n

abbrev answer : Step → Result String String
answer s = ok "done"

abbrev token : ExecutionToken
token = record no_token { value = "t"; expires_at = 100 }

abbrev r₀ : LevelRun
r₀ = begun now token pipeline new_mem_store

abbrev r₁ : LevelRun
r₁ = step_settles now "release" build (answer build) (step_starts now "release" build r₀)

abbrev r₂ : LevelRun
r₂ = step_settles now "release" roll_out (answer roll_out) (step_starts now "release" roll_out r₁)

abbrev pipeline_levels : RunsLevels now answer "release" ((build ∷ []) ∷ (roll_out ∷ []) ∷ []) r₀ r₂
pipeline_levels =
    advances (moves (starts [] [] [] build r₀) (moves (settles [] [] [] build _) stays)) refl (
      advances (moves (starts [] [] [] roll_out r₁) (moves (settles [] [] [] roll_out _) stays))
        refl ends)

layered : layers pipeline ≡ some (ok ((build ∷ []) ∷ (roll_out ∷ []) ∷ []))
unfolding layers new_dependency_graph index_steps lookup insert add_steps add_edges order_from
    ready_now consume release_all release_one release_at mark_consumed level_of
layered = refl

abbrev outcome : (RunResult × Option RunError) × MemStore
outcome = concluded now answer "release" 0 r₂

abbrev run : Runs now answer answer token pipeline new_mem_store outcome
run = runs ((build ∷ []) ∷ (roll_out ∷ []) ∷ []) r₂ refl layered pipeline_levels

layers-IsOrdered_example :
    Distinct ("rollout" ∷ "build" ∷ [])
    × IsOrdered (roll_out ∷ build ∷ []) [] ((build ∷ []) ∷ (roll_out ∷ []) ∷ [])
layers-IsOrdered_example = layers-IsOrdered pipeline ((build ∷ []) ∷ (roll_out ∷ []) ∷ []) layered

circular : layers circle ≡ some (err (has_cycle 2))
unfolding layers new_dependency_graph index_steps lookup insert add_steps add_edges order_from
    ready_now
circular = refl

layers-IsCycle_example : (done : List String) × IsCycle circle.steps done 2
layers-IsCycle_example = layers-IsCycle circle 2 circular

layers-returns_example : is_some (layers circle) ≡ true
layers-returns_example = layers-returns circle

Runs-Undoes_example : (done : List Step) × Undoes [] outcome done
Runs-Undoes_example = Runs-Undoes now answer answer token pipeline new_mem_store outcome run

Runs-RunMet_example : RunMet now answer answer run
Runs-RunMet_example =
    Runs-RunMet now answer answer token pipeline new_mem_store outcome run (refl, (refl, tt))

Runs-success_example :
    All (λ s. contains (steps_of is_succeeded outcome.1.all) s.name ≡ true) (roll_out ∷ build ∷ [])
unfolding concluded
Runs-success_example =
    Runs-success now answer answer token pipeline new_mem_store outcome run (refl, (refl, tt)) refl
