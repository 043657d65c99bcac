-- ===== src/Orchestrator/Events.antt =====
-- mantlekeep-control/orchestrator/events.go: the trail of a run and its store in memory.
use mantlekeep.Prelude.{Result, ok, ℕ, String, List, [], ◌∷◌, ◌++◌, if◌then◌else◌, suc, ◌==◌, ◌||◌}

pub data EventKind : Type 0 where
  run_started step_started step_succeeded step_failed step_compensated run_failed : EventKind
  run_succeeded : EventKind

pub record Event : Type 0 where
  pub seq : ℕ
  pub at : ℕ
  pub run : String
  pub step : String
  pub kind : EventKind
  pub detail : String

pub record MemStore : Type 0 where
  pub seq : ℕ
  pub all : List Event

abbrev pub new_mem_store : MemStore
new_mem_store = record { seq = 0; all = [] }

-- Append: the event with its number and no error, and the store after it.
abbrev pub append : Event → MemStore → Result String Event × MemStore
append e m =
    let e' = record e { seq = suc m.seq } in
    (ok e', record { seq = suc m.seq; all = m.all ++ e' ∷ [] })

-- Events
unfoldable pub events_of : String → List Event → List Event
events_of run [] = []
events_of run (e ∷ es) =
    let rest = events_of run es in if run == "" || e.run == run then e ∷ rest else rest
