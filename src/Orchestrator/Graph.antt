-- ===== src/Orchestrator/Graph.antt =====
-- mantlekeep-control/orchestrator/dag.go, with Step and DAG of contracts.go. The count -1 of a step that
-- is consumed is the constructor `consumed`. The words of an error are its constructor.
use mantlekeep.Prelude.{
  ℕ, String, Bool, true, false, Option, none, some, List, [], ◌∷◌, ◌++◌, Map, lookup, lookup_or,
  insert, if◌then◌else◌, Result, ok, err, ◌>>=◌, is_some, length, suc, ◌-◌, zero,
}

pub record Step : Type 0 where
  pub name : String
  pub depends_on : List String
  pub runtime : String
  pub image : String
  pub memory : String
  pub command : List String
  pub compensation : List String

-- What Go reads for a name that the map of steps lacks.
abbrev pub no_step : Step
no_step = record {
  name = "";
  depends_on = [];
  runtime = "";
  image = "";
  memory = "";
  command = [];
  compensation = [];
}

pub record Dag : Type 0 where
  pub name : String
  pub steps : List Step

pub data LayerError : Type 0 where
  duplicate_step : (name : String) → LayerError
  unknown_dependency : (step dep : String) → LayerError
  has_cycle : (remaining : ℕ) → LayerError

pub data Waiting : Type 0 where
  consumed : Waiting
  left : (n : ℕ) → Waiting

pub record DependencyGraph : Type 0 where
  pub by_name : Map Step
  pub waiting_on : Map Waiting
  pub unblocks : Map (List String)

abbrev pub empty_graph : DependencyGraph
empty_graph = record { by_name = []; waiting_on = []; unblocks = [] }

abbrev pub waiting : DependencyGraph → String → Waiting
waiting g x = lookup_or (left 0) x g.waiting_on

abbrev pub unblocked_by : DependencyGraph → String → List String
unblocked_by g x = lookup_or [] x g.unblocks

-- The first loop of newDependencyGraph.
unfoldable pub index_steps : DependencyGraph → List Step → Result LayerError DependencyGraph
index_steps g [] = ok g
index_steps g (s ∷ steps) =
    let rest =
      index_steps
        (record g {
          by_name = insert s.name s g.by_name;
          waiting_on = insert s.name (left 0) g.waiting_on;
        })
        steps in
    if is_some (lookup s.name g.by_name) then err (duplicate_step s.name) else rest

abbrev pub one_more : Waiting → Waiting
one_more consumed = left 0
one_more (left n) = left (suc n)

-- The body of the second loop, after its test.
abbrev pub with_edge : String → String → DependencyGraph → DependencyGraph
with_edge name dep g = record g {
  waiting_on = insert name (one_more (waiting g name)) g.waiting_on;
  unblocks = insert dep (unblocked_by g dep ++ name ∷ []) g.unblocks;
}

unfoldable pub add_edges :
    String → List String → DependencyGraph → Result LayerError DependencyGraph
add_edges name [] g = ok g
add_edges name (dep ∷ deps) g =
    let rest = add_edges name deps (with_edge name dep g) in
    if is_some (lookup dep g.by_name) then rest else err (unknown_dependency name dep)

-- The second loop of newDependencyGraph.
unfoldable pub add_steps : List Step → DependencyGraph → Result LayerError DependencyGraph
add_steps [] g = ok g
add_steps (s ∷ steps) g = add_edges s.name s.depends_on g >>= add_steps steps

unfoldable pub new_dependency_graph : Dag → Result LayerError DependencyGraph
new_dependency_graph dag = index_steps empty_graph dag.steps >>= add_steps dag.steps

abbrev pub is_ready : Waiting → Bool
is_ready consumed = false
is_ready (left zero) = true
is_ready (left (suc n)) = false

-- readyNow
unfoldable pub ready_now : DependencyGraph → List Step → List String
ready_now g [] = []
ready_now g (s ∷ steps) =
    let rest = ready_now g steps in if is_ready (waiting g s.name) then s.name ∷ rest else rest

-- The first pass of consume: what it reads and what it marks.
unfoldable pub level_of : DependencyGraph → List String → List Step
level_of g [] = []
level_of g (x ∷ xs) = lookup_or no_step x g.by_name ∷ level_of g xs

unfoldable pub mark_consumed : List String → Map Waiting → Map Waiting
mark_consumed [] m = m
mark_consumed (x ∷ xs) m = mark_consumed xs (insert x consumed m)

-- The second pass, for one dependant.
unfoldable pub release_at : String → Map Waiting → Waiting → Map Waiting
release_at x m consumed = m
release_at x m (left zero) = m
release_at x m (left (suc n)) = insert x (left n) m

unfoldable pub release_one : List String → Map Waiting → Map Waiting
release_one [] m = m
release_one (x ∷ xs) m = release_one xs (release_at x m (lookup_or (left 0) x m))

unfoldable pub release_all : DependencyGraph → List String → Map Waiting → Map Waiting
release_all g [] m = m
release_all g (x ∷ xs) m = release_all g xs (release_one (unblocked_by g x) m)

unfoldable pub consume : List String → DependencyGraph → List Step × DependencyGraph
consume frontier g = (
  level_of g frontier,
  record g { waiting_on = release_all g frontier (mark_consumed frontier g.waiting_on) },
)

abbrev pub Layered : Type 0
Layered = Option (Result LayerError (List (List Step)))

abbrev pub put_first : List Step → Layered → Layered
put_first level none = none
put_first level (some (err e)) = some (err e)
put_first level (some (ok levels)) = some (ok (level ∷ levels))

-- The test of the frontier in a round, before what the round does.
abbrev pub unless_empty : List String → ℕ → Layered → Layered
unless_empty [] remaining rest = some (err (has_cycle remaining))
unless_empty (x ∷ xs) remaining rest = rest

-- The loop of Layers, `none` where the fuel is gone. `remaining` stops at 0, and the loop with it, as
-- Go's does at 0 or below.
unfoldable pub order_from : ℕ → List Step → ℕ → DependencyGraph → Layered
order_from fuel steps zero g = some (ok [])
order_from zero steps (suc n) g = none
order_from (suc fuel) steps (suc n) g =
    let frontier = ready_now g steps in
    let (level, g') = consume frontier g in
    let rest = order_from fuel steps (suc n - length frontier) g' in
    unless_empty frontier (suc n) (put_first level rest)

abbrev pub ordered : List Step → Result LayerError DependencyGraph → Layered
ordered steps (ok g) = order_from (length steps) steps (length steps) g
ordered steps (err e) = some (err e)

-- Layers
unfoldable pub layers : Dag → Layered
layers dag = ordered dag.steps (new_dependency_graph dag)
