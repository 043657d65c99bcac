-- ===== src/Orchestrator/Order.antt =====
-- Layers of dag.go as its callers see it: the order that it gives, or its refusal.
use mantlekeep.Prelude.{
  All, contains, Holds-if, holds, Holds-map, Holds-bind, any, not, ◌&&◌, ◌||◌, ltb, ◌<◌, ℕ, String,
  Bool, List, [], ◌∷◌, ◌≡◌, refl, Result, ok, err, some, none, false, Holds, is_some, subst, true,
  Bool-cases, ◌>>=◌, length, lookup, ap, Holds-ok, inl, arith, suc, ◌∙◌, inr, false≢true, sym,
}
use mantlekeep.Orchestrator.Graph.{
  Step, LayerError, DependencyGraph, layers, Dag, index_steps, add_edges, add_steps, Layered,
  has_cycle, new_dependency_graph, duplicate_step, ordered, empty_graph, with_edge,
  unknown_dependency, left,
}
use mantlekeep.Orchestrator.Indexing.{
  index_steps-Knows, names, Distinct, Indexed, new_dependency_graph-Indexed,
}
use mantlekeep.Orchestrator.Layering.{IsOrdered, IsStuck, Tells, order_from-Tells}
use mantlekeep.Orchestrator.Counting.{tally, owed, owed-nil}
use mantlekeep.Orchestrator.Rounds.{undone}

-- The refusals of newDependencyGraph are not a cycle's.
blames_cycle : Result LayerError DependencyGraph → Bool
blames_cycle (err (has_cycle n)) = true
blames_cycle r = false

blames_cycle-index_steps :
    (steps : List Step) (g : DependencyGraph) → blames_cycle (index_steps g steps) ≡ false
unfolding index_steps blames_cycle
blames_cycle-index_steps [] g = refl
blames_cycle-index_steps (s ∷ steps) g = elim (Bool-cases (is_some (lookup s.name g.by_name))) [
  | inl c ↦ rw c refl
  | inr c ↦ rw c (blames_cycle-index_steps steps _)
]

blames_cycle-add_edges :
    (name : String) (deps : List String) (g : DependencyGraph)
    → blames_cycle (add_edges name deps g) ≡ false
unfolding add_edges blames_cycle
blames_cycle-add_edges name [] g = refl
blames_cycle-add_edges name (dep ∷ deps) g = elim (Bool-cases (is_some (lookup dep g.by_name))) [
  | inl c ↦ rw c (blames_cycle-add_edges name deps _)
  | inr c ↦ rw c refl
]

blames_cycle-bind :
    (r : Result LayerError DependencyGraph)
    (k : DependencyGraph → Result LayerError DependencyGraph)
    → blames_cycle r ≡ false
    → ((g : DependencyGraph) → blames_cycle (k g) ≡ false)
    → blames_cycle (r >>= k) ≡ false
unfolding blames_cycle
blames_cycle-bind (ok g) k e f = f g
blames_cycle-bind (err (duplicate_step x)) k e f = refl
blames_cycle-bind (err (unknown_dependency x y)) k e f = refl
blames_cycle-bind (err (has_cycle n)) k e f = e

blames_cycle-add_steps :
    (steps : List Step) (g : DependencyGraph) → blames_cycle (add_steps steps g) ≡ false
unfolding add_steps blames_cycle
blames_cycle-add_steps [] g = refl
blames_cycle-add_steps (s ∷ steps) g =
    blames_cycle-bind (add_edges s.name s.depends_on g) (add_steps steps)
      (blames_cycle-add_edges s.name s.depends_on g) (blames_cycle-add_steps steps)

tally-owed_nil : (x : String) (steps : List Step) → tally length x steps ≡ tally (owed []) x steps
tally-owed_nil x [] = refl
tally-owed_nil x (s ∷ steps) = ground (arith, tally-owed_nil x steps, owed-nil s.depends_on)

-- Every name that some step depends on is the name of a step.
IsDeclared : List String → List Step → Type 0
IsDeclared known [] = Unit
IsDeclared known (s ∷ steps) =
    All (λ d. contains known d ≡ true) s.depends_on × IsDeclared known steps

-- The names that the first loop indexes are known to the second one.
Knows : List Step → DependencyGraph → Type 0
Knows steps g = (x : String) → is_some (lookup x g.by_name) ≡ contains (names steps) x

IsDeclared-add_edges :
    (all : List Step) (name : String) (deps : List String) (g : DependencyGraph)
    → Knows all g
    → Holds
        (λ g'. Knows all g' × All (λ d. contains (names all) d ≡ true) deps)
        (add_edges name deps g)
unfolding add_edges Knows
IsDeclared-add_edges all name [] g k = holds (k, tt)
IsDeclared-add_edges all name (dep ∷ deps) g k =
    Holds-if (unknown_dependency name dep) (is_some (lookup dep g.by_name)) λ known.
      Holds-map (λ g' (k', ds). (k', (sym (k dep) ∙ known, ds)))
        (IsDeclared-add_edges all name deps (with_edge name dep g) k)

IsDeclared-add_steps :
    (all steps : List Step) (g : DependencyGraph)
    → Knows all g
    → Holds (λ g'. IsDeclared (names all) steps) (add_steps steps g)
unfolding add_steps IsDeclared
IsDeclared-add_steps all [] g k = holds tt
IsDeclared-add_steps all (s ∷ steps) g k =
    Holds-bind (add_steps steps)
      (λ g₁ (k₁, ds). Holds-map (λ g₂ rest. (ds, rest)) (IsDeclared-add_steps all steps g₁ k₁))
      (IsDeclared-add_edges all s.name s.depends_on g k)

-- A name that is left over and is the name of a step.
abbrev is_open : List String → List Step → String → Bool
is_open done all d = contains (names all) d && not (contains done d)

-- Apart from the names of `done`, `n` steps are left over, at least one, and each of them depends on
-- one that is left over too.
pub IsCycle : List Step → List String → ℕ → Type 0
IsCycle steps done n =
    (undone done steps ≡ n)
    × (0 < n)
    × All (λ s. (contains done s.name || any (is_open done steps) s.depends_on) ≡ true) steps

any-is_open :
    (done : List String) (all : List Step) (deps : List String)
    → All (λ d. contains (names all) d ≡ true) deps
    → any (is_open done all) deps ≡ ltb 0 (owed done deps)
any-is_open done all [] k = refl
any-is_open done all (d ∷ deps) (k, ks) = ground (arith, k, any-is_open done all deps ks)

All-is_open :
    (done : List String) (all steps : List Step)
    → IsDeclared (names all) steps
    → All (λ s. (contains done s.name || ltb 0 (owed done s.depends_on)) ≡ true) steps
    → All (λ s. (contains done s.name || any (is_open done all) s.depends_on) ≡ true) steps
unfolding IsDeclared
All-is_open done all [] d h = tt
All-is_open done all (s ∷ steps) (k, d) (h, hs) =
    (rw (any-is_open done all s.depends_on k) h, All-is_open done all steps d hs)

-- What each outcome of Layers means.
Means : Dag → Layered → Type 0
Means dag none = ⊥
Means dag (some (ok levels)) = Distinct (names dag.steps) × IsOrdered dag.steps [] levels
Means dag (some (err (has_cycle n))) = (done : List String) × IsCycle dag.steps done n
Means dag (some (err e)) = Unit

Means-Tells :
    (dag : Dag) (r : Layered)
    → Distinct (names dag.steps)
    → IsDeclared (names dag.steps) dag.steps
    → Tells dag.steps [] r
    → Means dag r
unfolding Means Tells IsStuck IsCycle
Means-Tells dag none d k t = t
Means-Tells dag (some (ok levels)) d k t = (d, t)
Means-Tells dag (some (err (has_cycle n))) d k (done, (e, p, h)) =
    (done, (e, p, All-is_open done dag.steps dag.steps k h))
Means-Tells dag (some (err (duplicate_step x))) d k t = tt
Means-Tells dag (some (err (unknown_dependency x y))) d k t = tt

undone_all : (steps : List Step) → undone [] steps ≡ length steps
undone_all [] = refl
undone_all (s ∷ steps) = ap suc (undone_all steps)

Means-ordered :
    (dag : Dag) (r : Result LayerError DependencyGraph)
    → Holds (Indexed dag.steps) r
    → Holds (λ g. IsDeclared (names dag.steps) dag.steps) r
    → blames_cycle r ≡ false
    → Means dag (ordered dag.steps r)
unfolding Means blames_cycle Indexed
Means-ordered dag (ok g) h k e =
    let (d, b, w, u) = Holds-ok h in
    Means-Tells dag _ d (Holds-ok k) (
      order_from-Tells dag.steps d (length dag.steps) (length dag.steps) [] g
        (record {
          by_name_eq = b;
          waiting_eq = λ x. w x ∙ ap left (tally-owed_nil x dag.steps);
          unblocks_eq = u;
        })
        (undone_all dag.steps) (omega arith))
Means-ordered dag (err (duplicate_step x)) h k e = tt
Means-ordered dag (err (unknown_dependency x y)) h k e = tt
Means-ordered dag (err (has_cycle n)) h k e = absurd (false≢true (sym e))

IsDeclared-new_dependency_graph :
    (dag : Dag) → Holds (λ g. IsDeclared (names dag.steps) dag.steps) (new_dependency_graph dag)
unfolding new_dependency_graph Knows
IsDeclared-new_dependency_graph dag =
    Holds-bind (add_steps dag.steps) (λ g k. IsDeclared-add_steps dag.steps dag.steps g k)
      (index_steps-Knows dag.steps)

layers-Means : (dag : Dag) → Means dag (layers dag)
unfolding layers new_dependency_graph
layers-Means dag =
    Means-ordered dag (new_dependency_graph dag) (new_dependency_graph-Indexed dag)
      (IsDeclared-new_dependency_graph dag)
      (blames_cycle-bind (index_steps empty_graph dag.steps) (add_steps dag.steps)
        (blames_cycle-index_steps dag.steps empty_graph) (blames_cycle-add_steps dag.steps))

is_some-Means : (dag : Dag) (r : Layered) → Means dag r → is_some r ≡ true
unfolding Means
is_some-Means dag none m = absurd m
is_some-Means dag (some r) m = refl

-- Layers returns levels only of a DAG whose steps have distinct names. The levels hold the DAG's own
-- steps, no name twice and none left out, and each step stands in a level after those of all the
-- names that it depends on.
pub layers-IsOrdered :
    (dag : Dag) (levels : List (List Step))
    → layers dag ≡ some (ok levels)
    → Distinct (names dag.steps) × IsOrdered dag.steps [] levels
unfolding Means
layers-IsOrdered dag levels e = subst (Means dag) e (layers-Means dag)

-- Layers reports a cycle only where one is: apart from some names that are done, as many steps are
-- left over as it says, at least one, and each of them depends on the name of a step of the DAG that
-- is left over too.
pub layers-IsCycle :
    (dag : Dag) (n : ℕ)
    → layers dag ≡ some (err (has_cycle n))
    → (done : List String) × IsCycle dag.steps done n
unfolding Means
layers-IsCycle dag n e = subst (Means dag) e (layers-Means dag)

-- The loop of Layers ends for every DAG: as many rounds as the DAG has steps are enough.
pub layers-returns : (dag : Dag) → is_some (layers dag) ≡ true
layers-returns dag = is_some-Means dag (layers dag) (layers-Means dag)
