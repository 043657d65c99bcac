-- ===== src/Orchestrator/Indexing.antt =====
-- What newDependencyGraph of dag.go leaves for the rounds of Layers.
use mantlekeep.Prelude.{
  ℕ, String, List, [], ◌∷◌, ◌++◌, ◌==◌, if◌then◌else◌, ◌≡◌, refl, contains, Map, insert, lookup,
  lookup-insert, arith, eq_iff, suc, ◌+◌, ap, ◌∙◌, length, false, Option, none, some, true, ◌&&◌,
  Holds, Holds-if, is_some, Holds-map, holds, Holds-bind, false≢true, Holds-if_not, Holds-both,
  Holds-all, Option-cases, Bool-cases, inl, inr, sym, eq_refl, All,
}
use mantlekeep.Orchestrator.Graph.{
  left, DependencyGraph, unblocked_by, Step, waiting, index_steps, add_edges, add_steps,
  new_dependency_graph, Dag, with_edge, one_more, unknown_dependency, duplicate_step, empty_graph,
}
use mantlekeep.Orchestrator.Counting.{count, tally}

abbrev pub names : List Step → List String
names [] = []
names (s ∷ steps) = s.name ∷ names steps

-- No name stands twice.
unfoldable pub Distinct : List String → Type 0
Distinct [] = Unit
Distinct (x ∷ xs) = (contains xs x ≡ false) × Distinct xs

-- The first step of a name.
abbrev pub found : String → List Step → Option Step
found x [] = none
found x (s ∷ steps) = if s.name == x then some s else found x steps

abbrev first_of : Option Step → Option Step → Option Step
first_of none b = b
first_of (some s) b = some s

count-append : (x : String) (xs ys : List String) → count x (xs ++ ys) ≡ count x xs + count x ys
count-append x [] ys = omega arith
count-append x (y ∷ xs) ys = ground (arith, count-append x xs ys)

-- The state that the two loops leave.
unfoldable pub Indexed : List Step → DependencyGraph → Type 0
Indexed steps g =
    Distinct (names steps)
    × ((x : String) → lookup x g.by_name ≡ found x steps)
    × ((x : String) → waiting g x ≡ left (tally length x steps))
    × ((x f : String) → count x (unblocked_by g f) ≡ tally (count f) x steps)

module _ (x f : String) where
  -- What one loop adds at the names `x` and `f`: to a count of `n` and to the edges.
  Adds : ℕ → ℕ → DependencyGraph → DependencyGraph → Type 0
  Adds n k g g' =
      (lookup x g'.by_name ≡ lookup x g.by_name)
      × (waiting g' x ≡ left n)
      × (count x (unblocked_by g' f) ≡ k + count x (unblocked_by g f))

  Adds-with_edge :
      (name dep : String) (n : ℕ) (g : DependencyGraph)
      → waiting g x ≡ left n
      → Adds
          (if name == x then suc n else n)
          (if name == x && dep == f then 1 else 0)
          g
          (with_edge name dep g)
  unfolding Adds
  Adds-with_edge name dep n g e = (
    refl,
    rw (lookup-insert name x (one_more (waiting g name)) g.waiting_on)
        (ground (arith, ap one_more e, e, eq_iff name x)),
    rw (lookup-insert dep f (unblocked_by g dep ++ name ∷ []) g.unblocks)
        (ground (arith, count-append x (unblocked_by g dep) (name ∷ []), eq_iff dep f)),
  )

  Adds-add_edges :
      (name : String) (deps : List String) (n : ℕ) (g : DependencyGraph)
      → waiting g x ≡ left n
      → Holds
          (Adds
            (if name == x then length deps + n else n)
            (if name == x then count f deps else 0)
            g)
          (add_edges name deps g)
  unfolding add_edges Adds
  Adds-add_edges name [] n g e = holds (refl, ground (arith, e), ground arith)
  Adds-add_edges name (dep ∷ deps) n g e =
      let (b, w, c) = Adds-with_edge name dep n g e in
      Holds-if (unknown_dependency name dep) (is_some (lookup dep g.by_name)) λ known.
        Holds-map
          (λ g' (b', w', c'). (b' ∙ b, w' ∙ ap left (ground arith), c' ∙ rw c (ground arith)))
          (Adds-add_edges name deps (if name == x then suc n else n) (with_edge name dep g) w)

  Adds-add_steps :
      (steps : List Step) (n : ℕ) (g : DependencyGraph)
      → waiting g x ≡ left n
      → Holds (Adds (tally length x steps + n) (tally (count f) x steps) g) (add_steps steps g)
  unfolding add_steps Adds
  Adds-add_steps [] n g e = holds (refl, ground (arith, e), omega arith)
  Adds-add_steps (s ∷ steps) n g e =
      Holds-bind (add_steps steps)
        (λ g₁ (b, w, c).
          Holds-map
            (λ g₂ (b', w', c'). (b' ∙ b, w' ∙ ap left (ground arith), c' ∙ rw c (ground arith)))
            (Adds-add_steps steps (if s.name == x then length s.depends_on + n else n) g₁ w))
        (Adds-add_edges s.name s.depends_on n g e)

pub is_some-found :
    (x : String) (steps : List Step) → is_some (found x steps) ≡ contains (names steps) x
is_some-found x [] = refl
is_some-found x (s ∷ steps) = ground (arith, is_some-found x steps)

none_before :
    (x : String) (s : Step) (steps : List Step) (m : Map Step)
    → is_some (lookup s.name m) ≡ false
    → (contains (names steps) x ≡ true → lookup x (insert s.name s m) ≡ none)
    → contains (names (s ∷ steps)) x ≡ true
    → lookup x m ≡ none
none_before x s steps m fresh a h = elim (Option-cases (lookup x m)) [
  | inl n ↦ n
  | inr (t, q) ↦ elim (Bool-cases (s.name == x)) [
    | inl e ↦ absurd (ground (arith, fresh, q, ap is_some q, e, eq_iff s.name x))
    | inr e ↦ ground (arith, a, h, e, lookup-insert s.name x s m)
  ]
]

-- The step that a write adds is the first of its name, where none follows.
first_of-insert :
    (x : String) (s : Step) (steps : List Step) (m : Map Step)
    → (contains (names steps) x ≡ true → lookup x (insert s.name s m) ≡ none)
    → first_of (found x steps) (lookup x (insert s.name s m))
      ≡ first_of (found x (s ∷ steps)) (lookup x m)
first_of-insert x s steps m a = elim (Option-cases (found x steps)) [
  | inl n ↦ rw (n, lookup-insert s.name x s m) (ground arith)
  | inr (t, q) ↦
      let c = sym (is_some-found x steps) ∙ ap is_some q in
      rw q (ground (arith, sym (lookup-insert s.name x s m) ∙ a c))
]

first_of-none : (o : Option Step) → first_of o none ≡ o
first_of-none none = refl
first_of-none (some s) = refl

-- The first loop, at one name.
module _ (x : String) where
  Enters : List Step → DependencyGraph → DependencyGraph → Type 0
  Enters steps g g' =
      (contains (names steps) x ≡ true → lookup x g.by_name ≡ none)
      × (lookup x g'.by_name ≡ first_of (found x steps) (lookup x g.by_name))
      × (waiting g x ≡ left 0 → waiting g' x ≡ left 0)
      × (g'.unblocks ≡ g.unblocks)

  Enters-index_steps :
      (g : DependencyGraph) (steps : List Step) → Holds (Enters steps g) (index_steps g steps)
  unfolding index_steps Enters
  Enters-index_steps g [] = holds ((λ e. absurd (false≢true e)), refl, (λ e. e), refl)
  Enters-index_steps g (s ∷ steps) =
      Holds-if_not (duplicate_step s.name) (is_some (lookup s.name g.by_name)) λ fresh.
        Holds-map
          (λ g' (a, b, c, d). (
            none_before x s steps g.by_name fresh a,
            b ∙ first_of-insert x s steps g.by_name a,
            (λ e. c (rw (lookup-insert s.name x (left 0) g.waiting_on) (ground (arith, e)))),
            d,
          ))
          (Enters-index_steps
            (record g {
              by_name = insert s.name s g.by_name;
              waiting_on = insert s.name (left 0) g.waiting_on;
            })
            steps)

contains-fresh :
    (s : Step) (steps : List Step) (m : Map Step)
    → (contains (names steps) s.name ≡ true → lookup s.name (insert s.name s m) ≡ none)
    → contains (names steps) s.name ≡ false
contains-fresh s steps m a = elim (Bool-cases (contains (names steps) s.name)) [
  | inl c ↦ absurd (ground (arith, a c, lookup-insert s.name s.name s m, eq_refl s.name))
  | inr c ↦ c
]

Distinct-index_steps :
    (g : DependencyGraph) (steps : List Step)
    → Holds (λ g'. Distinct (names steps)) (index_steps g steps)
unfolding index_steps Distinct Enters
Distinct-index_steps g [] = holds tt
Distinct-index_steps g (s ∷ steps) =
    let g₁ = record g {
      by_name = insert s.name s g.by_name;
      waiting_on = insert s.name (left 0) g.waiting_on;
    } in
    Holds-if_not (duplicate_step s.name) (is_some (lookup s.name g.by_name)) λ fresh.
      Holds-map (λ g' ((a, b, c, e), d). (contains-fresh s steps g.by_name a, d))
        (Holds-both (Enters-index_steps s.name g₁ steps) (Distinct-index_steps g₁ steps))

-- A graph that newDependencyGraph returns is indexed.
pub new_dependency_graph-Indexed :
    (dag : Dag) → Holds (Indexed dag.steps) (new_dependency_graph dag)
unfolding new_dependency_graph Indexed Enters Adds lookup
new_dependency_graph-Indexed dag =
    Holds-bind (add_steps dag.steps)
      (λ g (entered, distinct).
        Holds-map
          (λ g' adds. (
            distinct,
            (λ x. (adds x x).0 ∙ (entered x).1 ∙ first_of-none (found x dag.steps)),
            (λ x. (adds x x).1 ∙ ap left (omega arith)),
            λ x f. (adds x f).2 ∙ rw ((entered x).3) (omega arith),
          ))
          (Holds-all (add_steps dag.steps g) λ x.
            Holds-all (add_steps dag.steps g)
              λ f. Adds-add_steps x f dag.steps 0 g ((entered x).2 refl)))
      (Holds-both
        (Holds-all (index_steps empty_graph dag.steps)
          (λ x. Enters-index_steps x empty_graph dag.steps))
        (Distinct-index_steps empty_graph dag.steps))

-- The first loop knows the names of the steps.
pub index_steps-Knows :
    (steps : List Step)
    → Holds
        (λ g. (x : String) → is_some (lookup x g.by_name) ≡ contains (names steps) x)
        (index_steps empty_graph steps)
unfolding Enters lookup
index_steps-Knows steps =
    Holds-map
      (λ g entered x.
        ap is_some ((entered x).1 ∙ first_of-none (found x steps)) ∙ is_some-found x steps)
      (Holds-all (index_steps empty_graph steps) (λ x. Enters-index_steps x empty_graph steps))

tally-absent :
    (h : List String → ℕ) (x : String) (steps : List Step)
    → contains (names steps) x ≡ false
    → tally h x steps ≡ 0
tally-absent h x [] new = refl
tally-absent h x (s ∷ steps) new = ground (arith, tally-absent h x steps, eq_iff s.name x, new)

tally_own-cons :
    (h : List String → ℕ) (s : Step) (steps part : List Step)
    → contains (names part) s.name ≡ false
    → All (λ t. tally h t.name steps ≡ h t.depends_on) part
    → All (λ t. tally h t.name (s ∷ steps) ≡ h t.depends_on) part
tally_own-cons h s steps [] new own = tt
tally_own-cons h s steps (t ∷ part) new (o, own) = (
  ground (arith, o, new, eq_iff s.name t.name, eq_iff t.name s.name),
  tally_own-cons h s steps part (ground (arith, new)) own,
)

-- Where the names are distinct, what a name sums to is what its step has.
pub tally_own :
    (h : List String → ℕ) (steps : List Step)
    → Distinct (names steps)
    → All (λ t. tally h t.name steps ≡ h t.depends_on) steps
unfolding Distinct
tally_own h [] d = tt
tally_own h (s ∷ steps) (new, d) = (
  ground (arith, eq_refl s.name, tally-absent h s.name steps new),
  tally_own-cons h s steps steps new (tally_own h steps d),
)
