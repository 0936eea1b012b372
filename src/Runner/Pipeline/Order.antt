-- ===== src/Runner/Pipeline/Order.antt =====
-- runner/pipeline/pipeline.go: orderSteps, which puts the job steps of a request in an order in which
-- each follows those that it selects from. The names of a cycle are listed as the map has them.
pub mod Degrees
pub mod Drains
pub mod Follows
pub mod Sorts
pub mod Succeeds
pub mod Acyclic
use tie.Prelude.{
  ℕ, zero, suc, ◌≡◌, Bool, true, false, Option, none, some, List, [], ◌∷◌, ◌++◌, if◌then◌else◌,
  nat_eq, nat_beq, list_eq, ◌==◌, length, ◌⊎◌, inl, inr, is_some,
}
use tie.Prelude.GoMap
use tie.Prelude.Int.{ℤ, pos, negsuc, int_eq}
use tie.Tiedb.Triples.{Bytes}
use tie.Compose.{Dependency, dependencies}
use tie.Runner.Pipeline.{pending, PipelineStep}
use tie.Runner.Pipeline.Rerun.{names_under}

abbrev pub Steps : Type 0
Steps = List (Bytes × PipelineStep)

-- The map of a request's steps by name, as build fills it.
unfoldable pub job_steps : List PipelineStep → Steps → Steps
job_steps [] jobs = jobs
job_steps (s ∷ steps) jobs = job_steps steps (GoMap.put jobs s.name s)

-- Go's int, incremented and decremented.
abbrev pub increment : ℤ → ℤ
increment (pos n) = pos (suc n)
increment (negsuc zero) = pos 0
increment (negsuc (suc n)) = negsuc n

abbrev pub decrement : ℤ → ℤ
decrement (pos zero) = negsuc 0
decrement (pos (suc n)) = pos n
decrement (negsuc n) = negsuc (suc n)

-- A missing key reads as zero.
unfoldable pub degree : List (Bytes × ℤ) → Bytes → ℤ
degree m x = elim (GoMap.get m x) [ none ↦ pos 0 | some n ↦ n ]

pub record Graph : Type 0 where
  pub indegree : List (Bytes × ℤ)
  pub dependents : List (Bytes × List Bytes)

unfoldable pub no_edges : Steps → List (Bytes × ℤ)
no_edges [] = []
no_edges ((name, s) ∷ jobs) = GoMap.put (no_edges jobs) name (pos 0)

-- The edges of one step; a dependency that is no job step is a seed.
unfoldable pub add_edges : Steps → Bytes → List Dependency → Graph → Graph
add_edges jobs name [] g = g
add_edges jobs name ((d, required) ∷ deps) g = add_edges jobs name deps (
    if is_some (GoMap.get jobs d)
    then record {
      indegree = GoMap.put g.indegree name (increment (degree g.indegree name));
      dependents = GoMap.put g.dependents d (names_under g.dependents d ++ name ∷ []);
    }
    else g)

unfoldable pub edges_of : Steps → List PipelineStep → Graph → Graph
edges_of jobs [] g = g
edges_of jobs (s ∷ steps) g = edges_of jobs steps (add_edges jobs s.name (dependencies s.inputs) g)

-- The frontier, in the order of the request.
unfoldable pub frontier : List (Bytes × ℤ) → List PipelineStep → List Bytes
frontier m [] = []
frontier m (s ∷ steps) =
    let rest = frontier m steps in if degree m s.name == pos 0 then s.name ∷ rest else rest

-- The loop over what depends on a step that was put in order.
unfoldable pub lower : List Bytes → List (Bytes × ℤ) → List Bytes → List (Bytes × ℤ) × List Bytes
lower [] m ready = (m, ready)
lower (d ∷ names) m ready =
    let n = decrement (degree m d) in
    lower names (GoMap.put m d n) (if n == pos 0 then ready ++ d ∷ [] else ready)

-- The degrees and the steps put in order.
pub record Ordering : Type 0 where
  pub indegree : List (Bytes × ℤ)
  pub ordered : List PipelineStep

-- The main loop on fuel. A name without a job step would be a nil pointer: `none`.
unfoldable pub drain_ready :
    ℕ → Steps → List (Bytes × List Bytes) → List Bytes → Ordering → Option Ordering
drain_ready n jobs below [] o = some o
drain_ready zero jobs below (name ∷ ready) o = some o
drain_ready (suc n) jobs below (name ∷ ready) o =
    let next = lower (names_under below name) o.indegree ready in
    elim (GoMap.get jobs name) [
      | none ↦ none
      | some s ↦ drain_ready n jobs below next.1 (record {
        indegree = next.0;
        ordered =
            o.ordered ++ (record s { ordinal = pos (length o.ordered); status = pending }) ∷ [];
      })
    ]

is_positive : ℤ → Bool
is_positive (pos zero) = false
is_positive (pos (suc n)) = true
is_positive (negsuc n) = false

unfoldable pub stuck : List (Bytes × ℤ) → List Bytes
unfolding is_positive
stuck [] = []
stuck ((name, n) ∷ m) = let rest = stuck m in if is_positive n then name ∷ rest else rest

pub data OrderError : Type 0 where
  nil_pointer : OrderError
  cycle : List Bytes → OrderError

-- The fuel is the number of steps.
unfoldable pub order_steps : List PipelineStep → Steps → OrderError ⊎ List PipelineStep
order_steps steps jobs =
    let g = edges_of jobs steps (record { indegree = no_edges jobs; dependents = [] }) in
    let r =
      drain_ready (length steps) jobs g.dependents (frontier g.indegree steps)
        (record { indegree = g.indegree; ordered = [] }) in
    elim r [
      | none ↦ inl nil_pointer
      | some o ↦
          if nat_beq (length o.ordered) (length steps)
          then inr o.ordered
          else inl (cycle (stuck o.indegree))
    ]
