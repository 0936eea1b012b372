-- ===== src/Runner/Pipeline/Order/Succeeds.antt =====
-- orderSteps succeeds on a graph without a cycle, and its order follows the dependencies.
use tie.Prelude.{
  ℕ, suc, ◌+◌, ◌≡◌, ◌≤◌, ◌<◌, refl, sym, ap, ◌∙◌, Bool, true, false, Option, none, some, List, [],
  ◌∷◌, if◌then◌else◌, nat_eq, nat_beq, nat_beq_iff, list_eq, list_beq_iff, ◌==◌, ◌⊎◌, inl, inr,
  arith, length, All,
}
use mathlib.Core.Path.{subst}
use tie.Prelude.GoMap
use tie.Prelude.Int.{pos, int_eq}
use tie.Tiedb.Triples.{Bytes}
use tie.Runner.Pipeline.{names, PipelineStep}
use tie.Runner.Pipeline.Advance.Ordered.{InOrder}
use tie.Runner.Pipeline.Rerun.{names_under}
use tie.Runner.Pipeline.Order.{
  job_steps, Graph, edges_of, no_edges, frontier, degree, Ordering, drain_ready, order_steps,
  OrderError, nil_pointer, cycle, stuck,
}
use tie.Runner.Pipeline.Order.Degrees.{
  count, between, left, degree-edges_of, count-edges_of, degree-no_edges,
}
use tie.Runner.Pipeline.Order.Sorts.{
  distinct, AllResolved, Sorted, Drained, drain_ready-Drained, count-frontier, IsPending,
}

pub graph_of : List PipelineStep → Graph
graph_of steps =
    edges_of (job_steps steps []) steps
      (record { indegree = no_edges (job_steps steps []); dependents = [] })

degree-graph_of :
    (steps : List PipelineStep) (x : Bytes)
    → degree (graph_of steps).indegree x ≡ pos (left (job_steps steps []) steps [] x)
unfolding graph_of
degree-graph_of steps x =
    let jobs = job_steps steps [] in
    degree-edges_of jobs steps (record { indegree = no_edges jobs; dependents = [] }) x 0
      (degree-no_edges jobs x)
    ∙ ap pos (omega arith)

count-graph_of :
    (steps : List PipelineStep) (d x : Bytes)
    → count (names_under (graph_of steps).dependents d) x ≡ between (job_steps steps []) steps d x
unfolding graph_of names_under GoMap.get
count-graph_of steps d x =
    let jobs = job_steps steps [] in
    count-edges_of jobs steps (record { indegree = no_edges jobs; dependents = [] }) d x
    ∙ omega arith

-- The state in which the main loop starts.
pub start_of : List PipelineStep → Ordering
start_of steps = record { indegree = (graph_of steps).indegree; ordered = [] }

Sorted-start_of :
    (steps before : List PipelineStep)
    → Sorted steps before (frontier (graph_of steps).indegree steps) (start_of steps)
unfolding start_of
Sorted-start_of steps before = record {
  balanced = λ x. record {
    degrees = degree-graph_of steps x;
    once =
        let c = count-frontier (graph_of steps).indegree steps x _ (degree-graph_of steps x) in
        omega (arith, c);
  };
  in_order = tt;
  reset = tt;
}

pub order_steps-Drained :
    (steps before : List PipelineStep)
    → distinct steps ≡ true
    → AllResolved steps before
    → Drained steps before (length steps) 0 (
        drain_ready
          (length steps)
          (job_steps steps [])
          (graph_of steps).dependents
          (frontier (graph_of steps).indegree steps)
          (start_of steps))
unfolding start_of
order_steps-Drained steps before apart resolved =
    drain_ready-Drained steps before (graph_of steps).dependents (length steps)
      (frontier (graph_of steps).indegree steps) (start_of steps) apart resolved
      (count-graph_of steps) (Sorted-start_of steps before)

-- The last test of orderSteps.
unfoldable pub checked : List PipelineStep → Option Ordering → OrderError ⊎ List PipelineStep
checked steps none = inl nil_pointer
checked steps (some o) =
    if nat_beq (length o.ordered) (length steps)
    then inr o.ordered
    else inl (cycle (stuck o.indegree))

pub order_steps-checked :
    (steps : List PipelineStep)
    → order_steps steps (job_steps steps [])
      ≡ checked steps (
          drain_ready
            (length steps)
            (job_steps steps [])
            (graph_of steps).dependents
            (frontier (graph_of steps).indegree steps)
            (start_of steps))
unfolding order_steps graph_of start_of
order_steps-checked steps = by_result (drain_ready (length steps) _ _ _ _)
  where
    by_result :
        (r : Option Ordering)
        → elim r as (λ _. OrderError ⊎ List PipelineStep) [
          | none ↦ inl nil_pointer
          | some o ↦
              if nat_beq (length o.ordered) (length steps)
              then inr o.ordered
              else inl (cycle (stuck o.indegree))
        ]
          ≡ checked steps r
    by_result none = unfold checked in refl
    by_result (some o) = unfold checked in refl

checked-inr :
    (steps : List PipelineStep) (q : Ordering) (ordered : List PipelineStep)
    → checked steps (some q) ≡ inr ordered
    → (q.ordered ≡ ordered) × (length q.ordered ≡ length steps)
unfolding checked
checked-inr steps q ordered e = by_test (nat_beq (length q.ordered) (length steps)) refl e
  where
    by_test :
        (b : Bool)
        → nat_beq (length q.ordered) (length steps) ≡ b
        → (if◌then◌else◌ {A = OrderError ⊎ List PipelineStep} b
            (inr q.ordered)
            (inl (cycle (stuck q.indegree))))
          ≡ inr ordered
        → (q.ordered ≡ ordered) × (length q.ordered ≡ length steps)
    by_test true t e = (cc e, (nat_beq_iff _ _).0 t)
    by_test false t e = absurd (cc e)

-- Where no two steps share a name, and every dependency is a step or was given before, an order that
-- is found has as many steps as the request, none more often than the request has it; all are pending,
-- and each follows the steps that it depends on.
pub order_steps-InOrder :
    (steps before ordered : List PipelineStep) (x : Bytes)
    → distinct steps ≡ true
    → AllResolved steps before
    → order_steps steps (job_steps steps []) ≡ inr ordered
    → InOrder before ordered
      × (length ordered ≡ length steps)
      × (count (names ordered) x ≤ count (names steps) x)
      × All IsPending ordered
order_steps-InOrder steps before ordered x apart resolved e =
    let d = order_steps-Drained steps before apart resolved in
    let found =
      checked-inr steps d.q ordered
        (sym (ap (checked steps) d.result) ∙ sym (order_steps-checked steps) ∙ e) in
    let balance = (d.sorted.balanced x).once in
    let open_now = left (job_steps steps []) steps (names d.q.ordered) x in
    let few : count (names d.q.ordered) x ≤ count (names steps) x =
      at_most open_now (count d.rest x) _ _ balance in
    (
      subst (InOrder before) found.0 d.sorted.in_order,
      sym (ap length found.0) ∙ found.1,
      subst (λ (q : List PipelineStep). count (names q) x ≤ count (names steps) x) found.0 few,
      subst (All IsPending) found.0 d.sorted.reset,
    )
  where
    at_most : (k r c w : ℕ) → r + c ≡ (if nat_beq k 0 then w else 0) → c ≤ w
    at_most k r c w e = ground (arith, e)

-- Takes one occurrence of a name out.
abbrev without : Bytes → List Bytes → List Bytes
without x [] = []
without x (n ∷ ns) = if n == x then ns else n ∷ without x ns

count-without :
    (x z : Bytes) (ns : List Bytes)
    → 0 < count ns x
    → count ns z ≡ (if x == z then 1 else 0) + count (without x ns) z
count-without x z [] h = absurd (omega arith)
count-without x z (n ∷ ns) h =
    ground (arith, h, count-without x z ns, list_beq_iff n x, list_beq_iff x z, list_beq_iff n z)

length-without :
    (x : Bytes) (ns : List Bytes) → 0 < count ns x → length ns ≡ suc (length (without x ns))
length-without x [] h = absurd (omega arith)
length-without x (n ∷ ns) h = ground (arith, h, length-without x ns)

pub count-length :
    (xs ys : List Bytes) → ((x : Bytes) → count xs x ≡ count ys x) → length xs ≡ length ys
count-length [] [] h = refl
count-length [] (y ∷ ys) h = absurd (ground (arith, h y, list_beq_iff y y))
count-length (x ∷ xs) ys h =
    let here : 0 < count ys x = ground (arith, h x, list_beq_iff x x) in
    let rest =
      count-length xs (without x ys)
        (λ z. let a = h z in let b = count-without x z ys here in omega (arith, a, b)) in
    let longer = length-without x ys here in omega (arith, rest, longer)
