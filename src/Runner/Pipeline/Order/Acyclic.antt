-- ===== src/Runner/Pipeline/Order/Acyclic.antt =====
-- orderSteps rejects only graphs with a cycle.
use tie.Prelude.{
  ℕ, zero, suc, ◌+◌, ◌≡◌, ◌<◌, refl, sym, ap, ◌∙◌, true, some, List, [], ◌∷◌, if◌then◌else◌, nat_eq,
  nat_beq, nat_beq_iff, list_eq, list_beq_iff, ◌==◌, inl, inr, is_some, arith, Bool-cases,
  Option-cases, length, All,
}
use mathlib.Core.Path.{subst}
use tie.Prelude.GoMap
use tie.Tiedb.Triples.{Bytes}
use tie.Compose.{Dependency, dependencies}
use tie.Runner.Pipeline.{names, PipelineStep}
use tie.Runner.Pipeline.Rerun.{has}
use tie.Runner.Pipeline.Order.{Steps, job_steps, Ordering, order_steps}
use tie.Runner.Pipeline.Order.Degrees.{count, left, open_edges}
use tie.Runner.Pipeline.Order.Follows.{Among}
use tie.Runner.Pipeline.Order.Sorts.{distinct, AllResolved, Sorted, get_job, has_not-count}
use tie.Runner.Pipeline.Order.Succeeds.{
  order_steps-Drained, order_steps-checked, count-length, checked,
}

-- A rank that falls along every dependency: the graph has no cycle.
abbrev pub IsRanked : (Bytes → ℕ) → List PipelineStep → Type 0
IsRanked rank steps =
    All
      (λ (s : PipelineStep).
        All (λ (d : Dependency). rank d.0 < rank s.name) (dependencies s.inputs))
      steps

open_none :
    (rank : Bytes → ℕ) (jobs : Steps) (set : List Bytes) (k : ℕ) (deps : List Dependency)
    → All (λ (d : Dependency). rank d.0 < k) deps
    → ((d : Bytes) → rank d < k → is_some (GoMap.get jobs d) ≡ true → has set d ≡ true)
    → open_edges jobs set deps ≡ 0
open_none rank jobs set k [] lower done = refl
open_none rank jobs set k ((d, required) ∷ deps) lower done =
    ground (arith, done d lower.0, open_none rank jobs set k deps lower.1 done)

left_none :
    (rank : Bytes → ℕ) (jobs : Steps) (set : List Bytes) (x : Bytes) (steps : List PipelineStep)
    → IsRanked rank steps
    → ((d : Bytes) → rank d < rank x → is_some (GoMap.get jobs d) ≡ true → has set d ≡ true)
    → left jobs steps set x ≡ 0
left_none rank jobs set x [] r done = refl
left_none rank jobs set x (s ∷ steps) r done = elim (Bool-cases (s.name == x)) [
  | inr e ↦ ground (arith, e, left_none rank jobs set x steps r.1 done)
  | inl e ↦
      let same = (list_beq_iff s.name x).0 e in
      let here =
        open_none rank jobs set (rank s.name) (dependencies s.inputs) r.0
          (λ d low job. done d (subst (λ (y : Bytes). rank d < rank y) same low) job) in
      ground (arith, e, here, left_none rank jobs set x steps r.1 done)
]

Among-count :
    (steps : List PipelineStep) (s : PipelineStep) (x : Bytes)
    → Among steps s
    → s.name ≡ x
    → 0 < count (names steps) x
Among-count [] s x (i, e) f = absurd (cc e)
Among-count (t ∷ steps) s x (zero, e) f =
    let same : t ≡ s = cc e in
    let named : t.name ≡ x = ap (λ (u : PipelineStep). u.name) same ∙ f in
    ground (arith, (list_beq_iff t.name x).1 named)
Among-count (t ∷ steps) s x (suc i, e) f = omega (arith, Among-count steps s x (i, e) f)

-- With an empty frontier, every name of a rank below n is in order as often as it is requested.
all_in_order :
    (rank : Bytes → ℕ) (steps before : List PipelineStep) (q : Ordering)
    → IsRanked rank steps
    → Sorted steps before [] q
    → (n : ℕ) (x : Bytes) → rank x < n
    → count (names q.ordered) x ≡ count (names steps) x
all_in_order rank steps before q r g zero x low = absurd (omega arith)
all_in_order rank steps before q r g (suc n) x low =
    let jobs = job_steps steps [] in
    let closed = left_none rank jobs (names q.ordered) x steps r (λ d below job.
      present d (all_in_order rank steps before q r g n d (omega (arith, below, low))) job) in
    finish (left jobs steps (names q.ordered) x) (count (names q.ordered) x) (count (names steps) x)
      closed (g.balanced x).once
  where
    present :
        (d : Bytes)
        → count (names q.ordered) d ≡ count (names steps) d
        → is_some (GoMap.get (job_steps steps []) d) ≡ true
        → has (names q.ordered) d ≡ true
    present d same job = elim (Option-cases (GoMap.get (job_steps steps []) d)) [
      | inl e ↦ absurd (cc (job, e))
      | inr found ↦
          let s = get_job steps d found.0 found.1 in
          let some_step = Among-count steps found.0 d s.1 s.0 in
          elim (Bool-cases (has (names q.ordered) d)) [
            | inl there ↦ there
            | inr missing ↦
                absurd (omega (arith, some_step, same, has_not-count (names q.ordered) d missing))
          ]
    ]

    finish : (k c w : ℕ) → k ≡ 0 → 0 + c ≡ (if nat_beq k 0 then w else 0) → c ≡ w
    finish k c w e f = ground (arith, e, f)

length-names : (steps : List PipelineStep) → length (names steps) ≡ length steps
length-names [] = refl
length-names (s ∷ steps) = ap suc (length-names steps)

-- Where no two steps share a name, every dependency is a step or was given before, and the graph has
-- no cycle, an order is found.
pub order_steps_succeeds :
    (rank : Bytes → ℕ) (steps before : List PipelineStep)
    → distinct steps ≡ true
    → AllResolved steps before
    → IsRanked rank steps
    → (ordered : List PipelineStep) × (order_steps steps (job_steps steps []) ≡ inr ordered)
order_steps_succeeds rank steps before apart resolved r =
    let d = order_steps-Drained steps before apart resolved in
    let full : length d.q.ordered ≡ length steps = elim d.ended [
      | inr used ↦ omega (arith, used)
      | inl empty ↦
          let g = subst (λ (rest : List Bytes). Sorted steps before rest d.q) empty d.sorted in
          sym (length-names d.q.ordered)
          ∙ count-length (names d.q.ordered) (names steps)
              (λ x. all_in_order rank steps before d.q r g (suc (rank x)) x (omega arith))
          ∙ length-names steps
    ] in
    (d.q.ordered, order_steps-checked steps ∙ ap (checked steps) d.result ∙ complete d.q full)
  where
    complete :
        (q : Ordering) → length q.ordered ≡ length steps → checked steps (some q) ≡ inr q.ordered
    complete q e = unfold checked in rw ((nat_beq_iff (length q.ordered) (length steps)).1 e) refl
