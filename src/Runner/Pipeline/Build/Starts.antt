-- ===== src/Runner/Pipeline/Build/Starts.antt =====
-- A pipeline that is built can be advanced to its end.
use tie.Prelude.{
  ℕ, ◌≡◌, ◌<◌, refl, sym, ap, ◌∙◌, Bool, true, false, Option, none, some, List, [], ◌∷◌, ◌++◌,
  if◌then◌else◌, nat_eq, list_eq, ◌==◌, ◌||◌, ◌⊎◌, inl, inr, is_some, arith, Bool-cases, All,
  All-map,
}
use mathlib.Core.Path.{subst}
use mathlib.Core.List.{append_assoc, append-nil}
use tie.Tiedb.Triples.{Bytes}
use tie.Compose.{is_empty, Dependency, dependencies}
use tie.Runner.Pipeline.{Reason, names, PipelineStep, Pipeline, step}
use tie.Runner.Pipeline.Advance.{is_open}
use tie.Runner.Pipeline.Advance.Grows.{is_known}
use tie.Runner.Pipeline.Advance.Ordered.{InOrder, Known}
use tie.Runner.Pipeline.Rerun.{has}
use tie.Runner.Pipeline.Rerun.Graph.{has-append}
use tie.Runner.Pipeline.Order.{job_steps, OrderError, order_steps}
use tie.Runner.Pipeline.Order.Degrees.{count}
use tie.Runner.Pipeline.Order.Follows.{job_steps-some, Resolved}
use tie.Runner.Pipeline.Order.Sorts.{AllResolved, IsPending}
use tie.Runner.Pipeline.Order.Succeeds.{order_steps-InOrder}
use tie.Runner.Pipeline.Build.{
  PipelineRequest, BuildError, no_steps, order, check_seeds, seed_names, check_steps, check_inputs,
  insert_name, sort_names, seed_steps, name_le, names_known, check_request, assembled, build,
}
use tie.Runner.Pipeline.Build.Checks.{IsKnown, check_steps-distinct, check_inputs-IsKnown}

has-insert_name :
    (n : Bytes) (ns : List Bytes) (x : Bytes) → has (insert_name n ns) x ≡ ((n == x) || has ns x)
unfolding insert_name has
has-insert_name n [] x = refl
has-insert_name n (m ∷ ns) x = by_test (name_le n m) (has-insert_name n ns x)
  where
    by_test :
        (b : Bool)
        → has (insert_name n ns) x ≡ ((n == x) || has ns x)
        → has (if b then n ∷ m ∷ ns else m ∷ insert_name n ns) x
          ≡ ((n == x) || ((m == x) || has ns x))
    by_test true rest = refl
    by_test false rest = ground (arith, rest)

has-sort_names : (ns : List Bytes) (x : Bytes) → has (sort_names ns) x ≡ has ns x
unfolding sort_names has
has-sort_names [] x = refl
has-sort_names (n ∷ ns) x =
    has-insert_name n (sort_names ns) x ∙ ap (λ b. (n == x) || b) (has-sort_names ns x)

step-seed_steps :
    (now : ℕ) (seeds : List (Bytes × Bytes)) (ns : List Bytes) (x : Bytes)
    → has ns x ≡ true
    → is_some (step (seed_steps now seeds ns) x) ≡ true
unfolding seed_steps step has
step-seed_steps now seeds [] x h = absurd (cc h)
step-seed_steps now seeds (n ∷ ns) x h = by_test _ (n == x) h (step-seed_steps now seeds ns x)
  where
    by_test :
        (s : PipelineStep) (b : Bool)
        → (b || has ns x) ≡ true
        → (has ns x ≡ true → is_some (step (seed_steps now seeds ns) x) ≡ true)
        → is_some (if b then some s else step (seed_steps now seeds ns) x) ≡ true
    by_test s true h later = refl
    by_test s false h later = later h

has-count : (ns : List Bytes) (x : Bytes) → has ns x ≡ true → 0 < count ns x
unfolding has
has-count [] x h = absurd (cc h)
has-count (n ∷ ns) x h = ground (arith, h, has-count ns x)

-- A known name is that of a seed step or of a job step.
known-Resolved :
    (now : ℕ) (req : PipelineRequest) (d : Dependency)
    → IsKnown (names_known req) d
    → Resolved
        (job_steps req.steps [])
        (seed_steps now req.seeds (sort_names (seed_names req.seeds)))
        d
unfolding names_known
known-Resolved now req d h =
    let either = sym (has-append (seed_names req.seeds) (names req.steps) d.0) ∙ h in
    elim (Bool-cases (has (names req.steps) d.0)) [
      | inl there ↦
          let job = job_steps-some req.steps [] d.0 (inl (has-count (names req.steps) d.0 there)) in
          ground (arith, job)
      | inr other ↦
          let seed : has (seed_names req.seeds) d.0 ≡ true = ground (arith, either, other) in
          let found =
            step-seed_steps now req.seeds (sort_names (seed_names req.seeds)) d.0
              (has-sort_names (seed_names req.seeds) d.0 ∙ seed) in
          ground (arith, found)
    ]

seeds-InOrder :
    (now : ℕ) (seeds : List (Bytes × Bytes)) (ns : List Bytes) (before ordered : List PipelineStep)
    → InOrder (before ++ seed_steps now seeds ns) ordered
    → InOrder before (seed_steps now seeds ns ++ ordered)
unfolding seed_steps dependencies
seeds-InOrder now seeds [] before ordered h = subst (λ ss. InOrder ss ordered) (append-nil before) h
seeds-InOrder now seeds (n ∷ ns) before ordered h = (
  tt,
  seeds-InOrder now seeds ns (before ++ _ ∷ []) ordered (
      subst (λ ss. InOrder ss ordered)
        (sym (append_assoc before (_ ∷ []) (seed_steps now seeds ns))) h),
)

seeds-Known :
    (now : ℕ) (seeds : List (Bytes × Bytes)) (ns : List Bytes) (ordered : List PipelineStep)
    → All IsPending ordered
    → All Known (seed_steps now seeds ns ++ ordered)
unfolding seed_steps
seeds-Known now seeds [] ordered h = All-map IsPending Known ordered (λ s e. ap is_known e) h
seeds-Known now seeds (n ∷ ns) ordered h = (refl, seeds-Known now seeds ns ordered h)

-- What a request that passes all checks has shown.
check_request_passed :
    (validate_step : Bytes → Bytes → Option Reason) (req : PipelineRequest)
    → check_request validate_step req ≡ none
    → (check_steps validate_step (seed_names req.seeds) 0 req.steps ≡ none)
      × (check_inputs (names_known req) (job_steps req.steps []) ≡ none)
unfolding check_request
check_request_passed validate_step req e =
    by_test (is_empty req.steps) (check_seeds req.seeds)
      (check_steps validate_step (seed_names req.seeds) 0 req.steps) e
  where
    by_test :
        (b : Bool) (o u : Option BuildError)
        → (if◌then◌else◌ {A = Option BuildError} b
            (some no_steps)
            (elim o as (λ _. Option BuildError) [
              | some e ↦ some e
              | none ↦ elim u as (λ _. Option BuildError) [
                | some e ↦ some e
                | none ↦ check_inputs (names_known req) (job_steps req.steps [])
              ]
            ]))
          ≡ none
        → (u ≡ none) × (check_inputs (names_known req) (job_steps req.steps []) ≡ none)
    by_test true o u e = absurd (cc e)
    by_test false (some x) u e = absurd (cc e)
    by_test false none (some x) e = absurd (cc e)
    by_test false none none e = (refl, e)

built :
    (validate_step : Bytes → Bytes → Option Reason) (id : Bytes) (now : ℕ) (req : PipelineRequest)
    (manager : Bytes) (p : Pipeline)
    → build validate_step id now req manager ≡ inr p
    → (check_request validate_step req ≡ none)
      × ((ordered : List PipelineStep) × (order_steps req.steps (job_steps req.steps [])
            ≡ inr ordered)
          × (assembled id manager now req ordered ≡ p))
unfolding build
built validate_step id now req manager p e =
    by_test (check_request validate_step req) (order_steps req.steps (job_steps req.steps [])) e
  where
    by_test :
        (o : Option BuildError) (r : OrderError ⊎ List PipelineStep)
        → elim o as (λ _. BuildError ⊎ Pipeline) [
          | some e ↦ inl e
          | none ↦ elim r as (λ _. BuildError ⊎ Pipeline) [
            | inl e ↦ inl (order e)
            | inr ordered ↦ inr (assembled id manager now req ordered)
          ]
        ]
          ≡ inr p
        → (o ≡ none)
          × ((ordered : List PipelineStep) × (r ≡ inr ordered)
              × (assembled id manager now req ordered ≡ p))
    by_test (some x) r e = absurd (cc e)
    by_test none (inl x) e = absurd (cc e)
    by_test none (inr ordered) e = (refl, (ordered, refl, cc e))

-- A pipeline that is built is open, its steps have statuses of the engine, and each depends on steps
-- before it only, so that no dependency is ever missing.
pub build-InOrder :
    (validate_step : Bytes → Bytes → Option Reason) (id : Bytes) (now : ℕ) (req : PipelineRequest)
    (manager : Bytes) (p : Pipeline)
    → build validate_step id now req manager ≡ inr p
    → InOrder [] p.steps × All Known p.steps × (is_open p.status ≡ true)
unfolding assembled is_open
build-InOrder validate_step id now req manager p e =
    let b = built validate_step id now req manager p e in
    let checks = check_request_passed validate_step req b.0 in
    let apart = check_steps-distinct validate_step (seed_names req.seeds) 0 req.steps checks.0 in
    let seeds = seed_steps now req.seeds (sort_names (seed_names req.seeds)) in
    let resolved : AllResolved req.steps seeds =
      All-map (λ (s : PipelineStep). All (IsKnown (names_known req)) (dependencies s.inputs))
        (λ (s : PipelineStep).
          All (Resolved (job_steps req.steps []) seeds) (dependencies s.inputs))
        req.steps
        (λ s known.
          All-map (IsKnown (names_known req)) (Resolved (job_steps req.steps []) seeds)
            (dependencies s.inputs) (known-Resolved now req) known)
        (check_inputs-IsKnown (names_known req) req.steps apart checks.1) in
    let sorted = order_steps-InOrder req.steps seeds b.1.0 [] apart resolved b.1.1 in
    subst (λ (q : Pipeline). InOrder [] q.steps × All Known q.steps × (is_open q.status ≡ true))
      b.1.2
      (
        seeds-InOrder now req.seeds (sort_names (seed_names req.seeds)) [] b.1.0 sorted.0,
        seeds-Known now req.seeds (sort_names (seed_names req.seeds)) b.1.0 sorted.3,
        refl,
      )
