-- ===== src/Runner/Pipeline/Order/Sorts.antt =====
-- orderSteps gives an order in which every step follows those that it depends on.
use tie.Prelude.{
  ℕ, zero, suc, ◌+◌, ◌≡◌, ◌≤◌, ◌<◌, refl, sym, ap, ◌∙◌, Bool, true, false, Option, none, some, List,
  [], ◌∷◌, ◌++◌, if◌then◌else◌, nat_eq, nat_beq, list_eq, list_beq_iff, ◌==◌, not, ◌&&◌, ◌⊎◌, inl,
  inr, is_some, arith, Bool-cases, length, All, length-append,
}
use mathlib.Core.Path.{subst}
use tie.Prelude.GoMap
use tie.Prelude.Int.{ℤ, pos, int_eq}
use tie.Tiedb.Triples.{Bytes}
use tie.Compose.{dependencies}
use tie.Runner.Pipeline.{names, pending, PipelineStep}
use tie.Runner.Pipeline.Advance.Ordered.{InOrder}
use tie.Runner.Pipeline.Rerun.{has, names_under}
use tie.Runner.Pipeline.Order.{Steps, job_steps, frontier, degree, lower, Ordering, drain_ready}
use tie.Runner.Pipeline.Order.Degrees.{count, between, left, left_snoc}
use tie.Runner.Pipeline.Order.Drains.{Balanced, round_lem}
use tie.Runner.Pipeline.Order.Follows.{
  names-append, Among, All-Among, get-job_steps, job_steps-some, left_zero, Resolved, closed_Before,
  InOrder-snoc,
}

-- No two steps of a name.
abbrev pub distinct : List PipelineStep → Bool
distinct [] = true
distinct (s ∷ steps) = not (has (names steps) s.name) && distinct steps

pub has_not-count : (set : List Bytes) (x : Bytes) → has set x ≡ false → count set x ≡ 0
unfolding has
has_not-count [] x h = refl
has_not-count (n ∷ set) x h = ground (arith, h, has_not-count set x)

pub distinct-count :
    (steps : List PipelineStep) (x : Bytes) → distinct steps ≡ true → count (names steps) x ≤ 1
distinct-count [] x h = omega arith
distinct-count (s ∷ steps) x h =
    let rest = distinct-count steps x (ground (arith, h)) in
    let apart : has (names steps) s.name ≡ false = ground (arith, h) in
    let none_later = has_not-count (names steps) s.name apart in
    elim (Bool-cases (s.name == x)) [
      | inr e ↦ ground (arith, e, rest)
      | inl e ↦
          let same = (list_beq_iff s.name x).0 e in
          let none_here : count (names steps) x ≡ 0 =
            ap (count (names steps)) (sym same) ∙ none_later in
          ground (arith, e, none_here)
    ]

-- Every dependency of a step is a job step or was given before.
abbrev pub AllResolved : List PipelineStep → List PipelineStep → Type 0
AllResolved steps before =
    All (λ (s : PipelineStep). All (Resolved (job_steps steps []) before) (dependencies s.inputs))
      steps

pub has-count : (set : List Bytes) (x : Bytes) → count set x ≡ 0 → has set x ≡ false
unfolding has
has-count [] x h = refl
has-count (n ∷ set) x h = ground (arith, h, has-count set x)

left-count :
    (jobs : Steps) (steps : List PipelineStep) (set : List Bytes) (x : Bytes)
    → 0 < left jobs steps set x
    → 0 < count (names steps) x
left-count jobs [] set x h = absurd (omega arith)
left-count jobs (s ∷ steps) set x h = ground (arith, h, left-count jobs steps set x)

pub get_job :
    (steps : List PipelineStep) (n : Bytes) (s : PipelineStep)
    → GoMap.get (job_steps steps []) n ≡ some s
    → (s.name ≡ n) × Among steps s
get_job steps n s e = elim (get-job_steps steps [] n s e) [
  | inl found ↦ found
  | inr f ↦ absurd (unfold GoMap.get in cc f)
]

abbrev pub IsPending : PipelineStep → Type 0
IsPending s = s.status ≡ pending

All-snoc :
    (xs : List PipelineStep) (t : PipelineStep)
    → All IsPending xs
    → IsPending t
    → All IsPending (xs ++ t ∷ [])
All-snoc [] t h e = (e, tt)
All-snoc (x ∷ xs) t h e = (h.0, All-snoc xs t h.1 e)

-- What holds between two rounds, of every name, and of the steps in order.
pub record Sorted (steps before : List PipelineStep) (ready : List Bytes) (o : Ordering)
    : Type 0 where
  pub balanced :
      (x : Bytes)
      → Balanced
          (left (job_steps steps []) steps (names o.ordered) x)
          (count (names steps) x)
          o.indegree
          ready
          (names o.ordered)
          x
  pub in_order : InOrder before o.ordered
  pub reset : All IsPending o.ordered

-- The first name of the frontier is a step that is not in order, without an open edge.
first_ready :
    (k w r c : ℕ) → w ≤ 1 → suc r + c ≡ (if nat_beq k 0 then w else 0) → (k ≡ 0) × (w ≡ 1) × (c ≡ 0)
first_ready k w r c h e = (ground (arith, h, e), ground (arith, h, e), ground (arith, h, e))

Sorted-round :
    (steps before : List PipelineStep) (below : List (Bytes × List Bytes)) (n : Bytes)
    (ready : List Bytes) (o : Ordering) (s : PipelineStep)
    → distinct steps ≡ true
    → AllResolved steps before
    → ((d x : Bytes) → count (names_under below d) x ≡ between (job_steps steps []) steps d x)
    → GoMap.get (job_steps steps []) n ≡ some s
    → Sorted steps before (n ∷ ready) o
    → let next = lower (names_under below n) o.indegree ready in
      Sorted steps before next.1 (record {
        indegree = next.0;
        ordered =
            o.ordered ++ (record s { ordinal = pos (length o.ordered); status = pending }) ∷ [];
      })
Sorted-round steps before below n ready o s apart resolved edges found g =
    let jobs = job_steps steps [] in
    let set = names o.ordered in
    let t : PipelineStep = record s { ordinal = pos (length o.ordered); status = pending } in
    let at_n = (g.balanced n).once in
    let one : count (n ∷ ready) n ≡ suc (count ready n) = ground (arith, list_beq_iff n n) in
    let first =
      first_ready (left jobs steps set n) (count (names steps) n) (count ready n) (count set n)
        (distinct-count steps n apart) (ap (λ c. c + count set n) (sym one) ∙ at_n) in
    let fresh = has-count set n first.2 in
    let from = get_job steps n s found in
    let named : names (o.ordered ++ t ∷ []) ≡ set ++ n ∷ [] =
      names-append o.ordered (t ∷ []) ∙ ap (λ (m : Bytes). set ++ m ∷ []) from.0 in
    record {
      balanced = λ x.
          subst
            (λ (ns : List Bytes).
              Balanced (left jobs steps ns x) (count (names steps) x)
                (lower (names_under below n) o.indegree ready).0
                (lower (names_under below n) o.indegree ready).1 ns x)
            (sym named)
            (round_lem (left jobs steps (set ++ n ∷ []) x) (between jobs steps n x)
              (count (names steps) x) n (names_under below n) o.indegree ready set x (edges n x)
              (λ more.
                let some_step =
                  left-count jobs steps set x
                    (omega (arith, more, left_snoc jobs steps set n x fresh)) in
                omega (arith, some_step, distinct-count steps x apart))
              (subst (λ k. Balanced k (count (names steps) x) o.indegree (n ∷ ready) set x)
                (left_snoc jobs steps set n x fresh) (g.balanced x)));
      in_order = InOrder-snoc before o.ordered t g.in_order (
          closed_Before jobs before o.ordered (dependencies s.inputs)
            (left_zero jobs steps set n s first.0 from.0 from.1)
            (All-Among (λ (u : PipelineStep). All (Resolved jobs before) (dependencies u.inputs))
              steps s resolved from.1));
      reset = All-snoc o.ordered t g.reset refl;
    }

-- The end of the loop: the frontier is empty, or the fuel is used up.
pub record Drained (steps before : List PipelineStep) (n done : ℕ) (r : Option Ordering)
    : Type 0 where
  pub q : Ordering
  pub rest : List Bytes
  pub result : r ≡ some q
  pub sorted : Sorted steps before rest q
  pub ended : (rest ≡ []) ⊎ (length q.ordered ≡ n + done)

pub drain_ready-Drained :
    (steps before : List PipelineStep) (below : List (Bytes × List Bytes)) (n : ℕ)
    (ready : List Bytes) (o : Ordering)
    → distinct steps ≡ true
    → AllResolved steps before
    → ((d x : Bytes) → count (names_under below d) x ≡ between (job_steps steps []) steps d x)
    → Sorted steps before ready o
    → Drained steps before n (length o.ordered) (drain_ready n (job_steps steps []) below ready o)
unfolding drain_ready
drain_ready-Drained steps before below zero [] o apart resolved edges g = record {
  q = o;
  rest = [];
  result = refl;
  sorted = g;
  ended = inl refl;
}
drain_ready-Drained steps before below (suc n) [] o apart resolved edges g = record {
  q = o;
  rest = [];
  result = refl;
  sorted = g;
  ended = inl refl;
}
drain_ready-Drained steps before below zero (name ∷ ready) o apart resolved edges g = record {
  q = o;
  rest = name ∷ ready;
  result = refl;
  sorted = g;
  ended = inr (omega arith);
}
drain_ready-Drained steps before below (suc n) (name ∷ ready) o apart resolved edges g =
    by_found (GoMap.get (job_steps steps []) name) refl (λ s found.
      drain_ready-Drained steps before below n _ _ apart resolved edges
        (Sorted-round steps before below name ready o s apart resolved edges found g))
  where
    there : is_some (GoMap.get (job_steps steps []) name) ≡ true
    there =
        let at = (g.balanced name).once in
        let one : count (name ∷ ready) name ≡ suc (count ready name) =
          ground (arith, list_beq_iff name name) in
        job_steps-some steps [] name (inl (ground (arith, at, one)))

    by_found :
        (j : Option PipelineStep)
        → GoMap.get (job_steps steps []) name ≡ j
        → let next = lower (names_under below name) o.indegree ready in
          ((s : PipelineStep)
            → GoMap.get (job_steps steps []) name ≡ some s
            → Drained steps before n
                (length (
                  o.ordered
                  ++ (record s { ordinal = pos (length o.ordered); status = pending }) ∷ []))
                (drain_ready n (job_steps steps []) below next.1 (record {
                  indegree = next.0;
                  ordered =
                      o.ordered
                      ++ (record s { ordinal = pos (length o.ordered); status = pending }) ∷ [];
                })))
          → Drained steps before (suc n) (length o.ordered) (elim j as (λ _. Option Ordering) [
            | none ↦ none
            | some s ↦ drain_ready n (job_steps steps []) below next.1 (record {
              indegree = next.0;
              ordered =
                  o.ordered
                  ++ (record s { ordinal = pos (length o.ordered); status = pending }) ∷ [];
            })
          ])
    by_found none e later = absurd (cc (there, e))
    by_found (some s) e later =
        let d = later s e in
        let longer =
          length-append o.ordered
            ((record s { ordinal = pos (length o.ordered); status = pending }) ∷ []) in
        record {
          q = d.q;
          rest = d.rest;
          result = d.result;
          sorted = d.sorted;
          ended = elim d.ended [ inl f ↦ inl f | inr f ↦ inr (omega (arith, f, longer)) ];
        }

pub count-frontier :
    (m : List (Bytes × ℤ)) (steps : List PipelineStep) (x : Bytes) (k : ℕ)
    → degree m x ≡ pos k
    → count (frontier m steps) x ≡ (if nat_beq k 0 then count (names steps) x else 0)
unfolding frontier
count-frontier m [] x k h = ground arith
count-frontier m (s ∷ steps) x k h =
    by_test (degree m s.name == pos 0) refl (count-frontier m steps x k h)
  where
    by_test :
        (b : Bool)
        → (degree m s.name == pos 0) ≡ b
        → count (frontier m steps) x ≡ (if nat_beq k 0 then count (names steps) x else 0)
        → count (if b then s.name ∷ frontier m steps else frontier m steps) x
          ≡ (if nat_beq k 0 then (if s.name == x then 1 else 0) + count (names steps) x else 0)
    by_test b e rest = elim (Bool-cases (s.name == x)) [
      | inl t ↦
          let same = (list_beq_iff s.name x).0 t in
          let test : b ≡ nat_beq k 0 =
            sym e ∙ ap (λ (y : Bytes). degree m y == pos 0) same ∙ ap (λ (z : ℤ). z == pos 0) h in
          ground (arith, t, test, rest)
      | inr t ↦ ground (arith, t, rest)
    ]
