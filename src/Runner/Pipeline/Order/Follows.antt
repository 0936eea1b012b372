-- ===== src/Runner/Pipeline/Order/Follows.antt =====
-- What is known of a step whose edges are all closed.
use tie.Prelude.{
  ℕ, zero, suc, ◌+◌, ◌≡◌, ◌<◌, refl, sym, ap, ◌∙◌, Bool, true, false, some, List, [], ◌∷◌, ◌++◌,
  if◌then◌else◌, nat_eq, list_eq, list_beq_iff, ◌==◌, not, ◌&&◌, ◌||◌, ◌⊎◌, inl, inr, is_some,
  arith, get_elem?, All,
}
use mathlib.Core.Path.{subst}
use mathlib.Core.List.{append_assoc, append-nil}
use tie.Prelude.GoMap
use tie.Tiedb.Triples.{Bytes}
use tie.Compose.{Dependency, dependencies}
use tie.Runner.Pipeline.{names, PipelineStep, step}
use tie.Runner.Pipeline.Advance.Ordered.{Before, InOrder}
use tie.Runner.Pipeline.Rerun.{has}
use tie.Runner.Pipeline.Order.{Steps, job_steps}
use tie.Runner.Pipeline.Order.Degrees.{count, left, open_edges}

pub names-append : (xs ys : List PipelineStep) → names (xs ++ ys) ≡ names xs ++ names ys
names-append [] ys = refl
names-append (x ∷ xs) ys = ap (λ (ns : List Bytes). x.name ∷ ns) (names-append xs ys)

-- A step among others.
abbrev pub Among : List PipelineStep → PipelineStep → Type 0
Among steps s = (i : ℕ) × (get_elem? steps i ≡ some s)

pub All-Among {ℓ} :
    (P : PipelineStep → Type ℓ) (steps : List PipelineStep) (s : PipelineStep)
    → All P steps
    → Among steps s
    → P s
All-Among P [] s h (i, e) = absurd (cc e)
All-Among P (x ∷ steps) s h (zero, e) = let same : x ≡ s = cc e in subst P same h.0
All-Among P (x ∷ steps) s h (suc i, e) = All-Among P steps s h.1 (i, e)

pub get-job_steps :
    (steps : List PipelineStep) (jobs : Steps) (n : Bytes) (s : PipelineStep)
    → GoMap.get (job_steps steps jobs) n ≡ some s
    → ((s.name ≡ n) × Among steps s) ⊎ (GoMap.get jobs n ≡ some s)
unfolding job_steps
get-job_steps [] jobs n s e = inr e
get-job_steps (x ∷ steps) jobs n s e = elim (get-job_steps steps (GoMap.put jobs x.name x) n s e) [
  | inl found ↦ inl (found.0, (suc found.1.0, found.1.1))
  | inr e2 ↦ by_test (x.name == n) refl (sym (GoMap.get-put jobs x.name x n) ∙ e2)
]
  where
    by_test :
        (b : Bool)
        → (x.name == n) ≡ b
        → (if b then some x else GoMap.get jobs n) ≡ some s
        → ((s.name ≡ n) × Among (x ∷ steps) s) ⊎ (GoMap.get jobs n ≡ some s)
    by_test true t e =
        let same : x ≡ s = cc e in
        inl (sym (ap (λ (y : PipelineStep). y.name) same) ∙ (list_beq_iff x.name n).0 t, (0, e))
    by_test false t e = inr e

pub job_steps-some :
    (steps : List PipelineStep) (jobs : Steps) (n : Bytes)
    → (0 < count (names steps) n) ⊎ (is_some (GoMap.get jobs n) ≡ true)
    → is_some (GoMap.get (job_steps steps jobs) n) ≡ true
unfolding job_steps
job_steps-some [] jobs n (inl h) = absurd (omega arith)
job_steps-some [] jobs n (inr h) = h
job_steps-some (x ∷ steps) jobs n h =
    job_steps-some steps (GoMap.put jobs x.name x) n (by_test (x.name == n) refl h)
  where
    by_test :
        (b : Bool)
        → (x.name == n) ≡ b
        → (0 < (if b then 1 else 0) + count (names steps) n) ⊎ (is_some (GoMap.get jobs n) ≡ true)
        → (0 < count (names steps) n) ⊎ (is_some (GoMap.get (GoMap.put jobs x.name x) n) ≡ true)
    by_test true t h = inr (
        ap is_some
          (GoMap.get-put jobs x.name x n ∙ ap (λ b. if b then some x else GoMap.get jobs n) t))
    by_test false t (inl h) = inl (omega (arith, h))
    by_test false t (inr h) = inr (
        ap is_some
          (GoMap.get-put jobs x.name x n ∙ ap (λ b. if b then some x else GoMap.get jobs n) t)
        ∙ h)

pub left_zero :
    (jobs : Steps) (steps : List PipelineStep) (set : List Bytes) (n : Bytes) (s : PipelineStep)
    → left jobs steps set n ≡ 0
    → s.name ≡ n
    → Among steps s
    → open_edges jobs set (dependencies s.inputs) ≡ 0
left_zero jobs [] set n s h e (i, f) = absurd (cc f)
left_zero jobs (x ∷ steps) set n s h e (zero, f) =
    let same : x ≡ s = cc f in
    let test : (x.name == n) ≡ true =
      (list_beq_iff x.name n).1 (ap (λ (y : PipelineStep). y.name) same ∙ e) in
    ap (λ (y : PipelineStep). open_edges jobs set (dependencies y.inputs)) (sym same)
    ∙ ground (arith, h, test)
left_zero jobs (x ∷ steps) set n s h e (suc i, f) =
    left_zero jobs steps set n s (omega (arith, h)) e (i, f)

-- A job step or a step given before.
abbrev pub Resolved : Steps → List PipelineStep → Dependency → Type 0
Resolved jobs before d = (is_some (GoMap.get jobs d.0) || is_some (step before d.0)) ≡ true

step-names :
    (before xs : List PipelineStep) (d : Bytes)
    → (is_some (step before d) || has (names xs) d) ≡ true
    → is_some (step (before ++ xs) d) ≡ true
unfolding step has
step-names [] [] d h = absurd (cc h)
step-names [] (x ∷ xs) d h = by_test (x.name == d) h (step-names [] xs d)
  where
    by_test :
        (b : Bool)
        → (b || has (names xs) d) ≡ true
        → (has (names xs) d ≡ true → is_some (step xs d) ≡ true)
        → is_some (if b then some x else step xs d) ≡ true
    by_test true h later = refl
    by_test false h later = later h
step-names (b ∷ before) xs d h = by_test (b.name == d) h (step-names before xs d)
  where
    by_test :
        (c : Bool)
        → (is_some (if c then some b else step before d) || has (names xs) d) ≡ true
        → ((is_some (step before d) || has (names xs) d) ≡ true
            → is_some (step (before ++ xs) d) ≡ true)
        → is_some (if c then some b else step (before ++ xs) d) ≡ true
    by_test true h later = refl
    by_test false h later = later h

seed_or_there :
    (job seed there : Bool)
    → (if◌then◌else◌ {A = ℕ} (job && not there) 1 0) ≡ 0
    → (job || seed) ≡ true
    → (seed || there) ≡ true
seed_or_there job seed there e f = ground (arith, e, f)

pub closed_Before :
    (jobs : Steps) (before xs : List PipelineStep) (deps : List Dependency)
    → open_edges jobs (names xs) deps ≡ 0
    → All (Resolved jobs before) deps
    → All (Before (before ++ xs)) deps
closed_Before jobs before xs [] h r = tt
closed_Before jobs before xs ((d, required) ∷ deps) h r = (
  step-names before xs d (
      seed_or_there (is_some (GoMap.get jobs d)) (is_some (step before d)) (has (names xs) d)
        (omega (arith, h)) r.0),
  closed_Before jobs before xs deps (omega (arith, h)) r.1,
)

pub InOrder-snoc :
    (before xs : List PipelineStep) (t : PipelineStep)
    → InOrder before xs
    → All (Before (before ++ xs)) (dependencies t.inputs)
    → InOrder before (xs ++ t ∷ [])
InOrder-snoc before [] t w h =
    (subst (λ ss. All (Before ss) (dependencies t.inputs)) (append-nil before) h, tt)
InOrder-snoc before (x ∷ xs) t w h = (
  w.0,
  InOrder-snoc (before ++ x ∷ []) xs t w.1 (
      subst (λ ss. All (Before ss) (dependencies t.inputs)) (sym (append_assoc before (x ∷ []) xs))
        h),
)
