-- ===== src/Runner/Pipeline/Build/Checks.antt =====
-- What the checks of a request that is accepted have shown.
use tie.Prelude.{
  ℕ, suc, ◌≡◌, refl, sym, ap, ◌∙◌, Bool, true, false, Option, none, some, List, [], ◌∷◌, ◌++◌,
  if◌then◌else◌, nat_eq, list_eq, list_beq_iff, ◌==◌, not, inl, inr, arith, Bool-cases, foldl, All,
  All-map,
}
use tie.Prelude.GoMap
use tie.Tiedb.Triples.{Bytes}
use tie.Compose.{is_empty, Spec, Dependency, add_dependency, dependencies}
use tie.Runner.Pipeline.{Reason, names, PipelineStep}
use tie.Runner.Pipeline.Rerun.{has}
use tie.Runner.Pipeline.Order.{Steps, job_steps}
use tie.Runner.Pipeline.Order.Sorts.{distinct}
use tie.Runner.Pipeline.Build.{
  BuildError, unnamed_step, duplicate_step, no_handler, no_job_type, rejected, check_steps,
  validate_input, validate_step_inputs, check_inputs,
}

-- A step that passes is not seen before, and the rest passes.
check_steps-cons :
    (validate_step : Bytes → Bytes → Option Reason) (seen : List Bytes) (i : ℕ) (s : PipelineStep)
    (steps : List PipelineStep)
    → check_steps validate_step seen i (s ∷ steps) ≡ none
    → (has seen s.name ≡ false) × (check_steps validate_step (s.name ∷ seen) (suc i) steps ≡ none)
unfolding check_steps
check_steps-cons validate_step seen i s steps e =
    by_test (is_empty s.name) (has seen s.name) (is_empty s.handler) (is_empty s.job_type)
      (validate_step s.job_type s.handler) e
  where
    by_test :
        (b c d f : Bool) (o : Option Reason)
        → (if◌then◌else◌ {A = Option BuildError} b (some (unnamed_step i)) (
            if c
            then some (duplicate_step s.name)
            else if d
            then some (no_handler s.name)
            else if f
            then some (no_job_type s.name)
            else elim o as (λ _. Option BuildError) [
              | some r ↦ some (rejected s.name r)
              | none ↦ check_steps validate_step (s.name ∷ seen) (suc i) steps
            ]))
          ≡ none
        → (c ≡ false) × (check_steps validate_step (s.name ∷ seen) (suc i) steps ≡ none)
    by_test true c d f o e = absurd (cc e)
    by_test false true d f o e = absurd (cc e)
    by_test false false true f o e = absurd (cc e)
    by_test false false false true o e = absurd (cc e)
    by_test false false false false (some r) e = absurd (cc e)
    by_test false false false false none e = (refl, e)

seen_apart :
    (validate_step : Bytes → Bytes → Option Reason) (seen : List Bytes) (i : ℕ)
    (steps : List PipelineStep) (x : Bytes)
    → check_steps validate_step seen i steps ≡ none
    → has seen x ≡ true
    → has (names steps) x ≡ false
unfolding has
seen_apart validate_step seen i [] x e h = refl
seen_apart validate_step seen i (s ∷ steps) x e h =
    let c = check_steps-cons validate_step seen i s steps e in
    let rest = seen_apart validate_step (s.name ∷ seen) (suc i) steps x c.1 (ground (arith, h)) in
    elim (Bool-cases (s.name == x)) [
      | inl t ↦ let same = (list_beq_iff s.name x).0 t in absurd (cc (c.0, h, ap (has seen) same))
      | inr t ↦ ground (arith, t, rest)
    ]

pub check_steps-distinct :
    (validate_step : Bytes → Bytes → Option Reason) (seen : List Bytes) (i : ℕ)
    (steps : List PipelineStep)
    → check_steps validate_step seen i steps ≡ none
    → distinct steps ≡ true
check_steps-distinct validate_step seen i [] e = refl
check_steps-distinct validate_step seen i (s ∷ steps) e =
    let c = check_steps-cons validate_step seen i s steps e in
    let rest = check_steps-distinct validate_step (s.name ∷ seen) (suc i) steps c.1 in
    let apart =
      seen_apart validate_step (s.name ∷ seen) (suc i) steps s.name c.1
        (unfold has in ground (arith, list_beq_iff s.name s.name)) in
    ground (arith, rest, apart)

-- A dependency on a known name.
abbrev pub IsKnown : List Bytes → Dependency → Type 0
IsKnown known d = has known d.0 ≡ true

validate_input-IsKnown :
    (name : Bytes) (known : List Bytes) (s : Spec)
    → validate_input name known s ≡ none
    → is_empty s.from_step ≡ false
    → has known s.from_step ≡ true
unfolding validate_input
validate_input-IsKnown name known s e f = ground (arith, e, f)

put-IsKnown :
    (known : List Bytes) (ds : List Dependency) (k : Bytes)
    → All (IsKnown known) ds
    → has known k ≡ true
    → All (IsKnown known) (GoMap.put ds k true)
unfolding GoMap.put
put-IsKnown known [] k h e = (e, tt)
put-IsKnown known ((j, w) ∷ ds) k h e = by_test (j == k) (put-IsKnown known ds k h.1 e)
  where
    by_test :
        (b : Bool)
        → All (IsKnown known) (GoMap.put ds k true)
        → All (IsKnown known) (if b then (j, true) ∷ ds else (j, w) ∷ GoMap.put ds k true)
    by_test true rest = h
    by_test false rest = (h.0, rest)

append-IsKnown :
    (known : List Bytes) (ds : List Dependency) (d : Dependency)
    → All (IsKnown known) ds
    → IsKnown known d
    → All (IsKnown known) (ds ++ d ∷ [])
append-IsKnown known [] d h e = (e, tt)
append-IsKnown known (x ∷ ds) d h e = (h.0, append-IsKnown known ds d h.1 e)

add_dependency-IsKnown :
    (known : List Bytes) (ds : List Dependency) (s : Spec)
    → All (IsKnown known) ds
    → (is_empty s.from_step ≡ false → has known s.from_step ≡ true)
    → All (IsKnown known) (add_dependency ds s)
unfolding add_dependency
add_dependency-IsKnown known ds s h e =
    by_test (is_empty s.from_step) s.optional (GoMap.get ds s.from_step) e
  where
    by_test :
        (b optional : Bool) (o : Option Bool)
        → (b ≡ false → has known s.from_step ≡ true)
        → All (IsKnown known) (
            if◌then◌else◌ {A = List Dependency} b ds (elim o as (λ _. List Dependency) [
              | none ↦ ds ++ (s.from_step, not optional) ∷ []
              | some required ↦ if optional then ds else GoMap.put ds s.from_step true
            ]))
    by_test true optional o e = h
    by_test false optional none e = append-IsKnown known ds (s.from_step, not optional) h (e refl)
    by_test false true (some r) e = h
    by_test false false (some r) e = put-IsKnown known ds s.from_step h (e refl)

validate-IsKnown :
    (name : Bytes) (known : List Bytes) (specs : List Spec) (ds : List Dependency)
    → All (IsKnown known) ds
    → validate_step_inputs name known specs ≡ none
    → All (IsKnown known) (foldl add_dependency ds specs)
unfolding validate_step_inputs
validate-IsKnown name known [] ds h e = h
validate-IsKnown name known (s ∷ specs) ds h e =
    let c = by_test (validate_input name known s) e in
    validate-IsKnown name known specs (add_dependency ds s)
      (add_dependency-IsKnown known ds s h (validate_input-IsKnown name known s c.0)) c.1
  where
    by_test :
        (o : Option BuildError)
        → elim o as (λ _. Option BuildError) [
          | some e ↦ some e
          | none ↦ validate_step_inputs name known specs
        ]
          ≡ none
        → (o ≡ none) × (validate_step_inputs name known specs ≡ none)
    by_test none e = (refl, e)
    by_test (some f) e = absurd (cc e)

pub validate_step_inputs-IsKnown :
    (name : Bytes) (known : List Bytes) (specs : List Spec)
    → validate_step_inputs name known specs ≡ none
    → All (IsKnown known) (dependencies specs)
unfolding dependencies
validate_step_inputs-IsKnown name known specs e = validate-IsKnown name known specs [] tt e

check_inputs-get :
    (known : List Bytes) (jobs : Steps) (n : Bytes) (s : PipelineStep)
    → check_inputs known jobs ≡ none
    → GoMap.get jobs n ≡ some s
    → validate_step_inputs s.name known s.inputs ≡ none
unfolding check_inputs GoMap.get
check_inputs-get known [] n s e f = absurd (cc f)
check_inputs-get known ((name, t) ∷ jobs) n s e f =
    by_test (validate_step_inputs t.name known t.inputs) refl (name == n) e f
      (λ g h. check_inputs-get known jobs n s g h)
  where
    by_test :
        (o : Option BuildError)
        → validate_step_inputs t.name known t.inputs ≡ o
        → (b : Bool)
        → elim o as (λ _. Option BuildError) [ some e ↦ some e | none ↦ check_inputs known jobs ]
          ≡ none
        → (if b then some t else GoMap.get jobs n) ≡ some s
        → (check_inputs known jobs ≡ none
            → GoMap.get jobs n ≡ some s
            → validate_step_inputs s.name known s.inputs ≡ none)
        → validate_step_inputs s.name known s.inputs ≡ none
    by_test (some x) g b e f later = absurd (cc e)
    by_test none g true e f later =
        let same : t ≡ s = cc f in
        ap (λ (u : PipelineStep). validate_step_inputs u.name known u.inputs) (sym same) ∙ g
    by_test none g false e f later = later e f

get_job_absent :
    (steps : List PipelineStep) (jobs : Steps) (n : Bytes)
    → has (names steps) n ≡ false
    → GoMap.get (job_steps steps jobs) n ≡ GoMap.get jobs n
unfolding job_steps has
get_job_absent [] jobs n h = refl
get_job_absent (s ∷ steps) jobs n h =
    let apart : (s.name == n) ≡ false = ground (arith, h) in
    get_job_absent steps (GoMap.put jobs s.name s) n (ground (arith, h))
    ∙ GoMap.get-put jobs s.name s n
    ∙ ap (λ b. if b then some s else GoMap.get jobs n) apart

-- The step of each name is in the map of job steps.
pub job_steps-all :
    (steps : List PipelineStep) (jobs : Steps)
    → distinct steps ≡ true
    → All (λ (s : PipelineStep). GoMap.get (job_steps steps jobs) s.name ≡ some s) steps
unfolding job_steps
job_steps-all [] jobs h = tt
job_steps-all (s ∷ steps) jobs h = (
  get_job_absent steps (GoMap.put jobs s.name s) s.name (ground (arith, h))
      ∙ GoMap.get-put jobs s.name s s.name
      ∙ ap (λ b. if b then some s else GoMap.get jobs s.name) ((list_beq_iff s.name s.name).1 refl),
  job_steps-all steps (GoMap.put jobs s.name s) (ground (arith, h)),
)

-- All dependencies of a request that passes are known.
pub check_inputs-IsKnown :
    (known : List Bytes) (steps : List PipelineStep)
    → distinct steps ≡ true
    → check_inputs known (job_steps steps []) ≡ none
    → All (λ (s : PipelineStep). All (IsKnown known) (dependencies s.inputs)) steps
check_inputs-IsKnown known steps apart e =
    All-map (λ (s : PipelineStep). GoMap.get (job_steps steps []) s.name ≡ some s)
      (λ (s : PipelineStep). All (IsKnown known) (dependencies s.inputs)) steps
      (λ s f.
        validate_step_inputs-IsKnown s.name known s.inputs
          (check_inputs-get known (job_steps steps []) s.name s e f))
      (job_steps-all steps [] apart)
