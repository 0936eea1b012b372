-- ===== src/Runner/Pipeline/Ready.antt =====
-- runner/pipeline/pipeline.go, stepReadiness: what it says of the steps that a step depends on.
use tie.Prelude.{
  ◌≡◌, refl, ap, Bool, true, false, Option, none, some, List, [], ◌∷◌, if◌then◌else◌, nat_eq,
  list_eq, list_beq_iff, ◌==◌, not, ◌||◌, is_some, arith,
}
use tie.Prelude.GoMap
use tie.Tiedb.Triples.{Bytes}
use tie.Compose.{Dependency}
use tie.Runner.Pipeline.{
  PipelineStep, StepState, waiting, ready, unrunnable, judge, required_input, classify, step,
  terminal, satisfied,
}

-- A dependency that is a step of the pipeline and has not finished.
pub record Blocked (steps : List PipelineStep) (deps : List Dependency) : Type 0 where
  pub on : Bytes
  pub by : PipelineStep
  pub listed : is_some (GoMap.get deps on) ≡ true
  pub found : step steps on ≡ some by
  pub unfinished : terminal by ≡ false

judge-waiting :
    (name : Bytes) (required : Bool) (o : Option PipelineStep)
    → judge name required o ≡ waiting
    → (d : PipelineStep) × (o ≡ some d) × (terminal d ≡ false)
unfolding judge
judge-waiting name required none e = absurd (cc e)
judge-waiting name required (some d) e = by_test (terminal d) (satisfied d || not required) refl e
  where
    by_test :
        (final usable : Bool)
        → terminal d ≡ final
        → (if not final
            then waiting
            else if usable
            then ready
            else unrunnable (required_input name d.status))
          ≡ waiting
        → (c : PipelineStep) × (some d ≡ some c) × (terminal c ≡ false)
    by_test false usable f e = (d, refl, f)
    by_test true true f e = absurd (cc e)
    by_test true false f e = absurd (cc e)

listed_later :
    (name : Bytes) (required : Bool) (deps : List Dependency) (d : Bytes)
    → is_some (GoMap.get deps d) ≡ true
    → is_some (GoMap.get ((name, required) ∷ deps) d) ≡ true
unfolding GoMap.get
listed_later name required deps d h = by_test (name == d)
  where
    by_test : (b : Bool) → is_some (if b then some required else GoMap.get deps d) ≡ true
    by_test true = refl
    by_test false = h

listed_here :
    (name : Bytes) (required : Bool) (deps : List Dependency)
    → GoMap.get ((name, required) ∷ deps) name ≡ some required
unfolding GoMap.get
listed_here name required deps = ground (arith, list_beq_iff name name)

-- A step waits only for a dependency that has not finished.
pub classify-Blocked :
    (steps : List PipelineStep) (deps : List Dependency)
    → classify steps deps ≡ waiting
    → Blocked steps deps
unfolding classify
classify-Blocked steps [] e = absurd (cc e)
classify-Blocked steps ((name, required) ∷ deps) e =
    by_state (judge name required (step steps name)) (classify steps deps) refl
      (classify-Blocked steps deps) e
  where
    by_state :
        (x rest : StepState)
        → judge name required (step steps name) ≡ x
        → (rest ≡ waiting → Blocked steps deps)
        → elim x as (λ _. StepState) [
          | waiting ↦ waiting
          | ready ↦ rest
          | unrunnable r ↦ unrunnable r
        ]
          ≡ waiting
        → Blocked steps ((name, required) ∷ deps)
    by_state waiting rest f later e =
        let w = judge-waiting name required (step steps name) f in
        record {
          on = name;
          by = w.0;
          listed = ap is_some (listed_here name required deps);
          found = w.1;
          unfinished = w.2;
        }
    by_state ready rest f later e =
        let b = later e in
        record {
          on = b.on;
          by = b.by;
          listed = listed_later name required deps b.on b.listed;
          found = b.found;
          unfinished = b.unfinished;
        }
    by_state (unrunnable r) rest f later e = absurd (cc e)
