-- ===== src/Runner/Pipeline/Build.antt =====
-- runner/pipeline/pipeline.go: build, which checks a request and makes the pipeline of it, with
-- validateStepInputs. The check of a step that Config may have is a parameter.
pub mod Checks
pub mod Starts
use tie.Prelude.{
  ℕ, suc, Bool, true, false, Option, none, some, List, [], ◌∷◌, ◌++◌, if◌then◌else◌, nat_eq,
  nat_beq, list_eq, ◌==◌, not, ◌&&◌, ltb, length, ◌⊎◌, inl, inr,
}
use tie.Prelude.GoMap
use tie.Prelude.Int.{pos, negsuc}
use tie.Tiedb.Triples.{Bytes}
use tie.Compose.{is_empty, Spec}
use tie.Runner.Pipeline.{running, done, Reason, no_reason, names, PipelineStep, Pipeline}
use tie.Runner.Pipeline.Rerun.{has}
use tie.Runner.Pipeline.Order.{Steps, job_steps, OrderError, order_steps}

-- The map of seeds is in the order in which it is gone through.
pub record PipelineRequest : Type 0 where
  pub name : Bytes
  pub user : Bytes
  pub debug : Bool
  pub seeds : List (Bytes × Bytes)
  pub steps : List PipelineStep

pub data BuildError : Type 0 where
  no_steps unnamed_seed : BuildError
  bad_seed_hash : Bytes → Bytes → BuildError
  unnamed_step : ℕ → BuildError
  duplicate_step no_handler no_job_type : Bytes → BuildError
  rejected : Bytes → Reason → BuildError
  step_and_hash unknown_input : Bytes → Bytes → BuildError
  input_names_itself : Bytes → BuildError
  bad_input_hash : Bytes → Bytes → BuildError
  no_input : Bytes → BuildError
  order : OrderError → BuildError

unfoldable pub check_seeds : List (Bytes × Bytes) → Option BuildError
check_seeds [] = none
check_seeds ((name, hash) ∷ seeds) =
    let rest = check_seeds seeds in
    if is_empty name
    then some unnamed_seed
    else if not (nat_beq (length hash) 64)
    then some (bad_seed_hash name hash)
    else rest

abbrev pub seed_names : List (Bytes × Bytes) → List Bytes
seed_names [] = []
seed_names ((name, hash) ∷ seeds) = name ∷ seed_names seeds

-- The loop over the job steps, with the names seen so far.
unfoldable pub check_steps :
    (Bytes → Bytes → Option Reason) → List Bytes → ℕ → List PipelineStep → Option BuildError
check_steps validate_step seen i [] = none
check_steps validate_step seen i (s ∷ steps) =
    let rest = check_steps validate_step (s.name ∷ seen) (suc i) steps in
    if is_empty s.name
    then some (unnamed_step i)
    else if has seen s.name
    then some (duplicate_step s.name)
    else if is_empty s.handler
    then some (no_handler s.name)
    else if is_empty s.job_type
    then some (no_job_type s.name)
    else elim (validate_step s.job_type s.handler) [
      | some r ↦ some (rejected s.name r)
      | none ↦ rest
    ]

unfoldable pub validate_input : Bytes → List Bytes → Spec → Option BuildError
validate_input name known s =
    if not (is_empty s.from_step) && not (is_empty s.hash)
    then some (step_and_hash name s.from_step)
    else if not (is_empty s.from_step)
    then (if not (has known s.from_step)
        then some (unknown_input name s.from_step)
        else if s.from_step == name
        then some (input_names_itself name)
        else none)
    else if nat_beq (length s.hash) 64
    then none
    else if not (is_empty s.hash)
    then some (bad_input_hash name s.hash)
    else some (no_input name)

unfoldable pub validate_step_inputs : Bytes → List Bytes → List Spec → Option BuildError
validate_step_inputs name known [] = none
validate_step_inputs name known (s ∷ specs) =
    let rest = validate_step_inputs name known specs in
    elim (validate_input name known s) [ some e ↦ some e | none ↦ rest ]

-- The loop over the map of job steps.
unfoldable pub check_inputs : List Bytes → Steps → Option BuildError
check_inputs known [] = none
check_inputs known ((name, s) ∷ jobs) =
    let rest = check_inputs known jobs in
    elim (validate_step_inputs s.name known s.inputs) [ some e ↦ some e | none ↦ rest ]

-- Go's order of strings.
abbrev pub name_le : Bytes → Bytes → Bool
name_le [] b = true
name_le (x ∷ a) [] = false
name_le (x ∷ a) (y ∷ b) =
    let rest = name_le a b in if ltb x y then true else if nat_beq x y then rest else false

unfoldable pub insert_name : Bytes → List Bytes → List Bytes
insert_name n [] = n ∷ []
insert_name n (m ∷ names) = if name_le n m then n ∷ m ∷ names else m ∷ insert_name n names

unfoldable pub sort_names : List Bytes → List Bytes
sort_names [] = []
sort_names (n ∷ names) = insert_name n (sort_names names)

-- The seeds as steps that are done, numbered from the negative of how many there are up to -1.
unfoldable pub seed_steps : ℕ → List (Bytes × Bytes) → List Bytes → List PipelineStep
seed_steps now seeds [] = []
seed_steps now seeds (name ∷ names) =
    record {
      name = name;
      handler = [];
      job_type = [];
      app_hash = [];
      settings = [];
      inputs = [];
      ordinal = negsuc (length names);
      status = done;
      job_id = [];
      output_hash = elim (GoMap.get seeds name) [ none ↦ [] | some hash ↦ hash ];
      error = no_reason;
      started = 0;
      finished = now;
    }
    ∷ seed_steps now seeds names

unfoldable pub assembled : Bytes → Bytes → ℕ → PipelineRequest → List PipelineStep → Pipeline
assembled id deploy_manager now req ordered = record {
  id = id;
  name = req.name;
  user = req.user;
  status = running;
  not_completed = [];
  deploy_manager = deploy_manager;
  debug = req.debug;
  created = now;
  finished = 0;
  steps = seed_steps now req.seeds (sort_names (seed_names req.seeds)) ++ ordered;
}

-- Seeds and steps share one name space.
unfoldable pub names_known : PipelineRequest → List Bytes
names_known req = seed_names req.seeds ++ names req.steps

-- All checks before the order is looked for, in turn.
unfoldable pub check_request : (Bytes → Bytes → Option Reason) → PipelineRequest → Option BuildError
check_request validate_step req =
    let known = names_known req in
    if is_empty req.steps then some no_steps else elim (check_seeds req.seeds) [
      | some e ↦ some e
      | none ↦ elim (check_steps validate_step (seed_names req.seeds) 0 req.steps) [
        | some e ↦ some e
        | none ↦ check_inputs known (job_steps req.steps [])
      ]
    ]

-- The pipeline's id and the time are drawn after the checks.
unfoldable pub build :
    (Bytes → Bytes → Option Reason) → Bytes → ℕ → PipelineRequest → Bytes → BuildError ⊎ Pipeline
build validate_step id now req deploy_manager = elim (check_request validate_step req) [
  | some e ↦ inl e
  | none ↦ elim (order_steps req.steps (job_steps req.steps [])) [
    | inl e ↦ inl (order e)
    | inr ordered ↦ inr (assembled id deploy_manager now req ordered)
  ]
]
