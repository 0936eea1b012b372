-- ===== src/Runner/Pipeline.antt =====
-- runner/api/pipeline.go and runner/pipeline/pipeline.go: a graph of steps, and how it advances. The
-- lock of a pipeline makes each operation one step; the store is a parameter that answers for jobs,
-- and what is written to it is kept in order.
pub mod Advance
pub mod Ready
pub mod Cancel
pub mod Rerun
pub mod Resume
pub mod Order
pub mod Build
pub mod Submit
use tie.Prelude.{
  ℕ, zero, suc, ◌+◌, ◌-◌, Bool, true, false, Option, none, some, List, [], ◌∷◌, ◌++◌, if◌then◌else◌,
  nat_eq, nat_beq, list_eq, ◌==◌, not, ◌&&◌, ◌||◌, ◌⊎◌, inl, inr, is_some, length, map,
}
use tie.Prelude.GoMap
use tie.Prelude.Int.{ℤ, pos, negsuc}
use tie.Tiedb.Triples.{Bytes}
use tie.Compose.{is_empty, Spec, SelectError, resolve_steps, Dependency, dependencies}

-- A status outside the five constants can come with a request only.
pub data StepStatus : Type 0 where
  pending running done failed skipped : StepStatus
  other : Bytes → StepStatus

pub data RunStatus : Type 0 where
  queued running done failed cancelled : RunStatus

-- Why a step did not run or failed.
pub data Reason : Type 0 where
  no_reason cancelled_by_user pipeline_cancelled : Reason
  input_missing : Bytes → Reason
  required_input : Bytes → StepStatus → Reason
  selection : SelectError → Reason
  reported : Bytes → Reason
  job_ended : RunStatus → Reason

pub record PipelineStep : Type 0 where
  pub name : Bytes
  pub handler : Bytes
  pub job_type : Bytes
  pub app_hash : Bytes
  pub settings : Bytes
  pub inputs : List Spec
  pub ordinal : ℤ
  pub status : StepStatus
  pub job_id : Bytes
  pub output_hash : Bytes
  pub error : Reason
  pub started : ℕ
  pub finished : ℕ

-- The failed names stand for the message of a pipeline that failed; that of a cancelled one is fixed.
pub record Pipeline : Type 0 where
  pub id : Bytes
  pub name : Bytes
  pub user : Bytes
  pub status : RunStatus
  pub not_completed : List Bytes
  pub deploy_manager : Bytes
  pub debug : Bool
  pub created : ℕ
  pub finished : ℕ
  pub steps : List PipelineStep

-- The fields that the engine fills, and the manager that the request is submitted with.
pub record JobRequest : Type 0 where
  pub job_type : Bytes
  pub handler : Bytes
  pub input_hash : Bytes
  pub app_hash : Bytes
  pub settings : Bytes
  pub debug : Bool
  pub user : Bytes
  pub pipeline_id : Bytes
  pub step_name : Bytes
  pub deploy_manager : Bytes

-- The outcome of a job as the store has it.
pub record JobOutcome : Type 0 where
  pub status : RunStatus
  pub output_hash : Bytes
  pub error_msg : Bytes
  pub finished : ℕ

unfoldable pub is_seed : PipelineStep → Bool
is_seed s = is_empty s.handler

abbrev pub is_done : StepStatus → Bool
is_done done = true
is_done pending = false
is_done running = false
is_done failed = false
is_done skipped = false
is_done (other b) = false

abbrev pub is_final : StepStatus → Bool
is_final done = true
is_final failed = true
is_final skipped = true
is_final pending = false
is_final running = false
is_final (other b) = false

abbrev pub is_pending : StepStatus → Bool
is_pending pending = true
is_pending running = false
is_pending done = false
is_pending failed = false
is_pending skipped = false
is_pending (other b) = false

abbrev pub is_running : StepStatus → Bool
is_running running = true
is_running pending = false
is_running done = false
is_running failed = false
is_running skipped = false
is_running (other b) = false

unfoldable pub terminal : PipelineStep → Bool
terminal s = is_final s.status

unfoldable pub satisfied : PipelineStep → Bool
satisfied s = is_done s.status && not (is_empty s.output_hash)

abbrev pub names : List PipelineStep → List Bytes
names [] = []
names (s ∷ steps) = s.name ∷ names steps

-- The first step of the name.
unfoldable pub step : List PipelineStep → Bytes → Option PipelineStep
step [] name = none
step (s ∷ steps) name = if s.name == name then some s else step steps name

pub data StepState : Type 0 where
  waiting : StepState
  ready : StepState
  unrunnable : Reason → StepState

-- One dependency: whether it blocks, is resolved, or can never be.
unfoldable pub judge : Bytes → Bool → Option PipelineStep → StepState
unfolding terminal satisfied
judge name required none = unrunnable (input_missing name)
judge name required (some d) =
    if not (terminal d)
    then waiting
    else if satisfied d || not required
    then ready
    else unrunnable (required_input name d.status)

-- The loop over the dependencies, which the first that is not resolved ends.
unfoldable pub classify : List PipelineStep → List Dependency → StepState
classify steps [] = ready
classify steps ((name, required) ∷ deps) =
    let rest = classify steps deps in
    elim (judge name required (step steps name)) [
      | waiting ↦ waiting
      | ready ↦ rest
      | unrunnable r ↦ unrunnable r
    ]

unfoldable pub step_readiness : List PipelineStep → PipelineStep → StepState
step_readiness steps s = classify steps (dependencies s.inputs)
