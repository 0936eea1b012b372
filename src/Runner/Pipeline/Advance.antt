-- ===== src/Runner/Pipeline/Advance.antt =====
-- runner/pipeline/pipeline.go: Advance and what it is made of.
pub mod Visits
pub mod Settles
pub mod Passes
pub mod Grows
pub mod Finishes
pub mod Outputs
pub mod Ordered
pub mod Moves
use tie.Prelude.{
  ℕ, zero, suc, ◌+◌, Bool, true, false, Option, none, some, List, [], ◌∷◌, ◌++◌, if◌then◌else◌,
  nat_eq, nat_beq, list_eq, ◌==◌, not, ◌&&◌, ◌||◌, ◌⊎◌, inl, inr, length,
}
use tie.Tiedb.Triples.{Bytes}
use tie.Compose.{is_empty, Spec, SelectError, resolve_steps}
use tie.Runner.Pipeline.{
  StepStatus, pending, running, done, failed, skipped, RunStatus, queued, cancelled, Reason,
  no_reason, selection, reported, job_ended, PipelineStep, Pipeline, JobRequest, JobOutcome,
  is_done, is_pending, is_running, terminal, satisfied, step, waiting, ready, unrunnable,
  step_readiness,
}

-- What is outside the engine: the outcomes of jobs in the store, compose.Build and the submission of
-- a job, whose answers may depend on the jobs submitted before, and the clock.
pub record Outside : Type 0 where
  pub get_job : Bytes → Option JobOutcome
  pub build : List JobRequest → List Spec → Reason ⊎ Bytes
  pub submit_job : List JobRequest → JobRequest → Reason ⊎ Bytes
  pub now : ℕ

-- What an advance did outside, in order: the jobs it submitted and the steps it wrote.
pub record Log : Type 0 where
  pub submitted : List JobRequest
  pub written : List PipelineStep

unfoldable pub write : Log → PipelineStep → Log
write log s = record log { written = log.written ++ s ∷ [] }

-- The lookup that submitStep gives to ResolveSteps.
unfoldable pub output_of : List PipelineStep → Bytes → Option Bytes
output_of steps name = elim (step steps name) [
  | none ↦ none
  | some d ↦ if satisfied d then some d.output_hash else none
]

unfoldable pub request_of : Pipeline → PipelineStep → Bytes → JobRequest
request_of p s input_hash = record {
  job_type = s.job_type;
  handler = s.handler;
  input_hash = input_hash;
  app_hash = s.app_hash;
  settings = s.settings;
  debug = p.debug;
  user = p.user;
  pipeline_id = p.id;
  step_name = s.name;
  deploy_manager = p.deploy_manager;
}

-- The step as submitted, or why it was not.
unfoldable pub submit_step :
    Outside → Pipeline → List PipelineStep → PipelineStep → Log → Log × (Reason ⊎ PipelineStep)
unfolding request_of
submit_step o p steps s log = elim (resolve_steps s.inputs (output_of steps)) [
  | inl e ↦ (log, inl (selection e))
  | inr specs ↦ elim (o.build log.submitted specs) [
    | inl r ↦ (log, inl r)
    | inr input_hash ↦
        let req = request_of p s input_hash in
        let log1 = record log { submitted = log.submitted ++ req ∷ [] } in
        elim (o.submit_job log.submitted req) [
          | inl r ↦ (log1, inl r)
          | inr job_id ↦
              (log1, inr (record s { status = running; job_id = job_id; started = o.now }))
        ]
  ]
]

-- What the loop makes of one step: the step, the log, and whether it changed.
pub record Visit : Type 0 where
  pub after : PipelineStep
  pub log : Log
  pub changed : Bool

unfoldable pub stay : PipelineStep → Log → Visit
stay s log = record { after = s; log = log; changed = false }

unfoldable pub put : PipelineStep → Log → Visit
put s log = record { after = s; log = write log s; changed = true }

unfoldable pub submitted_or_failed : Outside → PipelineStep → Log × (Reason ⊎ PipelineStep) → Visit
submitted_or_failed o s (log, inl r) =
    put (record s { status = failed; error = r; finished = o.now }) log
submitted_or_failed o s (log, inr t) = put t log

unfoldable pub visit : Outside → Pipeline → List PipelineStep → PipelineStep → Log → Visit
unfolding submitted_or_failed
visit o p steps s log =
    if not (is_pending s.status) then stay s log else elim (step_readiness steps s) [
      | waiting ↦ stay s log
      | unrunnable r ↦ put (record s { status = skipped; error = r; finished = o.now }) log
      | ready ↦ submitted_or_failed o s (submit_step o p steps s log)
    ]

pub record Sweep : Type 0 where
  pub steps : List PipelineStep
  pub log : Log
  pub changed : Bool

-- One pass over the steps: each sees those before it as the pass left them.
unfoldable pub sweep : Outside → Pipeline → List PipelineStep → List PipelineStep → Log → Sweep
sweep o p before [] log = record { steps = before; log = log; changed = false }
sweep o p before (s ∷ rest) log =
    let v = visit o p (before ++ s ∷ rest) s log in
    let r = sweep o p (before ++ v.after ∷ []) rest v.log in
    record { steps = r.steps; log = r.log; changed = v.changed || r.changed }

-- Passes until one changes nothing, on fuel.
unfoldable pub settle : ℕ → Outside → Pipeline → List PipelineStep → Log → Sweep
settle zero o p steps log = record { steps = steps; log = log; changed = true }
settle (suc n) o p steps log =
    let r = sweep o p [] steps log in
    elim r.changed [ true ↦ settle n o p r.steps r.log | false ↦ r ]

error_of : JobOutcome → Reason
error_of j = if is_empty j.error_msg then job_ended j.status else reported j.error_msg

stamp : Outside → JobOutcome → ℕ
stamp o j = if nat_beq j.finished 0 then o.now else j.finished

-- The outcome of a step's job, on the step.
unfoldable pub synced : Outside → JobOutcome → RunStatus → PipelineStep → Option PipelineStep
unfolding error_of stamp
synced o j done s =
    some (record s { status = done; output_hash = j.output_hash; finished = stamp o j })
synced o j failed s = some (record s { status = failed; error = error_of j; finished = stamp o j })
synced o j cancelled s =
    some (record s { status = failed; error = error_of j; finished = stamp o j })
synced o j queued s = none
synced o j running s = none

unfoldable pub sync_step : Outside → PipelineStep → Option PipelineStep
unfolding synced
sync_step o s =
    if not (is_running s.status) || is_empty s.job_id
    then none
    else elim (o.get_job s.job_id) [ none ↦ none | some j ↦ synced o j j.status s ]

unfoldable pub sync_finished_steps : Outside → List PipelineStep → Log → List PipelineStep × Log
sync_finished_steps o [] log = ([], log)
sync_finished_steps o (s ∷ steps) log =
    let t = sync_step o s in
    let r = sync_finished_steps o steps (elim t [ none ↦ log | some u ↦ write log u ]) in
    ((elim t [ none ↦ s | some u ↦ u ]) ∷ r.0, r.1)

unfoldable pub all_terminal : List PipelineStep → Bool
all_terminal [] = true
all_terminal (s ∷ steps) = terminal s && all_terminal steps

unfoldable pub not_done : List PipelineStep → List Bytes
not_done [] = []
not_done (s ∷ steps) = let rest = not_done steps in if is_done s.status then rest else s.name ∷ rest

-- The pipeline is closed once all of its steps are terminal.
unfoldable pub finalize_if_done : Outside → Pipeline → Pipeline
finalize_if_done o p =
    if all_terminal p.steps
    then record p {
      status = (if is_empty (not_done p.steps) then done else failed);
      not_completed = not_done p.steps;
      finished = o.now;
    }
    else p

unfoldable pub is_open : RunStatus → Bool
is_open running = true
is_open queued = false
is_open done = false
is_open failed = false
is_open cancelled = false

-- Advance on a pipeline that the store has; the fuel is one pass more than there are steps.
unfoldable pub advance : Outside → Pipeline → Pipeline × Log
unfolding is_open
advance o p =
    let nothing_yet : Log = record { submitted = []; written = [] } in
    if is_open p.status
    then (let r = sync_finished_steps o p.steps nothing_yet in
        let w = settle (suc (length p.steps)) o p r.0 r.1 in
        (finalize_if_done o (record p { steps = w.steps }), w.log))
    else (p, nothing_yet)
