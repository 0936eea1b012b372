-- ===== src/Tests/Pipelines.antt =====
-- A run of one seed and two job steps, the second of which takes what the first gives.
use tie.Prelude.{
  ◌≡◌, ◌↔◌, refl, true, false, some, none, List, [], ◌∷◌, ◌⊎◌, inl, inr, All, get_elem?, arith, ℕ,
  replicate, ◌==◌, list_eq, nat_eq, if◌then◌else◌,
}
use tie.Prelude.GoMap
use tie.Prelude.Int.{pos}
use tie.Tiedb.Triples.{Bytes}
use tie.Compose.{Spec, dependencies, add_dependency}
use tie.Compose.Needs.{get-dependencies, needs}
use tie.Runner.Pipeline.{
  is_done, pending, running, done, failed, no_reason, PipelineStep, Pipeline, terminal, step,
  is_seed,
}
use tie.Runner.Pipeline.Advance.{Outside, Log, settle, all_terminal, is_open, advance}
use tie.Runner.Pipeline.Advance.Settles.{settle-Stopped, Stopped}
use tie.Runner.Pipeline.Advance.Finishes.{advance-final, advance-done, IsDone}
use tie.Runner.Pipeline.Advance.Ordered.{InOrder, Known}
use tie.Runner.Pipeline.Advance.Moves.{advance_moves, any_running}
use tie.Runner.Pipeline.Rerun.{
  has, steps_to_rerun, mark, mark_unfinished, skips, dependents, add_dependents, names_under,
}
use tie.Runner.Pipeline.Rerun.Exact.{IsDownstream, steps_to_rerun_iff}
use tie.Runner.Pipeline.Resume.{
  resume, unknown_step, reopen, apply_overrides, refuse, reopen_valid, check_overrides,
  drop_overridden,
}
use tie.Runner.Pipeline.Resume.Repairs.{reopen-refused}
use tie.Runner.Pipeline.Resume.Reuses.{resume_reuses, resume_reruns}
use tie.Runner.Pipeline.Order.{
  order_steps, job_steps, degree, no_edges, add_edges, edges_of, frontier, lower, drain_ready,
}
use tie.Runner.Pipeline.Order.Acyclic.{order_steps_succeeds}
use tie.Runner.Pipeline.Build.{
  PipelineRequest, build, check_request, check_seeds, check_steps, check_inputs,
  validate_step_inputs, validate_input, names_known, assembled,
}
use tie.Runner.Pipeline.Build.Starts.{build-InOrder}
use tie.Runner.Pipeline.Submit.{submit, submit_moves}
use tie.Runner.Pipeline.Cancel.{Cancelled, cancel, cancel_steps}
use tie.Runner.Pipeline.Cancel.Stops.{cancel_stops, cancel-jobs}

abbrev seed_name : Bytes
seed_name = 115 ∷ []

abbrev fetch : Bytes
fetch = 102 ∷ []

abbrev train : Bytes
train = 116 ∷ []

abbrev from_step : Bytes → Spec
from_step name = record {
  from_step = name;
  hash = [];
  paths = [];
  glob = [];
  as_name = [];
  optional = false;
}

abbrev a_step : Bytes → Bytes → List Spec → PipelineStep
a_step name handler inputs = record {
  name = name;
  handler = handler;
  job_type = 106 ∷ [];
  app_hash = [];
  settings = [];
  inputs = inputs;
  ordinal = pos 0;
  status = pending;
  job_id = [];
  output_hash = [];
  error = no_reason;
  started = 0;
  finished = 0;
}

abbrev seed_step : PipelineStep
seed_step = record (a_step seed_name [] []) { status = done; output_hash = 1 ∷ [] }

abbrev fetch_step : PipelineStep
fetch_step = a_step fetch (9 ∷ []) (from_step seed_name ∷ [])

abbrev train_step : PipelineStep
train_step = a_step train (9 ∷ []) (from_step fetch ∷ [])

abbrev a_run : Pipeline
a_run = record {
  id = 1 ∷ [];
  name = [];
  user = [];
  status = running;
  not_completed = [];
  deploy_manager = [];
  debug = false;
  created = 1;
  finished = 0;
  steps = seed_step ∷ fetch_step ∷ train_step ∷ [];
}

-- Every job is accepted, and none has ended.
abbrev busy : Outside
busy = record {
  get_job = λ id. none;
  build = λ sent specs. inr (2 ∷ []);
  submit_job = λ sent req. inr (3 ∷ []);
  now = 7;
}

advance_moves_example :
    (any_running (advance busy a_run).0.steps ≡ true)
    ⊎ ((all_terminal (advance busy a_run).0.steps ≡ true)
        × (is_open (advance busy a_run).0.status ≡ false))
unfolding is_open dependencies add_dependency GoMap.get step
advance_moves_example =
    advance_moves busy a_run (tt, ((refl, tt), ((refl, tt), tt))) (refl, (refl, (refl, tt))) refl

advance-final_example : get_elem? (advance busy a_run).0.steps 0 ≡ some seed_step
unfolding terminal
advance-final_example = advance-final busy a_run 0 seed_step refl refl

advance-done_example :
    ((advance busy a_run).0.status ≡ done) ↔ All IsDone (advance busy a_run).0.steps
unfolding is_open
advance-done_example = advance-done busy a_run refl

abbrev nothing_yet : Log
nothing_yet = record { submitted = []; written = [] }

settle-Stopped_example : Stopped (settle 4 busy a_run a_run.steps nothing_yet)
settle-Stopped_example = settle-Stopped 4 busy a_run a_run.steps nothing_yet (omega arith)

get-dependencies_example :
    GoMap.get (dependencies fetch_step.inputs) seed_name ≡ needs fetch_step.inputs seed_name
get-dependencies_example = get-dependencies fetch_step.inputs seed_name

steps_to_rerun_iff_example :
    (has (steps_to_rerun a_run.steps fetch) train ≡ true) ↔ IsDownstream a_run.steps fetch train
steps_to_rerun_iff_example = steps_to_rerun_iff a_run.steps fetch train

abbrev a_failed_run : Pipeline
a_failed_run = record a_run { status = failed }

reopen-refused_example :
    ((reopen a_failed_run (1 ∷ []) []).after ≡ a_failed_run)
    × ((reopen a_failed_run (1 ∷ []) []).written ≡ [])
unfolding reopen is_open step refuse
reopen-refused_example =
    reopen-refused a_failed_run (1 ∷ []) [] (unknown_step (1 ∷ [])) refl (λ e. cc e)

-- The first job step is done, the second failed.
abbrev fetched_step : PipelineStep
fetched_step = record fetch_step { status = done; output_hash = 2 ∷ [] }

abbrev half_run : Pipeline
half_run = record a_run {
  status = failed;
  steps = seed_step ∷ fetched_step ∷ (record train_step { status = failed }) ∷ [];
}

abbrev resumed_run : Bytes → Pipeline × Log
resumed_run from = elim (resume busy half_run from []) [
  | inl e ↦ (half_run, nothing_yet)
  | inr r ↦ r
]

resume_reuses_example : get_elem? (resumed_run train).0.steps 1 ≡ some fetched_step
unfolding resume reopen is_open step reopen_valid check_overrides apply_overrides steps_to_rerun
    drop_overridden mark mark_unfinished skips is_seed has dependents add_dependents dependencies
    add_dependency GoMap.get GoMap.put names_under terminal
resume_reuses_example =
    resume_reuses busy half_run train [] (resumed_run train) 1 fetched_step refl refl refl refl
      (λ d. cc ((steps_to_rerun_iff half_run.steps train fetch).1 d))

resume_reruns_example :
    (t : PipelineStep) × (get_elem? (resumed_run fetch).0.steps 1 ≡ some t)
    × (t.output_hash ≡ [])
    × (is_done t.status ≡ false)
unfolding resume reopen is_open step reopen_valid check_overrides apply_overrides steps_to_rerun
    drop_overridden mark mark_unfinished skips is_seed has dependents add_dependents dependencies
    add_dependency GoMap.get GoMap.put names_under
resume_reruns_example =
    resume_reruns busy half_run fetch [] (resumed_run fetch) 1 fetched_step refl refl refl
      ((steps_to_rerun_iff half_run.steps fetch fetch).0 refl)

abbrev running_step : PipelineStep
running_step = record fetch_step { status = running; job_id = 3 ∷ [] }

abbrev a_running_run : Pipeline
a_running_run = record a_run { steps = seed_step ∷ running_step ∷ train_step ∷ [] }

abbrev a_cancelled_run : Cancelled
a_cancelled_run = elim (cancel 8 a_running_run) [
  | inl st ↦ record { after = a_running_run; written = []; jobs = [] }
  | inr c ↦ c
]

cancel_stops_example :
    (all_terminal a_cancelled_run.after.steps ≡ true)
    × (advance busy a_cancelled_run.after ≡ (a_cancelled_run.after, nothing_yet))
unfolding cancel cancel_steps is_open
cancel_stops_example =
    cancel_stops 8 a_running_run a_cancelled_run busy (refl, (refl, (refl, tt))) refl

cancel-jobs_example : has a_cancelled_run.jobs (3 ∷ []) ≡ true
unfolding cancel cancel_steps is_open
cancel-jobs_example = cancel-jobs 8 a_running_run a_cancelled_run 1 running_step refl refl refl refl

abbrev a_hash : Bytes
a_hash = replicate 64 1

abbrev a_request : PipelineRequest
a_request = record {
  name = [];
  user = [];
  debug = false;
  seeds = (seed_name, a_hash) ∷ [];
  steps = train_step ∷ fetch_step ∷ [];
}

abbrev built_run : Pipeline
built_run = elim (build (λ job_type handler. none) (1 ∷ []) 5 a_request []) [
  | inl e ↦ a_run
  | inr p ↦ p
]

build-InOrder_example :
    InOrder [] built_run.steps × All Known built_run.steps × (is_open built_run.status ≡ true)
unfolding build check_request check_seeds check_steps check_inputs validate_step_inputs
    validate_input names_known order_steps job_steps degree no_edges add_edges edges_of frontier
    lower drain_ready dependencies add_dependency GoMap.get GoMap.put names_under has assembled
build-InOrder_example =
    build-InOrder (λ job_type handler. none) (1 ∷ []) 5 a_request [] built_run refl

abbrev submitted_run : Pipeline × Log
submitted_run = elim (submit busy (λ job_type handler. none) (λ p. none) (1 ∷ []) a_request []) [
  | inl e ↦ (a_run, nothing_yet)
  | inr r ↦ r
]

submit_moves_example :
    (any_running submitted_run.0.steps ≡ true)
    ⊎ ((all_terminal submitted_run.0.steps ≡ true) × (is_open submitted_run.0.status ≡ false))
unfolding submit build check_request check_seeds check_steps check_inputs validate_step_inputs
    validate_input names_known order_steps job_steps degree no_edges add_edges edges_of frontier
    lower drain_ready dependencies add_dependency GoMap.get GoMap.put names_under has assembled
submit_moves_example =
    submit_moves busy (λ job_type handler. none) (λ p. none) (1 ∷ []) a_request [] submitted_run
      refl

abbrev by_hand : Bytes → ℕ
by_hand name = if name == train then 2 else if name == fetch then 1 else 0

order_steps_succeeds_example :
    (ordered : List PipelineStep) × (order_steps a_request.steps (job_steps a_request.steps [])
      ≡ inr ordered)
unfolding order_steps job_steps dependencies add_dependency GoMap.get GoMap.put step has
order_steps_succeeds_example =
    order_steps_succeeds by_hand a_request.steps (seed_step ∷ []) refl
      ((refl, tt), ((refl, tt), tt)) ((omega arith, tt), ((omega arith, tt), tt))
