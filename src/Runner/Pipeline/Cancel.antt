-- ===== src/Runner/Pipeline/Cancel.antt =====
-- runner/pipeline/pipeline.go: Cancel. The messages that the store keeps for people are reasons.
pub mod Stops
use tie.Prelude.{
  ℕ, ◌≡◌, refl, sym, ap, ◌∙◌, Bool, true, false, Option, none, some, List, [], ◌∷◌, ◌++◌,
  if◌then◌else◌, not, ◌⊎◌, inl, inr, All, Bool-cases,
}
use tie.Tiedb.Triples.{Bytes}
use tie.Compose.{is_empty}
use tie.Runner.Pipeline.{
  StepStatus, pending, running, done, failed, skipped, other, RunStatus, cancelled, Reason,
  cancelled_by_user, pipeline_cancelled, PipelineStep, Pipeline, is_final, terminal,
}
use tie.Runner.Pipeline.Advance.{Outside, Log, all_terminal, is_open, advance}
use tie.Runner.Pipeline.Advance.Grows.{is_known, Grows, Grows-refl, AllGrow, to_status}

-- What a step that has not ended becomes; `none` leaves the step.
abbrev pub cancel_step : ℕ → PipelineStep → StepStatus → Option PipelineStep
cancel_step finished s running =
    some (record s { status = failed; error = cancelled_by_user; finished = finished })
cancel_step finished s pending =
    some (record s { status = skipped; error = pipeline_cancelled; finished = finished })
cancel_step finished s done = none
cancel_step finished s failed = none
cancel_step finished s skipped = none
cancel_step finished s (other b) = none

-- The job that is cancelled with a step.
abbrev pub job_of : PipelineStep → StepStatus → List Bytes
job_of s running = if is_empty s.job_id then [] else s.job_id ∷ []
job_of s pending = []
job_of s done = []
job_of s failed = []
job_of s skipped = []
job_of s (other b) = []

-- The loop over the steps: the steps afterwards, those written, and the jobs cancelled, in order. A
-- job that cannot be cancelled is logged only.
unfoldable pub cancel_steps :
    ℕ → List PipelineStep → List PipelineStep × List PipelineStep × List Bytes
cancel_steps finished [] = ([], [], [])
cancel_steps finished (s ∷ steps) =
    let rest = cancel_steps finished steps in
    elim (cancel_step finished s s.status) [
      | none ↦ (s ∷ rest.0, rest.1, rest.2)
      | some t ↦ (t ∷ rest.0, t ∷ rest.1, job_of s s.status ++ rest.2)
    ]

pub record Cancelled : Type 0 where
  pub after : Pipeline
  pub written : List PipelineStep
  pub jobs : List Bytes

-- Cancel on a pipeline that the store has; the error names the status of one that is not running.
unfoldable pub cancel : ℕ → Pipeline → RunStatus ⊎ Cancelled
cancel finished p =
    let r = cancel_steps finished p.steps in
    if is_open p.status
    then inr (record {
      after = record p { status = cancelled; finished = finished; steps = r.0 };
      written = r.1;
      jobs = r.2;
    })
    else inl p.status
