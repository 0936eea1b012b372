-- ===== src/Runner/Pipeline/Advance/Grows.antt =====
-- What Advance may do to a step: a terminal step stays as it is, and the graph does not change.
use tie.Prelude.{
  ℕ, ◌≡◌, refl, ap, ◌∙◌, Bool, true, false, Option, none, some, List, [], ◌∷◌, if◌then◌else◌, not,
  ◌||◌,
}
use tie.Compose.{is_empty}
use tie.Runner.Pipeline.{
  StepStatus, pending, running, done, failed, skipped, other, RunStatus, queued, cancelled,
  PipelineStep, Pipeline, JobOutcome, is_pending, is_running, is_final,
}
use tie.Runner.Pipeline.Advance.{Outside, Log, settle, synced, sync_step, sync_finished_steps}
use tie.Runner.Pipeline.Advance.Passes.{
  IsAllowed, Pointwise, Pointwise-refl, Pointwise-trans, settle-Pointwise,
}

-- One of the five statuses that the engine sets.
abbrev pub is_known : StepStatus → Bool
is_known (other b) = false
is_known pending = true
is_known running = true
is_known done = true
is_known failed = true
is_known skipped = true

pub record Grows (s t : PipelineStep) : Type 0 where
  pub name : t.name ≡ s.name
  pub inputs : t.inputs ≡ s.inputs
  pub handler : t.handler ≡ s.handler
  pub final : is_final s.status ≡ true → t ≡ s
  pub known : is_known s.status ≡ true → is_known t.status ≡ true

pub Grows-refl : (s : PipelineStep) → Grows s s
Grows-refl s = record {
  name = refl;
  inputs = refl;
  handler = refl;
  final = λ h. refl;
  known = λ h. h;
}

Grows-trans : (s t u : PipelineStep) → Grows s t → Grows t u → Grows s u
Grows-trans s t u g h = record {
  name = h.name ∙ g.name;
  inputs = h.inputs ∙ g.inputs;
  handler = h.handler ∙ g.handler;
  final = λ e. h.final (ap (λ (x : PipelineStep). is_final x.status) (g.final e) ∙ e) ∙ g.final e;
  known = λ e. h.known (g.known e);
}

-- A step that is not terminal takes a known status and keeps its part of the graph.
pub to_status :
    (s t : PipelineStep)
    → is_final s.status ≡ false
    → t.name ≡ s.name
    → t.inputs ≡ s.inputs
    → t.handler ≡ s.handler
    → is_known t.status ≡ true
    → Grows s t
to_status s t begun n i h k = record {
  name = n;
  inputs = i;
  handler = h;
  final = λ e. cc;
  known = λ e. k;
}

not_final : (st : StepStatus) → is_pending st ≡ true → is_final st ≡ false
not_final pending h = refl
not_final running h = refl
not_final done h = cc
not_final failed h = cc
not_final skipped h = cc
not_final (other b) h = refl

Grows-IsAllowed : IsAllowed Grows
Grows-IsAllowed = record {
  same = Grows-refl;
  trans = Grows-trans;
  skips = λ s r now h. to_status s _ (not_final s.status h) refl refl refl refl;
  fails = λ s r now h. to_status s _ (not_final s.status h) refl refl refl refl;
  starts = λ s t h e. to_status s t (not_final s.status h) e.0 e.1 e.2 (ap is_known e.3);
}

abbrev pub AllGrow : List PipelineStep → List PipelineStep → Type 0
AllGrow = Pointwise Grows

pub AllGrow-refl : (ss : List PipelineStep) → AllGrow ss ss
AllGrow-refl ss = Pointwise-refl Grows Grows-IsAllowed ss

pub AllGrow-trans : (ss ts us : List PipelineStep) → AllGrow ss ts → AllGrow ts us → AllGrow ss us
AllGrow-trans ss ts us g h = Pointwise-trans Grows Grows-IsAllowed ss ts us g h

pub settle-AllGrow :
    (n : ℕ) (o : Outside) (p : Pipeline) (steps : List PipelineStep) (log : Log)
    → AllGrow steps (settle n o p steps log).steps
settle-AllGrow n o p steps log = settle-Pointwise Grows Grows-IsAllowed n o p steps log

running_not_final : (st : StepStatus) → is_running st ≡ true → is_final st ≡ false
running_not_final pending h = refl
running_not_final running h = refl
running_not_final done h = cc
running_not_final failed h = cc
running_not_final skipped h = cc
running_not_final (other b) h = refl

-- What a job's outcome makes of a running step.
abbrev Outcome : PipelineStep → Option PipelineStep → Type 0
Outcome s none = Unit
Outcome s (some t) = Grows s t

synced-Outcome :
    (o : Outside) (j : JobOutcome) (st : RunStatus) (s : PipelineStep)
    → is_final s.status ≡ false
    → Outcome s (synced o j st s)
unfolding synced
synced-Outcome o j done s h = to_status s _ h refl refl refl refl
synced-Outcome o j failed s h = to_status s _ h refl refl refl refl
synced-Outcome o j cancelled s h = to_status s _ h refl refl refl refl
synced-Outcome o j queued s h = tt
synced-Outcome o j running s h = tt

sync_step-Outcome : (o : Outside) (s : PipelineStep) → Outcome s (sync_step o s)
unfolding sync_step
sync_step-Outcome o s = by_status (is_running s.status) (is_empty s.job_id) refl
  where
    by_job :
        (j : Option JobOutcome)
        → is_final s.status ≡ false
        → Outcome s
            (elim j as (λ _. Option PipelineStep) [ none ↦ none | some j ↦ synced o j j.status s ])
    by_job none h = tt
    by_job (some j) h = synced-Outcome o j j.status s h

    by_status :
        (b blank : Bool)
        → is_running s.status ≡ b
        → Outcome s (
            if not b || blank
            then none
            else elim (o.get_job s.job_id) [ none ↦ none | some j ↦ synced o j j.status s ])
    by_status false blank e = tt
    by_status true true e = tt
    by_status true false e = by_job (o.get_job s.job_id) (running_not_final s.status e)

pub sync_finished_steps-AllGrow :
    (o : Outside) (steps : List PipelineStep) (log : Log)
    → AllGrow steps (sync_finished_steps o steps log).0
unfolding sync_finished_steps
sync_finished_steps-AllGrow o [] log = tt
sync_finished_steps-AllGrow o (s ∷ steps) log =
    (by_outcome (sync_step o s) (sync_step-Outcome o s), sync_finished_steps-AllGrow o steps _)
  where
    by_outcome :
        (t : Option PipelineStep)
        → Outcome s t
        → Grows s (elim t as (λ _. PipelineStep) [ none ↦ s | some u ↦ u ])
    by_outcome none h = Grows-refl s
    by_outcome (some t) h = h
