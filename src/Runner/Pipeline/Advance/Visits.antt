-- ===== src/Runner/Pipeline/Advance/Visits.antt =====
-- What a pass of Advance makes of one step.
use tie.Prelude.{
  ◌≡◌, refl, ap, Bool, true, false, List, [], ◌∷◌, ◌++◌, if◌then◌else◌, not, ◌⊎◌, inl, inr,
  Bool-cases,
}
use tie.Tiedb.Triples.{Bytes}
use tie.Compose.{resolve_steps, SelectError, Spec}
use tie.Runner.Pipeline.{
  running, skipped, Reason, selection, PipelineStep, Pipeline, is_pending, StepState, waiting,
  ready, unrunnable, step_readiness,
}
use tie.Runner.Pipeline.Advance.{
  Outside, Log, output_of, request_of, submit_step, Visit, stay, put, submitted_or_failed, visit,
}

-- A visit either leaves all as it was, or ends the step's being pending.
pub data Visited (s : PipelineStep) (log : Log) (v : Visit) : Type 0 where
  kept : v ≡ stay s log → Visited s log v
  moved :
      is_pending s.status ≡ true
      → v.changed ≡ true
      → is_pending v.after.status ≡ false
      → Visited s log v

-- A step that runs, with the graph and the output that it had.
abbrev pub Started : PipelineStep → PipelineStep → Type 0
Started s t =
    (t.name ≡ s.name)
    × (t.inputs ≡ s.inputs)
    × (t.handler ≡ s.handler)
    × (t.status ≡ running)
    × (t.output_hash ≡ s.output_hash)

abbrev pub IsStarted : PipelineStep → Log × (Reason ⊎ PipelineStep) → Type 0
IsStarted s (log, inl r) = Unit
IsStarted s (log, inr t) = Started s t

-- A submission that succeeds gives the step as running.
pub submit_step-IsStarted :
    (o : Outside) (p : Pipeline) (steps : List PipelineStep) (s : PipelineStep) (log : Log)
    → IsStarted s (submit_step o p steps s log)
unfolding submit_step
submit_step-IsStarted o p steps s log = by_specs (resolve_steps s.inputs (output_of steps))
  where
    by_job :
        (log1 : Log) (x : Reason ⊎ Bytes)
        → IsStarted s (elim x as (λ _. Log × (Reason ⊎ PipelineStep)) [
          | inl r ↦ (log1, inl r)
          | inr job_id ↦
              (log1, inr (record s { status = running; job_id = job_id; started = o.now }))
        ])
    by_job log1 (inl r) = tt
    by_job log1 (inr job_id) = (refl, refl, refl, refl, refl)

    by_input :
        (x : Reason ⊎ Bytes)
        → IsStarted s (elim x as (λ _. Log × (Reason ⊎ PipelineStep)) [
          | inl r ↦ (log, inl r)
          | inr input_hash ↦
              let req = request_of p s input_hash in
              let log1 = record log { submitted = log.submitted ++ req ∷ [] } in
              elim (o.submit_job log.submitted req) [
                | inl r ↦ (log1, inl r)
                | inr job_id ↦
                    (log1, inr (record s { status = running; job_id = job_id; started = o.now }))
              ]
        ])
    by_input (inl r) = tt
    by_input (inr input_hash) =
        by_job (record log { submitted = log.submitted ++ request_of p s input_hash ∷ [] })
          (o.submit_job log.submitted (request_of p s input_hash))

    by_specs :
        (x : SelectError ⊎ List Spec)
        → IsStarted s (elim x as (λ _. Log × (Reason ⊎ PipelineStep)) [
          | inl e ↦ (log, inl (selection e))
          | inr specs ↦ elim (o.build log.submitted specs) [
            | inl r ↦ (log, inl r)
            | inr input_hash ↦
                let req = request_of p s input_hash in
                let log1 = record log { submitted = log.submitted ++ req ∷ [] } in
                elim (o.submit_job log.submitted req) [
                  | inl r ↦ (log1, inl r)
                  | inr job_id ↦
                      (log1, inr (record s { status = running; job_id = job_id; started = o.now }))
                ]
          ]
        ])
    by_specs (inl e) = tt
    by_specs (inr specs) = by_input (o.build log.submitted specs)

submitted-Visited :
    (o : Outside) (s : PipelineStep) (log : Log) (r : Log × (Reason ⊎ PipelineStep))
    → is_pending s.status ≡ true
    → IsStarted s r
    → Visited s log (submitted_or_failed o s r)
unfolding submitted_or_failed put
submitted-Visited o s log (log1, inl r) h e = moved h refl refl
submitted-Visited o s log (log1, inr t) h e = moved h refl (ap is_pending e.3)

pub visit-Visited :
    (o : Outside) (p : Pipeline) (steps : List PipelineStep) (s : PipelineStep) (log : Log)
    → Visited s log (visit o p steps s log)
unfolding visit
visit-Visited o p steps s log = elim (Bool-cases (is_pending s.status)) [
  | inr idle ↦ rw (idle, visit) (kept refl)
  | inl waits ↦ rw (waits, visit) (by_state waits (step_readiness steps s))
]
  where
    by_state :
        (h : is_pending s.status ≡ true) (x : StepState)
        → Visited s log (elim x as (λ _. Visit) [
          | waiting ↦ stay s log
          | unrunnable r ↦ put (record s { status = skipped; error = r; finished = o.now }) log
          | ready ↦ submitted_or_failed o s (submit_step o p steps s log)
        ])
    by_state h waiting = kept refl
    by_state h (unrunnable r) = unfold put in moved h refl refl
    by_state h ready = submitted-Visited o s log _ h (submit_step-IsStarted o p steps s log)

-- A step that the loop leaves alone.
abbrev pub Idle : List PipelineStep → PipelineStep → Type 0
Idle steps s = (is_pending s.status ≡ false) ⊎ (step_readiness steps s ≡ waiting)

submitted_changes :
    (o : Outside) (s : PipelineStep) (r : Log × (Reason ⊎ PipelineStep))
    → (submitted_or_failed o s r).changed ≡ true
unfolding submitted_or_failed put
submitted_changes o s (log, inl r) = refl
submitted_changes o s (log, inr t) = refl

pub visit-Idle :
    (o : Outside) (p : Pipeline) (steps : List PipelineStep) (s : PipelineStep) (log : Log)
    → (visit o p steps s log).changed ≡ false
    → Idle steps s
unfolding visit
visit-Idle o p steps s log e = by_status (is_pending s.status) refl e
  where
    by_state :
        (x : StepState)
        → step_readiness steps s ≡ x
        → (elim x as (λ _. Visit) [
          | waiting ↦ stay s log
          | unrunnable r ↦ put (record s { status = skipped; error = r; finished = o.now }) log
          | ready ↦ submitted_or_failed o s (submit_step o p steps s log)
        ]).changed
          ≡ false
        → Idle steps s
    by_state waiting e f = inr e
    by_state (unrunnable r) e f = unfold put in absurd (cc f)
    by_state ready e f = absurd (cc (submitted_changes o s (submit_step o p steps s log), f))

    by_status :
        (b : Bool)
        → is_pending s.status ≡ b
        → (if not b then stay s log else elim (step_readiness steps s) [
          | waiting ↦ stay s log
          | unrunnable r ↦ put (record s { status = skipped; error = r; finished = o.now }) log
          | ready ↦ submitted_or_failed o s (submit_step o p steps s log)
        ]).changed
          ≡ false
        → Idle steps s
    by_status false e f = inl e
    by_status true e f = by_state (step_readiness steps s) refl f
