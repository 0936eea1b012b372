-- ===== src/Runner/Pipeline/Cancel/Stops.antt =====
-- A cancelled pipeline has nothing left to do.
use tie.Prelude.{
  ℕ, zero, suc, ◌≡◌, refl, ap, ◌∙◌, Bool, true, false, none, some, List, [], ◌∷◌, ◌++◌,
  if◌then◌else◌, nat_eq, list_eq, list_beq_iff, inl, inr, All, get_elem?, arith,
}
use tie.Tiedb.Triples.{Bytes}
use tie.Compose.{is_empty}
use tie.Runner.Pipeline.{
  StepStatus, pending, running, done, failed, skipped, other, cancelled, PipelineStep, Pipeline,
  is_final, terminal,
}
use tie.Runner.Pipeline.Advance.{Outside, all_terminal, is_open, advance}
use tie.Runner.Pipeline.Advance.Grows.{is_known, Grows-refl, AllGrow, to_status}
use tie.Runner.Pipeline.Advance.Finishes.{else_branch}
use tie.Runner.Pipeline.Advance.Ordered.{Known}
use tie.Runner.Pipeline.Rerun.{has}
use tie.Runner.Pipeline.Rerun.Graph.{has-append}
use tie.Runner.Pipeline.Cancel.{cancel_step, job_of, cancel_steps, Cancelled, cancel}

-- What one step and the rest make of the steps and of the jobs.
stopped_step :
    (finished : ℕ) (s : PipelineStep) (st : StepStatus)
    (rest : List PipelineStep × List PipelineStep × List Bytes) (steps : List PipelineStep)
    → s.status ≡ st
    → AllGrow steps rest.0
    → (All Known steps → all_terminal rest.0 ≡ true)
    → let r : List PipelineStep × List PipelineStep × List Bytes =
        elim (cancel_step finished s st)
          as (λ _. List PipelineStep × List PipelineStep × List Bytes) [
            | none ↦ (s ∷ rest.0, rest.1, rest.2)
            | some t ↦ (t ∷ rest.0, t ∷ rest.1, job_of s st ++ rest.2)
          ] in
      AllGrow (s ∷ steps) r.0 × (All Known (s ∷ steps) → all_terminal r.0 ≡ true)
unfolding all_terminal terminal
stopped_step finished s running rest steps e g t =
    ((to_status s _ (ap is_final e) refl refl refl refl, g), λ k. t k.1)
stopped_step finished s pending rest steps e g t =
    ((to_status s _ (ap is_final e) refl refl refl refl, g), λ k. t k.1)
stopped_step finished s done rest steps e g t = ((Grows-refl s, g), λ k. rw (e, is_final) (t k.1))
stopped_step finished s failed rest steps e g t = ((Grows-refl s, g), λ k. rw (e, is_final) (t k.1))
stopped_step finished s skipped rest steps e g t =
    ((Grows-refl s, g), λ k. rw (e, is_final) (t k.1))
stopped_step finished s (other b) rest steps e g t =
    ((Grows-refl s, g), λ k. absurd (cc (k.0, ap is_known e)))

cancel_steps-stop :
    (finished : ℕ) (steps : List PipelineStep)
    → AllGrow steps (cancel_steps finished steps).0
      × (All Known steps → all_terminal (cancel_steps finished steps).0 ≡ true)
unfolding cancel_steps all_terminal
cancel_steps-stop finished [] = (tt, λ k. refl)
cancel_steps-stop finished (s ∷ steps) =
    let rest = cancel_steps-stop finished steps in
    stopped_step finished s s.status (cancel_steps finished steps) steps refl rest.0 rest.1

-- What a cancellation that succeeds gives.
cancel_result :
    (finished : ℕ) (p : Pipeline) (c : Cancelled)
    → cancel finished p ≡ inr c
    → let r = cancel_steps finished p.steps in
      c ≡ record {
        after = record p { status = cancelled; finished = finished; steps = r.0 };
        written = r.1;
        jobs = r.2;
      }
unfolding cancel
cancel_result finished p c e = by_test (is_open p.status) e
  where
    by_test : {d : Cancelled} (b : Bool) → (if b then inr d else inl p.status) ≡ inr c → c ≡ d
    by_test true e = cc e
    by_test false e = absurd (cc e)

-- After a cancellation that succeeds, where every step had a status of the engine, no step is left
-- to run, and no later advance, whatever the jobs report, changes the pipeline or submits a job.
pub cancel_stops :
    (finished : ℕ) (p : Pipeline) (c : Cancelled) (o : Outside)
    → All Known p.steps
    → cancel finished p ≡ inr c
    → (all_terminal c.after.steps ≡ true)
      × (advance o c.after ≡ (c.after, record { submitted = []; written = [] }))
unfolding terminal is_open
cancel_stops finished p c o k e =
    let same = cancel_result finished p c e in
    (
      ap (λ (x : Cancelled). all_terminal x.after.steps) same
          ∙ (cancel_steps-stop finished p.steps).1 k,
      shut c.after (ap (λ (x : Cancelled). is_open x.after.status) same),
    )
  where
    shut :
        (q : Pipeline)
        → is_open q.status ≡ false
        → advance o q ≡ (q, record { submitted = []; written = [] })
    shut q h = unfold advance in else_branch (is_open q.status) _ _ h

cancelled_step :
    (finished : ℕ) (s : PipelineStep) (st : StepStatus)
    (rest : List PipelineStep × List PipelineStep × List Bytes)
    → (elim (cancel_step finished s st)
        as (λ _. List PipelineStep × List PipelineStep × List Bytes) [
          | none ↦ (s ∷ rest.0, rest.1, rest.2)
          | some t ↦ (t ∷ rest.0, t ∷ rest.1, job_of s st ++ rest.2)
        ]).2
      ≡ job_of s st ++ rest.2
cancelled_step finished s running rest = refl
cancelled_step finished s pending rest = refl
cancelled_step finished s done rest = refl
cancelled_step finished s failed rest = refl
cancelled_step finished s skipped rest = refl
cancelled_step finished s (other b) rest = refl

cancelled_job :
    (finished : ℕ) (steps : List PipelineStep) (i : ℕ) (s : PipelineStep)
    → get_elem? steps i ≡ some s
    → s.status ≡ running
    → is_empty s.job_id ≡ false
    → has (cancel_steps finished steps).2 s.job_id ≡ true
unfolding has cancel_steps
cancelled_job finished [] i s e r j = absurd (cc e)
cancelled_job finished (x ∷ steps) zero s e r j =
    let same : x ≡ s = cc e in
    let jobs : job_of x x.status ≡ s.job_id ∷ [] =
      ap (λ (y : PipelineStep). job_of y y.status) same
      ∙ ap (job_of s) r
      ∙ else_branch (is_empty s.job_id) [] (s.job_id ∷ []) j in
    ap (λ (js : List Bytes). has js s.job_id)
      (cancelled_step finished x x.status (cancel_steps finished steps)
        ∙ ap (λ (js : List Bytes). js ++ (cancel_steps finished steps).2) jobs)
    ∙ ground (arith, list_beq_iff s.job_id s.job_id)
cancelled_job finished (x ∷ steps) (suc i) s e r j =
    let later = cancelled_job finished steps i s e r j in
    ap (λ (js : List Bytes). has js s.job_id)
      (cancelled_step finished x x.status (cancel_steps finished steps))
    ∙ has-append (job_of x x.status) (cancel_steps finished steps).2 s.job_id
    ∙ ground (arith, later)

-- A cancellation that succeeds cancels the job of every running step that has one.
pub cancel-jobs :
    (finished : ℕ) (p : Pipeline) (c : Cancelled) (i : ℕ) (s : PipelineStep)
    → cancel finished p ≡ inr c
    → get_elem? p.steps i ≡ some s
    → s.status ≡ running
    → is_empty s.job_id ≡ false
    → has c.jobs s.job_id ≡ true
cancel-jobs finished p c i s e f r j =
    ap (λ (x : Cancelled). has x.jobs s.job_id) (cancel_result finished p c e)
    ∙ cancelled_job finished p.steps i s f r j
