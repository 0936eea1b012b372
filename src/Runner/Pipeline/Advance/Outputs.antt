-- ===== src/Runner/Pipeline/Advance/Outputs.antt =====
-- An advance gives no output to a step that has not run: a pending step comes out of it as it was, or
-- started, or ended without being done.
use tie.Prelude.{
  ℕ, zero, suc, ◌≡◌, refl, sym, ap, ◌∙◌, Bool, true, false, none, some, List, [], ◌∷◌,
  if◌then◌else◌, not, ◌||◌, inl, inr, length, get_elem?, Bool-cases,
}
use mathlib.Core.Path.{subst}
use tie.Compose.{is_empty}
use tie.Runner.Pipeline.{
  StepStatus, pending, running, done, failed, skipped, other, PipelineStep, Pipeline, is_pending,
  is_running, is_done,
}
use tie.Runner.Pipeline.Advance.{
  Outside, Log, synced, sync_step, sync_finished_steps, is_open, advance,
}
use tie.Runner.Pipeline.Advance.Passes.{IsAllowed, Pointwise, settle-Pointwise}
use tie.Runner.Pipeline.Advance.Finishes.{
  settled, advance_open, advance_closed, finalize_if_done_steps,
}

-- A pass makes no step done, and leaves every output.
record Withholds (s t : PipelineStep) : Type 0 where
  output : t.output_hash ≡ s.output_hash
  undone : is_done t.status ≡ true → t ≡ s

Withholds-IsAllowed : IsAllowed Withholds
Withholds-IsAllowed = record {
  same = λ s. record { output = refl; undone = λ e. refl };
  trans = λ s t u g h. record {
    output = h.output ∙ g.output;
    undone = λ e.
        h.undone e ∙ g.undone (ap (λ (x : PipelineStep). is_done x.status) (sym (h.undone e)) ∙ e);
  };
  skips = λ s r now h. record { output = refl; undone = λ e. cc };
  fails = λ s r now h. record { output = refl; undone = λ e. cc };
  starts = λ s t h e. record { output = e.4; undone = λ f. absurd (cc (f, ap is_done e.3)) };
}

get_elem-Pointwise :
    (R : PipelineStep → PipelineStep → Type 0) (ss ts : List PipelineStep) (i : ℕ)
    (s : PipelineStep)
    → Pointwise R ss ts
    → get_elem? ss i ≡ some s
    → (t : PipelineStep) × (get_elem? ts i ≡ some t) × R s t
get_elem-Pointwise R [] ts i s g e = absurd (cc e)
get_elem-Pointwise R (x ∷ ss) [] i s g e = elim g [ ]
get_elem-Pointwise R (x ∷ ss) (t ∷ ts) zero s g e =
    let same : x ≡ s = cc e in (t, refl, subst (λ (u : PipelineStep). R u t) same g.0)
get_elem-Pointwise R (x ∷ ss) (t ∷ ts) (suc i) s g e = get_elem-Pointwise R ss ts i s g.1 e

pending_not_running : (st : StepStatus) → is_pending st ≡ true → is_running st ≡ false
pending_not_running pending h = refl
pending_not_running running h = cc
pending_not_running done h = refl
pending_not_running failed h = refl
pending_not_running skipped h = refl
pending_not_running (other b) h = refl

pending_not_done : (st : StepStatus) → is_pending st ≡ true → is_done st ≡ false
pending_not_done pending h = refl
pending_not_done running h = refl
pending_not_done done h = cc
pending_not_done failed h = refl
pending_not_done skipped h = refl
pending_not_done (other b) h = refl

sync_step-pending :
    (o : Outside) (s : PipelineStep) → is_pending s.status ≡ true → sync_step o s ≡ none
unfolding sync_step
sync_step-pending o s h =
    by_test (is_running s.status) (is_empty s.job_id) (pending_not_running s.status h)
  where
    by_test :
        (b blank : Bool)
        → b ≡ false
        → (if not b || blank
            then none
            else elim (o.get_job s.job_id) [ none ↦ none | some j ↦ synced o j j.status s ])
          ≡ none
    by_test true blank e = absurd (cc e)
    by_test false blank e = refl

-- The outcomes of jobs leave a pending step.
sync_finished_steps-pending :
    (o : Outside) (steps : List PipelineStep) (log : Log) (i : ℕ) (s : PipelineStep)
    → get_elem? steps i ≡ some s
    → is_pending s.status ≡ true
    → get_elem? (sync_finished_steps o steps log).0 i ≡ some s
unfolding sync_finished_steps
sync_finished_steps-pending o [] log i s e h = absurd (cc e)
sync_finished_steps-pending o (x ∷ steps) log zero s e h =
    let same : x ≡ s = cc e in
    let idle : sync_step o x ≡ none = ap (sync_step o) same ∙ sync_step-pending o s h in
    ap (λ t. some (elim t as (λ _. PipelineStep) [ none ↦ x | some u ↦ u ])) idle ∙ ap some same
sync_finished_steps-pending o (x ∷ steps) log (suc i) s e h =
    sync_finished_steps-pending o steps _ i s e h

settled_pending :
    (o : Outside) (p : Pipeline) (i : ℕ) (s : PipelineStep)
    → get_elem? p.steps i ≡ some s
    → is_pending s.status ≡ true
    → (t : PipelineStep) × (get_elem? (settled o p) i ≡ some t) × Withholds s t
unfolding settled
settled_pending o p i s e h =
    let r = sync_finished_steps o p.steps (record { submitted = []; written = [] }) in
    get_elem-Pointwise Withholds r.0 _ i s
      (settle-Pointwise Withholds Withholds-IsAllowed (suc (length p.steps)) o p r.0 r.1)
      (sync_finished_steps-pending o p.steps _ i s e h)

-- A pending step has the output after an advance that it had before, and is not done.
pub advance_withholds :
    (o : Outside) (p : Pipeline) (i : ℕ) (s : PipelineStep)
    → get_elem? p.steps i ≡ some s
    → is_pending s.status ≡ true
    → (t : PipelineStep) × (get_elem? (advance o p).0.steps i ≡ some t)
      × (t.output_hash ≡ s.output_hash)
      × (is_done t.status ≡ false)
advance_withholds o p i s e h = elim (Bool-cases (is_open p.status)) [
  | inr shut ↦ (
    s,
    ap (λ (q : Pipeline). get_elem? q.steps i) (advance_closed o p shut) ∙ e,
    refl,
    pending_not_done s.status h,
  )
  | inl begun ↦
      let same : (advance o p).0.steps ≡ settled o p =
        ap (λ (q : Pipeline). q.steps) (advance_open o p begun)
        ∙ finalize_if_done_steps o (record p { steps = settled o p }) in
      let w = settled_pending o p i s e h in
      (
        w.0,
        ap (λ (ss : List PipelineStep). get_elem? ss i) same ∙ w.1,
        w.2.output,
        not_done w.0 w.2,
      )
]
  where
    not_done : (t : PipelineStep) → Withholds s t → is_done t.status ≡ false
    not_done t w = elim (Bool-cases (is_done t.status)) [
      | inr f ↦ f
      | inl d ↦ absurd (
          cc (
            d,
            ap (λ (x : PipelineStep). is_done x.status) (w.undone d),
            pending_not_done s.status h,
          ))
    ]
