-- ===== src/Runner/Pipeline/Advance/Passes.antt =====
-- A relation between a step before and after that every single change keeps to is kept to by all
-- passes of Advance.
use tie.Prelude.{
  ℕ, zero, suc, ◌≡◌, refl, sym, Bool, true, false, List, [], ◌∷◌, ◌++◌, if◌then◌else◌, not, ◌⊎◌,
  inl, inr,
}
use mathlib.Core.Path.{subst}
use mathlib.Core.List.{append_assoc, append-nil}
use tie.Runner.Pipeline.{
  failed, skipped, Reason, PipelineStep, Pipeline, is_pending, StepState, waiting, ready,
  unrunnable, step_readiness,
}
use tie.Runner.Pipeline.Advance.{
  Outside, Log, submit_step, Visit, stay, put, submitted_or_failed, visit, Sweep, sweep, settle,
}
use tie.Runner.Pipeline.Advance.Visits.{Started, IsStarted, submit_step-IsStarted}

-- The changes that a pass makes to a pending step.
pub record IsAllowed (R : PipelineStep → PipelineStep → Type 0) : Type 0 where
  pub same : (s : PipelineStep) → R s s
  pub trans : (s t u : PipelineStep) → R s t → R t u → R s u
  pub skips :
      (s : PipelineStep) (r : Reason) (now : ℕ)
      → is_pending s.status ≡ true
      → R s (record s { status = skipped; error = r; finished = now })
  pub fails :
      (s : PipelineStep) (r : Reason) (now : ℕ)
      → is_pending s.status ≡ true
      → R s (record s { status = failed; error = r; finished = now })
  pub starts : (s t : PipelineStep) → is_pending s.status ≡ true → Started s t → R s t

abbrev pub Pointwise :
    (PipelineStep → PipelineStep → Type 0) → List PipelineStep → List PipelineStep → Type 0
Pointwise R [] [] = Unit
Pointwise R [] (t ∷ ts) = ⊥
Pointwise R (s ∷ ss) [] = ⊥
Pointwise R (s ∷ ss) (t ∷ ts) = R s t × Pointwise R ss ts

module _ (R : PipelineStep → PipelineStep → Type 0) (allowed : IsAllowed R) where
  pub Pointwise-refl : (ss : List PipelineStep) → Pointwise R ss ss
  Pointwise-refl [] = tt
  Pointwise-refl (s ∷ ss) = (allowed.same s, Pointwise-refl ss)

  pub Pointwise-trans :
      (ss ts us : List PipelineStep) → Pointwise R ss ts → Pointwise R ts us → Pointwise R ss us
  Pointwise-trans [] [] [] g h = tt
  Pointwise-trans [] (t ∷ ts) us g h = elim g [ ]
  Pointwise-trans (s ∷ ss) [] us g h = elim g [ ]
  Pointwise-trans [] [] (u ∷ us) g h = elim h [ ]
  Pointwise-trans (s ∷ ss) (t ∷ ts) [] g h = elim h [ ]
  Pointwise-trans (s ∷ ss) (t ∷ ts) (u ∷ us) g h =
      (allowed.trans s t u g.0 h.0, Pointwise-trans ss ts us g.1 h.1)

  Pointwise-append :
      (before : List PipelineStep) (ss ts : List PipelineStep)
      → Pointwise R ss ts
      → Pointwise R (before ++ ss) (before ++ ts)
  Pointwise-append [] ss ts h = h
  Pointwise-append (b ∷ before) ss ts h = (allowed.same b, Pointwise-append before ss ts h)

  submitted_allowed :
      (o : Outside) (s : PipelineStep) (r : Log × (Reason ⊎ PipelineStep))
      → is_pending s.status ≡ true
      → IsStarted s r
      → R s (submitted_or_failed o s r).after
  unfolding submitted_or_failed put
  submitted_allowed o s (log, inl r) h e = allowed.fails s r o.now h
  submitted_allowed o s (log, inr t) h e = allowed.starts s t h e

  visit_allowed :
      (o : Outside) (p : Pipeline) (steps : List PipelineStep) (s : PipelineStep) (log : Log)
      → R s (visit o p steps s log).after
  unfolding visit
  visit_allowed o p steps s log = by_status (is_pending s.status) refl
    where
      by_state :
          (x : StepState)
          → is_pending s.status ≡ true
          → R s
              (elim x as (λ _. Visit) [
                | waiting ↦ stay s log
                | unrunnable r ↦
                    put (record s { status = skipped; error = r; finished = o.now }) log
                | ready ↦ submitted_or_failed o s (submit_step o p steps s log)
              ]).after
      by_state waiting h = unfold stay in allowed.same s
      by_state (unrunnable r) h = unfold put in allowed.skips s r o.now h
      by_state ready h = submitted_allowed o s _ h (submit_step-IsStarted o p steps s log)

      by_status :
          (b : Bool)
          → is_pending s.status ≡ b
          → R s
              (if not b then stay s log else elim (step_readiness steps s) [
                | waiting ↦ stay s log
                | unrunnable r ↦
                    put (record s { status = skipped; error = r; finished = o.now }) log
                | ready ↦ submitted_or_failed o s (submit_step o p steps s log)
              ]).after
      by_status false e = unfold stay in allowed.same s
      by_status true e = by_state (step_readiness steps s) e

  sweep-Pointwise :
      (o : Outside) (p : Pipeline) (before rest : List PipelineStep) (log : Log)
      → Pointwise R (before ++ rest) (sweep o p before rest log).steps
  unfolding sweep
  sweep-Pointwise o p before [] log =
      subst (λ ss. Pointwise R ss before) (sym (append-nil before)) (Pointwise-refl before)
  sweep-Pointwise o p before (s ∷ rest) log =
      let v = visit o p (before ++ s ∷ rest) s log in
      Pointwise-trans (before ++ s ∷ rest) ((before ++ v.after ∷ []) ++ rest) _
        (subst (Pointwise R (before ++ s ∷ rest)) (sym (append_assoc before (v.after ∷ []) rest)) (
          Pointwise-append before (s ∷ rest) (v.after ∷ rest)
            (visit_allowed o p (before ++ s ∷ rest) s log, Pointwise-refl rest)))
        (sweep-Pointwise o p (before ++ v.after ∷ []) rest v.log)

  pub settle-Pointwise :
      (n : ℕ) (o : Outside) (p : Pipeline) (steps : List PipelineStep) (log : Log)
      → Pointwise R steps (settle n o p steps log).steps
  unfolding settle
  settle-Pointwise zero o p steps log = Pointwise-refl steps
  settle-Pointwise (suc n) o p steps log =
      let r = sweep o p [] steps log in
      by_change r r.changed (settle n o p r.steps r.log) (sweep-Pointwise o p [] steps log)
        (settle-Pointwise n o p r.steps r.log)
    where
      by_change :
          (r : Sweep) (b : Bool) (more : Sweep)
          → Pointwise R steps r.steps
          → Pointwise R r.steps more.steps
          → Pointwise R steps (elim b as (λ _. Sweep) [ true ↦ more | false ↦ r ]).steps
      by_change r true more g h = Pointwise-trans steps r.steps more.steps g h
      by_change r false more g h = g
