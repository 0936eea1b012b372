-- ===== src/Runner/Pipeline/Resume/Reuses.antt =====
-- A resume takes the outcomes of earlier runs over, but for the steps that it runs again.
use tie.Prelude.{
  ℕ, ◌≡◌, refl, sym, ap, ◌∙◌, true, false, Option, none, some, List, [], nat_eq, list_eq, inl, inr,
  get_elem?, ◌⊎◌, Bool-cases,
}
use tie.Prelude.GoMap
use tie.Tiedb.Triples.{Bytes}
use tie.Runner.Pipeline.{PipelineStep, Pipeline, is_done, terminal}
use tie.Runner.Pipeline.Advance.{Outside, Log, advance}
use tie.Runner.Pipeline.Advance.Finishes.{advance-final, then_branch, else_branch}
use tie.Runner.Pipeline.Advance.Outputs.{advance_withholds}
use tie.Runner.Pipeline.Rerun.{has, steps_to_rerun}
use tie.Runner.Pipeline.Rerun.Exact.{IsDownstream, steps_to_rerun_iff}
use tie.Runner.Pipeline.Resume.{ResumeError, Override, apply_overrides, reopen, resume}
use tie.Runner.Pipeline.Resume.Repairs.{get_elem-reopen}

resumed :
    (o : Outside) (p : Pipeline) (from : Bytes) (overrides : List Override) (r : Pipeline × Log)
    → resume o p from overrides ≡ inr r
    → ((reopen p from overrides).error ≡ none) × (advance o (reopen p from overrides).after ≡ r)
unfolding resume
resumed o p from overrides r e = by_error (reopen p from overrides).error e
  where
    by_error :
        (x : Option ResumeError)
        → elim x as (λ _. ResumeError ⊎ (Pipeline × Log)) [
          | some e ↦ inl e
          | none ↦ inr (advance o (reopen p from overrides).after)
        ]
          ≡ inr r
        → (x ≡ none) × (advance o (reopen p from overrides).after ≡ r)
    by_error none e = (refl, cc e)
    by_error (some x) e = absurd (cc e)

-- When a resume succeeds, a step that had ended, is not overridden and is not downstream of where the
-- resume starts is as it was: its output is used again, whatever the jobs report.
pub resume_reuses :
    (o : Outside) (p : Pipeline) (from : Bytes) (overrides : List Override) (r : Pipeline × Log)
    (i : ℕ) (s : PipelineStep)
    → resume o p from overrides ≡ inr r
    → get_elem? p.steps i ≡ some s
    → terminal s ≡ true
    → GoMap.get overrides s.name ≡ none
    → ¬ IsDownstream (apply_overrides p.steps overrides) from s.name
    → get_elem? r.0.steps i ≡ some s
resume_reuses o p from overrides r i s e at ended own upstream =
    let d = resumed o p from overrides r e in
    let kept : has (steps_to_rerun (apply_overrides p.steps overrides) from) s.name ≡ false =
      elim (Bool-cases (has (steps_to_rerun (apply_overrides p.steps overrides) from) s.name)) [
        | inl h ↦
            absurd
              (upstream ((steps_to_rerun_iff (apply_overrides p.steps overrides) from s.name).0 h))
        | inr h ↦ h
      ] in
    let before : get_elem? (reopen p from overrides).after.steps i ≡ some s =
      (get_elem-reopen p from overrides i s d.0 at own).1 ∙ ap some (else_branch _ _ s kept) in
    ap (λ (x : Pipeline × Log). get_elem? x.0.steps i) (sym d.1)
    ∙ advance-final o (reopen p from overrides).after i s before ended

-- When a resume succeeds, a step that is downstream of where it starts, and is not overridden, is not
-- done and has no output, whatever it had before: no later step is given an output of an earlier run.
pub resume_reruns :
    (o : Outside) (p : Pipeline) (from : Bytes) (overrides : List Override) (r : Pipeline × Log)
    (i : ℕ) (s : PipelineStep)
    → resume o p from overrides ≡ inr r
    → get_elem? p.steps i ≡ some s
    → GoMap.get overrides s.name ≡ none
    → IsDownstream (apply_overrides p.steps overrides) from s.name
    → (t : PipelineStep) × (get_elem? r.0.steps i ≡ some t)
      × (t.output_hash ≡ [])
      × (is_done t.status ≡ false)
resume_reruns o p from overrides r i s e at own downstream =
    let d = resumed o p from overrides r e in
    let marked =
      (steps_to_rerun_iff (apply_overrides p.steps overrides) from s.name).1 downstream in
    let before =
      (get_elem-reopen p from overrides i s d.0 at own).1 ∙ ap some (then_branch _ _ s marked) in
    let w = advance_withholds o (reopen p from overrides).after i _ before refl in
    (w.0, ap (λ (x : Pipeline × Log). get_elem? x.0.steps i) (sym d.1) ∙ w.1, w.2, w.3)
