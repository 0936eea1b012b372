-- ===== src/Runner/Pipeline/Submit.antt =====
-- runner/pipeline/pipeline.go: Submit and EntryHandler.
use tie.Prelude.{
  ◌≡◌, refl, Bool, true, false, Option, none, some, List, [], ◌∷◌, if◌then◌else◌, ltb, ◌⊎◌, inl,
  inr,
}
use mathlib.Core.Path.{subst}
use tie.Prelude.Int.{ℤ, pos, negsuc}
use tie.Tiedb.Triples.{Bytes}
use tie.Runner.Pipeline.{Reason, is_seed, PipelineStep, Pipeline}
use tie.Runner.Pipeline.Advance.{Outside, Log, all_terminal, is_open, advance}
use tie.Runner.Pipeline.Advance.Moves.{any_running, advance_moves}
use tie.Runner.Pipeline.Build.{PipelineRequest, BuildError, build}
use tie.Runner.Pipeline.Build.Starts.{build-InOrder}

pub data SubmitError : Type 0 where
  invalid : BuildError → SubmitError
  not_persisted : Reason → SubmitError

-- The answer of the store to the new pipeline is a parameter; an advance starts it.
unfoldable pub submit :
    Outside
    → (Bytes → Bytes → Option Reason)
    → (Pipeline → Option Reason)
    → Bytes
    → PipelineRequest
    → Bytes
    → SubmitError ⊎ (Pipeline × Log)
submit o validate_step insert_pipeline id req deploy_manager =
    elim (build validate_step id o.now req deploy_manager) [
      | inl e ↦ inl (invalid e)
      | inr p ↦ elim (insert_pipeline p) [
        | some r ↦ inl (not_persisted r)
        | none ↦ inr (advance o p)
      ]
    ]

int_lt : ℤ → ℤ → Bool
int_lt (pos a) (pos b) = ltb a b
int_lt (pos a) (negsuc b) = false
int_lt (negsuc a) (pos b) = true
int_lt (negsuc a) (negsuc b) = ltb b a

-- The job step of the lowest ordinal so far, the earlier one where two are equal.
unfoldable pub lower_entry : Option PipelineStep → PipelineStep → Option PipelineStep
unfolding int_lt
lower_entry none s = some s
lower_entry (some t) s = if int_lt s.ordinal t.ordinal then some s else some t

unfoldable pub entry_step : Option PipelineStep → List PipelineStep → Option PipelineStep
entry_step entry [] = entry
entry_step entry (s ∷ steps) = entry_step (if is_seed s then entry else lower_entry entry s) steps

unfoldable pub entry_handler : List PipelineStep → Bytes
entry_handler steps = elim (entry_step none steps) [ none ↦ [] | some s ↦ s.handler ]

submitted :
    (o : Outside) (validate_step : Bytes → Bytes → Option Reason)
    (insert_pipeline : Pipeline → Option Reason) (id : Bytes) (req : PipelineRequest)
    (manager : Bytes) (r : Pipeline × Log)
    → submit o validate_step insert_pipeline id req manager ≡ inr r
    → (p : Pipeline) × (build validate_step id o.now req manager ≡ inr p) × (advance o p ≡ r)
unfolding submit
submitted o validate_step insert_pipeline id req manager r e =
    by_build (build validate_step id o.now req manager) e
  where
    by_insert :
        (p : Pipeline) (x : Option Reason)
        → elim x as (λ _. SubmitError ⊎ (Pipeline × Log)) [
          | some r ↦ inl (not_persisted r)
          | none ↦ inr (advance o p)
        ]
          ≡ inr r
        → advance o p ≡ r
    by_insert p none e = cc e
    by_insert p (some x) e = absurd (cc e)

    by_build :
        (b : BuildError ⊎ Pipeline)
        → elim b as (λ _. SubmitError ⊎ (Pipeline × Log)) [
          | inl e ↦ inl (invalid e)
          | inr p ↦ elim (insert_pipeline p) as (λ _. SubmitError ⊎ (Pipeline × Log)) [
            | some r ↦ inl (not_persisted r)
            | none ↦ inr (advance o p)
          ]
        ]
          ≡ inr r
        → (p : Pipeline) × (b ≡ inr p) × (advance o p ≡ r)
    by_build (inl x) e = absurd (cc e)
    by_build (inr p) e = (p, refl, by_insert p (insert_pipeline p) e)

-- When a submission succeeds, whatever the submission of jobs has answered, a step of the pipeline is
-- running, or all of its steps are terminal and it is closed.
pub submit_moves :
    (o : Outside) (validate_step : Bytes → Bytes → Option Reason)
    (insert_pipeline : Pipeline → Option Reason) (id : Bytes) (req : PipelineRequest)
    (manager : Bytes) (r : Pipeline × Log)
    → submit o validate_step insert_pipeline id req manager ≡ inr r
    → (any_running r.0.steps ≡ true)
      ⊎ ((all_terminal r.0.steps ≡ true) × (is_open r.0.status ≡ false))
submit_moves o validate_step insert_pipeline id req manager r e =
    let s = submitted o validate_step insert_pipeline id req manager r e in
    let b = build-InOrder validate_step id o.now req manager s.0 s.1 in
    subst
      (λ (x : Pipeline × Log).
        (any_running x.0.steps ≡ true)
        ⊎ ((all_terminal x.0.steps ≡ true) × (is_open x.0.status ≡ false)))
      s.2 (advance_moves o s.0 b.0 b.1 b.2)
