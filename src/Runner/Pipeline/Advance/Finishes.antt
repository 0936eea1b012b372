-- ===== src/Runner/Pipeline/Advance/Finishes.antt =====
-- What Advance makes of a pipeline as a whole.
use tie.Prelude.{
  ℕ, zero, suc, ◌≡◌, ◌≢◌, ◌↔◌, refl, sym, ap, ◌∙◌, Bool, true, false, some, List, [], ◌∷◌,
  if◌then◌else◌, inl, inr, length, Bool-cases, get_elem?, All,
}
use mathlib.Core.Path.{subst}
use tie.Compose.{is_empty}
use tie.Runner.Pipeline.{
  StepStatus, pending, running, done, failed, skipped, other, RunStatus, PipelineStep, Pipeline,
  is_final, is_done, terminal,
}
use tie.Runner.Pipeline.Advance.{
  Outside, Log, settle, sync_finished_steps, all_terminal, not_done, finalize_if_done, is_open,
  advance,
}
use tie.Runner.Pipeline.Advance.Grows.{
  AllGrow, AllGrow-refl, AllGrow-trans, settle-AllGrow, sync_finished_steps-AllGrow,
}

-- The closing of a pipeline leaves its steps.
pub finalize_if_done_steps : (o : Outside) (p : Pipeline) → (finalize_if_done o p).steps ≡ p.steps
unfolding finalize_if_done
finalize_if_done_steps o p = by_test (all_terminal p.steps)
  where
    by_test :
        (b : Bool)
        → (if b
            then record p {
              status = (if is_empty (not_done p.steps) then done else failed);
              not_completed = not_done p.steps;
              finished = o.now;
            }
            else p).steps
          ≡ p.steps
    by_test true = refl
    by_test false = refl

-- The steps after the outcomes are in and the passes are over, before the closing.
unfoldable pub settled : Outside → Pipeline → List PipelineStep
settled o p =
    let r = sync_finished_steps o p.steps (record { submitted = []; written = [] }) in
    (settle (suc (length p.steps)) o p r.0 r.1).steps

pub then_branch {ℓ} : {A : Type ℓ} (b : Bool) (x y : A) → b ≡ true → (if b then x else y) ≡ x
then_branch true x y h = refl
then_branch false x y h = absurd (cc h)

pub else_branch {ℓ} : {A : Type ℓ} (b : Bool) (x y : A) → b ≡ false → (if b then x else y) ≡ y
else_branch true x y h = absurd (cc h)
else_branch false x y h = refl

pub advance_open :
    (o : Outside) (p : Pipeline)
    → is_open p.status ≡ true
    → (advance o p).0 ≡ finalize_if_done o (record p { steps = settled o p })
unfolding advance settled
advance_open o p h = ap (λ (x : Pipeline × Log). x.0) (then_branch (is_open p.status) _ _ h)

pub advance_closed : (o : Outside) (p : Pipeline) → is_open p.status ≡ false → (advance o p).0 ≡ p
unfolding advance
advance_closed o p h = ap (λ (x : Pipeline × Log). x.0) (else_branch (is_open p.status) _ _ h)

pub settled-AllGrow : (o : Outside) (p : Pipeline) → AllGrow p.steps (settled o p)
unfolding settled
settled-AllGrow o p =
    let r = sync_finished_steps o p.steps (record { submitted = []; written = [] }) in
    AllGrow-trans p.steps r.0 _ (sync_finished_steps-AllGrow o p.steps _)
      (settle-AllGrow (suc (length p.steps)) o p r.0 r.1)

-- Advance grows every step, whether the pipeline is open or not.
pub advance-AllGrow : (o : Outside) (p : Pipeline) → AllGrow p.steps (advance o p).0.steps
advance-AllGrow o p = elim (Bool-cases (is_open p.status)) [
  | inl h ↦
      let same : (advance o p).0.steps ≡ settled o p =
        ap (λ (q : Pipeline). q.steps) (advance_open o p h)
        ∙ finalize_if_done_steps o (record p { steps = settled o p }) in
      subst (AllGrow p.steps) (sym same) (settled-AllGrow o p)
  | inr h ↦
      subst (AllGrow p.steps) (sym (ap (λ (q : Pipeline). q.steps) (advance_closed o p h)))
        (AllGrow-refl p.steps)
]

final_kept :
    (ss ts : List PipelineStep) (i : ℕ) (s : PipelineStep)
    → AllGrow ss ts
    → get_elem? ss i ≡ some s
    → is_final s.status ≡ true
    → get_elem? ts i ≡ some s
final_kept [] ts i s g e h = absurd (cc e)
final_kept (x ∷ ss) [] i s g e h = elim g [ ]
final_kept (x ∷ ss) (t ∷ ts) zero s g e h =
    let same : x ≡ s = cc e in
    ap (λ (u : PipelineStep). some u)
      (g.0.final (ap (λ (u : PipelineStep). is_final u.status) same ∙ h) ∙ same)
final_kept (x ∷ ss) (t ∷ ts) (suc i) s g e h = final_kept ss ts i s g.1 e h

-- A step that is done, failed or skipped is not changed by an advance, whatever the jobs report.
pub advance-final :
    (o : Outside) (p : Pipeline) (i : ℕ) (s : PipelineStep)
    → get_elem? p.steps i ≡ some s
    → terminal s ≡ true
    → get_elem? (advance o p).0.steps i ≡ some s
unfolding terminal
advance-final o p i s e h = final_kept p.steps (advance o p).0.steps i s (advance-AllGrow o p) e h

pub closing_status :
    (o : Outside) (p : Pipeline) (b : Bool)
    → all_terminal p.steps ≡ true
    → is_empty (not_done p.steps) ≡ b
    → (finalize_if_done o p).status ≡ (if b then done else failed)
unfolding finalize_if_done
closing_status o p b h e =
    ap (λ (q : Pipeline). q.status) (then_branch (all_terminal p.steps) _ p h)
    ∙ ap (λ c. if c then done else failed) e

abbrev pub IsDone : PipelineStep → Type 0
IsDone s = s.status ≡ done

is_done-done : (st : StepStatus) → is_done st ≡ true → st ≡ done
is_done-done done h = refl
is_done-done pending h = absurd (cc h)
is_done-done running h = absurd (cc h)
is_done-done failed h = absurd (cc h)
is_done-done skipped h = absurd (cc h)
is_done-done (other b) h = absurd (cc h)

not_done-All : (steps : List PipelineStep) → is_empty (not_done steps) ≡ true → All IsDone steps
unfolding not_done
not_done-All [] h = tt
not_done-All (s ∷ steps) h = by_test (is_done s.status) refl (not_done-All steps) h
  where
    by_test :
        (b : Bool)
        → is_done s.status ≡ b
        → (is_empty (not_done steps) ≡ true → All IsDone steps)
        → is_empty (if b then not_done steps else s.name ∷ not_done steps) ≡ true
        → All IsDone (s ∷ steps)
    by_test true e later h = (is_done-done s.status e, later h)
    by_test false e later h = absurd (cc h)

done_terminal :
    (steps : List PipelineStep)
    → All IsDone steps
    → (all_terminal steps ≡ true) × (is_empty (not_done steps) ≡ true)
unfolding not_done all_terminal terminal
done_terminal [] h = (refl, refl)
done_terminal (s ∷ steps) h =
    let rest = done_terminal steps h.1 in (rw (h.0, is_final) rest.0, rw (h.0, is_done) rest.1)

open_not_done : (st : RunStatus) → is_open st ≡ true → st ≢ done
unfolding is_open
open_not_done st h e = cc (h, ap is_open e)

finalize-done :
    (o : Outside) (p : Pipeline)
    → is_open p.status ≡ true
    → (finalize_if_done o p).status ≡ done
    → All IsDone p.steps
finalize-done o p h e = elim (Bool-cases (all_terminal p.steps)) [
  | inr t ↦ absurd (open_not_done p.status h (sym (left_open t) ∙ e))
  | inl t ↦ elim (Bool-cases (is_empty (not_done p.steps))) [
    | inl n ↦ not_done-All p.steps n
    | inr n ↦ absurd (cc (closing_status o p false t n, e))
  ]
]
  where
    left_open : all_terminal p.steps ≡ false → (finalize_if_done o p).status ≡ p.status
    left_open t =
        unfold finalize_if_done in
        ap (λ (q : Pipeline). q.status) (else_branch (all_terminal p.steps) _ p t)

-- An advance of an open pipeline leaves it done exactly if all of its steps are done.
pub advance-done :
    (o : Outside) (p : Pipeline)
    → is_open p.status ≡ true
    → ((advance o p).0.status ≡ done) ↔ All IsDone (advance o p).0.steps
advance-done o p h =
    let q : Pipeline = record p { steps = settled o p } in
    let same : (advance o p).0 ≡ finalize_if_done o q = advance_open o p h in
    let steps_same : (advance o p).0.steps ≡ settled o p =
      ap (λ (q : Pipeline). q.steps) same ∙ finalize_if_done_steps o q in
    (
      λ e.
          subst (All IsDone) (sym steps_same)
            (finalize-done o q h (sym (ap (λ (x : Pipeline). x.status) same) ∙ e)),
      λ all.
          let t = done_terminal q.steps (subst (All IsDone) steps_same all) in
          ap (λ (x : Pipeline). x.status) same ∙ closing_status o q true t.0 t.1,
    )
