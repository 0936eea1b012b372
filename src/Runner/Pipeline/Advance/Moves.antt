-- ===== src/Runner/Pipeline/Advance/Moves.antt =====
-- A pipeline whose steps are in order does not get stuck.
use tie.Prelude.{
  suc, ◌≡◌, refl, sym, ap, ◌∙◌, Bool, true, false, some, List, [], ◌∷◌, ◌++◌, if◌then◌else◌, nat_eq,
  list_eq, ◌==◌, ◌&&◌, ◌||◌, ◌⊎◌, inl, inr, length, arith, Bool-cases, All,
}
use mathlib.Core.Path.{subst}
use mathlib.Core.List.{append_assoc, append-nil}
use tie.Tiedb.Triples.{Bytes}
use tie.Compose.{is_empty, dependencies}
use tie.Runner.Pipeline.{
  StepStatus, pending, running, done, failed, skipped, other, PipelineStep, Pipeline, is_pending,
  is_running, is_final, step_readiness, terminal, step,
}
use tie.Runner.Pipeline.Ready.{classify-Blocked}
use tie.Runner.Pipeline.Advance.{
  Outside, sync_finished_steps, all_terminal, not_done, finalize_if_done, is_open, advance,
}
use tie.Runner.Pipeline.Advance.Visits.{Idle}
use tie.Runner.Pipeline.Advance.Settles.{settle-Stopped, pending_count-le}
use tie.Runner.Pipeline.Advance.Grows.{is_known, sync_finished_steps-AllGrow}
use tie.Runner.Pipeline.Advance.Finishes.{
  settled, advance_open, settled-AllGrow, finalize_if_done_steps, closing_status,
}
use tie.Runner.Pipeline.Advance.Ordered.{
  Before, InOrder, Known, listed-Before, step-append, AllGrow-InOrder, AllGrow-Known,
  AllGrow-length,
}

abbrev pub any_running : List PipelineStep → Bool
any_running [] = false
any_running (s ∷ steps) = is_running s.status || any_running steps

found_terminal :
    (steps : List PipelineStep) (d : Bytes) (t : PipelineStep)
    → all_terminal steps ≡ true
    → step steps d ≡ some t
    → terminal t ≡ true
unfolding all_terminal step
found_terminal [] d t h e = absurd (cc e)
found_terminal (s ∷ steps) d t h e =
    by_test (s.name == d) (terminal s) refl (all_terminal steps) h
      (λ g f. found_terminal steps d t g f) e
  where
    by_test :
        (same final : Bool)
        → terminal s ≡ final
        → (more : Bool) → final && more ≡ true
        → (more ≡ true → step steps d ≡ some t → terminal t ≡ true)
        → (if same then some s else step steps d) ≡ some t
        → terminal t ≡ true
    by_test true true f more h later e = cc (e, f)
    by_test true false f more h later e = absurd (cc h)
    by_test false false f more h later e = absurd (cc h)
    by_test false true f more h later e = later h e

no_other_status :
    (st : StepStatus)
    → is_known st ≡ true
    → is_pending st ≡ false
    → is_running st ≡ false
    → is_final st ≡ true
no_other_status pending k p r = absurd (cc p)
no_other_status running k p r = absurd (cc r)
no_other_status done k p r = refl
no_other_status failed k p r = refl
no_other_status skipped k p r = refl
no_other_status (other b) k p r = absurd (cc k)

-- A step that is not running, and that the passes leave alone, is terminal.
at_rest :
    (before rest : List PipelineStep) (s : PipelineStep)
    → all_terminal before ≡ true
    → Known s
    → is_running s.status ≡ false
    → Idle (before ++ rest) s
    → All (Before before) (dependencies s.inputs)
    → terminal s ≡ true
unfolding terminal step_readiness
at_rest before rest s t k r (inl idle) w = no_other_status s.status k idle r
at_rest before rest s t k r (inr waits) w =
    let b = classify-Blocked (before ++ rest) (dependencies s.inputs) waits in
    let earlier =
      sym (
        step-append before rest b.on (listed-Before before (dependencies s.inputs) b.on w b.listed))
      ∙ b.found in
    absurd (cc (found_terminal before b.on b.by t earlier, b.unfinished))

all_terminal_snoc :
    (before : List PipelineStep) (s : PipelineStep)
    → all_terminal before ≡ true
    → terminal s ≡ true
    → all_terminal (before ++ s ∷ []) ≡ true
unfolding all_terminal
all_terminal_snoc [] s h e = ground (arith, e)
all_terminal_snoc (b ∷ before) s h e = ground (arith, h, e, all_terminal_snoc before s)

at_rest_throughout :
    (before rest : List PipelineStep)
    → all_terminal before ≡ true
    → All Known rest
    → any_running rest ≡ false
    → All (Idle (before ++ rest)) rest
    → InOrder before rest
    → all_terminal (before ++ rest) ≡ true
at_rest_throughout before [] t k r i w =
    subst (λ ss. all_terminal ss ≡ true) (sym (append-nil before)) t
at_rest_throughout before (s ∷ rest) t k r i w =
    let here = at_rest before (s ∷ rest) s t k.0 (ground (arith, r)) i.0 w.0 in
    let around = append_assoc before (s ∷ []) rest in
    subst (λ ss. all_terminal ss ≡ true) around
      (at_rest_throughout (before ++ s ∷ []) rest (all_terminal_snoc before s t here) k.1
        (ground (arith, r)) (subst (λ ss. All (Idle ss) rest) (sym around) i.1) w.1)

settled-Idle : (o : Outside) (p : Pipeline) → All (Idle (settled o p)) (settled o p)
unfolding settled
settled-Idle o p =
    let r = sync_finished_steps o p.steps (record { submitted = []; written = [] }) in
    let few = pending_count-le r.0 in
    let same = AllGrow-length p.steps r.0 (sync_finished_steps-AllGrow o p.steps _) in
    (settle-Stopped (suc (length p.steps)) o p r.0 r.1 (omega (arith, few, same))).1

finalize-closes :
    (o : Outside) (p : Pipeline)
    → all_terminal p.steps ≡ true
    → is_open (finalize_if_done o p).status ≡ false
unfolding is_open
finalize-closes o p h =
    ap is_open (closing_status o p (is_empty (not_done p.steps)) h refl)
    ∙ by_test (is_empty (not_done p.steps))
  where
    by_test : (b : Bool) → is_open (if b then done else failed) ≡ false
    by_test true = refl
    by_test false = refl

-- Where the steps of an open pipeline are in order and have statuses of the engine, an advance
-- leaves a step running, or all steps terminal and the pipeline closed: it does not get stuck.
pub advance_moves :
    (o : Outside) (p : Pipeline)
    → InOrder [] p.steps
    → All Known p.steps
    → is_open p.status ≡ true
    → (any_running (advance o p).0.steps ≡ true)
      ⊎ ((all_terminal (advance o p).0.steps ≡ true) × (is_open (advance o p).0.status ≡ false))
unfolding all_terminal
advance_moves o p w k h =
    let grow = settled-AllGrow o p in
    let q : Pipeline = record p { steps = settled o p } in
    let same = advance_open o p h in
    let steps_same : (advance o p).0.steps ≡ settled o p =
      ap (λ (q : Pipeline). q.steps) same ∙ finalize_if_done_steps o q in
    elim (Bool-cases (any_running (settled o p))) [
      | inl r ↦ inl (ap any_running steps_same ∙ r)
      | inr r ↦
          let t : all_terminal q.steps ≡ true =
            at_rest_throughout [] (settled o p) refl (AllGrow-Known p.steps _ grow k) r
              (settled-Idle o p) (AllGrow-InOrder [] [] p.steps _ tt grow w) in
          inr (
            ap all_terminal steps_same ∙ t,
            ap (λ (x : Pipeline). is_open x.status) same ∙ finalize-closes o q t,
          )
    ]
