-- ===== src/Runner/Pipeline/Advance/Settles.antt =====
-- The passes of Advance end: each that changes something leaves fewer pending steps.
use tie.Prelude.{
  ℕ, zero, suc, ◌+◌, ◌≤◌, ◌<◌, ◌≡◌, refl, sym, ap, ◌∙◌, Bool, true, false, List, [], ◌∷◌, ◌++◌,
  if◌then◌else◌, ◌||◌, length, arith, All, All-map,
}
use mathlib.Core.Path.{subst}
use mathlib.Core.List.{append_assoc, append-nil}
use tie.Runner.Pipeline.{PipelineStep, Pipeline, is_pending}
use tie.Runner.Pipeline.Advance.{Outside, Log, Visit, stay, visit, Sweep, sweep, settle}
use tie.Runner.Pipeline.Advance.Visits.{Visited, moved, kept, visit-Visited, Idle, visit-Idle}

abbrev pub pending_count : List PipelineStep → ℕ
pending_count [] = 0
pending_count (s ∷ steps) = (if is_pending s.status then 1 else 0) + pending_count steps

pending_count-append :
    (xs ys : List PipelineStep) → pending_count (xs ++ ys) ≡ pending_count xs + pending_count ys
pending_count-append [] ys = omega arith
pending_count-append (x ∷ xs) ys = omega (arith, pending_count-append xs ys)

-- What a pass that changes something, and one that changes nothing, leaves.
pub record Passed (before rest : List PipelineStep) (log : Log) (r : Sweep) : Type 0 where
  pub fewer : r.changed ≡ true → pending_count r.steps < pending_count before + pending_count rest
  pub no_more : pending_count r.steps ≤ pending_count before + pending_count rest
  pub as_before : r.changed ≡ false → r.steps ≡ before ++ rest
  pub idle : r.changed ≡ false → All (Idle (before ++ rest)) rest

-- The steps around a step that was left.
shifted :
    (before rest : List PipelineStep) (s after : PipelineStep)
    → after ≡ s
    → (before ++ after ∷ []) ++ rest ≡ before ++ s ∷ rest
shifted before rest s after e =
    append_assoc before (after ∷ []) rest ∙ ap (λ (t : PipelineStep). before ++ t ∷ rest) e

weight :
    (s : PipelineStep) (b : Bool)
    → is_pending s.status ≡ b
    → pending_count (s ∷ []) ≡ (if b then 1 else 0)
weight s true e = rw e (omega arith)
weight s false e = rw e (omega arith)

Visited-Passed :
    (before : List PipelineStep) (s : PipelineStep) (rest : List PipelineStep) (log : Log)
    (v : Visit) (r : Sweep)
    → Visited s log v
    → (v.changed ≡ false → Idle (before ++ s ∷ rest) s)
    → Passed (before ++ v.after ∷ []) rest v.log r
    → Passed before
        (s ∷ rest)
        log
        (record { steps = r.steps; log = r.log; changed = v.changed || r.changed })
unfolding stay
Visited-Passed before s rest log v r (moved h c n) idle g =
    let one = weight s true h in
    let none_left = weight v.after false n in
    let split = pending_count-append before (v.after ∷ []) in
    record {
      fewer = λ e. omega (arith, one, none_left, split, g.no_more);
      no_more = omega (arith, one, none_left, split, g.no_more);
      as_before = λ e. cc (e, c);
      idle = λ e. cc (e, c);
    }
Visited-Passed before s rest log v r (kept k) idle g =
    let ea : v.after ≡ s = ap (λ (w : Visit). w.after) k in
    let ec : v.changed ≡ false = ap (λ (w : Visit). w.changed) k in
    let split = pending_count-append before (v.after ∷ []) in
    let same : pending_count (v.after ∷ []) ≡ pending_count (s ∷ []) =
      ap (λ (t : PipelineStep). pending_count (t ∷ [])) ea in
    let around = shifted before rest s v.after ea in
    let later : (v.changed || r.changed) ≡ r.changed = ap (λ b. b || r.changed) ec in
    record {
      fewer = λ e. omega (arith, same, split, g.fewer (sym later ∙ e));
      no_more = omega (arith, same, split, g.no_more);
      as_before = λ e. g.as_before (sym later ∙ e) ∙ around;
      idle = λ e. (
        idle ec,
        All-map (Idle ((before ++ v.after ∷ []) ++ rest)) (Idle (before ++ s ∷ rest)) rest
            (λ t h. subst (λ all. Idle all t) around h) (g.idle (sym later ∙ e)),
      );
    }

sweep-Passed :
    (o : Outside) (p : Pipeline) (before rest : List PipelineStep) (log : Log)
    → Passed before rest log (sweep o p before rest log)
unfolding sweep
sweep-Passed o p before [] log = record {
  fewer = λ e. cc;
  no_more = omega arith;
  as_before = λ e. sym (append-nil before);
  idle = λ e. tt;
}
sweep-Passed o p before (s ∷ rest) log =
    let v = visit o p (before ++ s ∷ rest) s log in
    Visited-Passed before s rest log v (sweep o p (before ++ v.after ∷ []) rest v.log)
      (visit-Visited o p (before ++ s ∷ rest) s log) (visit-Idle o p (before ++ s ∷ rest) s log)
      (sweep-Passed o p (before ++ v.after ∷ []) rest v.log)

-- The last pass changed nothing, and every step that is still pending waits for another.
abbrev pub Stopped : Sweep → Type 0
Stopped r = (r.changed ≡ false) × All (Idle r.steps) r.steps

by_change :
    (steps : List PipelineStep) (log : Log) (r more : Sweep) (b : Bool)
    → r.changed ≡ b
    → Passed [] steps log r
    → (b ≡ true → Stopped more)
    → Stopped (elim b as (λ _. Sweep) [ true ↦ more | false ↦ r ])
by_change steps log r more true e g rest = rest refl
by_change steps log r more false e g rest =
    let same : r.steps ≡ steps = g.as_before e in
    (e, subst (λ all. All (Idle all) all) (sym same) (g.idle e))

-- Passes on more fuel than there are pending steps end with one that changes nothing; every step
-- that is then pending waits for another.
pub settle-Stopped :
    (n : ℕ) (o : Outside) (p : Pipeline) (steps : List PipelineStep) (log : Log)
    → pending_count steps < n
    → Stopped (settle n o p steps log)
unfolding settle
settle-Stopped zero o p steps log h = absurd (omega arith)
settle-Stopped (suc n) o p steps log h =
    let r = sweep o p [] steps log in
    let g = sweep-Passed o p [] steps log in
    by_change steps log r (settle n o p r.steps r.log) r.changed refl g
      (λ e. settle-Stopped n o p r.steps r.log (omega (arith, h, g.fewer e)))

pub pending_count-le : (steps : List PipelineStep) → pending_count steps ≤ length steps
pending_count-le [] = omega arith
pending_count-le (s ∷ steps) = ground (arith, pending_count-le steps)
