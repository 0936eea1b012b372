-- ===== src/Runner/Pipeline/Resume/Repairs.antt =====
-- What a resume does to the steps.
use tie.Prelude.{
  ℕ, zero, suc, ◌≡◌, ◌≢◌, refl, ap, ◌∙◌, Bool, true, false, Option, none, some, List, [], ◌∷◌,
  if◌then◌else◌, nat_eq, list_eq, list_beq_iff, ◌==◌, not, ◌&&◌, inl, inr, arith, Bool-cases,
  get_elem?, is_some,
}
use tie.Prelude.GoMap
use tie.Tiedb.Triples.{Bytes}
use tie.Compose.{is_empty}
use tie.Runner.Pipeline.{pending, running, no_reason, PipelineStep, Pipeline, step}
use tie.Runner.Pipeline.Advance.{is_open}
use tie.Runner.Pipeline.Rerun.{has, steps_to_rerun}
use tie.Runner.Pipeline.Resume.{
  ResumeError, still_running, nothing_to_resume, unknown_step, Override, check_overrides,
  overridden, override_step, apply_overrides, drop_name, drop_overridden, reset, reset_steps,
  Reopened, refuse, reopen_valid, reopen,
}

-- A resume that fails for any reason but that there is nothing to resume leaves the pipeline as it
-- was and writes no step.
pub reopen-refused :
    (p : Pipeline) (from : Bytes) (overrides : List Override) (e : ResumeError)
    → (reopen p from overrides).error ≡ some e
    → e ≢ nothing_to_resume
    → ((reopen p from overrides).after ≡ p) × ((reopen p from overrides).written ≡ [])
unfolding reopen
reopen-refused p from overrides e f ne =
    by_case (is_open p.status) (not (is_empty from) && not (is_some (step p.steps from)))
      (check_overrides p.steps overrides) f
  where
    by_rerun :
        (b : Bool) (x y : Reopened)
        → x.error ≡ some nothing_to_resume
        → y.error ≡ none
        → (if b then x else y).error ≡ some e
        → (((if b then x else y).after ≡ p) × ((if b then x else y).written ≡ []))
    by_rerun true x y g h f = absurd (ne (cc (f, g)))
    by_rerun false x y g h f = absurd (cc (f, h))

    by_case :
        (b c : Bool) (o : Option ResumeError)
        → (if b
            then refuse p still_running
            else if c
            then refuse p (unknown_step from)
            else elim o as (λ _. Reopened) [
              | some e ↦ refuse p e
              | none ↦ reopen_valid p from overrides
            ]).error
          ≡ some e
        → let r : Reopened =
            (if b
              then refuse p still_running
              else if c
              then refuse p (unknown_step from)
              else elim o as (λ _. Reopened) [
                | some e ↦ refuse p e
                | none ↦ reopen_valid p from overrides
              ]) in
          (r.after ≡ p) × (r.written ≡ [])
    by_case true c o f = unfold refuse in (refl, refl)
    by_case false true o f = unfold refuse in (refl, refl)
    by_case false false (some x) f = unfold refuse in (refl, refl)
    by_case false false none f =
        unfold reopen_valid in
        by_rerun
          (is_empty
            (drop_overridden overrides (steps_to_rerun (apply_overrides p.steps overrides) from)))
          _ _ refl refl f

get_elem-override_step :
    (steps : List PipelineStep) (name hash : Bytes) (i : ℕ) (s : PipelineStep)
    → get_elem? steps i ≡ some s
    → (s.name == name) ≡ false
    → get_elem? (override_step steps name hash) i ≡ some s
unfolding override_step
get_elem-override_step [] name hash i s e h = absurd (cc e)
get_elem-override_step (x ∷ steps) name hash i s e h =
    by_test (x.name == name) refl i e (λ j f. get_elem-override_step steps name hash j s f h)
  where
    by_test :
        (b : Bool)
        → (x.name == name) ≡ b
        → (i : ℕ) → get_elem? (x ∷ steps) i ≡ some s
        → ((j : ℕ)
            → get_elem? steps j ≡ some s
            → get_elem? (override_step steps name hash) j ≡ some s)
        → get_elem? (if b then overridden x hash ∷ steps else x ∷ override_step steps name hash) i
          ≡ some s
    by_test true g zero e later =
        let same : x ≡ s = cc e in
        absurd (cc (ap (λ (y : PipelineStep). y.name == name) same, g, h))
    by_test true g (suc i) e later = e
    by_test false g zero e later = e
    by_test false g (suc i) e later = later i e

get_elem-apply_overrides :
    (steps : List PipelineStep) (overrides : List Override) (i : ℕ) (s : PipelineStep)
    → get_elem? steps i ≡ some s
    → GoMap.get overrides s.name ≡ none
    → get_elem? (apply_overrides steps overrides) i ≡ some s
unfolding apply_overrides GoMap.get
get_elem-apply_overrides steps [] i s e h = e
get_elem-apply_overrides steps ((name, hash) ∷ overrides) i s e h =
    elim (Bool-cases (s.name == name)) [
      | inl same ↦
          absurd (ground (arith, h, same, list_beq_iff s.name name, list_beq_iff name s.name))
      | inr other ↦
          get_elem-apply_overrides (override_step steps name hash) overrides i s
            (get_elem-override_step steps name hash i s e other)
            (ground (arith, h, other, list_beq_iff s.name name, list_beq_iff name s.name))
    ]

get_elem-reset_steps :
    (rerun : List Bytes) (steps : List PipelineStep) (i : ℕ) (s : PipelineStep)
    → get_elem? steps i ≡ some s
    → get_elem? (reset_steps rerun steps) i ≡ some (if has rerun s.name then reset s else s)
unfolding reset_steps
get_elem-reset_steps rerun [] i s e = absurd (cc e)
get_elem-reset_steps rerun (x ∷ steps) zero s e =
    let same : x ≡ s = cc e in
    ap (λ (y : PipelineStep). some (if has rerun y.name then reset y else y)) same
get_elem-reset_steps rerun (x ∷ steps) (suc i) s e = get_elem-reset_steps rerun steps i s e

has-drop_name :
    (name : Bytes) (names : List Bytes) (x : Bytes)
    → has (drop_name name names) x ≡ (has names x && not (name == x))
unfolding has drop_name
has-drop_name name [] x = refl
has-drop_name name (n ∷ names) x =
    ground (
      arith,
      has-drop_name name names x,
      list_beq_iff n name,
      list_beq_iff n x,
      list_beq_iff name x,
    )

has-drop_overridden :
    (overrides : List Override) (names : List Bytes) (x : Bytes)
    → GoMap.get overrides x ≡ none
    → has (drop_overridden overrides names) x ≡ has names x
unfolding drop_overridden GoMap.get
has-drop_overridden [] names x h = refl
has-drop_overridden ((name, hash) ∷ overrides) names x h =
    let differs : (name == x) ≡ false = ground (arith, h) in
    has-drop_overridden overrides (drop_name name names) x (ground (arith, h, differs))
    ∙ has-drop_name name names x
    ∙ ground (arith, differs)

reopened :
    (p : Pipeline) (from : Bytes) (overrides : List Override)
    → (reopen p from overrides).error ≡ none
    → let steps = apply_overrides p.steps overrides in
      let rerun = drop_overridden overrides (steps_to_rerun steps from) in
      (is_empty rerun ≡ false)
      × ((reopen p from overrides).after ≡ record p {
        status = running;
        not_completed = [];
        finished = 0;
        steps = reset_steps rerun steps;
      })
unfolding reopen
reopened p from overrides f =
    by_case (is_open p.status) (not (is_empty from) && not (is_some (step p.steps from)))
      (check_overrides p.steps overrides) f
  where
    by_rerun :
        (b : Bool) (x y : Reopened)
        → x.error ≡ some nothing_to_resume
        → (if b then x else y).error ≡ none
        → (b ≡ false) × ((if b then x else y).after ≡ y.after)
    by_rerun true x y g f = absurd (cc (f, g))
    by_rerun false x y g f = (refl, refl)

    by_case :
        (b c : Bool) (o : Option ResumeError)
        → (if b
            then refuse p still_running
            else if c
            then refuse p (unknown_step from)
            else elim o as (λ _. Reopened) [
              | some e ↦ refuse p e
              | none ↦ reopen_valid p from overrides
            ]).error
          ≡ none
        → let steps = apply_overrides p.steps overrides in
          let rerun = drop_overridden overrides (steps_to_rerun steps from) in
          (is_empty rerun ≡ false)
          × ((if b
                then refuse p still_running
                else if c
                then refuse p (unknown_step from)
                else elim o as (λ _. Reopened) [
                  | some e ↦ refuse p e
                  | none ↦ reopen_valid p from overrides
                ]).after
              ≡ record p {
                status = running;
                not_completed = [];
                finished = 0;
                steps = reset_steps rerun steps;
              })
    by_case true c o f = unfold refuse in absurd (cc f)
    by_case false true o f = unfold refuse in absurd (cc f)
    by_case false false (some x) f = unfold refuse in absurd (cc f)
    by_case false false none f =
        unfold reopen_valid in
        by_rerun
          (is_empty
            (drop_overridden overrides (steps_to_rerun (apply_overrides p.steps overrides) from)))
          _ _ refl f

-- A reopening that succeeds leaves the pipeline running. A step that is not overridden keeps its part
-- of the request and loses its outcome, and is pending, where it is among the steps to run again; it
-- is otherwise as it was.
pub get_elem-reopen :
    (p : Pipeline) (from : Bytes) (overrides : List Override) (i : ℕ) (s : PipelineStep)
    → (reopen p from overrides).error ≡ none
    → get_elem? p.steps i ≡ some s
    → GoMap.get overrides s.name ≡ none
    → ((reopen p from overrides).after.status ≡ running)
      × (get_elem? (reopen p from overrides).after.steps i
          ≡ some (
              if has (steps_to_rerun (apply_overrides p.steps overrides) from) s.name
              then record {
                name = s.name;
                handler = s.handler;
                job_type = s.job_type;
                app_hash = s.app_hash;
                settings = s.settings;
                inputs = s.inputs;
                ordinal = s.ordinal;
                status = pending;
                job_id = [];
                output_hash = [];
                error = no_reason;
                started = 0;
                finished = 0;
              }
              else s))
unfolding reset
get_elem-reopen p from overrides i s f e h =
    let steps = apply_overrides p.steps overrides in
    let r = (reopened p from overrides f).1 in
    (
      ap (λ (q : Pipeline). q.status) r,
      ap (λ (q : Pipeline). get_elem? q.steps i) r
          ∙ get_elem-reset_steps _ steps i s (get_elem-apply_overrides p.steps overrides i s e h)
          ∙ ap (λ b. some (if b then reset s else s))
              (has-drop_overridden overrides (steps_to_rerun steps from) s.name h),
    )
