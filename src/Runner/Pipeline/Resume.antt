-- ===== src/Runner/Pipeline/Resume.antt =====
-- runner/pipeline/pipeline.go: reopen and Resume. An error does not undo what was written before it,
-- so the result holds the pipeline of either case.
pub mod Repairs
pub mod Reuses
use tie.Prelude.{
  ℕ, Bool, true, false, Option, none, some, List, [], ◌∷◌, ◌++◌, if◌then◌else◌, nat_eq, nat_beq,
  list_eq, ◌==◌, not, ◌&&◌, ◌⊎◌, inl, inr, length, is_some,
}
use tie.Tiedb.Triples.{Bytes}
use tie.Compose.{is_empty}
use tie.Runner.Pipeline.{pending, running, done, no_reason, PipelineStep, Pipeline, step}
use tie.Runner.Pipeline.Advance.{Outside, Log, is_open, advance}
use tie.Runner.Pipeline.Rerun.{has, steps_to_rerun}

pub data ResumeError : Type 0 where
  still_running nothing_to_resume : ResumeError
  unknown_step unknown_override bad_hash : Bytes → ResumeError

-- An override names a step and the output that it shall have.
abbrev pub Override : Type 0
Override = Bytes × Bytes

unfoldable pub check_overrides : List PipelineStep → List Override → Option ResumeError
check_overrides steps [] = none
check_overrides steps ((name, hash) ∷ overrides) =
    let rest = check_overrides steps overrides in
    if not (is_some (step steps name))
    then some (unknown_override name)
    else if not (nat_beq (length hash) 64)
    then some (bad_hash name)
    else rest

unfoldable pub overridden : PipelineStep → Bytes → PipelineStep
overridden s hash = record s { status = done; output_hash = hash; error = no_reason; job_id = [] }

-- The write to the step that is found under the name.
unfoldable pub override_step : List PipelineStep → Bytes → Bytes → List PipelineStep
override_step [] name hash = []
override_step (s ∷ steps) name hash =
    if s.name == name then overridden s hash ∷ steps else s ∷ override_step steps name hash

unfoldable pub apply_overrides : List PipelineStep → List Override → List PipelineStep
apply_overrides steps [] = steps
apply_overrides steps ((name, hash) ∷ overrides) =
    apply_overrides (override_step steps name hash) overrides

-- The steps that the loop writes to the store.
unfoldable pub overrides_written : List PipelineStep → List Override → List PipelineStep
overrides_written steps [] = []
overrides_written steps ((name, hash) ∷ overrides) =
    let rest = overrides_written (override_step steps name hash) overrides in
    elim (step steps name) [ none ↦ rest | some s ↦ overridden s hash ∷ rest ]

unfoldable pub drop_name : Bytes → List Bytes → List Bytes
drop_name name [] = []
drop_name name (n ∷ names) = let rest = drop_name name names in if n == name then rest else n ∷ rest

-- An overridden step is not run again.
unfoldable pub drop_overridden : List Override → List Bytes → List Bytes
drop_overridden [] names = names
drop_overridden ((name, hash) ∷ overrides) names = drop_overridden overrides (drop_name name names)

unfoldable pub reset : PipelineStep → PipelineStep
reset s = record s {
  status = pending;
  job_id = [];
  output_hash = [];
  error = no_reason;
  started = 0;
  finished = 0;
}

unfoldable pub reset_steps : List Bytes → List PipelineStep → List PipelineStep
reset_steps rerun [] = []
reset_steps rerun (s ∷ steps) = (if has rerun s.name then reset s else s) ∷ reset_steps rerun steps

unfoldable pub resets_written : List Bytes → List PipelineStep → List PipelineStep
resets_written rerun [] = []
resets_written rerun (s ∷ steps) =
    let rest = resets_written rerun steps in if has rerun s.name then reset s ∷ rest else rest

pub record Reopened : Type 0 where
  pub after : Pipeline
  pub written : List PipelineStep
  pub error : Option ResumeError

unfoldable pub refuse : Pipeline → ResumeError → Reopened
refuse p e = record { after = p; written = []; error = some e }

-- What follows once the overrides are known to be good.
unfoldable pub reopen_valid : Pipeline → Bytes → List Override → Reopened
reopen_valid p from overrides =
    let steps = apply_overrides p.steps overrides in
    let written = overrides_written p.steps overrides in
    let rerun = drop_overridden overrides (steps_to_rerun steps from) in
    if is_empty rerun
    then record {
      after = record p { steps = steps };
      written = written;
      error = some nothing_to_resume;
    }
    else record {
      after = record p {
        status = running;
        not_completed = [];
        finished = 0;
        steps = reset_steps rerun steps;
      };
      written = written ++ resets_written rerun steps;
      error = none;
    }

-- On a pipeline that the store has.
unfoldable pub reopen : Pipeline → Bytes → List Override → Reopened
reopen p from overrides =
    if is_open p.status
    then refuse p still_running
    else if not (is_empty from) && not (is_some (step p.steps from))
    then refuse p (unknown_step from)
    else elim (check_overrides p.steps overrides) [
      | some e ↦ refuse p e
      | none ↦ reopen_valid p from overrides
    ]

-- Resume: an advance of the reopened pipeline.
unfoldable pub resume : Outside → Pipeline → Bytes → List Override → ResumeError ⊎ (Pipeline × Log)
resume o p from overrides =
    let r = reopen p from overrides in
    elim r.error [ some e ↦ inl e | none ↦ inr (advance o r.after) ]
