-- ===== src/Runner/Pipeline/Rerun.antt =====
-- runner/pipeline/pipeline.go: stepsToRerun, the steps that a resume runs again.
pub mod Graph
pub mod Closes
pub mod Exact
use tie.Prelude.{
  ℕ, zero, suc, ◌+◌, ◌≡◌, refl, sym, ap, ◌∙◌, Bool, true, false, Option, none, some, List, [], ◌∷◌,
  ◌++◌, if◌then◌else◌, nat_eq, list_eq, list_beq_iff, ◌==◌, not, ◌&&◌, ◌||◌, length, foldl, is_some,
  All,
}
use tie.Prelude.GoMap
use tie.Tiedb.Triples.{Bytes}
use tie.Compose.{is_empty, Dependency, dependencies}
use tie.Runner.Pipeline.{PipelineStep, is_seed, is_done, step}

-- Whether a name is in a set of names, which stands for Go's map to true.
unfoldable pub has : List Bytes → Bytes → Bool
has [] name = false
has (n ∷ names) name = (n == name) || has names name

-- What the map has under a name, where a missing key has the empty slice.
unfoldable pub names_under : List (Bytes × List Bytes) → Bytes → List Bytes
names_under m d = elim (GoMap.get m d) [ none ↦ [] | some names ↦ names ]

-- Adds one step to what depends on each of its dependencies.
unfoldable pub add_dependents :
    Bytes → List Dependency → List (Bytes × List Bytes) → List (Bytes × List Bytes)
add_dependents name [] m = m
add_dependents name ((d, required) ∷ deps) m =
    add_dependents name deps (GoMap.put m d (names_under m d ++ name ∷ []))

unfoldable pub dependents :
    List PipelineStep → List (Bytes × List Bytes) → List (Bytes × List Bytes)
unfolding add_dependents
dependents [] m = m
dependents (s ∷ steps) m = dependents steps (add_dependents s.name (dependencies s.inputs) m)

-- Whether the recursion ends at a name: it is no step, a seed, or marked already.
unfoldable pub skips : List PipelineStep → List Bytes → Bytes → Bool
skips steps rerun name = elim (step steps name) [
  | none ↦ true
  | some s ↦ is_seed s || has rerun name
]

-- The recursive closure, on fuel.
unfoldable pub mark :
    ℕ → List PipelineStep → List (Bytes × List Bytes) → List Bytes → Bytes → List Bytes
mark zero steps m rerun name = rerun
mark (suc n) steps m rerun name =
    let below = foldl (mark n steps m) (name ∷ rerun) (names_under m name) in
    if skips steps rerun name then rerun else below

-- The loop over the steps that did not complete.
unfoldable pub mark_unfinished :
    ℕ → List PipelineStep → List (Bytes × List Bytes) → List PipelineStep → List Bytes → List Bytes
mark_unfinished n all m [] rerun = rerun
mark_unfinished n all m (s ∷ steps) rerun =
    mark_unfinished n all m steps
      (if not (is_seed s) && not (is_done s.status) then mark n all m rerun s.name else rerun)

-- The fuel is one more than there are steps.
unfoldable pub steps_to_rerun : List PipelineStep → Bytes → List Bytes
steps_to_rerun steps from =
    let m = dependents steps [] in
    if not (is_empty from)
    then mark (suc (length steps)) steps m [] from
    else mark_unfinished (suc (length steps)) steps m steps []
