-- ===== src/Runner/Pipeline/Rerun/Exact.antt =====
-- What stepsToRerun returns, against an inductive description of what is downstream.
use tie.Prelude.{
  ℕ, zero, suc, ◌≡◌, ◌≤◌, ◌<◌, ◌↔◌, refl, sym, ◌∙◌, Bool, true, false, List, [], ◌∷◌, if◌then◌else◌,
  nat_eq, list_eq, list_beq_iff, ◌==◌, not, ◌&&◌, ◌||◌, length, foldl, arith, Bool-cases, inl, inr,
}
use mathlib.Core.Path.{subst}
use tie.Tiedb.Triples.{Bytes}
use tie.Compose.{is_empty}
use tie.Runner.Pipeline.{PipelineStep, is_seed, is_done}
use tie.Runner.Pipeline.Rerun.{
  has, names_under, dependents, skips, mark, mark_unfinished, steps_to_rerun,
}
use tie.Runner.Pipeline.Rerun.Graph.{depends_on, is_job_step, skips-cases, dependents-depends_on}
use tie.Runner.Pipeline.Rerun.Closes.{
  Grown, Grown-refl, Grown-trans, unmarked, unmarked-le, unmarked_none, mark-Marked, has-cons,
}

-- Some step of the name is no seed and did not complete.
abbrev pub unfinished : List PipelineStep → Bytes → Bool
unfinished [] x = false
unfinished (s ∷ steps) x =
    ((s.name == x) && (not (is_seed s) && not (is_done s.status))) || unfinished steps x

-- Where a resume starts: at the step that is named, or at all that did not complete.
abbrev pub starting : List PipelineStep → Bytes → Bytes → Bool
starting steps from x = if not (is_empty from) then from == x else unfinished steps x

pub data IsDownstream (steps : List PipelineStep) (from : Bytes) : Bytes → Type 0 where
  start :
      (x : Bytes)
      → starting steps from x ≡ true
      → is_job_step steps x ≡ true
      → IsDownstream steps from x
  next :
      (d x : Bytes)
      → IsDownstream steps from d
      → depends_on steps d x ≡ true
      → is_job_step steps x ≡ true
      → IsDownstream steps from x

mark_unfinished-Marked :
    (all : List PipelineStep) (m : List (Bytes × List Bytes)) (n : ℕ) (steps : List PipelineStep)
    (r : List Bytes)
    → unmarked all r < n
    → Grown all m r (mark_unfinished n all m steps r)
      × ((x : Bytes)
          → unfinished steps x ≡ true
          → is_job_step all x ≡ true
          → has (mark_unfinished n all m steps r) x ≡ true)
unfolding mark_unfinished
mark_unfinished-Marked all m n [] r few = (Grown-refl all m r, λ x h j. absurd (cc h))
mark_unfinished-Marked all m n (s ∷ steps) r few =
    by_test (not (is_seed s) && not (is_done s.status))
      (λ q less. mark_unfinished-Marked all m n steps q (omega (arith, few, less)))
  where
    by_test :
        (b : Bool)
        → ((q : List Bytes)
            → unmarked all q ≤ unmarked all r
            → Grown all m q (mark_unfinished n all m steps q)
              × ((x : Bytes)
                  → unfinished steps x ≡ true
                  → is_job_step all x ≡ true
                  → has (mark_unfinished n all m steps q) x ≡ true))
        → Grown all m r (mark_unfinished n all m steps (if b then mark n all m r s.name else r))
          × ((x : Bytes)
              → (((s.name == x) && b) || unfinished steps x) ≡ true
              → is_job_step all x ≡ true
              → has (mark_unfinished n all m steps (if b then mark n all m r s.name else r)) x
                ≡ true)
    by_test false later =
        let rest = later r (omega arith) in (rest.0, λ x h j. rest.1 x (ground (arith, h)) j)
    by_test true later =
        let q = mark n all m r s.name in
        let one = mark-Marked all m n r s.name few in
        let rest = later q (unmarked-le all r q one.0.keeps) in
        (
          Grown-trans all m r q _ one.0 rest.0,
          λ x h j. elim (Bool-cases (s.name == x)) [
            | inl e ↦ rest.0.keeps x (one.1 x (unfold has in ground (arith, e)) j)
            | inr e ↦ rest.1 x (ground (arith, e, h)) j
          ],
        )

-- The result holds where it starts, and is closed.
steps_to_rerun-closed :
    (steps : List PipelineStep) (from : Bytes)
    → Grown steps (dependents steps []) [] (steps_to_rerun steps from)
      × ((x : Bytes)
          → starting steps from x ≡ true
          → is_job_step steps x ≡ true
          → has (steps_to_rerun steps from) x ≡ true)
unfolding steps_to_rerun
steps_to_rerun-closed steps from = by_test (is_empty from)
  where
    by_test :
        (b : Bool)
        → Grown steps (dependents steps []) [] (
            if not b
            then mark (suc (length steps)) steps (dependents steps []) [] from
            else mark_unfinished (suc (length steps)) steps (dependents steps []) steps [])
          × ((x : Bytes)
              → (if not b then from == x else unfinished steps x) ≡ true
              → is_job_step steps x ≡ true
              → has
                  (if not b
                    then mark (suc (length steps)) steps (dependents steps []) [] from
                    else mark_unfinished (suc (length steps)) steps (dependents steps []) steps [])
                  x
                ≡ true)
    by_test true =
        let few = unmarked_none steps in
        mark_unfinished-Marked steps (dependents steps []) (suc (length steps)) steps []
          (omega (arith, few))
    by_test false =
        let few = unmarked_none steps in
        let one =
          mark-Marked steps (dependents steps []) (suc (length steps)) [] from
            (omega (arith, few)) in
        (one.0, λ x h j. one.1 x (unfold has in ground (arith, h)) j)

downstream_marked :
    (steps : List PipelineStep) (from x : Bytes)
    → IsDownstream steps from x
    → has (steps_to_rerun steps from) x ≡ true
unfolding has
downstream_marked steps from x (start z h j) = (steps_to_rerun-closed steps from).1 z h j
downstream_marked steps from x (next d z above h j) =
    (steps_to_rerun-closed steps from).0.closes d z (downstream_marked steps from d above) refl
      (dependents-depends_on steps d z ∙ h) j

-- All names of a set are downstream.
abbrev Within : List PipelineStep → Bytes → List Bytes → Type 0
Within steps from r = (x : Bytes) → has r x ≡ true → IsDownstream steps from x

Within-cons :
    (steps : List PipelineStep) (from x : Bytes) (r : List Bytes)
    → IsDownstream steps from x
    → Within steps from r
    → Within steps from (x ∷ r)
Within-cons steps from x r h w y e = elim (has-cons x y r e) [
  | inl same ↦ subst (IsDownstream steps from) same h
  | inr later ↦ w y later
]

mark_all-Within :
    (steps : List PipelineStep) (from : Bytes) (n : ℕ)
    → ((r : List Bytes) (x : Bytes)
        → Within steps from r
        → (is_job_step steps x ≡ true → IsDownstream steps from x)
        → Within steps from (mark n steps (dependents steps []) r x))
    → (names r : List Bytes) → Within steps from r
    → ((x : Bytes) → has names x ≡ true → is_job_step steps x ≡ true → IsDownstream steps from x)
    → Within steps from (foldl (mark n steps (dependents steps [])) r names)
unfolding has
mark_all-Within steps from n one [] r w below = w
mark_all-Within steps from n one (y ∷ names) r w below =
    mark_all-Within steps from n one names _
      (one r y w (below y (ground (arith, list_beq_iff y y)))) (λ x h. below x (ground (arith, h)))

mark-Within :
    (steps : List PipelineStep) (from : Bytes) (n : ℕ) (r : List Bytes) (x : Bytes)
    → Within steps from r
    → (is_job_step steps x ≡ true → IsDownstream steps from x)
    → Within steps from (mark n steps (dependents steps []) r x)
unfolding mark
mark-Within steps from zero r x w h = w
mark-Within steps from (suc n) r x w h = by_test (skips steps r x) refl (λ here.
    mark_all-Within steps from n (mark-Within steps from n) (names_under (dependents steps []) x)
      (x ∷ r) (Within-cons steps from x r here w)
      (λ y e j. next x y here (sym (dependents-depends_on steps x y) ∙ e) j))
  where
    by_test :
        (b : Bool)
        → skips steps r x ≡ b
        → (IsDownstream steps from x
            → Within steps from (
                foldl
                  (mark n steps (dependents steps []))
                  (x ∷ r)
                  (names_under (dependents steps []) x)))
        → Within steps from (
            if b
            then r
            else foldl
                (mark n steps (dependents steps []))
                (x ∷ r)
                (names_under (dependents steps []) x))
    by_test true e below = w
    by_test false e below =
        let cases = sym (skips-cases steps r x) ∙ e in
        let job : is_job_step steps x ≡ true = ground (arith, cases) in below (h job)

mark_unfinished-Within :
    (all : List PipelineStep) (n : ℕ) (steps : List PipelineStep) (r : List Bytes)
    → Within all [] r
    → ((x : Bytes) → unfinished steps x ≡ true → unfinished all x ≡ true)
    → Within all [] (mark_unfinished n all (dependents all []) steps r)
unfolding mark_unfinished
mark_unfinished-Within all n [] r w sub = w
mark_unfinished-Within all n (s ∷ steps) r w sub =
    mark_unfinished-Within all n steps _ (by_test (not (is_seed s) && not (is_done s.status)) refl)
      (λ x h. sub x (ground (arith, h)))
  where
    by_test :
        (b : Bool)
        → (not (is_seed s) && not (is_done s.status)) ≡ b
        → Within all [] (if b then mark n all (dependents all []) r s.name else r)
    by_test false e = w
    by_test true e =
        mark-Within all [] n r s.name w
          (λ j. start s.name (sub s.name (ground (arith, e, list_beq_iff s.name s.name))) j)

steps_to_rerun-Within :
    (steps : List PipelineStep) (from : Bytes) → Within steps from (steps_to_rerun steps from)
unfolding steps_to_rerun has
steps_to_rerun-Within steps [] =
    mark_unfinished-Within steps (suc (length steps)) steps [] (λ x h. absurd (cc h)) (λ x h. h)
steps_to_rerun-Within steps (c ∷ from) =
    mark-Within steps (c ∷ from) (suc (length steps)) [] (c ∷ from) (λ x h. absurd (cc h))
      (λ j. start (c ∷ from) (ground (arith, list_beq_iff (c ∷ from) (c ∷ from))) j)

-- The steps to run again are exactly the job steps downstream of where the resume starts: of the
-- step that is named, or, where none is, of those that did not complete.
pub steps_to_rerun_iff :
    (steps : List PipelineStep) (from x : Bytes)
    → (has (steps_to_rerun steps from) x ≡ true) ↔ IsDownstream steps from x
steps_to_rerun_iff steps from x =
    (steps_to_rerun-Within steps from x, downstream_marked steps from x)
