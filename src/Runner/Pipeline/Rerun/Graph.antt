-- ===== src/Runner/Pipeline/Rerun/Graph.antt =====
-- The edges that stepsToRerun follows, stated of the steps themselves.
use tie.Prelude.{
  ◌≡◌, refl, ap, ◌∙◌, Bool, true, false, Option, none, some, List, [], ◌∷◌, ◌++◌, if◌then◌else◌,
  nat_eq, list_eq, list_beq_iff, ◌==◌, not, ◌&&◌, ◌||◌, is_some, arith,
}
use tie.Prelude.GoMap
use tie.Tiedb.Triples.{Bytes}
use tie.Compose.{Dependency, dependencies}
use tie.Runner.Pipeline.{PipelineStep, is_seed, step}
use tie.Runner.Pipeline.Rerun.{has, names_under, add_dependents, dependents, skips}

pub has-append :
    (xs ys : List Bytes) (name : Bytes) → has (xs ++ ys) name ≡ (has xs name || has ys name)
unfolding has
has-append [] ys name = refl
has-append (x ∷ xs) ys name = ground (arith, has-append xs ys name)

-- Some step of the name x has d among its dependencies.
abbrev pub depends_on : List PipelineStep → Bytes → Bytes → Bool
depends_on [] d x = false
depends_on (s ∷ steps) d x =
    ((s.name == x) && is_some (GoMap.get (dependencies s.inputs) d)) || depends_on steps d x

-- The name is that of a step that is no seed.
unfoldable pub is_job_step : List PipelineStep → Bytes → Bool
is_job_step steps x = elim (step steps x) [ none ↦ false | some s ↦ not (is_seed s) ]

pub skips-cases :
    (steps : List PipelineStep) (names : List Bytes) (x : Bytes)
    → skips steps names x ≡ (not (is_job_step steps x) || has names x)
unfolding skips is_job_step
skips-cases steps names x = by_found (step steps x)
  where
    by_found :
        (o : Option PipelineStep)
        → elim o as (λ _. Bool) [ none ↦ true | some s ↦ is_seed s || has names x ]
          ≡ (not (elim o as (λ _. Bool) [ none ↦ false | some s ↦ not (is_seed s) ]) || has names x)
    by_found none = refl
    by_found (some s) = ground arith

pub names_under-put :
    (m : List (Bytes × List Bytes)) (k d : Bytes) (names : List Bytes)
    → names_under (GoMap.put m k names) d ≡ (if k == d then names else names_under m d)
unfolding names_under
names_under-put m k d names =
    ap (λ o. elim o as (λ _. List Bytes) [ none ↦ [] | some names ↦ names ])
      (GoMap.get-put m k names d)
    ∙ by_test (k == d)
  where
    by_test :
        (b : Bool)
        → elim (if b then some names else GoMap.get m d) as (λ _. List Bytes) [
          | none ↦ []
          | some names ↦ names
        ]
          ≡ (if b
              then names
              else elim (GoMap.get m d) as (λ _. List Bytes) [ none ↦ [] | some names ↦ names ])
    by_test true = refl
    by_test false = refl

absorbed : (a b c : Bool) → ((a || (b || false)) || (b && c)) ≡ (a || (b && true))
absorbed true b c = refl
absorbed false true c = refl
absorbed false false c = refl

has-add_dependents :
    (name : Bytes) (deps : List Dependency) (m : List (Bytes × List Bytes)) (d x : Bytes)
    → has (names_under (add_dependents name deps m) d) x
      ≡ (has (names_under m d) x || ((name == x) && is_some (GoMap.get deps d)))
unfolding add_dependents GoMap.get
has-add_dependents name [] m d x = ground arith
has-add_dependents name ((k, required) ∷ deps) m d x =
    has-add_dependents name deps (GoMap.put m k (names_under m k ++ name ∷ [])) d x
    ∙ rw (names_under-put m k d (names_under m k ++ name ∷ [])) (by_test (k == d) refl)
  where
    by_test :
        (b : Bool)
        → (k == d) ≡ b
        → (has (if b then names_under m k ++ name ∷ [] else names_under m d) x
            || ((name == x) && is_some (GoMap.get deps d)))
          ≡ (has (names_under m d) x
              || ((name == x) && is_some (if b then some required else GoMap.get deps d)))
    by_test false e = refl
    by_test true e =
        let same = (list_beq_iff k d).0 e in
        ap (λ c. c || ((name == x) && is_some (GoMap.get deps d)))
          (has-append (names_under m k) (name ∷ []) x
            ∙ ap (λ (n : Bytes). has (names_under m n) x || has (name ∷ []) x) same)
        ∙ unfold has in absorbed (has (names_under m d) x) (name == x) (is_some (GoMap.get deps d))

has-dependents :
    (steps : List PipelineStep) (m : List (Bytes × List Bytes)) (d x : Bytes)
    → has (names_under (dependents steps m) d) x ≡ (has (names_under m d) x || depends_on steps d x)
unfolding dependents
has-dependents [] m d x = ground arith
has-dependents (s ∷ steps) m d x =
    has-dependents steps (add_dependents s.name (dependencies s.inputs) m) d x
    ∙ ap (λ b. b || depends_on steps d x) (has-add_dependents s.name (dependencies s.inputs) m d x)
    ∙ regroup (has (names_under m d) x)
        ((s.name == x) && is_some (GoMap.get (dependencies s.inputs) d)) (depends_on steps d x)
  where
    regroup : (a b c : Bool) → ((a || b) || c) ≡ (a || (b || c))
    regroup true b c = refl
    regroup false b c = refl

-- The map that stepsToRerun builds holds the dependencies of the steps, turned round.
pub dependents-depends_on :
    (steps : List PipelineStep) (d x : Bytes)
    → has (names_under (dependents steps []) d) x ≡ depends_on steps d x
unfolding has names_under GoMap.get
dependents-depends_on steps d x = has-dependents steps [] d x
