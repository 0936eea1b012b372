-- ===== src/Runner/Pipeline/Order/Degrees.antt =====
-- The in-degrees count the edges from steps that are not in order yet.
use tie.Prelude.{
  ℕ, ◌+◌, ◌≡◌, refl, ap, ◌∙◌, Bool, true, false, none, some, List, [], ◌∷◌, ◌++◌, if◌then◌else◌,
  nat_eq, list_eq, list_beq_iff, ◌==◌, not, ◌&&◌, is_some, arith,
}
use tie.Prelude.GoMap
use tie.Prelude.Int.{ℤ, pos, int_eq}
use tie.Tiedb.Triples.{Bytes}
use tie.Compose.{Dependency, dependencies}
use tie.Runner.Pipeline.{PipelineStep}
use tie.Runner.Pipeline.Rerun.{has, names_under}
use tie.Runner.Pipeline.Rerun.Graph.{has-append, names_under-put}
use tie.Runner.Pipeline.Order.{Steps, increment, degree, Graph, no_edges, add_edges, edges_of}

-- How often a name is in a list.
abbrev pub count : List Bytes → Bytes → ℕ
count [] x = 0
count (n ∷ names) x = (if n == x then 1 else 0) + count names x

-- The edges of a list of dependencies from one job step, and those from job steps outside a set.
abbrev pub edges_from : Steps → Bytes → List Dependency → ℕ
edges_from jobs d [] = 0
edges_from jobs d ((e, required) ∷ deps) =
    (if is_some (GoMap.get jobs e) && (e == d) then 1 else 0) + edges_from jobs d deps

abbrev pub open_edges : Steps → List Bytes → List Dependency → ℕ
open_edges jobs set [] = 0
open_edges jobs set ((e, required) ∷ deps) =
    (if is_some (GoMap.get jobs e) && not (has set e) then 1 else 0) + open_edges jobs set deps

-- The same of all steps of a name.
abbrev pub between : Steps → List PipelineStep → Bytes → Bytes → ℕ
between jobs [] d x = 0
between jobs (s ∷ steps) d x =
    (if s.name == x then edges_from jobs d (dependencies s.inputs) else 0) + between jobs steps d x

abbrev pub left : Steps → List PipelineStep → List Bytes → Bytes → ℕ
left jobs [] set x = 0
left jobs (s ∷ steps) set x =
    (if s.name == x then open_edges jobs set (dependencies s.inputs) else 0) + left jobs steps set x

open_edges_snoc :
    (jobs : Steps) (set : List Bytes) (n : Bytes) (deps : List Dependency)
    → has set n ≡ false
    → open_edges jobs set deps ≡ open_edges jobs (set ++ n ∷ []) deps + edges_from jobs n deps
unfolding has
open_edges_snoc jobs set n [] h = omega arith
open_edges_snoc jobs set n ((e, required) ∷ deps) h = ground (
  arith,
  open_edges_snoc jobs set n deps h,
  list_beq_iff e n,
  list_beq_iff n e,
  h,
  has-append set (n ∷ []) e,
)

-- Where a step enters the order, exactly its edges are closed.
pub left_snoc :
    (jobs : Steps) (steps : List PipelineStep) (set : List Bytes) (n x : Bytes)
    → has set n ≡ false
    → left jobs steps set x ≡ left jobs steps (set ++ n ∷ []) x + between jobs steps n x
left_snoc jobs [] set n x h = omega arith
left_snoc jobs (s ∷ steps) set n x h =
    ground
      (arith, left_snoc jobs steps set n x h, open_edges_snoc jobs set n (dependencies s.inputs) h)

pub degree-put :
    (m : List (Bytes × ℤ)) (k x : Bytes) (n : ℤ)
    → degree (GoMap.put m k n) x ≡ (if k == x then n else degree m x)
unfolding degree
degree-put m k x n =
    ap (λ o. elim o as (λ _. ℤ) [ none ↦ pos 0 | some n ↦ n ]) (GoMap.get-put m k n x)
    ∙ by_test (k == x)
  where
    by_test :
        (b : Bool)
        → elim (if b then some n else GoMap.get m x) as (λ _. ℤ) [ none ↦ pos 0 | some n ↦ n ]
          ≡ (if b then n else elim (GoMap.get m x) as (λ _. ℤ) [ none ↦ pos 0 | some n ↦ n ])
    by_test true = refl
    by_test false = refl

degree-increment :
    (m : List (Bytes × ℤ)) (name x : Bytes) (k : ℕ)
    → degree m x ≡ pos k
    → degree (GoMap.put m name (increment (degree m name))) x
      ≡ pos (k + (if name == x then 1 else 0))
degree-increment m name x k h =
    degree-put m name x (increment (degree m name)) ∙ by_test (name == x) refl
  where
    by_test :
        (b : Bool)
        → (name == x) ≡ b
        → (if b then increment (degree m name) else degree m x) ≡ pos (k + (if b then 1 else 0))
    by_test true e =
        let same = (list_beq_iff name x).0 e in
        ap (λ (n : Bytes). increment (degree m n)) same ∙ ap increment h ∙ ap pos (omega arith)
    by_test false e = h ∙ ap pos (omega arith)

degree-add_edges :
    (jobs : Steps) (name : Bytes) (deps : List Dependency) (g : Graph) (x : Bytes) (k : ℕ)
    → degree g.indegree x ≡ pos k
    → degree (add_edges jobs name deps g).indegree x
      ≡ pos (k + (if name == x then open_edges jobs [] deps else 0))
unfolding add_edges has
degree-add_edges jobs name [] g x k h = h ∙ ap pos (ground arith)
degree-add_edges jobs name ((d, required) ∷ deps) g x k h =
    by_test (is_some (GoMap.get jobs d)) (λ g2 k2 h2. degree-add_edges jobs name deps g2 x k2 h2)
  where
    by_test :
        (b : Bool)
        → ((g2 : Graph) (k2 : ℕ)
            → degree g2.indegree x ≡ pos k2
            → degree (add_edges jobs name deps g2).indegree x
              ≡ pos (k2 + (if name == x then open_edges jobs [] deps else 0)))
        → degree
            (add_edges jobs name deps (
              if b
              then record {
                indegree = GoMap.put g.indegree name (increment (degree g.indegree name));
                dependents = GoMap.put g.dependents d (names_under g.dependents d ++ name ∷ []);
              }
              else g)).indegree
            x
          ≡ pos (
              k
              + (if name == x
                  then (if b && not false then 1 else 0) + open_edges jobs [] deps
                  else 0))
    by_test true later =
        later _ (k + (if name == x then 1 else 0)) (degree-increment g.indegree name x k h)
        ∙ ap pos (ground arith)
    by_test false later = later g k h ∙ ap pos (ground arith)

pub count-append : (xs ys : List Bytes) (x : Bytes) → count (xs ++ ys) x ≡ count xs x + count ys x
count-append [] ys x = omega arith
count-append (n ∷ xs) ys x = omega (arith, count-append xs ys x)

count-names_under-put :
    (m : List (Bytes × List Bytes)) (k name d x : Bytes)
    → count (names_under (GoMap.put m k (names_under m k ++ name ∷ [])) d) x
      ≡ count (names_under m d) x + (if k == d then (if name == x then 1 else 0) else 0)
count-names_under-put m k name d x =
    ap (λ (ns : List Bytes). count ns x) (names_under-put m k d (names_under m k ++ name ∷ []))
    ∙ by_test (k == d) refl
  where
    by_test :
        (b : Bool)
        → (k == d) ≡ b
        → count (if b then names_under m k ++ name ∷ [] else names_under m d) x
          ≡ count (names_under m d) x + (if b then (if name == x then 1 else 0) else 0)
    by_test false e = omega arith
    by_test true e =
        let same = (list_beq_iff k d).0 e in
        count-append (names_under m k) (name ∷ []) x
        ∙ ap (λ (n : Bytes). count (names_under m n) x + count (name ∷ []) x) same
        ∙ omega arith

count-add_edges :
    (jobs : Steps) (name : Bytes) (deps : List Dependency) (g : Graph) (d x : Bytes)
    → count (names_under (add_edges jobs name deps g).dependents d) x
      ≡ count (names_under g.dependents d) x + (if name == x then edges_from jobs d deps else 0)
unfolding add_edges
count-add_edges jobs name [] g d x = ground arith
count-add_edges jobs name ((e, required) ∷ deps) g d x =
    by_test (is_some (GoMap.get jobs e)) (λ g2. count-add_edges jobs name deps g2 d x)
  where
    by_test :
        (b : Bool)
        → ((g2 : Graph)
            → count (names_under (add_edges jobs name deps g2).dependents d) x
              ≡ count (names_under g2.dependents d) x
                + (if name == x then edges_from jobs d deps else 0))
        → count
            (names_under
              (add_edges jobs name deps (
                if b
                then record {
                  indegree = GoMap.put g.indegree name (increment (degree g.indegree name));
                  dependents = GoMap.put g.dependents e (names_under g.dependents e ++ name ∷ []);
                }
                else g)).dependents
              d)
            x
          ≡ count (names_under g.dependents d) x
            + (if name == x then (if b && (e == d) then 1 else 0) + edges_from jobs d deps else 0)
    by_test true later =
        later _
        ∙ ap (λ n. n + (if name == x then edges_from jobs d deps else 0))
            (count-names_under-put g.dependents e name d x)
        ∙ ground arith
    by_test false later = later g ∙ ground arith

-- What the loop over the steps gives: the edges that are open, and the edges from each name.
pub degree-edges_of :
    (jobs : Steps) (steps : List PipelineStep) (g : Graph) (x : Bytes) (k : ℕ)
    → degree g.indegree x ≡ pos k
    → degree (edges_of jobs steps g).indegree x ≡ pos (k + left jobs steps [] x)
unfolding edges_of
degree-edges_of jobs [] g x k h = h ∙ ap pos (omega arith)
degree-edges_of jobs (s ∷ steps) g x k h =
    degree-edges_of jobs steps _ x _ (degree-add_edges jobs s.name (dependencies s.inputs) g x k h)
    ∙ ap pos (omega arith)

pub count-edges_of :
    (jobs : Steps) (steps : List PipelineStep) (g : Graph) (d x : Bytes)
    → count (names_under (edges_of jobs steps g).dependents d) x
      ≡ count (names_under g.dependents d) x + between jobs steps d x
unfolding edges_of
count-edges_of jobs [] g d x = omega arith
count-edges_of jobs (s ∷ steps) g d x =
    let rest = count-edges_of jobs steps (add_edges jobs s.name (dependencies s.inputs) g) d x in
    let here = count-add_edges jobs s.name (dependencies s.inputs) g d x in
    omega (arith, rest, here)

pub degree-no_edges : (jobs : Steps) (x : Bytes) → degree (no_edges jobs) x ≡ pos 0
unfolding no_edges
degree-no_edges [] x = unfold degree GoMap.get in refl
degree-no_edges ((name, s) ∷ jobs) x =
    degree-put (no_edges jobs) name x (pos 0) ∙ by_test (name == x) (degree-no_edges jobs x)
  where
    by_test :
        (b : Bool)
        → degree (no_edges jobs) x ≡ pos 0
        → (if b then pos 0 else degree (no_edges jobs) x) ≡ pos 0
    by_test true h = refl
    by_test false h = h
