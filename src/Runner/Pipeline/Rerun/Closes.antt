-- ===== src/Runner/Pipeline/Rerun/Closes.antt =====
-- The steps that a resume runs again are exactly those downstream of where it starts.
use tie.Prelude.{
  ℕ, zero, suc, ◌+◌, ◌≡◌, ◌≤◌, ◌<◌, refl, sym, ap, ◌∙◌, Bool, true, false, Option, none, some, List,
  [], ◌∷◌, if◌then◌else◌, nat_eq, list_eq, list_beq_iff, ◌==◌, not, length, foldl, arith,
  Bool-cases, ◌⊎◌, inl, inr,
}
use mathlib.Core.Path.{subst}
use tie.Tiedb.Triples.{Bytes}
use tie.Runner.Pipeline.{PipelineStep, is_seed, step}
use tie.Runner.Pipeline.Rerun.{has, names_under, skips, mark}
use tie.Runner.Pipeline.Rerun.Graph.{is_job_step, skips-cases}

-- Names are only added, and what is added brings its job steps below with it.
pub record Grown (steps : List PipelineStep) (m : List (Bytes × List Bytes)) (r q : List Bytes)
    : Type 0 where
  pub keeps : (x : Bytes) → has r x ≡ true → has q x ≡ true
  pub closes :
      (x y : Bytes)
      → has q x ≡ true
      → has r x ≡ false
      → has (names_under m x) y ≡ true
      → is_job_step steps y ≡ true
      → has q y ≡ true

-- How many steps are not in the set.
abbrev pub unmarked : List PipelineStep → List Bytes → ℕ
unmarked [] r = 0
unmarked (s ∷ steps) r = (if has r s.name then 0 else 1) + unmarked steps r

pub unmarked-le :
    (steps : List PipelineStep) (r q : List Bytes)
    → ((x : Bytes) → has r x ≡ true → has q x ≡ true)
    → unmarked steps q ≤ unmarked steps r
unmarked-le [] r q h = omega arith
unmarked-le (s ∷ steps) r q h = ground (arith, h s.name, unmarked-le steps r q h)

unmarked-cons-lt :
    (steps : List PipelineStep) (r : List Bytes) (x : Bytes) (s : PipelineStep)
    → step steps x ≡ some s
    → has r x ≡ false
    → unmarked steps (x ∷ r) < unmarked steps r
unfolding step has
unmarked-cons-lt [] r x s e h = absurd (cc e)
unmarked-cons-lt (t ∷ steps) r x s e h = ground (
  arith,
  list_beq_iff t.name x,
  list_beq_iff x t.name,
  h,
  e,
  unmarked-cons-lt steps r x s,
  unmarked-le steps r (x ∷ r),
)

pub unmarked_none : (steps : List PipelineStep) → unmarked steps [] ≤ length steps
unfolding has
unmarked_none [] = omega arith
unmarked_none (s ∷ steps) = omega (arith, unmarked_none steps)

pub Grown-refl :
    (steps : List PipelineStep) (m : List (Bytes × List Bytes)) (r : List Bytes) → Grown steps m r r
Grown-refl steps m r = record { keeps = λ x h. h; closes = λ x y h g. cc (h, g) }

pub Grown-trans :
    (steps : List PipelineStep) (m : List (Bytes × List Bytes)) (r q u : List Bytes)
    → Grown steps m r q
    → Grown steps m q u
    → Grown steps m r u
Grown-trans steps m r q u g h = record {
  keeps = λ x e. h.keeps x (g.keeps x e);
  closes = λ x y e f b j. elim (Bool-cases (has q x)) [
    | inl k ↦ h.keeps y (g.closes x y k f b j)
    | inr k ↦ h.closes x y e k b j
  ];
}

-- What one call, or a list of calls, must give.
abbrev pub Marked :
    List PipelineStep → List (Bytes × List Bytes) → List Bytes → List Bytes → List Bytes → Type 0
Marked steps m r names q =
    Grown steps m r q
    × ((x : Bytes) → has names x ≡ true → is_job_step steps x ≡ true → has q x ≡ true)

pub has-cons :
    (n x : Bytes) (names : List Bytes) → has (n ∷ names) x ≡ true → (n ≡ x) ⊎ (has names x ≡ true)
unfolding has
has-cons n x names h = elim (Bool-cases (n == x)) [
  | inl e ↦ inl ((list_beq_iff n x).0 e)
  | inr e ↦ inr (ground (arith, h, e))
]

mark_all-Marked :
    (steps : List PipelineStep) (m : List (Bytes × List Bytes)) (n : ℕ)
    → ((r : List Bytes) (x : Bytes)
        → unmarked steps r < n
        → Marked steps m r (x ∷ []) (mark n steps m r x))
    → (names r : List Bytes) → unmarked steps r < n
    → Marked steps m r names (foldl (mark n steps m) r names)
unfolding has
mark_all-Marked steps m n one [] r few = (Grown-refl steps m r, λ x h j. absurd (cc h))
mark_all-Marked steps m n one (y ∷ names) r few =
    let q = mark n steps m r y in
    let first = one r y few in
    let fewer = unmarked-le steps r q first.0.keeps in
    let rest = mark_all-Marked steps m n one names q (omega (arith, few, fewer)) in
    (
      Grown-trans steps m r q _ first.0 rest.0,
      λ x h j. elim (has-cons y x names h) [
        | inl e ↦ rest.0.keeps x (first.1 x (ground (arith, e, list_beq_iff y x)) j)
        | inr e ↦ rest.1 x e j
      ],
    )

below_first :
    (steps : List PipelineStep) (m : List (Bytes × List Bytes)) (r : List Bytes) (x : Bytes)
    (q : List Bytes)
    → has r x ≡ false
    → Marked steps m (x ∷ r) (names_under m x) q
    → Marked steps m r (x ∷ []) q
unfolding has
below_first steps m r x q fresh g = (
  record {
    keeps = λ y h. g.0.keeps y (ground (arith, h));
    closes = λ y z h f b j. elim (Bool-cases (x == y)) [
      | inl e ↦ g.1 z (ap (λ (n : Bytes). has (names_under m n) z) ((list_beq_iff x y).0 e) ∙ b) j
      | inr e ↦ g.0.closes y z h (ground (arith, e, f)) b j
    ];
  },
  λ y h j. g.0.keeps y (ground (arith, h)),
)

skipped_call :
    (steps : List PipelineStep) (m : List (Bytes × List Bytes)) (r : List Bytes) (x : Bytes)
    → skips steps r x ≡ true
    → Marked steps m r (x ∷ []) r
unfolding has
skipped_call steps m r x h = (
  Grown-refl steps m r,
  λ y e j.
      let same : x ≡ y = ground (arith, e, list_beq_iff x y) in
      let skip = sym (skips-cases steps r x) ∙ h in
      let job : is_job_step steps x ≡ true = ap (is_job_step steps) same ∙ j in
      let there : has r x ≡ true = ground (arith, skip, job) in ap (has r) (sym same) ∙ there,
)

job_step_found :
    (steps : List PipelineStep) (x : Bytes)
    → is_job_step steps x ≡ true
    → (s : PipelineStep) × (step steps x ≡ some s)
unfolding is_job_step
job_step_found steps x h = by_found (step steps x) h
  where
    by_found :
        (o : Option PipelineStep)
        → elim o as (λ _. Bool) [ none ↦ false | some s ↦ not (is_seed s) ] ≡ true
        → (s : PipelineStep) × (o ≡ some s)
    by_found none h = absurd (cc h)
    by_found (some s) h = (s, refl)

-- On more fuel than there are steps not marked, a call marks its name, if that is a job step, and
-- all that is new brings what is below it.
pub mark-Marked :
    (steps : List PipelineStep) (m : List (Bytes × List Bytes)) (n : ℕ) (r : List Bytes) (x : Bytes)
    → unmarked steps r < n
    → Marked steps m r (x ∷ []) (mark n steps m r x)
unfolding mark
mark-Marked steps m zero r x few = absurd (omega arith)
mark-Marked steps m (suc n) r x few = elim (Bool-cases (skips steps r x)) [
  | inl skip ↦
      subst (Marked steps m r (x ∷ [])) (sym (chosen true skip)) (skipped_call steps m r x skip)
  | inr go ↦
      let cases = sym (skips-cases steps r x) ∙ go in
      let job : is_job_step steps x ≡ true = ground (arith, cases) in
      let fresh : has r x ≡ false = ground (arith, cases) in
      let found = job_step_found steps x job in
      let fewer = unmarked-cons-lt steps r x found.0 found.1 fresh in
      subst (Marked steps m r (x ∷ [])) (sym (chosen false go)) (
        below_first steps m r x _ fresh (
          mark_all-Marked steps m n (mark-Marked steps m n) (names_under m x) (x ∷ r)
            (omega (arith, few, fewer))))
]
  where
    chosen :
        (b : Bool)
        → skips steps r x ≡ b
        → (if skips steps r x then r else foldl (mark n steps m) (x ∷ r) (names_under m x))
          ≡ (if b then r else foldl (mark n steps m) (x ∷ r) (names_under m x))
    chosen b e = ap (λ c. if c then r else foldl (mark n steps m) (x ∷ r) (names_under m x)) e
