-- ===== src/Runner/Pipeline/Advance/Ordered.antt =====
-- Steps that depend on steps before them only, and that Advance keeps them so.
use tie.Prelude.{
  suc, ◌≡◌, refl, sym, ap, ◌∙◌, Bool, true, false, some, List, [], ◌∷◌, ◌++◌, if◌then◌else◌, nat_eq,
  list_eq, ◌==◌, inl, inr, length, arith, Bool-cases, is_some, All, All-map, list_beq_iff,
}
use mathlib.Core.Path.{subst}
use tie.Prelude.GoMap
use tie.Tiedb.Triples.{Bytes}
use tie.Compose.{Dependency, dependencies}
use tie.Runner.Pipeline.{PipelineStep, step}
use tie.Runner.Pipeline.Advance.Grows.{is_known, Grows, AllGrow}

abbrev pub Before : List PipelineStep → Dependency → Type 0
Before before d = is_some (step before d.0) ≡ true

pub listed-Before :
    (before : List PipelineStep) (deps : List Dependency) (d : Bytes)
    → All (Before before) deps
    → is_some (GoMap.get deps d) ≡ true
    → is_some (step before d) ≡ true
unfolding GoMap.get
listed-Before before [] d w h = absurd (cc h)
listed-Before before ((name, required) ∷ deps) d w h = elim (Bool-cases (name == d)) [
  | inl e ↦ ap (λ (n : Bytes). is_some (step before n)) (sym ((list_beq_iff name d).0 e)) ∙ w.0
  | inr e ↦ listed-Before before deps d w.1 (ground (arith, e, h))
]

-- Every step depends on steps before it only.
abbrev pub InOrder : List PipelineStep → List PipelineStep → Type 0
InOrder before [] = Unit
InOrder before (s ∷ rest) =
    All (Before before) (dependencies s.inputs) × InOrder (before ++ s ∷ []) rest

abbrev pub Known : PipelineStep → Type 0
Known s = is_known s.status ≡ true

pub step-append :
    (before rest : List PipelineStep) (d : Bytes)
    → is_some (step before d) ≡ true
    → step (before ++ rest) d ≡ step before d
unfolding step
step-append [] rest d h = absurd (cc h)
step-append (s ∷ before) rest d h = by_test (s.name == d) (step-append before rest d) h
  where
    by_test :
        (b : Bool)
        → (is_some (step before d) ≡ true → step (before ++ rest) d ≡ step before d)
        → is_some (if b then some s else step before d) ≡ true
        → (if b then some s else step (before ++ rest) d) ≡ (if b then some s else step before d)
    by_test true later h = refl
    by_test false later h = later h

step-AllGrow :
    (ss ts : List PipelineStep) (d : Bytes)
    → AllGrow ss ts
    → is_some (step ss d) ≡ true
    → is_some (step ts d) ≡ true
unfolding step
step-AllGrow [] ts d g h = absurd (cc h)
step-AllGrow (s ∷ ss) [] d g h = elim g [ ]
step-AllGrow (s ∷ ss) (t ∷ ts) d g h =
    by_test (s.name == d) (t.name == d) (ap (λ (n : Bytes). n == d) g.0.name)
      (step-AllGrow ss ts d g.1) h
  where
    by_test :
        (b c : Bool)
        → c ≡ b
        → (is_some (step ss d) ≡ true → is_some (step ts d) ≡ true)
        → is_some (if b then some s else step ss d) ≡ true
        → is_some (if c then some t else step ts d) ≡ true
    by_test b true e later h = refl
    by_test true false e later h = absurd (cc e)
    by_test false false e later h = later h

AllGrow-snoc :
    (bs cs : List PipelineStep) (s t : PipelineStep)
    → AllGrow bs cs
    → Grows s t
    → AllGrow (bs ++ s ∷ []) (cs ++ t ∷ [])
AllGrow-snoc [] [] s t g h = (h, tt)
AllGrow-snoc [] (c ∷ cs) s t g h = elim g [ ]
AllGrow-snoc (b ∷ bs) [] s t g h = elim g [ ]
AllGrow-snoc (b ∷ bs) (c ∷ cs) s t g h = (g.0, AllGrow-snoc bs cs s t g.1 h)

pub AllGrow-InOrder :
    (bs cs ss ts : List PipelineStep)
    → AllGrow bs cs
    → AllGrow ss ts
    → InOrder bs ss
    → InOrder cs ts
AllGrow-InOrder bs cs [] [] g h w = tt
AllGrow-InOrder bs cs [] (t ∷ ts) g h w = elim h [ ]
AllGrow-InOrder bs cs (s ∷ ss) [] g h w = elim h [ ]
AllGrow-InOrder bs cs (s ∷ ss) (t ∷ ts) g h w = (
  subst (λ specs. All (Before cs) (dependencies specs)) (sym h.0.inputs)
      (All-map (Before bs) (Before cs) (dependencies s.inputs) (λ d e. step-AllGrow bs cs d.0 g e)
        w.0),
  AllGrow-InOrder (bs ++ s ∷ []) (cs ++ t ∷ []) ss ts (AllGrow-snoc bs cs s t g h.0) h.1 w.1,
)

pub AllGrow-Known : (ss ts : List PipelineStep) → AllGrow ss ts → All Known ss → All Known ts
AllGrow-Known [] [] g k = tt
AllGrow-Known [] (t ∷ ts) g k = elim g [ ]
AllGrow-Known (s ∷ ss) [] g k = elim g [ ]
AllGrow-Known (s ∷ ss) (t ∷ ts) g k = (g.0.known k.0, AllGrow-Known ss ts g.1 k.1)

pub AllGrow-length : (ss ts : List PipelineStep) → AllGrow ss ts → length ts ≡ length ss
AllGrow-length [] [] g = refl
AllGrow-length [] (t ∷ ts) g = elim g [ ]
AllGrow-length (s ∷ ss) [] g = elim g [ ]
AllGrow-length (s ∷ ss) (t ∷ ts) g = ap suc (AllGrow-length ss ts g.1)
