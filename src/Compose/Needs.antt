-- ===== src/Compose/Needs.antt =====
-- What the dependencies of a list of specs say of it.
use tie.Prelude.{
  ltb, length, ◌≡◌, ◌≢◌, refl, sym, ap, ◌∙◌, Bool, true, false, Option, none, some, List, [], ◌∷◌,
  ◌++◌, if◌then◌else◌, not, ◌&&◌, ◌||◌, ◌⊎◌, inl, inr, nat_eq, list_eq, list_beq_iff, ◌==◌, foldl,
  is_some, Bool-cases, arith,
}
use tie.Prelude.GoMap
use tie.Tiedb.Triples.{Bytes}
use tie.Compose.{
  is_empty, Spec, SelectError, unresolved_step, no_source, renames_many, keep, validate,
  resolve_source, resolve_steps, Dependency, add_dependency, dependencies,
}

-- What the specs, in whatever order, say of a step: it is required if one of them is not optional.
abbrev pub needs : List Spec → Bytes → Option Bool
needs [] step = none
needs (s ∷ specs) step =
    if not (is_empty s.from_step) && (s.from_step == step)
    then some
        (not s.optional || elim (needs specs step) [ none ↦ false | some required ↦ required ])
    else needs specs step

-- A dependency that is known, and one that the rest of the specs says.
abbrev pub joined : Option Bool → Option Bool → Option Bool
joined none o = o
joined (some r) none = some r
joined (some r) (some q) = some (r || q)

-- The list after one spec, by the fields of the spec.
abbrev added : List Dependency → Bytes → Bool → Option Bool → List Dependency
added out from optional none = out ++ (from, not optional) ∷ []
added out from true (some required) = out
added out from false (some required) = GoMap.put out from true

add_dependency-added :
    (out : List Dependency) (s : Spec)
    → is_empty s.from_step ≡ false
    → add_dependency out s ≡ added out s.from_step s.optional (GoMap.get out s.from_step)
unfolding add_dependency
add_dependency-added out s named = rw named (by_found s.optional (GoMap.get out s.from_step))
  where
    by_found :
        (optional : Bool) (o : Option Bool)
        → elim o as (λ _. List Dependency) [
          | none ↦ out ++ (s.from_step, not optional) ∷ []
          | some required ↦ if optional then out else GoMap.put out s.from_step true
        ]
          ≡ added out s.from_step optional o
    by_found optional none = refl
    by_found true (some required) = refl
    by_found false (some required) = refl

get-added :
    (out : List Dependency) (from : Bytes) (optional : Bool) (o : Option Bool) (step : Bytes)
    → GoMap.get out from ≡ o
    → GoMap.get (added out from optional o) step
      ≡ (if from == step then joined o (some (not optional)) else GoMap.get out step)
unfolding GoMap.get
get-added out from optional none step e =
    ground (arith, GoMap.get-append out ((from, not optional) ∷ []) step, list_beq_iff from step, e)
get-added out from true (some true) step e = ground (arith, list_beq_iff from step, e)
get-added out from true (some false) step e = ground (arith, list_beq_iff from step, e)
get-added out from false (some required) step e =
    ground (arith, GoMap.get-put out from true step, list_beq_iff from step, e)

joined-joined :
    (known : Option Bool) (r : Bool) (rest : Option Bool)
    → joined (joined known (some r)) rest
      ≡ joined known
          (some (r || elim rest as (λ _. Bool) [ none ↦ false | some required ↦ required ]))
joined-joined none r none = ground arith
joined-joined none r (some q) = refl
joined-joined (some p) r none = ground arith
joined-joined (some p) r (some q) = ground arith

joined-none : (o : Option Bool) → joined o none ≡ o
joined-none none = refl
joined-none (some r) = refl

-- The specs of one step after those of the list so far.
joined_next :
    (known here : Option Bool) (same named optional : Bool) (rest : Option Bool)
    → named ≡ true
    → (same ≡ true → here ≡ known)
    → joined (if same then joined known (some (not optional)) else here) rest
      ≡ joined here (
          if named && same
          then some
              (not optional || elim rest as (λ _. Bool) [ none ↦ false | some required ↦ required ])
          else rest)
joined_next known here true true optional rest n e =
    joined-joined known (not optional) rest
    ∙ ap
        (λ (o : Option Bool). joined o (
          some
            (not optional || elim rest as (λ _. Bool) [ none ↦ false | some required ↦ required ])))
        (sym (e refl))
joined_next known here false true optional rest n e = refl
joined_next known here same false optional rest n e = cc

get-foldl :
    (specs : List Spec) (out : List Dependency) (step : Bytes)
    → GoMap.get (foldl add_dependency out specs) step
      ≡ joined (GoMap.get out step) (needs specs step)
unfolding add_dependency
get-foldl [] out step = sym (joined-none (GoMap.get out step))
get-foldl (s ∷ specs) out step = elim (Bool-cases (is_empty s.from_step)) [
  | inl blank ↦ get-foldl specs (add_dependency out s) step ∙ (rw (blank, add_dependency) refl)
  | inr named ↦
      get-foldl specs (add_dependency out s) step
      ∙ ap (λ (ds : List Dependency). joined (GoMap.get ds step) (needs specs step))
          (add_dependency-added out s named)
      ∙ ap (λ o. joined o (needs specs step))
          (get-added out s.from_step s.optional (GoMap.get out s.from_step) step refl)
      ∙ joined_next (GoMap.get out s.from_step) (GoMap.get out step) (s.from_step == step)
          (not (is_empty s.from_step)) s.optional (needs specs step) (ap not named)
          (λ same.
            ap (λ (k : Bytes). GoMap.get out k) (sym ((list_beq_iff s.from_step step).0 same)))
]

-- The dependencies list a step exactly if some spec names it, and as required exactly if some spec
-- that names it is not optional.
pub get-dependencies :
    (specs : List Spec) (step : Bytes) → GoMap.get (dependencies specs) step ≡ needs specs step
unfolding dependencies GoMap.get
get-dependencies specs step = get-foldl specs [] step

-- A lookup that answers for every required step.
abbrev pub Answers : (Bytes → Option Bytes) → List Spec → Type 0
Answers lookup specs = (step : Bytes) → needs specs step ≡ some true → is_some (lookup step) ≡ true

Answers-tail :
    (lookup : Bytes → Option Bytes) (s : Spec) (specs : List Spec)
    → Answers lookup (s ∷ specs)
    → Answers lookup specs
Answers-tail lookup s specs h step e = h step (ground (arith, e))

Answers-head :
    (lookup : Bytes → Option Bytes) (s : Spec) (specs : List Spec)
    → Answers lookup (s ∷ specs)
    → is_empty s.from_step ≡ false
    → s.optional ≡ false
    → is_some (lookup s.from_step) ≡ true
Answers-head lookup s specs h named required =
    h s.from_step (ground (arith, named, required, list_beq_iff s.from_step s.from_step))

resolve_source-resolves :
    (lookup : Bytes → Option Bytes) (s : Spec) (step : Bytes)
    → (is_empty s.from_step ≡ false → s.optional ≡ false → is_some (lookup s.from_step) ≡ true)
    → resolve_source lookup s ≢ inl (unresolved_step step)
unfolding resolve_source
resolve_source-resolves lookup s step h e =
    by_case (is_empty s.hash) (is_empty s.from_step) s.optional (lookup s.from_step) h e
  where
    by_case :
        (given blank optional : Bool) (found : Option Bytes)
        → (blank ≡ false → optional ≡ false → is_some found ≡ true)
        → (if not given
            then inr (some s)
            else if not blank
            then elim found as (λ _. SelectError ⊎ Option Spec) [
              | none ↦ if optional then inr none else inl (unresolved_step s.from_step)
              | some hash ↦
                  if not (is_empty hash)
                  then inr (some (record s { hash = hash }))
                  else if optional
                  then inr none
                  else inl no_source
            ]
            else if optional
            then inr none
            else inl no_source)
          ≢ inl (unresolved_step step)
    by_case false blank optional found h e = cc
    by_case true true true found h e = cc
    by_case true true false found h e = cc
    by_case true false true none h e = cc
    by_case true false false none h e = absurd (cc (h refl refl))
    by_case true false true (some []) h e = cc
    by_case true false false (some []) h e = cc
    by_case true false optional (some (x ∷ hash)) h e = cc

validate-resolves : (s : Spec) (step : Bytes) → validate s ≢ some (unresolved_step step)
unfolding validate
validate-resolves s step e = by_test (not (is_empty s.as_name) && ltb 1 (length s.paths)) e
  where
    by_test : (b : Bool) → (if b then some renames_many else none) ≢ some (unresolved_step step)
    by_test true e = cc
    by_test false e = cc

-- Where the lookup answers for every step that the dependencies list as required, resolving the
-- specs never fails for want of a step.
pub resolve_steps-resolves :
    (specs : List Spec) (lookup : Bytes → Option Bytes) (step : Bytes)
    → Answers lookup specs
    → resolve_steps specs lookup ≢ inl (unresolved_step step)
unfolding resolve_steps
resolve_steps-resolves [] lookup step h e = cc
resolve_steps-resolves (s ∷ specs) lookup step h e =
    by_case (validate s) (resolve_source lookup s) (resolve_steps specs lookup)
      (resolve_source-resolves lookup s step (Answers-head lookup s specs h))
      (resolve_steps-resolves specs lookup step (Answers-tail lookup s specs h))
      (validate-resolves s step) e
  where
    by_case :
        (v : Option SelectError) (r : SelectError ⊎ Option Spec) (rest : SelectError ⊎ List Spec)
        → r ≢ inl (unresolved_step step)
        → rest ≢ inl (unresolved_step step)
        → v ≢ some (unresolved_step step)
        → elim v as (λ _. SelectError ⊎ List Spec) [
          | some e ↦ inl e
          | none ↦ elim r as (λ _. SelectError ⊎ List Spec) [
            | inl e ↦ inl e
            | inr kept ↦ elim rest as (λ _. SelectError ⊎ List Spec) [
              | inl e ↦ inl e
              | inr out ↦ inr (keep kept out)
            ]
          ]
        ]
          ≢ inl (unresolved_step step)
    by_case (some f) r rest a b c e = c (cc e)
    by_case none (inl f) rest a b c e = a (cc e)
    by_case none (inr kept) (inl f) a b c e = b (cc e)
    by_case none (inr kept) (inr out) a b c e = cc
