-- ===== src/Compose.antt =====
-- io/compose/spec.go and io/compose/select.go: the selections that make up a job's input, and the
-- step graph that they span.
pub mod Needs
use tie.Prelude.{
  ℕ, Bool, true, false, Option, none, some, List, [], ◌∷◌, ◌++◌, if◌then◌else◌, ltb, length, not,
  ◌&&◌, ◌⊎◌, inl, inr, nat_eq, list_eq, ◌==◌, foldl,
}
use tie.Prelude.GoMap
use tie.Tiedb.Triples.{Bytes}

abbrev pub is_empty {ℓ} : {A : Type ℓ} → List A → Bool
is_empty [] = true
is_empty (x ∷ xs) = false

pub record Spec : Type 0 where
  pub from_step : Bytes
  pub hash : Bytes
  pub paths : List Bytes
  pub glob : Bytes
  pub as_name : Bytes
  pub optional : Bool

-- What a selection can fail with; the texts of Go's messages are not modelled, but what they name.
pub data SelectError : Type 0 where
  renames_many no_source : SelectError
  unresolved_step : Bytes → SelectError
  name_collision : Bytes → SelectError
  tree_unavailable not_a_directory : Bytes → SelectError
  directory_not_found path_not_found bad_glob glob_matched_nothing : Bytes → SelectError

unfoldable pub validate : Spec → Option SelectError
validate s = if not (is_empty s.as_name) && ltb 1 (length s.paths) then some renames_many else none

-- The source of one spec: `none` leaves the spec out.
unfoldable pub resolve_source : (Bytes → Option Bytes) → Spec → SelectError ⊎ Option Spec
resolve_source lookup s =
    if not (is_empty s.hash)
    then inr (some s)
    else if not (is_empty s.from_step)
    then elim (lookup s.from_step) [
      | none ↦ if s.optional then inr none else inl (unresolved_step s.from_step)
      | some hash ↦
          if not (is_empty hash)
          then inr (some (record s { hash = hash }))
          else if s.optional
          then inr none
          else inl no_source
    ]
    else if s.optional
    then inr none
    else inl no_source

-- What one spec puts in front of the others.
unfoldable pub keep : Option Spec → List Spec → List Spec
keep none specs = specs
keep (some s) specs = s ∷ specs

unfoldable pub resolve_steps : List Spec → (Bytes → Option Bytes) → SelectError ⊎ List Spec
unfolding keep
resolve_steps [] lookup = inr []
resolve_steps (s ∷ specs) lookup =
    let rest = resolve_steps specs lookup in
    elim (validate s) [
      | some e ↦ inl e
      | none ↦ elim (resolve_source lookup s) [
        | inl e ↦ inl e
        | inr kept ↦ elim rest [ inl e ↦ inl e | inr out ↦ inr (keep kept out) ]
      ]
    ]

-- A prior step, and whether some spec that names it is not optional.
abbrev pub Dependency : Type 0
Dependency = Bytes × Bool

unfoldable pub add_dependency : List Dependency → Spec → List Dependency
add_dependency out s = if is_empty s.from_step then out else elim (GoMap.get out s.from_step) [
  | none ↦ out ++ (s.from_step, not s.optional) ∷ []
  | some required ↦ if s.optional then out else GoMap.put out s.from_step true
]

-- The distinct prior steps of the specs, in the order in which they are seen first.
unfoldable pub dependencies : List Spec → List Dependency
dependencies specs = foldl add_dependency [] specs
