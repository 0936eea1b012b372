-- ===== src/Tiedb/MkDir.antt =====
-- tiedb/mkdir.go: the node of a path, created at most once.
use tie.Prelude.{Bool, true, false, Option, none, some, List, [], ◌∷◌, if◌then◌else◌, ◌||◌}
use tie.Tiedb.Triples.{Bytes}
use tie.Tiedb.Collection.{Collection, Error, read_only_error, dir_spec_incomplete}
use tie.Tiedb.Assoc
use tie.Tiedb.Query.{get_reverse}
use tie.Tiedb.Resolve.{compare_bytes, sort}

pub record DirSpec : Type 0 where
  pub path : Bytes
  pub new_uid : Bytes
  pub parent_uid : Bytes
  pub path_relation : Bytes
  pub parent_relation : Bytes
  pub type_relation : Bytes
  pub type_value : Bytes

abbrev is_empty : Bytes → Bool
is_empty [] = true
is_empty (b ∷ bs) = false

-- The smallest of the owners that a reverse lookup names.
smallest : Option (List Bytes) → Option Bytes
smallest none = none
smallest (some []) = none
smallest (some (k ∷ [])) = some k
smallest (some (k ∷ j ∷ ks)) = elim (sort compare_bytes (k ∷ j ∷ ks)) [
  | [] ↦ none
  | least ∷ others ↦ some least
]

unfoldable pub uid_for_value : Collection → Bytes → Bytes → Collection × Option Bytes
unfolding smallest
uid_for_value ic value relation = let r = get_reverse ic value relation in (r.0, smallest r.1)

-- An add that is made only if both parts are given.
add_optional : Collection → Bytes → Bytes → Bytes → Collection × Option Error
add_optional ic uid relation value =
    if is_empty relation || is_empty value then (ic, none) else Assoc.add ic uid relation value

-- The writes of a new node; an error ends them.
unfoldable pub write_node : Collection → DirSpec → Collection × Option Error
unfolding add_optional
write_node ic spec =
    let r1 = add_optional ic spec.new_uid spec.parent_relation spec.parent_uid in
    elim r1.1 [
      | some e ↦ r1
      | none ↦
          let r2 = Assoc.add r1.0 spec.new_uid spec.path_relation spec.path in
          elim r2.1 [
            | some e ↦ r2
            | none ↦ add_optional r2.0 spec.new_uid spec.type_relation spec.type_value
          ]
    ]

-- The owner of the path and whether it was there before; or an error.
pub data Made : Type 0 where
  owner : Bytes → Bool → Made
  refused : Error → Made

unfoldable pub make_dir : Collection → DirSpec → Collection × Made
make_dir ic spec =
    if is_empty spec.path || (is_empty spec.new_uid || is_empty spec.path_relation)
    then (ic, refused dir_spec_incomplete)
    else elim ic.io_err [
      | some e ↦ (ic, refused e)
      | none ↦
          if ic.read_only
          then (ic, refused read_only_error)
          else (let r = uid_for_value ic spec.path spec.path_relation in
              elim r.1 [
                | some uid ↦ (r.0, owner uid true)
                | none ↦
                    let w = write_node r.0 spec in
                    (w.0, elim w.1 [ some e ↦ refused e | none ↦ owner spec.new_uid false ])
              ])
    ]
