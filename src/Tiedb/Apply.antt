-- ===== src/Tiedb/Apply.antt =====
-- tiedb/apply.go: a list of operations as one critical section. All are validated before the first
-- is applied.
pub mod Validates
use tie.Prelude.{
  ℕ, zero, suc, Bool, true, false, Option, none, some, List, [], ◌∷◌, if◌then◌else◌, length, ◌⊎◌,
  inl, inr,
}
use tie.Tiedb.Triples.{Bytes}
use tie.Tiedb.AssociationSet
use tie.Tiedb.Collection.{Collection, Error, read_only_error, op_not_found, unknown_op}
use tie.Tiedb.Intern.{get_entry_from_string}
use tie.Tiedb.Assoc
use tie.Tiedb.Query.{associations_of}
use tie.Tiedb.Replace.{set_values}

-- A kind that is none of the six constants is `unknown`.
pub data OpKind : Type 0 where
  add delete set update update_add add_if_absent : OpKind
  unknown : Bytes → OpKind

pub record Op : Type 0 where
  pub kind : OpKind
  pub key : Bytes
  pub relation : Bytes
  pub values : List Bytes
  pub new_value : Bytes

first_of_values : List Bytes → Bytes
first_of_values [] = []
first_of_values (v ∷ vs) = v

unfoldable pub first_value : Op → Bytes
unfolding first_of_values
first_value op = first_of_values op.values

-- tripleExistsLocked: a lookup that fails ends it.
unfoldable pub triple_exists : Collection → Bytes → Bytes → Bytes → Collection × Bool
triple_exists ic key relation value =
    let r1 = get_entry_from_string ic key in
    elim r1.1 [
      | none ↦ (r1.0, false)
      | some (k, k_level) ↦
          let r2 = get_entry_from_string r1.0 relation in
          elim r2.1 [
            | none ↦ (r2.0, false)
            | some (v1, l1) ↦
                let r3 = get_entry_from_string r2.0 value in
                elim r3.1 [
                  | none ↦ (r3.0, false)
                  | some (v2, l2) ↦ (r3.0, Assoc.unique_association_exists r3.0 k_level k v1 v2)
                ]
          ]
    ]

unfoldable pub relation_has_values : Collection → Bytes → Bytes → Collection × Bool
relation_has_values ic key relation =
    let r1 = get_entry_from_string ic relation in
    elim r1.1 [
      | none ↦ (r1.0, false)
      | some (v1, l1) ↦
          let r2 = associations_of r1.0 key in
          (r2.0, elim r2.1 [ none ↦ false | some s ↦ AssociationSet.has_relation s v1 ])
    ]

-- The test of one operation before any is applied; `i` is its index.
unfoldable pub validate_op : Collection → ℕ → OpKind → Op → Collection × Option Error
validate_op ic i update op =
    let r = triple_exists ic op.key op.relation (first_value op) in
    (r.0, if r.1 then none else some (op_not_found i))
validate_op ic i (unknown k) op = (ic, some (unknown_op i))
validate_op ic i _ op = (ic, none)

unfoldable pub validate : Collection → ℕ → List Op → Collection × Option Error
unfolding validate_op
validate ic i [] = (ic, none)
validate ic i (op ∷ ops) =
    let r = validate_op ic i op.kind op in elim r.1 [ some e ↦ r | none ↦ validate r.0 (suc i) ops ]

add_values : Collection → Bytes → Bytes → List Bytes → Collection × Option Error
add_values ic key relation [] = (ic, none)
add_values ic key relation (v ∷ vs) =
    let r = Assoc.add ic key relation v in
    elim r.1 [ some e ↦ r | none ↦ add_values r.0 key relation vs ]

-- One operation of the second pass.
unfoldable pub run_op : Collection → ℕ → OpKind → Op → Collection × Option Error
unfolding add_values
run_op ic i add op = Assoc.add ic op.key op.relation (first_value op)
run_op ic i delete op = ((Assoc.delete ic op.key op.relation (first_value op)).0, none)
run_op ic i set op = (set_values ic op.key op.relation op.values, none)
run_op ic i update op =
    Assoc.add (Assoc.delete ic op.key op.relation (first_value op)).0 op.key op.relation
      op.new_value
run_op ic i update_add op =
    Assoc.add (Assoc.delete ic op.key op.relation (first_value op)).0 op.key op.relation
      op.new_value
run_op ic i add_if_absent op =
    let r = relation_has_values ic op.key op.relation in
    if r.1 then (r.0, none) else add_values r.0 op.key op.relation op.values
run_op ic i (unknown k) op = (ic, some (unknown_op i))

-- The second pass: the number of operations that were applied, and the error that stopped it.
unfoldable pub run_ops : Collection → ℕ → List Op → Collection × ℕ × Option Error
unfolding run_op
run_ops ic i [] = (ic, i, none)
run_ops ic i (op ∷ ops) =
    let r = run_op ic i op.kind op in
    elim r.1 [ some e ↦ (r.0, i, some e) | none ↦ run_ops r.0 (suc i) ops ]

unfoldable pub apply : Collection → List Op → Collection × ℕ × Option Error
apply ic ops = if ic.read_only then (ic, 0, some read_only_error) else elim ic.io_err [
  | some e ↦ (ic, 0, some e)
  | none ↦
      let r = validate ic 0 ops in elim r.1 [ some e ↦ (r.0, 0, some e) | none ↦ run_ops r.0 0 ops ]
]
